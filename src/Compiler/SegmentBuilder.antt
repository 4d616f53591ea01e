-- ===== src/Compiler/SegmentBuilder.antt =====
-- src/compiler/segment_builder.rs: the data and the elements of a module, and the entry point that
-- sets them up. The two maps are lists of pairs, of which the first for a key counts. A `usize` that
-- becomes a cell or an `u32` is cut to 32 bits; the assertion of debug builds that a cell holds it
-- is left out.
pub mod Sections
use rwasm.Base.{
  ℕ, zero, suc, ◌+◌, ◌-◌, ◌*◌, ◌/◌, ◌%◌, ◌^◌, min, Bool, true, false, Option, some, none, List, [],
  ◌∷◌, ◌++◌, length, ltb, leb, ◌==◌, if◌then◌else◌,
}
use rwasm.Types.Opcode.{Opcode}
use rwasm.Types.Value.{ValType}
use rwasm.Compiler.Error.{
  Result, ok, err, CompilationError, max_readonly_data_reached, not_supported_global_type,
}

abbrev pub Sections : Type 0
Sections = List (ℕ × (ℕ × ℕ))

pub record SegmentBuilder : Type 0 where
  pub global_memory_section : List ℕ
  pub memory_sections : Sections
  pub global_element_section : List ℕ
  pub element_sections : Sections
  pub total_allocated_pages : ℕ
  pub entrypoint_bytecode : List Opcode

unfoldable pub lookup : ℕ → Sections → Option (ℕ × ℕ)
lookup key [] = none
lookup key ((k, section) ∷ rest) = if k == key then some section else lookup key rest

unfoldable pub default : SegmentBuilder
default = record {
  global_memory_section = [];
  memory_sections = [];
  global_element_section = [];
  element_sections = [];
  total_allocated_pages = 0;
  entrypoint_bytecode = Opcode.stack_check 5 ∷ [];
}

abbrev pub emit_entry : List Opcode → SegmentBuilder → SegmentBuilder
emit_entry code b = record b { entrypoint_bytecode = b.entrypoint_bytecode ++ code }

-- The instructions that bring a default value of a type on the stack.
abbrev constant_code : ValType → ℕ → Option (List Opcode)
constant_code ValType.i32 v = some (Opcode.i32_const (v % 2 ^ 32) ∷ [])
constant_code ValType.f32 v = some (Opcode.i32_const (v % 2 ^ 32) ∷ [])
constant_code ValType.i64 v =
    some (Opcode.i32_const (v % 2 ^ 32) ∷ Opcode.i32_const (v / 2 ^ 32 % 2 ^ 32) ∷ [])
constant_code ValType.f64 v =
    some (Opcode.i32_const (v % 2 ^ 32) ∷ Opcode.i32_const (v / 2 ^ 32 % 2 ^ 32) ∷ [])
constant_code ValType.func_ref v = some (Opcode.ref_func (v % 2 ^ 32) ∷ [])
constant_code ValType.extern_ref v = some (Opcode.ref_func (v % 2 ^ 32) ∷ [])
constant_code ValType.v128 v = none

abbrev second_global : ValType → ℕ → List Opcode
second_global ValType.i64 global_idx = Opcode.global_set (global_idx * 2 + 1) ∷ []
second_global ValType.f64 global_idx = Opcode.global_set (global_idx * 2 + 1) ∷ []
second_global _ global_idx = []

abbrev set_global :
    ℕ → ValType → Option (List Opcode) → SegmentBuilder → Result CompilationError SegmentBuilder
set_global global_idx ty none b = err not_supported_global_type
set_global global_idx ty (some code) b =
    ok (emit_entry (code ++ (Opcode.global_set (global_idx * 2) ∷ second_global ty global_idx)) b)

unfoldable pub add_global_variable :
    ℕ → ValType → ℕ → SegmentBuilder → Result CompilationError SegmentBuilder
add_global_variable global_idx content_type default_value b =
    set_global global_idx content_type (constant_code content_type default_value) b

abbrev grow_code : ℕ → List Opcode
grow_code initial_pages =
    if ltb 0 initial_pages
    then Opcode.i32_const initial_pages ∷ Opcode.memory_grow ∷ Opcode.drop ∷ []
    else []

-- `saturating_add`; as many pages as allowed are too many already.
unfoldable pub add_memory_pages : ℕ → ℕ → SegmentBuilder → Result CompilationError SegmentBuilder
add_memory_pages initial_pages max_allowed_memory_pages b =
    let next_pages = min (b.total_allocated_pages + initial_pages) (2 ^ 32 - 1) in
    if leb max_allowed_memory_pages next_pages
    then err max_readonly_data_reached
    else ok (emit_entry (grow_code initial_pages) (record b { total_allocated_pages = next_pages }))

-- The table begins with null references: `NULL_FUNC_IDX` is 0.
unfoldable pub emit_table_segment : ℕ → ℕ → SegmentBuilder → SegmentBuilder
emit_table_segment table_index initial = emit_entry (
    Opcode.ref_func 0 ∷ Opcode.i32_const initial ∷ Opcode.table_grow table_index ∷ Opcode.drop ∷ [])

-- The pages that the segment reaches are more than there are; a sum that overflows counts as fewer.
unfoldable pub has_memory_overflow : ℕ → ℕ → ℕ → Bool
has_memory_overflow offset size total_allocated_pages =
    if ltb (offset + size + 65535) (2 ^ 32)
    then ltb total_allocated_pages ((offset + size + 65535) / 65536)
    else false

-- The length that does not fit is `u32::MAX`, so that the instruction traps.
unfoldable pub add_active_memory : ℕ → ℕ → List ℕ → SegmentBuilder → SegmentBuilder
unfolding has_memory_overflow
add_active_memory segment_idx offset bytes b =
    emit_entry
      (Opcode.i32_const offset
        ∷ Opcode.i32_const (length b.global_memory_section % 2 ^ 32)
        ∷ Opcode.i32_const (
            if has_memory_overflow offset (length bytes % 2 ^ 32) b.total_allocated_pages
            then 4294967295
            else length bytes % 2 ^ 32)
        ∷ Opcode.memory_init 0
        ∷ Opcode.data_drop (segment_idx + 1)
        ∷ [])
      (record b {
        global_memory_section = b.global_memory_section ++ bytes;
        memory_sections = (segment_idx, (offset, length bytes % 2 ^ 32)) ∷ b.memory_sections;
      })

unfoldable pub add_passive_memory : ℕ → List ℕ → SegmentBuilder → SegmentBuilder
add_passive_memory segment_idx bytes b = record b {
  global_memory_section = b.global_memory_section ++ bytes;
  memory_sections =
      (segment_idx, (length b.global_memory_section % 2 ^ 32, length bytes % 2 ^ 32))
      ∷ b.memory_sections;
}

unfoldable pub add_active_elements : ℕ → ℕ → ℕ → List ℕ → SegmentBuilder → SegmentBuilder
add_active_elements segment_idx offset table_idx elements b =
    emit_entry
      (Opcode.i32_const offset
        ∷ Opcode.i32_const (length b.global_element_section % 2 ^ 32)
        ∷ Opcode.i32_const (length elements % 2 ^ 32)
        ∷ Opcode.table_init (segment_idx + 1)
        ∷ Opcode.table_get table_idx
        ∷ Opcode.elem_drop (segment_idx + 1)
        ∷ [])
      (record b {
        global_element_section = b.global_element_section ++ elements;
        element_sections = (segment_idx, (offset, length elements % 2 ^ 32)) ∷ b.element_sections;
      })

unfoldable pub add_passive_elements : ℕ → List ℕ → SegmentBuilder → SegmentBuilder
add_passive_elements segment_idx elements b =
    let segment_offset = length b.global_element_section % 2 ^ 32 in
    let end = length (b.global_element_section ++ elements) % 2 ^ 32 in
    record b {
      global_element_section = b.global_element_section ++ elements;
      element_sections =
          (segment_idx, (segment_offset, (end + 2 ^ 32 - segment_offset) % 2 ^ 32))
          ∷ b.element_sections;
    }
