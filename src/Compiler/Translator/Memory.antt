-- ===== src/Compiler/Translator/Memory.antt =====
-- src/compiler/translator.rs: the operators on the memory. What the module declares is read only here
-- and is a parameter: the segments, the maximum of the memory, the limits of the configuration and
-- the constants of the package rwasm-fuel-policy.
use rwasm.Base.{ℕ, ◌+◌, ◌%◌, ◌^◌, Bool, Option, some, none, List, [], ◌∷◌, leb, ◌&&◌, if◌then◌else◌}
use rwasm.Types.Opcode.{Opcode}
use rwasm.Types.Value.{ValType}
use rwasm.Isa.Memory.{
  op_memory_grow_checked, op_memory_fill_checked, op_memory_copy_checked, op_memory_init_checked,
  op_i64_load, msh_i64_load, op_i64_load8_s, op_i64_load8_u, op_i64_load16_s, op_i64_load16_u,
  op_i64_load32_s, op_i64_load32_u, op_i64_store, msh_i64_store, op_i64_store8, op_i64_store16,
  op_i64_store32,
}
use rwasm.Compiler.Error.{memory_out_of_bounds}
use rwasm.Compiler.SegmentBuilder.{Sections, lookup}
use rwasm.Compiler.Translator.{
  FuelCosts, Tr, ◌>>=◌, ◌>>◌, pure, done, failed, emit, push_stack_type, pop_stack_type, push_n,
  pop_n, push_type, pop_type, bump_fuel_consumption, translate_if_reachable,
}

pub record Limits : Type 0 where
  pub consume_fuel_for_bulk_ops : Bool
  pub max_allowed_memory_pages : ℕ
  pub memory_maximum : Option ℕ
  pub memory_sections : Sections
  pub element_sections : Sections
  pub bytes_per_fuel : ℕ
  pub bytes_per_fuel_log2 : ℕ
  pub elems_per_fuel : ℕ
  pub elems_per_fuel_log2 : ℕ

-- The loads and the stores of integers.
pub data Load : Type 0 where
  i32_load i32_load8_s i32_load8_u i32_load16_s i32_load16_u i64_load : Load
  i64_load8_s i64_load8_u i64_load16_s i64_load16_u i64_load32_s i64_load32_u : Load

pub data Store : Type 0 where
  i32_store i32_store8 i32_store16 i64_store i64_store8 i64_store16 i64_store32 : Store

abbrev pub pop_three : Tr (Unit {0})
pop_three = pop_stack_type >>= λ _. pop_stack_type >>= λ _. pop_stack_type >>= λ _. pure tt

abbrev pub injected : Limits → Tr Bool
injected limits t = done (limits.consume_fuel_for_bulk_ops && t.with_consume_fuel) t

-- The smaller of the two maxima; one that does not fit an `u32` does not count.
unfoldable pub max_pages : Limits → ℕ
max_pages limits = bounded limits.memory_maximum
  where
    bounded : Option ℕ → ℕ
    bounded none = limits.max_allowed_memory_pages
    bounded (some n) =
        if leb n limits.max_allowed_memory_pages then n else limits.max_allowed_memory_pages

abbrev section_or_error : Option (ℕ × ℕ) → Tr (ℕ × ℕ)
section_or_error none t = failed memory_out_of_bounds
section_or_error (some section) t = done section t

module _ (costs : FuelCosts) where
  -- The offset is cut to 32 bits.
  unfoldable pub translate_load : ℕ → ValType → (ℕ → List Opcode) → ℕ → Tr (Unit {0})
  unfolding bump_fuel_consumption
  translate_load offset loaded_type emitter max_stack_height = translate_if_reachable (do
    bump_fuel_consumption costs.load
    addr_type ← pop_stack_type
    push_n max_stack_height
    pop_type addr_type
    push_type loaded_type
    pop_n max_stack_height
    push_stack_type loaded_type
    emit (emitter (offset % 2 ^ 32)))

  unfoldable pub translate_store : ℕ → (ℕ → List Opcode) → ℕ → Tr (Unit {0})
  unfolding bump_fuel_consumption
  translate_store offset emitter max_stack_height = translate_if_reachable (do
    bump_fuel_consumption costs.store
    push_n max_stack_height
    value_type ← pop_stack_type
    pop_type value_type
    addr_type ← pop_stack_type
    pop_type addr_type
    pop_n max_stack_height
    emit (emitter (offset % 2 ^ 32)))

  unfoldable pub visit_load : Load → ℕ → Tr (Unit {0})
  unfolding translate_load
  visit_load Load.i32_load offset =
      translate_load offset ValType.i32 (λ offset. Opcode.i32_load offset ∷ []) 0
  visit_load Load.i32_load8_s offset =
      translate_load offset ValType.i32 (λ offset. Opcode.i32_load8_s offset ∷ []) 0
  visit_load Load.i32_load8_u offset =
      translate_load offset ValType.i32 (λ offset. Opcode.i32_load8_u offset ∷ []) 0
  visit_load Load.i32_load16_s offset =
      translate_load offset ValType.i32 (λ offset. Opcode.i32_load16_s offset ∷ []) 0
  visit_load Load.i32_load16_u offset =
      translate_load offset ValType.i32 (λ offset. Opcode.i32_load16_u offset ∷ []) 0
  visit_load Load.i64_load offset =
      translate_load offset ValType.i64 (λ offset. op_i64_load offset) msh_i64_load
  visit_load Load.i64_load8_s offset =
      translate_load offset ValType.i64 (λ offset. op_i64_load8_s offset) 1
  visit_load Load.i64_load8_u offset =
      translate_load offset ValType.i64 (λ offset. op_i64_load8_u offset) 1
  visit_load Load.i64_load16_s offset =
      translate_load offset ValType.i64 (λ offset. op_i64_load16_s offset) 1
  visit_load Load.i64_load16_u offset =
      translate_load offset ValType.i64 (λ offset. op_i64_load16_u offset) 1
  visit_load Load.i64_load32_s offset =
      translate_load offset ValType.i64 (λ offset. op_i64_load32_s offset) 1
  visit_load Load.i64_load32_u offset =
      translate_load offset ValType.i64 (λ offset. op_i64_load32_u offset) 1

  unfoldable pub visit_store : Store → ℕ → Tr (Unit {0})
  unfolding translate_store
  visit_store Store.i32_store offset =
      translate_store offset (λ offset. Opcode.i32_store offset ∷ []) 0
  visit_store Store.i32_store8 offset =
      translate_store offset (λ offset. Opcode.i32_store8 offset ∷ []) 0
  visit_store Store.i32_store16 offset =
      translate_store offset (λ offset. Opcode.i32_store16 offset ∷ []) 0
  visit_store Store.i64_store offset =
      translate_store offset (λ offset. op_i64_store offset) msh_i64_store
  visit_store Store.i64_store8 offset = translate_store offset (λ offset. op_i64_store8 offset) 0
  visit_store Store.i64_store16 offset = translate_store offset (λ offset. op_i64_store16 offset) 0
  visit_store Store.i64_store32 offset = translate_store offset (λ offset. op_i64_store32 offset) 0

  unfoldable pub visit_memory_size : Tr (Unit {0})
  unfolding bump_fuel_consumption
  visit_memory_size = translate_if_reachable (do
    bump_fuel_consumption costs.entity
    push_stack_type ValType.i32
    push_n 1
    emit (Opcode.memory_size ∷ []))

  -- 0 is kept for the null reference.
  unfoldable pub visit_ref_func : ℕ → Tr (Unit {0})
  unfolding bump_fuel_consumption
  visit_ref_func function_index = translate_if_reachable (do
    bump_fuel_consumption costs.base
    push_stack_type ValType.func_ref
    push_n 1
    emit (Opcode.ref_func (function_index + 1) ∷ []))

  unfoldable pub visit_data_drop : ℕ → Tr (Unit {0})
  unfolding bump_fuel_consumption
  visit_data_drop data_index =
      translate_if_reachable
        (bump_fuel_consumption costs.entity >> emit (Opcode.data_drop (data_index + 1) ∷ []))

  module _ (limits : Limits) where
    unfoldable pub visit_memory_grow : Tr (Unit {0})
    unfolding bump_fuel_consumption max_pages op_memory_grow_checked
    visit_memory_grow = translate_if_reachable (do
      bump_fuel_consumption costs.entity
      inject ← injected limits
      emit (
          op_memory_grow_checked limits.bytes_per_fuel limits.bytes_per_fuel_log2
            (some (max_pages limits)) inject)
      popped_type ← pop_stack_type
      push_stack_type popped_type
      push_n 2
      pop_n 2
      pop_type ValType.i32
      push_type ValType.i32)

    unfoldable pub visit_memory_init : ℕ → Tr (Unit {0})
    unfolding bump_fuel_consumption op_memory_init_checked lookup
    visit_memory_init data_segment_index = translate_if_reachable (do
      bump_fuel_consumption costs.entity
      pop_three
      inject ← injected limits
      section ← section_or_error (lookup data_segment_index limits.memory_sections)
      push_n 2
      pop_n 2
      pop_n 3
      emit (
          op_memory_init_checked limits.bytes_per_fuel limits.bytes_per_fuel_log2 (some section.0)
            (some section.1) (data_segment_index + 1) inject))

    unfoldable pub visit_memory_copy : Tr (Unit {0})
    unfolding bump_fuel_consumption op_memory_copy_checked
    visit_memory_copy = translate_if_reachable (do
      bump_fuel_consumption costs.entity
      push_n 2
      pop_n 2
      pop_n 3
      pop_three
      inject ← injected limits
      emit (op_memory_copy_checked limits.bytes_per_fuel limits.bytes_per_fuel_log2 inject))

    unfoldable pub visit_memory_fill : Tr (Unit {0})
    unfolding bump_fuel_consumption op_memory_fill_checked
    visit_memory_fill = translate_if_reachable (do
      bump_fuel_consumption costs.entity
      push_n 2
      pop_n 2
      pop_n 3
      pop_three
      inject ← injected limits
      emit (op_memory_fill_checked limits.bytes_per_fuel limits.bytes_per_fuel_log2 inject))
