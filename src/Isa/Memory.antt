-- ===== src/Isa/Memory.antt =====
-- src/isa/memory.rs: 64-bit loads and stores, and the operations on memory with their guards. The
-- constants of the package rwasm-fuel-policy are the parameters `bytes_per_fuel` and its logarithm.
use rwasm.Base.{
  ℕ, ◌+◌, ◌-◌, ◌^◌, min, Bool, Option, some, none, List, [], ◌∷◌, ◌++◌, ltb, if◌then◌else◌,
}
use rwasm.Base.Ints.{pos}
use rwasm.Types.Opcode.{Opcode}
use rwasm.Types.Trap.{TrapCode}

abbrev pub msh_i64_load : ℕ
msh_i64_load = 2

abbrev pub msh_i64_store : ℕ
msh_i64_store = 2

-- `offset.saturating_add(4)`.
abbrev pub next_word : ℕ → ℕ
next_word offset = min (offset + 4) (2 ^ 32 - 1)

unfoldable pub op_i64_load : ℕ → List Opcode
op_i64_load offset =
    Opcode.local_get 1
    ∷ Opcode.i32_load (next_word offset)
    ∷ Opcode.local_get 2
    ∷ Opcode.i32_load offset
    ∷ Opcode.local_set 2
    ∷ []

-- A signed narrow load gets its sign as the high word.
abbrev signed_load : Opcode → List Opcode
signed_load load = load ∷ Opcode.local_get 1 ∷ Opcode.i32_const 31 ∷ Opcode.i32_shr_s ∷ []

unfoldable pub op_i64_load8_s : ℕ → List Opcode
op_i64_load8_s offset = signed_load (Opcode.i32_load8_s offset)

unfoldable pub op_i64_load8_u : ℕ → List Opcode
op_i64_load8_u offset = Opcode.i32_load8_u offset ∷ Opcode.i32_const 0 ∷ []

unfoldable pub op_i64_load16_s : ℕ → List Opcode
op_i64_load16_s offset = signed_load (Opcode.i32_load16_s offset)

unfoldable pub op_i64_load16_u : ℕ → List Opcode
op_i64_load16_u offset = Opcode.i32_load16_u offset ∷ Opcode.i32_const 0 ∷ []

unfoldable pub op_i64_load32_s : ℕ → List Opcode
op_i64_load32_s offset = signed_load (Opcode.i32_load offset)

unfoldable pub op_i64_load32_u : ℕ → List Opcode
op_i64_load32_u offset = Opcode.i32_load offset ∷ Opcode.i32_const 0 ∷ []

unfoldable pub op_i64_store : ℕ → List Opcode
op_i64_store offset =
    Opcode.local_get 3
    ∷ Opcode.local_get 2
    ∷ Opcode.i32_store (next_word offset)
    ∷ Opcode.drop
    ∷ Opcode.i32_store offset
    ∷ []

unfoldable pub op_i64_store8 : ℕ → List Opcode
op_i64_store8 offset = Opcode.drop ∷ Opcode.i32_store8 offset ∷ []

unfoldable pub op_i64_store16 : ℕ → List Opcode
op_i64_store16 offset = Opcode.drop ∷ Opcode.i32_store16 offset ∷ []

unfoldable pub op_i64_store32 : ℕ → List Opcode
op_i64_store32 offset = Opcode.drop ∷ Opcode.i32_store offset ∷ []

-- `v.filter(|v| *v > 0)`, followed by what is emitted for it.
abbrev pub unless_zero : (ℕ → List Opcode) → Option ℕ → List Opcode
unless_zero code none = []
unless_zero code (some v) = if ltb 0 v then code v else []

abbrev pub for_each : (ℕ → List Opcode) → Option ℕ → List Opcode
for_each code none = []
for_each code (some v) = code v

-- Before the number of bytes is copied, or of whatever the fuel counts: more than the guarded amount
-- of the cells `n` and `s` traps.
unfoldable pub guard_length : TrapCode → ℕ → List Opcode
guard_length trap length =
    Opcode.local_get 1
    ∷ Opcode.local_get 3
    ∷ Opcode.i32_add
    ∷ Opcode.i32_const length
    ∷ Opcode.i32_gt_s
    ∷ Opcode.br_if_eqz (pos 2)
    ∷ Opcode.trap trap
    ∷ []

-- The source moves to where the segment begins.
unfoldable pub rewrite_source : ℕ → List Opcode
rewrite_source offset =
    Opcode.i32_const offset ∷ Opcode.local_get 3 ∷ Opcode.i32_add ∷ Opcode.local_set 2 ∷ []

abbrev pub when_injected : Bool → List Opcode → List Opcode
when_injected inject_fuel_check code = if inject_fuel_check then code else []

-- `n / unit`, rounded up, is charged.
unfoldable pub charge_units : ℕ → ℕ → List Opcode
charge_units unit unit_log2 =
    Opcode.local_get 1
    ∷ Opcode.i32_const (unit - 1)
    ∷ Opcode.i32_add
    ∷ Opcode.i32_const unit_log2
    ∷ Opcode.i32_shr_u
    ∷ Opcode.consume_fuel_stack
    ∷ []

unfoldable pub grow_limit : Bool → ℕ → List Opcode
grow_limit inject_fuel_check max_pages =
    Opcode.local_get 1
    ∷ Opcode.memory_size
    ∷ Opcode.i32_add
    ∷ Opcode.i32_const max_pages
    ∷ Opcode.i32_gt_s
    ∷ Opcode.br_if_eqz (pos 4)
    ∷ Opcode.drop
    ∷ Opcode.i32_const 4294967295
    ∷ Opcode.br (pos (if inject_fuel_check then 8 else 2))
    ∷ []

module _ (bytes_per_fuel bytes_per_fuel_log2 : ℕ) where
  unfoldable pub op_memory_grow_checked : Option ℕ → Bool → List Opcode
  unfolding grow_limit
  op_memory_grow_checked max_pages inject_fuel_check =
      for_each (grow_limit inject_fuel_check) max_pages
      ++ (when_injected inject_fuel_check (
            Opcode.local_get 1
            ∷ Opcode.i32_const 65536
            ∷ Opcode.i32_mul
            ∷ Opcode.i32_const bytes_per_fuel_log2
            ∷ Opcode.i32_shr_u
            ∷ Opcode.consume_fuel_stack
            ∷ [])
          ++ (Opcode.memory_grow ∷ []))

  unfoldable pub op_memory_fill_checked : Bool → List Opcode
  unfolding charge_units
  op_memory_fill_checked inject_fuel_check =
      when_injected inject_fuel_check (charge_units bytes_per_fuel bytes_per_fuel_log2)
      ++ (Opcode.memory_fill ∷ [])

  unfoldable pub op_memory_copy_checked : Bool → List Opcode
  unfolding charge_units
  op_memory_copy_checked inject_fuel_check =
      when_injected inject_fuel_check (charge_units bytes_per_fuel bytes_per_fuel_log2)
      ++ (Opcode.memory_copy ∷ [])

  unfoldable pub op_memory_init_checked : Option ℕ → Option ℕ → ℕ → Bool → List Opcode
  unfolding guard_length rewrite_source charge_units
  op_memory_init_checked rewrite_offset rewrite_length data_segment_index inject_fuel_check =
      unless_zero (guard_length TrapCode.memory_out_of_bounds) rewrite_length
      ++ (unless_zero rewrite_source rewrite_offset
          ++ (when_injected inject_fuel_check (charge_units bytes_per_fuel bytes_per_fuel_log2)
              ++ (Opcode.memory_init data_segment_index ∷ [])))
