-- ===== src/Isa/Table.antt =====
-- src/isa/table.rs: the operations on tables with their guards. The constants of the package
-- rwasm-fuel-policy are the parameters `elems_per_fuel` and its logarithm.
use rwasm.Base.{ℕ, Bool, Option, List, [], ◌∷◌, ◌++◌, ltb, if◌then◌else◌}
use rwasm.Base.Ints.{pos}
use rwasm.Types.Opcode.{Opcode}
use rwasm.Types.Trap.{TrapCode}
use rwasm.Isa.Memory.{for_each, when_injected, guard_length, rewrite_source, charge_units}

-- Beyond the limit both operands go, and the answer is `u32::MAX`.
unfoldable pub table_limit : ℕ → Bool → ℕ → List Opcode
table_limit table_idx inject_fuel_check limit =
    Opcode.local_get 1
    ∷ Opcode.table_size table_idx
    ∷ Opcode.i32_add
    ∷ Opcode.i32_const limit
    ∷ Opcode.i32_gt_s
    ∷ Opcode.br_if_eqz (pos 5)
    ∷ Opcode.drop
    ∷ Opcode.drop
    ∷ Opcode.i32_const 4294967295
    ∷ Opcode.br (pos (if inject_fuel_check then 8 else 2))
    ∷ []

module _ (elems_per_fuel elems_per_fuel_log2 : ℕ) where
  -- The guard stands there for an empty segment too.
  unfoldable pub op_table_init_checked : ℕ → ℕ → ℕ → ℕ → Bool → List Opcode
  unfolding guard_length rewrite_source charge_units
  op_table_init_checked segment_index table_index length offset inject_fuel_check =
      guard_length TrapCode.table_out_of_bounds length
      ++ ((if ltb 0 offset then rewrite_source offset else [])
          ++ (when_injected inject_fuel_check (charge_units elems_per_fuel elems_per_fuel_log2)
              ++ (Opcode.table_init segment_index ∷ Opcode.table_get table_index ∷ [])))

  unfoldable pub op_table_grow_checked : ℕ → Option ℕ → Bool → List Opcode
  unfolding table_limit charge_units
  op_table_grow_checked table_idx limit_check inject_fuel_check =
      for_each (table_limit table_idx inject_fuel_check) limit_check
      ++ (when_injected inject_fuel_check (charge_units elems_per_fuel elems_per_fuel_log2)
          ++ (Opcode.table_grow table_idx ∷ []))

  unfoldable pub op_table_fill_checked : ℕ → Bool → List Opcode
  unfolding charge_units
  op_table_fill_checked table_idx inject_fuel_check =
      when_injected inject_fuel_check (charge_units elems_per_fuel elems_per_fuel_log2)
      ++ (Opcode.table_fill table_idx ∷ [])

  unfoldable pub op_table_copy_checked : ℕ → ℕ → Bool → List Opcode
  unfolding charge_units
  op_table_copy_checked dst_table_idx src_table_idx inject_fuel_check =
      when_injected inject_fuel_check (charge_units elems_per_fuel elems_per_fuel_log2)
      ++ (Opcode.table_copy dst_table_idx src_table_idx ∷ [])
