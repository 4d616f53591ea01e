-- ===== src/Types/Trap.antt =====
-- src/types/trap_code.rs: the reasons for which an execution stops.

pub data TrapCode : Type 0 where
  unreachable_code_reached memory_out_of_bounds table_out_of_bounds : TrapCode
  indirect_call_to_null integer_division_by_zero integer_overflow : TrapCode
  bad_conversion_to_integer stack_overflow bad_signature out_of_fuel : TrapCode
  unknown_external_function illegal_opcode interruption_called execution_halted : TrapCode

-- `Result<A, TrapCode>`.
pub data Checked {ℓ} (A : Type ℓ) : Type ℓ where
  ok : A → Checked A
  err : TrapCode → Checked A
