-- ===== src/Vm/Executor/Step.antt =====
-- `RwasmExecutor::step` of src/vm/executor.rs, without the `fpu` feature: one instruction. The
-- result is `true` once the outermost function has returned.
use rwasm.Base.{Bool, false}
use rwasm.Types.Trap.{illegal_opcode}
use rwasm.Types.Opcode.{Opcode}
use rwasm.Types.UntypedValue
use rwasm.Types.Bytes
use rwasm.Vm.Monad.{RwasmModule, Host, M, ◌>>◌, pure, raise}
use rwasm.Vm.Executor.Stack.{
  visit_bulk_const, visit_bulk_drop, visit_drop, visit_i32_const, visit_local_get, visit_local_set,
  visit_local_tee, visit_ref_func, visit_select,
}
use rwasm.Vm.Executor.Alu.{
  visit_unary, visit_binary, visit_fallible_binary, visit_i32_mul64, visit_i32_add64,
}
use rwasm.Vm.Executor.ControlFlow.{
  visit_br, visit_br_if, visit_br_if_nez, visit_br_table, visit_call, visit_call_indirect,
  visit_call_internal, visit_return, visit_return_call, visit_return_call_indirect,
  visit_return_call_internal, visit_trap_code, visit_unreachable,
}
use rwasm.Vm.Executor.Memory.{
  execute_load_extend, execute_store_wrap, visit_data_drop, visit_memory_copy, visit_memory_fill,
  visit_memory_grow, visit_memory_init, visit_memory_size,
}
use rwasm.Vm.Executor.Table.{
  visit_element_drop, visit_table_copy, visit_table_fill, visit_table_get, visit_table_grow,
  visit_table_init, visit_table_set, visit_table_size,
}
use rwasm.Vm.Executor.System.{
  visit_consume_fuel, visit_consume_fuel_stack, visit_signature_check, visit_stack_check,
  visit_global_get, visit_global_set,
}

module _ {T : Type 0} (host : Host T) (m : RwasmModule) where
  unfoldable pub step : Opcode → M T Bool
  unfolding visit_bulk_const visit_bulk_drop visit_drop visit_i32_const visit_local_get
      visit_local_set visit_local_tee visit_ref_func visit_select visit_unary visit_binary
      visit_fallible_binary visit_i32_mul64 visit_i32_add64 visit_br visit_br_if visit_br_if_nez
      visit_br_table visit_call visit_call_indirect visit_call_internal visit_return
      visit_return_call visit_return_call_indirect visit_return_call_internal visit_trap_code
      visit_unreachable execute_load_extend execute_store_wrap visit_data_drop visit_memory_copy
      visit_memory_fill visit_memory_grow visit_memory_init visit_memory_size visit_element_drop
      visit_table_copy visit_table_fill visit_table_get visit_table_grow visit_table_init
      visit_table_set visit_table_size visit_consume_fuel visit_consume_fuel_stack
      visit_signature_check visit_stack_check visit_global_get visit_global_set
  step Opcode.unreachable = do visit_unreachable; pure false
  step (Opcode.trap imm) = do visit_trap_code imm; pure false
  step (Opcode.local_get imm) = do visit_local_get imm; pure false
  step (Opcode.local_set imm) = do visit_local_set imm; pure false
  step (Opcode.local_tee imm) = do visit_local_tee imm; pure false
  step (Opcode.br imm) = do visit_br imm; pure false
  step (Opcode.br_if_eqz imm) = do visit_br_if imm; pure false
  step (Opcode.br_if_nez imm) = do visit_br_if_nez imm; pure false
  step (Opcode.br_table imm) = do visit_br_table imm; pure false
  step (Opcode.consume_fuel imm) = do visit_consume_fuel imm; pure false
  step Opcode.consume_fuel_stack = do visit_consume_fuel_stack; pure false
  step Opcode.return = visit_return
  step (Opcode.return_call_internal imm) = do visit_return_call_internal imm; pure false
  step (Opcode.return_call imm) = do visit_return_call host imm; pure false
  step (Opcode.return_call_indirect imm) = do visit_return_call_indirect m imm; pure false
  step (Opcode.call_internal imm) = do visit_call_internal imm; pure false
  step (Opcode.call imm) = do visit_call host imm; pure false
  step (Opcode.call_indirect imm) = do visit_call_indirect m imm; pure false
  step (Opcode.signature_check imm) = do visit_signature_check imm; pure false
  step (Opcode.stack_check imm) = do visit_stack_check imm; pure false
  step Opcode.drop = do visit_drop; pure false
  step Opcode.select = do visit_select; pure false
  step (Opcode.global_get imm) = do visit_global_get imm; pure false
  step (Opcode.global_set imm) = do visit_global_set imm; pure false
  step (Opcode.ref_func imm) = do visit_ref_func imm; pure false
  step (Opcode.i32_const imm) = do visit_i32_const imm; pure false
  step Opcode.i32_eqz = do visit_unary UntypedValue.i32_eqz; pure false
  step Opcode.i32_eq = do visit_binary UntypedValue.i32_eq; pure false
  step Opcode.i32_ne = do visit_binary UntypedValue.i32_ne; pure false
  step Opcode.i32_lt_s = do visit_binary UntypedValue.i32_lt_s; pure false
  step Opcode.i32_lt_u = do visit_binary UntypedValue.i32_lt_u; pure false
  step Opcode.i32_gt_s = do visit_binary UntypedValue.i32_gt_s; pure false
  step Opcode.i32_gt_u = do visit_binary UntypedValue.i32_gt_u; pure false
  step Opcode.i32_le_s = do visit_binary UntypedValue.i32_le_s; pure false
  step Opcode.i32_le_u = do visit_binary UntypedValue.i32_le_u; pure false
  step Opcode.i32_ge_s = do visit_binary UntypedValue.i32_ge_s; pure false
  step Opcode.i32_ge_u = do visit_binary UntypedValue.i32_ge_u; pure false
  step Opcode.i32_clz = do visit_unary UntypedValue.i32_clz; pure false
  step Opcode.i32_ctz = do visit_unary UntypedValue.i32_ctz; pure false
  step Opcode.i32_popcnt = do visit_unary UntypedValue.i32_popcnt; pure false
  step Opcode.i32_add = do visit_binary UntypedValue.i32_add; pure false
  step Opcode.i32_sub = do visit_binary UntypedValue.i32_sub; pure false
  step Opcode.i32_mul = do visit_binary UntypedValue.i32_mul; pure false
  step Opcode.i32_div_s = do visit_fallible_binary UntypedValue.i32_div_s; pure false
  step Opcode.i32_div_u = do visit_fallible_binary UntypedValue.i32_div_u; pure false
  step Opcode.i32_rem_s = do visit_fallible_binary UntypedValue.i32_rem_s; pure false
  step Opcode.i32_rem_u = do visit_fallible_binary UntypedValue.i32_rem_u; pure false
  step Opcode.i32_and = do visit_binary UntypedValue.i32_and; pure false
  step Opcode.i32_or = do visit_binary UntypedValue.i32_or; pure false
  step Opcode.i32_xor = do visit_binary UntypedValue.i32_xor; pure false
  step Opcode.i32_shl = do visit_binary UntypedValue.i32_shl; pure false
  step Opcode.i32_shr_s = do visit_binary UntypedValue.i32_shr_s; pure false
  step Opcode.i32_shr_u = do visit_binary UntypedValue.i32_shr_u; pure false
  step Opcode.i32_rotl = do visit_binary UntypedValue.i32_rotl; pure false
  step Opcode.i32_rotr = do visit_binary UntypedValue.i32_rotr; pure false
  step Opcode.i32_wrap_i64 = do visit_unary UntypedValue.i32_wrap_i64; pure false
  step Opcode.i32_extend8_s = do visit_unary UntypedValue.i32_extend8_s; pure false
  step Opcode.i32_extend16_s = do visit_unary UntypedValue.i32_extend16_s; pure false
  step Opcode.i32_mul64 = do visit_i32_mul64; pure false
  step Opcode.i32_add64 = do visit_i32_add64; pure false
  step (Opcode.bulk_const imm) = do visit_bulk_const imm; pure false
  step (Opcode.bulk_drop imm) = do visit_bulk_drop imm; pure false
  step Opcode.memory_size = do visit_memory_size; pure false
  step Opcode.memory_grow = do visit_memory_grow host.can_reserve; pure false
  step Opcode.memory_fill = do visit_memory_fill; pure false
  step Opcode.memory_copy = do visit_memory_copy; pure false
  step (Opcode.memory_init imm) = do visit_memory_init m imm; pure false
  step (Opcode.data_drop imm) = do visit_data_drop imm; pure false
  step (Opcode.i32_load imm) = do execute_load_extend imm Bytes.i32_load; pure false
  step (Opcode.i32_load8_s imm) = do execute_load_extend imm Bytes.i32_load8_s; pure false
  step (Opcode.i32_load8_u imm) = do execute_load_extend imm Bytes.i32_load8_u; pure false
  step (Opcode.i32_load16_s imm) = do execute_load_extend imm Bytes.i32_load16_s; pure false
  step (Opcode.i32_load16_u imm) = do execute_load_extend imm Bytes.i32_load16_u; pure false
  step (Opcode.i32_store imm) = do execute_store_wrap imm Bytes.i32_store; pure false
  step (Opcode.i32_store8 imm) = do execute_store_wrap imm Bytes.i32_store8; pure false
  step (Opcode.i32_store16 imm) = do execute_store_wrap imm Bytes.i32_store16; pure false
  step (Opcode.table_size imm) = do visit_table_size imm; pure false
  step (Opcode.table_grow imm) = do visit_table_grow host.can_reserve imm; pure false
  step (Opcode.table_fill imm) = do visit_table_fill imm; pure false
  step (Opcode.table_get imm) = do visit_table_get imm; pure false
  step (Opcode.table_set imm) = do visit_table_set imm; pure false
  step (Opcode.table_copy dst src) = do visit_table_copy dst src; pure false
  step (Opcode.table_init imm) = do visit_table_init m imm; pure false
  step (Opcode.elem_drop imm) = do visit_element_drop imm; pure false
  step (Opcode.fpu f) = raise illegal_opcode
