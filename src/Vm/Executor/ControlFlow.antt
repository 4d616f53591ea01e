-- ===== src/Vm/Executor/ControlFlow.antt =====
-- src/vm/executor/control_flow.rs, and `invoke_syscall` and `fetch_table_index` of
-- src/vm/executor.rs.
use rwasm.Base.{
  ℕ, zero, suc, ◌+◌, ◌*◌, Bool, true, false, Option, none, some, List, [], ◌∷◌, reverse, leb, ◌==◌,
  if◌then◌else◌, length, get_elem?, min, max,
}
use rwasm.Types.Trap.{
  TrapCode, Checked, unreachable_code_reached, indirect_call_to_null, table_out_of_bounds,
  stack_overflow, execution_halted,
}
use rwasm.Types.Trap
use rwasm.Types.BranchOffset.{BranchOffset, apply_offset}
use rwasm.Types.UntypedValue.{to_bool}
use rwasm.Types.Limits.{n_max_recursion_depth, null_func_idx}
use rwasm.Types.Opcode.{Opcode}
use rwasm.Types.Value.{Value, ValType}
use rwasm.Vm.ValueStack
use rwasm.Vm.TableEntity.{get_untyped}
use rwasm.Vm.Monad.{
  RwasmModule, Host, M, ◌>>=◌, ◌>>◌, pure, raise, get, expect, ok_or, checked, on_sp, put_store,
  put_ip, advance,
}

-- `Value::default`; the parser's vector type makes it panic.
unfoldable pub default_value : ValType → Option Value
default_value ValType.i32 = some (Value.i32 0)
default_value ValType.i64 = some (Value.i64 0)
default_value ValType.f32 = some (Value.f32 0)
default_value ValType.f64 = some (Value.f64 0)
default_value ValType.v128 = none
default_value ValType.func_ref = some (Value.func_ref null_func_idx)
default_value ValType.extern_ref = some (Value.extern_ref null_func_idx)

-- `targets as usize - 1`, which overflows at no targets.
abbrev max_index : ℕ → Option ℕ
max_index zero = none
max_index (suc n) = some n

abbrev table_operand : Opcode → Option ℕ
table_operand (Opcode.table_get table_idx) = some table_idx
table_operand _ = none

module _ {T : Type 0} where
  unfoldable pub visit_unreachable : M T (Unit {0})
  visit_unreachable = raise unreachable_code_reached

  unfoldable pub visit_trap_code : TrapCode → M T (Unit {0})
  visit_trap_code trap_code = raise trap_code

  unfoldable pub visit_br : BranchOffset → M T (Unit {0})
  unfolding apply_offset
  visit_br branch_offset = do
    x ← get
    target ← expect (apply_offset x.ip branch_offset)
    put_ip target

  unfoldable pub visit_br_if : BranchOffset → M T (Unit {0})
  unfolding ValueStack.pop visit_br
  visit_br_if branch_offset = do
    condition ← on_sp ValueStack.pop
    if to_bool condition then advance 1 else visit_br branch_offset

  unfoldable pub visit_br_if_nez : BranchOffset → M T (Unit {0})
  unfolding ValueStack.pop visit_br
  visit_br_if_nez branch_offset = do
    condition ← on_sp ValueStack.pop
    if to_bool condition then visit_br branch_offset else advance 1

  unfoldable pub visit_br_table : ℕ → M T (Unit {0})
  unfolding ValueStack.pop
  visit_br_table targets = do
    index ← on_sp ValueStack.pop
    last ← expect (max_index targets)
    advance (2 * min index last + 1)

  -- `true` once the outermost function returns.
  unfoldable pub visit_return : M T Bool
  visit_return x = elim x.call_stack [
    | [] ↦ pure true x
    | ip ∷ rest ↦ pure false (record x { call_stack = rest; ip = ip })
  ]

  unfoldable pub visit_return_call_internal : ℕ → M T (Unit {0})
  visit_return_call_internal compiled_func = put_ip compiled_func

  unfoldable pub push_frame : M T (Unit {0})
  push_frame x =
      if leb n_max_recursion_depth (length x.call_stack)
      then raise stack_overflow x
      else pure tt (record x { call_stack = x.ip ∷ x.call_stack })

  unfoldable pub visit_call_internal : ℕ → M T (Unit {0})
  unfolding push_frame
  visit_call_internal compiled_func = do advance 1; push_frame; put_ip compiled_func

  unfoldable pub pop_values : List ValType → M T (List Value)
  unfolding ValueStack.pop_value
  pop_values [] = pure []
  pop_values (t ∷ ts) =
      on_sp (ValueStack.pop_value t) >>= λ v. pop_values ts >>= λ vs. pure (v ∷ vs)

  unfoldable pub default_values : List ValType → M T (List Value)
  unfolding default_value
  default_values [] = pure []
  default_values (t ∷ ts) =
      expect (default_value t) >>= λ v. default_values ts >>= λ vs. pure (v ∷ vs)

  unfoldable pub push_values : List Value → M T (Unit {0})
  unfolding ValueStack.push_value
  push_values [] = pure tt
  push_values (v ∷ vs) = on_sp (ValueStack.push_value v) >>= λ _. push_values vs

  -- The results are written back if the handler succeeds, and if it halts the execution.
  unfoldable pub finish_syscall : List Value → Checked (Unit {0}) → M T (Unit {0})
  unfolding push_values
  finish_syscall result (Trap.ok _) = push_values result
  finish_syscall result (Trap.err execution_halted) = do push_values result; raise execution_halted
  finish_syscall result (Trap.err e) = raise e

  module _ (host : Host T) where
    -- The parameters are popped in their declared order and handed over in reverse.
    unfoldable pub invoke_syscall : ℕ → M T (Unit {0})
    unfolding ValueStack.reserve pop_values default_values finish_syscall
    invoke_syscall sys_func_idx = do
      (param_types, result_types) ← expect (host.linker sys_func_idx)
      x ← get
      s ←
          checked
            (ValueStack.reserve (max (length param_types) (length result_types)) x.value_stack)
      on_sp (λ _. some (tt, s))
      popped ← pop_values param_types
      defaults ← default_values result_types
      y ← get
      let answer = host.syscall_handler sys_func_idx (reverse popped) defaults y.store
      put_store answer.2
      finish_syscall answer.1 answer.0

    unfoldable pub visit_call : ℕ → M T (Unit {0})
    unfolding invoke_syscall
    visit_call sys_func_idx = do advance 1; invoke_syscall sys_func_idx

    unfoldable pub visit_return_call : ℕ → M T (Unit {0})
    unfolding invoke_syscall
    visit_return_call sys_func_idx = do advance 1; invoke_syscall sys_func_idx

  module _ (m : RwasmModule) where
    -- The table of an instruction stands in the `table_get` behind it.
    unfoldable pub fetch_table_index : ℕ → M T ℕ
    fetch_table_index offset = do
      x ← get
      op ← expect (get_elem? m.code_section (x.ip + offset))
      expect (table_operand op)

    -- The function that a table holds at the index on the stack; the expected signature is noted
    -- for the callee's check.
    unfoldable pub resolve_indirect : ℕ → M T ℕ
    unfolding fetch_table_index ValueStack.pop
    resolve_indirect signature_idx = do
      table ← fetch_table_index 1
      func_index ← on_sp ValueStack.pop
      x ← get
      put_store (record x.store { last_signature = some signature_idx })
      elements ← expect (x.store.tables table)
      instr_ref ← ok_or (get_untyped elements func_index) table_out_of_bounds
      if instr_ref == null_func_idx then raise indirect_call_to_null else pure instr_ref

    unfoldable pub visit_return_call_indirect : ℕ → M T (Unit {0})
    unfolding resolve_indirect
    visit_return_call_indirect signature_idx = do
      instr_ref ← resolve_indirect signature_idx
      put_ip instr_ref

    unfoldable pub visit_call_indirect : ℕ → M T (Unit {0})
    unfolding resolve_indirect push_frame
    visit_call_indirect signature_idx = do
      instr_ref ← resolve_indirect signature_idx
      advance 2
      push_frame
      put_ip instr_ref
