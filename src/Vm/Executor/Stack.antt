-- ===== src/Vm/Executor/Stack.antt =====
-- src/vm/executor/stack.rs.
use rwasm.Base.{ℕ, zero, suc, if◌then◌else◌}
use rwasm.Types.UntypedValue.{to_bool}
use rwasm.Vm.ValueStack
use rwasm.Vm.Monad.{M, ◌>>=◌, ◌>>◌, pure, on_sp, advance}

module _ {T : Type 0} where
  unfoldable pub visit_local_get : ℕ → M T (Unit {0})
  unfolding ValueStack.nth_back ValueStack.push
  visit_local_get depth = do
    value ← on_sp (ValueStack.nth_back depth)
    on_sp (ValueStack.push value)
    advance 1

  unfoldable pub visit_local_set : ℕ → M T (Unit {0})
  unfolding ValueStack.pop ValueStack.set_nth_back
  visit_local_set depth = do
    new_value ← on_sp ValueStack.pop
    on_sp (ValueStack.set_nth_back depth new_value)
    advance 1

  unfoldable pub visit_local_tee : ℕ → M T (Unit {0})
  unfolding ValueStack.last ValueStack.set_nth_back
  visit_local_tee depth = do
    new_value ← on_sp ValueStack.last
    on_sp (ValueStack.set_nth_back depth new_value)
    advance 1

  unfoldable pub visit_drop : M T (Unit {0})
  unfolding ValueStack.drop
  visit_drop = do on_sp ValueStack.drop; advance 1

  unfoldable pub visit_select : M T (Unit {0})
  unfolding ValueStack.eval_top3
  visit_select = do
    on_sp (ValueStack.eval_top3 (λ e1 e2 e3. if to_bool e3 then e1 else e2))
    advance 1

  unfoldable pub visit_ref_func : ℕ → M T (Unit {0})
  unfolding ValueStack.push
  visit_ref_func compiled_func = do on_sp (ValueStack.push compiled_func); advance 1

  unfoldable pub visit_i32_const : ℕ → M T (Unit {0})
  unfolding ValueStack.push
  visit_i32_const untyped_value = do on_sp (ValueStack.push untyped_value); advance 1

  unfoldable pub push_zeros : ℕ → M T (Unit {0})
  unfolding ValueStack.push
  push_zeros zero = pure tt
  push_zeros (suc n) = on_sp (ValueStack.push 0) >>= λ _. push_zeros n

  unfoldable pub visit_bulk_const : ℕ → M T (Unit {0})
  unfolding push_zeros
  visit_bulk_const n = do push_zeros n; advance 1

  unfoldable pub visit_bulk_drop : ℕ → M T (Unit {0})
  unfolding ValueStack.drop_n
  visit_bulk_drop n = do on_sp (ValueStack.drop_n n); advance 1
