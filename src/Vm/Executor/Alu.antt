-- ===== src/Vm/Executor/Alu.antt =====
-- src/vm/executor/alu.rs: the three shapes of arithmetic instruction, and the two that work on
-- 64 bits. Which operation an instruction applies is said in `Vm.Executor.Step`.
use rwasm.Base.{ℕ, ◌+◌, ◌*◌, ◌%◌, ◌^◌}
use rwasm.Types.Trap.{Checked}
use rwasm.Vm.ValueStack
use rwasm.Vm.Monad.{M, ◌>>=◌, ◌>>◌, on_sp, checked, advance}

module _ {T : Type 0} where
  unfoldable pub visit_unary : (ℕ → ℕ) → M T (Unit {0})
  unfolding ValueStack.eval_top
  visit_unary f = do on_sp (ValueStack.eval_top f); advance 1

  unfoldable pub visit_binary : (ℕ → ℕ → ℕ) → M T (Unit {0})
  unfolding ValueStack.eval_top2
  visit_binary f = do on_sp (ValueStack.eval_top2 f); advance 1

  -- `try_eval_top2`: a trap leaves the right operand popped.
  unfoldable pub try_eval_top2 : (ℕ → ℕ → Checked ℕ) → M T (Unit {0})
  unfolding ValueStack.pop ValueStack.nth_back ValueStack.set_nth_back
  try_eval_top2 f = do
    rhs ← on_sp ValueStack.pop
    lhs ← on_sp (ValueStack.nth_back 1)
    v ← checked (f lhs rhs)
    on_sp (ValueStack.set_nth_back 1 v)

  unfoldable pub visit_fallible_binary : (ℕ → ℕ → Checked ℕ) → M T (Unit {0})
  unfolding try_eval_top2
  visit_fallible_binary f = do try_eval_top2 f; advance 1

  -- Cells are read as non-negative `i64`.
  unfoldable pub visit_i32_mul64 : M T (Unit {0})
  unfolding ValueStack.pop2 ValueStack.push_i64
  visit_i32_mul64 = do
    (lhs, rhs) ← on_sp ValueStack.pop2
    on_sp (ValueStack.push_i64 (lhs * rhs % 2 ^ 64))
    advance 1

  unfoldable pub visit_i32_add64 : M T (Unit {0})
  unfolding ValueStack.pop2 ValueStack.push_i64
  visit_i32_add64 = do
    (lhs, rhs) ← on_sp ValueStack.pop2
    on_sp (ValueStack.push_i64 ((lhs + rhs) % 2 ^ 64))
    advance 1
