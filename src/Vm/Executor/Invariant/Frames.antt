-- ===== src/Vm/Executor/Invariant/Frames.antt =====
-- The depth of the call stack of src/vm/executor.rs.
use rwasm.Base.{ℕ, ◌≤◌, length, arith}
use rwasm.Types.Opcode.{Opcode}
use rwasm.Vm.Monad.{RwasmModule, Host, Executor}
use rwasm.Vm.Executor.ControlFlow.{visit_call, visit_return_call}
use rwasm.Vm.Executor.Stack.{visit_bulk_const}
use rwasm.Vm.Executor.Step.{step}
use rwasm.Vm.Executor.Run.{run_the_loop}
use rwasm.Vm.Executor.Invariant.{
  After, Keeps, Blind, Keeps-bind, visit_call-Keeps, visit_bulk_const-Keeps, run_the_loop-Keeps,
  visit_return_call-Keeps,
}

-- No more frames than `n_max_recursion_depth`.
unfoldable pub Shallow : {T : Type 0} → Executor T → Type 0
Shallow x = length x.call_stack ≤ 1024

-- Any instruction, whether it succeeds or traps, leaves at most 1024 frames where there were no
-- more: a deeper call traps.
pub step-Shallow :
    {T : Type 0} (host : Host T) (m : RwasmModule) (op : Opcode) → Keeps Shallow (step host m op)
unfolding step Keeps Shallow Blind
step-Shallow host m (Opcode.call f) =
    Keeps-bind Shallow (visit_call host f) _
      (visit_call-Keeps Shallow (λ x s ip h. h) host (λ f ps rs x h. h) f) (λ _ x h. h)
step-Shallow host m (Opcode.return_call f) =
    Keeps-bind Shallow (visit_return_call host f) _
      (visit_return_call-Keeps Shallow (λ x s ip h. h) host (λ f ps rs x h. h) f) (λ _ x h. h)
step-Shallow host m (Opcode.bulk_const n) =
    Keeps-bind Shallow (visit_bulk_const n) _ (visit_bulk_const-Keeps Shallow (λ x s ip h. h) n)
      (λ _ x h. h)
step-Shallow host m _ = λ x h. ground arith

-- However many instructions run, no more than 1024 frames are on the call stack, if that holds at
-- the start.
pub run_the_loop-Shallow :
    {T : Type 0} (host : Host T) (m : RwasmModule)
    → (rounds : ℕ) (x : Executor T) → Shallow x
    → After Shallow (run_the_loop host m rounds x)
unfolding Keeps
run_the_loop-Shallow host m rounds = run_the_loop-Keeps Shallow host m (step-Shallow host m) rounds
