-- ===== src/Vm/Executor/Invariant/Fuel.antt =====
-- The fuel that src/vm/executor.rs charges.
use rwasm.Base.{ℕ, ◌≤◌, List, Option, none, some, arith}
use rwasm.Types.Value.{Value}
use rwasm.Types.Opcode.{Opcode}
use rwasm.Vm.Monad.{RwasmModule, Host, Executor}
use rwasm.Vm.Executor.ControlFlow.{visit_call, visit_return_call}
use rwasm.Vm.Executor.Stack.{visit_bulk_const}
use rwasm.Vm.Executor.Step.{step}
use rwasm.Vm.Executor.Run.{run_the_loop}
use rwasm.Vm.Executor.Invariant.{
  After, Keeps, Blind, Keeps-bind, visit_call-Keeps, visit_bulk_const-Keeps, run_the_loop-Keeps,
  visit_return_call-Keeps,
}

abbrev Within : Option ℕ → ℕ → Type 0
Within none consumed = Unit {0}
Within (some limit) consumed = consumed ≤ limit

-- Under a limit, no more fuel is consumed than it allows.
unfoldable pub Funded : {T : Type 0} → Executor T → Type 0
Funded x = Within x.store.fuel_limit x.store.consumed_fuel

-- Any instruction, whether it succeeds or traps, leaves the consumed fuel within the limit if the
-- handler of system calls does.
pub step-Funded :
    {T : Type 0} (host : Host T) (m : RwasmModule)
    → ((f : ℕ) (ps rs : List Value) (x : Executor T)
        → Funded x
        → Funded (record x { store = (host.syscall_handler f ps rs x.store).2 }))
    → (op : Opcode) → Keeps Funded (step host m op)
unfolding step Keeps Funded Blind
step-Funded host m handler (Opcode.call f) =
    Keeps-bind Funded (visit_call host f) _ (visit_call-Keeps Funded (λ x s ip h. h) host handler f)
      (λ _ x h. h)
step-Funded host m handler (Opcode.return_call f) =
    Keeps-bind Funded (visit_return_call host f) _
      (visit_return_call-Keeps Funded (λ x s ip h. h) host handler f) (λ _ x h. h)
step-Funded host m handler (Opcode.bulk_const n) =
    Keeps-bind Funded (visit_bulk_const n) _ (visit_bulk_const-Keeps Funded (λ x s ip h. h) n)
      (λ _ x h. h)
step-Funded host m handler _ = λ x h. ground arith

-- However many instructions run, no more fuel is consumed than the limit allows, if that holds at the
-- start and the handler of system calls keeps it.
pub run_the_loop-Funded :
    {T : Type 0} (host : Host T) (m : RwasmModule)
    → ((f : ℕ) (ps rs : List Value) (x : Executor T)
        → Funded x
        → Funded (record x { store = (host.syscall_handler f ps rs x.store).2 }))
    → (rounds : ℕ) (x : Executor T) → Funded x
    → After Funded (run_the_loop host m rounds x)
unfolding Keeps
run_the_loop-Funded host m handler rounds =
    run_the_loop-Keeps Funded host m (step-Funded host m handler) rounds
