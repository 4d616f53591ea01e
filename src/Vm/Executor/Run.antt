-- ===== src/Vm/Executor/Run.antt =====
-- The loop of src/vm/executor.rs and its two entry points.
use rwasm.Base.{
  ◌≡◌, ◌∙◌, ℕ, zero, suc, ◌+◌, Bool, true, false, Option, none, some, List, [], ◌∷◌, reverse,
  get_elem?, map,
}
use rwasm.Types.Trap.{TrapCode, interruption_called, execution_halted}
use rwasm.Types.Opcode.{Opcode}
use rwasm.Types.Value.{Value, ty}
use rwasm.Vm.ValueStack
use rwasm.Vm.Monad.{
  RwasmModule, Host, Executor, Outcome, done, trapped, fault, M, ◌>>=◌, bind-done, ◌>>◌, pure, get,
  expect, checked, on_sp,
}
use rwasm.Vm.Executor.ControlFlow.{push_values, pop_values}
use rwasm.Vm.Executor.Step.{step}

-- The cells that a parameter takes.
abbrev param_len : Value → ℕ
param_len (Value.i64 _) = 2
param_len (Value.f64 _) = 2
param_len _ = 1

unfoldable pub params_len : List Value → ℕ
params_len [] = 0
params_len (v ∷ vs) = param_len v + params_len vs

module _ {T : Type 0} (host : Host T) (m : RwasmModule) where
  unfoldable pub fetch : M T Opcode
  fetch = do x ← get; expect (get_elem? m.code_section x.ip)

  -- At most `rounds` instructions; the result says whether the program returned within them.
  unfoldable pub run_the_loop : ℕ → M T Bool
  unfolding fetch step
  run_the_loop zero = pure false
  run_the_loop (suc rounds) = fetch >>= λ instr. step host m instr >>= λ return_reached.
      elim return_reached [ true ↦ pure true | false ↦ run_the_loop rounds ]

  -- One round, by what is fetched and what that instruction does.
  pub run_the_loop-suc :
      (rounds : ℕ) (x : Executor T) {op : Opcode} {y : Executor T}
      → fetch x ≡ done op x
      → step host m op x ≡ done false y
      → run_the_loop (suc rounds) x ≡ run_the_loop rounds y
  unfolding run_the_loop
  run_the_loop-suc rounds x {op} p q =
      let next : Bool → M T Bool =
        λ return_reached. elim return_reached [ true ↦ pure true | false ↦ run_the_loop rounds ] in
      bind-done fetch (λ instr. step host m instr >>= next) x p
      ∙ bind-done (step host m op) next x q

-- A trap other than an interruption clears the stacks and the noted signature.
module _ {T : Type 0} where
  unfoldable pub clear : Executor T → Executor T
  unfolding ValueStack.reset
  clear x = record x {
    value_stack = ValueStack.reset x.value_stack;
    call_stack = [];
    store = (let s = x.store in record s { last_signature = none });
  }

  unfoldable pub halted : TrapCode → Executor T → Outcome T (Option (List Value))
  unfolding clear
  halted interruption_called x = trapped interruption_called x
  halted execution_halted x = done (some []) (clear x)
  halted t x = trapped t (clear x)

  -- The results are popped from the last to the first.
  unfoldable pub take_results : List Value → Bool → M T (Option (List Value))
  unfolding pop_values
  take_results results false = pure none
  take_results results true = do
    popped ← pop_values (map ty (reverse results))
    pure (some (reverse popped))

  unfoldable pub settle : List Value → Outcome T Bool → Outcome T (Option (List Value))
  unfolding halted take_results
  settle results (done returned x) = take_results results returned x
  settle results (trapped t x) = halted t x
  settle results fault = fault

module _ {T : Type 0} (host : Host T) (m : RwasmModule) where
  -- `run`: the slots of `results` give the types that are popped. A halted execution writes none
  -- of them, for which `some []` stands; `none` means that the rounds ran out.
  unfoldable pub run : ℕ → List Value → List Value → M T (Option (List Value))
  unfolding ValueStack.reserve params_len push_values run_the_loop settle
  run rounds params results = do
    x ← get
    s ← checked (ValueStack.reserve (params_len params) x.value_stack)
    on_sp (λ _. some (tt, s))
    push_values params
    λ y. settle results (run_the_loop host m rounds y)
