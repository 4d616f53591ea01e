-- ===== src/Compiler/Operators/Execution.antt =====
-- What the executor does with the code that is emitted for operators.
use mathlib.Core.Path.{subst}
use rwasm.Base.{ℕ, ◌+◌, ◌-◌, ◌≤◌, ◌≡◌, refl, sym, ap, ◌∙◌, List, [], ◌∷◌, ◌++◌, length, some, arith}
use rwasm.Types.Opcode.{Opcode}
use rwasm.Types.Value.{Value}
use rwasm.Vm.Store.{Store}
use rwasm.Vm.Monad.{RwasmModule, Host}
use rwasm.Vm.Executor.Run.{run_the_loop}
use rwasm.Isa.Block.{run_the_loop-local}
use rwasm.Isa.Words.{stack}
use rwasm.Compiler.Translator.{FuelCosts, Translator, done}
use rwasm.Compiler.Operators.{Operator}
use rwasm.Compiler.Operators.Values.{cells, types}
use rwasm.Compiler.Operators.Code.{Leads}
use rwasm.Compiler.Operators.Emits.{Agrees, at}
use rwasm.Compiler.Operators.Charge.{Plain}
use rwasm.Compiler.Operators.Sequence.{visit_all, meaning_all, Constants, visit_all-Emits}

append_cancel : (xs : List Opcode) {ys zs : List Opcode} → xs ++ ys ≡ xs ++ zs → ys ≡ zs
append_cancel [] e = e
append_cancel (x ∷ xs) e = append_cancel xs (cc e)

done_inv : {t u : Translator} → done tt t ≡ done tt u → t ≡ u
done_inv e = cc

module _ (costs : FuelCosts) (ops : List Operator) (t : Translator) (os ls os' ls' : List Value)
    (p : Plain t) (c : Constants ops) (g : Agrees t os ls)
    (h : meaning_all ops os ls ≡ some (os', ls')) where
  -- In reachable code that is not metered and does not call snippets, with operands and locals that
  -- the translator's types and height agree with and constants that fit, the visits of operators that
  -- have a meaning succeed: they append some code, and change nothing else but the types and the
  -- height, which agree with the operands and locals of the meaning; the maximum height does not
  -- fall.
  pub visit_all_outcome :
      (code : List Opcode) × (height : ℕ) × (most : ℕ) × (visit_all costs ops t
        ≡ done tt (at t (t.instruction_set ++ code) (types (os' ++ ls')) height most))
      × (t.stack_height.max_height ≤ most)
      × Agrees (at t (t.instruction_set ++ code) (types (os' ++ ls')) height most) os' ls'
  visit_all_outcome =
      let e = visit_all-Emits costs ops t os ls os' ls' p c g h in
      (e.code, e.height, e.most, e.runs, e.grown, e.agrees)

  -- In reachable code that is not metered and does not call snippets, with operands and locals that
  -- the translator's types and height agree with and constants that fit, the code that the visits of
  -- operators append does what the operators mean. In whatever program it stands, once the executor
  -- is at its first instruction with the cells of the operands and locals on the stack, and as much
  -- room free as the translator's new maximum height allows above the height before, it gets after
  -- some rounds past the last instruction with the cells of the new operands and locals in their
  -- place; the frames, the store and the cells below are untouched.
  pub run_the_loop-visit_all :
      {t' : Translator} (code : List Opcode)
      → visit_all costs ops t ≡ done tt t'
      → t'.instruction_set ≡ t.instruction_set ++ code
      → {T : Type 0} (host : Host T) (m : RwasmModule) (frames : List ℕ) (store : Store T)
        (pre post : List Opcode)
      → m.code_section ≡ pre ++ (code ++ post)
      → (rest : List ℕ) (r limit : ℕ) → t'.stack_height.max_height - t.stack_height.height ≤ r
      → (k : ℕ) × ((rounds : ℕ)
          → run_the_loop host m (k + rounds) (record {
            value_stack = stack ((cells os ++ cells ls) ++ rest) r limit;
            call_stack = frames;
            ip = length pre + 0;
            store = store;
          })
            ≡ run_the_loop host m rounds (record {
              value_stack =
                  stack
                    ((cells os' ++ cells ls') ++ rest)
                    (r + length (cells os ++ cells ls) - length (cells os' ++ cells ls'))
                    limit;
              call_stack = frames;
              ip = length pre + length code;
              store = store;
            }))
  run_the_loop-visit_all {t'} code visited emitted host m frames store pre post placed rest r limit
        enough =
      let e = visit_all-Emits costs ops t os ls os' ls' p c g h in
      let end : t' ≡ at t (t.instruction_set ++ e.code) (types (os' ++ ls')) e.height e.most =
        done_inv (sym visited ∙ e.runs) in
      let same : e.code ≡ code =
        append_cancel t.instruction_set (sym (ap (λ t. t.instruction_set) end) ∙ emitted) in
      let room : e.most - t.stack_height.height ≤ r =
        omega (arith, enough, ap (λ t. t.stack_height.max_height) end) in
      let l =
        subst
          (λ code.
            Leads code (e.most - t.stack_height.height) (cells os ++ cells ls)
              (cells os' ++ cells ls'))
          same e.leads in
      let run = l.leads rest r limit room in
      (
        run.rounds,
        λ rounds.
            run_the_loop-local host m frames store (length pre) pre code post placed refl run.rounds
              rounds 0 (stack ((cells os ++ cells ls) ++ rest) r limit) run.runs,
      )
