-- ===== src/Compiler/Operators/Return.antt =====
-- What the code of a return leaves on the value stack.
use mathlib.Core.Path.{subst}
use rwasm.Base.{
  ℕ, ◌-◌, ◌≡◌, sym, ap, ◌∙◌, true, false, some, List, [], ◌∷◌, ◌++◌, length, length-append, arith,
}
use rwasm.Types.Opcode.{Opcode}
use rwasm.Types.Value.{Value}
use rwasm.Isa.Words.{Computes}
use rwasm.Compiler.ControlFlow.{
  ControlFrame, ControlFrameKind, kind, block_type, stack_height, nth_back,
}
use rwasm.Compiler.FuncTypeRegistry.{resolve_func_results_len_type_by_block}
use rwasm.Compiler.DropKeep.{translate_drop_keep}
use rwasm.Compiler.DropKeep.Correct.{translate_drop_keep-Computes}
use rwasm.Compiler.Translator.{Translator, done}
use rwasm.Compiler.Translator.Frames.{kept}
use rwasm.Compiler.Translator.Branches.{visit_return}
use rwasm.Compiler.Translator.Returns.{drop_keep_return_outcome, visit_return_outcome}
use rwasm.Compiler.Operators.Values.{cells}
use rwasm.Compiler.Operators.Emits.{Agrees}

-- In reachable code of a function whose outermost block begins at height 0, with operands and locals
-- that the translator's height agrees with, a return that succeeds appends code that keeps the cells
-- of the results on top, with one free cell, and drops all others of the operands and the locals; the
-- instruction that returns stands after it, and what follows is not reachable.
pub visit_return-Computes :
    (t : Translator) {t' : Translator} (os ls : List Value) (root : ControlFrame) (results : ℕ)
    (xs ys : List ℕ)
    → Agrees t os ls
    → t.reachable ≡ true
    → visit_return t ≡ done tt t'
    → nth_back (length t.control_frames - 1) t.control_frames ≡ some root
    → stack_height root ≡ some 0
    → kind root ≡ ControlFrameKind.block_kind
    → resolve_func_results_len_type_by_block (block_type root) t.func_type_registry ≡ some results
    → cells os ++ cells ls ≡ xs ++ ys
    → length xs ≡ results
    → (code : List Opcode) × (t'.instruction_set
        ≡ t.instruction_set ++ (code ++ (Opcode.return ∷ [])))
      × Computes code 1 (cells os ++ cells ls) xs
      × (t'.reachable ≡ false)
visit_return-Computes t {t'} os ls root results xs ys g r h found low blockwise arity split size =
    let (d, e, emitted, left) = visit_return_outcome t r h in
    let (root', origin, found', known, arity', sum, _) = drop_keep_return_outcome t e in
    let one : some root' ≡ some root = sym found' ∙ found in
    let same : root' ≡ root = cc in
    let base : some origin ≡ some 0 = sym known ∙ (ap stack_height same ∙ low) in
    let zero_base : origin ≡ 0 = cc in
    let keeps : some d.keep ≡ some results =
      sym arity'
      ∙ (ap (λ f. kept (kind f) (block_type f) t.func_type_registry) same
          ∙ (ap (λ k. kept k (block_type root) t.func_type_registry) blockwise ∙ arity)) in
    let keep : d.keep ≡ results = cc in
    (
      translate_drop_keep d,
      emitted,
      subst (λ cs. Computes (translate_drop_keep d) 1 cs xs) (sym split)
          (translate_drop_keep-Computes d xs ys (size ∙ sym keep) (
            omega (
              arith,
              sum,
              zero_base,
              keep,
              size,
              g.high,
              ap length split,
              length-append xs ys,
              length-append (cells os) (cells ls),
            ))),
      left,
    )
