-- ===== src/Compiler/Operators/Sound.antt =====
-- The operators on integers, from the state of the translation to what the emitted code does.
use mathlib.Core.Path.{subst}
use mathlib.Core.Option
use rwasm.Base.{◌%◌, ◌^◌, ◌≡◌, refl, sym, ap, ◌∙◌, List, ◌∷◌, some, ◌==◌, arith}
use rwasm.Types.Opcode.{Opcode}
use rwasm.Types.Value.{Value}
use rwasm.Types.UntypedValue as U
use rwasm.Types.UntypedValue.{of_bool}
use rwasm.Isa.Block.{local_step}
use rwasm.Isa.Words.{sign_extend}
use rwasm.Isa.Order.{op_i64_eqz_lem}
use rwasm.Isa.Conversions.{op_i64_extend_i32_s_lem, op_i64_extend_i32_u_lem}
use rwasm.Compiler.Translator.{FuelCosts, Translator, Tr}
use rwasm.Compiler.Translator.Numeric as Numeric
use rwasm.Compiler.Translator.Numeric.{
  I32Compare, I32Unary, I32Binary, I64Unary, I64Binary, Conversion, charged, snippet_body,
  binary_body, binary_compare_body, unary_body,
}
use rwasm.Compiler.Operators.{
  Operator, visit, apply, pop_i32, pop_i64, i32_binary_value, i64_binary_value, i32_compare_value,
  i32_unary_value, i64_unary_value, same,
}
use rwasm.Compiler.Operators.Inversion.{map_inv, pop_i32_inv, pop_i64_inv, unary_inv, binary_inv}
use rwasm.Compiler.Operators.Code.{Computes-Leads, Leads-more}
use rwasm.Compiler.Operators.Emits.{Agrees, Emits}
use rwasm.Compiler.Operators.Stack.{
  binary_i32-Emits, binary_i64-Emits, compare_i32-Emits, unary_i32-Emits, unary_i64-Emits,
  eqz_i32-Emits, eqz_i64-Emits, extend_i32-Emits,
}
use rwasm.Compiler.Operators.Integers.{
  takes_one, bool_bound, compare-Leads, compare_bound, unary-Leads, unary_bound, binary-Leads,
  binary_bound,
}
use rwasm.Compiler.Operators.Wide.{
  wide_unary-Leads, wide_unary_bound, wide_binary-Leads, wide_binary_bound,
}
use rwasm.Compiler.Operators.Select.{wrap-Emits}
use rwasm.Compiler.Operators.Charge.{
  Plain, charged-Emits, visit_compare, visit_i32_unary, visit_i32_binary, visit_i64_unary,
  visit_i64_binary,
}

module _ (costs : FuelCosts) {t : Translator} (p : Plain t) where
  module _ {os : List Value} {ls : List Value} (g : Agrees t os ls) where
    abbrev Sound : Operator → List Value → List Value → Type 0
    Sound op os' ls' = Emits (visit costs op) t os ls os' ls'

    -- The operands are known, and so is what is left of them.
    given :
        (op : Operator) {before after os' : List Value}
        → os ≡ before
        → after ≡ os'
        → (Agrees t before ls → Emits (visit costs op) t before ls after ls)
        → Sound op os' ls
    given op {before} {after} e e' sound =
        subst (λ o. Emits (visit costs op) t os ls o ls) e'
          (subst (λ o. Emits (visit costs op) t o ls after ls) (sym e)
            (sound (subst (λ o. Agrees t o ls) e g)))

    -- The closure under another name.
    renamed :
        {before after : List Value} (tr : Tr (Unit {0})) {body : Tr (Unit {0})}
        → tr ≡ body
        → (Agrees t before ls → Emits body t before ls after ls)
        → Agrees t before ls
        → Emits tr t before ls after ls
    renamed {before} {after} tr e sound g =
        subst (λ tr. Emits tr t before ls after ls) (sym e) (sound g)

    run_as :
        {before after : List Value} {tr body : Tr (Unit {0})}
        → tr t ≡ body t
        → Emits body t before ls after ls
        → Emits tr t before ls after ls
    run_as same e = record {
      code = e.code;
      height = e.height;
      most = e.most;
      runs = same ∙ e.runs;
      grown = e.grown;
      agrees = e.agrees;
      leads = e.leads;
    }

    pub i32_eqz-Emits :
        {os' : List Value} → apply Operator.i32_eqz os ≡ some os' → Sound Operator.i32_eqz os' ls
    unfolding apply visit Numeric.visit_i32_eqz Numeric.translate_unary_compare local_step U.i32_eqz
    i32_eqz-Emits h =
        let (a, rest, e, e') = unary_inv pop_i32 Value.i32 pop_i32_inv _ os h in
        given Operator.i32_eqz e e' λ g. charged-Emits costs p (
          eqz_i32-Emits a (of_bool (a == 0)) g
            (takes_one Opcode.i32_eqz a (of_bool (a == 0)) (λ rest r m pc. refl))
            (bool_bound (a == 0)))

    pub i64_eqz-Emits :
        {os' : List Value} → apply Operator.i64_eqz os ≡ some os' → Sound Operator.i64_eqz os' ls
    unfolding apply visit Numeric.visit_i64_eqz Numeric.translate_unary_compare
    i64_eqz-Emits h =
        let (a, rest, e, e') = unary_inv pop_i64 Value.i64 pop_i64_inv _ os h in
        given Operator.i64_eqz e e' λ g. charged-Emits costs p (
          eqz_i64-Emits a (of_bool (a == 0)) g
            (Computes-Leads (op_i64_eqz_lem a g.operands_fit.0) (omega arith))
            (bool_bound (a == 0)))

    pub i32_compare-Emits :
        (op : I32Compare) {os' : List Value}
        → apply (Operator.i32_compare op) os ≡ some os'
        → Sound (Operator.i32_compare op) os' ls
    unfolding apply visit
    i32_compare-Emits op h =
        let (a, b, rest, v, e, f, e') =
          binary_inv pop_i32 Value.i32 pop_i32_inv
            (λ a b. some (Value.i32 (i32_compare_value op a b))) os h in
        let value : Value.i32 (i32_compare_value op a b) ≡ v = cc in
        given (Operator.i32_compare op) e (ap (λ v. v ∷ rest) value ∙ e') (
          renamed (Numeric.visit_i32_compare costs op) (visit_compare costs op) λ g.
            charged-Emits costs p (
              compare_i32-Emits a b (i32_compare_value op a b) g (compare-Leads op a b)
                (compare_bound op a b)))

    pub i32_unary-Emits :
        (op : I32Unary) {os' : List Value}
        → apply (Operator.i32_unary op) os ≡ some os'
        → Sound (Operator.i32_unary op) os' ls
    unfolding apply visit
    i32_unary-Emits op h =
        let (a, rest, e, e') =
          unary_inv pop_i32 Value.i32 pop_i32_inv (λ a. Value.i32 (i32_unary_value op a)) os h in
        given (Operator.i32_unary op) e e' (
          renamed (Numeric.visit_i32_unary costs op) (visit_i32_unary costs op) λ g.
            charged-Emits costs p
              (unary_i32-Emits a (i32_unary_value op a) g (unary-Leads op a) (unary_bound op a)))

    pub i32_binary-Emits :
        (op : I32Binary) {os' : List Value}
        → apply (Operator.i32_binary op) os ≡ some os'
        → Sound (Operator.i32_binary op) os' ls
    unfolding apply visit
    i32_binary-Emits op h =
        let (a, b, rest, v, e, f, e') =
          binary_inv pop_i32 Value.i32 pop_i32_inv
            (λ a b. Option.map Value.i32 (i32_binary_value op a b)) os h in
        let (w, found, value) = map_inv Value.i32 (i32_binary_value op a b) f in
        given (Operator.i32_binary op) e (ap (λ v. v ∷ rest) value ∙ e') (
          renamed (Numeric.visit_i32_binary costs op) (visit_i32_binary costs op) λ g.
            charged-Emits costs p (
              binary_i32-Emits a b w g (binary-Leads op a b found)
                (binary_bound op a b g.operands_fit.1.0 g.operands_fit.0 found)))

    pub i64_unary-Emits :
        (op : I64Unary) {os' : List Value}
        → apply (Operator.i64_unary op) os ≡ some os'
        → Sound (Operator.i64_unary op) os' ls
    unfolding apply visit
    i64_unary-Emits op h =
        let (a, rest, e, e') =
          unary_inv pop_i64 Value.i64 pop_i64_inv (λ a. Value.i64 (i64_unary_value op a)) os h in
        given (Operator.i64_unary op) e e' (
          renamed (Numeric.visit_i64_unary costs op) (visit_i64_unary costs op) λ g.
            charged-Emits costs p (
              unary_i64-Emits a (i64_unary_value op a) g (wide_unary-Leads a g.operands_fit.0 op)
                (wide_unary_bound a g.operands_fit.0 op)))

    pub i64_binary-Emits :
        (op : I64Binary) {os' : List Value}
        → apply (Operator.i64_binary op) os ≡ some os'
        → Sound (Operator.i64_binary op) os' ls
    unfolding apply visit
    i64_binary-Emits op h =
        let (a, b, rest, v, e, f, e') =
          binary_inv pop_i64 Value.i64 pop_i64_inv
            (λ a b. Option.map Value.i64 (i64_binary_value op a b)) os h in
        let (w, found, value) = map_inv Value.i64 (i64_binary_value op a b) f in
        given (Operator.i64_binary op) e (ap (λ v. v ∷ rest) value ∙ e') λ g.
          run_as (visit_i64_binary costs p op a b found) (
            charged-Emits costs p (
              binary_i64-Emits a b w g
                (wide_binary-Leads a g.operands_fit.1.0 b g.operands_fit.0 op found)
                (wide_binary_bound a g.operands_fit.1.0 b g.operands_fit.0 op found)))

    pub conversion-Emits :
        (op : Conversion) {os' : List Value}
        → apply (Operator.conversion op) os ≡ some os'
        → Sound (Operator.conversion op) os' ls
    unfolding apply visit Numeric.visit_conversion Numeric.translate_conversion
    conversion-Emits Conversion.i32_wrap_i64 h =
        let (a, rest, e, e') =
          unary_inv pop_i64 Value.i64 pop_i64_inv (λ a. Value.i32 (a % 2 ^ 32)) os h in
        given (Operator.conversion Conversion.i32_wrap_i64) e e'
          λ g. charged-Emits costs p (wrap-Emits a g)
    conversion-Emits Conversion.i64_extend_i32_s h =
        let (a, rest, e, e') =
          unary_inv pop_i32 Value.i32 pop_i32_inv (λ a. Value.i64 (sign_extend 32 a)) os h in
        given (Operator.conversion Conversion.i64_extend_i32_s) e e' λ g. charged-Emits costs p (
          extend_i32-Emits {n = 1} a (sign_extend 32 a) g
            (Leads-more (omega arith)
              (Computes-Leads (op_i64_extend_i32_s_lem a g.operands_fit.0) (omega arith)))
            (ground arith))
    conversion-Emits Conversion.i64_extend_i32_u h =
        let (a, rest, e, e') = unary_inv pop_i32 Value.i32 pop_i32_inv Value.i64 os h in
        given (Operator.conversion Conversion.i64_extend_i32_u) e e' λ g. charged-Emits costs p (
          extend_i32-Emits {n = 0} a a g
            (Leads-more (omega arith)
              (Computes-Leads (op_i64_extend_i32_u_lem a g.operands_fit.0) (omega arith)))
            (omega (arith, g.operands_fit.0)))
