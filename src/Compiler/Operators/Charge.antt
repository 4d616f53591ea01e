-- ===== src/Compiler/Operators/Charge.antt =====
-- What `charged` and the choice of a closure come to.
use rwasm.Base.{
  ℕ, ◌^◌, ◌<◌, ◌≡◌, refl, ap, ◌∙◌, List, [], ◌∷◌, Option, some, none, true, false, if◌then◌else◌,
}
use rwasm.Types.Value.{Value}
use rwasm.Isa.AddSub.{op_i64_add, msh_i64_add, op_i64_sub, msh_i64_sub}
use rwasm.Isa.Mul.{op_i64_mul, msh_i64_mul}
use rwasm.Isa.Bitwise.ShrU.{op_i64_shr_u, msh_i64_shr_u}
use rwasm.Isa.Bitwise.Shl.{op_i64_shl, msh_i64_shl}
use rwasm.Compiler.ControlFlow.{ControlFrame, consume_fuel_instr}
use rwasm.Compiler.Snippets as Snippets
use rwasm.Compiler.Snippets.{Snippet}
use rwasm.Compiler.Translator.{
  FuelCosts, Translator, Tr, ◌>>◌, translate_if_reachable, and_then, done, bump_frame, bump_last,
  bump_fuel_consumption,
}
use rwasm.Compiler.Translator.Numeric as Numeric
use rwasm.Compiler.Translator.Numeric.{
  I32Compare, I32Unary, I32Binary, I64Unary, I64Binary, Conversion, charged, snippet_body,
  binary_body, binary_compare_body, unary_body,
}
use rwasm.Compiler.Operators.{Operator, i64_binary_value}
use rwasm.Compiler.Operators.Emits.{Emits}
use rwasm.Compiler.Operators.Integers.{compare_code, unary_code, binary_code}
use rwasm.Compiler.Operators.Wide.{wide_unary_code, wide_binary_code}

-- Reachable code without the metering of fuel and without calls of snippets.
pub record Plain (t : Translator) : Type 0 where
  pub reaches : t.reachable ≡ true
  pub frame : ControlFrame
  pub frames : List ControlFrame
  pub framed : t.control_frames ≡ frame ∷ frames
  pub unmetered : t.with_consume_fuel ≡ false
  pub inlined : t.with_code_snippets ≡ false

-- A constant fits its type.
abbrev pub Constant : Operator → Type 0
Constant (Operator.i32_const v) = v < 2 ^ 32
Constant (Operator.i64_const v) = v < 2 ^ 64
Constant _ = Unit

bump_off :
    (delta : ℕ) (instr : Option ℕ) (t : Translator) → bump_last delta false instr t ≡ done tt t
bump_off delta none t = refl
bump_off delta (some instr) t = refl

charged_lem :
    (costs : FuelCosts) (body : Tr (Unit {0})) (t : Translator)
    → Plain t
    → charged costs body t ≡ body t
unfolding charged bump_fuel_consumption
charged_lem costs body t p =
    ap (λ b. if b then (bump_fuel_consumption costs.base >> body) t else done tt t) p.reaches
    ∙ (ap (λ frames. and_then (bump_frame costs.base frames t) (λ _. body)) p.framed
        ∙ (ap
              (λ enabled.
                and_then (bump_last costs.base enabled (consume_fuel_instr p.frame) t) (λ _. body))
              p.unmetered
            ∙ ap (λ o. and_then o (λ _. body))
                (bump_off costs.base (consume_fuel_instr p.frame) t)))

-- Each operator comes to one closure.
pub visit_compare :
    (costs : FuelCosts) (op : I32Compare)
    → Numeric.visit_i32_compare costs op
      ≡ charged costs (binary_compare_body (compare_code op ∷ []) 0)
unfolding Numeric.visit_i32_compare Numeric.translate_binary_compare
visit_compare costs I32Compare.eq = refl
visit_compare costs I32Compare.ne = refl
visit_compare costs I32Compare.lt_s = refl
visit_compare costs I32Compare.lt_u = refl
visit_compare costs I32Compare.gt_s = refl
visit_compare costs I32Compare.gt_u = refl
visit_compare costs I32Compare.le_s = refl
visit_compare costs I32Compare.le_u = refl
visit_compare costs I32Compare.ge_s = refl
visit_compare costs I32Compare.ge_u = refl

-- Each operator comes to one closure.
pub visit_i32_unary :
    (costs : FuelCosts) (op : I32Unary)
    → Numeric.visit_i32_unary costs op ≡ charged costs (unary_body (unary_code op ∷ []) 0)
unfolding Numeric.visit_i32_unary Numeric.translate_unary
visit_i32_unary costs I32Unary.clz = refl
visit_i32_unary costs I32Unary.ctz = refl
visit_i32_unary costs I32Unary.popcnt = refl
visit_i32_unary costs I32Unary.extend8_s = refl
visit_i32_unary costs I32Unary.extend16_s = refl

-- Each operator comes to one closure.
pub visit_i32_binary :
    (costs : FuelCosts) (op : I32Binary)
    → Numeric.visit_i32_binary costs op ≡ charged costs (binary_body (binary_code op ∷ []) 0)
unfolding Numeric.visit_i32_binary Numeric.translate_binary
visit_i32_binary costs I32Binary.add = refl
visit_i32_binary costs I32Binary.sub = refl
visit_i32_binary costs I32Binary.mul = refl
visit_i32_binary costs I32Binary.div_s = refl
visit_i32_binary costs I32Binary.div_u = refl
visit_i32_binary costs I32Binary.rem_s = refl
visit_i32_binary costs I32Binary.rem_u = refl
visit_i32_binary costs I32Binary.and = refl
visit_i32_binary costs I32Binary.or = refl
visit_i32_binary costs I32Binary.xor = refl
visit_i32_binary costs I32Binary.shl = refl
visit_i32_binary costs I32Binary.shr_s = refl
visit_i32_binary costs I32Binary.shr_u = refl
visit_i32_binary costs I32Binary.rotl = refl
visit_i32_binary costs I32Binary.rotr = refl

-- Each operator comes to one closure.
pub visit_i64_unary :
    (costs : FuelCosts) (op : I64Unary)
    → Numeric.visit_i64_unary costs op
      ≡ charged costs (unary_body (wide_unary_code op).0 (wide_unary_code op).1)
unfolding Numeric.visit_i64_unary Numeric.translate_unary wide_unary_code
visit_i64_unary costs I64Unary.clz = refl
visit_i64_unary costs I64Unary.ctz = refl
visit_i64_unary costs I64Unary.popcnt = refl
visit_i64_unary costs I64Unary.extend8_s = refl
visit_i64_unary costs I64Unary.extend16_s = refl
visit_i64_unary costs I64Unary.extend32_s = refl

pub visit_i64_binary :
    (costs : FuelCosts) {t : Translator}
    → Plain t
    → (op : I64Binary) (a b : ℕ) {v : ℕ} → i64_binary_value op a b ≡ some v
    → Numeric.visit_i64_binary costs op t
      ≡ charged costs (binary_body (wide_binary_code op).0 (wide_binary_code op).1) t
unfolding Numeric.visit_i64_binary Numeric.translate_binary Numeric.translate_to_snippet_call
    wide_binary_code i64_binary_value Snippets.emit Snippets.max_stack_height
visit_i64_binary costs {t} p I64Binary.add a b e =
    ap
      (λ b.
        if b
        then charged costs (snippet_body Snippet.i64_add) t
        else charged costs (binary_body op_i64_add msh_i64_add) t)
      p.inlined
visit_i64_binary costs {t} p I64Binary.sub a b e =
    ap
      (λ b.
        if b
        then charged costs (snippet_body Snippet.i64_sub) t
        else charged costs (binary_body op_i64_sub msh_i64_sub) t)
      p.inlined
visit_i64_binary costs {t} p I64Binary.mul a b e =
    ap
      (λ b.
        if b
        then charged costs (snippet_body Snippet.i64_mul) t
        else charged costs (binary_body op_i64_mul msh_i64_mul) t)
      p.inlined
visit_i64_binary costs p I64Binary.and a b e = refl
visit_i64_binary costs p I64Binary.or a b e = refl
visit_i64_binary costs p I64Binary.xor a b e = refl
visit_i64_binary costs {t} p I64Binary.shl a b e =
    ap
      (λ b.
        if b
        then charged costs (snippet_body Snippet.i64_shl) t
        else charged costs (binary_body op_i64_shl msh_i64_shl) t)
      p.inlined
visit_i64_binary costs p I64Binary.div_s a b e = absurd cc
visit_i64_binary costs p I64Binary.div_u a b e = absurd cc
visit_i64_binary costs p I64Binary.rem_s a b e = absurd cc
visit_i64_binary costs p I64Binary.rem_u a b e = absurd cc
visit_i64_binary costs p I64Binary.shr_s a b e = absurd cc
visit_i64_binary costs {t} p I64Binary.shr_u a b e =
    ap
      (λ b.
        if b
        then charged costs (snippet_body Snippet.i64_shr_u) t
        else charged costs (binary_body op_i64_shr_u msh_i64_shr_u) t)
      p.inlined
visit_i64_binary costs p I64Binary.rotl a b e = absurd cc
visit_i64_binary costs p I64Binary.rotr a b e = absurd cc

module _ (costs : FuelCosts) {t : Translator} (p : Plain t) where
  pub charged-Emits :
      {body : Tr (Unit {0})} {os ls os' ls' : List Value}
      → Emits body t os ls os' ls'
      → Emits (charged costs body) t os ls os' ls'
  charged-Emits {body} e = record {
    code = e.code;
    height = e.height;
    most = e.most;
    runs = charged_lem costs body t p ∙ e.runs;
    grown = e.grown;
    agrees = e.agrees;
    leads = e.leads;
  }

  -- Without a charge.
  pub reached-Emits :
      {body : Tr (Unit {0})} {os ls os' ls' : List Value}
      → Emits body t os ls os' ls'
      → Emits (translate_if_reachable body) t os ls os' ls'
  reached-Emits {body} e = record {
    code = e.code;
    height = e.height;
    most = e.most;
    runs = ap (λ b. if b then body t else done tt t) p.reaches ∙ e.runs;
    grown = e.grown;
    agrees = e.agrees;
    leads = e.leads;
  }
