-- ===== src/Compiler/Operators/Sequence.antt =====
-- Operators in sequence: what is emitted for them does to the value stack what they mean, one after
-- another.
use mathlib.Core.Path.{subst}
use rwasm.Base.{
  ◌≡◌, refl, sym, ap, ◌∙◌, List, [], ◌∷◌, ◌++◌, append_assoc, append-nil, Option, some,
  length-append, arith,
}
use rwasm.Types.Value.{Value}
use rwasm.Compiler.Translator.{FuelCosts, Translator, Tr, ◌>>◌, pure, and_then, done}
use rwasm.Compiler.Operators.{Operator, visit, meaning, Values, ◌>>=◌}
use rwasm.Compiler.Operators.Values.{cells, types}
use rwasm.Compiler.Operators.Code.{Leads-more, Leads-append, Straight-Leads}
use rwasm.Compiler.Operators.Emits.{Agrees, Emits, at}
use rwasm.Compiler.Operators.Inversion.{bind_inv}
use rwasm.Compiler.Operators.Charge.{Plain}
use rwasm.Compiler.Operators.Visit.{Constant, visit-Emits}
use rwasm.Isa.Straight.{stop}

-- As the parser calls the visitor, one operator after another.
unfoldable pub visit_all : FuelCosts → List Operator → Tr (Unit {0})
unfolding visit
visit_all costs [] = pure tt
visit_all costs (op ∷ ops) = visit costs op >> visit_all costs ops

unfoldable pub meaning_all : List Operator → List Value → List Value → Option Values
unfolding meaning
meaning_all [] os ls = some (os, ls)
meaning_all (op ∷ ops) os ls = meaning op os ls >>= λ values. meaning_all ops values.0 values.1

abbrev pub Constants : List Operator → Type 0
Constants [] = Unit
Constants (op ∷ ops) = Constant op × Constants ops

-- Nothing is emitted.
Emits-nil : {t : Translator} {os ls : List Value} → Agrees t os ls → Emits (pure tt) t os ls os ls
Emits-nil {t} {os} {ls} g = record {
  code = [];
  height = t.stack_height.height;
  most = t.stack_height.max_height;
  runs =
      ap (λ code. done tt (at t code t.stack_types t.stack_height.height t.stack_height.max_height))
        (sym (append-nil t.instruction_set))
      ∙ ap
          (λ tys.
            done tt
              (at t (t.instruction_set ++ []) tys t.stack_height.height t.stack_height.max_height))
          g.typed;
  grown = omega arith;
  agrees = record {
    typed = refl;
    high = g.high;
    params = g.params;
    operands_fit = g.operands_fit;
    locals_fit = g.locals_fit;
    bounded = g.bounded;
  };
  leads =
      Leads-more (omega arith) (Straight-Leads 0 (λ r. r) (λ r. omega arith) (λ rest r m. stop));
}

abbrev after :
    {body : Tr (Unit {0})} {t : Translator} {os ls os' ls' : List Value}
    → Emits body t os ls os' ls'
    → Translator
after {t = t} {os' = os'} {ls' = ls'} e =
    at t (t.instruction_set ++ e.code) (types (os' ++ ls')) e.height e.most

-- One closure after another.
module _ {first second : Tr (Unit {0})} {t : Translator} {os ls os1 ls1 os2 ls2 : List Value} where
  Emits-append :
      Agrees t os ls
      → (e : Emits first t os ls os1 ls1) → Emits second (after e) os1 ls1 os2 ls2
      → Emits (first >> second) t os ls os2 ls2
  Emits-append g e f = record {
    code = e.code ++ f.code;
    height = f.height;
    most = f.most;
    runs =
        ap (λ o. and_then o (λ _. second)) e.runs
        ∙ (f.runs
            ∙ ap (λ code. done tt (at t code (types (os2 ++ ls2)) f.height f.most))
                (append_assoc t.instruction_set e.code f.code));
    grown = omega (arith, e.grown, f.grown);
    agrees = record {
      typed = refl;
      high = f.agrees.high;
      params = f.agrees.params;
      operands_fit = f.agrees.operands_fit;
      locals_fit = f.agrees.locals_fit;
      bounded = f.agrees.bounded;
    };
    leads =
        Leads-append e.leads f.leads (omega (arith, f.grown))
          (omega (
            arith,
            g.high,
            g.bounded,
            e.grown,
            f.grown,
            e.agrees.high,
            e.agrees.bounded,
            length-append (cells os) (cells ls),
            length-append (cells os1) (cells ls1),
          ))
          (omega (
            arith,
            g.high,
            g.bounded,
            e.grown,
            f.grown,
            e.agrees.high,
            e.agrees.bounded,
            length-append (cells os) (cells ls),
            length-append (cells os1) (cells ls1),
          ));
  }

-- In reachable code that is not metered and does not call snippets, with operands and locals that
-- the translator's types and height agree with and constants that fit, the visits of operators that
-- have a meaning succeed. The code that they append, run from its first instruction with as much
-- room as the new maximum height asks for, ends past its last one with the cells of the values of
-- the meaning on the stack, and types and height agree with these again.
pub visit_all-Emits :
    (costs : FuelCosts) (ops : List Operator) (t : Translator) (os ls os' ls' : List Value)
    → Plain t
    → Constants ops
    → Agrees t os ls
    → meaning_all ops os ls ≡ some (os', ls')
    → Emits (visit_all costs ops) t os ls os' ls'
unfolding visit_all meaning_all
visit_all-Emits costs [] t os ls os' ls' p c g h =
    let top : os ≡ os' = cc in
    let bottom : ls ≡ ls' = cc in
    subst (λ l. Emits (pure tt) t os ls os' l) bottom
      (subst (λ o. Emits (pure tt) t os ls o ls) top (Emits-nil g))
visit_all-Emits costs (op ∷ ops) t os ls os' ls' p c g h =
    let ((os1, ls1), e, h') =
      bind_inv {A = Values} {B = Values} (meaning op os ls) (λ v. meaning_all ops v.0 v.1) h in
    let first = visit-Emits costs p op os ls os1 ls1 c.0 g e in
    Emits-append g first (
      visit_all-Emits costs ops (after first) os1 ls1 os' ls'
        (record {
          reaches = p.reaches;
          frame = p.frame;
          frames = p.frames;
          framed = p.framed;
          unmetered = p.unmetered;
          inlined = p.inlined;
        })
        c.1 first.agrees h')
