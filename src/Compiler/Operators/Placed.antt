-- ===== src/Compiler/Operators/Placed.antt =====
-- The operators on locals, as `charged` runs them.
use mathlib.Core.Path.{subst}
use rwasm.Base.{ℕ, ◌≡◌, sym, List, ◌∷◌, ◌++◌, some}
use rwasm.Types.Value.{Value, ty}
use rwasm.Compiler.Translator.{FuelCosts, Translator}
use rwasm.Compiler.Translator.Locals as Locals
use rwasm.Compiler.Translator.Numeric.{charged}
use rwasm.Compiler.Operators.{local_at, with_local}
use rwasm.Compiler.Operators.Values.{local_at-split}
use rwasm.Compiler.Operators.Emits.{Agrees, Emits}
use rwasm.Compiler.Operators.Local.{local_get-split}
use rwasm.Compiler.Operators.Assign.{local_set-split, local_tee-split}
use rwasm.Compiler.Operators.Charge.{Plain, charged-Emits}

module _ (costs : FuelCosts) {t : Translator} (p : Plain t) where
  -- The local stands where it was declared.
  pub local_get-Emits :
      (i : ℕ) (os ls : List Value) (v : Value)
      → local_at i ls ≡ some v
      → Agrees t os ls
      → Emits (Locals.visit_local_get costs i) t os ls (v ∷ os) ls
  unfolding charged Locals.visit_local_get
  local_get-Emits i os ls v found g =
      let (above, below, e, here, _) = local_at-split i ls found in
      subst (λ ls. Emits (charged costs (Locals.local_get_body i)) t os ls (v ∷ os) ls) (sym e)
        (charged-Emits costs p
          (local_get-split i os above v below here (subst (λ ls. Agrees t os ls) e g)))

  pub local_set-Emits :
      (i : ℕ) (os ls : List Value) (old v : Value)
      → local_at i ls ≡ some old
      → ty old ≡ ty v
      → Agrees t (v ∷ os) ls
      → Emits (Locals.visit_local_set costs i) t (v ∷ os) ls os (with_local i v ls)
  unfolding charged Locals.visit_local_set
  local_set-Emits i os ls old v found alike g =
      let (above, below, e, here, new) = local_at-split i ls found in
      subst (λ ls'. Emits (charged costs (Locals.local_set_body i)) t (v ∷ os) ls os ls')
        (sym (new v))
        (subst
          (λ ls.
            Emits (charged costs (Locals.local_set_body i)) t (v ∷ os) ls os (above ++ (v ∷ below)))
          (sym e)
          (charged-Emits costs p (
            local_set-split i os above old v below here alike
              (subst (λ ls. Agrees t (v ∷ os) ls) e g))))

  pub local_tee-Emits :
      (i : ℕ) (os ls : List Value) (old v : Value)
      → local_at i ls ≡ some old
      → ty old ≡ ty v
      → Agrees t (v ∷ os) ls
      → Emits (Locals.visit_local_tee costs i) t (v ∷ os) ls (v ∷ os) (with_local i v ls)
  unfolding charged Locals.visit_local_tee
  local_tee-Emits i os ls old v found alike g =
      let (above, below, e, here, new) = local_at-split i ls found in
      subst (λ ls'. Emits (charged costs (Locals.local_tee_body i)) t (v ∷ os) ls (v ∷ os) ls')
        (sym (new v))
        (subst
          (λ ls.
            Emits (charged costs (Locals.local_tee_body i)) t (v ∷ os) ls (v ∷ os)
              (above ++ (v ∷ below)))
          (sym e)
          (charged-Emits costs p (
            local_tee-split i os above old v below here alike
              (subst (λ ls. Agrees t (v ∷ os) ls) e g))))
