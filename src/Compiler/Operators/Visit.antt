-- ===== src/Compiler/Operators/Visit.antt =====
-- Every operator that has a meaning: its visit, and what the emitted code does.
use mathlib.Core.Path.{subst}
use mathlib.Core.Option
use rwasm.Base.{ℕ, ◌<◌, ◌^◌, ◌≡◌, sym, ap, List, [], ◌∷◌, Option, some, ◌==◌, if◌then◌else◌}
use rwasm.Types.Value.{Value, ValType, ty}
use rwasm.Compiler.FuncTypeRegistry.{ValType-discrete}
use rwasm.Compiler.Translator.{FuelCosts, Translator, Tr}
use rwasm.Compiler.Translator.Locals as Locals
use rwasm.Compiler.Translator.Numeric.{charged}
use rwasm.Compiler.Operators.{
  Operator, visit, meaning, apply, local_at, with_local, Values, same, ◌>>=◌, choose, pop_i32,
}
use rwasm.Compiler.Operators.Emits.{Agrees, Emits}
use rwasm.Compiler.Operators.Inversion.{bind_inv, map_inv, pop_i32_inv}
use rwasm.Compiler.Operators.Select.{drop-Emits, select-Emits, i32_const-Emits, i64_const-Emits}
use rwasm.Compiler.Operators.Charge.{Plain, charged-Emits, reached-Emits}
use rwasm.Compiler.Operators.Sound as Sound
use rwasm.Compiler.Operators.Placed as Placed

-- A constant fits its type.
abbrev pub Constant : Operator → Type 0
Constant (Operator.i32_const v) = v < 2 ^ 32
Constant (Operator.i64_const v) = v < 2 ^ 64
Constant _ = Unit

same_inv : {a b : ValType} (d : Dec (a ≡ b)) {e : a ≡ b} → same d ≡ some e → a ≡ b
same_inv (yes e) h = e
same_inv (no _) h = absurd cc

abbrev answer : List Value → List Value → Option Values
answer os ls = some (os, ls)

module _ (costs : FuelCosts) {t : Translator} (p : Plain t) where
  -- What stands at the end, under other names.
  arrive :
      {body : Tr (Unit {0})} {os ls os1 ls1 os2 ls2 : List Value}
      → answer os1 ls1 ≡ some (os2, ls2)
      → Emits body t os ls os1 ls1
      → Emits body t os ls os2 ls2
  arrive {body} {os} {ls} {os1} {ls1} {os2} {ls2} e sound =
      let top : os1 ≡ os2 = cc in
      let bottom : ls1 ≡ ls2 = cc in
      subst (λ l. Emits body t os ls os2 l) bottom (subst (λ o. Emits body t os ls o ls1) top sound)

  -- An operator on the operands alone.
  on_operands :
      (op : Operator) (os ls : List Value) {os' ls' : List Value}
      → ((o : List Value) → apply op os ≡ some o → Emits (visit costs op) t os ls o ls)
      → Option.map {B = Values} (λ os'. (os', ls)) (apply op os) ≡ some (os', ls')
      → Emits (visit costs op) t os ls os' ls'
  on_operands op os ls sound h =
      let (o, e, q) = map_inv {B = Values} (λ os'. (os', ls)) (apply op os) h in
      arrive (ap some q) (sound o e)

  drop_lem :
      (os ls : List Value) (o : List Value)
      → Agrees t os ls
      → apply Operator.drop os ≡ some o
      → Emits (visit costs Operator.drop) t os ls o ls
  unfolding apply visit Locals.visit_drop
  drop_lem [] ls o g h = absurd cc
  drop_lem (v ∷ os) ls o g h =
      let e : os ≡ o = cc in
      subst (λ o. Emits (visit costs Operator.drop) t (v ∷ os) ls o ls) e
        (reached-Emits costs p (drop-Emits v g))

  select_lem :
      (os ls : List Value) (o : List Value)
      → Agrees t os ls
      → apply Operator.select os ≡ some o
      → Emits (visit costs Operator.select) t os ls o ls
  unfolding apply visit Locals.visit_select charged choose
  select_lem os ls o g h =
      let ((c, os1), e, h') = bind_inv (pop_i32 os) (λ x. choose x.0 x.1) h in
      let found = pop_i32_inv os c os1 e in
      subst (λ l. Emits (visit costs Operator.select) t l ls o ls) (sym found)
        (chosen c os1 (subst (λ l. Agrees t l ls) found g) h')
    where
      chosen :
          (c : ℕ) (os1 : List Value)
          → Agrees t (Value.i32 c ∷ os1) ls
          → choose c os1 ≡ some o
          → Emits (visit costs Operator.select) t (Value.i32 c ∷ os1) ls o ls
      chosen c [] g h = absurd cc
      chosen c (b ∷ []) g h = absurd cc
      chosen c (b ∷ a ∷ rest) g h =
          let (alike, e, h') =
            bind_inv (same (ValType-discrete (ty a) (ty b)))
              (λ _. some ((if c == 0 then b else a) ∷ rest)) h in
          let left : (if c == 0 then b else a) ∷ rest ≡ o = cc in
          subst (λ o. Emits (visit costs Operator.select) t (Value.i32 c ∷ b ∷ a ∷ rest) ls o ls)
            left (charged-Emits costs p (select-Emits c b a alike g))

  i32_const_lem :
      (v : ℕ) (os ls : List Value) (o : List Value)
      → v < 2 ^ 32
      → Agrees t os ls
      → apply (Operator.i32_const v) os ≡ some o
      → Emits (visit costs (Operator.i32_const v)) t os ls o ls
  unfolding apply visit Locals.visit_i32_const charged
  i32_const_lem v os ls o c g h =
      let left : Value.i32 v ∷ os ≡ o = cc in
      subst (λ o. Emits (visit costs (Operator.i32_const v)) t os ls o ls) left
        (charged-Emits costs p (i32_const-Emits v c g))

  i64_const_lem :
      (v : ℕ) (os ls : List Value) (o : List Value)
      → v < 2 ^ 64
      → Agrees t os ls
      → apply (Operator.i64_const v) os ≡ some o
      → Emits (visit costs (Operator.i64_const v)) t os ls o ls
  unfolding apply visit Locals.visit_i64_const charged
  i64_const_lem v os ls o c g h =
      let left : Value.i64 v ∷ os ≡ o = cc in
      subst (λ o. Emits (visit costs (Operator.i64_const v)) t os ls o ls) left
        (charged-Emits costs p (i64_const-Emits v c g))

  -- The visit of an operator that has a meaning succeeds, and appends code that turns the values on
  -- the stack into those of the meaning.
  pub visit-Emits :
      (op : Operator) (os ls os' ls' : List Value)
      → Constant op
      → Agrees t os ls
      → meaning op os ls ≡ some (os', ls')
      → Emits (visit costs op) t os ls os' ls'
  unfolding meaning visit
  visit-Emits (Operator.local_get i) os ls os' ls' c g h =
      let (v, e, h') = bind_inv {B = Values} (local_at i ls) (λ v. some (v ∷ os, ls)) h in
      arrive h' (Placed.local_get-Emits costs p i os ls v e g)
  visit-Emits (Operator.local_set i) [] ls os' ls' c g h = absurd cc
  visit-Emits (Operator.local_set i) (v ∷ os) ls os' ls' c g h =
      let (old, e, h') =
        bind_inv {B = Values} (local_at i ls)
          (λ old. same (ValType-discrete (ty old) (ty v)) >>= λ _. some (os, with_local i v ls))
          h in
      let (alike, _, h'') =
        bind_inv {B = Values} (same (ValType-discrete (ty old) (ty v)))
          (λ _. some (os, with_local i v ls)) h' in
      arrive h'' (Placed.local_set-Emits costs p i os ls old v e alike g)
  visit-Emits (Operator.local_tee i) [] ls os' ls' c g h = absurd cc
  visit-Emits (Operator.local_tee i) (v ∷ os) ls os' ls' c g h =
      let (old, e, h') =
        bind_inv {B = Values} (local_at i ls)
          (λ old. same (ValType-discrete (ty old) (ty v)) >>= λ _. some (v ∷ os, with_local i v ls))
          h in
      let (alike, _, h'') =
        bind_inv {B = Values} (same (ValType-discrete (ty old) (ty v)))
          (λ _. some (v ∷ os, with_local i v ls)) h' in
      arrive h'' (Placed.local_tee-Emits costs p i os ls old v e alike g)
  visit-Emits Operator.drop os ls os' ls' c g h =
      on_operands Operator.drop os ls (λ o. drop_lem os ls o g) h
  visit-Emits Operator.select os ls os' ls' c g h =
      on_operands Operator.select os ls (λ o. select_lem os ls o g) h
  visit-Emits (Operator.i32_const v) os ls os' ls' c g h =
      on_operands (Operator.i32_const v) os ls (λ o. i32_const_lem v os ls o c g) h
  visit-Emits (Operator.i64_const v) os ls os' ls' c g h =
      on_operands (Operator.i64_const v) os ls (λ o. i64_const_lem v os ls o c g) h
  visit-Emits Operator.i32_eqz os ls os' ls' c g h =
      on_operands Operator.i32_eqz os ls (λ o e. Sound.i32_eqz-Emits costs p g e) h
  visit-Emits Operator.i64_eqz os ls os' ls' c g h =
      on_operands Operator.i64_eqz os ls (λ o e. Sound.i64_eqz-Emits costs p g e) h
  visit-Emits (Operator.i32_compare op) os ls os' ls' c g h =
      on_operands (Operator.i32_compare op) os ls (λ o e. Sound.i32_compare-Emits costs p g op e) h
  visit-Emits (Operator.i32_unary op) os ls os' ls' c g h =
      on_operands (Operator.i32_unary op) os ls (λ o e. Sound.i32_unary-Emits costs p g op e) h
  visit-Emits (Operator.i32_binary op) os ls os' ls' c g h =
      on_operands (Operator.i32_binary op) os ls (λ o e. Sound.i32_binary-Emits costs p g op e) h
  visit-Emits (Operator.i64_unary op) os ls os' ls' c g h =
      on_operands (Operator.i64_unary op) os ls (λ o e. Sound.i64_unary-Emits costs p g op e) h
  visit-Emits (Operator.i64_binary op) os ls os' ls' c g h =
      on_operands (Operator.i64_binary op) os ls (λ o e. Sound.i64_binary-Emits costs p g op e) h
  visit-Emits (Operator.conversion op) os ls os' ls' c g h =
      on_operands (Operator.conversion op) os ls (λ o e. Sound.conversion-Emits costs p g op e) h
