-- ===== src/Compiler/Operators/Select.antt =====
-- `drop`, `select`, constants and the cut to 32 bits.
use rwasm.Base.{
  ℕ, suc, ◌+◌, ◌-◌, ◌/◌, ◌%◌, ◌^◌, ◌<◌, ◌≤◌, ◌≡◌, refl, sym, ap, ◌∙◌, List, [], ◌∷◌, ◌++◌, length,
  max, append_assoc, append-nil, length-append, true, false, Bool-cases, inl, inr, ◌==◌,
  if◌then◌else◌, arith,
}
use rwasm.Base.Ints.{pos}
use rwasm.Types.Opcode.{Opcode}
use rwasm.Types.Value.{Value, ValType, ty}
use rwasm.Isa.Block.{local_step, local_run}
use rwasm.Isa.Straight.{stop, go}
use rwasm.Isa.Conv.{op_i32_wrap_i64}
use rwasm.Compiler.ValueStackHeight as Height
use rwasm.Compiler.Translator.{Translator, Tr, done}
use rwasm.Compiler.Translator.Locals.{
  is_wide, drop_body, select_body, i32_const_body, i64_const_body,
}
use rwasm.Compiler.Translator.Numeric.{wrap_body}
use rwasm.Compiler.Operators.Values.{cells, cells_of, types, Fits, AllFit, length-cells_of}
use rwasm.Compiler.FuncTypeRegistry.{result_cells}
use rwasm.Compiler.Operators.Code.{Leads, Leads-cells, Straight-Leads, Computes-Leads}
use rwasm.Compiler.Operators.Emits.{Agrees, Emits, at}
use rwasm.Compiler.Operators.Stack.{replace-Emits}
use rwasm.Compiler.Operators.Local.{shape}

abbrev select_wide_code : List Opcode
select_wide_code =
    Opcode.br_if_eqz (pos 4)
    ∷ Opcode.drop
    ∷ Opcode.drop
    ∷ Opcode.br (pos 3)
    ∷ Opcode.local_set 2
    ∷ Opcode.local_set 2
    ∷ []

module _ (t : Translator) (is : List Opcode) (tys : List ValType) (h m : ℕ) where
  drop-narrow :
      (item : ValType)
      → is_wide item ≡ false
      → 1 ≤ h
      → drop_body (at t is (item ∷ tys) h m)
        ≡ done tt (at t (is ++ (Opcode.drop ∷ [])) tys (h - 1) m)
  unfolding Height.pop_n
  drop-narrow ValType.i32 e p = ground arith
  drop-narrow ValType.i64 e p = absurd cc
  drop-narrow ValType.f32 e p = ground arith
  drop-narrow ValType.f64 e p = absurd cc
  drop-narrow ValType.func_ref e p = ground arith
  drop-narrow ValType.extern_ref e p = ground arith
  drop-narrow ValType.v128 e p = ground arith

  drop-wide :
      (item : ValType)
      → is_wide item ≡ true
      → 2 ≤ h
      → drop_body (at t is (item ∷ tys) h m)
        ≡ done tt (at t (is ++ (Opcode.drop ∷ Opcode.drop ∷ [])) tys (h - 2) m)
  unfolding Height.pop_n
  drop-wide ValType.i32 e p = absurd cc
  drop-wide ValType.i64 e p = ground (arith, append_assoc is (Opcode.drop ∷ []) (Opcode.drop ∷ []))
  drop-wide ValType.f32 e p = absurd cc
  drop-wide ValType.f64 e p = ground (arith, append_assoc is (Opcode.drop ∷ []) (Opcode.drop ∷ []))
  drop-wide ValType.func_ref e p = absurd cc
  drop-wide ValType.extern_ref e p = absurd cc
  drop-wide ValType.v128 e p = absurd cc

  select-narrow :
      (item other : ValType)
      → is_wide item ≡ false
      → 3 ≤ h
      → h ≤ m
      → select_body (at t is (ValType.i32 ∷ item ∷ other ∷ tys) h m)
        ≡ done tt (at t (is ++ (Opcode.select ∷ [])) (other ∷ tys) (h - 2) m)
  unfolding Height.pop_n Height.push_n
  select-narrow ValType.i32 other e p q = ground arith
  select-narrow ValType.i64 other e p q = absurd cc
  select-narrow ValType.f32 other e p q = ground arith
  select-narrow ValType.f64 other e p q = absurd cc
  select-narrow ValType.func_ref other e p q = ground arith
  select-narrow ValType.extern_ref other e p q = ground arith
  select-narrow ValType.v128 other e p q = ground arith

  select-wide :
      (item other : ValType)
      → is_wide item ≡ true
      → 5 ≤ h
      → h ≤ m
      → select_body (at t is (ValType.i32 ∷ item ∷ other ∷ tys) h m)
        ≡ done tt (at t (is ++ select_wide_code) (other ∷ tys) (h - 3) m)
  unfolding Height.pop_n Height.push_n
  select-wide ValType.i32 other e p q = absurd cc
  select-wide ValType.i64 other e p q = ground arith
  select-wide ValType.f32 other e p q = absurd cc
  select-wide ValType.f64 other e p q = ground arith
  select-wide ValType.func_ref other e p q = absurd cc
  select-wide ValType.extern_ref other e p q = absurd cc
  select-wide ValType.v128 other e p q = absurd cc

  i32_const-run :
      (v : ℕ)
      → i32_const_body v (at t is tys h m)
        ≡ done tt
            (at t (is ++ (Opcode.i32_const v ∷ [])) (ValType.i32 ∷ tys) (h + 1) (max (h + 1) m))
  unfolding Height.push_n
  i32_const-run v = refl

  i64_const-run :
      (v : ℕ)
      → i64_const_body v (at t is tys h m)
        ≡ done tt (
            at t
              (is ++ (Opcode.i32_const (v % 2 ^ 32) ∷ Opcode.i32_const (v / 2 ^ 32 % 2 ^ 32) ∷ []))
              (ValType.i64 ∷ tys)
              (h + 2)
              (max (h + 2) m))
  unfolding Height.push_n
  i64_const-run v = refl

  wrap-run :
      1 ≤ h
      → wrap_body (at t is (ValType.i64 ∷ tys) h m)
        ≡ done tt (at t (is ++ op_i32_wrap_i64) (ValType.i32 ∷ tys) (h - 1) m)
  unfolding Height.pop_n
  wrap-run p = ground arith

drop_one : (w : ℕ) → Leads (Opcode.drop ∷ []) 0 (w ∷ []) []
unfolding local_step
drop_one w = Straight-Leads 0 suc (λ r. omega arith) (λ rest r m. go (λ pc. refl) stop)

drop_two : (hi lo : ℕ) → Leads (Opcode.drop ∷ Opcode.drop ∷ []) 0 (hi ∷ lo ∷ []) []
unfolding local_step
drop_two hi lo =
    Straight-Leads 0 (λ r. suc (suc r)) (λ r. omega arith)
      (λ rest r m. go (λ pc. refl) (go (λ pc. refl) stop))

wrap-Leads : (hi lo : ℕ) → Leads op_i32_wrap_i64 0 (hi ∷ lo ∷ []) (lo ∷ [])
unfolding local_step op_i32_wrap_i64
wrap-Leads hi lo = Straight-Leads 0 suc (λ r. omega arith) (λ rest r m. go (λ pc. refl) stop)

const_one : (v : ℕ) → Leads (Opcode.i32_const v ∷ []) 1 [] (v ∷ [])
unfolding local_step
const_one v = Straight-Leads 1 (λ r. r) (λ r. omega arith) (λ rest r m. go (λ pc. refl) stop)

const_two : (lo hi : ℕ) → Leads (Opcode.i32_const lo ∷ Opcode.i32_const hi ∷ []) 2 [] (hi ∷ lo ∷ [])
unfolding local_step
const_two lo hi =
    Straight-Leads 2 (λ r. r) (λ r. omega arith)
      (λ rest r m. go (λ pc. refl) (go (λ pc. refl) stop))

select_one :
    (c b a : ℕ) → Leads (Opcode.select ∷ []) 0 (c ∷ b ∷ a ∷ []) ((if c == 0 then b else a) ∷ [])
unfolding local_step
select_one c b a =
    Straight-Leads 0 (λ r. suc (suc r)) (λ r. omega arith)
      (λ rest r m. go (λ pc. ground arith) stop)

-- Two ways through the code.
module _ (bhi blo ahi alo : ℕ) where
  select_two :
      (c : ℕ)
      → Leads select_wide_code 0
          (c ∷ bhi ∷ blo ∷ ahi ∷ alo ∷ [])
          (if c == 0 then bhi ∷ blo ∷ [] else ahi ∷ alo ∷ [])
  unfolding local_run
  select_two c = elim (Bool-cases (c == 0)) [
    | inl e ↦ rw e (
        Computes-Leads {msh = 0}
          (record { computes = λ rest r m. record { rounds = 3; runs = rw e refl } }) (omega arith))
    | inr e ↦ rw e (
        Computes-Leads {msh = 0}
          (record { computes = λ rest r m. record { rounds = 4; runs = rw e refl } }) (omega arith))
  ]

-- A closure that asks for no more room than there was.
module _ {body : Tr (Unit {0})} {t : Translator} {code : List Opcode} {h : ℕ}
    (before after os : List Value) {ls : List Value} where
  shrink-Emits :
      Agrees t (before ++ os) ls
      → Leads code 0 (cells before) (cells after)
      → AllFit after
      → h + length (cells before) ≡ t.stack_height.height + length (cells after)
      → h ≤ t.stack_height.max_height
      → body (
          at t t.instruction_set
            (types ((before ++ os) ++ ls))
            t.stack_height.height
            t.stack_height.max_height)
        ≡ done tt (
            at t
              (t.instruction_set ++ code)
              (types ((after ++ os) ++ ls))
              h
              t.stack_height.max_height)
      → Emits body t (before ++ os) ls (after ++ os) ls
  shrink-Emits g l fit e bound run = replace-Emits before after os g l fit e (omega arith) (
      run
      ∙ ap (λ n. done tt (at t (t.instruction_set ++ code) (types ((after ++ os) ++ ls)) h n))
          (omega (arith, g.bounded)))

size : (v : Value) {cs : List ℕ} → cells_of v ≡ cs → length (cells (v ∷ [])) ≡ length cs
size v e = omega (arith, ap length e, length-append (cells_of v) [])

module _ {t : Translator} {os ls : List Value} where
  enough :
      (v : Value) {cs : List ℕ}
      → cells_of v ≡ cs
      → Agrees t (v ∷ os) ls
      → length cs ≤ t.stack_height.height
  enough v e g = omega (arith, g.high, g.params, ap length e, length-append (cells_of v) (cells os))

  pub drop-Emits : (v : Value) → Agrees t (v ∷ os) ls → Emits drop_body t (v ∷ os) ls os ls
  drop-Emits v g = elim (shape v) [
    | inl (w, cs, one) ↦
        shrink-Emits {h = t.stack_height.height - 1} (v ∷ []) [] os g
          (Leads-cells (ap (λ c. c ++ []) (sym cs)) refl (drop_one w)) tt
          (omega (arith, size v cs, enough v cs g)) (omega (arith, g.bounded))
          (drop-narrow t t.instruction_set (types (os ++ ls)) t.stack_height.height
            t.stack_height.max_height (ty v) one (enough v cs g))
    | inr (hi, lo, cs, two) ↦
        shrink-Emits {h = t.stack_height.height - 2} (v ∷ []) [] os g
          (Leads-cells (ap (λ c. c ++ []) (sym cs)) refl (drop_two hi lo)) tt
          (omega (arith, size v cs, enough v cs g)) (omega (arith, g.bounded))
          (drop-wide t t.instruction_set (types (os ++ ls)) t.stack_height.height
            t.stack_height.max_height (ty v) two (enough v cs g))
  ]

module _ {t : Translator} {os ls : List Value} (c : ℕ) (b a x : Value) (same : ty a ≡ ty b)
    (kind : ty a ≡ ty x) (fit : Fits x) (g : Agrees t (Value.i32 c ∷ b ∷ a ∷ os) ls) where
  select_high :
      {n : ℕ}
      → length (cells_of b) ≡ n
      → length (cells_of a) ≡ n
      → 1 + n + n ≤ t.stack_height.height
  select_high p q = omega (
    arith,
    g.high,
    g.params,
    p,
    q,
    length-append (cells_of b) (cells (a ∷ os)),
    length-append (cells_of a) (cells os),
  )

  retyped :
      (code : List Opcode) (h m : ℕ)
      → done tt (at t (t.instruction_set ++ code) (ty a ∷ types (os ++ ls)) h m)
        ≡ done tt (at t (t.instruction_set ++ code) (ty x ∷ types (os ++ ls)) h m)
  retyped code h m =
      ap (λ y. done tt (at t (t.instruction_set ++ code) (y ∷ types (os ++ ls)) h m)) kind

  before3 :
      {cb ca : List ℕ}
      → cells_of b ≡ cb
      → cells_of a ≡ ca
      → c ∷ (cb ++ (ca ++ [])) ≡ cells (Value.i32 c ∷ b ∷ a ∷ [])
  before3 p q = rw (p, q) refl

  width : (n : ℕ) → length (cells_of a) ≡ n → length (cells (x ∷ [])) ≡ n
  width n p = omega (
    arith,
    p,
    length-append (cells_of x) [],
    length-cells_of a,
    length-cells_of x,
    ap result_cells kind,
  )

  select_shape :
      ((w : ℕ) (w' : ℕ)
        → cells_of b ≡ w ∷ []
        → cells_of a ≡ w' ∷ []
        → (if c == 0 then w else w') ∷ [] ≡ cells_of x)
      → ((hi lo hi' lo' : ℕ)
          → cells_of b ≡ hi ∷ lo ∷ []
          → cells_of a ≡ hi' ∷ lo' ∷ []
          → (if c == 0 then hi ∷ lo ∷ [] else hi' ∷ lo' ∷ []) ≡ cells_of x)
      → Emits select_body t (Value.i32 c ∷ b ∷ a ∷ os) ls (x ∷ os) ls
  unfolding ty
  select_shape one_cell two_cells = elim (shape b) [
    | inl (w, cs, one) ↦ elim (shape a) [
      | inl (w', cs', _) ↦
          shrink-Emits {h = t.stack_height.height - 2} (Value.i32 c ∷ b ∷ a ∷ []) (x ∷ []) os g
            (Leads-cells (before3 cs cs') (ap (λ c. c ++ []) (one_cell w w' cs cs'))
              (select_one c w w'))
            (fit, tt)
            (omega (
              arith,
              select_high (ap length cs) (ap length cs'),
              ap length (before3 cs cs'),
              width 1 (ap length cs'),
            ))
            (omega (arith, g.bounded))
            (select-narrow t t.instruction_set (types (os ++ ls)) t.stack_height.height
                t.stack_height.max_height (ty b) (ty a) one
                (select_high (ap length cs) (ap length cs')) g.bounded
              ∙ retyped _ _ _)
      | inr (_, _, _, two) ↦
          let clash : false ≡ true = sym one ∙ (ap is_wide (sym same) ∙ two) in absurd cc
    ]
    | inr (hi, lo, cs, two) ↦ elim (shape a) [
      | inl (_, _, one) ↦ let clash : false ≡ true = sym one ∙ (ap is_wide same ∙ two) in absurd cc
      | inr (hi', lo', cs', _) ↦
          shrink-Emits {h = t.stack_height.height - 3} (Value.i32 c ∷ b ∷ a ∷ []) (x ∷ []) os g
            (Leads-cells (before3 cs cs')
              (sym (append-nil _) ∙ ap (λ c. c ++ []) (two_cells hi lo hi' lo' cs cs'))
              (select_two hi lo hi' lo' c))
            (fit, tt)
            (omega (
              arith,
              select_high (ap length cs) (ap length cs'),
              ap length (before3 cs cs'),
              width 2 (ap length cs'),
            ))
            (omega (arith, g.bounded))
            (select-wide t t.instruction_set (types (os ++ ls)) t.stack_height.height
                t.stack_height.max_height (ty b) (ty a) two
                (select_high (ap length cs) (ap length cs')) g.bounded
              ∙ retyped _ _ _)
    ]
  ]

module _ {t : Translator} {os ls : List Value} where
  pub select-Emits :
      (c : ℕ) (b a : Value)
      → ty a ≡ ty b
      → Agrees t (Value.i32 c ∷ b ∷ a ∷ os) ls
      → Emits select_body t (Value.i32 c ∷ b ∷ a ∷ os) ls ((if c == 0 then b else a) ∷ os) ls
  select-Emits c b a same g = elim (Bool-cases (c == 0)) [
    | inl e ↦ rw e (
        select_shape c b a b same same g.operands_fit.1.0 g (λ w w' p q. rw e (sym p))
          (λ hi lo hi' lo' p q. rw e (sym p)))
    | inr e ↦ rw e (
        select_shape c b a a same refl g.operands_fit.1.1.0 g (λ w w' p q. rw e (sym q))
          (λ hi lo hi' lo' p q. rw e (sym q)))
  ]

  pub i32_const-Emits :
      (v : ℕ) → v < 2 ^ 32 → Agrees t os ls → Emits (i32_const_body v) t os ls (Value.i32 v ∷ os) ls
  unfolding ty
  i32_const-Emits v fit g =
      replace-Emits {n = 1} {h = t.stack_height.height + 1} [] (Value.i32 v ∷ []) os g (const_one v)
        (fit, tt) (omega arith) (omega arith)
        (i32_const-run t t.instruction_set (types (os ++ ls)) t.stack_height.height
          t.stack_height.max_height v)

  pub i64_const-Emits :
      (v : ℕ) → v < 2 ^ 64 → Agrees t os ls → Emits (i64_const_body v) t os ls (Value.i64 v ∷ os) ls
  unfolding ty
  i64_const-Emits v fit g =
      replace-Emits {n = 2} {h = t.stack_height.height + 2} [] (Value.i64 v ∷ []) os g
        (const_two (v % 2 ^ 32) (v / 2 ^ 32 % 2 ^ 32)) (fit, tt) (omega arith) (omega arith)
        (i64_const-run t t.instruction_set (types (os ++ ls)) t.stack_height.height
          t.stack_height.max_height v)

  pub wrap-Emits :
      (a : ℕ)
      → Agrees t (Value.i64 a ∷ os) ls
      → Emits wrap_body t (Value.i64 a ∷ os) ls (Value.i32 (a % 2 ^ 32) ∷ os) ls
  unfolding ty
  wrap-Emits a g =
      shrink-Emits {h = t.stack_height.height - 1} (Value.i64 a ∷ []) (Value.i32 (a % 2 ^ 32) ∷ [])
        os g (wrap-Leads (a / 2 ^ 32 % 2 ^ 32) (a % 2 ^ 32)) (omega arith, tt)
        (omega (arith, g.high, g.params)) (omega (arith, g.bounded))
        (wrap-run t t.instruction_set (types (os ++ ls)) t.stack_height.height
          t.stack_height.max_height (omega (arith, g.high, g.params)))
