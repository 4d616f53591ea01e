-- ===== src/Compiler/Operators/Stack.antt =====
-- The operators that take operands off the stack and put results there.
use mathlib.Core.Path.{subst}
use rwasm.Base.{
  ℕ, suc, ◌+◌, ◌-◌, ◌^◌, ◌<◌, ◌≤◌, ◌≡◌, refl, sym, ap, ◌∙◌, List, [], ◌∷◌, ◌++◌, length, max,
  length-append, append_assoc, arith,
}
use rwasm.Types.Opcode.{Opcode}
use rwasm.Types.Value.{Value, ValType, ty}
use rwasm.Isa.Words.{cells64}
use rwasm.Compiler.Translator.{Translator, Tr, done}
use rwasm.Compiler.Translator.Numeric.{
  binary_body, binary_compare_body, unary_body, unary_compare_body, conversion_body,
}
use rwasm.Compiler.Operators.Values.{cells, types, AllFit, cells-append, AllFit-append, AllFit-join}
use rwasm.Compiler.Operators.Code.{Leads, Leads-under, Leads-more}
use rwasm.Compiler.Operators.Emits.{
  Agrees, Emits, at, binary_i32, binary_i64, compare_i32, unary_i32, unary_i64, unary_compare_i32,
  unary_compare_i64, extend_i32,
}

-- The types that the state holds are those of the values.
pub run_at :
    (body : Tr (Unit {0})) (t : Translator) (tys : List ValType) (code : List Opcode)
    {new : List ValType} {h m : ℕ}
    → t.stack_types ≡ tys
    → body (at t t.instruction_set tys t.stack_height.height t.stack_height.max_height)
      ≡ done tt (at t (t.instruction_set ++ code) new h m)
    → body t ≡ done tt (at t (t.instruction_set ++ code) new h m)
run_at body t tys code {new} {h} {m} e run =
    subst
      (λ tys.
        body (at t t.instruction_set tys t.stack_height.height t.stack_height.max_height)
        ≡ done tt (at t (t.instruction_set ++ code) new h m))
      (sym e) run

regroup :
    (top os ls : List Value) → cells top ++ (cells os ++ cells ls) ≡ cells (top ++ os) ++ cells ls
regroup top os ls =
    sym (append_assoc (cells top) (cells os) (cells ls))
    ∙ ap (λ c. c ++ cells ls) (sym (cells-append top os))

length_top :
    (top os : List Value) → length (cells (top ++ os)) ≡ length (cells top) + length (cells os)
length_top top os = ap length (cells-append top os) ∙ length-append (cells top) (cells os)

-- Values on top are replaced by others.
module _ {body : Tr (Unit {0})} {t : Translator} {code : List Opcode} {n h : ℕ}
    (before after os : List Value) {ls : List Value} where
  pub replace-Emits :
      Agrees t (before ++ os) ls
      → Leads code n (cells before) (cells after)
      → AllFit after
      → h + length (cells before) ≡ t.stack_height.height + length (cells after)
      → h ≤ max (t.stack_height.height + n) t.stack_height.max_height
      → body (
          at t t.instruction_set
            (types ((before ++ os) ++ ls))
            t.stack_height.height
            t.stack_height.max_height)
        ≡ done tt (
            at t
              (t.instruction_set ++ code)
              (types ((after ++ os) ++ ls))
              h
              (max (t.stack_height.height + n) t.stack_height.max_height))
      → Emits body t (before ++ os) ls (after ++ os) ls
  replace-Emits g l fit e bound run = record {
    code = code;
    height = h;
    most = max (t.stack_height.height + n) t.stack_height.max_height;
    runs = run_at body t (types ((before ++ os) ++ ls)) code g.typed run;
    grown = omega arith;
    agrees = record {
      typed = refl;
      high = omega (arith, g.high, length_top before os, length_top after os, e);
      params = g.params;
      operands_fit = AllFit-join after os fit (AllFit-append before os g.operands_fit).1;
      locals_fit = g.locals_fit;
      bounded = bound;
    };
    leads = Leads-more (omega arith) (
        subst (λ cs. Leads code n cs (cells (after ++ os) ++ cells ls)) (regroup before os ls)
          (subst (λ cs. Leads code n (cells before ++ (cells os ++ cells ls)) cs)
            (regroup after os ls) (Leads-under (cells os ++ cells ls) l)));
  }

module _ {t : Translator} {code : List Opcode} {n : ℕ} {os ls : List Value} where
  pub binary_i32-Emits :
      (a b v : ℕ)
      → Agrees t (Value.i32 b ∷ Value.i32 a ∷ os) ls
      → Leads code n (b ∷ a ∷ []) (v ∷ [])
      → v < 2 ^ 32
      → Emits (binary_body code n) t (Value.i32 b ∷ Value.i32 a ∷ os) ls (Value.i32 v ∷ os) ls
  unfolding ty
  binary_i32-Emits a b v g l fit =
      replace-Emits {h = t.stack_height.height - 1} (Value.i32 b ∷ Value.i32 a ∷ [])
        (Value.i32 v ∷ []) os g l (fit, tt) (omega arith) (omega arith)
        (binary_i32 t t.instruction_set code (types (os ++ ls)) t.stack_height.height
          t.stack_height.max_height n (omega arith) g.bounded)

  pub binary_i64-Emits :
      (a b v : ℕ)
      → Agrees t (Value.i64 b ∷ Value.i64 a ∷ os) ls
      → Leads code n (cells64 b ++ cells64 a) (cells64 v)
      → v < 2 ^ 64
      → Emits (binary_body code n) t (Value.i64 b ∷ Value.i64 a ∷ os) ls (Value.i64 v ∷ os) ls
  unfolding ty
  binary_i64-Emits a b v g l fit =
      replace-Emits {h = t.stack_height.height - 2} (Value.i64 b ∷ Value.i64 a ∷ [])
        (Value.i64 v ∷ []) os g l (fit, tt) (omega arith) (omega arith)
        (binary_i64 t t.instruction_set code (types (os ++ ls)) t.stack_height.height
          t.stack_height.max_height n (omega arith) g.bounded)

  pub compare_i32-Emits :
      (a b v : ℕ)
      → Agrees t (Value.i32 b ∷ Value.i32 a ∷ os) ls
      → Leads code n (b ∷ a ∷ []) (v ∷ [])
      → v < 2 ^ 32
      → Emits
          (binary_compare_body code n)
          t
          (Value.i32 b ∷ Value.i32 a ∷ os)
          ls
          (Value.i32 v ∷ os)
          ls
  unfolding ty
  compare_i32-Emits a b v g l fit =
      replace-Emits {h = t.stack_height.height - 1} (Value.i32 b ∷ Value.i32 a ∷ [])
        (Value.i32 v ∷ []) os g l (fit, tt) (omega arith) (omega arith)
        (compare_i32 t t.instruction_set code (types (os ++ ls)) t.stack_height.height
          t.stack_height.max_height n (omega arith) g.bounded)

  pub unary_i32-Emits :
      (a v : ℕ)
      → Agrees t (Value.i32 a ∷ os) ls
      → Leads code n (a ∷ []) (v ∷ [])
      → v < 2 ^ 32
      → Emits (unary_body code n) t (Value.i32 a ∷ os) ls (Value.i32 v ∷ os) ls
  unfolding ty
  unary_i32-Emits a v g l fit =
      replace-Emits {h = t.stack_height.height} (Value.i32 a ∷ []) (Value.i32 v ∷ []) os g l
        (fit, tt) (omega arith) (omega (arith, g.bounded))
        (unary_i32 t t.instruction_set code (types (os ++ ls)) t.stack_height.height
          t.stack_height.max_height n (omega arith) g.bounded)

  pub unary_i64-Emits :
      (a v : ℕ)
      → Agrees t (Value.i64 a ∷ os) ls
      → Leads code n (cells64 a) (cells64 v)
      → v < 2 ^ 64
      → Emits (unary_body code n) t (Value.i64 a ∷ os) ls (Value.i64 v ∷ os) ls
  unfolding ty
  unary_i64-Emits a v g l fit =
      replace-Emits {h = t.stack_height.height} (Value.i64 a ∷ []) (Value.i64 v ∷ []) os g l
        (fit, tt) (omega arith) (omega (arith, g.bounded))
        (unary_i64 t t.instruction_set code (types (os ++ ls)) t.stack_height.height
          t.stack_height.max_height n (omega arith) g.bounded)

  pub eqz_i32-Emits :
      (a v : ℕ)
      → Agrees t (Value.i32 a ∷ os) ls
      → Leads code n (a ∷ []) (v ∷ [])
      → v < 2 ^ 32
      → Emits (unary_compare_body code n) t (Value.i32 a ∷ os) ls (Value.i32 v ∷ os) ls
  unfolding ty
  eqz_i32-Emits a v g l fit =
      replace-Emits {h = t.stack_height.height} (Value.i32 a ∷ []) (Value.i32 v ∷ []) os g l
        (fit, tt) (omega arith) (omega (arith, g.bounded))
        (unary_compare_i32 t t.instruction_set code (types (os ++ ls)) t.stack_height.height
          t.stack_height.max_height n (omega arith) g.bounded)

  pub eqz_i64-Emits :
      (a v : ℕ)
      → Agrees t (Value.i64 a ∷ os) ls
      → Leads code n (cells64 a) (v ∷ [])
      → v < 2 ^ 32
      → Emits (unary_compare_body code n) t (Value.i64 a ∷ os) ls (Value.i32 v ∷ os) ls
  unfolding ty
  eqz_i64-Emits a v g l fit =
      replace-Emits {h = t.stack_height.height - 1} (Value.i64 a ∷ []) (Value.i32 v ∷ []) os g l
        (fit, tt) (omega arith) (omega arith)
        (unary_compare_i64 t t.instruction_set code (types (os ++ ls)) t.stack_height.height
          t.stack_height.max_height n (omega arith) g.bounded)

  pub extend_i32-Emits :
      (a v : ℕ)
      → Agrees t (Value.i32 a ∷ os) ls
      → Leads code (suc (suc n)) (a ∷ []) (cells64 v)
      → v < 2 ^ 64
      → Emits
          (conversion_body ValType.i32 ValType.i64 code (suc n))
          t
          (Value.i32 a ∷ os)
          ls
          (Value.i64 v ∷ os)
          ls
  unfolding ty
  extend_i32-Emits a v g l fit =
      replace-Emits {n = suc (suc n)} {h = t.stack_height.height + 1} (Value.i32 a ∷ [])
        (Value.i64 v ∷ []) os g l (fit, tt) (omega arith) (omega arith)
        (let sum : t.stack_height.height + n + 2 ≡ t.stack_height.height + suc (suc n) =
            omega arith in
          rw (← sum) (
            extend_i32 t t.instruction_set code (types (os ++ ls)) t.stack_height.height
              t.stack_height.max_height n (omega arith) g.bounded))
