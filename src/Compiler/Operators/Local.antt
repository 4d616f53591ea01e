-- ===== src/Compiler/Operators/Local.antt =====
-- The operators that read and write locals.
use mathlib.Core.Path.{subst}
use rwasm.Base.{
  ℕ, suc, ◌+◌, ◌≡◌, refl, sym, ap, ◌∙◌, List, [], ◌∷◌, ◌++◌, length, max, true, false,
  length-append, append_assoc, some, ◌⊎◌, inl, inr, arith,
}
use rwasm.Types.Opcode.{Opcode}
use rwasm.Types.Value.{Value, ValType, ty}
use rwasm.Compiler.ValueStackHeight as Height
use rwasm.Compiler.Translator.{Translator, done}
use rwasm.Compiler.Translator.Locals.{
  is_wide, relative_local_depth, type_at, get_expressed_depth, local_get_body, get_local,
}
use rwasm.Compiler.Operators.Values.{cells, cells_of, types, Fits, cells-append, AllFit-append}
use rwasm.Compiler.Operators.Code.{Leads, Leads-more, Leads-cells}
use rwasm.Compiler.Operators.Emits.{Agrees, Emits, at}
use rwasm.Compiler.Operators.Stack.{run_at}
use rwasm.Compiler.Operators.Depth.{get_narrow, get_wide, depth_of, expressed, type_of}

-- A value has one cell or two.
pub shape :
    (v : Value)
    → ((w : ℕ) × (cells_of v ≡ w ∷ []) × (is_wide (ty v) ≡ false))
      ⊎ ((hi : ℕ) × (lo : ℕ) × (cells_of v ≡ hi ∷ lo ∷ []) × (is_wide (ty v) ≡ true))
unfolding ty
shape (Value.i32 v) = inl (v, refl, refl)
shape (Value.i64 v) = inr (_, _, refl, refl)
shape (Value.f32 v) = inl (v, refl, refl)
shape (Value.f64 v) = inr (_, _, refl, refl)
shape (Value.func_ref v) = inl (v, refl, refl)
shape (Value.extern_ref v) = inl (v, refl, refl)

module _ (t : Translator) (is : List Opcode) (tys : List ValType) (h m i d : ℕ) {value : ValType}
    (e : ℕ) where
  local_get-run :
      relative_local_depth i tys ≡ some d
      → type_at d tys ≡ some value
      → get_expressed_depth d tys ≡ e
      → local_get_body i (at t is tys h m) ≡ get_local value e (at t is tys h m)
  local_get-run p q r = rw (p, q, r) refl

module _ (t : Translator) (is : List Opcode) (tys : List ValType) (h m : ℕ) (value : ValType)
    (e : ℕ) where
  get_local-narrow :
      is_wide value ≡ false
      → get_local value e (at t is tys h m)
        ≡ done tt (at t (is ++ (Opcode.local_get e ∷ [])) (value ∷ tys) (h + 1) (max (h + 1) m))
  unfolding Height.push_n
  get_local-narrow p = rw p refl

  get_local-wide :
      is_wide value ≡ true
      → get_local value e (at t is tys h m)
        ≡ done tt (
            at t
              (is ++ (Opcode.local_get e ∷ Opcode.local_get e ∷ []))
              (value ∷ tys)
              (h + 2)
              (max (h + 2) m))
  unfolding Height.push_n
  get_local-wide p =
      rw p (ground (arith, append_assoc is (Opcode.local_get e ∷ []) (Opcode.local_get e ∷ [])))

-- The values above a local, operands and locals, seen together.
pub all_cells :
    (os above rest : List Value)
    → cells os ++ cells (above ++ rest) ≡ cells (os ++ above) ++ cells rest
all_cells os above rest =
    ap (λ c. cells os ++ c) (cells-append above rest)
    ∙ (sym (append_assoc (cells os) (cells above) (cells rest))
        ∙ ap (λ c. c ++ cells rest) (sym (cells-append os above)))

pub all_types :
    (os above rest : List Value) → types ((os ++ above) ++ rest) ≡ types (os ++ (above ++ rest))
all_types os above rest = ap types (append_assoc os above rest)

pub under :
    (v : Value) (os ls : List Value)
    → cells_of v ++ (cells os ++ cells ls) ≡ cells (v ∷ os) ++ cells ls
under v os ls = sym (append_assoc (cells_of v) (cells os) (cells ls))

module _ (i : ℕ) (os above : List Value) (v : Value) (below : List Value)
    (here : i ≡ length below) where
  -- What the translator finds out about the local.
  pub found_depth :
      relative_local_depth i (types (os ++ (above ++ (v ∷ below))))
      ≡ some (suc (length (os ++ above)))
  found_depth =
      subst (λ tys. relative_local_depth i tys ≡ some (suc (length (os ++ above))))
        (all_types os above (v ∷ below)) (rw here (depth_of (os ++ above) v below))

  pub found_type :
      type_at (suc (length (os ++ above))) (types (os ++ (above ++ (v ∷ below)))) ≡ some (ty v)
  found_type =
      subst (λ tys. type_at (suc (length (os ++ above))) tys ≡ some (ty v))
        (all_types os above (v ∷ below)) (type_of (os ++ above) v below)

  pub found_expressed :
      get_expressed_depth (suc (length (os ++ above))) (types (os ++ (above ++ (v ∷ below))))
      ≡ length (cells (os ++ above)) + length (cells_of v)
  found_expressed =
      subst
        (λ tys.
          get_expressed_depth (suc (length (os ++ above))) tys
          ≡ length (cells (os ++ above)) + length (cells_of v))
        (all_types os above (v ∷ below)) (expressed (os ++ above) v below)

  module _ {t : Translator} (g : Agrees t os (above ++ (v ∷ below))) where
    abbrev depth : ℕ
    depth = length (cells (os ++ above)) + length (cells_of v)

    v_Fits : Fits v
    v_Fits = (AllFit-append above (v ∷ below) g.locals_fit).1.0

    -- A copy of the local on top.
    get_by :
        (code : List Opcode) (n : ℕ)
        → length (cells_of v) ≡ n
        → get_local (ty v) depth (
            at t t.instruction_set
              (types (os ++ (above ++ (v ∷ below))))
              t.stack_height.height
              t.stack_height.max_height)
          ≡ done tt (
              at t
                (t.instruction_set ++ code)
                (ty v ∷ types (os ++ (above ++ (v ∷ below))))
                (t.stack_height.height + n)
                (max (t.stack_height.height + n) t.stack_height.max_height))
        → Leads code n
            (cells (os ++ above) ++ (cells_of v ++ cells below))
            (cells_of v ++ (cells (os ++ above) ++ (cells_of v ++ cells below)))
        → Emits (local_get_body i) t os (above ++ (v ∷ below)) (v ∷ os) (above ++ (v ∷ below))
    get_by code n size run l =
        let grows : length (cells (v ∷ os)) ≡ n + length (cells os) =
          omega (arith, length-append (cells_of v) (cells os), size) in
        let there = sym (all_cells os above (v ∷ below)) in
        record {
          code = code;
          height = t.stack_height.height + n;
          most = max (t.stack_height.height + n) t.stack_height.max_height;
          runs = run_at (local_get_body i) t (types (os ++ (above ++ (v ∷ below)))) code g.typed (
              local_get-run t t.instruction_set (types (os ++ (above ++ (v ∷ below))))
                t.stack_height.height t.stack_height.max_height i (suc (length (os ++ above))) depth
                found_depth found_type found_expressed
              ∙ run);
          grown = omega arith;
          agrees = record {
            typed = refl;
            high = omega (arith, g.high, grows);
            params = g.params;
            operands_fit = (v_Fits, g.operands_fit);
            locals_fit = g.locals_fit;
            bounded = omega arith;
          };
          leads = Leads-more (omega arith) (
              Leads-cells there
                (ap (λ c. cells_of v ++ c) there ∙ under v os (above ++ (v ∷ below))) l);
        }

    pub local_get-split :
        Emits (local_get_body i) t os (above ++ (v ∷ below)) (v ∷ os) (above ++ (v ∷ below))
    local_get-split = elim (shape v) [
      | inl (w, cs, one) ↦
          get_by (Opcode.local_get depth ∷ []) 1 (ap length cs)
            (get_local-narrow t t.instruction_set (types (os ++ (above ++ (v ∷ below))))
              t.stack_height.height t.stack_height.max_height (ty v) depth one)
            (subst
              (λ c.
                Leads (Opcode.local_get depth ∷ []) 1 (cells (os ++ above) ++ (c ++ cells below))
                  (c ++ (cells (os ++ above) ++ (c ++ cells below))))
              (sym cs)
              (get_narrow (cells (os ++ above)) (cells below) w depth
                (omega (arith, ap length cs))))
      | inr (hi, lo, cs, two) ↦
          get_by (Opcode.local_get depth ∷ Opcode.local_get depth ∷ []) 2 (ap length cs)
            (get_local-wide t t.instruction_set (types (os ++ (above ++ (v ∷ below))))
              t.stack_height.height t.stack_height.max_height (ty v) depth two)
            (subst
              (λ c.
                Leads (Opcode.local_get depth ∷ Opcode.local_get depth ∷ []) 2
                  (cells (os ++ above) ++ (c ++ cells below))
                  (c ++ (cells (os ++ above) ++ (c ++ cells below))))
              (sym cs)
              (get_wide (cells (os ++ above)) (cells below) lo hi depth
                (omega (arith, ap length cs))))
    ]
