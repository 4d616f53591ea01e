-- ===== src/Compiler/Operators/Assign.antt =====
-- `local.set` and `local.tee`.
use mathlib.Core.Path.{subst}
use rwasm.Base.{
  ℕ, suc, ◌+◌, ◌-◌, ◌≤◌, ◌≡◌, refl, sym, ap, ◌∙◌, List, [], ◌∷◌, ◌++◌, length, max, true, false,
  length-append, append_assoc, some, ◌⊎◌, inl, inr, arith,
}
use rwasm.Types.Opcode.{Opcode}
use rwasm.Types.Value.{Value, ValType, ty}
use rwasm.Compiler.FuncTypeRegistry.{result_cells}
use rwasm.Compiler.ValueStackHeight as Height
use rwasm.Compiler.Translator.{Translator, done}
use rwasm.Compiler.Translator.Locals.{
  is_wide, relative_local_depth, get_expressed_depth, local_set_body, local_tee_body, set_local,
  tee_local,
}
use rwasm.Compiler.Operators.Values.{
  cells, cells_of, types, AllFit, Fits, AllFit-append, AllFit-join, cells-append, length-cells_of,
}
use rwasm.Compiler.Operators.Code.{Leads, Leads-more, Leads-cells}
use rwasm.Compiler.Operators.Emits.{Agrees, Emits, at}
use rwasm.Compiler.Operators.Stack.{run_at}
use rwasm.Compiler.Operators.Write.{set_narrow, set_wide, tee_narrow, tee_wide}
use rwasm.Compiler.Operators.Local.{shape, all_cells, under, found_depth, found_expressed}

pop_one :
    (h m : ℕ)
    → 1 ≤ h
    → Height.pop_n 1 (record { height = h; max_height = m })
      ≡ some (record { height = h - 1; max_height = m })
unfolding Height.pop_n
pop_one h m le = ground arith

module _ (t : Translator) (is : List Opcode) (tys : List ValType) (h m i d : ℕ) (value : ValType)
    (e : ℕ) where
  local_set-run :
      1 ≤ h
      → relative_local_depth i tys ≡ some d
      → get_expressed_depth d tys ≡ e
      → local_set_body i (at t is (value ∷ tys) h m) ≡ set_local value e (at t is tys (h - 1) m)
  local_set-run le p q = rw (pop_one h m le, p, q) refl

  local_tee-run :
      relative_local_depth i (value ∷ tys) ≡ some d
      → get_expressed_depth d (value ∷ tys) ≡ e
      → local_tee_body i (at t is (value ∷ tys) h m) ≡ tee_local value e (at t is (value ∷ tys) h m)
  local_tee-run p q = rw (p, q) refl

module _ (t : Translator) (is : List Opcode) (tys : List ValType) (h m : ℕ) (value : ValType)
    (e : ℕ) where
  set_local-narrow :
      is_wide value ≡ false
      → set_local value e (at t is tys (h - 1) m)
        ≡ done tt (at t (is ++ (Opcode.local_set e ∷ [])) tys (h - 1) m)
  set_local-narrow p = rw p refl

  set_local-wide :
      is_wide value ≡ true
      → 2 ≤ h
      → set_local value e (at t is tys (h - 1) m)
        ≡ done tt (at t (is ++ (Opcode.local_set e ∷ Opcode.local_set e ∷ [])) tys (h - 2) m)
  unfolding Height.pop_n
  set_local-wide p le =
      rw p (ground (arith, append_assoc is (Opcode.local_set e ∷ []) (Opcode.local_set e ∷ [])))

  tee_local-narrow :
      is_wide value ≡ false
      → tee_local value e (at t is tys h m)
        ≡ done tt (at t (is ++ (Opcode.local_tee e ∷ [])) tys h m)
  tee_local-narrow p = rw p refl

  tee_local-wide :
      is_wide value ≡ true
      → tee_local value e (at t is tys h m)
        ≡ done tt (
            at t
              (is ++ (Opcode.local_tee (e - 1) ∷ Opcode.local_get 2 ∷ Opcode.local_set e ∷ []))
              tys
              h
              (max (h + 1) m))
  unfolding Height.pop_n Height.push_n
  tee_local-wide p = rw p (ground arith)

module _ (old v : Value) (same : ty old ≡ ty v) where
  same_width : length (cells_of old) ≡ length (cells_of v)
  same_width = length-cells_of old ∙ (ap result_cells same ∙ sym (length-cells_of v))

  retyped : (xs below : List Value) → types (xs ++ (old ∷ below)) ≡ types (xs ++ (v ∷ below))
  retyped [] below = ap (λ a. a ∷ types below) same
  retyped (x ∷ xs) below = ap (λ c. ty x ∷ c) (retyped xs below)

  pub retyped_under :
      (os above below : List Value)
      → types (os ++ (above ++ (old ∷ below))) ≡ types (os ++ (above ++ (v ∷ below)))
  retyped_under [] above below = retyped above below
  retyped_under (o ∷ os) above below = ap (λ c. ty o ∷ c) (retyped_under os above below)

  length-written :
      (above below : List Value)
      → length (cells (above ++ (old ∷ below))) ≡ length (cells (above ++ (v ∷ below)))
  length-written above below = omega (
    arith,
    same_width,
    ap length (cells-append above (old ∷ below)),
    ap length (cells-append above (v ∷ below)),
    length-append (cells above) (cells_of old ++ cells below),
    length-append (cells above) (cells_of v ++ cells below),
    length-append (cells_of old) (cells below),
    length-append (cells_of v) (cells below),
  )

  -- A new value of the same type among the locals.
  written_fit :
      (above below : List Value)
      → AllFit (above ++ (old ∷ below))
      → Fits v
      → AllFit (above ++ (v ∷ below))
  written_fit above below fit f =
      let (a, b) = AllFit-append above (old ∷ below) fit in AllFit-join above (v ∷ below) a (f, b.1)

module _ (i : ℕ) (os above : List Value) (old v : Value) (below : List Value)
    (here : i ≡ length below) (same : ty old ≡ ty v) where
  abbrev depth : ℕ
  depth = length (cells (os ++ above)) + length (cells_of old)

  abbrev depth' : ℕ
  depth' = length (cells ((v ∷ os) ++ above)) + length (cells_of old)

  abbrev after : List ValType
  after = types (os ++ (above ++ (old ∷ below)))

  module _ {t : Translator} (g : Agrees t (v ∷ os) (above ++ (old ∷ below))) where
    taken : length (cells (v ∷ os)) ≡ length (cells_of v) + length (cells os)
    taken = length-append (cells_of v) (cells os)

    set_by :
        (code : List Opcode) (n : ℕ)
        → length (cells_of v) ≡ n
        → set_local
            (ty v)
            depth
            (at t t.instruction_set after (t.stack_height.height - 1) t.stack_height.max_height)
          ≡ done tt (
              at t
                (t.instruction_set ++ code)
                after
                (t.stack_height.height - n)
                t.stack_height.max_height)
        → 1 ≤ n
        → Leads code 0
            (cells_of v ++ (cells (os ++ above) ++ (cells_of old ++ cells below)))
            (cells (os ++ above) ++ (cells_of v ++ cells below))
        → Emits (local_set_body i) t (v ∷ os) (above ++ (old ∷ below)) os (above ++ (v ∷ below))
    set_by code n size run some_cell l = record {
      code = code;
      height = t.stack_height.height - n;
      most = t.stack_height.max_height;
      runs = run_at (local_set_body i) t (ty v ∷ after) code g.typed (
          local_set-run t t.instruction_set after t.stack_height.height t.stack_height.max_height i
            (suc (length (os ++ above))) (ty v) depth
            (omega (arith, g.high, g.params, taken, size, some_cell))
            (found_depth i os above old below here) (found_expressed i os above old below here)
          ∙ (run
              ∙ ap
                  (λ tys. done tt (
                    at t (t.instruction_set ++ code) tys (t.stack_height.height - n)
                      t.stack_height.max_height))
                  (retyped_under old v same os above below)));
      grown = omega arith;
      agrees = record {
        typed = refl;
        high = omega (arith, g.high, g.params, taken, size, length-written old v same above below);
        params = omega (arith, g.params, length-written old v same above below);
        operands_fit = g.operands_fit.1;
        locals_fit = written_fit old v same above below g.locals_fit g.operands_fit.0;
        bounded = omega (arith, g.bounded);
      };
      leads = Leads-more (omega arith) (
          Leads-cells
            (ap (λ c. cells_of v ++ c) (sym (all_cells os above (old ∷ below)))
              ∙ under v os (above ++ (old ∷ below)))
            (sym (all_cells os above (v ∷ below))) l);
    }

    tee_by :
        (code : List Opcode) (n : ℕ)
        → tee_local
            (ty v)
            depth'
            (at t t.instruction_set (ty v ∷ after) t.stack_height.height t.stack_height.max_height)
          ≡ done tt (
              at t
                (t.instruction_set ++ code)
                (ty v ∷ after)
                t.stack_height.height
                (max (t.stack_height.height + n) t.stack_height.max_height))
        → Leads code n
            (cells_of v ++ (cells (os ++ above) ++ (cells_of old ++ cells below)))
            (cells_of v ++ (cells (os ++ above) ++ (cells_of v ++ cells below)))
        → Emits
            (local_tee_body i)
            t
            (v ∷ os)
            (above ++ (old ∷ below))
            (v ∷ os)
            (above ++ (v ∷ below))
    tee_by code n run l = record {
      code = code;
      height = t.stack_height.height;
      most = max (t.stack_height.height + n) t.stack_height.max_height;
      runs = run_at (local_tee_body i) t (ty v ∷ after) code g.typed (
          local_tee-run t t.instruction_set after t.stack_height.height t.stack_height.max_height i
            (suc (length ((v ∷ os) ++ above))) (ty v) depth'
            (found_depth i (v ∷ os) above old below here)
            (found_expressed i (v ∷ os) above old below here)
          ∙ (run
              ∙ ap
                  (λ tys. done tt (
                    at t (t.instruction_set ++ code) (ty v ∷ tys) t.stack_height.height
                      (max (t.stack_height.height + n) t.stack_height.max_height)))
                  (retyped_under old v same os above below)));
      grown = omega arith;
      agrees = record {
        typed = refl;
        high = omega (arith, g.high, length-written old v same above below);
        params = omega (arith, g.params, length-written old v same above below);
        operands_fit = g.operands_fit;
        locals_fit = written_fit old v same above below g.locals_fit g.operands_fit.0;
        bounded = omega (arith, g.bounded);
      };
      leads = Leads-more (omega arith) (
          Leads-cells
            (ap (λ c. cells_of v ++ c) (sym (all_cells os above (old ∷ below)))
              ∙ under v os (above ++ (old ∷ below)))
            (ap (λ c. cells_of v ++ c) (sym (all_cells os above (v ∷ below)))
              ∙ under v os (above ++ (v ∷ below)))
            l);
    }

    depth'_lem : depth' ≡ length (cells_of v) + length (cells (os ++ above)) + length (cells_of old)
    depth'_lem =
        ap (λ n. n + length (cells_of old)) (length-append (cells_of v) (cells (os ++ above)))

    moved :
        (code : List Opcode) (n : ℕ) (top : List ℕ → List ℕ) {new before : List ℕ}
        → cells_of v ≡ new
        → cells_of old ≡ before
        → Leads code n
            (new ++ (cells (os ++ above) ++ (before ++ cells below)))
            (top (cells (os ++ above) ++ (new ++ cells below)))
        → Leads code n
            (cells_of v ++ (cells (os ++ above) ++ (cells_of old ++ cells below)))
            (top (cells (os ++ above) ++ (cells_of v ++ cells below)))
    moved code n top {new} p q l =
        subst
          (λ c.
            Leads code n (c ++ (cells (os ++ above) ++ (cells_of old ++ cells below)))
              (top (cells (os ++ above) ++ (c ++ cells below))))
          (sym p)
          (subst
            (λ o.
              Leads code n (new ++ (cells (os ++ above) ++ (o ++ cells below)))
                (top (cells (os ++ above) ++ (new ++ cells below))))
            (sym q) l)

    -- Both values have one cell, or both have two.
    shapes :
        ((w : ℕ) × (o : ℕ) × (cells_of v ≡ w ∷ [])
          × (cells_of old ≡ o ∷ [])
          × (is_wide (ty v) ≡ false))
        ⊎ ((hi : ℕ) × (lo : ℕ) × (ohi : ℕ) × (olo : ℕ) × (cells_of v ≡ hi ∷ lo ∷ [])
            × (cells_of old ≡ ohi ∷ olo ∷ [])
            × (is_wide (ty v) ≡ true))
    shapes = elim (shape v) [
      | inl (w, cs, one) ↦ elim (shape old) [
        | inl (o, cs', _) ↦ inl (w, o, cs, cs', one)
        | inr (_, _, _, two) ↦
            let clash : false ≡ true = sym one ∙ (ap is_wide (sym same) ∙ two) in absurd cc
      ]
      | inr (hi, lo, cs, two) ↦ elim (shape old) [
        | inl (_, _, one) ↦
            let clash : false ≡ true = sym one ∙ (ap is_wide same ∙ two) in absurd cc
        | inr (ohi, olo, cs', _) ↦ inr (hi, lo, ohi, olo, cs, cs', two)
      ]
    ]

    pub local_set-split :
        Emits (local_set_body i) t (v ∷ os) (above ++ (old ∷ below)) os (above ++ (v ∷ below))
    local_set-split = elim shapes [
      | inl (w, o, cs, cs', one) ↦
          set_by (Opcode.local_set depth ∷ []) 1 (ap length cs)
            (set_local-narrow t t.instruction_set after t.stack_height.height
              t.stack_height.max_height (ty v) depth one)
            (omega arith)
            (moved (Opcode.local_set depth ∷ []) 0 (λ c. c) cs cs'
              (set_narrow (cells (os ++ above)) (cells below) w o depth
                (omega (arith, ap length cs'))))
      | inr (hi, lo, ohi, olo, cs, cs', two) ↦
          set_by (Opcode.local_set depth ∷ Opcode.local_set depth ∷ []) 2 (ap length cs)
            (set_local-wide t t.instruction_set after t.stack_height.height
              t.stack_height.max_height (ty v) depth two
              (omega (arith, g.high, g.params, taken, ap length cs)))
            (omega arith)
            (moved (Opcode.local_set depth ∷ Opcode.local_set depth ∷ []) 0 (λ c. c) cs cs'
              (set_wide (cells (os ++ above)) (cells below) lo hi olo ohi depth
                (omega (arith, ap length cs'))))
    ]

    pub local_tee-split :
        Emits (local_tee_body i) t (v ∷ os) (above ++ (old ∷ below)) (v ∷ os) (above ++ (v ∷ below))
    local_tee-split = elim shapes [
      | inl (w, o, cs, cs', one) ↦
          tee_by (Opcode.local_tee depth' ∷ []) 0
            (tee_local-narrow t t.instruction_set (ty v ∷ after) t.stack_height.height
                t.stack_height.max_height (ty v) depth' one
              ∙ ap
                  (λ n. done tt (
                    at t (t.instruction_set ++ (Opcode.local_tee depth' ∷ [])) (ty v ∷ after)
                      t.stack_height.height n))
                  (omega (arith, g.bounded)))
            (moved (Opcode.local_tee depth' ∷ []) 0 (λ c. cells_of v ++ c) cs cs'
              (subst
                (λ top.
                  Leads (Opcode.local_tee depth' ∷ []) 0
                    (w ∷ (cells (os ++ above) ++ (o ∷ cells below)))
                    (top ++ (cells (os ++ above) ++ (w ∷ cells below))))
                (sym cs)
                (tee_narrow (cells (os ++ above)) (cells below) w o depth'
                  (omega (arith, ap length cs, ap length cs', depth'_lem)))))
      | inr (hi, lo, ohi, olo, cs, cs', two) ↦
          tee_by (Opcode.local_tee (depth' - 1) ∷ Opcode.local_get 2 ∷ Opcode.local_set depth' ∷ [])
            1
            (tee_local-wide t t.instruction_set (ty v ∷ after) t.stack_height.height
              t.stack_height.max_height (ty v) depth' two)
            (moved
              (Opcode.local_tee (depth' - 1) ∷ Opcode.local_get 2 ∷ Opcode.local_set depth' ∷ []) 1
              (λ c. cells_of v ++ c) cs cs'
              (subst
                (λ top.
                  Leads
                    (Opcode.local_tee (depth' - 1)
                      ∷ Opcode.local_get 2
                      ∷ Opcode.local_set depth'
                      ∷ [])
                    1 (hi ∷ lo ∷ (cells (os ++ above) ++ (ohi ∷ olo ∷ cells below)))
                    (top ++ (cells (os ++ above) ++ (hi ∷ lo ∷ cells below))))
                (sym cs)
                (tee_wide (cells (os ++ above)) (cells below) lo hi olo ohi depth'
                  (omega (arith, ap length cs, ap length cs', depth'_lem)))))
    ]
