-- ===== src/Compiler/FuncTypeRegistry/Position.antt =====
-- The search of src/compiler/func_type_registry.rs for a type that is there already.
use rwasm.Base.{
  ℕ, zero, suc, ◌%◌, ◌^◌, ◌<◌, ◌≡◌, ◌≢◌, refl, sym, ap, ◌∙◌, List, [], ◌∷◌, ◌++◌, Option, some,
  none, ◌⊎◌, inl, inr, length, length-append, get_elem?, get_elem?-append_right, arith,
}
use mathlib.Core.Option
use mathlib.Core.Path.{subst}
use rwasm.Compiler.FuncTypeRegistry.{FuncType, FuncType-discrete, position, at_head, unwrap_or, new}

-- The head is the type, or the rest is searched.
position-cases :
    (t u : FuncType)
    → ((u ≡ t) × ((us : List FuncType) → position t (u ∷ us) ≡ some 0))
      ⊎ ((u ≢ t) × ((us : List FuncType) → position t (u ∷ us) ≡ Option.map suc (position t us)))
unfolding position
position-cases t u = go (FuncType-discrete u t)
  where
    go :
        (d : Dec (u ≡ t))
        → ((u ≡ t) × ((us : List FuncType) → at_head d (position t us) ≡ some 0))
          ⊎ ((u ≢ t)
              × ((us : List FuncType) → at_head d (position t us) ≡ Option.map suc (position t us)))
    go (yes e) = inl (e, λ us. refl)
    go (no ne) = inr (ne, λ us. refl)

suc_of_some :
    (o : Option ℕ) {p : ℕ} → Option.map suc o ≡ some p → (q : ℕ) × (o ≡ some q) × (p ≡ suc q)
suc_of_some none h = absurd cc
suc_of_some (some q) h = (q, refl, cc)

suc_of_none : (o : Option ℕ) → Option.map suc o ≡ none → o ≡ none
suc_of_none none h = refl
suc_of_none (some q) h = absurd cc

position-nil : (t : FuncType) {p : ℕ} → position t [] ≡ some p → ⊥
unfolding position
position-nil t h = cc

position-append :
    (t : FuncType) (us vs : List FuncType) {p : ℕ}
    → position t us ≡ some p
    → position t (us ++ vs) ≡ some p
position-append t [] vs h = absurd (position-nil t h)
position-append t (u ∷ us) vs h = elim (position-cases t u) [
  | inl (e, at) ↦ at (us ++ vs) ∙ (sym (at us) ∙ h)
  | inr (ne, at) ↦
      let (q, e, f) = suc_of_some (position t us) (sym (at us) ∙ h) in
      at (us ++ vs) ∙ (ap (Option.map suc) (position-append t us vs e) ∙ ap some (sym f))
]

pub get-position :
    (t : FuncType) (us : List FuncType) {p : ℕ} → position t us ≡ some p → get_elem? us p ≡ some t
get-position t [] h = absurd (position-nil t h)
get-position t (u ∷ us) h = elim (position-cases t u) [
  | inl (e, at) ↦ head_found e (sym (at us) ∙ h)
  | inr (ne, at) ↦
      let (q, e, f) = suc_of_some (position t us) (sym (at us) ∙ h) in rw f (get-position t us e)
]
  where
    head_found :
        {p : ℕ} → u ≡ t → ◌≡◌ {A = Option ℕ} (some 0) (some p) → get_elem? (u ∷ us) p ≡ some t
    head_found {p = zero} e f = ap some e
    head_found {p = suc p} e f = absurd cc

position-append_none :
    (t : FuncType) (us : List FuncType)
    → position t us ≡ none
    → position t (us ++ (t ∷ [])) ≡ some (length us)
position-append_none t [] h = elim (position-cases t t) [
  | inl (e, at) ↦ at []
  | inr (ne, at) ↦ absurd (ne refl)
]
position-append_none t (u ∷ us) h = elim (position-cases t u) [
  | inl (e, at) ↦ absurd (clash (sym (at us) ∙ h))
  | inr (ne, at) ↦
      let rest = position-append_none t us (suc_of_none (position t us) (sym (at us) ∙ h)) in
      at (us ++ (t ∷ [])) ∙ rw rest refl
]
  where
    clash : ◌≡◌ {A = Option ℕ} (some 0) none → ⊥
    clash e = cc

-- A type that stands in the list is found.
position-found :
    (t : FuncType) (us : List FuncType) (i : ℕ)
    → get_elem? us i ≡ some t
    → (p : ℕ) × (position t us ≡ some p)
position-found t [] i h = absurd cc
position-found t (u ∷ us) zero h = elim (position-cases t u) [
  | inl (e, at) ↦ (0, at us)
  | inr (ne, at) ↦ absurd (ne (some_inj h))
]
  where
    some_inj : some u ≡ some t → u ≡ t
    some_inj e = cc
position-found t (u ∷ us) (suc i) h = elim (position-cases t u) [
  | inl (e, at) ↦ (0, at us)
  | inr (ne, at) ↦ let (p, e) = position-found t us i h in (suc p, at us ∙ rw e refl)
]

pub get_elem?-below :
    (us : List FuncType) (i : ℕ) {t : FuncType} → get_elem? us i ≡ some t → i < length us
get_elem?-below [] i h = absurd cc
get_elem?-below (u ∷ us) zero h = omega arith
get_elem?-below (u ∷ us) (suc i) h = omega (arith, get_elem?-below us i h)

-- A reading of a list with one more element is one of the list, or that of the element.
get_elem?-snoc :
    (us : List FuncType) (t : FuncType) (i : ℕ) {u : FuncType}
    → get_elem? (us ++ (t ∷ [])) i ≡ some u
    → (get_elem? us i ≡ some u) ⊎ ((i ≡ length us) × (t ≡ u))
get_elem?-snoc [] t zero h = inr (refl, cc)
get_elem?-snoc [] t (suc i) h = absurd cc
get_elem?-snoc (v ∷ us) t zero h = inl h
get_elem?-snoc (v ∷ us) t (suc i) h = elim (get_elem?-snoc us t i h) [
  | inl e ↦ inl e
  | inr (e, f) ↦ inr (ap suc e, f)
]

get_elem?-keeps :
    (ss new : List ℕ) (i : ℕ) {s : ℕ} → get_elem? ss i ≡ some s → get_elem? (ss ++ new) i ≡ some s
get_elem?-keeps [] new i h = absurd cc
get_elem?-keeps (x ∷ ss) new zero h = h
get_elem?-keeps (x ∷ ss) new (suc i) h = get_elem?-keeps ss new i h

-- The number kept for every type is the first place that holds it, cut to 32 bits.
unfoldable pub Names : List FuncType → List ℕ → Type 0
Names us ss =
    (length ss ≡ length us)
    × ((i : ℕ) (t : FuncType)
        → get_elem? us i ≡ some t
        → (p : ℕ) × (position t us ≡ some p) × (get_elem? ss i ≡ some (p % 2 ^ 32)))

-- A type that is there already takes the number it has, another one the next place.
position-snoc :
    (t : FuncType) (us : List FuncType)
    → position t (us ++ (t ∷ [])) ≡ some (unwrap_or (position t us) (length us))
position-snoc t us = go (position t us) refl
  where
    go :
        (o : Option ℕ)
        → position t us ≡ o
        → position t (us ++ (t ∷ [])) ≡ some (unwrap_or o (length us))
    go none e = position-append_none t us e
    go (some p) e = position-append t us (t ∷ []) e

pub Names-snoc :
    (us : List FuncType) (ss : List ℕ) (t : FuncType)
    → Names us ss
    → Names (us ++ (t ∷ [])) (ss ++ (unwrap_or (position t us) (length us) % 2 ^ 32 ∷ []))
unfolding Names
Names-snoc us ss t (l, names) = (
  omega (arith, l, length-append us (t ∷ []), length-append ss (number % 2 ^ 32 ∷ [])),
  λ i u h. elim (get_elem?-snoc us t i h) [
    | inl e ↦
        let (p, at, s) = names i u e in
        (p, position-append u us (t ∷ []) at, get_elem?-keeps ss (number % 2 ^ 32 ∷ []) i s)
    | inr (e, f) ↦ (
      number,
      subst (λ v. position v (us ++ (t ∷ [])) ≡ some number) f (position-snoc t us),
      get_elem?-append_right ss (number % 2 ^ 32 ∷ []) 0 i (omega (arith, e, l)),
    )
  ],
)
  where
    number : ℕ
    number = unwrap_or (position t us) (length us)
