-- ===== src/Compiler/FuncTypeRegistry/Canonical.antt =====
-- src/compiler/func_type_registry.rs: equal numbers stand for equal types.
use rwasm.Base.{
  ℕ, ◌%◌, ◌^◌, ◌≤◌, ◌≡◌, ◌≢◌, refl, sym, ap, ◌∙◌, List, [], ◌∷◌, ◌++◌, append_assoc, append-nil,
  Option, some, none, ◌↔◌, length, get_elem?, arith,
}
use mathlib.Core.Path.{subst}
use rwasm.Types.Value.{ValType}
use rwasm.Compiler.Error.{Result, ok, err, CompilationError}
use rwasm.Compiler.FuncTypeRegistry.{
  FuncType, FuncTypeRegistry, adjust, position, default_registry, add_type, alloc_func_type,
  with_registry, alloc_all, new, resolve_func_type_signature,
}
use rwasm.Compiler.FuncTypeRegistry.Position.{get-position, get_elem?-below, Names, Names-snoc}
use mathlib.Core.Option

abbrev types_of : Result CompilationError (ℕ × FuncTypeRegistry) → List FuncType
types_of (ok (i, r)) = r.original_func_types
types_of (err e) = []

abbrev numbers_of : Result CompilationError (ℕ × FuncTypeRegistry) → List ℕ
numbers_of (ok (i, r)) = r.original_signatures
numbers_of (err e) = []

IsCanonical : FuncTypeRegistry → Type 0
IsCanonical r = Names r.original_func_types r.original_signatures

-- No vector type among the parameters or the results of any type.
unfoldable pub NoVector : List ValType → Type 0
NoVector [] = Unit
NoVector (t ∷ ts) = (t ≢ ValType.v128) × NoVector ts

unfoldable pub NoVectors : List FuncType → Type 0
NoVectors [] = Unit
NoVectors (t ∷ ts) = NoVector t.params × NoVector t.results × NoVectors ts

map-some :
    (f : List ValType → List ValType) (o : Option (List ValType))
    → ((us : List ValType) × (o ≡ some us))
    → (us : List ValType) × (Option.map f o ≡ some us)
map-some f none (us, e) = absurd cc
map-some f (some vs) (us, e) = (f vs, refl)

adjust-some : (ts : List ValType) → NoVector ts → (us : List ValType) × (adjust ts ≡ some us)
unfolding adjust NoVector
adjust-some [] h = ([], refl)
adjust-some (ValType.v128 ∷ ts) (h, k) = absurd (h refl)
adjust-some (ValType.i32 ∷ ts) (h, k) =
    map-some (λ us. ValType.i32 ∷ us) (adjust ts) (adjust-some ts k)
adjust-some (ValType.f32 ∷ ts) (h, k) =
    map-some (λ us. ValType.f32 ∷ us) (adjust ts) (adjust-some ts k)
adjust-some (ValType.func_ref ∷ ts) (h, k) =
    map-some (λ us. ValType.func_ref ∷ us) (adjust ts) (adjust-some ts k)
adjust-some (ValType.extern_ref ∷ ts) (h, k) =
    map-some (λ us. ValType.extern_ref ∷ us) (adjust ts) (adjust-some ts k)
adjust-some (ValType.i64 ∷ ts) (h, k) =
    map-some (λ us. ValType.i32 ∷ ValType.i32 ∷ us) (adjust ts) (adjust-some ts k)
adjust-some (ValType.f64 ∷ ts) (h, k) =
    map-some (λ us. ValType.i32 ∷ ValType.i32 ∷ us) (adjust ts) (adjust-some ts k)

alloc_func_type-some :
    (t : FuncType) (r : FuncTypeRegistry)
    → NoVector t.params
    → NoVector t.results
    → (i : ℕ) × (q : FuncTypeRegistry) × (alloc_func_type t r ≡ ok (i, q))
unfolding alloc_func_type
alloc_func_type-some t r h k =
    add_type-some (adjust t.params) (adjust t.results) (adjust-some t.params h)
      (adjust-some t.results k)
  where
    add_type-some :
        (ps rs : Option (List ValType))
        → ((us : List ValType) × (ps ≡ some us))
        → ((us : List ValType) × (rs ≡ some us))
        → (i : ℕ) × (q : FuncTypeRegistry) × (add_type t r ps rs ≡ ok (i, q))
    add_type-some none rs (us, e) f = absurd cc
    add_type-some (some ps) none e (us, f) = absurd cc
    add_type-some (some ps) (some rs) e f = (_, _, refl)

alloc_all-step :
    (t : FuncType) (ts : List FuncType) (r q : FuncTypeRegistry) {i : ℕ}
    → alloc_func_type t r ≡ ok (i, q)
    → alloc_all (t ∷ ts) r ≡ alloc_all ts q
unfolding alloc_all
alloc_all-step t ts r q e = ap (λ x. with_registry x (λ r'. alloc_all ts r')) e

alloc_all-some :
    (ts : List FuncType) (r : FuncTypeRegistry)
    → NoVectors ts
    → (q : FuncTypeRegistry) × (alloc_all ts r ≡ ok q)
unfolding NoVectors alloc_all
alloc_all-some [] r h = (r, refl)
alloc_all-some (t ∷ ts) r (h, k, l) =
    let (i, q, e) = alloc_func_type-some t r h k in
    let (q', f) = alloc_all-some ts q l in (q', alloc_all-step t ts r q e ∙ f)

empty_lists-Names : Names [] []
unfolding Names
empty_lists-Names = (refl, λ i t h. absurd cc)

add_type-ok :
    (t : FuncType) (r : FuncTypeRegistry) (ps rs : Option (List ValType)) {i : ℕ}
    {r' : FuncTypeRegistry}
    → add_type t r ps rs ≡ ok (i, r')
    → IsCanonical r
    → IsCanonical r' × (r'.original_func_types ≡ r.original_func_types ++ (t ∷ []))
unfolding IsCanonical
add_type-ok t r none rs h c = absurd cc
add_type-ok t r (some ps) none h c = absurd cc
add_type-ok t r (some ps) (some rs) {r' = r'} h c =
    let types : r.original_func_types ++ (t ∷ []) ≡ r'.original_func_types = ap types_of h in
    let numbers = ap numbers_of h in
    (
      subst (λ us. Names us r'.original_signatures) types
          (subst (λ ss. Names (r.original_func_types ++ (t ∷ [])) ss) numbers
            (Names-snoc r.original_func_types r.original_signatures t c)),
      sym types,
    )

alloc_func_type-ok :
    (t : FuncType) (r : FuncTypeRegistry) {i : ℕ} {r' : FuncTypeRegistry}
    → alloc_func_type t r ≡ ok (i, r')
    → IsCanonical r
    → IsCanonical r' × (r'.original_func_types ≡ r.original_func_types ++ (t ∷ []))
unfolding alloc_func_type
alloc_func_type-ok t r h = add_type-ok t r (adjust t.params) (adjust t.results) h

alloc_all-cons :
    (t : FuncType) (ts : List FuncType) (r : FuncTypeRegistry) {r' : FuncTypeRegistry}
    → alloc_all (t ∷ ts) r ≡ ok r'
    → (i : ℕ) × (q : FuncTypeRegistry) × (alloc_func_type t r ≡ ok (i, q))
      × (alloc_all ts q ≡ ok r')
unfolding alloc_all
alloc_all-cons t ts r {r' = r'} h = go (alloc_func_type t r) refl h
  where
    go :
        (x : Result CompilationError (ℕ × FuncTypeRegistry))
        → alloc_func_type t r ≡ x
        → with_registry x (λ q. alloc_all ts q) ≡ ok r'
        → (i : ℕ) × (q : FuncTypeRegistry) × (alloc_func_type t r ≡ ok (i, q))
          × (alloc_all ts q ≡ ok r')
    go (err e) f h = absurd cc
    go (ok (i, q)) f h = (i, q, f, h)

alloc_all-nil : (r : FuncTypeRegistry) {r' : FuncTypeRegistry} → alloc_all [] r ≡ ok r' → r ≡ r'
unfolding alloc_all
alloc_all-nil r h = cc

alloc_all-ok :
    (ts : List FuncType) (r : FuncTypeRegistry) {r' : FuncTypeRegistry}
    → alloc_all ts r ≡ ok r'
    → IsCanonical r
    → IsCanonical r' × (r'.original_func_types ≡ r.original_func_types ++ ts)
alloc_all-ok [] r {r' = r'} h c =
    subst (λ q. IsCanonical q × (q.original_func_types ≡ r.original_func_types ++ []))
      (alloc_all-nil r h) (c, sym (append-nil r.original_func_types))
alloc_all-ok (t ∷ ts) r h c =
    let (i, q, e, f) = alloc_all-cons t ts r h in
    let (c', g) = alloc_func_type-ok t r e c in
    let (c'', k) = alloc_all-ok ts q f c' in
    (c'', k ∙ (ap (λ us. us ++ ts) g ∙ append_assoc r.original_func_types (t ∷ []) ts))

-- The numbers of a registry that is canonical, for types that fit below 2 ^ 32.
numbers-equal :
    (us : List FuncType) (ss : List ℕ) (i j : ℕ) {t u : FuncType}
    → Names us ss
    → length us ≤ 2 ^ 32
    → get_elem? us i ≡ some t
    → get_elem? us j ≡ some u
    → (m : ℕ) × (n : ℕ) × (get_elem? ss i ≡ some m)
      × (get_elem? ss j ≡ some n)
      × ((m ≡ n) ↔ (t ≡ u))
unfolding Names
numbers-equal us ss i j {t = t} {u = u} (_, names) bound h k =
    let (p, p_at, e) = names i t h in
    let (q, q_at, f) = names j u k in
    let p_get = get-position t us p_at in
    let q_get = get-position u us q_at in
    let p_fits : p % 2 ^ 32 ≡ p = omega (arith, bound, get_elem?-below us p p_get) in
    let q_fits : q % 2 ^ 32 ≡ q = omega (arith, bound, get_elem?-below us q q_get) in
    (p, q, e ∙ ap some p_fits, f ∙ ap some q_fits, (same p_get q_get, same_place p_at q_at))
  where
    same : {p q : ℕ} → get_elem? us p ≡ some t → get_elem? us q ≡ some u → p ≡ q → t ≡ u
    same p_get q_get p_q = cc

    same_place : {p q : ℕ} → position t us ≡ some p → position u us ≡ some q → t ≡ u → p ≡ q
    same_place p_at q_at t_u = cc

-- A list of types without vectors, at most 2 ^ 32 of them, is registered, and two of its indices
-- have the same signature number exactly when their types, as declared, are equal.
pub new-Canonical :
    (func_types : List FuncType)
    → NoVectors func_types
    → length func_types ≤ 2 ^ 32
    → (r : FuncTypeRegistry) × (new func_types ≡ ok r)
      × ((i j : ℕ) (t u : FuncType)
          → get_elem? func_types i ≡ some t
          → get_elem? func_types j ≡ some u
          → (m : ℕ) × (n : ℕ) × (resolve_func_type_signature i r ≡ some m)
            × (resolve_func_type_signature j r ≡ some n)
            × ((m ≡ n) ↔ (t ≡ u)))
unfolding new resolve_func_type_signature IsCanonical
new-Canonical func_types h bound =
    let (r, e) = alloc_all-some func_types default_registry h in
    let (names, f) = alloc_all-ok func_types default_registry e empty_lists-Names in
    (
      r,
      e,
      λ i j t u a b.
          numbers-equal func_types r.original_signatures i j
            (subst (λ us. Names us r.original_signatures) f names) bound a b,
    )
