-- ===== src/Compiler/Operators/Values.antt =====
-- The values of Wasm as cells of the value stack.
use rwasm.Base.{
  ℕ, suc, ◌^◌, ◌<◌, ◌≡◌, refl, sym, ap, ◌∙◌, List, [], ◌∷◌, ◌++◌, append_assoc, some, length,
  length-append, ◌==◌, ==_iff, Bool-cases, inl, inr, true, false, arith,
}
use rwasm.Types.Value.{Value, ValType, ty}
use rwasm.Isa.Words.{cells64}
use rwasm.Compiler.FuncTypeRegistry.{result_cells}
use rwasm.Compiler.Translator.Locals.{get_expressed_depth}
use rwasm.Compiler.Operators.{local_at, with_local}

-- As `push_value` lays them on the stack.
abbrev pub cells_of : Value → List ℕ
cells_of (Value.i32 v) = v ∷ []
cells_of (Value.i64 v) = cells64 v
cells_of (Value.f32 v) = v ∷ []
cells_of (Value.f64 v) = cells64 v
cells_of (Value.func_ref v) = v ∷ []
cells_of (Value.extern_ref v) = v ∷ []

abbrev pub cells : List Value → List ℕ
cells [] = []
cells (v ∷ vs) = cells_of v ++ cells vs

-- `map ty` under a name of its own, so that a proof sees it.
abbrev pub types : List Value → List ValType
types [] = []
types (v ∷ vs) = ty v ∷ types vs

-- The bits of a value fit its type.
abbrev pub Fits : Value → Type 0
Fits (Value.i32 v) = v < 2 ^ 32
Fits (Value.i64 v) = v < 2 ^ 64
Fits (Value.f32 v) = v < 2 ^ 32
Fits (Value.f64 v) = v < 2 ^ 64
Fits (Value.func_ref v) = v < 2 ^ 32
Fits (Value.extern_ref v) = v < 2 ^ 32

abbrev pub AllFit : List Value → Type 0
AllFit [] = Unit
AllFit (v ∷ vs) = Fits v × AllFit vs

pub cells-append : (xs ys : List Value) → cells (xs ++ ys) ≡ cells xs ++ cells ys
cells-append [] ys = refl
cells-append (x ∷ xs) ys =
    ap (λ c. cells_of x ++ c) (cells-append xs ys)
    ∙ sym (append_assoc (cells_of x) (cells xs) (cells ys))

pub types-append : (xs ys : List Value) → types (xs ++ ys) ≡ types xs ++ types ys
types-append [] ys = refl
types-append (x ∷ xs) ys = ap (λ c. ty x ∷ c) (types-append xs ys)

pub length-types : (xs : List Value) → length (types xs) ≡ length xs
length-types [] = refl
length-types (x ∷ xs) = ap suc (length-types xs)

pub length-cells_of : (v : Value) → length (cells_of v) ≡ result_cells (ty v)
unfolding ty
length-cells_of (Value.i32 v) = refl
length-cells_of (Value.i64 v) = refl
length-cells_of (Value.f32 v) = refl
length-cells_of (Value.f64 v) = refl
length-cells_of (Value.func_ref v) = refl
length-cells_of (Value.extern_ref v) = refl

-- The depth in cells that the translator computes for a depth in values.
pub get_expressed_depth-cells :
    (xs : List Value) (tys : List ValType)
    → get_expressed_depth (length xs) (types xs ++ tys) ≡ length (cells xs)
unfolding get_expressed_depth
get_expressed_depth-cells [] tys = refl
get_expressed_depth-cells (x ∷ xs) tys = omega (
  arith,
  length-append (cells_of x) (cells xs),
  length-cells_of x,
  get_expressed_depth-cells xs tys,
)

-- Where a local stands among the others, and what writing it changes.
pub local_at-split :
    (i : ℕ) (ls : List Value) {v : Value}
    → local_at i ls ≡ some v
    → (above : List Value) × (below : List Value) × (ls ≡ above ++ (v ∷ below))
      × (i ≡ length below)
      × ((w : Value) → with_local i w ls ≡ above ++ (w ∷ below))
unfolding local_at with_local
local_at-split i [] h = absurd cc
local_at-split i (x ∷ ls) {v} h = elim (Bool-cases (i == length ls)) [
  | inl e ↦ here e
  | inr e ↦ later e (local_at-split i ls)
]
  where
    here :
        (i == length ls) ≡ true
        → (above : List Value) × (below : List Value) × (x ∷ ls ≡ above ++ (v ∷ below))
          × (i ≡ length below)
          × ((w : Value) → with_local i w (x ∷ ls) ≡ above ++ (w ∷ below))
    here e =
        let same : some x ≡ some v = sym (rw e refl) ∙ h in
        let y : x ≡ v = cc in
        ([], ls, ap (λ t. t ∷ ls) y, (==_iff i (length ls)).0 e, λ w. rw e refl)

    later :
        (i == length ls) ≡ false
        → (local_at i ls ≡ some v
            → (above : List Value) × (below : List Value) × (ls ≡ above ++ (v ∷ below))
              × (i ≡ length below)
              × ((w : Value) → with_local i w ls ≡ above ++ (w ∷ below)))
        → (above : List Value) × (below : List Value) × (x ∷ ls ≡ above ++ (v ∷ below))
          × (i ≡ length below)
          × ((w : Value) → with_local i w (x ∷ ls) ≡ above ++ (w ∷ below))
    later e ih =
        let found : local_at i ls ≡ some v = rw e at h in
        let (above, below, p, q, k) = ih found in
        (x ∷ above, below, ap (λ t. x ∷ t) p, q, λ w. rw e (ap (λ t. x ∷ t) (k w)))

-- How the width of a local shows that it and the values above end where they do.
pub AllFit-append : (xs ys : List Value) → AllFit (xs ++ ys) → AllFit xs × AllFit ys
AllFit-append [] ys h = (tt, h)
AllFit-append (x ∷ xs) ys (p, h) = let (a, b) = AllFit-append xs ys h in ((p, a), b)

pub AllFit-join : (xs ys : List Value) → AllFit xs → AllFit ys → AllFit (xs ++ ys)
AllFit-join [] ys a b = b
AllFit-join (x ∷ xs) ys (p, a) b = (p, AllFit-join xs ys a b)
