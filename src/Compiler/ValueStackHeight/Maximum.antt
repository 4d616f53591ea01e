-- ===== src/Compiler/ValueStackHeight/Maximum.antt =====
-- src/compiler/value_stack.rs: the maximum that is kept is the greatest height that there was.
use rwasm.Base.{ℕ, ◌≤◌, ◌≡◌, refl, List, [], ◌∷◌, some, max, arith}
use rwasm.Types.Value.{ValType}
use rwasm.Compiler.ValueStackHeight.{
  ValueStackHeight, push_n, pop_n, push_type, pop_type, shrink_to, cells_of,
}

-- The heights that the operations lead through, from one state to another.
pub data Follows : ValueStackHeight → List ℕ → ValueStackHeight → Type 0 where
  done : {h : ValueStackHeight} → Follows h [] h
  push_ns :
      {h h' : ValueStackHeight} {hs : List ℕ} (n : ℕ)
      → Follows (push_n n h) hs h'
      → Follows h ((push_n n h).height ∷ hs) h'
  push_types :
      {h h' : ValueStackHeight} {hs : List ℕ} (t : ValType)
      → Follows (push_type t h) hs h'
      → Follows h ((push_type t h).height ∷ hs) h'
  pop_ns :
      {h q h' : ValueStackHeight} {hs : List ℕ} (n : ℕ)
      → pop_n n h ≡ some q
      → Follows q hs h'
      → Follows h (q.height ∷ hs) h'
  pop_types :
      {h q h' : ValueStackHeight} {hs : List ℕ} (t : ValType)
      → pop_type t h ≡ some q
      → Follows q hs h'
      → Follows h (q.height ∷ hs) h'
  shrinks :
      {h q h' : ValueStackHeight} {hs : List ℕ} (new_height : ℕ)
      → shrink_to new_height h ≡ some q
      → Follows q hs h'
      → Follows h (q.height ∷ hs) h'

abbrev pub highest : List ℕ → ℕ
highest [] = 0
highest (h ∷ hs) = max h (highest hs)

pop_n-keeps :
    (n : ℕ) (h : ValueStackHeight) {q : ValueStackHeight}
    → pop_n n h ≡ some q
    → (q.height ≤ h.height) × (q.max_height ≡ h.max_height)
unfolding pop_n
pop_n-keeps n h e = ground arith

shrink_to-keeps :
    (n : ℕ) (h : ValueStackHeight) {q : ValueStackHeight}
    → shrink_to n h ≡ some q
    → (q.height ≤ h.height) × (q.max_height ≡ h.max_height)
unfolding shrink_to
shrink_to-keeps n h e = ground arith

push_n-height :
    (n : ℕ) (h : ValueStackHeight)
    → ((push_n n h).height ≤ (push_n n h).max_height)
      × ((push_n n h).max_height ≡ max (push_n n h).height h.max_height)
unfolding push_n
push_n-height n h = (omega arith, refl)

Keeps : ValueStackHeight → List ℕ → ValueStackHeight → Type 0
Keeps h hs h' = (h'.max_height ≡ max h.max_height (highest hs)) × (h'.height ≤ h'.max_height)

-- A lower height, with the maximum as it was.
lower :
    (h q h' : ValueStackHeight) (hs : List ℕ)
    → (q.height ≤ h.height) × (q.max_height ≡ h.max_height)
    → h.height ≤ h.max_height
    → (q.height ≤ q.max_height → Keeps q hs h')
    → Keeps h (q.height ∷ hs) h'
unfolding Keeps
lower h q h' hs (l, m) le rest = let (e, f) = rest (omega arith) in (omega arith, f)

higher :
    (h : ValueStackHeight) (n : ℕ) (h' : ValueStackHeight) (hs : List ℕ)
    → ((push_n n h).height ≤ (push_n n h).max_height → Keeps (push_n n h) hs h')
    → Keeps h ((push_n n h).height ∷ hs) h'
unfolding Keeps
higher h n h' hs rest =
    let (p, q) = push_n-height n h in let (e, f) = rest p in (omega (arith, e, q), f)

-- Whatever is pushed, popped and shrunk, the maximum at the end is the greatest of the maximum at
-- the start and of all heights on the way, and the height at the end is within it, if the height
-- at the start was.
pub Follows-maximum :
    {h h' : ValueStackHeight} {hs : List ℕ}
    → Follows h hs h'
    → h.height ≤ h.max_height
    → (h'.max_height ≡ max h.max_height (highest hs)) × (h'.height ≤ h'.max_height)
unfolding Keeps push_type pop_type
Follows-maximum done le = (omega arith, le)
Follows-maximum (push_ns n f) le = higher _ n _ _ (Follows-maximum f)
Follows-maximum (push_types t f) le = higher _ (cells_of t) _ _ (Follows-maximum f)
Follows-maximum (pop_ns {h = h} n e f) le = lower _ _ _ _ (pop_n-keeps n h e) le (Follows-maximum f)
Follows-maximum (pop_types {h = h} t e f) le =
    lower _ _ _ _ (pop_n-keeps (cells_of t) h e) le (Follows-maximum f)
Follows-maximum (shrinks {h = h} n e f) le =
    lower _ _ _ _ (shrink_to-keeps n h e) le (Follows-maximum f)
