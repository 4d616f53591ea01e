-- ===== src/Compiler/LabelRegistry/Resolution.antt =====
-- That the branches of src/compiler/labels.rs come to where their labels are pinned.
use mathlib.Core.Path.{subst}
use rwasm.Base.{
  ℕ, zero, suc, ◌+◌, ◌^◌, ◌<◌, ◌≤◌, ◌⊎◌, ◌≡◌, ◌≢◌, refl, sym, ap, ◌∙◌, List, [], ◌∷◌, Option, some,
  none, length, get_elem?, set, get_elem?-set_self, get_elem?-set_ne, arith,
}
use rwasm.Types.BranchOffset.{
  BranchOffset, from_src_to_dst, apply_offset, apply_offset-from_src_to_dst,
}
use rwasm.Compiler.Error.{Result, ok, err, CompilationError, branch_offset_out_of_bounds}
use rwasm.Compiler.LabelRegistry.{
  Label, pinned, unpinned, LabelUser, LabelRegistry, checked_offset, resolve_user, cons_pair,
  get_label, resolve_users, try_pin_label,
}

-- An offset, which leads from `src` to `dst` and is given if their distance is a signed 32-bit number,
-- or the error for a distance that is none.
pub Leads : ℕ → ℕ → Result CompilationError BranchOffset → Type 0
Leads src dst (ok b) = (apply_offset src b ≡ some dst) × (dst < src + 2 ^ 31) × (src ≤ dst + 2 ^ 31)
Leads src dst (err e) =
    (e ≡ branch_offset_out_of_bounds) × ((src + 2 ^ 31 ≤ dst) ⊎ (dst + 2 ^ 31 < src))

in_range :
    (src dst : ℕ) {b : BranchOffset}
    → from_src_to_dst src dst ≡ some b
    → (dst < src + 2 ^ 31) × (src ≤ dst + 2 ^ 31)
unfolding from_src_to_dst
in_range src dst e = ground arith

out_of_range :
    (src dst : ℕ) → from_src_to_dst src dst ≡ none → (src + 2 ^ 31 ≤ dst) ⊎ (dst + 2 ^ 31 < src)
unfolding from_src_to_dst
out_of_range src dst e = ground arith

checked_offset-Leads : (src dst : ℕ) → Leads src dst (checked_offset (from_src_to_dst src dst))
unfolding Leads
checked_offset-Leads src dst = go (from_src_to_dst src dst) refl
  where
    go : (o : Option BranchOffset) → from_src_to_dst src dst ≡ o → Leads src dst (checked_offset o)
    go none e = (refl, out_of_range src dst e)
    go (some b) e =
        let (above, below) = in_range src dst e in
        (apply_offset-from_src_to_dst src dst e, above, below)

-- What the iterator yields for one waiting branch.
Resolved : LabelRegistry → LabelUser → Option (ℕ × Result CompilationError BranchOffset) → Type 0
Resolved r u p =
    (dst : ℕ) × (result : Result CompilationError BranchOffset) × (get_label r u.label
      ≡ some (pinned dst))
    × (p ≡ some (u.user, result))
    × Leads u.user dst result

cons_pair-some :
    (p : Option (ℕ × Result CompilationError BranchOffset))
    (q : Option (List (ℕ × Result CompilationError BranchOffset)))
    {rs : List (ℕ × Result CompilationError BranchOffset)}
    → cons_pair p q ≡ some rs
    → (x : ℕ × Result CompilationError BranchOffset) × (xs : List
        (ℕ × Result CompilationError BranchOffset))
      × (p ≡ some x)
      × (q ≡ some xs)
      × (rs ≡ x ∷ xs)
cons_pair-some none q h = absurd cc
cons_pair-some (some p) none h = absurd cc
cons_pair-some (some p) (some xs) h = (p, xs, refl, refl, cc)

resolve_user-Resolved :
    (r : LabelRegistry) (u : LabelUser) (l : Option Label)
    {x : ℕ × Result CompilationError BranchOffset}
    → get_label r u.label ≡ l
    → resolve_user u.user l ≡ some x
    → Resolved r u (some x)
unfolding Resolved
resolve_user-Resolved r u none e h = absurd cc
resolve_user-Resolved r u (some unpinned) e h = absurd cc
resolve_user-Resolved r u (some (pinned dst)) e h =
    (dst, checked_offset (from_src_to_dst u.user dst), e, sym h, checked_offset-Leads u.user dst)

some-injective : (u v : LabelUser) → ◌≡◌ {A = Option LabelUser} (some u) (some v) → u ≡ v
some-injective u v h = ap value h
  where
    value : Option LabelUser → LabelUser
    value none = u
    value (some w) = w

-- If the iterator comes to its end, it has yielded for every waiting branch, in their order, the
-- instruction of the branch with an offset that leads from there to where its label is pinned, if the
-- distance is a signed 32-bit number, and with `BranchOffsetOutOfBounds` if it is none.
pub resolve_users-Resolved :
    (r : LabelRegistry) (users : List LabelUser)
    {results : List (ℕ × Result CompilationError BranchOffset)}
    → resolve_users r users ≡ some results
    → (i : ℕ) (u : LabelUser) → get_elem? users i ≡ some u
    → (dst : ℕ) × (result : Result CompilationError BranchOffset) × (get_label r u.label
        ≡ some (pinned dst))
      × (get_elem? results i ≡ some (u.user, result))
      × Leads u.user dst result
unfolding resolve_users Resolved
resolve_users-Resolved r [] h i u e = absurd cc
resolve_users-Resolved r (v ∷ users) h zero u e =
    let (x, xs, p, q, t) =
      cons_pair-some (resolve_user v.user (get_label r v.label)) (resolve_users r users) h in
    let same : v ≡ u = some-injective v u e in
    let (dst, result, a, b, c) =
      subst (λ w. Resolved r w (some x)) same
        (resolve_user-Resolved r v (get_label r v.label) refl p) in
    (dst, result, a, ap (λ ys. get_elem? ys 0) t ∙ b, c)
resolve_users-Resolved r (v ∷ users) h (suc i) u e =
    let (x, xs, p, q, t) =
      cons_pair-some (resolve_user v.user (get_label r v.label)) (resolve_users r users) h in
    let (dst, result, a, b, c) = resolve_users-Resolved r users q i u e in
    (dst, result, a, ap (λ ys. get_elem? ys (suc i)) t ∙ b, c)

bounded : {A : Type 0} (xs : List A) (i : ℕ) {a : A} → get_elem? xs i ≡ some a → i < length xs
bounded [] i h = absurd cc
bounded (x ∷ xs) zero h = omega arith
bounded (x ∷ xs) (suc i) h = omega (arith, bounded xs i h)

-- `try_pin_label` pins a label that has no place yet; a place once given is never changed. Every other
-- label, pinned or not, and the waiting branches are as they were.
pub try_pin_label-outcome :
    (label instr : ℕ) (r : LabelRegistry) {l : Label}
    → get_label r label ≡ some l
    → (r' : LabelRegistry) × (try_pin_label label instr r ≡ some r')
      × (r'.users ≡ r.users)
      × ((l ≡ unpinned) → get_label r' label ≡ some (pinned instr))
      × ((at : ℕ) → l ≡ pinned at → get_label r' label ≡ some (pinned at))
      × ((other : ℕ) → label ≢ other → get_label r' other ≡ get_label r other)
unfolding try_pin_label
try_pin_label-outcome label instr r {l = pinned at} h =
    (r, rw h refl, refl, λ e. absurd cc, λ old e. h ∙ ap some e, λ other apart. refl)
try_pin_label-outcome label instr r {l = unpinned} h = (
  record r { labels = set r.labels label (pinned instr) },
  rw h refl,
  refl,
  λ _. get_elem?-set_self r.labels label (pinned instr) (bounded r.labels label h),
  λ at e. absurd cc,
  λ other apart. get_elem?-set_ne r.labels label other (pinned instr) apart,
)
