-- ===== src/Vm/Memory/Growth.antt =====
-- Growth of the linear memory of src/vm/memory.rs.
use mathlib.Core.Path.{subst}
use rwasm.Base.{
  ℕ, ◌+◌, ◌-◌, ◌*◌, ◌≤◌, ◌≡◌, refl, sym, ap, ◌∙◌, ◌⊎◌, inl, inr, Option, some, none, ◌++◌, Bool,
  true, false, leb, ◌==◌, if◌then◌else◌, min, ◌&&◌, length, length-append, length-replicate,
  replicate, arith,
}
use rwasm.Types.Pages
use rwasm.Vm.Memory.{GlobalMemory, new, grow}

-- As many bytes as pages, and no more pages than allowed, which all have an address.
pub record WellFormed (m : GlobalMemory) : Type 0 where
  pub sized : length m.shared_memory ≡ m.current_pages * 65536
  pub allowed : m.current_pages ≤ m.max_allowed_memory_pages
  pub addressable : m.current_pages ≤ 65536

-- A new memory is well-formed.
pub new-WellFormed :
    (initial_pages max_pages : ℕ) {m : GlobalMemory}
    → new initial_pages max_pages ≡ some m
    → WellFormed m
unfolding new Pages.to_bytes
new-WellFormed initial_pages max_pages h =
    let e = length-replicate {A = ℕ} (initial_pages * 65536) 0 in ground arith

-- The memory with so many pages more, all zeros.
pub grown : ℕ → GlobalMemory → GlobalMemory
grown additional m = record m {
  shared_memory = m.shared_memory ++ replicate (additional * 65536) 0;
  current_pages = m.current_pages + additional;
}

-- Growing by no page always succeeds and changes nothing. Growing by more succeeds exactly if the
-- new number of pages is allowed and has addresses, and the allocator grants the bytes; the answer is
-- then the old number of pages, the bytes are kept and the new ones are zero.
pub grow_outcome :
    (can_reserve : ℕ → Bool) (additional : ℕ) (m : GlobalMemory)
    → WellFormed m
    → grow can_reserve additional m ≡ (
        if additional == 0
        then some (m.current_pages, m)
        else if leb (m.current_pages + additional) (min m.max_allowed_memory_pages 65536)
            && can_reserve (additional * 65536)
        then some (m.current_pages, grown additional m)
        else none)
unfolding grow grown Pages.checked_add Pages.to_bytes Pages.new
grow_outcome can_reserve additional m p =
    let e : (m.current_pages + additional) * 65536 - length m.shared_memory ≡ additional * 65536 =
      omega (arith, p.sized) in
    ground (arith, p.sized, p.allowed, p.addressable, ap (λ n. replicate {A = ℕ} n 0) e)

grown-WellFormed :
    (additional : ℕ) (m : GlobalMemory)
    → WellFormed m
    → m.current_pages + additional ≤ min m.max_allowed_memory_pages 65536
    → WellFormed (grown additional m)
unfolding grown
grown-WellFormed additional m p q = record {
  sized = omega (
    arith,
    p.sized,
    length-append m.shared_memory (replicate (additional * 65536) 0),
    length-replicate {A = ℕ} (additional * 65536) 0,
  );
  allowed = omega arith;
  addressable = omega arith;
}

-- A growth that is answered gave the memory itself or a grown one.
answered :
    (same allowed : Bool) (pages : ℕ) (m m₁ : GlobalMemory) {old : ℕ} {m' : GlobalMemory}
    → ◌≡◌ {A = Option (ℕ × GlobalMemory)}
        (if same then some (pages, m) else if allowed then some (pages, m₁) else none)
        (some (old, m'))
    → (m ≡ m') ⊎ ((allowed ≡ true) × (m₁ ≡ m'))
answered true allowed pages m m₁ h = inl (ap second h)
  where
    second : Option (ℕ × GlobalMemory) → GlobalMemory
    second none = m
    second (some (_, x)) = x
answered false true pages m m₁ h = inr (refl, ap second h)
  where
    second : Option (ℕ × GlobalMemory) → GlobalMemory
    second none = m
    second (some (_, x)) = x
answered false false pages m m₁ h = absurd cc

-- A well-formed memory stays so when it grows.
pub grow-WellFormed :
    (can_reserve : ℕ → Bool) (additional : ℕ) (m : GlobalMemory) {old : ℕ} {m' : GlobalMemory}
    → WellFormed m
    → grow can_reserve additional m ≡ some (old, m')
    → WellFormed m'
grow-WellFormed can_reserve additional m p h =
    elim (answered (additional == 0)
      (leb (m.current_pages + additional) (min m.max_allowed_memory_pages 65536)
        && can_reserve (additional * 65536))
      m.current_pages m (grown additional m) (sym (grow_outcome can_reserve additional m p) ∙ h)) [
        | inl e ↦ subst WellFormed e p
        | inr (q, e) ↦ subst WellFormed e (grown-WellFormed additional m p (within q))
      ]
  where
    within :
        (leb (m.current_pages + additional) (min m.max_allowed_memory_pages 65536)
            && can_reserve (additional * 65536))
          ≡ true
        → m.current_pages + additional ≤ min m.max_allowed_memory_pages 65536
    within q = ground arith
