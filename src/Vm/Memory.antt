-- ===== src/Vm/Memory.antt =====
-- src/vm/memory.rs: the linear memory.
pub mod Growth
use rwasm.Base.{
  ℕ, zero, suc, ◌+◌, ◌-◌, ◌*◌, Bool, true, false, ◌||◌, Option, none, some, List, [], ◌∷◌, ◌++◌,
  ltb, leb, ◌==◌, if◌then◌else◌, length, replicate,
}
use rwasm.Types.Trap.{Checked, ok, err, memory_out_of_bounds}
use rwasm.Types.Pages
use rwasm.Types.Bytes.{slice, overwrite}

pub record GlobalMemory : Type 0 where
  pub shared_memory : List ℕ
  pub current_pages : ℕ
  pub max_allowed_memory_pages : ℕ

-- `GlobalMemory::new`; the source panics at sizes that it does not support.
abbrev new_sized : ℕ → ℕ → Option ℕ → Option ℕ → Option GlobalMemory
new_sized initial_pages max_pages (some initial_len) (some max_len) =
    if ltb max_len initial_len
    then none
    else some (record {
      shared_memory = replicate initial_len 0;
      current_pages = initial_pages;
      max_allowed_memory_pages = max_pages;
    })
new_sized initial_pages max_pages none _ = none
new_sized initial_pages max_pages (some _) none = none

unfoldable pub new : ℕ → ℕ → Option GlobalMemory
new initial_pages max_pages =
    new_sized initial_pages max_pages (Pages.to_bytes initial_pages) (Pages.to_bytes max_pages)

-- The growth itself, once the new number of pages is known and allowed. `can_reserve` says whether
-- the allocator grants that many bytes more.
abbrev grow_to : (ℕ → Bool) → GlobalMemory → ℕ → Option ℕ → Option (ℕ × GlobalMemory)
grow_to can_reserve m desired none = none
grow_to can_reserve m desired (some new_size) =
    let additional = new_size - length m.shared_memory in
    if ltb new_size (length m.shared_memory)
    then none
    else if can_reserve additional
    then some (
      m.current_pages,
      record m {
        shared_memory = m.shared_memory ++ replicate additional 0;
        current_pages = desired;
      },
    )
    else none

abbrev grow_checked : (ℕ → Bool) → GlobalMemory → Option ℕ → Option (ℕ × GlobalMemory)
grow_checked can_reserve m none = none
grow_checked can_reserve m (some desired) =
    if ltb m.max_allowed_memory_pages desired
    then none
    else grow_to can_reserve m desired (Pages.to_bytes desired)

-- `grow` returns the old number of pages. A size that has no bytes makes the source panic; it
-- cannot occur, since `checked_add` admits no more than `Pages.max` pages.
unfoldable pub grow : (ℕ → Bool) → ℕ → GlobalMemory → Option (ℕ × GlobalMemory)
unfolding Pages.checked_add Pages.to_bytes
grow can_reserve additional m =
    if additional == 0
    then some (m.current_pages, m)
    else grow_checked can_reserve m (Pages.checked_add m.current_pages additional)

-- `read_into_vec`, and `read` into a buffer of that length. A sum of two offsets cannot leave a
-- 64-bit number where the memory is that short.
unfoldable pub read_into_vec : ℕ → ℕ → GlobalMemory → Checked (List ℕ)
unfolding slice
read_into_vec offset n m = elim (slice m.shared_memory offset n) [
  | none ↦ err memory_out_of_bounds
  | some bytes ↦ ok bytes
]

unfoldable pub write : ℕ → List ℕ → GlobalMemory → Checked GlobalMemory
unfolding slice overwrite
write offset buffer m = elim (slice m.shared_memory offset (length buffer)) [
  | none ↦ err memory_out_of_bounds
  | some _ ↦ ok (record m { shared_memory = overwrite m.shared_memory offset buffer })
]
