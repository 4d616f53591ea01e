-- ===== src/Vm/TableEntity.antt =====
-- src/vm/table_entity.rs: a table of function references, a list of numbers.
use rwasm.Base.{
  ℕ, ◌+◌, ◌^◌, Bool, Option, none, some, List, ◌++◌, ltb, leb, if◌then◌else◌, length, get_elem?,
  set, replicate, max,
}
use rwasm.Types.Trap.{Checked, ok, err, table_out_of_bounds}
use rwasm.Types.Limits.{n_max_table_size}
use rwasm.Types.UntypedValue.{u32_max}
use rwasm.Types.Bytes.{slice, overwrite}

abbrev pub TableEntity : Type 0
TableEntity = List ℕ

-- `size`; a table has at most `n_max_table_size` elements, which fits an `u32`.
abbrev pub size : TableEntity → ℕ
size t = length t

-- The result is the old size, or `u32_max` and the table as it was.
unfoldable pub grow_untyped : (ℕ → Bool) → ℕ → ℕ → TableEntity → ℕ × TableEntity
grow_untyped can_reserve delta init t =
    let desired = size t + delta in
    if leb (2 ^ 32) desired
    then (u32_max, t)
    else if ltb n_max_table_size desired
    then (u32_max, t)
    else if can_reserve delta
    then (size t, t ++ replicate delta init)
    else (u32_max, t)

abbrev pub get_untyped : TableEntity → ℕ → Option ℕ
get_untyped t index = get_elem? t index

unfoldable pub set_untyped : ℕ → ℕ → TableEntity → Checked TableEntity
set_untyped index value t =
    if ltb index (length t) then ok (set t index value) else err table_out_of_bounds

abbrev copied : TableEntity → ℕ → Option (List ℕ) → Option (List ℕ) → Checked TableEntity
copied t dst_index none _ = err table_out_of_bounds
copied t dst_index (some _) none = err table_out_of_bounds
copied t dst_index (some _) (some src_items) = ok (overwrite t dst_index src_items)

-- The early return at length 0 leaves the table as the empty copy does.
unfoldable pub init_untyped : ℕ → List ℕ → ℕ → ℕ → TableEntity → Checked TableEntity
unfolding slice overwrite
init_untyped dst_index element src_index n t =
    copied t dst_index (slice t dst_index n) (slice element src_index n)

unfoldable pub copy : ℕ → TableEntity → ℕ → ℕ → TableEntity → Checked TableEntity
unfolding slice overwrite
copy dst_index src_table src_index n dst_table =
    copied dst_table dst_index (slice dst_table dst_index n) (slice src_table src_index n)

-- `copy_within` of a slice reads all of the source range before it writes. Its range is checked by
-- the sum of the larger index and the length alone.
unfoldable pub copy_within : ℕ → ℕ → ℕ → TableEntity → Checked TableEntity
unfolding slice overwrite
copy_within dst_index src_index n t =
    let end = max dst_index src_index + n in
    if leb (2 ^ 32) end
    then err table_out_of_bounds
    else if leb end (size t)
    then copied t dst_index (slice t dst_index n) (slice t src_index n)
    else err table_out_of_bounds

unfoldable pub fill_untyped : ℕ → ℕ → ℕ → TableEntity → Checked TableEntity
unfolding slice overwrite
fill_untyped dst_index val n t = elim (slice t dst_index n) [
  | none ↦ err table_out_of_bounds
  | some _ ↦ ok (overwrite t dst_index (replicate n val))
]
