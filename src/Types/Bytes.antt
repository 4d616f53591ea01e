-- ===== src/Types/Bytes.antt =====
-- Slices of memory and little-endian words: the access part of src/types/untyped_value.rs and the
-- traits `LoadInto`, `StoreFrom` and `LittleEndianConvert` of src/types/value.rs.
pub mod Access
pub mod RoundTrip
use rwasm.Base.{
  ℕ, zero, suc, ◌+◌, ◌-◌, ◌*◌, ◌/◌, ◌%◌, ◌^◌, ◌&&◌, Option, none, some, List, [], ◌∷◌, ◌++◌, ltb,
  leb, if◌then◌else◌, length, take, drop,
}
use rwasm.Types.Trap.{Checked, ok, err, memory_out_of_bounds}
use rwasm.Types.UntypedValue.{i32_extend8_s, i32_extend16_s}

-- `items.get(start..).and_then(|s| s.get(..len))`
unfoldable pub slice {ℓ} : {A : Type ℓ} → List A → ℕ → ℕ → Option (List A)
slice xs start len =
    if leb start (length xs) && leb len (length xs - start)
    then some (take len (drop start xs))
    else none

-- `items[start..start + len].copy_from_slice(new)`, in range.
unfoldable pub overwrite {ℓ} : {A : Type ℓ} → List A → ℕ → List A → List A
overwrite xs start new = take start xs ++ (new ++ drop (start + length new) xs)

unfoldable pub from_le_bytes : List ℕ → ℕ
from_le_bytes [] = 0
from_le_bytes (b ∷ bs) = b + 256 * from_le_bytes bs

unfoldable pub to_le_bytes : ℕ → ℕ → List ℕ
to_le_bytes zero v = []
to_le_bytes (suc n) v = v % 256 ∷ to_le_bytes n (v / 256)

unfoldable pub effective_address : ℕ → ℕ → Checked ℕ
effective_address address offset =
    if ltb (offset + address) (2 ^ 32) then ok (offset + address) else err memory_out_of_bounds

abbrev pub load_slice : Option (List ℕ) → (ℕ → ℕ) → Checked ℕ
load_slice none extend = err memory_out_of_bounds
load_slice (some bytes) extend = ok (extend (from_le_bytes bytes))

abbrev pub load_at : List ℕ → ℕ → (ℕ → ℕ) → Checked ℕ → Checked ℕ
load_at memory n extend (err e) = err e
load_at memory n extend (ok address) = load_slice (slice memory address n) extend

-- `load_extend`, for a type of `n` bytes that `extend` carries into a cell.
unfoldable pub load_extend : ℕ → (ℕ → ℕ) → List ℕ → ℕ → ℕ → Checked ℕ
unfolding effective_address slice from_le_bytes
load_extend n extend memory address offset =
    load_at memory n extend (effective_address address offset)

abbrev pub store_slice : List ℕ → ℕ → List ℕ → Option (List ℕ) → Checked (List ℕ)
store_slice memory address new none = err memory_out_of_bounds
store_slice memory address new (some _) = ok (overwrite memory address new)

abbrev pub store_at : List ℕ → List ℕ → Checked ℕ → Checked (List ℕ)
store_at memory new (err e) = err e
store_at memory new (ok address) =
    store_slice memory address new (slice memory address (length new))

-- `store_wrap`, which wraps the cell into `n` bytes.
unfoldable pub store_wrap : ℕ → List ℕ → ℕ → ℕ → ℕ → Checked (List ℕ)
unfolding effective_address slice overwrite to_le_bytes
store_wrap n memory address offset value =
    store_at memory (to_le_bytes n (value % 2 ^ (8 * n))) (effective_address address offset)

unfoldable pub i32_load : List ℕ → ℕ → ℕ → Checked ℕ
unfolding load_extend
i32_load = load_extend 4 (λ v. v)

unfoldable pub i32_load8_s : List ℕ → ℕ → ℕ → Checked ℕ
unfolding load_extend
i32_load8_s = load_extend 1 i32_extend8_s

unfoldable pub i32_load8_u : List ℕ → ℕ → ℕ → Checked ℕ
unfolding load_extend
i32_load8_u = load_extend 1 (λ v. v)

unfoldable pub i32_load16_s : List ℕ → ℕ → ℕ → Checked ℕ
unfolding load_extend
i32_load16_s = load_extend 2 i32_extend16_s

unfoldable pub i32_load16_u : List ℕ → ℕ → ℕ → Checked ℕ
unfolding load_extend
i32_load16_u = load_extend 2 (λ v. v)

unfoldable pub i32_store : List ℕ → ℕ → ℕ → ℕ → Checked (List ℕ)
unfolding store_wrap
i32_store = store_wrap 4

unfoldable pub i32_store8 : List ℕ → ℕ → ℕ → ℕ → Checked (List ℕ)
unfolding store_wrap
i32_store8 = store_wrap 1

unfoldable pub i32_store16 : List ℕ → ℕ → ℕ → ℕ → Checked (List ℕ)
unfolding store_wrap
i32_store16 = store_wrap 2
