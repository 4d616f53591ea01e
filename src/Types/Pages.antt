-- ===== src/Types/Pages.antt =====
-- src/types/units.rs: sizes of the linear memory in pages of 64 KiB and in bytes, on a target
-- with 64-bit pointers.
use rwasm.Base.{ℕ, ◌+◌, ◌*◌, ◌^◌, Option, none, some, ltb, leb, if◌then◌else◌}
use rwasm.Types.Limits.{n_bytes_per_memory_page}

abbrev pub max : ℕ
max = 65536

unfoldable pub new : ℕ → Option ℕ
new amount = if ltb max amount then none else some amount

unfoldable pub checked_add : ℕ → ℕ → Option ℕ
unfolding new
checked_add lhs rhs = if ltb (lhs + rhs) (2 ^ 32) then new (lhs + rhs) else none

-- `Bytes::new64`: at most 2 ^ 32 bytes.
unfoldable pub to_bytes : ℕ → Option ℕ
to_bytes pages =
    let bytes = pages * n_bytes_per_memory_page in if leb bytes (2 ^ 32) then some bytes else none
