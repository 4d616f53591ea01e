-- ===== src/Types/BranchOffset.antt =====
-- src/types/branch_offset.rs: the signed distance of a branch, an `i32`.
use rwasm.Base.{ℕ, ◌+◌, ◌-◌, ◌^◌, ◌≡◌, Option, some, none, ltb, leb, if◌then◌else◌, arith}
use rwasm.Base.Ints.{ℤ, pos, negsuc, sub_ℕ}

abbrev pub BranchOffset : Type 0
BranchOffset = ℤ

unfoldable pub uninit : BranchOffset
uninit = pos 0

-- `i32::try_from`.
unfoldable pub try_from_i64 : ℤ → Option ℤ
try_from_i64 (pos n) = if ltb n (2 ^ 31) then some (pos n) else none
try_from_i64 (negsuc n) = if ltb n (2 ^ 31) then some (negsuc n) else none

-- The difference of two `u32` fits an `i64`, so that `checked_sub` cannot fail.
unfoldable pub from_src_to_dst : ℕ → ℕ → Option BranchOffset
unfolding try_from_i64
from_src_to_dst src dst = try_from_i64 (sub_ℕ dst src)

-- `ip.offset(by)`; a step below the start of the code is undefined.
unfoldable pub apply_offset : ℕ → BranchOffset → Option ℕ
apply_offset ip (pos n) = some (ip + n)
apply_offset ip (negsuc n) = if leb (n + 1) ip then some (ip - (n + 1)) else none

-- A branch from `src` by the offset that is computed for `dst` arrives at `dst`.
pub apply_offset-from_src_to_dst :
    (src dst : ℕ) {offset : BranchOffset}
    → from_src_to_dst src dst ≡ some offset
    → apply_offset src offset ≡ some dst
unfolding apply_offset from_src_to_dst
apply_offset-from_src_to_dst src dst h = ground arith
