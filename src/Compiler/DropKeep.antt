-- ===== src/Compiler/DropKeep.antt =====
-- src/compiler/drop_keep.rs: what a branch drops from the value stack and what it keeps on top.
pub mod Correct
use rwasm.Base.{
  ℕ, zero, suc, ◌+◌, ◌-◌, ◌^◌, ◌&&◌, Bool, List, [], ◌∷◌, ◌++◌, Option, some, none, ltb, leb, ◌==◌,
  if◌then◌else◌,
}
use rwasm.Types.Opcode.{Opcode}
use rwasm.Compiler.ValueStackHeight.{ValueStackHeight, push_n, pop_n}

pub record DropKeep : Type 0 where
  pub drop : ℕ
  pub keep : ℕ

-- `DropKeep::new`: both amounts fit an `u16`, or `DropKeepOutOfBounds`.
unfoldable pub new : ℕ → ℕ → Option DropKeep
new drop keep =
    if ltb keep (2 ^ 16) && ltb drop (2 ^ 16)
    then some (record { drop = drop; keep = keep })
    else none

unfoldable pub is_noop : DropKeep → Bool
is_noop d = d.drop == 0

-- Every kept value moves down over the dropped ones.
unfoldable pub set_below : ℕ → ℕ → List Opcode
set_below drop zero = []
set_below drop (suc n) = Opcode.local_set drop ∷ set_below drop n

-- The kept values are more than the dropped ones: each is copied, the lowest first. `n` is the
-- number that is left, `keep - i` of the source.
unfoldable pub copy_below : ℕ → ℕ → List Opcode
copy_below drop zero = []
copy_below drop (suc n) =
    Opcode.local_get (suc n) ∷ Opcode.local_set (suc n + drop) ∷ copy_below drop n

-- The instructions that `translate_drop_keep` appends.
unfoldable pub translate_drop_keep : DropKeep → List Opcode
unfolding set_below copy_below
translate_drop_keep d =
    if d.drop == 0
    then []
    else if leb d.keep d.drop
    then set_below d.drop d.keep ++ (Opcode.bulk_drop (d.drop - d.keep) ∷ [])
    else copy_below d.drop d.keep ++ (Opcode.bulk_drop d.drop ∷ [])

abbrev touch : Option ValueStackHeight → ValueStackHeight → ValueStackHeight
touch none h = h
touch (some h') h = h'

-- What it does to the height: the copies need one cell.
unfoldable pub translate_height : DropKeep → ValueStackHeight → ValueStackHeight
unfolding push_n pop_n
translate_height d h =
    if d.drop == 0 then h else if leb d.keep d.drop then h else touch (pop_n 1 (push_n 1 h)) h
