-- ===== src/Compiler/LabelRegistry.antt =====
-- src/compiler/labels.rs: the labels of the translation and the branches that wait for them.
pub mod Resolution
use rwasm.Base.{
  ℕ, suc, List, [], ◌∷◌, ◌++◌, Option, some, none, length, get_elem?, set, ltb, if◌then◌else◌,
}
use rwasm.Compiler.Error.{Result, ok, err, CompilationError, branch_offset_out_of_bounds}
use rwasm.Types.BranchOffset.{BranchOffset, uninit, from_src_to_dst}

pub data Label : Type 0 where
  pinned : ℕ → Label
  unpinned : Label

-- A branch at the instruction `user` that goes to `label`.
pub record LabelUser : Type 0 where
  pub label : ℕ
  pub user : ℕ

pub record LabelRegistry : Type 0 where
  pub labels : List Label
  pub users : List LabelUser

pub data LabelError : Type 0 where
  already_pinned : (label pinned_to : ℕ) → LabelError

unfoldable pub reset : LabelRegistry → LabelRegistry
reset r = record { labels = []; users = [] }

-- The number of labels stays below 2 ^ 32, past which the source panics.
unfoldable pub new_label : LabelRegistry → ℕ × LabelRegistry
new_label r = (length r.labels, record r { labels = r.labels ++ (unpinned ∷ []) })

-- A label that was never made is out of bounds, a panic: `none`.
abbrev pub get_label : LabelRegistry → ℕ → Option Label
get_label r label = get_elem? r.labels label

abbrev put_label : LabelRegistry → ℕ → ℕ → LabelRegistry
put_label r label instr = record r { labels = set r.labels label (pinned instr) }

abbrev pin : LabelRegistry → ℕ → ℕ → Option Label → Option (Result LabelError LabelRegistry)
pin r label instr none = none
pin r label instr (some (pinned pinned_to)) = some (err (already_pinned label pinned_to))
pin r label instr (some unpinned) = some (ok (put_label r label instr))

unfoldable pub pin_label : ℕ → ℕ → LabelRegistry → Option (Result LabelError LabelRegistry)
pin_label label instr r = pin r label instr (get_label r label)

abbrev try_pin : LabelRegistry → ℕ → ℕ → Option Label → Option LabelRegistry
try_pin r label instr none = none
try_pin r label instr (some (pinned _)) = some r
try_pin r label instr (some unpinned) = some (put_label r label instr)

unfoldable pub try_pin_label : ℕ → ℕ → LabelRegistry → Option LabelRegistry
try_pin_label label instr r = try_pin r label instr (get_label r label)

abbrev checked_offset : Option BranchOffset → Result CompilationError BranchOffset
checked_offset none = err branch_offset_out_of_bounds
checked_offset (some b) = ok b

abbrev resolve_or_wait :
    LabelRegistry
    → ℕ
    → ℕ
    → Option Label
    → Option (Result CompilationError BranchOffset × LabelRegistry)
resolve_or_wait r label user none = none
resolve_or_wait r label user (some (pinned target)) =
    some (checked_offset (from_src_to_dst user target), r)
resolve_or_wait r label user (some unpinned) =
    some (ok uninit, record r { users = r.users ++ (record { label = label; user = user } ∷ []) })

-- An unpinned label makes the branch wait, with an offset of 0 for now.
unfoldable pub try_resolve_label :
    ℕ → ℕ → LabelRegistry → Option (Result CompilationError BranchOffset × LabelRegistry)
unfolding from_src_to_dst uninit
try_resolve_label label user r = resolve_or_wait r label user (get_label r label)

-- A user whose label is still unpinned makes the iterator panic: `none`.
abbrev resolve_user : ℕ → Option Label → Option (ℕ × Result CompilationError BranchOffset)
resolve_user user none = none
resolve_user user (some unpinned) = none
resolve_user user (some (pinned dst)) = some (user, checked_offset (from_src_to_dst user dst))

abbrev cons_pair :
    Option (ℕ × Result CompilationError BranchOffset)
    → Option (List (ℕ × Result CompilationError BranchOffset))
    → Option (List (ℕ × Result CompilationError BranchOffset))
cons_pair none rest = none
cons_pair (some p) none = none
cons_pair (some p) (some rest) = some (p ∷ rest)

unfoldable pub resolve_users :
    LabelRegistry → List LabelUser → Option (List (ℕ × Result CompilationError BranchOffset))
unfolding from_src_to_dst
resolve_users r [] = some []
resolve_users r (u ∷ us) =
    cons_pair (resolve_user u.user (get_label r u.label)) (resolve_users r us)

-- All that the iterator of `resolved_users` yields.
unfoldable pub resolved_users :
    LabelRegistry → Option (List (ℕ × Result CompilationError BranchOffset))
unfolding resolve_users
resolved_users r = resolve_users r r.users
