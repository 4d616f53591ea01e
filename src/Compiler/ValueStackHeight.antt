-- ===== src/Compiler/ValueStackHeight.antt =====
-- src/compiler/value_stack.rs: the height of the value stack that the translation follows. It is an `u32`
-- there, and a push past 2 ^ 32, where debug builds panic and others wrap, is not modelled.
pub mod Maximum
use rwasm.Base.{ℕ, ◌+◌, ◌-◌, max, Option, some, none, leb, if◌then◌else◌}
use rwasm.Types.Value.{ValType}

pub record ValueStackHeight : Type 0 where
  pub height : ℕ
  pub max_height : ℕ

unfoldable pub empty : ValueStackHeight
empty = record { height = 0; max_height = 0 }

unfoldable pub update_max_height : ValueStackHeight → ValueStackHeight
update_max_height h = record h { max_height = max h.height h.max_height }

unfoldable pub push_n : ℕ → ValueStackHeight → ValueStackHeight
unfolding update_max_height
push_n amount h = update_max_height (record h { height = h.height + amount })

-- More than there is: the debug build panics at the assertion, `none`.
unfoldable pub pop_n : ℕ → ValueStackHeight → Option ValueStackHeight
pop_n amount h =
    if leb amount h.height then some (record h { height = h.height - amount }) else none

-- The cells that a type takes.
abbrev pub cells_of : ValType → ℕ
cells_of ValType.i32 = 1
cells_of ValType.f32 = 1
cells_of ValType.i64 = 2
cells_of ValType.f64 = 2
cells_of ValType.v128 = 4
cells_of ValType.func_ref = 1
cells_of ValType.extern_ref = 1

unfoldable pub push_type : ValType → ValueStackHeight → ValueStackHeight
unfolding push_n
push_type t = push_n (cells_of t)

unfoldable pub pop_type : ValType → ValueStackHeight → Option ValueStackHeight
unfolding pop_n
pop_type t = pop_n (cells_of t)

-- The source panics if the stack is lower already.
unfoldable pub shrink_to : ℕ → ValueStackHeight → Option ValueStackHeight
shrink_to new_height h =
    if leb new_height h.height then some (record h { height = new_height }) else none
