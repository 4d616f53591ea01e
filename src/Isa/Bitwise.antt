-- ===== src/Isa/Bitwise.antt =====
-- src/isa/bitwise.rs: counts of bits and the bitwise operations, on pairs of 32-bit cells.
pub mod Shl
pub mod ShrS
pub mod ShrU
pub mod RotL
pub mod RotR
use rwasm.Base.{ℕ, List, [], ◌∷◌}
use rwasm.Base.Ints.{pos}
use rwasm.Types.Opcode.{Opcode}

abbrev pub msh_i64_clz : ℕ
msh_i64_clz = 3

abbrev pub msh_i64_ctz : ℕ
msh_i64_ctz = 3

abbrev pub msh_i64_popcnt : ℕ
msh_i64_popcnt = 1

abbrev pub msh_i64_and : ℕ
msh_i64_and = 1

abbrev pub msh_i64_or : ℕ
msh_i64_or = 1

abbrev pub msh_i64_xor : ℕ
msh_i64_xor = 1

unfoldable pub op_i64_clz : List Opcode
op_i64_clz =
    Opcode.i32_clz
    ∷ Opcode.local_get 1
    ∷ Opcode.i32_const 32
    ∷ Opcode.i32_eq
    ∷ Opcode.br_if_eqz (pos 4)
    ∷ Opcode.local_get 2
    ∷ Opcode.i32_clz
    ∷ Opcode.i32_add
    ∷ Opcode.local_set 1
    ∷ Opcode.i32_const 0
    ∷ []

unfoldable pub op_i64_ctz : List Opcode
op_i64_ctz =
    Opcode.local_get 2
    ∷ Opcode.i32_ctz
    ∷ Opcode.local_get 1
    ∷ Opcode.i32_const 32
    ∷ Opcode.i32_eq
    ∷ Opcode.br_if_eqz (pos 5)
    ∷ Opcode.local_set 2
    ∷ Opcode.i32_ctz
    ∷ Opcode.i32_add
    ∷ Opcode.br (pos 3)
    ∷ Opcode.local_set 2
    ∷ Opcode.drop
    ∷ Opcode.i32_const 0
    ∷ []

unfoldable pub op_i64_popcnt : List Opcode
op_i64_popcnt =
    Opcode.i32_popcnt
    ∷ Opcode.local_get 2
    ∷ Opcode.i32_popcnt
    ∷ Opcode.local_set 2
    ∷ Opcode.i32_add
    ∷ Opcode.i32_const 0
    ∷ []

unfoldable pub op_i64_and : List Opcode
op_i64_and =
    Opcode.local_get 3
    ∷ Opcode.i32_and
    ∷ Opcode.local_set 2
    ∷ Opcode.local_get 3
    ∷ Opcode.i32_and
    ∷ Opcode.local_set 2
    ∷ []

unfoldable pub op_i64_or : List Opcode
op_i64_or =
    Opcode.local_get 3
    ∷ Opcode.i32_or
    ∷ Opcode.local_set 2
    ∷ Opcode.local_get 3
    ∷ Opcode.i32_or
    ∷ Opcode.local_set 2
    ∷ []

unfoldable pub op_i64_xor : List Opcode
op_i64_xor =
    Opcode.local_get 3
    ∷ Opcode.i32_xor
    ∷ Opcode.local_set 2
    ∷ Opcode.local_get 3
    ∷ Opcode.i32_xor
    ∷ Opcode.local_set 2
    ∷ []
