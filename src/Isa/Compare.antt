-- ===== src/Isa/Compare.antt =====
-- src/isa/compare.rs: 64-bit comparisons on pairs of 32-bit cells, the high one on top.
use rwasm.Base.{ℕ, List, [], ◌∷◌}
use rwasm.Base.Ints.{pos}
use rwasm.Types.Opcode.{Opcode}

abbrev pub msh_i64_eqz : ℕ
msh_i64_eqz = 1

abbrev pub msh_i64_eq : ℕ
msh_i64_eq = 1

abbrev pub msh_i64_ne : ℕ
msh_i64_ne = 1

abbrev pub msh_i64_lt_s : ℕ
msh_i64_lt_s = 2

abbrev pub msh_i64_lt_u : ℕ
msh_i64_lt_u = 2

abbrev pub msh_i64_gt_s : ℕ
msh_i64_gt_s = 2

abbrev pub msh_i64_gt_u : ℕ
msh_i64_gt_u = 2

abbrev pub msh_i64_le_s : ℕ
msh_i64_le_s = 2

abbrev pub msh_i64_le_u : ℕ
msh_i64_le_u = 2

abbrev pub msh_i64_ge_s : ℕ
msh_i64_ge_s = 2

abbrev pub msh_i64_ge_u : ℕ
msh_i64_ge_u = 2

unfoldable pub op_i64_eqz : List Opcode
op_i64_eqz =
    Opcode.i32_eqz ∷ Opcode.local_get 2 ∷ Opcode.i32_eqz ∷ Opcode.local_set 2 ∷ Opcode.i32_and ∷ []

unfoldable pub op_i64_eq : List Opcode
op_i64_eq =
    Opcode.local_get 3
    ∷ Opcode.i32_eq
    ∷ Opcode.local_set 2
    ∷ Opcode.local_get 3
    ∷ Opcode.i32_eq
    ∷ Opcode.local_set 2
    ∷ Opcode.i32_and
    ∷ []

unfoldable pub op_i64_ne : List Opcode
op_i64_ne =
    Opcode.local_get 3
    ∷ Opcode.i32_ne
    ∷ Opcode.local_set 2
    ∷ Opcode.local_get 3
    ∷ Opcode.i32_ne
    ∷ Opcode.local_set 2
    ∷ Opcode.i32_or
    ∷ []

unfoldable pub op_i64_lt_s : List Opcode
op_i64_lt_s =
    Opcode.local_get 3
    ∷ Opcode.local_get 2
    ∷ Opcode.i32_eq
    ∷ Opcode.br_if_nez (pos 5)
    ∷ Opcode.local_get 3
    ∷ Opcode.local_get 2
    ∷ Opcode.i32_lt_s
    ∷ Opcode.br (pos 4)
    ∷ Opcode.local_get 4
    ∷ Opcode.local_get 3
    ∷ Opcode.i32_lt_u
    ∷ Opcode.local_set 4
    ∷ Opcode.drop
    ∷ Opcode.drop
    ∷ Opcode.drop
    ∷ []

unfoldable pub op_i64_lt_u : List Opcode
op_i64_lt_u =
    Opcode.local_get 3
    ∷ Opcode.local_get 2
    ∷ Opcode.i32_eq
    ∷ Opcode.br_if_nez (pos 5)
    ∷ Opcode.local_get 3
    ∷ Opcode.local_get 2
    ∷ Opcode.i32_lt_u
    ∷ Opcode.br (pos 4)
    ∷ Opcode.local_get 4
    ∷ Opcode.local_get 3
    ∷ Opcode.i32_lt_u
    ∷ Opcode.local_set 4
    ∷ Opcode.drop
    ∷ Opcode.drop
    ∷ Opcode.drop
    ∷ []

unfoldable pub op_i64_gt_s : List Opcode
op_i64_gt_s =
    Opcode.local_get 3
    ∷ Opcode.local_get 2
    ∷ Opcode.i32_eq
    ∷ Opcode.br_if_nez (pos 5)
    ∷ Opcode.local_get 3
    ∷ Opcode.local_get 2
    ∷ Opcode.i32_gt_s
    ∷ Opcode.br (pos 4)
    ∷ Opcode.local_get 4
    ∷ Opcode.local_get 3
    ∷ Opcode.i32_gt_u
    ∷ Opcode.local_set 4
    ∷ Opcode.drop
    ∷ Opcode.drop
    ∷ Opcode.drop
    ∷ []

unfoldable pub op_i64_gt_u : List Opcode
op_i64_gt_u =
    Opcode.local_get 3
    ∷ Opcode.local_get 2
    ∷ Opcode.i32_eq
    ∷ Opcode.br_if_nez (pos 5)
    ∷ Opcode.local_get 3
    ∷ Opcode.local_get 2
    ∷ Opcode.i32_gt_u
    ∷ Opcode.br (pos 4)
    ∷ Opcode.local_get 4
    ∷ Opcode.local_get 3
    ∷ Opcode.i32_gt_u
    ∷ Opcode.local_set 4
    ∷ Opcode.drop
    ∷ Opcode.drop
    ∷ Opcode.drop
    ∷ []

unfoldable pub op_i64_le_s : List Opcode
op_i64_le_s =
    Opcode.local_get 3
    ∷ Opcode.local_get 2
    ∷ Opcode.i32_eq
    ∷ Opcode.br_if_nez (pos 5)
    ∷ Opcode.local_get 3
    ∷ Opcode.local_get 2
    ∷ Opcode.i32_le_s
    ∷ Opcode.br (pos 4)
    ∷ Opcode.local_get 4
    ∷ Opcode.local_get 3
    ∷ Opcode.i32_le_u
    ∷ Opcode.local_set 4
    ∷ Opcode.drop
    ∷ Opcode.drop
    ∷ Opcode.drop
    ∷ []

unfoldable pub op_i64_le_u : List Opcode
op_i64_le_u =
    Opcode.local_get 3
    ∷ Opcode.local_get 2
    ∷ Opcode.i32_eq
    ∷ Opcode.br_if_nez (pos 5)
    ∷ Opcode.local_get 3
    ∷ Opcode.local_get 2
    ∷ Opcode.i32_le_u
    ∷ Opcode.br (pos 4)
    ∷ Opcode.local_get 4
    ∷ Opcode.local_get 3
    ∷ Opcode.i32_le_u
    ∷ Opcode.local_set 4
    ∷ Opcode.drop
    ∷ Opcode.drop
    ∷ Opcode.drop
    ∷ []

unfoldable pub op_i64_ge_s : List Opcode
op_i64_ge_s =
    Opcode.local_get 3
    ∷ Opcode.local_get 2
    ∷ Opcode.i32_eq
    ∷ Opcode.br_if_nez (pos 5)
    ∷ Opcode.local_get 3
    ∷ Opcode.local_get 2
    ∷ Opcode.i32_ge_s
    ∷ Opcode.br (pos 4)
    ∷ Opcode.local_get 4
    ∷ Opcode.local_get 3
    ∷ Opcode.i32_ge_u
    ∷ Opcode.local_set 4
    ∷ Opcode.drop
    ∷ Opcode.drop
    ∷ Opcode.drop
    ∷ []

unfoldable pub op_i64_ge_u : List Opcode
op_i64_ge_u =
    Opcode.local_get 3
    ∷ Opcode.local_get 2
    ∷ Opcode.i32_eq
    ∷ Opcode.br_if_nez (pos 5)
    ∷ Opcode.local_get 3
    ∷ Opcode.local_get 2
    ∷ Opcode.i32_ge_u
    ∷ Opcode.br (pos 4)
    ∷ Opcode.local_get 4
    ∷ Opcode.local_get 3
    ∷ Opcode.i32_ge_u
    ∷ Opcode.local_set 4
    ∷ Opcode.drop
    ∷ Opcode.drop
    ∷ Opcode.drop
    ∷ []
