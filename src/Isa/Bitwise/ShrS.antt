-- ===== src/Isa/Bitwise/ShrS.antt =====
-- src/isa/bitwise.rs: the 64-bit signed right shift, as one sequence.
use rwasm.Base.{ℕ, List, [], ◌∷◌}
use rwasm.Base.Ints.{pos}
use rwasm.Types.Opcode.{Opcode}

abbrev pub msh_i64_shr_s : ℕ
msh_i64_shr_s = 21

unfoldable pub op_i64_shr_s : List Opcode
op_i64_shr_s =
    Opcode.i32_const 0
    ∷ Opcode.i32_const 0
    ∷ Opcode.local_get 4
    ∷ Opcode.i32_const 63
    ∷ Opcode.i32_and
    ∷ Opcode.local_tee 3
    ∷ Opcode.br_if_nez (pos 4)
    ∷ Opcode.local_get 5
    ∷ Opcode.local_set 1
    ∷ Opcode.br (pos 49)
    ∷ Opcode.local_get 2
    ∷ Opcode.i32_const 32
    ∷ Opcode.i32_eq
    ∷ Opcode.br_if_nez (pos 24)
    ∷ Opcode.local_get 2
    ∷ Opcode.i32_const 4294967295
    ∷ Opcode.i32_add
    ∷ Opcode.i32_const 31
    ∷ Opcode.i32_lt_u
    ∷ Opcode.br_if_nez (pos 25)
    ∷ Opcode.i32_const 0
    ∷ Opcode.local_set 1
    ∷ Opcode.i32_const 0
    ∷ Opcode.local_set 6
    ∷ Opcode.local_get 2
    ∷ Opcode.i32_const 32
    ∷ Opcode.i32_le_u
    ∷ Opcode.br_if_nez (pos 31)
    ∷ Opcode.local_get 5
    ∷ Opcode.local_get 5
    ∷ Opcode.i32_shr_s
    ∷ Opcode.local_set 6
    ∷ Opcode.local_get 5
    ∷ Opcode.i32_const 31
    ∷ Opcode.i32_shr_s
    ∷ Opcode.local_set 1
    ∷ Opcode.br (pos 22)
    ∷ Opcode.local_get 5
    ∷ Opcode.i32_const 31
    ∷ Opcode.i32_shr_s
    ∷ Opcode.local_set 1
    ∷ Opcode.local_get 5
    ∷ Opcode.local_set 6
    ∷ Opcode.br (pos 15)
    ∷ Opcode.local_get 6
    ∷ Opcode.local_get 5
    ∷ Opcode.i32_shr_u
    ∷ Opcode.local_get 6
    ∷ Opcode.i32_const 0
    ∷ Opcode.local_get 7
    ∷ Opcode.i32_sub
    ∷ Opcode.i32_shl
    ∷ Opcode.i32_or
    ∷ Opcode.local_set 6
    ∷ Opcode.local_get 5
    ∷ Opcode.local_get 5
    ∷ Opcode.i32_shr_s
    ∷ Opcode.local_set 1
    ∷ Opcode.local_get 1
    ∷ Opcode.i32_const 0
    ∷ Opcode.i32_const 32
    ∷ Opcode.i32_const 0
    ∷ Opcode.i32_const 0
    ∷ Opcode.i32_const 0
    ∷ Opcode.local_get 4
    ∷ Opcode.i32_const 63
    ∷ Opcode.i32_and
    ∷ Opcode.local_tee 3
    ∷ Opcode.br_if_nez (pos 4)
    ∷ Opcode.local_get 6
    ∷ Opcode.local_set 1
    ∷ Opcode.br (pos 44)
    ∷ Opcode.local_get 2
    ∷ Opcode.i32_const 32
    ∷ Opcode.i32_eq
    ∷ Opcode.br_if_nez (pos 36)
    ∷ Opcode.local_get 2
    ∷ Opcode.i32_const 4294967295
    ∷ Opcode.i32_add
    ∷ Opcode.i32_const 31
    ∷ Opcode.i32_lt_u
    ∷ Opcode.br_if_nez (pos 10)
    ∷ Opcode.i32_const 0
    ∷ Opcode.local_set 1
    ∷ Opcode.local_get 2
    ∷ Opcode.i32_const 32
    ∷ Opcode.i32_gt_u
    ∷ Opcode.br_if_nez (pos 19)
    ∷ Opcode.i32_const 0
    ∷ Opcode.local_set 5
    ∷ Opcode.br (pos 25)
    ∷ Opcode.local_get 5
    ∷ Opcode.local_get 5
    ∷ Opcode.i32_shl
    ∷ Opcode.local_get 7
    ∷ Opcode.i32_const 0
    ∷ Opcode.local_get 7
    ∷ Opcode.i32_sub
    ∷ Opcode.i32_shr_u
    ∷ Opcode.i32_or
    ∷ Opcode.local_set 5
    ∷ Opcode.local_get 6
    ∷ Opcode.local_get 5
    ∷ Opcode.i32_shl
    ∷ Opcode.local_set 1
    ∷ Opcode.br (pos 10)
    ∷ Opcode.local_get 6
    ∷ Opcode.local_get 5
    ∷ Opcode.i32_shl
    ∷ Opcode.local_set 5
    ∷ Opcode.br (pos 5)
    ∷ Opcode.i32_const 0
    ∷ Opcode.local_set 1
    ∷ Opcode.local_get 6
    ∷ Opcode.local_set 5
    ∷ Opcode.local_get 5
    ∷ Opcode.i32_const 0
    ∷ Opcode.i32_const 32
    ∷ Opcode.i32_const 0
    ∷ Opcode.local_get 2
    ∷ Opcode.i32_const 63
    ∷ Opcode.i32_and
    ∷ Opcode.local_set 2
    ∷ Opcode.local_get 2
    ∷ Opcode.br_if_eqz (pos 32)
    ∷ Opcode.local_get 2
    ∷ Opcode.i32_const 31
    ∷ Opcode.i32_gt_u
    ∷ Opcode.br_if_eqz (pos 10)
    ∷ Opcode.local_get 4
    ∷ Opcode.local_get 3
    ∷ Opcode.i32_const 32
    ∷ Opcode.i32_sub
    ∷ Opcode.i32_shl
    ∷ Opcode.local_set 3
    ∷ Opcode.i32_const 0
    ∷ Opcode.local_set 4
    ∷ Opcode.br (pos 19)
    ∷ Opcode.local_get 4
    ∷ Opcode.local_get 3
    ∷ Opcode.i32_shl
    ∷ Opcode.local_set 4
    ∷ Opcode.local_get 3
    ∷ Opcode.local_get 3
    ∷ Opcode.i32_shl
    ∷ Opcode.local_set 3
    ∷ Opcode.local_get 4
    ∷ Opcode.i32_const 32
    ∷ Opcode.local_get 4
    ∷ Opcode.i32_const 31
    ∷ Opcode.i32_and
    ∷ Opcode.i32_sub
    ∷ Opcode.i32_shr_u
    ∷ Opcode.local_get 4
    ∷ Opcode.i32_or
    ∷ Opcode.local_set 3
    ∷ Opcode.drop
    ∷ Opcode.drop
    ∷ Opcode.local_get 3
    ∷ Opcode.i32_const 0
    ∷ Opcode.local_get 3
    ∷ Opcode.i32_or
    ∷ Opcode.local_set 2
    ∷ Opcode.local_get 3
    ∷ Opcode.i32_or
    ∷ Opcode.local_set 2
    ∷ Opcode.local_set 6
    ∷ Opcode.local_set 6
    ∷ Opcode.drop
    ∷ Opcode.drop
    ∷ Opcode.drop
    ∷ Opcode.drop
    ∷ Opcode.local_get 8
    ∷ Opcode.i32_const 0
    ∷ Opcode.local_get 3
    ∷ Opcode.i32_or
    ∷ Opcode.local_set 2
    ∷ Opcode.local_get 3
    ∷ Opcode.i32_or
    ∷ Opcode.local_set 2
    ∷ Opcode.local_set 6
    ∷ Opcode.local_set 6
    ∷ Opcode.drop
    ∷ Opcode.drop
    ∷ Opcode.drop
    ∷ Opcode.drop
    ∷ []
