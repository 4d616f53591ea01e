-- ===== src/Isa/Division/DivU.antt =====
-- src/isa/div_u.rs: the 64-bit unsigned division, as one sequence.
use rwasm.Base.{ℕ, List, [], ◌∷◌}
use rwasm.Base.Ints.{pos, negsuc}
use rwasm.Types.Trap
use rwasm.Types.Opcode.{Opcode}

abbrev pub msh_i64_div_u : ℕ
msh_i64_div_u = 21

unfoldable pub op_i64_div_u : List Opcode
op_i64_div_u =
    Opcode.i32_const 0
    ∷ Opcode.i32_const 0
    ∷ Opcode.i32_const 0
    ∷ Opcode.i32_const 0
    ∷ Opcode.i32_const 0
    ∷ Opcode.i32_const 0
    ∷ Opcode.i32_const 0
    ∷ Opcode.local_get 8
    ∷ Opcode.br_if_nez (pos 19)
    ∷ Opcode.local_get 9
    ∷ Opcode.i32_eqz
    ∷ Opcode.br_if_nez (pos 25)
    ∷ Opcode.local_get 10
    ∷ Opcode.br_if_nez (pos 9)
    ∷ Opcode.i32_const 0
    ∷ Opcode.local_set 7
    ∷ Opcode.i32_const 0
    ∷ Opcode.local_set 6
    ∷ Opcode.local_get 11
    ∷ Opcode.local_get 10
    ∷ Opcode.i32_lt_u
    ∷ Opcode.br_if_nez (pos 251)
    ∷ Opcode.local_get 9
    ∷ Opcode.i32_const 4294967295
    ∷ Opcode.i32_gt_s
    ∷ Opcode.br_if_nez (pos 12)
    ∷ Opcode.br (pos 159)
    ∷ Opcode.i32_const 0
    ∷ Opcode.local_set 7
    ∷ Opcode.local_get 10
    ∷ Opcode.local_get 9
    ∷ Opcode.i32_ge_u
    ∷ Opcode.br_if_nez (pos 143)
    ∷ Opcode.i32_const 0
    ∷ Opcode.local_set 6
    ∷ Opcode.br (pos 237)
    ∷ Opcode.trap Trap.integer_division_by_zero
    ∷ Opcode.i32_const 0
    ∷ Opcode.local_set 7
    ∷ Opcode.i32_const 95
    ∷ Opcode.local_set 5
    ∷ Opcode.i32_const 0
    ∷ Opcode.local_set 4
    ∷ Opcode.local_get 4
    ∷ Opcode.i32_const 1
    ∷ Opcode.i32_shl
    ∷ Opcode.local_set 4
    ∷ Opcode.local_get 5
    ∷ Opcode.i32_const 4294967265
    ∷ Opcode.i32_add
    ∷ Opcode.local_tee 7
    ∷ Opcode.i32_const 32
    ∷ Opcode.i32_gt_u
    ∷ Opcode.br_if_nez (pos 26)
    ∷ Opcode.local_get 10
    ∷ Opcode.local_get 6
    ∷ Opcode.i32_const 4294967264
    ∷ Opcode.i32_add
    ∷ Opcode.local_tee 5
    ∷ Opcode.i32_shr_u
    ∷ Opcode.i32_const 1
    ∷ Opcode.i32_and
    ∷ Opcode.local_get 5
    ∷ Opcode.i32_or
    ∷ Opcode.local_tee 5
    ∷ Opcode.local_get 10
    ∷ Opcode.i32_lt_u
    ∷ Opcode.br_if_nez (pos 26)
    ∷ Opcode.local_get 4
    ∷ Opcode.local_get 10
    ∷ Opcode.i32_sub
    ∷ Opcode.local_set 4
    ∷ Opcode.local_get 7
    ∷ Opcode.i32_const 1
    ∷ Opcode.local_get 5
    ∷ Opcode.i32_shl
    ∷ Opcode.i32_or
    ∷ Opcode.local_set 7
    ∷ Opcode.br (pos 15)
    ∷ Opcode.local_get 4
    ∷ Opcode.local_get 10
    ∷ Opcode.i32_lt_u
    ∷ Opcode.br_if_nez (pos 11)
    ∷ Opcode.local_get 4
    ∷ Opcode.local_get 10
    ∷ Opcode.i32_sub
    ∷ Opcode.local_set 4
    ∷ Opcode.i32_const 1
    ∷ Opcode.local_get 6
    ∷ Opcode.i32_shl
    ∷ Opcode.local_get 8
    ∷ Opcode.i32_or
    ∷ Opcode.local_set 7
    ∷ Opcode.local_get 5
    ∷ Opcode.i32_const 4294967295
    ∷ Opcode.i32_add
    ∷ Opcode.local_set 5
    ∷ Opcode.local_get 6
    ∷ Opcode.i32_const 1
    ∷ Opcode.i32_gt_u
    ∷ Opcode.br_if_nez (negsuc 56)
    ∷ Opcode.i32_const 0
    ∷ Opcode.local_set 6
    ∷ Opcode.i32_const 95
    ∷ Opcode.local_set 5
    ∷ Opcode.i32_const 0
    ∷ Opcode.local_set 10
    ∷ Opcode.local_get 10
    ∷ Opcode.i32_const 1
    ∷ Opcode.i32_shl
    ∷ Opcode.local_set 10
    ∷ Opcode.local_get 5
    ∷ Opcode.i32_const 4294967265
    ∷ Opcode.i32_add
    ∷ Opcode.local_tee 4
    ∷ Opcode.i32_const 32
    ∷ Opcode.i32_gt_u
    ∷ Opcode.br_if_nez (pos 26)
    ∷ Opcode.local_get 11
    ∷ Opcode.local_get 6
    ∷ Opcode.i32_const 4294967264
    ∷ Opcode.i32_add
    ∷ Opcode.local_tee 10
    ∷ Opcode.i32_shr_u
    ∷ Opcode.i32_const 1
    ∷ Opcode.i32_and
    ∷ Opcode.local_get 11
    ∷ Opcode.i32_or
    ∷ Opcode.local_tee 11
    ∷ Opcode.local_get 10
    ∷ Opcode.i32_lt_u
    ∷ Opcode.br_if_nez (pos 35)
    ∷ Opcode.local_get 10
    ∷ Opcode.local_get 10
    ∷ Opcode.i32_sub
    ∷ Opcode.local_set 10
    ∷ Opcode.local_get 6
    ∷ Opcode.i32_const 1
    ∷ Opcode.local_get 10
    ∷ Opcode.i32_shl
    ∷ Opcode.i32_or
    ∷ Opcode.local_set 6
    ∷ Opcode.br (pos 24)
    ∷ Opcode.local_get 4
    ∷ Opcode.local_get 6
    ∷ Opcode.i32_shr_u
    ∷ Opcode.i32_const 1
    ∷ Opcode.i32_and
    ∷ Opcode.local_get 11
    ∷ Opcode.i32_or
    ∷ Opcode.local_tee 11
    ∷ Opcode.local_get 10
    ∷ Opcode.i32_lt_u
    ∷ Opcode.br_if_nez (pos 13)
    ∷ Opcode.local_get 10
    ∷ Opcode.local_get 10
    ∷ Opcode.i32_sub
    ∷ Opcode.local_set 10
    ∷ Opcode.i32_const 1
    ∷ Opcode.local_get 6
    ∷ Opcode.i32_const 31
    ∷ Opcode.i32_and
    ∷ Opcode.i32_shl
    ∷ Opcode.local_get 7
    ∷ Opcode.i32_or
    ∷ Opcode.local_set 6
    ∷ Opcode.local_get 5
    ∷ Opcode.i32_const 4294967295
    ∷ Opcode.i32_add
    ∷ Opcode.local_set 5
    ∷ Opcode.local_get 3
    ∷ Opcode.i32_const 1
    ∷ Opcode.i32_gt_u
    ∷ Opcode.br_if_nez (negsuc 65)
    ∷ Opcode.br (pos 98)
    ∷ Opcode.local_get 11
    ∷ Opcode.local_get 10
    ∷ Opcode.i32_ge_u
    ∷ Opcode.br_if_nez (pos 7)
    ∷ Opcode.i32_const 0
    ∷ Opcode.local_set 6
    ∷ Opcode.local_get 10
    ∷ Opcode.local_get 9
    ∷ Opcode.i32_eq
    ∷ Opcode.br_if_nez (pos 88)
    ∷ Opcode.i32_const 0
    ∷ Opcode.local_set 4
    ∷ Opcode.i32_const 64
    ∷ Opcode.local_set 2
    ∷ Opcode.i32_const 0
    ∷ Opcode.local_set 7
    ∷ Opcode.i32_const 0
    ∷ Opcode.local_set 6
    ∷ Opcode.i32_const 0
    ∷ Opcode.local_set 3
    ∷ Opcode.local_get 3
    ∷ Opcode.i32_const 1
    ∷ Opcode.i32_shl
    ∷ Opcode.local_get 11
    ∷ Opcode.i32_const 31
    ∷ Opcode.i32_shr_u
    ∷ Opcode.i32_or
    ∷ Opcode.local_set 5
    ∷ Opcode.local_get 4
    ∷ Opcode.i32_const 1
    ∷ Opcode.i32_shl
    ∷ Opcode.local_get 4
    ∷ Opcode.i32_const 31
    ∷ Opcode.i32_shr_u
    ∷ Opcode.i32_or
    ∷ Opcode.local_tee 5
    ∷ Opcode.local_get 9
    ∷ Opcode.i32_gt_u
    ∷ Opcode.br_if_nez (pos 14)
    ∷ Opcode.i32_const 0
    ∷ Opcode.local_set 1
    ∷ Opcode.local_get 4
    ∷ Opcode.local_get 9
    ∷ Opcode.i32_ne
    ∷ Opcode.br_if_nez (pos 5)
    ∷ Opcode.local_get 5
    ∷ Opcode.local_get 10
    ∷ Opcode.i32_ge_u
    ∷ Opcode.br_if_nez (pos 4)
    ∷ Opcode.local_get 5
    ∷ Opcode.local_set 3
    ∷ Opcode.br (pos 15)
    ∷ Opcode.local_get 4
    ∷ Opcode.local_get 9
    ∷ Opcode.i32_sub
    ∷ Opcode.local_get 6
    ∷ Opcode.local_get 11
    ∷ Opcode.i32_lt_u
    ∷ Opcode.i32_sub
    ∷ Opcode.local_set 4
    ∷ Opcode.local_get 5
    ∷ Opcode.local_get 10
    ∷ Opcode.i32_sub
    ∷ Opcode.local_set 3
    ∷ Opcode.i32_const 1
    ∷ Opcode.local_set 1
    ∷ Opcode.local_get 10
    ∷ Opcode.i32_const 1
    ∷ Opcode.i32_shl
    ∷ Opcode.local_get 12
    ∷ Opcode.i32_const 31
    ∷ Opcode.i32_shr_u
    ∷ Opcode.i32_or
    ∷ Opcode.local_set 10
    ∷ Opcode.local_get 11
    ∷ Opcode.i32_const 1
    ∷ Opcode.i32_shl
    ∷ Opcode.local_set 11
    ∷ Opcode.local_get 7
    ∷ Opcode.i32_const 1
    ∷ Opcode.i32_shl
    ∷ Opcode.local_get 7
    ∷ Opcode.i32_const 31
    ∷ Opcode.i32_shr_u
    ∷ Opcode.i32_or
    ∷ Opcode.local_set 7
    ∷ Opcode.local_get 1
    ∷ Opcode.local_get 7
    ∷ Opcode.i32_const 1
    ∷ Opcode.i32_shl
    ∷ Opcode.i32_or
    ∷ Opcode.local_set 6
    ∷ Opcode.local_get 2
    ∷ Opcode.i32_const 4294967295
    ∷ Opcode.i32_add
    ∷ Opcode.local_tee 3
    ∷ Opcode.br_if_nez (negsuc 75)
    ∷ Opcode.local_get 7
    ∷ Opcode.i32_const 0
    ∷ Opcode.i32_const 32
    ∷ Opcode.i32_const 0
    ∷ Opcode.i32_const 0
    ∷ Opcode.i32_const 0
    ∷ Opcode.local_get 4
    ∷ Opcode.i32_const 63
    ∷ Opcode.i32_and
    ∷ Opcode.local_tee 3
    ∷ Opcode.br_if_nez (pos 4)
    ∷ Opcode.local_get 6
    ∷ Opcode.local_set 1
    ∷ Opcode.br (pos 44)
    ∷ Opcode.local_get 2
    ∷ Opcode.i32_const 32
    ∷ Opcode.i32_eq
    ∷ Opcode.br_if_nez (pos 36)
    ∷ Opcode.local_get 2
    ∷ Opcode.i32_const 4294967295
    ∷ Opcode.i32_add
    ∷ Opcode.i32_const 31
    ∷ Opcode.i32_lt_u
    ∷ Opcode.br_if_nez (pos 10)
    ∷ Opcode.i32_const 0
    ∷ Opcode.local_set 1
    ∷ Opcode.local_get 2
    ∷ Opcode.i32_const 32
    ∷ Opcode.i32_gt_u
    ∷ Opcode.br_if_nez (pos 19)
    ∷ Opcode.i32_const 0
    ∷ Opcode.local_set 5
    ∷ Opcode.br (pos 25)
    ∷ Opcode.local_get 5
    ∷ Opcode.local_get 5
    ∷ Opcode.i32_shl
    ∷ Opcode.local_get 7
    ∷ Opcode.i32_const 0
    ∷ Opcode.local_get 7
    ∷ Opcode.i32_sub
    ∷ Opcode.i32_shr_u
    ∷ Opcode.i32_or
    ∷ Opcode.local_set 5
    ∷ Opcode.local_get 6
    ∷ Opcode.local_get 5
    ∷ Opcode.i32_shl
    ∷ Opcode.local_set 1
    ∷ Opcode.br (pos 10)
    ∷ Opcode.local_get 6
    ∷ Opcode.local_get 5
    ∷ Opcode.i32_shl
    ∷ Opcode.local_set 5
    ∷ Opcode.br (pos 5)
    ∷ Opcode.i32_const 0
    ∷ Opcode.local_set 1
    ∷ Opcode.local_get 6
    ∷ Opcode.local_set 5
    ∷ Opcode.local_get 5
    ∷ Opcode.i32_const 0
    ∷ Opcode.i32_const 32
    ∷ Opcode.i32_const 0
    ∷ Opcode.local_get 2
    ∷ Opcode.i32_const 63
    ∷ Opcode.i32_and
    ∷ Opcode.local_set 2
    ∷ Opcode.local_get 2
    ∷ Opcode.br_if_eqz (pos 32)
    ∷ Opcode.local_get 2
    ∷ Opcode.i32_const 31
    ∷ Opcode.i32_gt_u
    ∷ Opcode.br_if_eqz (pos 10)
    ∷ Opcode.local_get 4
    ∷ Opcode.local_get 3
    ∷ Opcode.i32_const 32
    ∷ Opcode.i32_sub
    ∷ Opcode.i32_shl
    ∷ Opcode.local_set 3
    ∷ Opcode.i32_const 0
    ∷ Opcode.local_set 4
    ∷ Opcode.br (pos 19)
    ∷ Opcode.local_get 4
    ∷ Opcode.local_get 3
    ∷ Opcode.i32_shl
    ∷ Opcode.local_set 4
    ∷ Opcode.local_get 3
    ∷ Opcode.local_get 3
    ∷ Opcode.i32_shl
    ∷ Opcode.local_set 3
    ∷ Opcode.local_get 4
    ∷ Opcode.i32_const 32
    ∷ Opcode.local_get 4
    ∷ Opcode.i32_const 31
    ∷ Opcode.i32_and
    ∷ Opcode.i32_sub
    ∷ Opcode.i32_shr_u
    ∷ Opcode.local_get 4
    ∷ Opcode.i32_or
    ∷ Opcode.local_set 3
    ∷ Opcode.drop
    ∷ Opcode.drop
    ∷ Opcode.local_get 3
    ∷ Opcode.i32_const 0
    ∷ Opcode.local_get 3
    ∷ Opcode.i32_or
    ∷ Opcode.local_set 2
    ∷ Opcode.local_get 3
    ∷ Opcode.i32_or
    ∷ Opcode.local_set 2
    ∷ Opcode.local_set 6
    ∷ Opcode.local_set 6
    ∷ Opcode.drop
    ∷ Opcode.drop
    ∷ Opcode.drop
    ∷ Opcode.drop
    ∷ Opcode.local_get 8
    ∷ Opcode.i32_const 0
    ∷ Opcode.local_get 3
    ∷ Opcode.i32_or
    ∷ Opcode.local_set 2
    ∷ Opcode.local_get 3
    ∷ Opcode.i32_or
    ∷ Opcode.local_set 2
    ∷ Opcode.local_set 11
    ∷ Opcode.local_set 11
    ∷ Opcode.drop
    ∷ Opcode.drop
    ∷ Opcode.drop
    ∷ Opcode.drop
    ∷ Opcode.drop
    ∷ Opcode.drop
    ∷ Opcode.drop
    ∷ Opcode.drop
    ∷ Opcode.drop
    ∷ []
