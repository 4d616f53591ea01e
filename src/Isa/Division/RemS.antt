-- ===== src/Isa/Division/RemS.antt =====
-- src/isa/rem_s.rs: the 64-bit signed remainder, as one sequence.
use rwasm.Base.{ℕ, List, [], ◌∷◌}
use rwasm.Base.Ints.{pos, negsuc}
use rwasm.Types.Trap
use rwasm.Types.Opcode.{Opcode}

abbrev pub msh_i64_rem_s : ℕ
msh_i64_rem_s = 12

unfoldable pub op_i64_rem_s : List Opcode
op_i64_rem_s =
    Opcode.i32_const 0
    ∷ Opcode.i32_const 0
    ∷ Opcode.i32_const 0
    ∷ Opcode.i32_const 0
    ∷ Opcode.local_get 5
    ∷ Opcode.local_get 7
    ∷ Opcode.i32_or
    ∷ Opcode.br_if_nez (pos 2)
    ∷ Opcode.trap Trap.integer_division_by_zero
    ∷ Opcode.local_get 7
    ∷ Opcode.i32_const 4294967295
    ∷ Opcode.i32_le_s
    ∷ Opcode.br_if_nez (pos 147)
    ∷ Opcode.i32_const 0
    ∷ Opcode.local_set 4
    ∷ Opcode.local_get 5
    ∷ Opcode.i32_const 0
    ∷ Opcode.i32_lt_s
    ∷ Opcode.br_if_nez (pos 67)
    ∷ Opcode.i32_const 0
    ∷ Opcode.local_set 4
    ∷ Opcode.i32_const 64
    ∷ Opcode.local_set 3
    ∷ Opcode.i32_const 0
    ∷ Opcode.local_set 2
    ∷ Opcode.local_get 2
    ∷ Opcode.i32_const 1
    ∷ Opcode.i32_shl
    ∷ Opcode.local_get 8
    ∷ Opcode.i32_const 31
    ∷ Opcode.i32_shr_u
    ∷ Opcode.i32_or
    ∷ Opcode.local_set 1
    ∷ Opcode.local_get 4
    ∷ Opcode.i32_const 1
    ∷ Opcode.i32_shl
    ∷ Opcode.local_get 3
    ∷ Opcode.i32_const 31
    ∷ Opcode.i32_shr_u
    ∷ Opcode.i32_or
    ∷ Opcode.local_tee 5
    ∷ Opcode.local_get 6
    ∷ Opcode.i32_gt_u
    ∷ Opcode.br_if_nez (pos 12)
    ∷ Opcode.local_get 4
    ∷ Opcode.local_get 6
    ∷ Opcode.i32_ne
    ∷ Opcode.br_if_nez (pos 5)
    ∷ Opcode.local_get 1
    ∷ Opcode.local_get 7
    ∷ Opcode.i32_ge_u
    ∷ Opcode.br_if_nez (pos 4)
    ∷ Opcode.local_get 1
    ∷ Opcode.local_set 2
    ∷ Opcode.br (pos 13)
    ∷ Opcode.local_get 4
    ∷ Opcode.local_get 6
    ∷ Opcode.i32_sub
    ∷ Opcode.local_get 2
    ∷ Opcode.local_get 8
    ∷ Opcode.i32_lt_u
    ∷ Opcode.i32_sub
    ∷ Opcode.local_set 4
    ∷ Opcode.local_get 1
    ∷ Opcode.local_get 7
    ∷ Opcode.i32_sub
    ∷ Opcode.local_set 2
    ∷ Opcode.local_get 7
    ∷ Opcode.i32_const 1
    ∷ Opcode.i32_shl
    ∷ Opcode.local_get 9
    ∷ Opcode.i32_const 31
    ∷ Opcode.i32_shr_u
    ∷ Opcode.i32_or
    ∷ Opcode.local_set 7
    ∷ Opcode.local_get 8
    ∷ Opcode.i32_const 1
    ∷ Opcode.i32_shl
    ∷ Opcode.local_set 8
    ∷ Opcode.local_get 3
    ∷ Opcode.i32_const 4294967295
    ∷ Opcode.i32_add
    ∷ Opcode.local_tee 4
    ∷ Opcode.br_if_nez (negsuc 57)
    ∷ Opcode.br (pos 240)
    ∷ Opcode.i32_const 0
    ∷ Opcode.local_get 7
    ∷ Opcode.i32_sub
    ∷ Opcode.local_tee 4
    ∷ Opcode.i32_eqz
    ∷ Opcode.local_get 6
    ∷ Opcode.i32_const 4294967295
    ∷ Opcode.i32_xor
    ∷ Opcode.i32_add
    ∷ Opcode.local_set 6
    ∷ Opcode.i32_const 64
    ∷ Opcode.local_set 1
    ∷ Opcode.i32_const 0
    ∷ Opcode.local_set 2
    ∷ Opcode.local_get 2
    ∷ Opcode.i32_const 1
    ∷ Opcode.i32_shl
    ∷ Opcode.local_get 8
    ∷ Opcode.i32_const 31
    ∷ Opcode.i32_shr_u
    ∷ Opcode.i32_or
    ∷ Opcode.local_set 5
    ∷ Opcode.local_get 4
    ∷ Opcode.i32_const 1
    ∷ Opcode.i32_shl
    ∷ Opcode.local_get 3
    ∷ Opcode.i32_const 31
    ∷ Opcode.i32_shr_u
    ∷ Opcode.i32_or
    ∷ Opcode.local_tee 5
    ∷ Opcode.local_get 7
    ∷ Opcode.i32_gt_u
    ∷ Opcode.br_if_nez (pos 12)
    ∷ Opcode.local_get 4
    ∷ Opcode.local_get 7
    ∷ Opcode.i32_ne
    ∷ Opcode.br_if_nez (pos 5)
    ∷ Opcode.local_get 5
    ∷ Opcode.local_get 4
    ∷ Opcode.i32_ge_u
    ∷ Opcode.br_if_nez (pos 4)
    ∷ Opcode.local_get 5
    ∷ Opcode.local_set 2
    ∷ Opcode.br (pos 13)
    ∷ Opcode.local_get 4
    ∷ Opcode.local_get 7
    ∷ Opcode.i32_sub
    ∷ Opcode.local_get 6
    ∷ Opcode.local_get 5
    ∷ Opcode.i32_lt_u
    ∷ Opcode.i32_sub
    ∷ Opcode.local_set 4
    ∷ Opcode.local_get 5
    ∷ Opcode.local_get 4
    ∷ Opcode.i32_sub
    ∷ Opcode.local_set 2
    ∷ Opcode.local_get 7
    ∷ Opcode.i32_const 1
    ∷ Opcode.i32_shl
    ∷ Opcode.local_get 9
    ∷ Opcode.i32_const 31
    ∷ Opcode.i32_shr_u
    ∷ Opcode.i32_or
    ∷ Opcode.local_set 7
    ∷ Opcode.local_get 8
    ∷ Opcode.i32_const 1
    ∷ Opcode.i32_shl
    ∷ Opcode.local_set 8
    ∷ Opcode.local_get 1
    ∷ Opcode.i32_const 4294967295
    ∷ Opcode.i32_add
    ∷ Opcode.local_tee 2
    ∷ Opcode.br_if_nez (negsuc 57)
    ∷ Opcode.br (pos 166)
    ∷ Opcode.i32_const 0
    ∷ Opcode.local_set 4
    ∷ Opcode.i32_const 0
    ∷ Opcode.local_get 9
    ∷ Opcode.i32_sub
    ∷ Opcode.local_tee 3
    ∷ Opcode.i32_eqz
    ∷ Opcode.local_get 8
    ∷ Opcode.i32_const 4294967295
    ∷ Opcode.i32_xor
    ∷ Opcode.i32_add
    ∷ Opcode.local_set 8
    ∷ Opcode.local_get 5
    ∷ Opcode.i32_const 0
    ∷ Opcode.i32_lt_s
    ∷ Opcode.br_if_nez (pos 67)
    ∷ Opcode.i32_const 0
    ∷ Opcode.local_set 4
    ∷ Opcode.i32_const 64
    ∷ Opcode.local_set 3
    ∷ Opcode.i32_const 0
    ∷ Opcode.local_set 7
    ∷ Opcode.local_get 7
    ∷ Opcode.i32_const 1
    ∷ Opcode.i32_shl
    ∷ Opcode.local_get 9
    ∷ Opcode.i32_const 31
    ∷ Opcode.i32_shr_u
    ∷ Opcode.i32_or
    ∷ Opcode.local_set 1
    ∷ Opcode.local_get 4
    ∷ Opcode.i32_const 1
    ∷ Opcode.i32_shl
    ∷ Opcode.local_get 8
    ∷ Opcode.i32_const 31
    ∷ Opcode.i32_shr_u
    ∷ Opcode.i32_or
    ∷ Opcode.local_tee 5
    ∷ Opcode.local_get 6
    ∷ Opcode.i32_gt_u
    ∷ Opcode.br_if_nez (pos 12)
    ∷ Opcode.local_get 4
    ∷ Opcode.local_get 6
    ∷ Opcode.i32_ne
    ∷ Opcode.br_if_nez (pos 5)
    ∷ Opcode.local_get 1
    ∷ Opcode.local_get 7
    ∷ Opcode.i32_ge_u
    ∷ Opcode.br_if_nez (pos 4)
    ∷ Opcode.local_get 1
    ∷ Opcode.local_set 7
    ∷ Opcode.br (pos 13)
    ∷ Opcode.local_get 4
    ∷ Opcode.local_get 6
    ∷ Opcode.i32_sub
    ∷ Opcode.local_get 2
    ∷ Opcode.local_get 8
    ∷ Opcode.i32_lt_u
    ∷ Opcode.i32_sub
    ∷ Opcode.local_set 4
    ∷ Opcode.local_get 1
    ∷ Opcode.local_get 7
    ∷ Opcode.i32_sub
    ∷ Opcode.local_set 7
    ∷ Opcode.local_get 8
    ∷ Opcode.i32_const 1
    ∷ Opcode.i32_shl
    ∷ Opcode.local_get 3
    ∷ Opcode.i32_const 31
    ∷ Opcode.i32_shr_u
    ∷ Opcode.i32_or
    ∷ Opcode.local_set 8
    ∷ Opcode.local_get 2
    ∷ Opcode.i32_const 1
    ∷ Opcode.i32_shl
    ∷ Opcode.local_set 2
    ∷ Opcode.local_get 3
    ∷ Opcode.i32_const 4294967295
    ∷ Opcode.i32_add
    ∷ Opcode.local_tee 4
    ∷ Opcode.br_if_nez (negsuc 57)
    ∷ Opcode.br (pos 74)
    ∷ Opcode.i32_const 0
    ∷ Opcode.local_get 7
    ∷ Opcode.i32_sub
    ∷ Opcode.local_tee 4
    ∷ Opcode.i32_eqz
    ∷ Opcode.local_get 6
    ∷ Opcode.i32_const 4294967295
    ∷ Opcode.i32_xor
    ∷ Opcode.i32_add
    ∷ Opcode.local_set 6
    ∷ Opcode.i32_const 64
    ∷ Opcode.local_set 1
    ∷ Opcode.i32_const 0
    ∷ Opcode.local_set 7
    ∷ Opcode.local_get 7
    ∷ Opcode.i32_const 1
    ∷ Opcode.i32_shl
    ∷ Opcode.local_get 9
    ∷ Opcode.i32_const 31
    ∷ Opcode.i32_shr_u
    ∷ Opcode.i32_or
    ∷ Opcode.local_set 5
    ∷ Opcode.local_get 4
    ∷ Opcode.i32_const 1
    ∷ Opcode.i32_shl
    ∷ Opcode.local_get 8
    ∷ Opcode.i32_const 31
    ∷ Opcode.i32_shr_u
    ∷ Opcode.i32_or
    ∷ Opcode.local_tee 5
    ∷ Opcode.local_get 7
    ∷ Opcode.i32_gt_u
    ∷ Opcode.br_if_nez (pos 12)
    ∷ Opcode.local_get 4
    ∷ Opcode.local_get 7
    ∷ Opcode.i32_ne
    ∷ Opcode.br_if_nez (pos 5)
    ∷ Opcode.local_get 5
    ∷ Opcode.local_get 4
    ∷ Opcode.i32_ge_u
    ∷ Opcode.br_if_nez (pos 4)
    ∷ Opcode.local_get 5
    ∷ Opcode.local_set 7
    ∷ Opcode.br (pos 13)
    ∷ Opcode.local_get 4
    ∷ Opcode.local_get 7
    ∷ Opcode.i32_sub
    ∷ Opcode.local_get 6
    ∷ Opcode.local_get 5
    ∷ Opcode.i32_lt_u
    ∷ Opcode.i32_sub
    ∷ Opcode.local_set 4
    ∷ Opcode.local_get 5
    ∷ Opcode.local_get 4
    ∷ Opcode.i32_sub
    ∷ Opcode.local_set 7
    ∷ Opcode.local_get 8
    ∷ Opcode.i32_const 1
    ∷ Opcode.i32_shl
    ∷ Opcode.local_get 3
    ∷ Opcode.i32_const 31
    ∷ Opcode.i32_shr_u
    ∷ Opcode.i32_or
    ∷ Opcode.local_set 8
    ∷ Opcode.local_get 2
    ∷ Opcode.i32_const 1
    ∷ Opcode.i32_shl
    ∷ Opcode.local_set 2
    ∷ Opcode.local_get 1
    ∷ Opcode.i32_const 4294967295
    ∷ Opcode.i32_add
    ∷ Opcode.local_tee 2
    ∷ Opcode.br_if_nez (negsuc 57)
    ∷ Opcode.i32_const 0
    ∷ Opcode.local_get 8
    ∷ Opcode.i32_sub
    ∷ Opcode.local_tee 3
    ∷ Opcode.i32_eqz
    ∷ Opcode.local_get 5
    ∷ Opcode.i32_const 4294967295
    ∷ Opcode.i32_xor
    ∷ Opcode.i32_add
    ∷ Opcode.local_set 4
    ∷ Opcode.local_get 4
    ∷ Opcode.i32_const 0
    ∷ Opcode.i32_const 32
    ∷ Opcode.i32_const 0
    ∷ Opcode.local_get 2
    ∷ Opcode.i32_const 63
    ∷ Opcode.i32_and
    ∷ Opcode.local_set 2
    ∷ Opcode.local_get 2
    ∷ Opcode.br_if_eqz (pos 32)
    ∷ Opcode.local_get 2
    ∷ Opcode.i32_const 31
    ∷ Opcode.i32_gt_u
    ∷ Opcode.br_if_eqz (pos 10)
    ∷ Opcode.local_get 4
    ∷ Opcode.local_get 3
    ∷ Opcode.i32_const 32
    ∷ Opcode.i32_sub
    ∷ Opcode.i32_shl
    ∷ Opcode.local_set 3
    ∷ Opcode.i32_const 0
    ∷ Opcode.local_set 4
    ∷ Opcode.br (pos 19)
    ∷ Opcode.local_get 4
    ∷ Opcode.local_get 3
    ∷ Opcode.i32_shl
    ∷ Opcode.local_set 4
    ∷ Opcode.local_get 3
    ∷ Opcode.local_get 3
    ∷ Opcode.i32_shl
    ∷ Opcode.local_set 3
    ∷ Opcode.local_get 4
    ∷ Opcode.i32_const 32
    ∷ Opcode.local_get 4
    ∷ Opcode.i32_const 31
    ∷ Opcode.i32_and
    ∷ Opcode.i32_sub
    ∷ Opcode.i32_shr_u
    ∷ Opcode.local_get 4
    ∷ Opcode.i32_or
    ∷ Opcode.local_set 3
    ∷ Opcode.drop
    ∷ Opcode.drop
    ∷ Opcode.local_get 4
    ∷ Opcode.i32_const 0
    ∷ Opcode.local_get 3
    ∷ Opcode.i32_or
    ∷ Opcode.local_set 2
    ∷ Opcode.local_get 3
    ∷ Opcode.i32_or
    ∷ Opcode.local_set 2
    ∷ Opcode.local_set 8
    ∷ Opcode.local_set 8
    ∷ Opcode.drop
    ∷ Opcode.drop
    ∷ Opcode.drop
    ∷ Opcode.drop
    ∷ Opcode.drop
    ∷ Opcode.drop
    ∷ []
