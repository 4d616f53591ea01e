-- ===== src/Isa/Division/DivS.antt =====
-- src/isa/div_s.rs: the 64-bit signed division, as one sequence.
use rwasm.Base.{ℕ, List, [], ◌∷◌}
use rwasm.Base.Ints.{pos, negsuc}
use rwasm.Types.Trap
use rwasm.Types.Opcode.{Opcode}

abbrev pub msh_i64_div_s : ℕ
msh_i64_div_s = 17

unfoldable pub op_i64_div_s : List Opcode
op_i64_div_s =
    Opcode.i32_const 0
    ∷ Opcode.i32_const 0
    ∷ Opcode.i32_const 0
    ∷ Opcode.i32_const 0
    ∷ Opcode.i32_const 0
    ∷ Opcode.i32_const 0
    ∷ Opcode.i32_const 0
    ∷ Opcode.i32_const 0
    ∷ Opcode.i32_const 0
    ∷ Opcode.local_get 10
    ∷ Opcode.local_get 12
    ∷ Opcode.i32_or
    ∷ Opcode.br_if_nez (pos 2)
    ∷ Opcode.trap Trap.integer_division_by_zero
    ∷ Opcode.local_get 12
    ∷ Opcode.i32_const 2147483648
    ∷ Opcode.i32_ne
    ∷ Opcode.br_if_nez (pos 12)
    ∷ Opcode.local_get 10
    ∷ Opcode.i32_const 4294967295
    ∷ Opcode.i32_ne
    ∷ Opcode.br_if_nez (pos 8)
    ∷ Opcode.local_get 13
    ∷ Opcode.br_if_nez (pos 43)
    ∷ Opcode.local_get 11
    ∷ Opcode.i32_const 4294967295
    ∷ Opcode.i32_ne
    ∷ Opcode.br_if_nez (pos 39)
    ∷ Opcode.trap Trap.integer_overflow
    ∷ Opcode.local_get 12
    ∷ Opcode.i32_const 4294967295
    ∷ Opcode.i32_gt_s
    ∷ Opcode.br_if_nez (pos 17)
    ∷ Opcode.i32_const 0
    ∷ Opcode.local_get 14
    ∷ Opcode.i32_sub
    ∷ Opcode.local_set 9
    ∷ Opcode.local_get 13
    ∷ Opcode.i32_eqz
    ∷ Opcode.local_get 13
    ∷ Opcode.i32_const 4294967295
    ∷ Opcode.i32_xor
    ∷ Opcode.i32_add
    ∷ Opcode.local_set 8
    ∷ Opcode.local_get 10
    ∷ Opcode.i32_const 0
    ∷ Opcode.i32_lt_s
    ∷ Opcode.br_if_nez (pos 28)
    ∷ Opcode.br (pos 13)
    ∷ Opcode.local_get 13
    ∷ Opcode.local_set 9
    ∷ Opcode.local_get 12
    ∷ Opcode.local_set 8
    ∷ Opcode.local_get 10
    ∷ Opcode.i32_const 4294967295
    ∷ Opcode.i32_le_s
    ∷ Opcode.br_if_nez (pos 19)
    ∷ Opcode.local_get 13
    ∷ Opcode.local_set 9
    ∷ Opcode.local_get 12
    ∷ Opcode.local_set 8
    ∷ Opcode.local_get 10
    ∷ Opcode.local_set 7
    ∷ Opcode.local_get 11
    ∷ Opcode.local_set 6
    ∷ Opcode.br (pos 21)
    ∷ Opcode.i32_const 2147483647
    ∷ Opcode.i32_const 2147483648
    ∷ Opcode.local_get 15
    ∷ Opcode.select
    ∷ Opcode.local_set 8
    ∷ Opcode.i32_const 0
    ∷ Opcode.local_get 14
    ∷ Opcode.i32_sub
    ∷ Opcode.local_set 9
    ∷ Opcode.i32_const 0
    ∷ Opcode.local_get 12
    ∷ Opcode.i32_sub
    ∷ Opcode.local_set 6
    ∷ Opcode.local_get 11
    ∷ Opcode.i32_eqz
    ∷ Opcode.local_get 11
    ∷ Opcode.i32_const 4294967295
    ∷ Opcode.i32_xor
    ∷ Opcode.i32_add
    ∷ Opcode.local_set 7
    ∷ Opcode.i32_const 0
    ∷ Opcode.local_set 11
    ∷ Opcode.i32_const 64
    ∷ Opcode.local_set 5
    ∷ Opcode.i32_const 0
    ∷ Opcode.local_set 4
    ∷ Opcode.i32_const 0
    ∷ Opcode.local_set 3
    ∷ Opcode.i32_const 0
    ∷ Opcode.local_set 2
    ∷ Opcode.local_get 4
    ∷ Opcode.i32_const 1
    ∷ Opcode.i32_shl
    ∷ Opcode.local_get 9
    ∷ Opcode.i32_const 31
    ∷ Opcode.i32_shr_u
    ∷ Opcode.i32_or
    ∷ Opcode.local_set 13
    ∷ Opcode.local_get 11
    ∷ Opcode.i32_const 1
    ∷ Opcode.i32_shl
    ∷ Opcode.local_get 5
    ∷ Opcode.i32_const 31
    ∷ Opcode.i32_shr_u
    ∷ Opcode.i32_or
    ∷ Opcode.local_tee 12
    ∷ Opcode.local_get 8
    ∷ Opcode.i32_gt_u
    ∷ Opcode.br_if_nez (pos 14)
    ∷ Opcode.i32_const 0
    ∷ Opcode.local_set 1
    ∷ Opcode.local_get 11
    ∷ Opcode.local_get 8
    ∷ Opcode.i32_ne
    ∷ Opcode.br_if_nez (pos 5)
    ∷ Opcode.local_get 13
    ∷ Opcode.local_get 7
    ∷ Opcode.i32_ge_u
    ∷ Opcode.br_if_nez (pos 4)
    ∷ Opcode.local_get 13
    ∷ Opcode.local_set 4
    ∷ Opcode.br (pos 15)
    ∷ Opcode.local_get 11
    ∷ Opcode.local_get 8
    ∷ Opcode.i32_sub
    ∷ Opcode.local_get 14
    ∷ Opcode.local_get 8
    ∷ Opcode.i32_lt_u
    ∷ Opcode.i32_sub
    ∷ Opcode.local_set 11
    ∷ Opcode.local_get 13
    ∷ Opcode.local_get 7
    ∷ Opcode.i32_sub
    ∷ Opcode.local_set 4
    ∷ Opcode.i32_const 1
    ∷ Opcode.local_set 1
    ∷ Opcode.local_get 8
    ∷ Opcode.i32_const 1
    ∷ Opcode.i32_shl
    ∷ Opcode.local_get 10
    ∷ Opcode.i32_const 31
    ∷ Opcode.i32_shr_u
    ∷ Opcode.i32_or
    ∷ Opcode.local_set 8
    ∷ Opcode.local_get 9
    ∷ Opcode.i32_const 1
    ∷ Opcode.i32_shl
    ∷ Opcode.local_set 9
    ∷ Opcode.local_get 3
    ∷ Opcode.i32_const 1
    ∷ Opcode.i32_shl
    ∷ Opcode.local_get 3
    ∷ Opcode.i32_const 31
    ∷ Opcode.i32_shr_u
    ∷ Opcode.i32_or
    ∷ Opcode.local_set 3
    ∷ Opcode.local_get 1
    ∷ Opcode.local_get 3
    ∷ Opcode.i32_const 1
    ∷ Opcode.i32_shl
    ∷ Opcode.i32_or
    ∷ Opcode.local_set 2
    ∷ Opcode.local_get 5
    ∷ Opcode.i32_const 4294967295
    ∷ Opcode.i32_add
    ∷ Opcode.local_tee 6
    ∷ Opcode.br_if_nez (negsuc 75)
    ∷ Opcode.local_get 10
    ∷ Opcode.local_get 13
    ∷ Opcode.i32_xor
    ∷ Opcode.i32_const 4294967295
    ∷ Opcode.i32_le_s
    ∷ Opcode.br_if_nez (pos 4)
    ∷ Opcode.local_get 2
    ∷ Opcode.local_set 11
    ∷ Opcode.br (pos 12)
    ∷ Opcode.i32_const 0
    ∷ Opcode.local_get 3
    ∷ Opcode.i32_sub
    ∷ Opcode.local_set 11
    ∷ Opcode.local_get 2
    ∷ Opcode.i32_eqz
    ∷ Opcode.local_get 4
    ∷ Opcode.i32_const 4294967295
    ∷ Opcode.i32_xor
    ∷ Opcode.i32_add
    ∷ Opcode.local_set 3
    ∷ Opcode.local_get 3
    ∷ Opcode.i32_const 0
    ∷ Opcode.i32_const 32
    ∷ Opcode.i32_const 0
    ∷ Opcode.local_get 2
    ∷ Opcode.i32_const 63
    ∷ Opcode.i32_and
    ∷ Opcode.local_set 2
    ∷ Opcode.local_get 2
    ∷ Opcode.br_if_eqz (pos 32)
    ∷ Opcode.local_get 2
    ∷ Opcode.i32_const 31
    ∷ Opcode.i32_gt_u
    ∷ Opcode.br_if_eqz (pos 10)
    ∷ Opcode.local_get 4
    ∷ Opcode.local_get 3
    ∷ Opcode.i32_const 32
    ∷ Opcode.i32_sub
    ∷ Opcode.i32_shl
    ∷ Opcode.local_set 3
    ∷ Opcode.i32_const 0
    ∷ Opcode.local_set 4
    ∷ Opcode.br (pos 19)
    ∷ Opcode.local_get 4
    ∷ Opcode.local_get 3
    ∷ Opcode.i32_shl
    ∷ Opcode.local_set 4
    ∷ Opcode.local_get 3
    ∷ Opcode.local_get 3
    ∷ Opcode.i32_shl
    ∷ Opcode.local_set 3
    ∷ Opcode.local_get 4
    ∷ Opcode.i32_const 32
    ∷ Opcode.local_get 4
    ∷ Opcode.i32_const 31
    ∷ Opcode.i32_and
    ∷ Opcode.i32_sub
    ∷ Opcode.i32_shr_u
    ∷ Opcode.local_get 4
    ∷ Opcode.i32_or
    ∷ Opcode.local_set 3
    ∷ Opcode.drop
    ∷ Opcode.drop
    ∷ Opcode.local_get 13
    ∷ Opcode.i32_const 0
    ∷ Opcode.local_get 3
    ∷ Opcode.i32_or
    ∷ Opcode.local_set 2
    ∷ Opcode.local_get 3
    ∷ Opcode.i32_or
    ∷ Opcode.local_set 2
    ∷ Opcode.local_set 13
    ∷ Opcode.local_set 13
    ∷ Opcode.drop
    ∷ Opcode.drop
    ∷ Opcode.drop
    ∷ Opcode.drop
    ∷ Opcode.drop
    ∷ Opcode.drop
    ∷ Opcode.drop
    ∷ Opcode.drop
    ∷ Opcode.drop
    ∷ Opcode.drop
    ∷ Opcode.drop
    ∷ []
