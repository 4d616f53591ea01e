-- ===== src/Isa/Division/RemU.antt =====
-- src/isa/rem_u.rs: the 64-bit unsigned remainder, as one sequence.
use rwasm.Base.{ℕ, List, [], ◌∷◌}
use rwasm.Base.Ints.{pos, negsuc}
use rwasm.Types.Trap
use rwasm.Types.Opcode.{Opcode}

abbrev pub msh_i64_rem_u : ℕ
msh_i64_rem_u = 20

unfoldable pub op_i64_rem_u : List Opcode
op_i64_rem_u =
    Opcode.i32_const 0
    ∷ Opcode.i32_const 0
    ∷ Opcode.i32_const 0
    ∷ Opcode.i32_const 0
    ∷ Opcode.i32_const 0
    ∷ Opcode.i32_const 0
    ∷ Opcode.local_get 7
    ∷ Opcode.br_if_nez (pos 144)
    ∷ Opcode.local_get 8
    ∷ Opcode.br_if_nez (pos 2)
    ∷ Opcode.trap Trap.integer_division_by_zero
    ∷ Opcode.local_get 8
    ∷ Opcode.i32_const 0
    ∷ Opcode.i32_lt_s
    ∷ Opcode.br_if_nez (pos 137)
    ∷ Opcode.i32_const 64
    ∷ Opcode.local_set 6
    ∷ Opcode.i32_const 0
    ∷ Opcode.local_set 5
    ∷ Opcode.local_get 6
    ∷ Opcode.i32_const 32
    ∷ Opcode.i32_gt_u
    ∷ Opcode.local_set 7
    ∷ Opcode.local_get 6
    ∷ Opcode.i32_const 4294967295
    ∷ Opcode.i32_add
    ∷ Opcode.local_set 4
    ∷ Opcode.i32_const 0
    ∷ Opcode.local_get 10
    ∷ Opcode.local_get 8
    ∷ Opcode.i32_const 4294967294
    ∷ Opcode.i32_add
    ∷ Opcode.local_tee 9
    ∷ Opcode.i32_shr_u
    ∷ Opcode.i32_const 1
    ∷ Opcode.i32_and
    ∷ Opcode.local_get 6
    ∷ Opcode.i32_const 32
    ∷ Opcode.i32_gt_u
    ∷ Opcode.select
    ∷ Opcode.i32_const 0
    ∷ Opcode.local_get 11
    ∷ Opcode.local_get 7
    ∷ Opcode.i32_shr_u
    ∷ Opcode.i32_const 1
    ∷ Opcode.i32_and
    ∷ Opcode.local_get 10
    ∷ Opcode.select
    ∷ Opcode.local_get 7
    ∷ Opcode.i32_const 1
    ∷ Opcode.i32_shl
    ∷ Opcode.i32_or
    ∷ Opcode.local_tee 7
    ∷ Opcode.i32_const 0
    ∷ Opcode.local_get 11
    ∷ Opcode.local_get 9
    ∷ Opcode.local_get 13
    ∷ Opcode.i32_lt_u
    ∷ Opcode.select
    ∷ Opcode.i32_sub
    ∷ Opcode.i32_const 1
    ∷ Opcode.i32_shl
    ∷ Opcode.i32_or
    ∷ Opcode.local_tee 6
    ∷ Opcode.i32_const 0
    ∷ Opcode.local_get 10
    ∷ Opcode.local_get 8
    ∷ Opcode.local_get 12
    ∷ Opcode.i32_lt_u
    ∷ Opcode.select
    ∷ Opcode.i32_sub
    ∷ Opcode.local_set 5
    ∷ Opcode.local_get 4
    ∷ Opcode.i32_const 1
    ∷ Opcode.i32_ne
    ∷ Opcode.br_if_nez (negsuc 55)
    ∷ Opcode.i32_const 95
    ∷ Opcode.local_set 6
    ∷ Opcode.i32_const 0
    ∷ Opcode.local_set 4
    ∷ Opcode.local_get 5
    ∷ Opcode.local_get 7
    ∷ Opcode.i32_const 4294967295
    ∷ Opcode.i32_add
    ∷ Opcode.i32_const 30
    ∷ Opcode.i32_and
    ∷ Opcode.i32_shr_u
    ∷ Opcode.local_get 11
    ∷ Opcode.local_get 8
    ∷ Opcode.i32_const 4294967263
    ∷ Opcode.i32_add
    ∷ Opcode.local_tee 12
    ∷ Opcode.i32_shr_u
    ∷ Opcode.local_get 8
    ∷ Opcode.i32_const 4294967264
    ∷ Opcode.i32_add
    ∷ Opcode.local_tee 10
    ∷ Opcode.i32_const 32
    ∷ Opcode.i32_gt_u
    ∷ Opcode.select
    ∷ Opcode.i32_const 1
    ∷ Opcode.i32_and
    ∷ Opcode.local_get 6
    ∷ Opcode.local_get 8
    ∷ Opcode.i32_shr_u
    ∷ Opcode.local_get 12
    ∷ Opcode.local_get 10
    ∷ Opcode.i32_shr_u
    ∷ Opcode.local_get 9
    ∷ Opcode.i32_const 4294967265
    ∷ Opcode.i32_add
    ∷ Opcode.i32_const 32
    ∷ Opcode.i32_gt_u
    ∷ Opcode.select
    ∷ Opcode.i32_const 1
    ∷ Opcode.i32_and
    ∷ Opcode.local_get 6
    ∷ Opcode.i32_const 1
    ∷ Opcode.i32_shl
    ∷ Opcode.i32_or
    ∷ Opcode.local_tee 6
    ∷ Opcode.i32_const 0
    ∷ Opcode.local_get 11
    ∷ Opcode.local_get 8
    ∷ Opcode.local_get 13
    ∷ Opcode.i32_lt_u
    ∷ Opcode.select
    ∷ Opcode.i32_sub
    ∷ Opcode.i32_const 1
    ∷ Opcode.i32_shl
    ∷ Opcode.i32_or
    ∷ Opcode.local_tee 5
    ∷ Opcode.i32_const 0
    ∷ Opcode.local_get 10
    ∷ Opcode.local_get 7
    ∷ Opcode.local_get 12
    ∷ Opcode.i32_lt_u
    ∷ Opcode.select
    ∷ Opcode.i32_sub
    ∷ Opcode.local_set 4
    ∷ Opcode.local_get 6
    ∷ Opcode.i32_const 4294967294
    ∷ Opcode.i32_add
    ∷ Opcode.local_set 6
    ∷ Opcode.local_get 9
    ∷ Opcode.br_if_nez (negsuc 64)
    ∷ Opcode.i32_const 0
    ∷ Opcode.i32_const 0
    ∷ Opcode.local_set 3
    ∷ Opcode.local_set 3
    ∷ Opcode.br (pos 182)
    ∷ Opcode.i32_const 0
    ∷ Opcode.local_set 6
    ∷ Opcode.i32_const 64
    ∷ Opcode.local_set 1
    ∷ Opcode.i32_const 0
    ∷ Opcode.local_set 4
    ∷ Opcode.local_get 4
    ∷ Opcode.i32_const 1
    ∷ Opcode.i32_shl
    ∷ Opcode.local_get 10
    ∷ Opcode.i32_const 31
    ∷ Opcode.i32_shr_u
    ∷ Opcode.i32_or
    ∷ Opcode.local_set 5
    ∷ Opcode.local_get 6
    ∷ Opcode.i32_const 1
    ∷ Opcode.i32_shl
    ∷ Opcode.local_get 5
    ∷ Opcode.i32_const 31
    ∷ Opcode.i32_shr_u
    ∷ Opcode.i32_or
    ∷ Opcode.local_tee 7
    ∷ Opcode.local_get 8
    ∷ Opcode.i32_gt_u
    ∷ Opcode.br_if_nez (pos 12)
    ∷ Opcode.local_get 6
    ∷ Opcode.local_get 8
    ∷ Opcode.i32_ne
    ∷ Opcode.br_if_nez (pos 5)
    ∷ Opcode.local_get 5
    ∷ Opcode.local_get 9
    ∷ Opcode.i32_ge_u
    ∷ Opcode.br_if_nez (pos 4)
    ∷ Opcode.local_get 5
    ∷ Opcode.local_set 4
    ∷ Opcode.br (pos 13)
    ∷ Opcode.local_get 6
    ∷ Opcode.local_get 8
    ∷ Opcode.i32_sub
    ∷ Opcode.local_get 6
    ∷ Opcode.local_get 10
    ∷ Opcode.i32_lt_u
    ∷ Opcode.i32_sub
    ∷ Opcode.local_set 6
    ∷ Opcode.local_get 5
    ∷ Opcode.local_get 9
    ∷ Opcode.i32_sub
    ∷ Opcode.local_set 4
    ∷ Opcode.local_get 9
    ∷ Opcode.i32_const 1
    ∷ Opcode.i32_shl
    ∷ Opcode.local_get 11
    ∷ Opcode.i32_const 31
    ∷ Opcode.i32_shr_u
    ∷ Opcode.i32_or
    ∷ Opcode.local_set 9
    ∷ Opcode.local_get 10
    ∷ Opcode.i32_const 1
    ∷ Opcode.i32_shl
    ∷ Opcode.local_set 10
    ∷ Opcode.local_get 1
    ∷ Opcode.i32_const 4294967295
    ∷ Opcode.i32_add
    ∷ Opcode.local_tee 2
    ∷ Opcode.br_if_nez (negsuc 57)
    ∷ Opcode.local_get 6
    ∷ Opcode.i32_const 0
    ∷ Opcode.i32_const 32
    ∷ Opcode.i32_const 0
    ∷ Opcode.i32_const 0
    ∷ Opcode.i32_const 0
    ∷ Opcode.local_get 4
    ∷ Opcode.i32_const 63
    ∷ Opcode.i32_and
    ∷ Opcode.local_tee 3
    ∷ Opcode.br_if_nez (pos 4)
    ∷ Opcode.local_get 6
    ∷ Opcode.local_set 1
    ∷ Opcode.br (pos 44)
    ∷ Opcode.local_get 2
    ∷ Opcode.i32_const 32
    ∷ Opcode.i32_eq
    ∷ Opcode.br_if_nez (pos 36)
    ∷ Opcode.local_get 2
    ∷ Opcode.i32_const 4294967295
    ∷ Opcode.i32_add
    ∷ Opcode.i32_const 31
    ∷ Opcode.i32_lt_u
    ∷ Opcode.br_if_nez (pos 10)
    ∷ Opcode.i32_const 0
    ∷ Opcode.local_set 1
    ∷ Opcode.local_get 2
    ∷ Opcode.i32_const 32
    ∷ Opcode.i32_gt_u
    ∷ Opcode.br_if_nez (pos 19)
    ∷ Opcode.i32_const 0
    ∷ Opcode.local_set 5
    ∷ Opcode.br (pos 25)
    ∷ Opcode.local_get 5
    ∷ Opcode.local_get 5
    ∷ Opcode.i32_shl
    ∷ Opcode.local_get 7
    ∷ Opcode.i32_const 0
    ∷ Opcode.local_get 7
    ∷ Opcode.i32_sub
    ∷ Opcode.i32_shr_u
    ∷ Opcode.i32_or
    ∷ Opcode.local_set 5
    ∷ Opcode.local_get 6
    ∷ Opcode.local_get 5
    ∷ Opcode.i32_shl
    ∷ Opcode.local_set 1
    ∷ Opcode.br (pos 10)
    ∷ Opcode.local_get 6
    ∷ Opcode.local_get 5
    ∷ Opcode.i32_shl
    ∷ Opcode.local_set 5
    ∷ Opcode.br (pos 5)
    ∷ Opcode.i32_const 0
    ∷ Opcode.local_set 1
    ∷ Opcode.local_get 6
    ∷ Opcode.local_set 5
    ∷ Opcode.local_get 5
    ∷ Opcode.i32_const 0
    ∷ Opcode.i32_const 32
    ∷ Opcode.i32_const 0
    ∷ Opcode.local_get 2
    ∷ Opcode.i32_const 63
    ∷ Opcode.i32_and
    ∷ Opcode.local_set 2
    ∷ Opcode.local_get 2
    ∷ Opcode.br_if_eqz (pos 32)
    ∷ Opcode.local_get 2
    ∷ Opcode.i32_const 31
    ∷ Opcode.i32_gt_u
    ∷ Opcode.br_if_eqz (pos 10)
    ∷ Opcode.local_get 4
    ∷ Opcode.local_get 3
    ∷ Opcode.i32_const 32
    ∷ Opcode.i32_sub
    ∷ Opcode.i32_shl
    ∷ Opcode.local_set 3
    ∷ Opcode.i32_const 0
    ∷ Opcode.local_set 4
    ∷ Opcode.br (pos 19)
    ∷ Opcode.local_get 4
    ∷ Opcode.local_get 3
    ∷ Opcode.i32_shl
    ∷ Opcode.local_set 4
    ∷ Opcode.local_get 3
    ∷ Opcode.local_get 3
    ∷ Opcode.i32_shl
    ∷ Opcode.local_set 3
    ∷ Opcode.local_get 4
    ∷ Opcode.i32_const 32
    ∷ Opcode.local_get 4
    ∷ Opcode.i32_const 31
    ∷ Opcode.i32_and
    ∷ Opcode.i32_sub
    ∷ Opcode.i32_shr_u
    ∷ Opcode.local_get 4
    ∷ Opcode.i32_or
    ∷ Opcode.local_set 3
    ∷ Opcode.drop
    ∷ Opcode.drop
    ∷ Opcode.local_get 3
    ∷ Opcode.i32_const 0
    ∷ Opcode.local_get 3
    ∷ Opcode.i32_or
    ∷ Opcode.local_set 2
    ∷ Opcode.local_get 3
    ∷ Opcode.i32_or
    ∷ Opcode.local_set 2
    ∷ Opcode.local_set 6
    ∷ Opcode.local_set 6
    ∷ Opcode.drop
    ∷ Opcode.drop
    ∷ Opcode.drop
    ∷ Opcode.drop
    ∷ Opcode.local_set 3
    ∷ Opcode.local_set 3
    ∷ Opcode.local_get 3
    ∷ Opcode.local_get 3
    ∷ Opcode.local_get 6
    ∷ Opcode.i32_const 0
    ∷ Opcode.local_get 3
    ∷ Opcode.i32_or
    ∷ Opcode.local_set 2
    ∷ Opcode.local_get 3
    ∷ Opcode.i32_or
    ∷ Opcode.local_set 2
    ∷ Opcode.local_set 10
    ∷ Opcode.local_set 10
    ∷ Opcode.drop
    ∷ Opcode.drop
    ∷ Opcode.drop
    ∷ Opcode.drop
    ∷ Opcode.drop
    ∷ Opcode.drop
    ∷ Opcode.drop
    ∷ Opcode.drop
    ∷ []
