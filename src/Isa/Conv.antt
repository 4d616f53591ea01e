-- ===== src/Isa/Conv.antt =====
-- src/isa/conv.rs: conversions between one cell and a pair of cells, the high one on top.
use rwasm.Base.{ℕ, List, [], ◌∷◌}
use rwasm.Types.Opcode.{Opcode}

abbrev pub msh_i32_wrap_i64 : ℕ
msh_i32_wrap_i64 = 0

abbrev pub msh_i64_extend_i32_s : ℕ
msh_i64_extend_i32_s = 2

abbrev pub msh_i64_extend_i32_u : ℕ
msh_i64_extend_i32_u = 1

abbrev pub msh_i64_extend8_s : ℕ
msh_i64_extend8_s = 2

abbrev pub msh_i64_extend16_s : ℕ
msh_i64_extend16_s = 2

abbrev pub msh_i64_extend32_s : ℕ
msh_i64_extend32_s = 2

unfoldable pub op_i32_wrap_i64 : List Opcode
op_i32_wrap_i64 = Opcode.drop ∷ []

unfoldable pub op_i64_extend_i32_s : List Opcode
op_i64_extend_i32_s = Opcode.local_get 1 ∷ Opcode.i32_const 31 ∷ Opcode.i32_shr_s ∷ []

unfoldable pub op_i64_extend_i32_u : List Opcode
op_i64_extend_i32_u = Opcode.i32_const 0 ∷ []

unfoldable pub op_i64_extend8_s : List Opcode
op_i64_extend8_s =
    Opcode.drop
    ∷ Opcode.i32_extend8_s
    ∷ Opcode.local_get 1
    ∷ Opcode.i32_const 31
    ∷ Opcode.i32_shr_s
    ∷ []

unfoldable pub op_i64_extend16_s : List Opcode
op_i64_extend16_s =
    Opcode.drop
    ∷ Opcode.i32_extend16_s
    ∷ Opcode.local_get 1
    ∷ Opcode.i32_const 31
    ∷ Opcode.i32_shr_s
    ∷ []

unfoldable pub op_i64_extend32_s : List Opcode
op_i64_extend32_s = Opcode.drop ∷ Opcode.local_get 1 ∷ Opcode.i32_const 31 ∷ Opcode.i32_shr_s ∷ []
