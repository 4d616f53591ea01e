-- ===== src/Isa/Mul.antt =====
-- src/isa/mul.rs: 64-bit products on pairs of 32-bit cells, the high one on top.
use rwasm.Base.{ℕ, List, [], ◌∷◌}
use rwasm.Types.Opcode.{Opcode}

abbrev pub msh_i64_mul : ℕ
msh_i64_mul = 5

unfoldable pub op_i64_mul : List Opcode
op_i64_mul =
    Opcode.local_get 2
    ∷ Opcode.local_get 5
    ∷ Opcode.i32_mul64
    ∷ Opcode.local_get 3
    ∷ Opcode.local_get 7
    ∷ Opcode.i32_mul
    ∷ Opcode.local_get 5
    ∷ Opcode.local_get 7
    ∷ Opcode.i32_mul
    ∷ Opcode.i32_add
    ∷ Opcode.i32_add
    ∷ Opcode.local_set 4
    ∷ Opcode.local_set 4
    ∷ Opcode.drop
    ∷ Opcode.drop
    ∷ []
