-- ===== src/Isa/AddSub.antt =====
-- src/isa/add_sub.rs: 64-bit sums and differences on pairs of 32-bit cells, the high one on top.
use rwasm.Base.{ℕ, List, [], ◌∷◌}
use rwasm.Types.Opcode.{Opcode}

abbrev pub msh_i64_add : ℕ
msh_i64_add = 4

abbrev pub msh_i64_sub : ℕ
msh_i64_sub = 8

unfoldable pub op_i64_add : List Opcode
op_i64_add =
    Opcode.local_get 4
    ∷ Opcode.local_get 3
    ∷ Opcode.i32_add64
    ∷ Opcode.local_get 5
    ∷ Opcode.local_get 4
    ∷ Opcode.i32_add
    ∷ Opcode.i32_add
    ∷ Opcode.local_set 4
    ∷ Opcode.local_set 4
    ∷ Opcode.drop
    ∷ Opcode.drop
    ∷ []

unfoldable pub op_i64_sub : List Opcode
op_i64_sub =
    Opcode.local_get 4
    ∷ Opcode.local_get 3
    ∷ Opcode.i32_sub
    ∷ Opcode.local_get 5
    ∷ Opcode.local_get 4
    ∷ Opcode.i32_lt_u
    ∷ Opcode.local_get 5
    ∷ Opcode.local_get 4
    ∷ Opcode.i32_sub
    ∷ Opcode.local_get 2
    ∷ Opcode.i32_sub
    ∷ Opcode.local_set 5
    ∷ Opcode.drop
    ∷ Opcode.local_set 4
    ∷ Opcode.drop
    ∷ Opcode.drop
    ∷ []
