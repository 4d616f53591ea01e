-- ===== src/Isa/Logic.antt =====
-- What the bitwise operations of src/isa/bitwise.rs compute.
use mathlib.Core.Path.{subst}
use rwasm.Base.{
  ℕ, ◌+◌, ◌*◌, ◌/◌, ◌%◌, ◌^◌, ◌≡◌, ◌<◌, ap, ◌∙◌, sym, refl, [], ◌∷◌, ◌++◌, arith, bit_and, bit_or,
  bit_xor,
}
use rwasm.Base.Bits.{
  bit_and_split, bit_or_split, bit_xor_split, bit_and_comm, bit_or_comm, bit_xor_comm,
  bit_and_bound, bit_or_bound, bit_xor_bound,
}
use rwasm.Types.UntypedValue.{i32_and, i32_or, i32_xor}
use rwasm.Isa.Block.{local_run}
use rwasm.Isa.Words.{Computes, cells64}
use rwasm.Isa.Bitwise.{op_i64_and, op_i64_or, op_i64_xor, msh_i64_and, msh_i64_or, msh_i64_xor}

-- A number whose parts are computed apart.
parts : (z hi lo : ℕ) → hi < 2 ^ 32 → lo < 2 ^ 32 → z ≡ hi * 2 ^ 32 + lo → hi ∷ lo ∷ [] ≡ cells64 z
parts z hi lo p q e = ground arith

rejoin : (x : ℕ) → x < 2 ^ 64 → x / 2 ^ 32 % 2 ^ 32 * 2 ^ 32 + x % 2 ^ 32 ≡ x
rejoin x p = omega arith

and_cells :
    (a b c d : ℕ)
    → Computes op_i64_and msh_i64_and (d ∷ c ∷ b ∷ a ∷ []) (i32_and d b ∷ i32_and c a ∷ [])
unfolding op_i64_and local_run
and_cells a b c d = record { computes = λ rest r m. record { rounds = 6; runs = refl } }

wide_and :
    (x y : ℕ)
    → x < 2 ^ 64
    → y < 2 ^ 64
    → i32_and (y / 2 ^ 32 % 2 ^ 32) (x / 2 ^ 32 % 2 ^ 32) ∷ i32_and (y % 2 ^ 32) (x % 2 ^ 32) ∷ []
      ≡ cells64 (bit_and x y)
unfolding i32_and
wide_and x y p q =
    parts (bit_and x y) (bit_and (y / 2 ^ 32 % 2 ^ 32) (x / 2 ^ 32 % 2 ^ 32))
      (bit_and (y % 2 ^ 32) (x % 2 ^ 32))
      (bit_and_bound 32 (y / 2 ^ 32 % 2 ^ 32) (x / 2 ^ 32 % 2 ^ 32) (omega arith) (omega arith))
      (bit_and_bound 32 (y % 2 ^ 32) (x % 2 ^ 32) (omega arith) (omega arith))
      (bit_and_comm x y
        ∙ sym (ap (λ t. bit_and t x) (rejoin y q))
        ∙ sym (ap (λ t. bit_and (y / 2 ^ 32 % 2 ^ 32 * 2 ^ 32 + y % 2 ^ 32) t) (rejoin x p))
        ∙ bit_and_split 32 (y / 2 ^ 32 % 2 ^ 32) (y % 2 ^ 32) (x / 2 ^ 32 % 2 ^ 32) (x % 2 ^ 32)
            (omega arith) (omega arith))

-- On two 64-bit operands, `op_i64_and` leaves their bitwise conjunction in their place, with
-- at most `msh_i64_and` free cells.
pub op_i64_and_lem :
    (x y : ℕ)
    → x < 2 ^ 64
    → y < 2 ^ 64
    → Computes op_i64_and msh_i64_and (cells64 y ++ cells64 x) (cells64 (bit_and x y))
op_i64_and_lem x y p q =
    subst (λ cells. Computes op_i64_and msh_i64_and (cells64 y ++ cells64 x) cells)
      (wide_and x y p q)
      (and_cells (x % 2 ^ 32) (x / 2 ^ 32 % 2 ^ 32) (y % 2 ^ 32) (y / 2 ^ 32 % 2 ^ 32))

or_cells :
    (a b c d : ℕ)
    → Computes op_i64_or msh_i64_or (d ∷ c ∷ b ∷ a ∷ []) (i32_or d b ∷ i32_or c a ∷ [])
unfolding op_i64_or local_run
or_cells a b c d = record { computes = λ rest r m. record { rounds = 6; runs = refl } }

wide_or :
    (x y : ℕ)
    → x < 2 ^ 64
    → y < 2 ^ 64
    → i32_or (y / 2 ^ 32 % 2 ^ 32) (x / 2 ^ 32 % 2 ^ 32) ∷ i32_or (y % 2 ^ 32) (x % 2 ^ 32) ∷ []
      ≡ cells64 (bit_or x y)
unfolding i32_or
wide_or x y p q =
    parts (bit_or x y) (bit_or (y / 2 ^ 32 % 2 ^ 32) (x / 2 ^ 32 % 2 ^ 32))
      (bit_or (y % 2 ^ 32) (x % 2 ^ 32))
      (bit_or_bound 32 (y / 2 ^ 32 % 2 ^ 32) (x / 2 ^ 32 % 2 ^ 32) (omega arith) (omega arith))
      (bit_or_bound 32 (y % 2 ^ 32) (x % 2 ^ 32) (omega arith) (omega arith))
      (bit_or_comm x y
        ∙ sym (ap (λ t. bit_or t x) (rejoin y q))
        ∙ sym (ap (λ t. bit_or (y / 2 ^ 32 % 2 ^ 32 * 2 ^ 32 + y % 2 ^ 32) t) (rejoin x p))
        ∙ bit_or_split 32 (y / 2 ^ 32 % 2 ^ 32) (y % 2 ^ 32) (x / 2 ^ 32 % 2 ^ 32) (x % 2 ^ 32)
            (omega arith) (omega arith))

-- On two 64-bit operands, `op_i64_or` leaves their bitwise disjunction in their place, with
-- at most `msh_i64_or` free cells.
pub op_i64_or_lem :
    (x y : ℕ)
    → x < 2 ^ 64
    → y < 2 ^ 64
    → Computes op_i64_or msh_i64_or (cells64 y ++ cells64 x) (cells64 (bit_or x y))
op_i64_or_lem x y p q =
    subst (λ cells. Computes op_i64_or msh_i64_or (cells64 y ++ cells64 x) cells) (wide_or x y p q)
      (or_cells (x % 2 ^ 32) (x / 2 ^ 32 % 2 ^ 32) (y % 2 ^ 32) (y / 2 ^ 32 % 2 ^ 32))

xor_cells :
    (a b c d : ℕ)
    → Computes op_i64_xor msh_i64_xor (d ∷ c ∷ b ∷ a ∷ []) (i32_xor d b ∷ i32_xor c a ∷ [])
unfolding op_i64_xor local_run
xor_cells a b c d = record { computes = λ rest r m. record { rounds = 6; runs = refl } }

wide_xor :
    (x y : ℕ)
    → x < 2 ^ 64
    → y < 2 ^ 64
    → i32_xor (y / 2 ^ 32 % 2 ^ 32) (x / 2 ^ 32 % 2 ^ 32) ∷ i32_xor (y % 2 ^ 32) (x % 2 ^ 32) ∷ []
      ≡ cells64 (bit_xor x y)
unfolding i32_xor
wide_xor x y p q =
    parts (bit_xor x y) (bit_xor (y / 2 ^ 32 % 2 ^ 32) (x / 2 ^ 32 % 2 ^ 32))
      (bit_xor (y % 2 ^ 32) (x % 2 ^ 32))
      (bit_xor_bound 32 (y / 2 ^ 32 % 2 ^ 32) (x / 2 ^ 32 % 2 ^ 32) (omega arith) (omega arith))
      (bit_xor_bound 32 (y % 2 ^ 32) (x % 2 ^ 32) (omega arith) (omega arith))
      (bit_xor_comm x y
        ∙ sym (ap (λ t. bit_xor t x) (rejoin y q))
        ∙ sym (ap (λ t. bit_xor (y / 2 ^ 32 % 2 ^ 32 * 2 ^ 32 + y % 2 ^ 32) t) (rejoin x p))
        ∙ bit_xor_split 32 (y / 2 ^ 32 % 2 ^ 32) (y % 2 ^ 32) (x / 2 ^ 32 % 2 ^ 32) (x % 2 ^ 32)
            (omega arith) (omega arith))

-- On two 64-bit operands, `op_i64_xor` leaves their bitwise exclusive disjunction in their place, with
-- at most `msh_i64_xor` free cells.
pub op_i64_xor_lem :
    (x y : ℕ)
    → x < 2 ^ 64
    → y < 2 ^ 64
    → Computes op_i64_xor msh_i64_xor (cells64 y ++ cells64 x) (cells64 (bit_xor x y))
op_i64_xor_lem x y p q =
    subst (λ cells. Computes op_i64_xor msh_i64_xor (cells64 y ++ cells64 x) cells)
      (wide_xor x y p q)
      (xor_cells (x % 2 ^ 32) (x / 2 ^ 32 % 2 ^ 32) (y % 2 ^ 32) (y / 2 ^ 32 % 2 ^ 32))

-- On two 64-bit operands, `op_i64_and`, `op_i64_or` and `op_i64_xor` leave their bitwise
-- conjunction, disjunction and exclusive disjunction, with at most their `msh` of free cells.
pub logic_lem :
    (x y : ℕ)
    → x < 2 ^ 64
    → y < 2 ^ 64
    → Computes op_i64_and msh_i64_and (cells64 y ++ cells64 x) (cells64 (bit_and x y))
      × Computes op_i64_or msh_i64_or (cells64 y ++ cells64 x) (cells64 (bit_or x y))
      × Computes op_i64_xor msh_i64_xor (cells64 y ++ cells64 x) (cells64 (bit_xor x y))
logic_lem x y p q = (op_i64_and_lem x y p q, op_i64_or_lem x y p q, op_i64_xor_lem x y p q)
