-- ===== src/Isa/Arithmetic.antt =====
-- What the sequences of src/isa/add_sub.rs and src/isa/mul.rs compute.
use mathlib.Core.Path.{subst}
use rwasm.Base.{ap, ◌∙◌, ℕ, ◌+◌, ◌-◌, ◌*◌, ◌/◌, ◌%◌, ◌^◌, ◌≡◌, ◌<◌, refl, sym, [], ◌∷◌, ◌++◌, arith}
use rwasm.Types.UntypedValue.{i32_add, i32_sub, i32_mul, i32_lt_u}
use rwasm.Isa.Block.{local_run}
use rwasm.Isa.Words.{Computes, cells64}
use rwasm.Isa.AddSub.{op_i64_add, msh_i64_add, op_i64_sub, msh_i64_sub}
use rwasm.Isa.Mul.{op_i64_mul, msh_i64_mul}

-- On cells: `a` and `b` are the low and high one of the left operand, `c` and `d` of the right.
add_cells :
    (a b c d : ℕ)
    → Computes op_i64_add msh_i64_add (d ∷ c ∷ b ∷ a ∷ []) (
        i32_add ((a + c) % 2 ^ 64 / 2 ^ 32 % 2 ^ 32) (i32_add b d) ∷ (a + c) % 2 ^ 64 % 2 ^ 32 ∷ [])
unfolding op_i64_add local_run
add_cells a b c d = record { computes = λ rest r m. record { rounds = 11; runs = refl } }

sub_cells :
    (a b c d : ℕ)
    → Computes op_i64_sub msh_i64_sub
        (d ∷ c ∷ b ∷ a ∷ [])
        (i32_sub (i32_sub b d) (i32_lt_u a c) ∷ i32_sub a c ∷ [])
unfolding op_i64_sub local_run
sub_cells a b c d = record { computes = λ rest r m. record { rounds = 16; runs = refl } }

mul_cells :
    (a b c d : ℕ)
    → Computes op_i64_mul msh_i64_mul (d ∷ c ∷ b ∷ a ∷ []) (
        i32_add (c * a % 2 ^ 64 / 2 ^ 32 % 2 ^ 32) (i32_add (i32_mul d a) (i32_mul c b))
        ∷ c * a % 2 ^ 64 % 2 ^ 32
        ∷ [])
unfolding op_i64_mul local_run
mul_cells a b c d = record { computes = λ rest r m. record { rounds = 15; runs = refl } }

wide_sum :
    (x y : ℕ)
    → x < 2 ^ 64
    → y < 2 ^ 64
    → i32_add
          ((x % 2 ^ 32 + y % 2 ^ 32) % 2 ^ 64 / 2 ^ 32 % 2 ^ 32)
          (i32_add (x / 2 ^ 32 % 2 ^ 32) (y / 2 ^ 32 % 2 ^ 32))
        ∷ (x % 2 ^ 32 + y % 2 ^ 32) % 2 ^ 64 % 2 ^ 32
        ∷ []
      ≡ cells64 ((x + y) % 2 ^ 64)
unfolding i32_add
wide_sum x y p q = ground arith

wide_difference :
    (x y : ℕ)
    → x < 2 ^ 64
    → y < 2 ^ 64
    → i32_sub
          (i32_sub (x / 2 ^ 32 % 2 ^ 32) (y / 2 ^ 32 % 2 ^ 32))
          (i32_lt_u (x % 2 ^ 32) (y % 2 ^ 32))
        ∷ i32_sub (x % 2 ^ 32) (y % 2 ^ 32)
        ∷ []
      ≡ cells64 ((x + 2 ^ 64 - y) % 2 ^ 64)
unfolding i32_sub i32_lt_u
wide_difference x y p q = ground arith

expand :
    (a b c d : ℕ)
    → (b * 2 ^ 32 + a) * (d * 2 ^ 32 + c) ≡ b * d * 2 ^ 64 + (d * a + c * b) * 2 ^ 32 + c * a
expand a b c d = omega arith

product_cells :
    (a b c d : ℕ)
    → a < 2 ^ 32
    → c < 2 ^ 32
    → i32_add (c * a % 2 ^ 64 / 2 ^ 32 % 2 ^ 32) (i32_add (i32_mul d a) (i32_mul c b))
        ∷ c * a % 2 ^ 64 % 2 ^ 32
        ∷ []
      ≡ cells64 ((b * d * 2 ^ 64 + (d * a + c * b) * 2 ^ 32 + c * a) % 2 ^ 64)
unfolding i32_add i32_mul
product_cells a b c d p q = ground arith

wide_product :
    (x y : ℕ)
    → x < 2 ^ 64
    → y < 2 ^ 64
    → i32_add (y % 2 ^ 32 * (x % 2 ^ 32) % 2 ^ 64 / 2 ^ 32 % 2 ^ 32) (
          i32_add
            (i32_mul (y / 2 ^ 32 % 2 ^ 32) (x % 2 ^ 32))
            (i32_mul (y % 2 ^ 32) (x / 2 ^ 32 % 2 ^ 32)))
        ∷ y % 2 ^ 32 * (x % 2 ^ 32) % 2 ^ 64 % 2 ^ 32
        ∷ []
      ≡ cells64 (x * y % 2 ^ 64)
wide_product x y p q =
    let e = expand (x % 2 ^ 32) (x / 2 ^ 32 % 2 ^ 32) (y % 2 ^ 32) (y / 2 ^ 32 % 2 ^ 32) in
    let l : x / 2 ^ 32 % 2 ^ 32 * 2 ^ 32 + x % 2 ^ 32 ≡ x = omega arith in
    let r : y / 2 ^ 32 % 2 ^ 32 * 2 ^ 32 + y % 2 ^ 32 ≡ y = omega arith in
    product_cells (x % 2 ^ 32) (x / 2 ^ 32 % 2 ^ 32) (y % 2 ^ 32) (y / 2 ^ 32 % 2 ^ 32)
      (omega arith) (omega arith)
    ∙ ap (λ t. cells64 (t % 2 ^ 64))
        (sym e ∙ ap (λ t. t * (y / 2 ^ 32 % 2 ^ 32 * 2 ^ 32 + y % 2 ^ 32)) l ∙ ap (λ t. x * t) r)

-- On two 64-bit operands, `op_i64_add` leaves the 64-bit sum, wrapped around, in their place, with at
-- most `msh_i64_add` free cells.
pub op_i64_add_lem :
    (x y : ℕ)
    → x < 2 ^ 64
    → y < 2 ^ 64
    → Computes op_i64_add msh_i64_add (cells64 y ++ cells64 x) (cells64 ((x + y) % 2 ^ 64))
op_i64_add_lem x y p q =
    subst (λ cells. Computes op_i64_add msh_i64_add (cells64 y ++ cells64 x) cells)
      (wide_sum x y p q)
      (add_cells (x % 2 ^ 32) (x / 2 ^ 32 % 2 ^ 32) (y % 2 ^ 32) (y / 2 ^ 32 % 2 ^ 32))

-- On two 64-bit operands, `op_i64_sub` leaves the 64-bit difference, wrapped around, in their place, with at
-- most `msh_i64_sub` free cells.
pub op_i64_sub_lem :
    (x y : ℕ)
    → x < 2 ^ 64
    → y < 2 ^ 64
    → Computes op_i64_sub msh_i64_sub (cells64 y ++ cells64 x) (cells64 ((x + 2 ^ 64 - y) % 2 ^ 64))
op_i64_sub_lem x y p q =
    subst (λ cells. Computes op_i64_sub msh_i64_sub (cells64 y ++ cells64 x) cells)
      (wide_difference x y p q)
      (sub_cells (x % 2 ^ 32) (x / 2 ^ 32 % 2 ^ 32) (y % 2 ^ 32) (y / 2 ^ 32 % 2 ^ 32))

-- On two 64-bit operands, `op_i64_mul` leaves the 64-bit product, wrapped around, in their place, with at
-- most `msh_i64_mul` free cells.
pub op_i64_mul_lem :
    (x y : ℕ)
    → x < 2 ^ 64
    → y < 2 ^ 64
    → Computes op_i64_mul msh_i64_mul (cells64 y ++ cells64 x) (cells64 (x * y % 2 ^ 64))
op_i64_mul_lem x y p q =
    subst (λ cells. Computes op_i64_mul msh_i64_mul (cells64 y ++ cells64 x) cells)
      (wide_product x y p q)
      (mul_cells (x % 2 ^ 32) (x / 2 ^ 32 % 2 ^ 32) (y % 2 ^ 32) (y / 2 ^ 32 % 2 ^ 32))
