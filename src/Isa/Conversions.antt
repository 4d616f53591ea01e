-- ===== src/Isa/Conversions.antt =====
-- What the conversions of src/isa/conv.rs compute.
use mathlib.Core.Path.{subst}
use rwasm.Base.{ℕ, ◌/◌, ◌%◌, ◌^◌, ◌≡◌, ◌<◌, refl, [], ◌∷◌, arith}
use rwasm.Types.UntypedValue.{i32_shr_s, i32_extend8_s, i32_extend16_s}
use rwasm.Isa.Block.{local_run}
use rwasm.Isa.Words.{Computes, cells64, sign_extend}
use rwasm.Isa.Conv.{
  op_i64_extend_i32_s, op_i64_extend_i32_u, op_i64_extend8_s, op_i64_extend16_s, op_i64_extend32_s,
  msh_i64_extend_i32_s, msh_i64_extend_i32_u, msh_i64_extend8_s, msh_i64_extend16_s,
  msh_i64_extend32_s,
}

-- The high cell of a number is the sign of its low cell.
signed_cells : (w : ℕ) → w < 2 ^ 32 → i32_shr_s w 31 ∷ w ∷ [] ≡ cells64 (sign_extend 32 w)
unfolding i32_shr_s
signed_cells w p = ground arith

extend8_s_cells :
    (a b : ℕ)
    → Computes op_i64_extend8_s msh_i64_extend8_s
        (b ∷ a ∷ [])
        (i32_shr_s (i32_extend8_s a) 31 ∷ (i32_extend8_s a) ∷ [])
unfolding op_i64_extend8_s local_run
extend8_s_cells a b = record { computes = λ rest r m. record { rounds = 5; runs = refl } }

wide_extend8_s :
    (x : ℕ)
    → x < 2 ^ 64
    → i32_shr_s (i32_extend8_s (x % 2 ^ 32)) 31 ∷ (i32_extend8_s (x % 2 ^ 32)) ∷ []
      ≡ cells64 (sign_extend 8 x)
unfolding i32_shr_s i32_extend8_s
wide_extend8_s x p = ground arith

-- On a 64-bit operand, `op_i64_extend8_s` leaves its lowest 8 bits sign-extended to 64 bits, with
-- at most `msh_i64_extend8_s` free cells.
pub op_i64_extend8_s_lem :
    (x : ℕ)
    → x < 2 ^ 64
    → Computes op_i64_extend8_s msh_i64_extend8_s (cells64 x) (cells64 (sign_extend 8 x))
op_i64_extend8_s_lem x p =
    subst (λ cells. Computes op_i64_extend8_s msh_i64_extend8_s (cells64 x) cells)
      (wide_extend8_s x p) (extend8_s_cells (x % 2 ^ 32) (x / 2 ^ 32 % 2 ^ 32))

extend16_s_cells :
    (a b : ℕ)
    → Computes op_i64_extend16_s msh_i64_extend16_s
        (b ∷ a ∷ [])
        (i32_shr_s (i32_extend16_s a) 31 ∷ (i32_extend16_s a) ∷ [])
unfolding op_i64_extend16_s local_run
extend16_s_cells a b = record { computes = λ rest r m. record { rounds = 5; runs = refl } }

wide_extend16_s :
    (x : ℕ)
    → x < 2 ^ 64
    → i32_shr_s (i32_extend16_s (x % 2 ^ 32)) 31 ∷ (i32_extend16_s (x % 2 ^ 32)) ∷ []
      ≡ cells64 (sign_extend 16 x)
unfolding i32_shr_s i32_extend16_s
wide_extend16_s x p = ground arith

-- On a 64-bit operand, `op_i64_extend16_s` leaves its lowest 16 bits sign-extended to 64 bits, with
-- at most `msh_i64_extend16_s` free cells.
pub op_i64_extend16_s_lem :
    (x : ℕ)
    → x < 2 ^ 64
    → Computes op_i64_extend16_s msh_i64_extend16_s (cells64 x) (cells64 (sign_extend 16 x))
op_i64_extend16_s_lem x p =
    subst (λ cells. Computes op_i64_extend16_s msh_i64_extend16_s (cells64 x) cells)
      (wide_extend16_s x p) (extend16_s_cells (x % 2 ^ 32) (x / 2 ^ 32 % 2 ^ 32))

extend32_s_cells :
    (a b : ℕ) → Computes op_i64_extend32_s msh_i64_extend32_s (b ∷ a ∷ []) (i32_shr_s a 31 ∷ a ∷ [])
unfolding op_i64_extend32_s local_run
extend32_s_cells a b = record { computes = λ rest r m. record { rounds = 4; runs = refl } }

wide_extend32_s :
    (x : ℕ) → x < 2 ^ 64 → i32_shr_s (x % 2 ^ 32) 31 ∷ x % 2 ^ 32 ∷ [] ≡ cells64 (sign_extend 32 x)
unfolding i32_shr_s
wide_extend32_s x p = ground arith

-- On a 64-bit operand, `op_i64_extend32_s` leaves its lowest 32 bits sign-extended to 64 bits, with
-- at most `msh_i64_extend32_s` free cells.
pub op_i64_extend32_s_lem :
    (x : ℕ)
    → x < 2 ^ 64
    → Computes op_i64_extend32_s msh_i64_extend32_s (cells64 x) (cells64 (sign_extend 32 x))
op_i64_extend32_s_lem x p =
    subst (λ cells. Computes op_i64_extend32_s msh_i64_extend32_s (cells64 x) cells)
      (wide_extend32_s x p) (extend32_s_cells (x % 2 ^ 32) (x / 2 ^ 32 % 2 ^ 32))

extend_i32_s_cells :
    (w : ℕ) → Computes op_i64_extend_i32_s msh_i64_extend_i32_s (w ∷ []) (i32_shr_s w 31 ∷ w ∷ [])
unfolding op_i64_extend_i32_s local_run
extend_i32_s_cells w = record { computes = λ rest r m. record { rounds = 3; runs = refl } }

-- On a 32-bit operand, `op_i64_extend_i32_s` leaves it sign-extended to 64 bits.
pub op_i64_extend_i32_s_lem :
    (w : ℕ)
    → w < 2 ^ 32
    → Computes op_i64_extend_i32_s msh_i64_extend_i32_s (w ∷ []) (cells64 (sign_extend 32 w))
op_i64_extend_i32_s_lem w p =
    subst (λ cells. Computes op_i64_extend_i32_s msh_i64_extend_i32_s (w ∷ []) cells)
      (signed_cells w p) (extend_i32_s_cells w)

extend_i32_u_cells :
    (w : ℕ) → Computes op_i64_extend_i32_u msh_i64_extend_i32_u (w ∷ []) (0 ∷ w ∷ [])
unfolding op_i64_extend_i32_u local_run
extend_i32_u_cells w = record { computes = λ rest r m. record { rounds = 1; runs = refl } }

unsigned_cells : (w : ℕ) → w < 2 ^ 32 → 0 ∷ w ∷ [] ≡ cells64 w
unsigned_cells w p = ground arith

-- On a 32-bit operand, `op_i64_extend_i32_u` leaves the same number in 64 bits.
pub op_i64_extend_i32_u_lem :
    (w : ℕ) → w < 2 ^ 32 → Computes op_i64_extend_i32_u msh_i64_extend_i32_u (w ∷ []) (cells64 w)
op_i64_extend_i32_u_lem w p =
    subst (λ cells. Computes op_i64_extend_i32_u msh_i64_extend_i32_u (w ∷ []) cells)
      (unsigned_cells w p) (extend_i32_u_cells w)

-- On a 64-bit operand, `op_i64_extend8_s`, `op_i64_extend16_s` and `op_i64_extend32_s` leave its
-- lowest 8, 16 and 32 bits sign-extended to 64 bits, with at most their `msh` of free cells.
pub extensions_lem :
    (x : ℕ)
    → x < 2 ^ 64
    → Computes op_i64_extend8_s msh_i64_extend8_s (cells64 x) (cells64 (sign_extend 8 x))
      × Computes op_i64_extend16_s msh_i64_extend16_s (cells64 x) (cells64 (sign_extend 16 x))
      × Computes op_i64_extend32_s msh_i64_extend32_s (cells64 x) (cells64 (sign_extend 32 x))
extensions_lem x p =
    (op_i64_extend8_s_lem x p, op_i64_extend16_s_lem x p, op_i64_extend32_s_lem x p)

-- On a 32-bit operand, `op_i64_extend_i32_s` leaves it sign-extended to 64 bits and
-- `op_i64_extend_i32_u` leaves the same number in 64 bits, with at most their `msh` of free cells.
pub widening_lem :
    (w : ℕ)
    → w < 2 ^ 32
    → Computes op_i64_extend_i32_s msh_i64_extend_i32_s (w ∷ []) (cells64 (sign_extend 32 w))
      × Computes op_i64_extend_i32_u msh_i64_extend_i32_u (w ∷ []) (cells64 w)
widening_lem w p = (op_i64_extend_i32_s_lem w p, op_i64_extend_i32_u_lem w p)
