-- ===== src/Isa/Shifts.antt =====
-- What the left shift of src/isa/bitwise.rs computes: one of four ways through it, by the distance.
use mathlib.Core.Path.{subst}
use native.Mathlib.Nat
use rwasm.Base.{
  ℕ, suc, ◌+◌, ◌-◌, ◌*◌, ◌/◌, ◌%◌, ◌^◌, ◌≡◌, ◌<◌, ◌≤◌, refl, sym, ap, ◌∙◌, List, [], ◌∷◌, ◌++◌,
  arith, bit_and, bit_or, ltb, ◌==◌, true, false, inl, inr, Bool-cases,
}
use rwasm.Base.Bits.{bit_and-mask, bit_or-zero, zero-bit_or, bit_or-add}
use rwasm.Types.UntypedValue as U
use rwasm.Isa.Block.{local_run}
use rwasm.Isa.Words.{Computes, cells64}
use rwasm.Isa.Counts.{pow_add}
use rwasm.Isa.Bitwise.Shl.{op_i64_shl, msh_i64_shl}

module _ (a b c d : ℕ) where
  shl_none :
      bit_and c 63 ≡ 0
      → Computes op_i64_shl msh_i64_shl
          (d ∷ c ∷ b ∷ a ∷ [])
          (U.i32_or 0 (U.i32_shl b 0) ∷ U.i32_or a 0 ∷ [])
  unfolding op_i64_shl local_run U.i32_and U.i32_gt_u U.i32_sub
  shl_none h = record { computes = λ rest r m. record { rounds = 49; runs = rw h refl } }

  shl_cell :
      bit_and c 63 ≡ 32
      → Computes op_i64_shl msh_i64_shl (d ∷ c ∷ b ∷ a ∷ []) (U.i32_or 0 (U.i32_shl a 0) ∷ 0 ∷ [])
  unfolding op_i64_shl local_run U.i32_and U.i32_gt_u U.i32_eq U.i32_sub U.i32_or
  shl_cell h = record { computes = λ rest r m. record { rounds = 54; runs = rw h refl } }

  module _ (k : ℕ) (h : bit_and c 63 ≡ k) (z : (k == 0) ≡ false) (q : (k == 32) ≡ false) where
    shl_low :
        ltb ((k + 4294967295) % 2 ^ 32) 31 ≡ true
        → Computes op_i64_shl msh_i64_shl (d ∷ c ∷ b ∷ a ∷ []) (
            U.i32_or 0 (U.i32_shl (U.i32_or (U.i32_shl b c) (U.i32_shr_u a (U.i32_sub 0 c))) 0)
            ∷ U.i32_or (U.i32_shl a c) 0
            ∷ [])
    unfolding op_i64_shl local_run U.i32_and U.i32_gt_u U.i32_lt_u U.i32_eq U.i32_add U.i32_sub
    shl_low s = record {
      computes = λ rest r m. record { rounds = 71; runs = rw (h, z, q, s) refl };
    }

    shl_high :
        ltb ((k + 4294967295) % 2 ^ 32) 31 ≡ false
        → ltb 32 k ≡ true
        → Computes op_i64_shl msh_i64_shl
            (d ∷ c ∷ b ∷ a ∷ [])
            (U.i32_or 0 (U.i32_shl (U.i32_shl a c) 0) ∷ 0 ∷ [])
    unfolding op_i64_shl local_run U.i32_and U.i32_gt_u U.i32_lt_u U.i32_eq U.i32_add U.i32_sub
        U.i32_or
    shl_high s t = record {
      computes = λ rest r m. record { rounds = 67; runs = rw (h, z, q, s, t) refl };
    }

pub shl_mod : (a c : ℕ) → U.i32_shl a c ≡ a * 2 ^ (c % 32) % 2 ^ 32
unfolding U.i32_shl
shl_mod a c = ap (λ k. a * 2 ^ k % 2 ^ 32) (bit_and-mask 5 c)

pub shr_mod : (a c : ℕ) → U.i32_shr_u a c ≡ a / 2 ^ (c % 32)
unfolding U.i32_shr_u
shr_mod a c = ap (λ k. a / 2 ^ k) (bit_and-mask 5 c)

pub or_zero : (a : ℕ) → U.i32_or a 0 ≡ a
unfolding U.i32_or
or_zero a = bit_or-zero a

zero_or : (a : ℕ) → U.i32_or 0 a ≡ a
unfolding U.i32_or
zero_or a = zero-bit_or a

pub shl_zero : (a : ℕ) → U.i32_or 0 (U.i32_shl a 0) ≡ a % 2 ^ 32
shl_zero a = rw (zero_or, shl_mod) (omega arith)

-- A number times `P`, in cells: what goes over into the next cell is its part above `Q`.
module _ (P Q : ℕ) (e : Q * P ≡ 2 ^ 32) (pos : 0 < Q) where
  pub shifted_out : (a : ℕ) → a * P ≡ a / Q * 2 ^ 32 + a % Q * P
  shifted_out a =
      ap (λ t. t * P) (sym (Nat.div-add-mod' a Q))
      ∙ (Nat.add-mul (a / Q * Q) (a % Q) P
          ∙ ap (λ (t : ℕ). t + a % Q * P) (Nat.mul_assoc (a / Q) Q P ∙ ap (λ (t : ℕ). a / Q * t) e))

  pub shifted_in : (a : ℕ) → a % Q * P + P ≤ 2 ^ 32
  shifted_in a =
      omega (
        arith,
        e,
        Nat.mul-le-mul_right {m = suc (a % Q)} P (Nat.mod-lt a pos),
        Nat.suc-mul (a % Q) P,
      )

  pub carried : (a : ℕ) → a < 2 ^ 32 → a / Q < P
  carried a p = (Nat.div-lt_iff_lt-mul pos).1 (omega (arith, e, Nat.mul_comm P Q))

product : (b a P : ℕ) → (b * 2 ^ 32 + a) * P ≡ b * P * 2 ^ 32 + a * P
product b a P =
    Nat.add-mul (b * 2 ^ 32) a P ∙ ap (λ (t : ℕ). t + a * P) (Nat.mul_right_comm b (2 ^ 32) P)

module _ (k : ℕ) (a b : ℕ) (p : a < 2 ^ 32) (q : b < 2 ^ 32) (small : k ≤ 31) where
  pub powers : 2 ^ (32 - k) * 2 ^ k ≡ 2 ^ 32
  powers = sym (pow_add (32 - k) k) ∙ ap (λ (n : ℕ). 2 ^ n) {y = 32} (omega arith)

  low_cells :
      (bit_or (b * 2 ^ k % 2 ^ 32) (a / 2 ^ (32 - k))) % 2 ^ 32 ∷ a * 2 ^ k % 2 ^ 32 ∷ []
      ≡ cells64 ((b * 2 ^ 32 + a) * 2 ^ k % 2 ^ 64)
  low_cells =
      let above : 0 < 2 ^ (32 - k) = Nat.one-le-pow (32 - k) 2 (omega arith) in
      let positive : 0 < 2 ^ k = Nat.one-le-pow k 2 (omega arith) in
      let top : b * 2 ^ k % 2 ^ 32 ≡ b % 2 ^ (32 - k) * 2 ^ k = omega (
        arith,
        positive,
        shifted_out (2 ^ k) (2 ^ (32 - k)) powers above b,
        shifted_in (2 ^ k) (2 ^ (32 - k)) powers above b,
      ) in
      let joined : bit_or (b * 2 ^ k % 2 ^ 32) (a / 2 ^ (32 - k))
          ≡ b % 2 ^ (32 - k) * 2 ^ k + a / 2 ^ (32 - k) =
        ap (λ t. bit_or t (a / 2 ^ (32 - k))) top
        ∙ bit_or-add k (b % 2 ^ (32 - k)) (a / 2 ^ (32 - k))
            (carried (2 ^ k) (2 ^ (32 - k)) powers above a p) in
      let z : (b * 2 ^ 32 + a) * 2 ^ k ≡ b * 2 ^ k * 2 ^ 32 + a * 2 ^ k = product b a (2 ^ k) in
      let hi : bit_or (b * 2 ^ k % 2 ^ 32) (a / 2 ^ (32 - k)) % 2 ^ 32
          ≡ (b * 2 ^ 32 + a) * 2 ^ k % 2 ^ 64 / 2 ^ 32 % 2 ^ 32 =
        omega (
          arith,
          joined,
          top,
          z,
          positive,
          shifted_out (2 ^ k) (2 ^ (32 - k)) powers above a,
          shifted_in (2 ^ k) (2 ^ (32 - k)) powers above a,
        ) in
      let lo : a * 2 ^ k % 2 ^ 32 ≡ (b * 2 ^ 32 + a) * 2 ^ k % 2 ^ 64 % 2 ^ 32 = omega (arith, z) in
      ap (λ t. t ∷ a * 2 ^ k % 2 ^ 32 ∷ []) hi
      ∙ ap (λ t. (b * 2 ^ 32 + a) * 2 ^ k % 2 ^ 64 / 2 ^ 32 % 2 ^ 32 ∷ t ∷ []) lo

  high_cells :
      a * 2 ^ k % 2 ^ 32 % 2 ^ 32 ∷ 0 ∷ [] ≡ cells64 ((b * 2 ^ 32 + a) * 2 ^ (k + 32) % 2 ^ 64)
  high_cells =
      let z : (b * 2 ^ 32 + a) * 2 ^ (k + 32) ≡ (b * 2 ^ k * 2 ^ 32 + a * 2 ^ k) * 2 ^ 32 =
        ap (λ (t : ℕ). (b * 2 ^ 32 + a) * t) (pow_add k 32)
        ∙ (sym (Nat.mul_assoc (b * 2 ^ 32 + a) (2 ^ k) (2 ^ 32))
            ∙ ap (λ (t : ℕ). t * 2 ^ 32) (product b a (2 ^ k))) in
      let hi : a * 2 ^ k % 2 ^ 32 % 2 ^ 32
          ≡ (b * 2 ^ 32 + a) * 2 ^ (k + 32) % 2 ^ 64 / 2 ^ 32 % 2 ^ 32 =
        omega (arith, z) in
      let lo : 0 ≡ (b * 2 ^ 32 + a) * 2 ^ (k + 32) % 2 ^ 64 % 2 ^ 32 = omega (arith, z) in
      ap (λ t. t ∷ 0 ∷ []) hi
      ∙ ap (λ t. (b * 2 ^ 32 + a) * 2 ^ (k + 32) % 2 ^ 64 / 2 ^ 32 % 2 ^ 32 ∷ t ∷ []) lo

module _ (x y : ℕ) (p : x < 2 ^ 64) (q : y < 2 ^ 64) where
  rejoin : x / 2 ^ 32 % 2 ^ 32 * 2 ^ 32 + x % 2 ^ 32 ≡ x
  rejoin = omega arith

  distance : bit_and (y % 2 ^ 32) 63 ≡ y % 64
  distance = bit_and-mask 6 (y % 2 ^ 32) ∙ omega arith

  far : (y % 64 == 0) ≡ false → y % 64 < 32 → U.i32_sub 0 (y % 2 ^ 32) % 32 ≡ 32 - y % 64
  unfolding U.i32_sub
  far z l = ground arith

  whole :
      (n : ℕ)
      → cells64 ((x / 2 ^ 32 % 2 ^ 32 * 2 ^ 32 + x % 2 ^ 32) * 2 ^ n % 2 ^ 64)
        ≡ cells64 (x * 2 ^ n % 2 ^ 64)
  whole n = ap (λ t. cells64 (t * 2 ^ n % 2 ^ 64)) rejoin

  module _ {cells : List ℕ} (n : ℕ) (e : cells ≡ cells64 (x * 2 ^ n % 2 ^ 64))
      (at : n ≡ y % 64) where
    ends :
        Computes op_i64_shl msh_i64_shl (cells64 y ++ cells64 x) cells
        → Computes op_i64_shl msh_i64_shl
            (cells64 y ++ cells64 x)
            (cells64 (x * 2 ^ (y % 64) % 2 ^ 64))
    ends run =
        subst (λ cells. Computes op_i64_shl msh_i64_shl (cells64 y ++ cells64 x) cells)
          (e ∙ ap (λ n. cells64 (x * 2 ^ n % 2 ^ 64)) at) run

  abbrev a : ℕ
  a = x % 2 ^ 32

  abbrev b : ℕ
  b = x / 2 ^ 32 % 2 ^ 32

  abbrev c : ℕ
  c = y % 2 ^ 32

  abbrev d : ℕ
  d = y / 2 ^ 32 % 2 ^ 32

  none_cells : U.i32_or 0 (U.i32_shl b 0) ∷ U.i32_or a 0 ∷ [] ≡ cells64 (x * 2 ^ 0 % 2 ^ 64)
  none_cells = rw (shl_zero, or_zero) (ground arith)

  cell_cells : U.i32_or 0 (U.i32_shl a 0) ∷ 0 ∷ [] ≡ cells64 (x * 2 ^ 32 % 2 ^ 64)
  cell_cells = rw shl_zero (ground arith)

  low_result :
      (y % 64 == 0) ≡ false
      → y % 64 < 32
      → U.i32_or 0 (U.i32_shl (U.i32_or (U.i32_shl b c) (U.i32_shr_u a (U.i32_sub 0 c))) 0)
          ∷ U.i32_or (U.i32_shl a c) 0
          ∷ []
        ≡ cells64 (x * 2 ^ (y % 64) % 2 ^ 64)
  unfolding U.i32_or
  low_result z l =
      let near : c % 32 ≡ y % 64 = omega arith in
      rw (shl_zero, or_zero (U.i32_shl a c), shl_mod b c, shl_mod a c, shr_mod, near, far z l)
        (low_cells (y % 64) a b (omega arith) (omega arith) (omega arith) ∙ whole (y % 64))

  high_result :
      32 < y % 64
      → U.i32_or 0 (U.i32_shl (U.i32_shl a c) 0) ∷ 0 ∷ []
        ≡ cells64 (x * 2 ^ (y % 64 - 32 + 32) % 2 ^ 64)
  high_result l =
      let near : c % 32 ≡ y % 64 - 32 = omega arith in
      rw (shl_zero, shl_mod a c, near)
        (high_cells (y % 64 - 32) a b (omega arith) (omega arith) (omega arith)
          ∙ whole (y % 64 - 32 + 32))

  -- On two 64-bit operands, `op_i64_shl` leaves the first one shifted to the left, by the second one
  -- taken at 64, and wrapped at 64 bits, with at most `msh_i64_shl` free cells.
  pub op_i64_shl_lem :
      Computes op_i64_shl msh_i64_shl (cells64 y ++ cells64 x) (cells64 (x * 2 ^ (y % 64) % 2 ^ 64))
  op_i64_shl_lem = elim (Bool-cases (y % 64 == 0)) [
    | inl z ↦ ends 0 none_cells (ground arith) (shl_none a b c d (distance ∙ ground arith))
    | inr z ↦ elim (Bool-cases (y % 64 == 32)) [
      | inl s ↦ ends 32 cell_cells (ground arith) (shl_cell a b c d (distance ∙ ground arith))
      | inr s ↦ elim (Bool-cases (ltb (y % 64) 32)) [
        | inl l ↦
            ends (y % 64) (low_result z (ground arith)) refl
              (shl_low a b c d (y % 64) distance z s (ground arith))
        | inr l ↦
            ends (y % 64 - 32 + 32) (high_result (ground arith)) (ground arith)
              (shl_high a b c d (y % 64) distance z s (ground arith) (ground arith))
      ]
    ]
  ]
