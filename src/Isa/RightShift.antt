-- ===== src/Isa/RightShift.antt =====
-- What the unsigned right shift of src/isa/bitwise.rs computes: one of four ways through it, by the
-- distance.
use mathlib.Core.Path.{subst}
use native.Mathlib.Nat
use rwasm.Base.{
  ℕ, ◌+◌, ◌-◌, ◌*◌, ◌/◌, ◌%◌, ◌^◌, ◌≡◌, ◌<◌, ◌≤◌, refl, sym, ap, ◌∙◌, List, [], ◌∷◌, ◌++◌, arith,
  bit_and, bit_or, ltb, ◌==◌, true, false, inl, inr, Bool-cases,
}
use rwasm.Base.Bits.{bit_and-mask, bit_or-add, bit_or_comm}
use rwasm.Types.UntypedValue as U
use rwasm.Isa.Block.{local_run}
use rwasm.Isa.Words.{Computes, cells64}
use rwasm.Isa.Counts.{pow_add}
use rwasm.Isa.Shifts.{shl_mod, shr_mod, or_zero, shl_zero, shifted_out, shifted_in, carried, powers}
use rwasm.Isa.Bitwise.ShrU.{op_i64_shr_u, msh_i64_shr_u}

module _ (a b c d : ℕ) where
  shr_none :
      bit_and c 63 ≡ 0
      → Computes op_i64_shr_u msh_i64_shr_u
          (d ∷ c ∷ b ∷ a ∷ [])
          (U.i32_or 0 (U.i32_shl b 0) ∷ U.i32_or a 0 ∷ [])
  unfolding op_i64_shr_u local_run U.i32_and U.i32_gt_u U.i32_sub
  shr_none h = record { computes = λ rest r m. record { rounds = 51; runs = rw h refl } }

  shr_cell :
      bit_and c 63 ≡ 32
      → Computes op_i64_shr_u msh_i64_shr_u
          (d ∷ c ∷ b ∷ a ∷ [])
          (U.i32_or 0 (U.i32_shl 0 0) ∷ U.i32_or b 0 ∷ [])
  unfolding op_i64_shr_u local_run U.i32_and U.i32_gt_u U.i32_eq U.i32_sub
  shr_cell h = record { computes = λ rest r m. record { rounds = 52; runs = rw h refl } }

  module _ (k : ℕ) (h : bit_and c 63 ≡ k) (z : (k == 0) ≡ false) (q : (k == 32) ≡ false) where
    shr_low :
        ltb ((k + 4294967295) % 2 ^ 32) 31 ≡ true
        → Computes op_i64_shr_u msh_i64_shr_u (d ∷ c ∷ b ∷ a ∷ []) (
            U.i32_or 0 (U.i32_shl (U.i32_shr_u b c) 0)
            ∷ U.i32_or (U.i32_or (U.i32_shr_u a c) (U.i32_shl b (U.i32_sub 0 c))) 0
            ∷ [])
    unfolding op_i64_shr_u local_run U.i32_and U.i32_gt_u U.i32_lt_u U.i32_eq U.i32_add U.i32_sub
    shr_low s = record {
      computes = λ rest r m. record { rounds = 71; runs = rw (h, z, q, s) refl };
    }

    shr_high :
        ltb ((k + 4294967295) % 2 ^ 32) 31 ≡ false
        → ltb 32 k ≡ true
        → Computes op_i64_shr_u msh_i64_shr_u
            (d ∷ c ∷ b ∷ a ∷ [])
            (U.i32_or 0 (U.i32_shl 0 0) ∷ U.i32_or (U.i32_shr_u b c) 0 ∷ [])
    unfolding op_i64_shr_u local_run U.i32_and U.i32_gt_u U.i32_lt_u U.i32_eq U.i32_add U.i32_sub
    shr_high s t = record {
      computes = λ rest r m. record { rounds = 67; runs = rw (h, z, q, s, t) refl };
    }

module _ (k : ℕ) (a b : ℕ) (p : a < 2 ^ 32) (q : b < 2 ^ 32) (small : k ≤ 31) where
  turned : 2 ^ k * 2 ^ (32 - k) ≡ 2 ^ 32
  turned = Nat.mul_comm (2 ^ k) (2 ^ (32 - k)) ∙ powers k a b p q small

  quotient : (b * 2 ^ 32 + a) / 2 ^ k ≡ b * 2 ^ (32 - k) + a / 2 ^ k
  quotient =
      let positive : 0 < 2 ^ k = Nat.one-le-pow k 2 (omega arith) in
      let e : b * 2 ^ 32 + a ≡ a + b * 2 ^ (32 - k) * 2 ^ k = omega (
        arith,
        Nat.mul_assoc b (2 ^ (32 - k)) (2 ^ k),
        ap (λ (t : ℕ). b * t) (powers k a b p q small),
      ) in
      ap (λ t. t / 2 ^ k) e
      ∙ (Nat.add-mul-div_right a (b * 2 ^ (32 - k)) positive
          ∙ Nat.add_comm (a / 2 ^ k) (b * 2 ^ (32 - k)))

  low_cells :
      b / 2 ^ k % 2 ^ 32 ∷ bit_or (a / 2 ^ k) (b * 2 ^ (32 - k) % 2 ^ 32) ∷ []
      ≡ cells64 ((b * 2 ^ 32 + a) / 2 ^ k)
  low_cells =
      let positive : 0 < 2 ^ k = Nat.one-le-pow k 2 (omega arith) in
      let above : 0 < 2 ^ (32 - k) = Nat.one-le-pow (32 - k) 2 (omega arith) in
      let out = shifted_out (2 ^ (32 - k)) (2 ^ k) turned positive b in
      let inside = shifted_in (2 ^ (32 - k)) (2 ^ k) turned positive b in
      let under = carried (2 ^ (32 - k)) (2 ^ k) turned positive a p in
      let top : b * 2 ^ (32 - k) % 2 ^ 32 ≡ b % 2 ^ k * 2 ^ (32 - k) =
        omega (arith, above, out, inside) in
      let joined : bit_or (a / 2 ^ k) (b * 2 ^ (32 - k) % 2 ^ 32)
          ≡ b % 2 ^ k * 2 ^ (32 - k) + a / 2 ^ k =
        ap (λ t. bit_or (a / 2 ^ k) t) top
        ∙ (bit_or_comm (a / 2 ^ k) (b % 2 ^ k * 2 ^ (32 - k))
            ∙ bit_or-add (32 - k) (b % 2 ^ k) (a / 2 ^ k) under) in
      let hi : b / 2 ^ k % 2 ^ 32 ≡ (b * 2 ^ 32 + a) / 2 ^ k / 2 ^ 32 % 2 ^ 32 =
        omega (arith, quotient, out, inside, under) in
      let lo : bit_or (a / 2 ^ k) (b * 2 ^ (32 - k) % 2 ^ 32) ≡ (b * 2 ^ 32 + a) / 2 ^ k % 2 ^ 32 =
        omega (arith, joined, quotient, out, inside, under) in
      ap (λ t. t ∷ bit_or (a / 2 ^ k) (b * 2 ^ (32 - k) % 2 ^ 32) ∷ []) hi
      ∙ ap (λ t. (b * 2 ^ 32 + a) / 2 ^ k / 2 ^ 32 % 2 ^ 32 ∷ t ∷ []) lo

  high_cells : 0 ∷ b / 2 ^ k ∷ [] ≡ cells64 ((b * 2 ^ 32 + a) / 2 ^ (k + 32))
  high_cells =
      let z : (b * 2 ^ 32 + a) / 2 ^ (k + 32) ≡ b / 2 ^ k =
        ap (λ t. (b * 2 ^ 32 + a) / t) (pow_add k 32 ∙ Nat.mul_comm (2 ^ k) (2 ^ 32))
        ∙ (sym (Nat.div-div-eq-div-mul (b * 2 ^ 32 + a) (2 ^ 32) (2 ^ k))
            ∙ ap (λ t. t / 2 ^ k) {y = b} (omega arith)) in
      let bound : b / 2 ^ k ≤ b = Nat.div-le_self b (2 ^ k) in
      let e : 0 ∷ b / 2 ^ k ∷ [] ≡ cells64 (b / 2 ^ k) = ground (arith, bound) in
      e ∙ ap cells64 (sym z)

module _ (x y : ℕ) (p : x < 2 ^ 64) (q : y < 2 ^ 64) where
  abbrev lo : ℕ
  lo = x % 2 ^ 32

  abbrev hi : ℕ
  hi = x / 2 ^ 32 % 2 ^ 32

  abbrev by : ℕ
  by = y % 2 ^ 32

  abbrev above : ℕ
  above = y / 2 ^ 32 % 2 ^ 32

  whole : (n : ℕ) → cells64 ((hi * 2 ^ 32 + lo) / 2 ^ n) ≡ cells64 (x / 2 ^ n)
  whole n = ap (λ t. cells64 (t / 2 ^ n)) {y = x} (omega arith)

  distance : bit_and by 63 ≡ y % 64
  distance = bit_and-mask 6 by ∙ omega arith

  far : (y % 64 == 0) ≡ false → y % 64 < 32 → U.i32_sub 0 by % 32 ≡ 32 - y % 64
  unfolding U.i32_sub
  far z l = ground arith

  ends :
      {cells : List ℕ} (n : ℕ)
      → cells ≡ cells64 (x / 2 ^ n)
      → n ≡ y % 64
      → Computes op_i64_shr_u msh_i64_shr_u (cells64 y ++ cells64 x) cells
      → Computes op_i64_shr_u msh_i64_shr_u (cells64 y ++ cells64 x) (cells64 (x / 2 ^ (y % 64)))
  ends n e at run =
      subst (λ cells. Computes op_i64_shr_u msh_i64_shr_u (cells64 y ++ cells64 x) cells)
        (e ∙ ap (λ n. cells64 (x / 2 ^ n)) at) run

  none_cells : U.i32_or 0 (U.i32_shl hi 0) ∷ U.i32_or lo 0 ∷ [] ≡ cells64 (x / 2 ^ 0)
  none_cells = rw (shl_zero, or_zero) (ground arith)

  cell_cells : U.i32_or 0 (U.i32_shl 0 0) ∷ U.i32_or hi 0 ∷ [] ≡ cells64 (x / 2 ^ 32)
  cell_cells = rw (shl_zero, or_zero) (ground arith)

  low_result :
      (y % 64 == 0) ≡ false
      → y % 64 < 32
      → U.i32_or 0 (U.i32_shl (U.i32_shr_u hi by) 0)
          ∷ U.i32_or (U.i32_or (U.i32_shr_u lo by) (U.i32_shl hi (U.i32_sub 0 by))) 0
          ∷ []
        ≡ cells64 (x / 2 ^ (y % 64))
  unfolding U.i32_or
  low_result z l =
      let near : by % 32 ≡ y % 64 = omega arith in
      rw
        (
          shl_zero,
          or_zero (U.i32_or (U.i32_shr_u lo by) (U.i32_shl hi (U.i32_sub 0 by))),
          shr_mod hi by,
          shr_mod lo by,
          shl_mod,
          near,
          far z l,
        )
        (low_cells (y % 64) lo hi (omega arith) (omega arith) (omega arith) ∙ whole (y % 64))

  high_result :
      32 < y % 64
      → U.i32_or 0 (U.i32_shl 0 0) ∷ U.i32_or (U.i32_shr_u hi by) 0 ∷ []
        ≡ cells64 (x / 2 ^ (y % 64 - 32 + 32))
  high_result l =
      let near : by % 32 ≡ y % 64 - 32 = omega arith in
      rw (shl_zero, or_zero, shr_mod hi by, near)
        (high_cells (y % 64 - 32) lo hi (omega arith) (omega arith) (omega arith)
          ∙ whole (y % 64 - 32 + 32))

  -- On two 64-bit operands, `op_i64_shr_u` leaves the first one shifted to the right without a sign,
  -- by the second one taken at 64, with at most `msh_i64_shr_u` free cells.
  pub op_i64_shr_u_lem :
      Computes op_i64_shr_u msh_i64_shr_u (cells64 y ++ cells64 x) (cells64 (x / 2 ^ (y % 64)))
  op_i64_shr_u_lem = elim (Bool-cases (y % 64 == 0)) [
    | inl z ↦ ends 0 none_cells (ground arith) (shr_none lo hi by above (distance ∙ ground arith))
    | inr z ↦ elim (Bool-cases (y % 64 == 32)) [
      | inl s ↦
          ends 32 cell_cells (ground arith) (shr_cell lo hi by above (distance ∙ ground arith))
      | inr s ↦ elim (Bool-cases (ltb (y % 64) 32)) [
        | inl l ↦
            ends (y % 64) (low_result z (ground arith)) refl
              (shr_low lo hi by above (y % 64) distance z s (ground arith))
        | inr l ↦
            ends (y % 64 - 32 + 32) (high_result (ground arith)) (ground arith)
              (shr_high lo hi by above (y % 64) distance z s (ground arith) (ground arith))
      ]
    ]
  ]
