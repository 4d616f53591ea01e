-- ===== src/Isa/Order.antt =====
-- What the sequences of src/isa/compare.rs decide.
use mathlib.Core.Path.{subst}
use rwasm.Base.{
  ◌∙◌, ◌&&◌, ◌||◌, ℕ, ◌/◌, ◌%◌, ◌^◌, ◌≡◌, ◌<◌, refl, sym, ◌⊎◌, inl, inr, List, [], ◌∷◌, ◌++◌, arith,
  ltb, leb, ◌==◌, not, ◌≢◌, true, false, Bool, Bool-cases, bit_or, bit_and,
}
use rwasm.Base.Ints.{pos, ltb_ℤ, leb_ℤ}
use rwasm.Types.UntypedValue
use rwasm.Types.UntypedValue.{of_bool}
use rwasm.Types.Opcode.{Opcode}
use rwasm.Isa.Block.{local_run, local_step, binary}
use rwasm.Isa.Words.{Computes, cells64, to_i64}
use rwasm.Isa.Compare.{
  op_i64_eqz, op_i64_eq, op_i64_ne, op_i64_lt_s, op_i64_lt_u, op_i64_gt_s, op_i64_gt_u, op_i64_le_s,
  op_i64_le_u, op_i64_ge_s, op_i64_ge_u, msh_i64_lt_s, msh_i64_lt_u, msh_i64_gt_s, msh_i64_gt_u,
  msh_i64_le_s, msh_i64_le_u, msh_i64_ge_s, msh_i64_ge_u, msh_i64_eqz, msh_i64_eq, msh_i64_ne,
}

-- The shape of the eight orders: the high cells decide unless they are equal.
abbrev ordered : Opcode → Opcode → List Opcode
ordered hi lo =
    Opcode.local_get 3
    ∷ Opcode.local_get 2
    ∷ Opcode.i32_eq
    ∷ Opcode.br_if_nez (pos 5)
    ∷ Opcode.local_get 3
    ∷ Opcode.local_get 2
    ∷ hi
    ∷ Opcode.br (pos 4)
    ∷ Opcode.local_get 4
    ∷ Opcode.local_get 3
    ∷ lo
    ∷ Opcode.local_set 4
    ∷ Opcode.drop
    ∷ Opcode.drop
    ∷ Opcode.drop
    ∷ []

pub i32_eq-cases :
    (b d : ℕ)
    → ((UntypedValue.i32_eq b d ≡ 1) × (b ≡ d)) ⊎ ((UntypedValue.i32_eq b d ≡ 0) × (b ≢ d))
unfolding UntypedValue.i32_eq
i32_eq-cases b d = elim (Bool-cases (b == d)) [
  | inl e ↦ inl (rw e refl, ground arith)
  | inr e ↦ inr (rw e refl, λ q. ground arith)
]

module _ (hi lo : Opcode) (f g : ℕ → ℕ → ℕ) (hi_step : local_step hi ≡ binary f)
    (lo_step : local_step lo ≡ binary g) (a b c d : ℕ) where
  high_cells :
      UntypedValue.i32_eq b d ≡ 0 → Computes (ordered hi lo) 2 (d ∷ c ∷ b ∷ a ∷ []) (f b d ∷ [])
  unfolding local_run
  high_cells h = record {
    computes = λ rest r m. record { rounds = 12; runs = rw (h, hi_step) refl };
  }

  low_cells :
      UntypedValue.i32_eq b d ≡ 1 → Computes (ordered hi lo) 2 (d ∷ c ∷ b ∷ a ∷ []) (g a c ∷ [])
  unfolding local_run
  low_cells h = record {
    computes = λ rest r m. record { rounds = 11; runs = rw (h, lo_step) refl };
  }

  -- What is decided, if the operations on the cells decide `result` in either case.
  pub ordered_lem :
      {result : ℕ}
      → (b ≢ d → f b d ≡ result)
      → (b ≡ d → g a c ≡ result)
      → Computes (ordered hi lo) 2 (d ∷ c ∷ b ∷ a ∷ []) (result ∷ [])
  ordered_lem {result} p q = elim (i32_eq-cases b d) [
    | inl (h, e) ↦ rw (sym (q e)) (low_cells h)
    | inr (h, e) ↦ rw (sym (p e)) (high_cells h)
  ]

op_i64_lt_s_lem :
    (x y : ℕ)
    → x < 2 ^ 64
    → y < 2 ^ 64
    → Computes op_i64_lt_s msh_i64_lt_s
        (cells64 y ++ cells64 x)
        (of_bool (ltb_ℤ (to_i64 x) (to_i64 y)) ∷ [])
unfolding op_i64_lt_s UntypedValue.i32_lt_s UntypedValue.i32_lt_u local_step
op_i64_lt_s_lem x y p q =
    ordered_lem Opcode.i32_lt_s Opcode.i32_lt_u UntypedValue.i32_lt_s UntypedValue.i32_lt_u refl
      refl (x % 2 ^ 32) (x / 2 ^ 32 % 2 ^ 32) (y % 2 ^ 32) (y / 2 ^ 32 % 2 ^ 32) (λ n. ground arith)
      (λ e. ground arith)

op_i64_lt_u_lem :
    (x y : ℕ)
    → x < 2 ^ 64
    → y < 2 ^ 64
    → Computes op_i64_lt_u msh_i64_lt_u (cells64 y ++ cells64 x) (of_bool (ltb x y) ∷ [])
unfolding op_i64_lt_u UntypedValue.i32_lt_u local_step
op_i64_lt_u_lem x y p q =
    ordered_lem Opcode.i32_lt_u Opcode.i32_lt_u UntypedValue.i32_lt_u UntypedValue.i32_lt_u refl
      refl (x % 2 ^ 32) (x / 2 ^ 32 % 2 ^ 32) (y % 2 ^ 32) (y / 2 ^ 32 % 2 ^ 32) (λ n. ground arith)
      (λ e. ground arith)

op_i64_gt_s_lem :
    (x y : ℕ)
    → x < 2 ^ 64
    → y < 2 ^ 64
    → Computes op_i64_gt_s msh_i64_gt_s
        (cells64 y ++ cells64 x)
        (of_bool (ltb_ℤ (to_i64 y) (to_i64 x)) ∷ [])
unfolding op_i64_gt_s UntypedValue.i32_gt_s UntypedValue.i32_gt_u local_step
op_i64_gt_s_lem x y p q =
    ordered_lem Opcode.i32_gt_s Opcode.i32_gt_u UntypedValue.i32_gt_s UntypedValue.i32_gt_u refl
      refl (x % 2 ^ 32) (x / 2 ^ 32 % 2 ^ 32) (y % 2 ^ 32) (y / 2 ^ 32 % 2 ^ 32) (λ n. ground arith)
      (λ e. ground arith)

op_i64_gt_u_lem :
    (x y : ℕ)
    → x < 2 ^ 64
    → y < 2 ^ 64
    → Computes op_i64_gt_u msh_i64_gt_u (cells64 y ++ cells64 x) (of_bool (ltb y x) ∷ [])
unfolding op_i64_gt_u UntypedValue.i32_gt_u local_step
op_i64_gt_u_lem x y p q =
    ordered_lem Opcode.i32_gt_u Opcode.i32_gt_u UntypedValue.i32_gt_u UntypedValue.i32_gt_u refl
      refl (x % 2 ^ 32) (x / 2 ^ 32 % 2 ^ 32) (y % 2 ^ 32) (y / 2 ^ 32 % 2 ^ 32) (λ n. ground arith)
      (λ e. ground arith)

op_i64_le_s_lem :
    (x y : ℕ)
    → x < 2 ^ 64
    → y < 2 ^ 64
    → Computes op_i64_le_s msh_i64_le_s
        (cells64 y ++ cells64 x)
        (of_bool (leb_ℤ (to_i64 x) (to_i64 y)) ∷ [])
unfolding op_i64_le_s UntypedValue.i32_le_s UntypedValue.i32_le_u local_step
op_i64_le_s_lem x y p q =
    ordered_lem Opcode.i32_le_s Opcode.i32_le_u UntypedValue.i32_le_s UntypedValue.i32_le_u refl
      refl (x % 2 ^ 32) (x / 2 ^ 32 % 2 ^ 32) (y % 2 ^ 32) (y / 2 ^ 32 % 2 ^ 32) (λ n. ground arith)
      (λ e. ground arith)

op_i64_le_u_lem :
    (x y : ℕ)
    → x < 2 ^ 64
    → y < 2 ^ 64
    → Computes op_i64_le_u msh_i64_le_u (cells64 y ++ cells64 x) (of_bool (leb x y) ∷ [])
unfolding op_i64_le_u UntypedValue.i32_le_u local_step
op_i64_le_u_lem x y p q =
    ordered_lem Opcode.i32_le_u Opcode.i32_le_u UntypedValue.i32_le_u UntypedValue.i32_le_u refl
      refl (x % 2 ^ 32) (x / 2 ^ 32 % 2 ^ 32) (y % 2 ^ 32) (y / 2 ^ 32 % 2 ^ 32) (λ n. ground arith)
      (λ e. ground arith)

op_i64_ge_s_lem :
    (x y : ℕ)
    → x < 2 ^ 64
    → y < 2 ^ 64
    → Computes op_i64_ge_s msh_i64_ge_s
        (cells64 y ++ cells64 x)
        (of_bool (leb_ℤ (to_i64 y) (to_i64 x)) ∷ [])
unfolding op_i64_ge_s UntypedValue.i32_ge_s UntypedValue.i32_ge_u local_step
op_i64_ge_s_lem x y p q =
    ordered_lem Opcode.i32_ge_s Opcode.i32_ge_u UntypedValue.i32_ge_s UntypedValue.i32_ge_u refl
      refl (x % 2 ^ 32) (x / 2 ^ 32 % 2 ^ 32) (y % 2 ^ 32) (y / 2 ^ 32 % 2 ^ 32) (λ n. ground arith)
      (λ e. ground arith)

op_i64_ge_u_lem :
    (x y : ℕ)
    → x < 2 ^ 64
    → y < 2 ^ 64
    → Computes op_i64_ge_u msh_i64_ge_u (cells64 y ++ cells64 x) (of_bool (leb y x) ∷ [])
unfolding op_i64_ge_u UntypedValue.i32_ge_u local_step
op_i64_ge_u_lem x y p q =
    ordered_lem Opcode.i32_ge_u Opcode.i32_ge_u UntypedValue.i32_ge_u UntypedValue.i32_ge_u refl
      refl (x % 2 ^ 32) (x / 2 ^ 32 % 2 ^ 32) (y % 2 ^ 32) (y / 2 ^ 32 % 2 ^ 32) (λ n. ground arith)
      (λ e. ground arith)

eqz_cells :
    (a b : ℕ)
    → Computes op_i64_eqz msh_i64_eqz
        (b ∷ a ∷ [])
        (UntypedValue.i32_and (UntypedValue.i32_eqz a) (UntypedValue.i32_eqz b) ∷ [])
unfolding op_i64_eqz local_run
eqz_cells a b = record { computes = λ rest r m. record { rounds = 5; runs = refl } }

eq_cells :
    (a b c d : ℕ)
    → Computes op_i64_eq msh_i64_eq
        (d ∷ c ∷ b ∷ a ∷ [])
        (UntypedValue.i32_and (UntypedValue.i32_eq c a) (UntypedValue.i32_eq d b) ∷ [])
unfolding op_i64_eq local_run
eq_cells a b c d = record { computes = λ rest r m. record { rounds = 7; runs = refl } }

ne_cells :
    (a b c d : ℕ)
    → Computes op_i64_ne msh_i64_ne
        (d ∷ c ∷ b ∷ a ∷ [])
        (UntypedValue.i32_or (UntypedValue.i32_ne c a) (UntypedValue.i32_ne d b) ∷ [])
unfolding op_i64_ne local_run
ne_cells a b c d = record { computes = λ rest r m. record { rounds = 7; runs = refl } }

-- `&` and `|` of two truth values.
both : (p q : Bool) → bit_and (of_bool p) (of_bool q) ≡ of_bool (p && q)
both true true = refl
both true false = refl
both false true = refl
both false false = refl

either : (p q : Bool) → bit_or (of_bool p) (of_bool q) ≡ of_bool (p || q)
either true true = refl
either true false = refl
either false true = refl
either false false = refl

zero_cells :
    (x : ℕ)
    → x < 2 ^ 64
    → UntypedValue.i32_and
        (UntypedValue.i32_eqz (x % 2 ^ 32))
        (UntypedValue.i32_eqz (x / 2 ^ 32 % 2 ^ 32))
      ≡ of_bool (x == 0)
unfolding UntypedValue.i32_and UntypedValue.i32_eqz
zero_cells x p = both (x % 2 ^ 32 == 0) (x / 2 ^ 32 % 2 ^ 32 == 0) ∙ ground arith

equal_cells :
    (x y : ℕ)
    → x < 2 ^ 64
    → y < 2 ^ 64
    → UntypedValue.i32_and
        (UntypedValue.i32_eq (y % 2 ^ 32) (x % 2 ^ 32))
        (UntypedValue.i32_eq (y / 2 ^ 32 % 2 ^ 32) (x / 2 ^ 32 % 2 ^ 32))
      ≡ of_bool (x == y)
unfolding UntypedValue.i32_and UntypedValue.i32_eq
equal_cells x y p q =
    both (y % 2 ^ 32 == x % 2 ^ 32) (y / 2 ^ 32 % 2 ^ 32 == x / 2 ^ 32 % 2 ^ 32) ∙ ground arith

different_cells :
    (x y : ℕ)
    → x < 2 ^ 64
    → y < 2 ^ 64
    → UntypedValue.i32_or
        (UntypedValue.i32_ne (y % 2 ^ 32) (x % 2 ^ 32))
        (UntypedValue.i32_ne (y / 2 ^ 32 % 2 ^ 32) (x / 2 ^ 32 % 2 ^ 32))
      ≡ of_bool (not (x == y))
unfolding UntypedValue.i32_or UntypedValue.i32_ne
different_cells x y p q =
    either (not (y % 2 ^ 32 == x % 2 ^ 32)) (not (y / 2 ^ 32 % 2 ^ 32 == x / 2 ^ 32 % 2 ^ 32))
    ∙ ground arith

-- On a 64-bit operand, `op_i64_eqz` leaves one cell that says whether it is 0, with at most
-- `msh_i64_eqz` free cells.
pub op_i64_eqz_lem :
    (x : ℕ) → x < 2 ^ 64 → Computes op_i64_eqz msh_i64_eqz (cells64 x) (of_bool (x == 0) ∷ [])
op_i64_eqz_lem x p =
    subst (λ cell. Computes op_i64_eqz msh_i64_eqz (cells64 x) (cell ∷ [])) (zero_cells x p)
      (eqz_cells (x % 2 ^ 32) (x / 2 ^ 32 % 2 ^ 32))

-- On two 64-bit operands, `op_i64_eq` leaves one cell that says whether they are equal, with at most
-- `msh_i64_eq` free cells.
pub op_i64_eq_lem :
    (x y : ℕ)
    → x < 2 ^ 64
    → y < 2 ^ 64
    → Computes op_i64_eq msh_i64_eq (cells64 y ++ cells64 x) (of_bool (x == y) ∷ [])
op_i64_eq_lem x y p q =
    subst (λ cell. Computes op_i64_eq msh_i64_eq (cells64 y ++ cells64 x) (cell ∷ []))
      (equal_cells x y p q)
      (eq_cells (x % 2 ^ 32) (x / 2 ^ 32 % 2 ^ 32) (y % 2 ^ 32) (y / 2 ^ 32 % 2 ^ 32))

-- On two 64-bit operands, `op_i64_ne` leaves one cell that says whether they differ, with at most
-- `msh_i64_ne` free cells.
pub op_i64_ne_lem :
    (x y : ℕ)
    → x < 2 ^ 64
    → y < 2 ^ 64
    → Computes op_i64_ne msh_i64_ne (cells64 y ++ cells64 x) (of_bool (not (x == y)) ∷ [])
op_i64_ne_lem x y p q =
    subst (λ cell. Computes op_i64_ne msh_i64_ne (cells64 y ++ cells64 x) (cell ∷ []))
      (different_cells x y p q)
      (ne_cells (x % 2 ^ 32) (x / 2 ^ 32 % 2 ^ 32) (y % 2 ^ 32) (y / 2 ^ 32 % 2 ^ 32))

-- On two 64-bit operands, the eight order comparisons leave one cell with the truth of the
-- comparison, of signed or of unsigned numbers, with at most their `msh` of free cells.
pub orders_lem :
    (x y : ℕ)
    → x < 2 ^ 64
    → y < 2 ^ 64
    → Computes op_i64_lt_s msh_i64_lt_s
        (cells64 y ++ cells64 x)
        (of_bool (ltb_ℤ (to_i64 x) (to_i64 y)) ∷ [])
      × Computes op_i64_lt_u msh_i64_lt_u (cells64 y ++ cells64 x) (of_bool (ltb x y) ∷ [])
      × Computes op_i64_gt_s msh_i64_gt_s
          (cells64 y ++ cells64 x)
          (of_bool (ltb_ℤ (to_i64 y) (to_i64 x)) ∷ [])
      × Computes op_i64_gt_u msh_i64_gt_u (cells64 y ++ cells64 x) (of_bool (ltb y x) ∷ [])
      × Computes op_i64_le_s msh_i64_le_s
          (cells64 y ++ cells64 x)
          (of_bool (leb_ℤ (to_i64 x) (to_i64 y)) ∷ [])
      × Computes op_i64_le_u msh_i64_le_u (cells64 y ++ cells64 x) (of_bool (leb x y) ∷ [])
      × Computes op_i64_ge_s msh_i64_ge_s
          (cells64 y ++ cells64 x)
          (of_bool (leb_ℤ (to_i64 y) (to_i64 x)) ∷ [])
      × Computes op_i64_ge_u msh_i64_ge_u (cells64 y ++ cells64 x) (of_bool (leb y x) ∷ [])
orders_lem x y p q = (
  op_i64_lt_s_lem x y p q,
  op_i64_lt_u_lem x y p q,
  op_i64_gt_s_lem x y p q,
  op_i64_gt_u_lem x y p q,
  op_i64_le_s_lem x y p q,
  op_i64_le_u_lem x y p q,
  op_i64_ge_s_lem x y p q,
  op_i64_ge_u_lem x y p q,
)

-- On two 64-bit operands, `op_i64_eq` and `op_i64_ne` leave one cell that says whether they are
-- equal and whether they differ, and `op_i64_eqz` on the first says whether it is zero, with at
-- most their `msh` of free cells.
pub equality_lem :
    (x y : ℕ)
    → x < 2 ^ 64
    → y < 2 ^ 64
    → Computes op_i64_eq msh_i64_eq (cells64 y ++ cells64 x) (of_bool (x == y) ∷ [])
      × Computes op_i64_ne msh_i64_ne (cells64 y ++ cells64 x) (of_bool (not (x == y)) ∷ [])
      × Computes op_i64_eqz msh_i64_eqz (cells64 x) (of_bool (x == 0) ∷ [])
equality_lem x y p q = (op_i64_eq_lem x y p q, op_i64_ne_lem x y p q, op_i64_eqz_lem x p)
