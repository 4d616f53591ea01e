-- ===== src/Isa/Counts.antt =====
-- What the counts of src/isa/bitwise.rs compute: of a pair of cells, from the counts of each.
use mathlib.Core.Path.{subst}
use native.Mathlib.Nat
use native.Mathlib.Nat.{pow-suc, one-le-pow}
use rwasm.Base.{
  ℕ, zero, suc, ◌+◌, ◌*◌, ◌/◌, ◌%◌, ◌^◌, ◌≡◌, ◌<◌, ◌≤◌, refl, sym, ap, ◌∙◌, inl, inr, [], ◌∷◌,
  arith, leb, ◌==◌, false, Bool-cases, le→leb, leb→le, leb-false, if◌then◌else◌,
}
use rwasm.Types.UntypedValue.{
  i32_add, i32_eq, i32_clz, i32_ctz, i32_popcnt, leading_zeros, trailing_zeros, count_ones,
}
use rwasm.Isa.Block.{local_run}
use rwasm.Isa.Words.{Computes, cells64}
use rwasm.Isa.Order.{i32_eq-cases}
use rwasm.Isa.Bitwise.{
  op_i64_clz, op_i64_ctz, op_i64_popcnt, msh_i64_clz, msh_i64_ctz, msh_i64_popcnt,
}

pub leading_zeros-bound : (n a : ℕ) → leading_zeros n a ≤ n
unfolding leading_zeros
leading_zeros-bound zero a = omega arith
leading_zeros-bound (suc n) a = ground (arith, leading_zeros-bound n a)

pub trailing_zeros-bound : (n a : ℕ) → trailing_zeros n a ≤ n
unfolding trailing_zeros
trailing_zeros-bound zero a = omega arith
trailing_zeros-bound (suc n) a = ground (arith, trailing_zeros-bound n (a / 2))

pub count_ones-bound : (n a : ℕ) → count_ones n a ≤ n
unfolding count_ones
count_ones-bound zero a = omega arith
count_ones-bound (suc n) a = ground (arith, count_ones-bound n (a / 2))

pow_twice : (h k : ℕ) → h * 2 ^ suc k ≡ 2 * (h * 2 ^ k)
pow_twice h k = omega (arith, ap (λ (t : ℕ). h * t) (pow-suc 2 k))

half : (k h l : ℕ) → (h * 2 ^ suc k + l) / 2 ≡ h * 2 ^ k + l / 2
half k h l = omega (arith, pow_twice h k)

parity : (k h l : ℕ) → (h * 2 ^ suc k + l) % 2 ≡ l % 2
parity k h l = omega (arith, pow_twice h k)

half_bound : (k l : ℕ) → l < 2 ^ suc k → l / 2 < 2 ^ k
half_bound k l p = omega (arith, pow-suc 2 k)

-- The counts of `h` above `k` digits `l`.
count_ones_split :
    (k n h l : ℕ) → l < 2 ^ k → count_ones (k + n) (h * 2 ^ k + l) ≡ count_ones k l + count_ones n h
unfolding count_ones
count_ones_split zero n h l p =
    rw (Nat.zero-add n, Nat.mul-one h)
      (let e : h + l ≡ h = omega arith in rw e (sym (Nat.zero-add (count_ones n h))))
count_ones_split (suc k) n h l p =
    rw (Nat.suc-add k n, half k h l, parity k h l)
      (omega (arith, count_ones_split k n h (l / 2) (half_bound k l p)))

trailing_zeros_split :
    (k n h l : ℕ)
    → l < 2 ^ k
    → trailing_zeros (k + n) (h * 2 ^ k + l)
      ≡ (if trailing_zeros k l == k then k + trailing_zeros n h else trailing_zeros k l)
unfolding trailing_zeros
trailing_zeros_split zero n h l p =
    rw (Nat.zero-add n, Nat.mul-one h)
      (let e : h + l ≡ h = omega arith in rw e (sym (Nat.zero-add (trailing_zeros n h))))
trailing_zeros_split (suc k) n h l p =
    rw
      (
        Nat.suc-add k n,
        half k h l,
        parity k h l,
        trailing_zeros_split k n h (l / 2) (half_bound k l p),
      )
      (ground (arith, trailing_zeros-bound k (l / 2)))

pub pow_add : (n k : ℕ) → 2 ^ (n + k) ≡ 2 ^ n * 2 ^ k
pow_add zero k = rw (Nat.zero-add k) (sym (Nat.one-mul (2 ^ k)))
pow_add (suc n) k = rw (Nat.suc-add n k) (
    omega
      (arith, pow-suc 2 n, pow-suc 2 (n + k), pow_add n k, ap (λ (t : ℕ). t * 2 ^ k) (pow-suc 2 n)))

-- Whether the highest digit of `h` is set decides it for the whole number.
highest : (k n h l : ℕ) → l < 2 ^ k → leb (2 ^ (n + k)) (h * 2 ^ k + l) ≡ leb (2 ^ n) h
highest k n h l p = elim (Bool-cases (leb (2 ^ n) h)) [
  | inl e ↦
      le→leb (2 ^ (n + k)) (h * 2 ^ k + l)
        (omega (arith, pow_add n k, Nat.mul-le-mul_right (2 ^ k) (leb→le (2 ^ n) h e)))
      ∙ sym e
  | inr e ↦
      leb-false (2 ^ (n + k)) (h * 2 ^ k + l) (
        omega (
          arith,
          pow_add n k,
          Nat.mul-le-mul_right {m = suc h} (2 ^ k) (below e),
          Nat.suc-mul h (2 ^ k),
        ))
      ∙ sym e
]
  where
    below : leb (2 ^ n) h ≡ false → suc h ≤ 2 ^ n
    below e = ground arith

leading_zeros_split :
    (n k h l : ℕ)
    → h < 2 ^ n
    → l < 2 ^ k
    → leading_zeros (n + k) (h * 2 ^ k + l)
      ≡ (if leading_zeros n h == n then n + leading_zeros k l else leading_zeros n h)
unfolding leading_zeros
leading_zeros_split zero k zero l q p =
    rw (Nat.zero-add k, Nat.zero-mul (2 ^ k), Nat.zero-add l)
      (sym (Nat.zero-add (leading_zeros k l)))
leading_zeros_split zero k (suc h) l q p = absurd (omega arith)
leading_zeros_split (suc n) k h l q p = elim (Bool-cases (leb (2 ^ n) h)) [
  | inl e ↦ rw (Nat.suc-add n k, highest k n h l p, e) (ground arith)
  | inr e ↦
      let below : h < 2 ^ n = ground arith in
      rw (Nat.suc-add n k, highest k n h l p, e, leading_zeros_split n k h l below p)
        (ground (arith, leading_zeros-bound n h))
]

popcnt_cells :
    (a b : ℕ)
    → Computes op_i64_popcnt msh_i64_popcnt
        (b ∷ a ∷ [])
        (0 ∷ i32_add (i32_popcnt a) (i32_popcnt b) ∷ [])
unfolding op_i64_popcnt local_run
popcnt_cells a b = record { computes = λ rest r m. record { rounds = 6; runs = refl } }

-- The cell with the digits that come first is all zeros (32 of them), or it is not.
module _ (a b : ℕ) where
  clz_low :
      i32_eq (i32_clz b) 32 ≡ 1
      → Computes op_i64_clz msh_i64_clz (b ∷ a ∷ []) (0 ∷ i32_add (i32_clz b) (i32_clz a) ∷ [])
  unfolding op_i64_clz local_run
  clz_low h = record { computes = λ rest r m. record { rounds = 10; runs = rw h refl } }

  clz_high :
      i32_eq (i32_clz b) 32 ≡ 0 → Computes op_i64_clz msh_i64_clz (b ∷ a ∷ []) (0 ∷ i32_clz b ∷ [])
  unfolding op_i64_clz local_run
  clz_high h = record { computes = λ rest r m. record { rounds = 7; runs = rw h refl } }

  ctz_high :
      i32_eq (i32_ctz a) 32 ≡ 1
      → Computes op_i64_ctz msh_i64_ctz (b ∷ a ∷ []) (0 ∷ i32_add (i32_ctz a) (i32_ctz b) ∷ [])
  unfolding op_i64_ctz local_run
  ctz_high h = record { computes = λ rest r m. record { rounds = 11; runs = rw h refl } }

  ctz_low :
      i32_eq (i32_ctz a) 32 ≡ 0 → Computes op_i64_ctz msh_i64_ctz (b ∷ a ∷ []) (0 ∷ i32_ctz a ∷ [])
  unfolding op_i64_ctz local_run
  ctz_low h = record { computes = λ rest r m. record { rounds = 9; runs = rw h refl } }

small_count : (c : ℕ) → c ≤ 64 → 0 ∷ c ∷ [] ≡ cells64 c
small_count c p = ground arith

rejoin : (x : ℕ) → x < 2 ^ 64 → x / 2 ^ 32 % 2 ^ 32 * 2 ^ 32 + x % 2 ^ 32 ≡ x
rejoin x p = omega arith

-- A count over a number of 64 bits by those over its cells.
module _ (x : ℕ) (p : x < 2 ^ 64) where
  abbrev low : ℕ
  low = x % 2 ^ 32

  abbrev high : ℕ
  high = x / 2 ^ 32 % 2 ^ 32

  wide_popcnt : i32_add (i32_popcnt low) (i32_popcnt high) ≡ count_ones 64 x
  unfolding i32_add i32_popcnt
  wide_popcnt = omega (
    arith,
    count_ones-bound 32 low,
    count_ones-bound 32 high,
    count_ones_split 32 32 high low (omega arith),
    ap (count_ones 64) (rejoin x p),
  )

  wide_clz :
      leading_zeros 64 x
      ≡ (if leading_zeros 32 high == 32 then 32 + leading_zeros 32 low else leading_zeros 32 high)
  wide_clz =
      sym (ap (leading_zeros 64) (rejoin x p))
      ∙ leading_zeros_split 32 32 high low (omega arith) (omega arith)

  wide_ctz :
      trailing_zeros 64 x
      ≡ (if trailing_zeros 32 low == 32 then 32 + trailing_zeros 32 high else trailing_zeros 32 low)
  wide_ctz =
      sym (ap (trailing_zeros 64) (rejoin x p)) ∙ trailing_zeros_split 32 32 high low (omega arith)

  -- On a 64-bit operand, `op_i64_popcnt` leaves the number of its ones
  -- as a 64-bit number, with at most `msh_i64_popcnt` free cells.
  pub op_i64_popcnt_lem :
      Computes op_i64_popcnt msh_i64_popcnt (cells64 x) (cells64 (count_ones 64 x))
  op_i64_popcnt_lem =
      subst (λ cells. Computes op_i64_popcnt msh_i64_popcnt (cells64 x) cells)
        (ap (λ c. 0 ∷ c ∷ []) wide_popcnt ∙ small_count (count_ones 64 x) (count_ones-bound 64 x))
        (popcnt_cells low high)

  clz_all_zeros :
      i32_eq (i32_clz high) 32 ≡ 1 → i32_add (i32_clz high) (i32_clz low) ≡ leading_zeros 64 x
  unfolding i32_eq i32_add i32_clz
  clz_all_zeros h = rw wide_clz (ground (arith, leading_zeros-bound 32 low))

  clz_some_one : i32_eq (i32_clz high) 32 ≡ 0 → i32_clz high ≡ leading_zeros 64 x
  unfolding i32_eq i32_clz
  clz_some_one h = rw wide_clz (ground arith)

  ctz_all_zeros :
      i32_eq (i32_ctz low) 32 ≡ 1 → i32_add (i32_ctz low) (i32_ctz high) ≡ trailing_zeros 64 x
  unfolding i32_eq i32_add i32_ctz
  ctz_all_zeros h = rw wide_ctz (ground (arith, trailing_zeros-bound 32 high))

  ctz_some_one : i32_eq (i32_ctz low) 32 ≡ 0 → i32_ctz low ≡ trailing_zeros 64 x
  unfolding i32_eq i32_ctz
  ctz_some_one h = rw wide_ctz (ground arith)

  -- On a 64-bit operand, `op_i64_clz` leaves the number of zeros above its highest one, 64 at 0,
  -- as a 64-bit number, with at most `msh_i64_clz` free cells.
  pub op_i64_clz_lem : Computes op_i64_clz msh_i64_clz (cells64 x) (cells64 (leading_zeros 64 x))
  op_i64_clz_lem =
      subst (λ cells. Computes op_i64_clz msh_i64_clz (cells64 x) cells)
        (small_count (leading_zeros 64 x) (leading_zeros-bound 64 x))
        (elim (i32_eq-cases (i32_clz high) 32) [
          | inl (h, _) ↦ rw (sym (clz_all_zeros h)) (clz_low low high h)
          | inr (h, _) ↦ rw (sym (clz_some_one h)) (clz_high low high h)
        ])

  -- On a 64-bit operand, `op_i64_ctz` leaves the number of zeros below its lowest one, 64 at 0,
  -- as a 64-bit number, with at most `msh_i64_ctz` free cells.
  pub op_i64_ctz_lem : Computes op_i64_ctz msh_i64_ctz (cells64 x) (cells64 (trailing_zeros 64 x))
  op_i64_ctz_lem =
      subst (λ cells. Computes op_i64_ctz msh_i64_ctz (cells64 x) cells)
        (small_count (trailing_zeros 64 x) (trailing_zeros-bound 64 x))
        (elim (i32_eq-cases (i32_ctz low) 32) [
          | inl (h, _) ↦ rw (sym (ctz_all_zeros h)) (ctz_high low high h)
          | inr (h, _) ↦ rw (sym (ctz_some_one h)) (ctz_low low high h)
        ])
