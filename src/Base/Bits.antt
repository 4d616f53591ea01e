-- ===== src/Base/Bits.antt =====
-- `&`, `|` and `^` at variables: the equation for the lowest digit, masks and disjoint fields.
use Prim.Native.Nat.{
  ℕ, zero, suc, ◌+◌, ◌-◌, ◌*◌, ◌/◌, ◌%◌, ◌^◌, ◌≤◌, ◌<◌, min, max, bit_and, bit_or, bit_xor,
}
use Prim.Native.Nat.{digits, bitwise, differ, bit_and-bitwise, bit_or-bitwise, bit_xor-bitwise}
use mathlib.Core.Path.{◌≡◌, refl, sym, ap, ◌∙◌}
use native.Mathlib.Nat
use native.Mathlib.Nat.{pow-suc, one-le-pow}
use native.Mathlib.Omega.{arith}

-- Once there are as many rounds as the number is large, more of them change nothing.
module _ (z : ℕ → ℕ) (f : ℕ → ℕ → ℕ) where
  no_digits : (rounds b : ℕ) → digits z f rounds zero b ≡ z b
  no_digits zero b = refl
  no_digits (suc rounds) b = refl

  digits_enough :
      (a b less more : ℕ) → a ≤ less → a ≤ more → digits z f less a b ≡ digits z f more a b
  digits_enough zero b less more p q = no_digits less b ∙ sym (no_digits more b)
  digits_enough (suc a) b zero more p q = absurd (omega arith)
  digits_enough (suc a) b (suc less) zero p q = absurd (omega arith)
  digits_enough (suc a) b (suc less) (suc more) p q =
      let half : suc a / 2 ≤ less = omega arith in
      rw (digits_enough (suc a / 2) (b / 2) less more half (omega arith))

  peel :
      (n m : ℕ)
      → bitwise z f (suc n) m ≡ f (suc n % 2) (m % 2) + 2 * bitwise z f (suc n / 2) (m / 2)
  peel n m =
      omega (arith, digits_enough (suc n / 2) (m / 2) n (suc n / 2) (omega arith) (omega arith))

differ_zero : (y : ℕ) → differ (0 % 2) y ≡ y
differ_zero y = refl

-- One round of each operation: the lowest bits are combined, the rest is halved.
pub bit_xor_step : (n m : ℕ) → bit_xor n m ≡ differ (n % 2) (m % 2) + 2 * bit_xor (n / 2) (m / 2)
bit_xor_step zero m = simp bit_xor-bitwise (omega (arith, differ_zero (m % 2)))
bit_xor_step (suc n) m = simp bit_xor-bitwise (peel (λ y. y) differ n m)

pub bit_and_step : (n m : ℕ) → bit_and n m ≡ min (n % 2) (m % 2) + 2 * bit_and (n / 2) (m / 2)
bit_and_step zero m = simp bit_and-bitwise (omega arith)
bit_and_step (suc n) m = simp bit_and-bitwise (peel (λ y. 0) min n m)

pub bit_or_step : (n m : ℕ) → bit_or n m ≡ max (n % 2) (m % 2) + 2 * bit_or (n / 2) (m / 2)
bit_or_step zero m = simp bit_or-bitwise (omega arith)
bit_or_step (suc n) m = simp bit_or-bitwise (peel (λ y. y) max n m)

-- Induction on a bound, since a step goes to the half.
bit_or-zero_below : (n a : ℕ) → a ≤ n → bit_or a 0 ≡ a
bit_or-zero_below n zero h = refl
bit_or-zero_below zero (suc a) h = absurd (omega arith)
bit_or-zero_below (suc n) (suc a) h =
    omega (arith, bit_or_step (suc a) 0, bit_or-zero_below n (suc a / 2) (omega arith))

pub bit_or-zero : (a : ℕ) → bit_or a 0 ≡ a
bit_or-zero a = bit_or-zero_below a a (omega arith)

pub zero-bit_or : (b : ℕ) → bit_or 0 b ≡ b
zero-bit_or b = bit_or-bitwise 0 b

bit_and-zero_below : (n a : ℕ) → a ≤ n → bit_and a 0 ≡ 0
bit_and-zero_below n zero h = refl
bit_and-zero_below zero (suc a) h = absurd (omega arith)
bit_and-zero_below (suc n) (suc a) h =
    omega (arith, bit_and_step (suc a) 0, bit_and-zero_below n (suc a / 2) (omega arith))

pub bit_and-zero : (a : ℕ) → bit_and a 0 ≡ 0
bit_and-zero a = bit_and-zero_below a a (omega arith)

pow_twice : (q k : ℕ) → q * 2 ^ suc k ≡ 2 * (q * 2 ^ k)
pow_twice q k = omega (arith, ap (λ (t : ℕ). q * t) (pow-suc 2 k))

-- A field of `k` low bits beside a shifted one: `|` is the sum.
pub bit_or-add : (k q r : ℕ) → r < 2 ^ k → bit_or (q * 2 ^ k) r ≡ q * 2 ^ k + r
bit_or-add zero q r h = ground (arith, bit_or-zero q)
bit_or-add (suc k) q r h = ground (
  arith,
  bit_or_step (q * 2 ^ suc k) r,
  pow_twice q k,
  pow-suc 2 k,
  bit_or-add k q (r / 2) (omega (arith, pow-suc 2 k)),
)

low_field : (k q r : ℕ) → r < 2 ^ k → bit_and (q * 2 ^ k + r) (2 ^ k - 1) ≡ r
low_field zero q r h = rw bit_and-zero (omega arith)
low_field (suc k) q r h = ground (
  arith,
  bit_and_step (q * 2 ^ suc k + r) (2 ^ suc k - 1),
  pow_twice q k,
  pow-suc 2 k,
  low_field k q (r / 2) (omega (arith, pow-suc 2 k)),
)

-- `&` with a mask of `k` low bits is the remainder by `2 ^ k`.
pub bit_and-mask : (k a : ℕ) → bit_and a (2 ^ k - 1) ≡ a % 2 ^ k
bit_and-mask k a = ground (arith, one-le-pow k 2, low_field k (a / 2 ^ k) (a % 2 ^ k))

-- On words cut into a high and a low part the operations work part by part.
pub bit_and_split :
    (k a b c d : ℕ)
    → b < 2 ^ k
    → d < 2 ^ k
    → bit_and (a * 2 ^ k + b) (c * 2 ^ k + d) ≡ bit_and a c * 2 ^ k + bit_and b d
bit_and_split zero a zero c zero hb hd = simp (Nat.mul-one, Nat.add-zero)
bit_and_split zero a zero c (suc d) hb hd = absurd (omega arith)
bit_and_split zero a (suc b) c d hb hd = absurd (omega arith)
bit_and_split (suc k) a b c d hb hd = ground (
  arith,
  bit_and_step (a * 2 ^ suc k + b) (c * 2 ^ suc k + d),
  bit_and_step b d,
  pow_twice a k,
  pow_twice c k,
  pow_twice (bit_and a c) k,
  pow-suc 2 k,
  bit_and_split k a (b / 2) c (d / 2) (omega (arith, pow-suc 2 k)) (omega (arith, pow-suc 2 k)),
)

pub bit_or_split :
    (k a b c d : ℕ)
    → b < 2 ^ k
    → d < 2 ^ k
    → bit_or (a * 2 ^ k + b) (c * 2 ^ k + d) ≡ bit_or a c * 2 ^ k + bit_or b d
bit_or_split zero a zero c zero hb hd = simp (Nat.mul-one, Nat.add-zero)
bit_or_split zero a zero c (suc d) hb hd = absurd (omega arith)
bit_or_split zero a (suc b) c d hb hd = absurd (omega arith)
bit_or_split (suc k) a b c d hb hd = ground (
  arith,
  bit_or_step (a * 2 ^ suc k + b) (c * 2 ^ suc k + d),
  bit_or_step b d,
  pow_twice a k,
  pow_twice c k,
  pow_twice (bit_or a c) k,
  pow-suc 2 k,
  bit_or_split k a (b / 2) c (d / 2) (omega (arith, pow-suc 2 k)) (omega (arith, pow-suc 2 k)),
)

pub bit_xor_split :
    (k a b c d : ℕ)
    → b < 2 ^ k
    → d < 2 ^ k
    → bit_xor (a * 2 ^ k + b) (c * 2 ^ k + d) ≡ bit_xor a c * 2 ^ k + bit_xor b d
bit_xor_split zero a zero c zero hb hd = simp (Nat.mul-one, Nat.add-zero)
bit_xor_split zero a zero c (suc d) hb hd = absurd (omega arith)
bit_xor_split zero a (suc b) c d hb hd = absurd (omega arith)
bit_xor_split (suc k) a b c d hb hd = ground (
  arith,
  bit_xor_step (a * 2 ^ suc k + b) (c * 2 ^ suc k + d),
  bit_xor_step b d,
  pow_twice a k,
  pow_twice c k,
  pow_twice (bit_xor a c) k,
  pow-suc 2 k,
  bit_xor_split k a (b / 2) c (d / 2) (omega (arith, pow-suc 2 k)) (omega (arith, pow-suc 2 k)),
)

small : (a : ℕ) → a ≤ 0 → a ≡ 0
small a p = omega arith

bit_and_comm_below : (n a b : ℕ) → a ≤ n → b ≤ n → bit_and a b ≡ bit_and b a
bit_and_comm_below zero a b p q = rw (small a p, small b q) refl
bit_and_comm_below (suc n) a b p q = omega (
  arith,
  bit_and_step a b,
  bit_and_step b a,
  Nat.min_comm (a % 2) (b % 2),
  bit_and_comm_below n (a / 2) (b / 2) (omega arith) (omega arith),
)

pub bit_and_comm : (a b : ℕ) → bit_and a b ≡ bit_and b a
bit_and_comm a b = bit_and_comm_below (a + b) a b (omega arith) (omega arith)

bit_or_comm_below : (n a b : ℕ) → a ≤ n → b ≤ n → bit_or a b ≡ bit_or b a
bit_or_comm_below zero a b p q = rw (small a p, small b q) refl
bit_or_comm_below (suc n) a b p q = omega (
  arith,
  bit_or_step a b,
  bit_or_step b a,
  Nat.max_comm (a % 2) (b % 2),
  bit_or_comm_below n (a / 2) (b / 2) (omega arith) (omega arith),
)

pub bit_or_comm : (a b : ℕ) → bit_or a b ≡ bit_or b a
bit_or_comm a b = bit_or_comm_below (a + b) a b (omega arith) (omega arith)

differ_comm : (a b : ℕ) → differ a b ≡ differ b a
differ_comm zero zero = refl
differ_comm zero (suc b) = refl
differ_comm (suc a) zero = refl
differ_comm (suc a) (suc b) = differ_comm a b

bit_xor_comm_below : (n a b : ℕ) → a ≤ n → b ≤ n → bit_xor a b ≡ bit_xor b a
bit_xor_comm_below zero a b p q = rw (small a p, small b q) refl
bit_xor_comm_below (suc n) a b p q = omega (
  arith,
  bit_xor_step a b,
  bit_xor_step b a,
  differ_comm (a % 2) (b % 2),
  bit_xor_comm_below n (a / 2) (b / 2) (omega arith) (omega arith),
)

pub bit_xor_comm : (a b : ℕ) → bit_xor a b ≡ bit_xor b a
bit_xor_comm a b = bit_xor_comm_below (a + b) a b (omega arith) (omega arith)

pub bit_and_bound : (k a b : ℕ) → a < 2 ^ k → b < 2 ^ k → bit_and a b < 2 ^ k
bit_and_bound zero a b p q = rw (small a (omega arith), small b (omega arith)) (omega arith)
bit_and_bound (suc k) a b p q = ground (
  arith,
  bit_and_step a b,
  pow-suc 2 k,
  bit_and_bound k (a / 2) (b / 2) (omega (arith, pow-suc 2 k)) (omega (arith, pow-suc 2 k)),
)

pub bit_or_bound : (k a b : ℕ) → a < 2 ^ k → b < 2 ^ k → bit_or a b < 2 ^ k
bit_or_bound zero a b p q = rw (small a (omega arith), small b (omega arith)) (omega arith)
bit_or_bound (suc k) a b p q = ground (
  arith,
  bit_or_step a b,
  pow-suc 2 k,
  bit_or_bound k (a / 2) (b / 2) (omega (arith, pow-suc 2 k)) (omega (arith, pow-suc 2 k)),
)

differ_bound : (a b : ℕ) → a < 2 → b < 2 → differ a b < 2
differ_bound zero b p q = q
differ_bound (suc zero) zero p q = p
differ_bound (suc zero) (suc zero) p q = omega arith
differ_bound (suc zero) (suc (suc b)) p q = absurd (omega arith)
differ_bound (suc (suc a)) b p q = absurd (omega arith)

pub bit_xor_bound : (k a b : ℕ) → a < 2 ^ k → b < 2 ^ k → bit_xor a b < 2 ^ k
bit_xor_bound zero a b p q = rw (small a (omega arith), small b (omega arith)) (omega arith)
bit_xor_bound (suc k) a b p q = ground (
  arith,
  bit_xor_step a b,
  pow-suc 2 k,
  differ_bound (a % 2) (b % 2) (omega arith) (omega arith),
  bit_xor_bound k (a / 2) (b / 2) (omega (arith, pow-suc 2 k)) (omega (arith, pow-suc 2 k)),
)
