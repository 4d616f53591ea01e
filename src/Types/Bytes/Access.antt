-- ===== src/Types/Bytes/Access.antt =====
-- Loads and stores of src/types/untyped_value.rs: when they trap, what a store leaves alone and
-- what a load finds after it.
use native.Mathlib.Nat
use native.Mathlib.Nat.{pow-suc}
use rwasm.Base.{
  ℕ, zero, suc, ◌+◌, ◌-◌, ◌*◌, ◌/◌, ◌%◌, ◌^◌, ◌<◌, ◌≤◌, ◌≡◌, refl, sym, ap, ◌∙◌, Option, none, some,
  List, ◌++◌, leb, if◌then◌else◌, length, take, drop, get_elem?, length-append, length-take,
  length-drop, get_elem?-append_left, get_elem?-append_right, take-append, drop-append,
  take-append-drop, arith, Bool, true, false, ◌&&◌,
}
use rwasm.Types.Trap.{ok, err, memory_out_of_bounds}
use rwasm.Types.Bytes.{
  slice, overwrite, from_le_bytes, to_le_bytes, effective_address, load_extend, store_wrap,
}

pub length-to_le_bytes : (n v : ℕ) → length (to_le_bytes n v) ≡ n
unfolding to_le_bytes
length-to_le_bytes zero v = refl
length-to_le_bytes (suc n) v = ap suc (length-to_le_bytes n (v / 256))

rem_unique : (m q r : ℕ) → r < m → (m * q + r) % m ≡ r
rem_unique m zero r p = rw (Nat.mul-zero m, Nat.zero-add r) (Nat.mod-eq_of_lt p)
rem_unique m (suc q) r p =
    let e : m * suc q + r ≡ m * q + r + m = omega (arith, Nat.mul-suc m q) in
    rw (e, Nat.add-mod_right (m * q + r) m) (rem_unique m q r p)

-- The remainder by a power of 256, digit by digit.
digit : (m v : ℕ) → 0 < m → v % (256 * m) ≡ v % 256 + 256 * (v / 256 % m)
digit m v p =
    let q = v / 256 / m in
    let r = v / 256 % m in
    let e : v ≡ 256 * m * q + (v % 256 + 256 * r) =
      omega (arith, Nat.div-add-mod (v / 256) m, Nat.mul_assoc 256 m q) in
    ap (λ t. t % (256 * m)) e
    ∙ rem_unique (256 * m) q (v % 256 + 256 * r) (omega (arith, Nat.mod-lt (v / 256) p))

pub from_le_bytes-to_le_bytes : (n v : ℕ) → from_le_bytes (to_le_bytes n v) ≡ v % 2 ^ (8 * n)
unfolding to_le_bytes from_le_bytes
from_le_bytes-to_le_bytes zero v = omega arith
from_le_bytes-to_le_bytes (suc n) v = rw (from_le_bytes-to_le_bytes n (v / 256)) (
    sym (digit (2 ^ (8 * n)) v (Nat.one-le-pow (8 * n) 2 (omega arith)))
    ∙ ap (λ t. v % t) (eight n))
  where
    eight : (n : ℕ) → 256 * 2 ^ (8 * n) ≡ 2 ^ (8 * suc n)
    eight n =
        let e : 8 * suc n ≡ suc (suc (suc (suc (suc (suc (suc (suc (8 * n)))))))) = omega arith in
        rw e (
          rw (pow-suc, pow-suc, pow-suc, pow-suc, pow-suc, pow-suc, pow-suc, pow-suc) (omega arith))

picked :
    {A : Type 0} (b : Bool) {zs ys : List A}
    → ◌≡◌ {A = Option (List A)} (if b then some zs else none) (some ys)
    → (b ≡ true) × (zs ≡ ys)
picked true h = (refl, cc)
picked false h = absurd cc

pub slice-some :
    {A : Type 0} (xs : List A) (start n : ℕ) {ys : List A}
    → slice xs start n ≡ some ys
    → (start + n ≤ length xs) × (length ys ≡ n)
unfolding slice
slice-some xs start n h =
    let (t, e) = picked (leb start (length xs) && leb n (length xs - start)) h in
    let fits : start + n ≤ length xs = ground arith in
    (fits, sym (ap length e) ∙ omega (arith, length-take n (drop start xs), length-drop start xs))

drop_past : {A : Type 0} (pre zs : List A) (n : ℕ) → n ≡ length pre → drop n (pre ++ zs) ≡ zs
drop_past pre zs n e = rw e (drop-append pre zs)

take_past : {A : Type 0} (pre zs : List A) (n : ℕ) → n ≡ length pre → take n (pre ++ zs) ≡ pre
take_past pre zs n e = rw e (take-append pre zs)

module _ {A : Type 0} (xs : List A) (start : ℕ) (new : List A)
    (fits : start + length new ≤ length xs) where
  length-before : length (take start xs) ≡ start
  length-before = omega (arith, length-take start xs)

  pub length-overwrite : length (overwrite xs start new) ≡ length xs
  unfolding overwrite
  length-overwrite = omega (
    arith,
    length-append (take start xs) (new ++ drop (start + length new) xs),
    length-append new (drop (start + length new) xs),
    length-take start xs,
    length-drop (start + length new) xs,
  )

  pub slice_inside : slice xs start (length new) ≡ some (take (length new) (drop start xs))
  unfolding slice
  slice_inside = ground arith

  pub overwrite_inside : take (length new) (drop start (overwrite xs start new)) ≡ new
  unfolding overwrite
  overwrite_inside =
      ap (take (length new))
        (drop_past (take start xs) (new ++ drop (start + length new) xs) start (sym length-before))
      ∙ take_past new (drop (start + length new) xs) (length new) refl

  pub get_elem?-overwrite_below :
      (i : ℕ) → i < start → get_elem? (overwrite xs start new) i ≡ get_elem? xs i
  unfolding overwrite
  get_elem?-overwrite_below i h =
      get_elem?-append_left (take start xs) (new ++ drop (start + length new) xs) i
        (omega (arith, length-before))
      ∙ sym (get_elem?-append_left (take start xs) (drop start xs) i (omega (arith, length-before)))
      ∙ ap (λ ys. get_elem? ys i) (take-append-drop start xs)

  pub get_elem?-overwrite_above :
      (i : ℕ) → start + length new ≤ i → get_elem? (overwrite xs start new) i ≡ get_elem? xs i
  unfolding overwrite
  get_elem?-overwrite_above i h =
      get_elem?-append_right (take start xs) (new ++ drop (start + length new) xs) (i - start) i
        (omega (arith, length-before))
      ∙ get_elem?-append_right new (drop (start + length new) xs) (i - start - length new)
          (i - start) (omega arith)
      ∙ sym (
          get_elem?-append_right (take (start + length new) xs) (drop (start + length new) xs)
            (i - start - length new) i (omega (arith, length-take (start + length new) xs)))
      ∙ ap (λ ys. get_elem? ys i) (take-append-drop (start + length new) xs)

pub slice-overwrite :
    {A : Type 0} (xs : List A) (start : ℕ) (new : List A)
    → start + length new ≤ length xs
    → slice (overwrite xs start new) start (length new) ≡ some new
slice-overwrite xs start new fits =
    let e = length-overwrite xs start new fits in
    slice_inside (overwrite xs start new) start new (omega arith)
    ∙ ap some (overwrite_inside xs start new fits)

-- A load or store of `n` bytes, at an effective address that is in range or is not.
module _ (n : ℕ) (memory : List ℕ) (address offset : ℕ) (small : length memory ≤ 2 ^ 32) where
  pub store_wrap_inside :
      (value : ℕ)
      → 0 < n
      → offset + address + n ≤ length memory
      → store_wrap n memory address offset value
        ≡ ok (overwrite memory (offset + address) (to_le_bytes n (value % 2 ^ (8 * n))))
  unfolding store_wrap slice effective_address
  store_wrap_inside value p q = let e = length-to_le_bytes n (value % 2 ^ (8 * n)) in ground arith

  pub store_wrap_outside :
      (value : ℕ)
      → 0 < n
      → length memory < offset + address + n
      → store_wrap n memory address offset value ≡ err memory_out_of_bounds
  unfolding store_wrap slice effective_address
  store_wrap_outside value p q = let e = length-to_le_bytes n (value % 2 ^ (8 * n)) in ground arith

  pub load_extend_inside :
      (extend : ℕ → ℕ)
      → 0 < n
      → offset + address + n ≤ length memory
      → load_extend n extend memory address offset
        ≡ ok (extend (from_le_bytes (take n (drop (offset + address) memory))))
  unfolding load_extend slice effective_address
  load_extend_inside extend p q = ground arith

  pub load_extend_outside :
      (extend : ℕ → ℕ)
      → 0 < n
      → length memory < offset + address + n
      → load_extend n extend memory address offset ≡ err memory_out_of_bounds
  unfolding load_extend slice effective_address
  load_extend_outside extend p q = ground arith
