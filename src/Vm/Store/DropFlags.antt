-- ===== src/Vm/Store/DropFlags.antt =====
-- The flags of dropped segments of src/vm/store.rs, as lists of bits.
use rwasm.Base.{
  ℕ, zero, suc, ◌<◌, ◌≡◌, refl, ap, ◌∙◌, List, [], ◌∷◌, Bool, true, false, ltb, if◌then◌else◌, ◌==◌,
  arith, length,
}
use rwasm.Vm.Store.{resize, set_bit, bit_at}

resize-bit_at :
    (n : ℕ) (bits : List Bool) (i : ℕ)
    → bit_at (resize n bits) i ≡ (if ltb i n then bit_at bits i else false)
unfolding resize bit_at
resize-bit_at zero bits i = ground arith
resize-bit_at (suc n) [] zero = ground arith
resize-bit_at (suc n) [] (suc i) = resize-bit_at n [] i ∙ ground arith
resize-bit_at (suc n) (b ∷ bits) zero = ground arith
resize-bit_at (suc n) (b ∷ bits) (suc i) = resize-bit_at n bits i ∙ ground arith

length-resize : (n : ℕ) (bits : List Bool) → length (resize n bits) ≡ n
unfolding resize
length-resize zero bits = refl
length-resize (suc n) [] = ap suc (length-resize n [])
length-resize (suc n) (b ∷ bits) = ap suc (length-resize n bits)

set_bit-bit_at :
    (i : ℕ) (bits : List Bool) (j : ℕ)
    → i < length bits
    → bit_at (set_bit i bits) j ≡ (if i == j then true else bit_at bits j)
unfolding set_bit bit_at
set_bit-bit_at i [] j p = absurd (omega arith)
set_bit-bit_at zero (b ∷ bits) zero p = refl
set_bit-bit_at zero (b ∷ bits) (suc j) p = ground arith
set_bit-bit_at (suc i) (b ∷ bits) zero p = ground arith
set_bit-bit_at (suc i) (b ∷ bits) (suc j) p = set_bit-bit_at i bits j (omega arith) ∙ ground arith

pub flags_at :
    (i : ℕ) (bits : List Bool) (j : ℕ)
    → bit_at (set_bit i (resize (suc i) bits)) j ≡ (if ltb j i then bit_at bits j else i == j)
flags_at i bits j =
    set_bit-bit_at i (resize (suc i) bits) j (omega (arith, length-resize (suc i) bits))
    ∙ rw (resize-bit_at (suc i) bits j) (ground arith)
