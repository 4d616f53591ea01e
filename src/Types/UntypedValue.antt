-- ===== src/Types/UntypedValue.antt =====
-- src/types/untyped_value.rs and the integer traits of src/types/value.rs: the 32-bit cells of
-- the value stack. A cell is its bit pattern, a number below 2 ^ 32.
use rwasm.Base.{
  ℕ, zero, suc, ◌+◌, ◌-◌, ◌*◌, ◌/◌, ◌%◌, ◌^◌, Bool, true, false, not, ◌&&◌, bit_and, bit_or,
  bit_xor, ltb, leb, ◌==◌, if◌then◌else◌,
}
use rwasm.Base.Ints.{ℤ, pos, negsuc, ltb_ℤ, leb_ℤ, tdiv, tmod, shr_ℤ}
use rwasm.Types.Trap.{integer_division_by_zero, integer_overflow, Checked, ok, err}

abbrev pub u32_max : ℕ
u32_max = 4294967295

-- `untyped as i32`, and the cast back.
abbrev pub to_i32 : ℕ → ℤ
to_i32 w = if ltb w (2 ^ 31) then pos w else negsuc (2 ^ 32 - 1 - w)

abbrev pub of_i32 : ℤ → ℕ
of_i32 (pos n) = n % 2 ^ 32
of_i32 (negsuc n) = 2 ^ 32 - 1 - n % 2 ^ 32

abbrev pub of_bool : Bool → ℕ
of_bool true = 1
of_bool false = 0

abbrev pub to_bool : ℕ → Bool
to_bool w = not (w == 0)

unfoldable pub i32_add : ℕ → ℕ → ℕ
i32_add a b = (a + b) % 2 ^ 32

unfoldable pub i32_sub : ℕ → ℕ → ℕ
i32_sub a b = (a + 2 ^ 32 - b) % 2 ^ 32

unfoldable pub i32_mul : ℕ → ℕ → ℕ
i32_mul a b = a * b % 2 ^ 32

-- `overflowing_div` overflows at the least integer over -1 alone.
unfoldable pub i32_div_s : ℕ → ℕ → Checked ℕ
i32_div_s a b =
    if b == 0
    then err integer_division_by_zero
    else if (a == 2 ^ 31) && (b == u32_max)
    then err integer_overflow
    else ok (of_i32 (tdiv (to_i32 a) (to_i32 b)))

unfoldable pub i32_div_u : ℕ → ℕ → Checked ℕ
i32_div_u a b = if b == 0 then err integer_division_by_zero else ok (a / b)

unfoldable pub i32_rem_s : ℕ → ℕ → Checked ℕ
i32_rem_s a b =
    if b == 0 then err integer_division_by_zero else ok (of_i32 (tmod (to_i32 a) (to_i32 b)))

unfoldable pub i32_rem_u : ℕ → ℕ → Checked ℕ
i32_rem_u a b = if b == 0 then err integer_division_by_zero else ok (a % b)

unfoldable pub i32_and : ℕ → ℕ → ℕ
i32_and a b = bit_and a b

unfoldable pub i32_or : ℕ → ℕ → ℕ
i32_or a b = bit_or a b

unfoldable pub i32_xor : ℕ → ℕ → ℕ
i32_xor a b = bit_xor a b

unfoldable pub i32_shl : ℕ → ℕ → ℕ
i32_shl a b = a * 2 ^ bit_and b 0x1f % 2 ^ 32

unfoldable pub i32_shr_s : ℕ → ℕ → ℕ
i32_shr_s a b = of_i32 (shr_ℤ (to_i32 a) (bit_and b 0x1f))

unfoldable pub i32_shr_u : ℕ → ℕ → ℕ
i32_shr_u a b = a / 2 ^ bit_and b 0x1f

-- `rotate_left` and `rotate_right` take the distance modulo the width.
unfoldable pub i32_rotl : ℕ → ℕ → ℕ
i32_rotl a b = bit_or (a * 2 ^ (b % 32) % 2 ^ 32) (a / 2 ^ (32 - b % 32))

unfoldable pub i32_rotr : ℕ → ℕ → ℕ
i32_rotr a b = bit_or (a / 2 ^ (b % 32)) (a * 2 ^ (32 - b % 32) % 2 ^ 32)

-- Over the lowest `n` bits: the zeros above the highest one, below the lowest one, and the ones.
unfoldable pub leading_zeros : ℕ → ℕ → ℕ
leading_zeros zero a = 0
leading_zeros (suc n) a = let rest = leading_zeros n a in if leb (2 ^ n) a then 0 else suc rest

unfoldable pub trailing_zeros : ℕ → ℕ → ℕ
trailing_zeros zero a = 0
trailing_zeros (suc n) a = let rest = trailing_zeros n (a / 2) in if a % 2 == 1 then 0 else suc rest

unfoldable pub count_ones : ℕ → ℕ → ℕ
count_ones zero a = 0
count_ones (suc n) a = a % 2 + count_ones n (a / 2)

unfoldable pub i32_clz : ℕ → ℕ
i32_clz a = leading_zeros 32 a

unfoldable pub i32_ctz : ℕ → ℕ
i32_ctz a = trailing_zeros 32 a

unfoldable pub i32_popcnt : ℕ → ℕ
i32_popcnt a = count_ones 32 a

unfoldable pub i32_eqz : ℕ → ℕ
i32_eqz a = of_bool (a == 0)

unfoldable pub i32_eq : ℕ → ℕ → ℕ
i32_eq a b = of_bool (a == b)

unfoldable pub i32_ne : ℕ → ℕ → ℕ
i32_ne a b = of_bool (not (a == b))

unfoldable pub i32_lt_s : ℕ → ℕ → ℕ
i32_lt_s a b = of_bool (ltb_ℤ (to_i32 a) (to_i32 b))

unfoldable pub i32_lt_u : ℕ → ℕ → ℕ
i32_lt_u a b = of_bool (ltb a b)

unfoldable pub i32_le_s : ℕ → ℕ → ℕ
i32_le_s a b = of_bool (leb_ℤ (to_i32 a) (to_i32 b))

unfoldable pub i32_le_u : ℕ → ℕ → ℕ
i32_le_u a b = of_bool (leb a b)

unfoldable pub i32_gt_s : ℕ → ℕ → ℕ
i32_gt_s a b = of_bool (ltb_ℤ (to_i32 b) (to_i32 a))

unfoldable pub i32_gt_u : ℕ → ℕ → ℕ
i32_gt_u a b = of_bool (ltb b a)

unfoldable pub i32_ge_s : ℕ → ℕ → ℕ
i32_ge_s a b = of_bool (leb_ℤ (to_i32 b) (to_i32 a))

unfoldable pub i32_ge_u : ℕ → ℕ → ℕ
i32_ge_u a b = of_bool (leb b a)

-- A cell read as an `i64` is below 2 ^ 32, so that the wrap cuts nothing off.
unfoldable pub i32_wrap_i64 : ℕ → ℕ
i32_wrap_i64 a = a % 2 ^ 32

-- `(self as i8) as i32`, and from 16 bits.
unfoldable pub i32_extend8_s : ℕ → ℕ
i32_extend8_s a = if ltb (a % 2 ^ 8) (2 ^ 7) then a % 2 ^ 8 else a % 2 ^ 8 + (2 ^ 32 - 2 ^ 8)

unfoldable pub i32_extend16_s : ℕ → ℕ
i32_extend16_s a = if ltb (a % 2 ^ 16) (2 ^ 15) then a % 2 ^ 16 else a % 2 ^ 16 + (2 ^ 32 - 2 ^ 16)
