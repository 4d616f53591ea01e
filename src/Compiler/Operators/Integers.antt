-- ===== src/Compiler/Operators/Integers.antt =====
-- What the instructions on 32-bit integers do to the stack, and how large the results are.
use mathlib.Core.Path.{subst}
use rwasm.Base.{
  ℕ, suc, ◌+◌, ◌-◌, ◌*◌, ◌/◌, ◌%◌, ◌^◌, ◌<◌, ◌≡◌, refl, List, [], ◌∷◌, some, bit_and, Bool, true,
  false, arith,
}
use native.Mathlib.Nat.{div-le_self}
use rwasm.Base.Bits.{bit_and_bound, bit_or_bound, bit_xor_bound}
use rwasm.Base.Ints.{ℤ, pos, negsuc}
use rwasm.Types.Opcode.{Opcode}
use rwasm.Types.UntypedValue as U
use rwasm.Types.UntypedValue.{of_bool, of_i32, leading_zeros, trailing_zeros, count_ones}
use rwasm.Isa.Block.{local_step}
use rwasm.Isa.Words.{stack}
use rwasm.Isa.Straight.{stop, go}
use rwasm.Isa.Counts.{leading_zeros-bound, trailing_zeros-bound, count_ones-bound}
use rwasm.Compiler.Translator.Numeric.{I32Compare, I32Unary, I32Binary}
use rwasm.Compiler.Operators.{i32_compare_value, i32_unary_value, i32_binary_value}
use rwasm.Compiler.Operators.Code.{Leads, Straight-Leads}

-- An instruction that takes two cells, or one, and leaves one.
pub takes_two :
    (op : Opcode) (a b v : ℕ)
    → ((rest : List ℕ) (r m pc : ℕ)
        → local_step op pc (stack (b ∷ a ∷ rest) r m) ≡ some (pc + 1, stack (v ∷ rest) (suc r) m))
    → Leads (op ∷ []) 0 (b ∷ a ∷ []) (v ∷ [])
takes_two op a b v step =
    Straight-Leads 0 suc (λ r. omega arith) (λ rest r m. go (λ pc. step rest r m pc) stop)

pub takes_one :
    (op : Opcode) (a v : ℕ)
    → ((rest : List ℕ) (r m pc : ℕ)
        → local_step op pc (stack (a ∷ rest) r m) ≡ some (pc + 1, stack (v ∷ rest) r m))
    → Leads (op ∷ []) 0 (a ∷ []) (v ∷ [])
takes_one op a v step =
    Straight-Leads 0 (λ r. r) (λ r. omega arith) (λ rest r m. go (λ pc. step rest r m pc) stop)

pub bool_bound : (b : Bool) → of_bool b < 2 ^ 32
bool_bound true = omega arith
bool_bound false = omega arith

abbrev pub compare_code : I32Compare → Opcode
compare_code I32Compare.eq = Opcode.i32_eq
compare_code I32Compare.ne = Opcode.i32_ne
compare_code I32Compare.lt_s = Opcode.i32_lt_s
compare_code I32Compare.lt_u = Opcode.i32_lt_u
compare_code I32Compare.gt_s = Opcode.i32_gt_s
compare_code I32Compare.gt_u = Opcode.i32_gt_u
compare_code I32Compare.le_s = Opcode.i32_le_s
compare_code I32Compare.le_u = Opcode.i32_le_u
compare_code I32Compare.ge_s = Opcode.i32_ge_s
compare_code I32Compare.ge_u = Opcode.i32_ge_u

abbrev pub unary_code : I32Unary → Opcode
unary_code I32Unary.clz = Opcode.i32_clz
unary_code I32Unary.ctz = Opcode.i32_ctz
unary_code I32Unary.popcnt = Opcode.i32_popcnt
unary_code I32Unary.extend8_s = Opcode.i32_extend8_s
unary_code I32Unary.extend16_s = Opcode.i32_extend16_s

abbrev pub binary_code : I32Binary → Opcode
binary_code I32Binary.add = Opcode.i32_add
binary_code I32Binary.sub = Opcode.i32_sub
binary_code I32Binary.mul = Opcode.i32_mul
binary_code I32Binary.div_s = Opcode.i32_div_s
binary_code I32Binary.div_u = Opcode.i32_div_u
binary_code I32Binary.rem_s = Opcode.i32_rem_s
binary_code I32Binary.rem_u = Opcode.i32_rem_u
binary_code I32Binary.and = Opcode.i32_and
binary_code I32Binary.or = Opcode.i32_or
binary_code I32Binary.xor = Opcode.i32_xor
binary_code I32Binary.shl = Opcode.i32_shl
binary_code I32Binary.shr_s = Opcode.i32_shr_s
binary_code I32Binary.shr_u = Opcode.i32_shr_u
binary_code I32Binary.rotl = Opcode.i32_rotl
binary_code I32Binary.rotr = Opcode.i32_rotr

pub compare-Leads :
    (op : I32Compare) (a b : ℕ)
    → Leads (compare_code op ∷ []) 0 (b ∷ a ∷ []) (i32_compare_value op a b ∷ [])
unfolding local_step i32_compare_value
compare-Leads I32Compare.eq a b = takes_two Opcode.i32_eq a b _ (λ rest r m pc. refl)
compare-Leads I32Compare.ne a b = takes_two Opcode.i32_ne a b _ (λ rest r m pc. refl)
compare-Leads I32Compare.lt_s a b = takes_two Opcode.i32_lt_s a b _ (λ rest r m pc. refl)
compare-Leads I32Compare.lt_u a b = takes_two Opcode.i32_lt_u a b _ (λ rest r m pc. refl)
compare-Leads I32Compare.gt_s a b = takes_two Opcode.i32_gt_s a b _ (λ rest r m pc. refl)
compare-Leads I32Compare.gt_u a b = takes_two Opcode.i32_gt_u a b _ (λ rest r m pc. refl)
compare-Leads I32Compare.le_s a b = takes_two Opcode.i32_le_s a b _ (λ rest r m pc. refl)
compare-Leads I32Compare.le_u a b = takes_two Opcode.i32_le_u a b _ (λ rest r m pc. refl)
compare-Leads I32Compare.ge_s a b = takes_two Opcode.i32_ge_s a b _ (λ rest r m pc. refl)
compare-Leads I32Compare.ge_u a b = takes_two Opcode.i32_ge_u a b _ (λ rest r m pc. refl)

pub compare_bound : (op : I32Compare) (a b : ℕ) → i32_compare_value op a b < 2 ^ 32
unfolding i32_compare_value U.i32_eq U.i32_ne U.i32_lt_s U.i32_lt_u U.i32_gt_s U.i32_gt_u U.i32_le_s
    U.i32_le_u U.i32_ge_s U.i32_ge_u
compare_bound I32Compare.eq a b = bool_bound _
compare_bound I32Compare.ne a b = bool_bound _
compare_bound I32Compare.lt_s a b = bool_bound _
compare_bound I32Compare.lt_u a b = bool_bound _
compare_bound I32Compare.gt_s a b = bool_bound _
compare_bound I32Compare.gt_u a b = bool_bound _
compare_bound I32Compare.le_s a b = bool_bound _
compare_bound I32Compare.le_u a b = bool_bound _
compare_bound I32Compare.ge_s a b = bool_bound _
compare_bound I32Compare.ge_u a b = bool_bound _

pub unary-Leads :
    (op : I32Unary) (a : ℕ) → Leads (unary_code op ∷ []) 0 (a ∷ []) (i32_unary_value op a ∷ [])
unfolding local_step i32_unary_value U.i32_clz U.i32_ctz U.i32_popcnt
unary-Leads I32Unary.clz a = takes_one Opcode.i32_clz a _ (λ rest r m pc. refl)
unary-Leads I32Unary.ctz a = takes_one Opcode.i32_ctz a _ (λ rest r m pc. refl)
unary-Leads I32Unary.popcnt a = takes_one Opcode.i32_popcnt a _ (λ rest r m pc. refl)
unary-Leads I32Unary.extend8_s a = takes_one Opcode.i32_extend8_s a _ (λ rest r m pc. refl)
unary-Leads I32Unary.extend16_s a = takes_one Opcode.i32_extend16_s a _ (λ rest r m pc. refl)

pub unary_bound : (op : I32Unary) (a : ℕ) → i32_unary_value op a < 2 ^ 32
unfolding i32_unary_value U.i32_extend8_s U.i32_extend16_s
unary_bound I32Unary.clz a = omega (arith, leading_zeros-bound 32 a)
unary_bound I32Unary.ctz a = omega (arith, trailing_zeros-bound 32 a)
unary_bound I32Unary.popcnt a = omega (arith, count_ones-bound 32 a)
unary_bound I32Unary.extend8_s a = ground arith
unary_bound I32Unary.extend16_s a = ground arith

pub some_result : (P : ℕ → Type 0) {x v : ℕ} → some x ≡ some v → P x → P v
some_result P {x} {v} e p = let same : x ≡ v = cc in subst P same p

pub binary-Leads :
    (op : I32Binary) (a b : ℕ) {v : ℕ}
    → i32_binary_value op a b ≡ some v
    → Leads (binary_code op ∷ []) 0 (b ∷ a ∷ []) (v ∷ [])
unfolding local_step i32_binary_value U.i32_add U.i32_sub U.i32_mul U.i32_and U.i32_or U.i32_xor
binary-Leads I32Binary.add a b {v} e =
    some_result (λ v. Leads (Opcode.i32_add ∷ []) 0 (b ∷ a ∷ []) (v ∷ [])) e
      (takes_two Opcode.i32_add a b _ (λ rest r m pc. refl))
binary-Leads I32Binary.sub a b {v} e =
    some_result (λ v. Leads (Opcode.i32_sub ∷ []) 0 (b ∷ a ∷ []) (v ∷ [])) e
      (takes_two Opcode.i32_sub a b _ (λ rest r m pc. refl))
binary-Leads I32Binary.mul a b {v} e =
    some_result (λ v. Leads (Opcode.i32_mul ∷ []) 0 (b ∷ a ∷ []) (v ∷ [])) e
      (takes_two Opcode.i32_mul a b _ (λ rest r m pc. refl))
binary-Leads I32Binary.div_s a b e = absurd cc
binary-Leads I32Binary.div_u a b e = absurd cc
binary-Leads I32Binary.rem_s a b e = absurd cc
binary-Leads I32Binary.rem_u a b e = absurd cc
binary-Leads I32Binary.and a b {v} e =
    some_result (λ v. Leads (Opcode.i32_and ∷ []) 0 (b ∷ a ∷ []) (v ∷ [])) e
      (takes_two Opcode.i32_and a b _ (λ rest r m pc. refl))
binary-Leads I32Binary.or a b {v} e =
    some_result (λ v. Leads (Opcode.i32_or ∷ []) 0 (b ∷ a ∷ []) (v ∷ [])) e
      (takes_two Opcode.i32_or a b _ (λ rest r m pc. refl))
binary-Leads I32Binary.xor a b {v} e =
    some_result (λ v. Leads (Opcode.i32_xor ∷ []) 0 (b ∷ a ∷ []) (v ∷ [])) e
      (takes_two Opcode.i32_xor a b _ (λ rest r m pc. refl))
binary-Leads I32Binary.shl a b {v} e =
    some_result (λ v. Leads (Opcode.i32_shl ∷ []) 0 (b ∷ a ∷ []) (v ∷ [])) e
      (takes_two Opcode.i32_shl a b _ (λ rest r m pc. refl))
binary-Leads I32Binary.shr_s a b {v} e =
    some_result (λ v. Leads (Opcode.i32_shr_s ∷ []) 0 (b ∷ a ∷ []) (v ∷ [])) e
      (takes_two Opcode.i32_shr_s a b _ (λ rest r m pc. refl))
binary-Leads I32Binary.shr_u a b {v} e =
    some_result (λ v. Leads (Opcode.i32_shr_u ∷ []) 0 (b ∷ a ∷ []) (v ∷ [])) e
      (takes_two Opcode.i32_shr_u a b _ (λ rest r m pc. refl))
binary-Leads I32Binary.rotl a b {v} e =
    some_result (λ v. Leads (Opcode.i32_rotl ∷ []) 0 (b ∷ a ∷ []) (v ∷ [])) e
      (takes_two Opcode.i32_rotl a b _ (λ rest r m pc. refl))
binary-Leads I32Binary.rotr a b {v} e =
    some_result (λ v. Leads (Opcode.i32_rotr ∷ []) 0 (b ∷ a ∷ []) (v ∷ [])) e
      (takes_two Opcode.i32_rotr a b _ (λ rest r m pc. refl))

of_i32_bound : (z : ℤ) → of_i32 z < 2 ^ 32
of_i32_bound (pos n) = omega arith
of_i32_bound (negsuc n) = omega arith

mod_bound : (n : ℕ) → n % 2 ^ 32 < 2 ^ 32
mod_bound n = omega arith

quotient_bound : (a k : ℕ) → a < 2 ^ 32 → a / k < 2 ^ 32
quotient_bound a k p = omega (arith, div-le_self a k)

pub binary_bound :
    (op : I32Binary) (a b : ℕ) {v : ℕ}
    → a < 2 ^ 32
    → b < 2 ^ 32
    → i32_binary_value op a b ≡ some v
    → v < 2 ^ 32
unfolding i32_binary_value U.i32_shl U.i32_shr_s U.i32_shr_u U.i32_rotl U.i32_rotr
binary_bound I32Binary.add a b p q e = some_result (λ v. v < 2 ^ 32) e (omega arith)
binary_bound I32Binary.sub a b p q e = some_result (λ v. v < 2 ^ 32) e (omega arith)
binary_bound I32Binary.mul a b p q e = some_result (λ v. v < 2 ^ 32) e (mod_bound (a * b))
binary_bound I32Binary.div_s a b p q e = absurd cc
binary_bound I32Binary.div_u a b p q e = absurd cc
binary_bound I32Binary.rem_s a b p q e = absurd cc
binary_bound I32Binary.rem_u a b p q e = absurd cc
binary_bound I32Binary.and a b p q e = some_result (λ v. v < 2 ^ 32) e (bit_and_bound 32 a b p q)
binary_bound I32Binary.or a b p q e = some_result (λ v. v < 2 ^ 32) e (bit_or_bound 32 a b p q)
binary_bound I32Binary.xor a b p q e = some_result (λ v. v < 2 ^ 32) e (bit_xor_bound 32 a b p q)
binary_bound I32Binary.shl a b p q e =
    some_result (λ v. v < 2 ^ 32) e (mod_bound (a * 2 ^ bit_and b 0x1f))
binary_bound I32Binary.shr_s a b p q e = some_result (λ v. v < 2 ^ 32) e (of_i32_bound _)
binary_bound I32Binary.shr_u a b p q e = some_result (λ v. v < 2 ^ 32) e (quotient_bound a _ p)
binary_bound I32Binary.rotl a b p q e =
    some_result (λ v. v < 2 ^ 32) e
      (bit_or_bound 32 _ _ (mod_bound (a * 2 ^ (b % 32))) (quotient_bound a _ p))
binary_bound I32Binary.rotr a b p q e =
    some_result (λ v. v < 2 ^ 32) e
      (bit_or_bound 32 _ _ (quotient_bound a _ p) (mod_bound (a * 2 ^ (32 - b % 32))))
