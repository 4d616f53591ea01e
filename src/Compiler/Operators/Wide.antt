-- ===== src/Compiler/Operators/Wide.antt =====
-- What the sequences on 64-bit integers do to the stack, and how large the results are.
use native.Mathlib.Nat
use rwasm.Base.{ℕ, ◌*◌, ◌%◌, ◌^◌, ◌<◌, ◌≡◌, List, [], ◌++◌, some, arith}
use rwasm.Base.Bits.{bit_and_bound, bit_or_bound, bit_xor_bound}
use rwasm.Isa.AddSub.{op_i64_add, msh_i64_add, op_i64_sub, msh_i64_sub}
use rwasm.Isa.Mul.{op_i64_mul, msh_i64_mul}
use rwasm.Isa.Bitwise.{
  op_i64_clz, msh_i64_clz, op_i64_ctz, msh_i64_ctz, op_i64_popcnt, msh_i64_popcnt, op_i64_and,
  msh_i64_and, op_i64_or, msh_i64_or, op_i64_xor, msh_i64_xor,
}
use rwasm.Isa.Bitwise.Shl.{op_i64_shl, msh_i64_shl}
use rwasm.Isa.Shifts.{op_i64_shl_lem}
use rwasm.Isa.Bitwise.ShrU.{op_i64_shr_u, msh_i64_shr_u}
use rwasm.Isa.RightShift.{op_i64_shr_u_lem}
use rwasm.Isa.Conv.{
  op_i64_extend8_s, msh_i64_extend8_s, op_i64_extend16_s, msh_i64_extend16_s, op_i64_extend32_s,
  msh_i64_extend32_s,
}
use rwasm.Isa.Words.{cells64}
use rwasm.Isa.Arithmetic.{op_i64_add_lem, op_i64_sub_lem, op_i64_mul_lem}
use rwasm.Isa.Logic.{op_i64_and_lem, op_i64_or_lem, op_i64_xor_lem}
use rwasm.Isa.Counts.{
  op_i64_clz_lem, op_i64_ctz_lem, op_i64_popcnt_lem, leading_zeros-bound, trailing_zeros-bound,
  count_ones-bound,
}
use rwasm.Isa.Conversions.{op_i64_extend8_s_lem, op_i64_extend16_s_lem, op_i64_extend32_s_lem}
use rwasm.Types.Opcode.{Opcode}
use rwasm.Compiler.Translator.Numeric.{I64Unary, I64Binary}
use rwasm.Compiler.Operators.{i64_unary_value, i64_binary_value}
use rwasm.Compiler.Operators.Code.{Leads, Computes-Leads}
use rwasm.Compiler.Operators.Integers.{some_result}

unfoldable pub wide_unary_code : I64Unary → List Opcode × ℕ
wide_unary_code I64Unary.clz = (op_i64_clz, msh_i64_clz)
wide_unary_code I64Unary.ctz = (op_i64_ctz, msh_i64_ctz)
wide_unary_code I64Unary.popcnt = (op_i64_popcnt, msh_i64_popcnt)
wide_unary_code I64Unary.extend8_s = (op_i64_extend8_s, msh_i64_extend8_s)
wide_unary_code I64Unary.extend16_s = (op_i64_extend16_s, msh_i64_extend16_s)
wide_unary_code I64Unary.extend32_s = (op_i64_extend32_s, msh_i64_extend32_s)

unfoldable pub wide_binary_code : I64Binary → List Opcode × ℕ
wide_binary_code I64Binary.add = (op_i64_add, msh_i64_add)
wide_binary_code I64Binary.sub = (op_i64_sub, msh_i64_sub)
wide_binary_code I64Binary.mul = (op_i64_mul, msh_i64_mul)
wide_binary_code I64Binary.and = (op_i64_and, msh_i64_and)
wide_binary_code I64Binary.or = (op_i64_or, msh_i64_or)
wide_binary_code I64Binary.xor = (op_i64_xor, msh_i64_xor)
wide_binary_code I64Binary.shl = (op_i64_shl, msh_i64_shl)
wide_binary_code I64Binary.div_s = ([], 0)
wide_binary_code I64Binary.div_u = ([], 0)
wide_binary_code I64Binary.rem_s = ([], 0)
wide_binary_code I64Binary.rem_u = ([], 0)
wide_binary_code I64Binary.shr_s = ([], 0)
wide_binary_code I64Binary.shr_u = (op_i64_shr_u, msh_i64_shr_u)
wide_binary_code I64Binary.rotl = ([], 0)
wide_binary_code I64Binary.rotr = ([], 0)

mod_bound : (n : ℕ) → n % 2 ^ 64 < 2 ^ 64
mod_bound n = omega arith

module _ (a : ℕ) (p : a < 2 ^ 64) where
  pub wide_unary-Leads :
      (op : I64Unary)
      → Leads
          (wide_unary_code op).0
          (wide_unary_code op).1
          (cells64 a)
          (cells64 (i64_unary_value op a))
  unfolding wide_unary_code i64_unary_value
  wide_unary-Leads I64Unary.clz = Computes-Leads (op_i64_clz_lem a p) (omega arith)
  wide_unary-Leads I64Unary.ctz = Computes-Leads (op_i64_ctz_lem a p) (omega arith)
  wide_unary-Leads I64Unary.popcnt = Computes-Leads (op_i64_popcnt_lem a p) (omega arith)
  wide_unary-Leads I64Unary.extend8_s = Computes-Leads (op_i64_extend8_s_lem a p) (omega arith)
  wide_unary-Leads I64Unary.extend16_s = Computes-Leads (op_i64_extend16_s_lem a p) (omega arith)
  wide_unary-Leads I64Unary.extend32_s = Computes-Leads (op_i64_extend32_s_lem a p) (omega arith)

  pub wide_unary_bound : (op : I64Unary) → i64_unary_value op a < 2 ^ 64
  unfolding i64_unary_value
  wide_unary_bound I64Unary.clz = omega (arith, leading_zeros-bound 64 a)
  wide_unary_bound I64Unary.ctz = omega (arith, trailing_zeros-bound 64 a)
  wide_unary_bound I64Unary.popcnt = omega (arith, count_ones-bound 64 a)
  wide_unary_bound I64Unary.extend8_s = ground arith
  wide_unary_bound I64Unary.extend16_s = ground arith
  wide_unary_bound I64Unary.extend32_s = ground arith

  module _ (b : ℕ) (q : b < 2 ^ 64) {v : ℕ} where
    pub wide_binary-Leads :
        (op : I64Binary)
        → i64_binary_value op a b ≡ some v
        → Leads (wide_binary_code op).0 (wide_binary_code op).1 (cells64 b ++ cells64 a) (cells64 v)
    unfolding wide_binary_code i64_binary_value
    wide_binary-Leads I64Binary.add e =
        some_result (λ v. Leads op_i64_add msh_i64_add (cells64 b ++ cells64 a) (cells64 v)) e
          (Computes-Leads (op_i64_add_lem a b p q) (omega arith))
    wide_binary-Leads I64Binary.sub e =
        some_result (λ v. Leads op_i64_sub msh_i64_sub (cells64 b ++ cells64 a) (cells64 v)) e
          (Computes-Leads (op_i64_sub_lem a b p q) (omega arith))
    wide_binary-Leads I64Binary.mul e =
        some_result (λ v. Leads op_i64_mul msh_i64_mul (cells64 b ++ cells64 a) (cells64 v)) e
          (Computes-Leads (op_i64_mul_lem a b p q) (omega arith))
    wide_binary-Leads I64Binary.and e =
        some_result (λ v. Leads op_i64_and msh_i64_and (cells64 b ++ cells64 a) (cells64 v)) e
          (Computes-Leads (op_i64_and_lem a b p q) (omega arith))
    wide_binary-Leads I64Binary.or e =
        some_result (λ v. Leads op_i64_or msh_i64_or (cells64 b ++ cells64 a) (cells64 v)) e
          (Computes-Leads (op_i64_or_lem a b p q) (omega arith))
    wide_binary-Leads I64Binary.xor e =
        some_result (λ v. Leads op_i64_xor msh_i64_xor (cells64 b ++ cells64 a) (cells64 v)) e
          (Computes-Leads (op_i64_xor_lem a b p q) (omega arith))
    wide_binary-Leads I64Binary.shl e =
        some_result (λ v. Leads op_i64_shl msh_i64_shl (cells64 b ++ cells64 a) (cells64 v)) e
          (Computes-Leads (op_i64_shl_lem a b p q) (omega arith))
    wide_binary-Leads I64Binary.div_s e = absurd cc
    wide_binary-Leads I64Binary.div_u e = absurd cc
    wide_binary-Leads I64Binary.rem_s e = absurd cc
    wide_binary-Leads I64Binary.rem_u e = absurd cc
    wide_binary-Leads I64Binary.shr_s e = absurd cc
    wide_binary-Leads I64Binary.shr_u e =
        some_result (λ v. Leads op_i64_shr_u msh_i64_shr_u (cells64 b ++ cells64 a) (cells64 v)) e
          (Computes-Leads (op_i64_shr_u_lem a b p q) (omega arith))
    wide_binary-Leads I64Binary.rotl e = absurd cc
    wide_binary-Leads I64Binary.rotr e = absurd cc

    pub wide_binary_bound : (op : I64Binary) → i64_binary_value op a b ≡ some v → v < 2 ^ 64
    unfolding i64_binary_value
    wide_binary_bound I64Binary.add e = some_result (λ v. v < 2 ^ 64) e (omega arith)
    wide_binary_bound I64Binary.sub e = some_result (λ v. v < 2 ^ 64) e (omega arith)
    wide_binary_bound I64Binary.mul e = some_result (λ v. v < 2 ^ 64) e (mod_bound (a * b))
    wide_binary_bound I64Binary.and e = some_result (λ v. v < 2 ^ 64) e (bit_and_bound 64 a b p q)
    wide_binary_bound I64Binary.or e = some_result (λ v. v < 2 ^ 64) e (bit_or_bound 64 a b p q)
    wide_binary_bound I64Binary.xor e = some_result (λ v. v < 2 ^ 64) e (bit_xor_bound 64 a b p q)
    wide_binary_bound I64Binary.shl e =
        some_result (λ v. v < 2 ^ 64) e (mod_bound (a * 2 ^ (b % 64)))
    wide_binary_bound I64Binary.div_s e = absurd cc
    wide_binary_bound I64Binary.div_u e = absurd cc
    wide_binary_bound I64Binary.rem_s e = absurd cc
    wide_binary_bound I64Binary.rem_u e = absurd cc
    wide_binary_bound I64Binary.shr_s e = absurd cc
    wide_binary_bound I64Binary.shr_u e =
        some_result (λ v. v < 2 ^ 64) e (omega (arith, p, Nat.div-le_self a (2 ^ (b % 64))))
    wide_binary_bound I64Binary.rotl e = absurd cc
    wide_binary_bound I64Binary.rotr e = absurd cc
