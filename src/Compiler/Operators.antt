-- ===== src/Compiler/Operators.antt =====
-- The straight-line operators of Wasm on integers, what the translation does at each, and what the
-- standard says that they mean, on values.
pub mod Values
pub mod Code
pub mod Emits
pub mod Depth
pub mod Local
pub mod Write
pub mod Assign
pub mod Integers
pub mod Wide
pub mod Select
pub mod Stack
pub mod Inversion
pub mod Charge
pub mod Sound
pub mod Placed
pub mod Visit
pub mod Sequence
pub mod Execution
pub mod Return
use rwasm.Base.{
  ℕ, zero, suc, ◌+◌, ◌-◌, ◌*◌, ◌/◌, ◌%◌, ◌^◌, Option, some, none, List, [], ◌∷◌, ◌++◌, bit_and,
  bit_or, ◌≡◌, bit_xor, length, ◌==◌, if◌then◌else◌,
}
use mathlib.Core.Option
use rwasm.Types.Value.{Value, ValType, ty}
use rwasm.Compiler.FuncTypeRegistry.{ValType-discrete}
use rwasm.Types.UntypedValue as U
use rwasm.Types.UntypedValue.{of_bool, leading_zeros, trailing_zeros, count_ones}
use rwasm.Isa.Words.{sign_extend}
use rwasm.Compiler.Translator.{FuelCosts, Tr}
use rwasm.Compiler.Translator.Locals as Locals
use rwasm.Compiler.Translator.Numeric as Numeric
use rwasm.Compiler.Translator.Numeric.{
  I32Compare, I32Unary, I32Binary, I64Unary, I64Binary, Conversion,
}

pub data Operator : Type 0 where
  local_get local_set local_tee : ℕ → Operator
  drop select : Operator
  i32_const i64_const : ℕ → Operator
  i32_eqz i64_eqz : Operator
  i32_compare : I32Compare → Operator
  i32_unary : I32Unary → Operator
  i32_binary : I32Binary → Operator
  i64_unary : I64Unary → Operator
  i64_binary : I64Binary → Operator
  conversion : Conversion → Operator

unfoldable pub visit : FuelCosts → Operator → Tr (Unit {0})
unfolding Locals.visit_local_get Locals.visit_local_set Locals.visit_local_tee Locals.visit_drop
    Locals.visit_select Locals.visit_i32_const Locals.visit_i64_const Numeric.visit_i32_eqz
    Numeric.visit_i64_eqz Numeric.visit_i32_compare Numeric.visit_i32_unary Numeric.visit_i32_binary
    Numeric.visit_i64_unary Numeric.visit_i64_binary Numeric.visit_conversion
visit costs (Operator.local_get i) = Locals.visit_local_get costs i
visit costs (Operator.local_set i) = Locals.visit_local_set costs i
visit costs (Operator.local_tee i) = Locals.visit_local_tee costs i
visit costs Operator.drop = Locals.visit_drop
visit costs Operator.select = Locals.visit_select costs
visit costs (Operator.i32_const v) = Locals.visit_i32_const costs v
visit costs (Operator.i64_const v) = Locals.visit_i64_const costs v
visit costs Operator.i32_eqz = Numeric.visit_i32_eqz costs
visit costs Operator.i64_eqz = Numeric.visit_i64_eqz costs
visit costs (Operator.i32_compare op) = Numeric.visit_i32_compare costs op
visit costs (Operator.i32_unary op) = Numeric.visit_i32_unary costs op
visit costs (Operator.i32_binary op) = Numeric.visit_i32_binary costs op
visit costs (Operator.i64_unary op) = Numeric.visit_i64_unary costs op
visit costs (Operator.i64_binary op) = Numeric.visit_i64_binary costs op
visit costs (Operator.conversion op) = Numeric.visit_conversion costs op

-- A local is addressed by the number of locals declared before it; the last one stands first.
unfoldable pub local_at : ℕ → List Value → Option Value
local_at i [] = none
local_at i (v ∷ vs) = if i == length vs then some v else local_at i vs

unfoldable pub with_local : ℕ → Value → List Value → List Value
with_local i w [] = []
with_local i w (v ∷ vs) = if i == length vs then w ∷ vs else v ∷ with_local i w vs

-- The numbers that an operator finds on the stack, the last one first.
unfoldable pub pop_i32 : List Value → Option (ℕ × List Value)
pop_i32 (Value.i32 a ∷ vs) = some (a, vs)
pop_i32 _ = none

unfoldable pub pop_i64 : List Value → Option (ℕ × List Value)
pop_i64 (Value.i64 a ∷ vs) = some (a, vs)
pop_i64 _ = none

unfoldable pub i32_compare_value : I32Compare → ℕ → ℕ → ℕ
i32_compare_value I32Compare.eq a b = U.i32_eq a b
i32_compare_value I32Compare.ne a b = U.i32_ne a b
i32_compare_value I32Compare.lt_s a b = U.i32_lt_s a b
i32_compare_value I32Compare.lt_u a b = U.i32_lt_u a b
i32_compare_value I32Compare.gt_s a b = U.i32_gt_s a b
i32_compare_value I32Compare.gt_u a b = U.i32_gt_u a b
i32_compare_value I32Compare.le_s a b = U.i32_le_s a b
i32_compare_value I32Compare.le_u a b = U.i32_le_u a b
i32_compare_value I32Compare.ge_s a b = U.i32_ge_s a b
i32_compare_value I32Compare.ge_u a b = U.i32_ge_u a b

unfoldable pub i32_unary_value : I32Unary → ℕ → ℕ
i32_unary_value I32Unary.clz a = leading_zeros 32 a
i32_unary_value I32Unary.ctz a = trailing_zeros 32 a
i32_unary_value I32Unary.popcnt a = count_ones 32 a
i32_unary_value I32Unary.extend8_s a = U.i32_extend8_s a
i32_unary_value I32Unary.extend16_s a = U.i32_extend16_s a

-- An operator that can trap is left out.
unfoldable pub i32_binary_value : I32Binary → ℕ → ℕ → Option ℕ
i32_binary_value I32Binary.add a b = some ((a + b) % 2 ^ 32)
i32_binary_value I32Binary.sub a b = some ((a + 2 ^ 32 - b) % 2 ^ 32)
i32_binary_value I32Binary.mul a b = some (a * b % 2 ^ 32)
i32_binary_value I32Binary.and a b = some (bit_and a b)
i32_binary_value I32Binary.or a b = some (bit_or a b)
i32_binary_value I32Binary.xor a b = some (bit_xor a b)
i32_binary_value I32Binary.shl a b = some (U.i32_shl a b)
i32_binary_value I32Binary.shr_s a b = some (U.i32_shr_s a b)
i32_binary_value I32Binary.shr_u a b = some (U.i32_shr_u a b)
i32_binary_value I32Binary.rotl a b = some (U.i32_rotl a b)
i32_binary_value I32Binary.rotr a b = some (U.i32_rotr a b)
i32_binary_value _ a b = none

unfoldable pub i64_unary_value : I64Unary → ℕ → ℕ
i64_unary_value I64Unary.clz a = leading_zeros 64 a
i64_unary_value I64Unary.ctz a = trailing_zeros 64 a
i64_unary_value I64Unary.popcnt a = count_ones 64 a
i64_unary_value I64Unary.extend8_s a = sign_extend 8 a
i64_unary_value I64Unary.extend16_s a = sign_extend 16 a
i64_unary_value I64Unary.extend32_s a = sign_extend 32 a

-- Division, remainder, the signed right shift and the rotations are left out.
unfoldable pub i64_binary_value : I64Binary → ℕ → ℕ → Option ℕ
i64_binary_value I64Binary.add a b = some ((a + b) % 2 ^ 64)
i64_binary_value I64Binary.sub a b = some ((a + 2 ^ 64 - b) % 2 ^ 64)
i64_binary_value I64Binary.mul a b = some (a * b % 2 ^ 64)
i64_binary_value I64Binary.and a b = some (bit_and a b)
i64_binary_value I64Binary.or a b = some (bit_or a b)
i64_binary_value I64Binary.xor a b = some (bit_xor a b)
i64_binary_value I64Binary.shl a b = some (a * 2 ^ (b % 64) % 2 ^ 64)
i64_binary_value I64Binary.div_s a b = none
i64_binary_value I64Binary.div_u a b = none
i64_binary_value I64Binary.rem_s a b = none
i64_binary_value I64Binary.rem_u a b = none
i64_binary_value I64Binary.shr_s a b = none
i64_binary_value I64Binary.shr_u a b = some (a / 2 ^ (b % 64))
i64_binary_value I64Binary.rotl a b = none
i64_binary_value I64Binary.rotr a b = none

infixl 5 ◌>>=◌
abbrev pub ◌>>=◌ : {A B : Type 0} → Option A → (A → Option B) → Option B
none >>= f = none
some a >>= f = f a

-- Operands and locals.
abbrev pub Values : Type 0
Values = List Value × List Value

abbrev pub same : {a b : ValType} → Dec (a ≡ b) → Option (a ≡ b)
same (yes e) = some e
same (no _) = none

abbrev pub on_binary :
    (List Value → Option (ℕ × List Value))
    → (ℕ → ℕ → Option Value)
    → List Value
    → Option (List Value)
on_binary pop f os = do (b, os1) ← pop os; (a, os2) ← pop os1; v ← f a b; some (v ∷ os2)

abbrev pub on_unary :
    (List Value → Option (ℕ × List Value)) → (ℕ → Value) → List Value → Option (List Value)
on_unary pop f os = do (a, os1) ← pop os; some (f a ∷ os1)

-- `select` on its last operand and the two values below.
unfoldable pub choose : ℕ → List Value → Option (List Value)
unfolding ValType-discrete ty
choose c (b ∷ a ∷ os) = do
  _ ← same (ValType-discrete (ty a) (ty b))
  some ((if c == 0 then b else a) ∷ os)
choose c _ = none

-- What an operator makes of the operands alone.
unfoldable pub apply : Operator → List Value → Option (List Value)
unfolding pop_i32 pop_i64 i32_compare_value i32_unary_value i32_binary_value i64_unary_value
    i64_binary_value choose
apply Operator.drop (_ ∷ os) = some os
apply Operator.select os = do (c, os1) ← pop_i32 os; choose c os1
apply (Operator.i32_const v) os = some (Value.i32 v ∷ os)
apply (Operator.i64_const v) os = some (Value.i64 v ∷ os)
apply Operator.i32_eqz os = on_unary pop_i32 (λ a. Value.i32 (of_bool (a == 0))) os
apply Operator.i64_eqz os = on_unary pop_i64 (λ a. Value.i32 (of_bool (a == 0))) os
apply (Operator.i32_compare op) os =
    on_binary pop_i32 (λ a b. some (Value.i32 (i32_compare_value op a b))) os
apply (Operator.i32_unary op) os = on_unary pop_i32 (λ a. Value.i32 (i32_unary_value op a)) os
apply (Operator.i32_binary op) os =
    on_binary pop_i32 (λ a b. Option.map Value.i32 (i32_binary_value op a b)) os
apply (Operator.i64_unary op) os = on_unary pop_i64 (λ a. Value.i64 (i64_unary_value op a)) os
apply (Operator.i64_binary op) os =
    on_binary pop_i64 (λ a b. Option.map Value.i64 (i64_binary_value op a b)) os
apply (Operator.conversion Conversion.i32_wrap_i64) os =
    on_unary pop_i64 (λ a. Value.i32 (a % 2 ^ 32)) os
apply (Operator.conversion Conversion.i64_extend_i32_s) os =
    on_unary pop_i32 (λ a. Value.i64 (sign_extend 32 a)) os
apply (Operator.conversion Conversion.i64_extend_i32_u) os = on_unary pop_i32 Value.i64 os
apply _ os = none

-- The meaning of an operator, where validation lets it stand.
unfoldable pub meaning : Operator → List Value → List Value → Option Values
unfolding apply local_at with_local ValType-discrete ty
meaning (Operator.local_get i) os ls = do v ← local_at i ls; some (v ∷ os, ls)
meaning (Operator.local_set i) (v ∷ os) ls = do
  old ← local_at i ls
  _ ← same (ValType-discrete (ty old) (ty v))
  some (os, with_local i v ls)
meaning (Operator.local_tee i) (v ∷ os) ls = do
  old ← local_at i ls
  _ ← same (ValType-discrete (ty old) (ty v))
  some (v ∷ os, with_local i v ls)
meaning op os ls = Option.map (λ os'. (os', ls)) (apply op os)
