-- ===== src/Compiler/FuncBuilder.antt =====
-- src/compiler/func_builder.rs: the translation of a function. The validator, which belongs to the
-- package wasmparser, and the readers are not there: a function is the list of its groups of locals,
-- each an amount and a type, and the closure that visits its operators.
use rwasm.Base.{ℕ, zero, suc, ◌+◌, ◌-◌, ◌*◌, ◌%◌, ◌^◌, min, List, [], ◌∷◌, ltb}
use rwasm.Types.Opcode.{Opcode}
use rwasm.Types.Value.{ValType}
use rwasm.Compiler.Error.{not_supported_local_type}
use rwasm.Compiler.FuncTypeRegistry.{result_cells}
use rwasm.Compiler.Translator.{
  FuelCosts, Tr, ◌>>=◌, ◌>>◌, pure, done, failed, get, emit, push_n, bump_fuel_consumption,
}
use rwasm.Compiler.Translator.Locals.{is_wide, when}
use rwasm.Compiler.Translator.Function.{prepare, finish}

-- `saturating_add` over the groups.
unfoldable pub total_body_locals : ℕ → List (ℕ × ValType) → ℕ
total_body_locals total [] = total
total_body_locals total ((amount, _) ∷ groups) =
    total_body_locals (min (total + amount) (2 ^ 32 - 1)) groups

unfoldable pub replicate : ℕ → ValType → List ValType → List ValType
replicate zero ty tys = tys
replicate (suc n) ty tys = replicate n ty (ty ∷ tys)

abbrev supported : ValType → Tr (Unit {0})
supported ValType.v128 t = failed not_supported_local_type
supported _ t = done tt t

abbrev push_locals : ℕ → ValType → Tr (Unit {0})
push_locals amount value_type t =
    done tt (record t { stack_types = replicate amount value_type t.stack_types })

-- A group of locals: its cells are zeros, counted on an `u32`.
unfoldable pub define_locals : ℕ → ValType → Tr (Unit {0})
unfolding replicate
define_locals amount value_type = do
  supported value_type
  push_locals amount value_type
  emit (Opcode.bulk_const (amount * result_cells value_type % 2 ^ 32) ∷ [])
  push_n amount
  when (is_wide value_type) (push_n amount)

unfoldable pub define_all : List (ℕ × ValType) → Tr (Unit {0})
unfolding define_locals
define_all [] = pure tt
define_all ((amount, value_type) ∷ groups) = define_locals amount value_type >> define_all groups

abbrev charge_body_locals : FuelCosts → ℕ → Tr (Unit {0})
charge_body_locals costs cost = when (ltb 0 cost) (bump_fuel_consumption cost)

unfoldable pub translate_locals : FuelCosts → List (ℕ × ValType) → Tr (Unit {0})
unfolding total_body_locals define_all bump_fuel_consumption
translate_locals costs groups = do
  t ← get
  when t.consume_fuel_for_params_and_locals
      (charge_body_locals costs (costs.fuel_for_locals (total_body_locals 0 groups)))
  define_all groups

-- The height is written into the check at the end.
unfoldable pub translate_stack_alloc : Tr (Unit {0})
translate_stack_alloc = emit (Opcode.stack_check 4294967295 ∷ [])

unfoldable pub translate : FuelCosts → ℕ → List (ℕ × ValType) → Tr (Unit {0}) → Tr (Unit {0})
unfolding prepare bump_fuel_consumption translate_stack_alloc translate_locals finish
translate costs func_idx groups translate_operators = do
  prepare costs func_idx
  bump_fuel_consumption costs.base
  translate_stack_alloc
  translate_locals costs groups
  translate_operators
  finish
