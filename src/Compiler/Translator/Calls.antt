-- ===== src/Compiler/Translator/Calls.antt =====
-- src/compiler/translator.rs: calls.
use rwasm.Base.{
  ℕ, zero, suc, ◌+◌, ◌%◌, ◌^◌, Bool, true, false, Option, some, none, List, [], ◌∷◌, ◌++◌, length,
  reverse, get_elem?, ◌==◌, if◌then◌else◌,
}
use rwasm.Types.Opcode.{Opcode}
use rwasm.Types.Value.{ValType}
use rwasm.Compiler.FuncTypeRegistry.{
  FuncType, resolve_func_type, resolve_original_func_type, resolve_func_type_signature,
}
use rwasm.Compiler.Translator.{
  FuelCosts, Intrinsic, Translator, Tr, ◌>>=◌, ◌>>◌, done, get, expect, emit, put_reachable, push_n,
  pop_n, pop_stack_type, bump_fuel_consumption, translate_if_reachable,
}
use rwasm.Compiler.Translator.Numeric.{pop_stack_types, push_stack_types}
use rwasm.Compiler.Translator.Frames.{drop_keep_return_call}
use rwasm.Compiler.Translator.Branches.{emit_drop_keep}

unfoldable pub resolve_func_type_index : ℕ → Translator → Option ℕ
resolve_func_type_index func_idx t = get_elem? t.compiled_funcs func_idx

unfoldable pub drops : ℕ → List Opcode
drops zero = []
drops (suc n) = Opcode.drop ∷ drops n

-- The first entry for the function, compared as `i32`s, of which both are below 2 ^ 32.
unfoldable pub find_intrinsic : ℕ → List (ℕ × Intrinsic) → Option Intrinsic
find_intrinsic function_index [] = none
find_intrinsic function_index ((index, intrinsic) ∷ rest) =
    if index == function_index then some intrinsic else find_intrinsic function_index rest

-- An intrinsic that removes the call may not have results.
abbrev removed : FuncType → Option (List Opcode)
removed func_type = without func_type.results
  where
    without : List ValType → Option (List Opcode)
    without [] = some (drops (length func_type.params))
    without (_ ∷ _) = none

abbrev call_code : FuncType → ℕ → Bool → Option Intrinsic → Option (List Opcode)
call_code func_type function_index is_return_call (some (Intrinsic.replace opcodes)) = some opcodes
call_code func_type function_index is_return_call (some Intrinsic.remove) = removed func_type
call_code func_type function_index true none =
    some (Opcode.return_call_internal (function_index + 1) ∷ [])
call_code func_type function_index false none =
    some (Opcode.call_internal (function_index + 1) ∷ [])

abbrev emit_at_entrypoint : List Opcode → Tr (Unit {0})
emit_at_entrypoint code t =
    done tt (record t { entrypoint_bytecode = t.entrypoint_bytecode ++ code })

unfoldable pub emit_function_call : ℕ → Bool → Bool → Tr (Unit {0})
unfolding resolve_func_type_index resolve_func_type find_intrinsic drops
emit_function_call function_index is_entrypoint is_return_call = do
  t ← get
  func_type_idx ← expect (resolve_func_type_index function_index t)
  func_type ← expect (resolve_func_type func_type_idx t.func_type_registry)
  code ← expect (
      call_code func_type function_index is_return_call
        (find_intrinsic function_index t.intrinsics))
  (if is_entrypoint then emit_at_entrypoint code else emit code)

unfoldable pub adjust_value_stack_for_call : ℕ → Tr (Unit {0})
unfolding resolve_func_type resolve_original_func_type pop_stack_types push_stack_types
adjust_value_stack_for_call func_type_idx = do
  t ← get
  func_type ← expect (resolve_func_type func_type_idx t.func_type_registry)
  pop_n (length func_type.params)
  push_n (length func_type.results)
  original ← expect (resolve_original_func_type func_type_idx t.func_type_registry)
  pop_stack_types (reverse original.params)
  push_stack_types original.results

module _ (costs : FuelCosts) where
  unfoldable pub visit_call : ℕ → Tr (Unit {0})
  unfolding bump_fuel_consumption resolve_func_type_index adjust_value_stack_for_call
      emit_function_call
  visit_call function_index = translate_if_reachable (do
    bump_fuel_consumption costs.call
    t ← get
    func_type_idx ← expect (resolve_func_type_index function_index t)
    adjust_value_stack_for_call func_type_idx
    emit_function_call function_index false false)

  unfoldable pub visit_call_indirect : ℕ → ℕ → Tr (Unit {0})
  unfolding bump_fuel_consumption adjust_value_stack_for_call resolve_func_type_signature
  visit_call_indirect func_type_index table_index = translate_if_reachable (do
    bump_fuel_consumption costs.call
    pop_n 1
    _ ← pop_stack_type
    adjust_value_stack_for_call func_type_index
    t ← get
    signature_idx ← expect (resolve_func_type_signature func_type_index t.func_type_registry)
    emit (Opcode.call_indirect signature_idx ∷ Opcode.table_get table_index ∷ []))

  unfoldable pub visit_return_call : ℕ → Tr (Unit {0})
  unfolding bump_fuel_consumption resolve_func_type_index resolve_func_type drop_keep_return_call
      emit_drop_keep emit_function_call
  visit_return_call function_index = translate_if_reachable (do
    t ← get
    func_type_idx ← expect (resolve_func_type_index function_index t)
    func_type ← expect (resolve_func_type func_type_idx t.func_type_registry)
    d ← drop_keep_return_call func_type
    bump_fuel_consumption costs.call
    emit_drop_keep d
    emit_function_call function_index false true
    put_reachable false)

  -- The index of the callee lies on top of its arguments and is kept with them: one more on an
  -- `u16`, which a release build wraps.
  unfoldable pub visit_return_call_indirect : ℕ → ℕ → Tr (Unit {0})
  unfolding bump_fuel_consumption resolve_func_type drop_keep_return_call emit_drop_keep
      resolve_func_type_signature
  visit_return_call_indirect func_type_index table_index = translate_if_reachable (do
    t ← get
    func_type ← expect (resolve_func_type func_type_index t.func_type_registry)
    pop_n 1
    _ ← pop_stack_type
    d ← drop_keep_return_call func_type
    bump_fuel_consumption costs.call
    emit_drop_keep (record d { keep = (d.keep + 1) % 2 ^ 16 })
    signature_idx ← expect (resolve_func_type_signature func_type_index t.func_type_registry)
    emit (Opcode.return_call_indirect signature_idx ∷ Opcode.table_get table_index ∷ [])
    put_reachable false)
