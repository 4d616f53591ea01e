-- ===== src/Compiler/Translator/Function.antt =====
-- src/compiler/translator.rs: the beginning and the end of a function; src/compiler/locals_registry.rs,
-- whose only state is the number of locals.
use mathlib.Core.Option
use rwasm.Base.{
  ℕ, zero, suc, ◌+◌, ◌^◌, Option, some, none, List, [], ◌∷◌, ◌++◌, length, reverse, ltb, ◌==◌,
  if◌then◌else◌,
}
use rwasm.Types.Opcode.{Opcode}
use rwasm.Types.Value.{ValType}
use rwasm.Types.BranchOffset.{BranchOffset}
use rwasm.Compiler.Error.{Result, CompilationError}
use rwasm.Compiler.ControlFlow.{ControlFrame, block_frame, new_block}
use rwasm.Compiler.LabelRegistry.{LabelRegistry, resolved_users}
use rwasm.Compiler.LabelRegistry as Labels
use rwasm.Compiler.FuncTypeRegistry.{
  BlockType, resolve_func_type, resolve_original_func_type, resolve_func_type_signature,
}
use rwasm.Compiler.Translator.{
  FuelCosts, Outcome, Tr, ◌>>=◌, ◌>>◌, pure, done, failed, panic, get, expect, checked, emit,
  put_code, fresh_label, bump_fuel_consumption,
}
use rwasm.Compiler.Translator.Branches.{patch}
use rwasm.Compiler.Translator.Calls.{resolve_func_type_index}
use rwasm.Compiler.Translator.Control.{consume_fuel_if_metered}

-- `checked_add` on an `u32`.
unfoldable pub register_locals : ℕ → ℕ → Option ℕ
register_locals amount len_registered =
    if amount == 0
    then some len_registered
    else if ltb (len_registered + amount) (2 ^ 32)
    then some (len_registered + amount)
    else none

-- An error is a panic here.
abbrev or_panic : Outcome (Unit {0}) → Outcome (Unit {0})
or_panic (failed _) = panic
or_panic o = o

abbrev charge_locals : FuelCosts → ℕ → Tr (Unit {0})
charge_locals costs locals_count t =
    if t.consume_fuel_for_params_and_locals
    then or_panic (bump_fuel_consumption (costs.fuel_for_locals locals_count) t)
    else done tt t

abbrev open_frame : ControlFrame → List ValType → Tr (Unit {0})
open_frame frame params t = done tt (record t {
  control_frames = frame ∷ t.control_frames;
  stack_types = reverse params ++ t.stack_types;
})

abbrev put_locals : ℕ → Tr (Unit {0})
put_locals n t = done tt (record t { locals = n })

-- The heights are those of a new translator: 0, which the source asserts.
unfoldable pub init_func_body_block : FuelCosts → ℕ → Tr (Unit {0})
unfolding resolve_func_type_index fresh_label resolve_func_type_signature new_block
    resolve_original_func_type resolve_func_type register_locals bump_fuel_consumption
init_func_body_block costs func_idx = do
  t ← get
  func_type_idx ← expect (resolve_func_type_index func_idx t)
  end_label ← fresh_label
  signature_index ← expect (resolve_func_type_signature func_type_idx t.func_type_registry)
  emit (Opcode.signature_check signature_index ∷ [])
  consume_fuel ← consume_fuel_if_metered
  original ← expect (resolve_original_func_type func_type_idx t.func_type_registry)
  open_frame (block_frame (new_block (BlockType.func_type func_type_idx) end_label 0 consume_fuel))
      original.params
  func_type ← expect (resolve_func_type func_type_idx t.func_type_registry)
  locals ← expect (register_locals (length func_type.params) t.locals)
  put_locals locals
  charge_locals costs locals

-- `FuncTranslatorAllocations::reset`, and the offset of the new function.
abbrev start_function : Tr (Unit {0})
start_function t = done tt (record t {
  control_frames = [];
  labels = Labels.reset t.labels;
  stack_types = [];
  func_offsets = t.func_offsets ++ (length t.instruction_set ∷ []);
})

unfoldable pub prepare : FuelCosts → ℕ → Tr (Unit {0})
unfolding Labels.reset init_func_body_block
prepare costs func_idx = start_function >> init_func_body_block costs func_idx

-- Every branch that waited gets its offset.
unfoldable pub patch_all : List (ℕ × Result CompilationError BranchOffset) → Tr (Unit {0})
unfolding patch
patch_all [] = pure tt
patch_all ((user, offset) ∷ rest) = checked offset >>= λ offset. patch user offset >> patch_all rest

-- The maximum height goes into the stack check, which stands after the check of the signature and
-- the charge. Without one among the first instructions nothing is written.
unfoldable pub write_stack_check : ℕ → ℕ → List Opcode → Option (List Opcode)
write_stack_check zero max_stack_height code = some code
write_stack_check (suc n) max_stack_height [] = some []
write_stack_check (suc n) max_stack_height (Opcode.stack_check _ ∷ code) =
    some (Opcode.stack_check max_stack_height ∷ code)
write_stack_check (suc n) max_stack_height (Opcode.consume_fuel fuel ∷ code) =
    Option.map (λ rest. Opcode.consume_fuel fuel ∷ rest) (write_stack_check n max_stack_height code)
write_stack_check (suc n) max_stack_height (Opcode.signature_check i ∷ code) =
    Option.map (λ rest. Opcode.signature_check i ∷ rest) (write_stack_check n max_stack_height code)
write_stack_check (suc n) max_stack_height (_ ∷ code) = none

-- The same from the offset of the function on.
unfoldable pub write_stack_check_at : ℕ → ℕ → ℕ → List Opcode → Option (List Opcode)
unfolding write_stack_check
write_stack_check_at zero depth max_stack_height code =
    write_stack_check depth max_stack_height code
write_stack_check_at (suc n) depth max_stack_height [] = some []
write_stack_check_at (suc n) depth max_stack_height (op ∷ code) =
    Option.map (λ rest. op ∷ rest) (write_stack_check_at n depth max_stack_height code)

abbrev last_of : List ℕ → Option ℕ
last_of ns = first (reverse ns)
  where
    first : List ℕ → Option ℕ
    first [] = none
    first (n ∷ _) = some n

unfoldable pub finish : Tr (Unit {0})
unfolding resolved_users patch_all write_stack_check_at
finish = do
  t ← get
  users ← expect (resolved_users t.labels)
  patch_all users
  last_func_offset ← expect (last_of t.func_offsets)
  t' ← get
  code ← expect (
      write_stack_check_at last_func_offset (if t.with_consume_fuel then 3 else 2)
        t.stack_height.max_height t'.instruction_set)
  put_code code
