-- ===== src/Compiler/Translator.antt =====
-- src/compiler/translator.rs: the state of the translation of a function, `InstructionTranslator`
-- with its allocations, and the small operations on it. The stack of types is a list with the last
-- type first.
pub mod Kept
pub mod Frames
pub mod Locals
pub mod Numeric
pub mod Control
pub mod Branches
pub mod Calls
pub mod Function
pub mod Memory
pub mod Tables
pub mod BrTable
pub mod Returns
pub mod Ends
use rwasm.Base.{
  ℕ, zero, suc, ◌+◌, ◌^◌, Bool, true, false, Option, some, none, List, [], ◌∷◌, ◌++◌, length,
  get_elem?, set, ltb, if◌then◌else◌,
}
use rwasm.Types.Opcode.{Opcode}
use rwasm.Types.Value.{ValType}
use rwasm.Compiler.Error.{Result, ok, err, CompilationError, block_fuel_out_of_bounds}
use rwasm.Compiler.ControlFlow.{ControlFrame, consume_fuel_instr}
use rwasm.Compiler.LabelRegistry.{LabelRegistry, new_label, pin_label, try_pin_label}
use rwasm.Compiler.LabelRegistry as Labels
use rwasm.Compiler.ValueStackHeight.{ValueStackHeight}
use rwasm.Compiler.ValueStackHeight as Height
use rwasm.Compiler.FuncTypeRegistry.{FuncTypeRegistry}
use rwasm.Compiler.Snippets.{SnippetCall}
use rwasm.Types.BranchOffset.{BranchOffset}

-- src/compiler/intrinsic.rs.
pub data Intrinsic : Type 0 where
  replace : List Opcode → Intrinsic
  remove : Intrinsic

-- The costs that the package rwasm-fuel-policy sets.
pub record FuelCosts : Type 0 where
  pub base : ℕ
  pub entity : ℕ
  pub load : ℕ
  pub store : ℕ
  pub call : ℕ
  pub fuel_for_locals : ℕ → ℕ

pub record Translator : Type 0 where
  pub reachable : Bool
  pub control_frames : List ControlFrame
  pub labels : LabelRegistry
  pub instruction_set : List Opcode
  pub stack_types : List ValType
  pub func_type_registry : FuncTypeRegistry
  pub compiled_funcs : List ℕ
  pub globals : List ValType
  pub func_offsets : List ℕ
  pub snippet_calls : List SnippetCall
  pub intrinsics : List (ℕ × Intrinsic)
  pub entrypoint_bytecode : List Opcode
  pub stack_height : ValueStackHeight
  pub with_consume_fuel : Bool
  pub consume_fuel_for_params_and_locals : Bool
  pub locals : ℕ
  pub with_code_snippets : Bool

-- An error of the compilation, or a panic.
pub data Outcome (A : Type 0) : Type 0 where
  done : A → Translator → Outcome A
  failed : CompilationError → Outcome A
  panic : Outcome A

abbrev pub Tr : Type 0 → Type 0
Tr A = Translator → Outcome A

abbrev pub and_then : {A B : Type 0} → Outcome A → (A → Tr B) → Outcome B
and_then (done a t) f = f a t
and_then (failed e) f = failed e
and_then panic f = panic

infixl 5 ◌>>=◌ ◌>>◌
abbrev pub ◌>>=◌ : {A B : Type 0} → Tr A → (A → Tr B) → Tr B
◌>>=◌ m f t = and_then (m t) f

abbrev pub ◌>>◌ : {B : Type 0} → Tr (Unit {0}) → Tr B → Tr B
m >> k = m >>= λ _. k

abbrev pub pure : {A : Type 0} → A → Tr A
pure a t = done a t

abbrev pub get : Tr Translator
get t = done t t

-- A panic unless there is a value.
abbrev pub expect : {A : Type 0} → Option A → Tr A
expect none t = panic
expect (some a) t = done a t

-- The `?` of the source.
abbrev pub checked : {A : Type 0} → Result CompilationError A → Tr A
checked (ok a) t = done a t
checked (err e) t = failed e

abbrev pub emit : List Opcode → Tr (Unit {0})
emit code t = done tt (record t { instruction_set = t.instruction_set ++ code })

abbrev pub put_reachable : Bool → Tr (Unit {0})
put_reachable b t = done tt (record t { reachable = b })

abbrev pub put_code : List Opcode → Tr (Unit {0})
put_code code t = done tt (record t { instruction_set = code })

abbrev pub put_frames : List ControlFrame → Tr (Unit {0})
put_frames frames t = done tt (record t { control_frames = frames })

abbrev pub put_labels : LabelRegistry → Tr (Unit {0})
put_labels labels t = done tt (record t { labels = labels })

abbrev pub put_height : ValueStackHeight → Tr (Unit {0})
put_height h t = done tt (record t { stack_height = h })

unfoldable pub current_pc : Translator → ℕ
current_pc t = length t.instruction_set

-- `stack_types.push` and `stack_types.pop().unwrap()`.
abbrev pub push_stack_type : ValType → Tr (Unit {0})
push_stack_type ty t = done tt (record t { stack_types = ty ∷ t.stack_types })

abbrev pub popped : List ValType → Tr ValType
popped [] t = panic
popped (ty ∷ tys) t = done ty (record t { stack_types = tys })

abbrev pub pop_stack_type : Tr ValType
pop_stack_type t = popped t.stack_types t

-- The operations on the emulated height.
abbrev pub push_n : ℕ → Tr (Unit {0})
push_n n t = put_height (Height.push_n n t.stack_height) t

abbrev pub height_popped : Option ValueStackHeight → Tr (Unit {0})
height_popped none t = panic
height_popped (some h) t = put_height h t

abbrev pub pop_n : ℕ → Tr (Unit {0})
pop_n n t = height_popped (Height.pop_n n t.stack_height) t

abbrev pub push_type : ValType → Tr (Unit {0})
push_type ty t = put_height (Height.push_type ty t.stack_height) t

abbrev pub pop_type : ValType → Tr (Unit {0})
pop_type ty t = height_popped (Height.pop_type ty t.stack_height) t

abbrev pub shrink_to : ℕ → Tr (Unit {0})
shrink_to n t = height_popped (Height.shrink_to n t.stack_height) t

-- Labels.
unfoldable pub fresh_label : Tr ℕ
unfolding new_label
fresh_label t =
    let (label, labels) = new_label t.labels in done label (record t { labels = labels })

abbrev pub pinned_labels : Option (Result Labels.LabelError LabelRegistry) → Tr (Unit {0})
pinned_labels none t = panic
pinned_labels (some (err _)) t = panic
pinned_labels (some (ok labels)) t = put_labels labels t

-- `pin_label`: at the place that the next instruction gets.
unfoldable pub pin_here : ℕ → Tr (Unit {0})
unfolding pin_label current_pc
pin_here label t = pinned_labels (pin_label label (current_pc t) t.labels) t

abbrev labels_kept : Option LabelRegistry → Tr (Unit {0})
labels_kept none t = panic
labels_kept (some labels) t = put_labels labels t

unfoldable pub try_pin_here : ℕ → Tr (Unit {0})
unfolding try_pin_label current_pc
try_pin_here label t = labels_kept (try_pin_label label (current_pc t) t.labels) t

abbrev offset_of : Option (Result CompilationError BranchOffset × LabelRegistry) → Tr BranchOffset
offset_of none t = panic
offset_of (some (err e, labels)) t = failed e
offset_of (some (ok b, labels)) t = done b (record t { labels = labels })

unfoldable pub try_resolve_label_for : ℕ → ℕ → Tr BranchOffset
unfolding Labels.try_resolve_label
try_resolve_label_for label instr t = offset_of (Labels.try_resolve_label label instr t.labels) t

unfoldable pub try_resolve_label : ℕ → Tr BranchOffset
unfolding try_resolve_label_for current_pc
try_resolve_label label t = try_resolve_label_for label (current_pc t) t

-- Fuel.
unfoldable pub push_consume_fuel_empty : Tr ℕ
push_consume_fuel_empty t =
    done (length t.instruction_set)
      (record t { instruction_set = t.instruction_set ++ (Opcode.consume_fuel 0 ∷ []) })

abbrev bumped : ℕ → ℕ → Option Opcode → Tr (Unit {0})
bumped instr delta (some (Opcode.consume_fuel fuel)) t =
    if ltb (fuel + delta) (2 ^ 32)
    then done tt (record t {
      instruction_set = set t.instruction_set instr (Opcode.consume_fuel (fuel + delta));
    })
    else failed block_fuel_out_of_bounds
bumped instr delta _ t = panic

-- `InstructionSet::bump_fuel_consumption`.
unfoldable pub bump_instr : ℕ → ℕ → Tr (Unit {0})
bump_instr instr delta t = bumped instr delta (get_elem? t.instruction_set instr) t

abbrev pub bump_last : ℕ → Bool → Option ℕ → Tr (Unit {0})
bump_last delta enabled none t = done tt t
bump_last delta false (some instr) t = done tt t
bump_last delta true (some instr) t = bump_instr instr delta t

abbrev pub bump_frame : ℕ → List ControlFrame → Tr (Unit {0})
bump_frame delta [] t = panic
bump_frame delta (frame ∷ frames) t =
    bump_last delta t.with_consume_fuel (consume_fuel_instr frame) t

-- The most recent instruction that charges fuel charges `delta` more.
unfoldable pub bump_fuel_consumption : ℕ → Tr (Unit {0})
unfolding bump_instr consume_fuel_instr
bump_fuel_consumption delta t = bump_frame delta t.control_frames t

-- `translate_if_reachable`.
abbrev pub translate_if_reachable : Tr (Unit {0}) → Tr (Unit {0})
translate_if_reachable translator t = if t.reachable then translator t else done tt t
