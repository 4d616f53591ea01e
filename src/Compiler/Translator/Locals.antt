-- ===== src/Compiler/Translator/Locals.antt =====
-- src/compiler/translator.rs: locals, globals, constants, `drop` and `select`. The amounts of fuel
-- are the parameter `costs`.
use rwasm.Base.{
  ℕ, zero, suc, ◌+◌, ◌-◌, ◌*◌, ◌/◌, ◌%◌, ◌^◌, Bool, true, false, Option, some, none, List, [], ◌∷◌,
  length, get_elem?, leb, if◌then◌else◌,
}
use rwasm.Base.Ints.{pos}
use rwasm.Types.Opcode.{Opcode}
use rwasm.Types.Value.{ValType}
use rwasm.Compiler.FuncTypeRegistry.{result_cells}
use rwasm.Compiler.Translator.{
  FuelCosts, Tr, ◌>>=◌, ◌>>◌, pure, get, expect, emit, push_stack_type, pop_stack_type, push_n,
  pop_n, bump_fuel_consumption, translate_if_reachable,
}

-- `ty == ValType::I64 || ty == ValType::F64`.
abbrev pub is_wide : ValType → Bool
is_wide ValType.i64 = true
is_wide ValType.f64 = true
is_wide _ = false

abbrev pub when : Bool → Tr (Unit {0}) → Tr (Unit {0})
when true m = m
when false m = pure tt

-- How far below the top a local stands, in values.
unfoldable pub relative_local_depth : ℕ → List ValType → Option ℕ
relative_local_depth local_idx stack_types =
    if leb local_idx (length stack_types) then some (length stack_types - local_idx) else none

-- `stack_types[len - depth]`.
abbrev pub type_at : ℕ → List ValType → Option ValType
type_at zero stack_types = none
type_at (suc i) stack_types = get_elem? stack_types i

-- The same depth in cells.
unfoldable pub get_expressed_depth : ℕ → List ValType → ℕ
get_expressed_depth zero ts = 0
get_expressed_depth (suc n) [] = 0
get_expressed_depth (suc n) (t ∷ ts) = result_cells t + get_expressed_depth n ts

abbrev pub get_local : ValType → ℕ → Tr (Unit {0})
get_local value expressed_depth = do
  emit (Opcode.local_get expressed_depth ∷ [])
  push_n 1
  when (is_wide value) (emit (Opcode.local_get expressed_depth ∷ []) >> push_n 1)
  push_stack_type value

abbrev pub local_get_body : ℕ → Tr (Unit {0})
local_get_body local_index = do
  t ← get
  local_depth ← expect (relative_local_depth local_index t.stack_types)
  value ← expect (type_at local_depth t.stack_types)
  get_local value (get_expressed_depth local_depth t.stack_types)

abbrev pub set_local : ValType → ℕ → Tr (Unit {0})
set_local value_type expressed_depth = do
  emit (Opcode.local_set expressed_depth ∷ [])
  when (is_wide value_type) (emit (Opcode.local_set expressed_depth ∷ []) >> pop_n 1)

abbrev pub local_set_body : ℕ → Tr (Unit {0})
local_set_body local_index = do
  pop_n 1
  value_type ← pop_stack_type
  t ← get
  local_depth ← expect (relative_local_depth local_index t.stack_types)
  set_local value_type (get_expressed_depth local_depth t.stack_types)

abbrev pub tee_local : ValType → ℕ → Tr (Unit {0})
tee_local value_type expressed_depth =
    if is_wide value_type
    then (do
      push_n 1
      pop_n 1
      emit (
          Opcode.local_tee (expressed_depth - 1)
          ∷ Opcode.local_get 2
          ∷ Opcode.local_set expressed_depth
          ∷ []))
    else emit (Opcode.local_tee expressed_depth ∷ [])

abbrev pub local_tee_body : ℕ → Tr (Unit {0})
local_tee_body local_index = do
  t ← get
  local_depth ← expect (relative_local_depth local_index t.stack_types)
  value_type ← expect (get_elem? t.stack_types 0)
  tee_local value_type (get_expressed_depth local_depth t.stack_types)

abbrev pub drop_body : Tr (Unit {0})
drop_body = do
  pop_n 1
  item_type ← pop_stack_type
  emit (Opcode.drop ∷ [])
  when (is_wide item_type) (pop_n 1 >> emit (Opcode.drop ∷ []))

abbrev pub select_item : ValType → Tr (Unit {0})
select_item item =
    if is_wide item
    then (do
      pop_n 1
      emit (
          Opcode.br_if_eqz (pos 4)
          ∷ Opcode.drop
          ∷ Opcode.drop
          ∷ Opcode.br (pos 3)
          ∷ Opcode.local_set 2
          ∷ Opcode.local_set 2
          ∷ []))
    else emit (Opcode.select ∷ [])

-- The item that stays on the stack of types is the one below the two that are popped.
abbrev pub select_body : Tr (Unit {0})
select_body = do pop_n 3; push_n 1; _ ← pop_stack_type; item ← pop_stack_type; select_item item

abbrev pub i32_const_body : ℕ → Tr (Unit {0})
i32_const_body value = do push_stack_type ValType.i32; push_n 1; emit (Opcode.i32_const value ∷ [])

-- `op_i64_const`: the low word first.
abbrev pub i64_const_body : ℕ → Tr (Unit {0})
i64_const_body value = do
  push_stack_type ValType.i64
  push_n 2
  emit (Opcode.i32_const (value % 2 ^ 32) ∷ Opcode.i32_const (value / 2 ^ 32 % 2 ^ 32) ∷ [])

module _ (costs : FuelCosts) where
  unfoldable pub visit_local_get : ℕ → Tr (Unit {0})
  unfolding bump_fuel_consumption relative_local_depth get_expressed_depth
  visit_local_get local_index =
      translate_if_reachable (bump_fuel_consumption costs.base >> local_get_body local_index)

  unfoldable pub visit_local_set : ℕ → Tr (Unit {0})
  unfolding bump_fuel_consumption relative_local_depth get_expressed_depth
  visit_local_set local_index =
      translate_if_reachable (bump_fuel_consumption costs.base >> local_set_body local_index)

  unfoldable pub visit_local_tee : ℕ → Tr (Unit {0})
  unfolding bump_fuel_consumption relative_local_depth get_expressed_depth
  visit_local_tee local_index =
      translate_if_reachable (bump_fuel_consumption costs.base >> local_tee_body local_index)

  unfoldable pub visit_select : Tr (Unit {0})
  unfolding bump_fuel_consumption
  visit_select = translate_if_reachable (bump_fuel_consumption costs.base >> select_body)

  unfoldable pub visit_i32_const : ℕ → Tr (Unit {0})
  unfolding bump_fuel_consumption
  visit_i32_const value =
      translate_if_reachable (bump_fuel_consumption costs.base >> i32_const_body value)

  unfoldable pub visit_i64_const : ℕ → Tr (Unit {0})
  unfolding bump_fuel_consumption
  visit_i64_const value =
      translate_if_reachable (bump_fuel_consumption costs.base >> i64_const_body value)

  abbrev get_global : ℕ → ValType → Tr (Unit {0})
  get_global global_index content_type =
      push_stack_type content_type
      >> (if is_wide content_type
          then emit
              (Opcode.global_get (global_index * 2 + 1) ∷ Opcode.global_get (global_index * 2) ∷ [])
            >> push_n 2
          else emit (Opcode.global_get (global_index * 2) ∷ []) >> push_n 1)

  unfoldable pub visit_global_get : ℕ → Tr (Unit {0})
  unfolding bump_fuel_consumption
  visit_global_get global_index = translate_if_reachable (do
    bump_fuel_consumption costs.entity
    t ← get
    content_type ← expect (get_elem? t.globals global_index)
    get_global global_index content_type)

  abbrev set_global : ℕ → ValType → Tr (Unit {0})
  set_global global_index content_type = do
    _ ← pop_stack_type
    emit (Opcode.global_set (global_index * 2) ∷ [])
    pop_n 1
    when (is_wide content_type) (emit (Opcode.global_set (global_index * 2 + 1) ∷ []) >> pop_n 1)

  unfoldable pub visit_global_set : ℕ → Tr (Unit {0})
  unfolding bump_fuel_consumption
  visit_global_set global_index = translate_if_reachable (do
    bump_fuel_consumption costs.entity
    t ← get
    content_type ← expect (get_elem? t.globals global_index)
    set_global global_index content_type)

-- It charges nothing.
unfoldable pub visit_drop : Tr (Unit {0})
visit_drop = translate_if_reachable drop_body
