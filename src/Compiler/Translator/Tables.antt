-- ===== src/Compiler/Translator/Tables.antt =====
-- src/compiler/translator.rs: the operators on tables. The types and maxima of the tables are the
-- parameter `tables`.
use rwasm.Base.{ℕ, ◌+◌, Option, some, none, List, [], ◌∷◌, get_elem?}
use rwasm.Types.Opcode.{Opcode}
use rwasm.Types.Value.{ValType}
use rwasm.Isa.Table.{
  op_table_init_checked, op_table_grow_checked, op_table_fill_checked, op_table_copy_checked,
}
use rwasm.Compiler.Error.{table_out_of_bounds}
use rwasm.Compiler.SegmentBuilder.{lookup}
use rwasm.Compiler.Translator.{
  FuelCosts, Tr, ◌>>=◌, ◌>>◌, done, failed, expect, emit, push_stack_type, pop_stack_type, push_n,
  pop_n, bump_fuel_consumption, translate_if_reachable,
}
use rwasm.Compiler.Translator.Memory.{Limits, pop_three, injected}

pub record TableType : Type 0 where
  pub element_type : ValType
  pub maximum : Option ℕ

-- `N_MAX_TABLE_SIZE` where the table has no maximum.
abbrev max_elements : Option ℕ → ℕ
max_elements none = 1024
max_elements (some n) = n

abbrev section_or_error : Option (ℕ × ℕ) → Tr (ℕ × ℕ)
section_or_error none t = failed table_out_of_bounds
section_or_error (some section) t = done section t

-- What the guard of a table needs on the stack.
abbrev checked_height : Tr (Unit {0})
checked_height = push_n 2 >> pop_n 2

module _ (costs : FuelCosts) (tables : List TableType) (limits : Limits) where
  unfoldable pub visit_table_init : ℕ → ℕ → Tr (Unit {0})
  unfolding bump_fuel_consumption op_table_init_checked lookup
  visit_table_init segment_index table_index = translate_if_reachable (do
    inject ← injected limits
    bump_fuel_consumption costs.entity
    pop_three
    section ← section_or_error (lookup segment_index limits.element_sections)
    emit (
        op_table_init_checked limits.elems_per_fuel limits.elems_per_fuel_log2 (segment_index + 1)
          table_index section.1 section.0 inject)
    checked_height
    pop_n 3)

  unfoldable pub visit_elem_drop : ℕ → Tr (Unit {0})
  unfolding bump_fuel_consumption
  visit_elem_drop segment_index =
      translate_if_reachable
        (bump_fuel_consumption costs.entity >> emit (Opcode.elem_drop (segment_index + 1) ∷ []))

  unfoldable pub visit_table_copy : ℕ → ℕ → Tr (Unit {0})
  unfolding bump_fuel_consumption op_table_copy_checked
  visit_table_copy dst_table src_table = translate_if_reachable (do
    inject ← injected limits
    bump_fuel_consumption costs.entity
    checked_height
    pop_n 3
    pop_three
    emit (
        op_table_copy_checked limits.elems_per_fuel limits.elems_per_fuel_log2 dst_table src_table
          inject))

  unfoldable pub visit_table_fill : ℕ → Tr (Unit {0})
  unfolding bump_fuel_consumption op_table_fill_checked
  visit_table_fill table_index = translate_if_reachable (do
    inject ← injected limits
    bump_fuel_consumption costs.entity
    checked_height
    pop_n 3
    pop_three
    emit
        (op_table_fill_checked limits.elems_per_fuel limits.elems_per_fuel_log2 table_index inject))

  unfoldable pub visit_table_get : ℕ → Tr (Unit {0})
  unfolding bump_fuel_consumption
  visit_table_get table_index = translate_if_reachable (do
    bump_fuel_consumption costs.entity
    _ ← pop_stack_type
    emit (Opcode.table_get table_index ∷ [])
    table_type ← expect (get_elem? tables table_index)
    push_stack_type table_type.element_type)

  unfoldable pub visit_table_set : ℕ → Tr (Unit {0})
  unfolding bump_fuel_consumption
  visit_table_set table_index = translate_if_reachable (do
    bump_fuel_consumption costs.entity
    pop_n 2
    _ ← pop_stack_type
    _ ← pop_stack_type
    emit (Opcode.table_set table_index ∷ []))

  unfoldable pub visit_table_grow : ℕ → Tr (Unit {0})
  unfolding bump_fuel_consumption op_table_grow_checked
  visit_table_grow table_index = translate_if_reachable (do
    inject ← injected limits
    bump_fuel_consumption costs.entity
    _ ← pop_stack_type
    _ ← pop_stack_type
    push_stack_type ValType.i32
    table_type ← expect (get_elem? tables table_index)
    emit (
        op_table_grow_checked limits.elems_per_fuel limits.elems_per_fuel_log2 table_index
          (some (max_elements table_type.maximum)) inject)
    checked_height
    pop_n 2
    push_n 1)

  unfoldable pub visit_table_size : ℕ → Tr (Unit {0})
  unfolding bump_fuel_consumption
  visit_table_size table_index = translate_if_reachable (do
    bump_fuel_consumption costs.entity
    push_n 1
    push_stack_type ValType.i32
    emit (Opcode.table_size table_index ∷ []))
