-- ===== src/Compiler/Translator/Branches.antt =====
-- src/compiler/translator.rs: `br`, `br_if` and `return`. `br_table` is not there.
use rwasm.Base.{
  ℕ, ◌+◌, ◌-◌, false, Option, some, none, List, [], ◌∷◌, length, set, get_elem?, if◌then◌else◌,
}
use rwasm.Base.Ints.{pos}
use rwasm.Types.BranchOffset.{BranchOffset, uninit}
use rwasm.Types.Opcode.{Opcode}
use rwasm.Compiler.ControlFlow.{ControlFrame, update_consume_fuel_instr}
use rwasm.Compiler.DropKeep.{DropKeep, translate_drop_keep, translate_height, is_noop}
use rwasm.Compiler.Translator.{
  FuelCosts, Tr, ◌>>=◌, ◌>>◌, done, panic, get, expect, emit, put_reachable, put_frames, put_code,
  put_height, pop_n, pop_stack_type, bump_fuel_consumption, try_resolve_label,
  translate_if_reachable, push_consume_fuel_empty,
}
use rwasm.Compiler.Translator.Frames.{AcquiredTarget, acquire_target, add_branch, drop_keep_return}

-- `drop_keep.translate_drop_keep(&mut instruction_set, &mut stack_height)`.
unfoldable pub emit_drop_keep : DropKeep → Tr (Unit {0})
unfolding translate_drop_keep translate_height
emit_drop_keep d = do
  emit (translate_drop_keep d)
  t ← get
  put_height (translate_height d t.stack_height)

-- `Opcode::update_branch_offset`.
unfoldable pub update_branch_offset : BranchOffset → Opcode → Option Opcode
update_branch_offset offset (Opcode.br _) = some (Opcode.br offset)
update_branch_offset offset (Opcode.br_if_eqz _) = some (Opcode.br_if_eqz offset)
update_branch_offset offset (Opcode.br_if_nez _) = some (Opcode.br_if_nez offset)
update_branch_offset offset _ = none

-- `instruction_set[loc].update_branch_offset(offset)`.
unfoldable pub patch : ℕ → BranchOffset → Tr (Unit {0})
unfolding update_branch_offset
patch loc offset = do
  t ← get
  op ← expect (get_elem? t.instruction_set loc)
  op' ← expect (update_branch_offset offset op)
  put_code (set t.instruction_set loc op')

abbrev pub return_body : Tr (Unit {0})
return_body = do
  d ← drop_keep_return
  emit_drop_keep d
  emit (Opcode.return ∷ [])
  put_reachable false

unfoldable pub visit_return : Tr (Unit {0})
unfolding drop_keep_return emit_drop_keep
visit_return = translate_if_reachable return_body

-- A new instruction charges fuel from here on, for the innermost frame.
abbrev pub renew_frame : ℕ → List ControlFrame → Tr (Unit {0})
renew_frame instr [] t = panic
renew_frame instr (frame ∷ frames) t =
    (expect (update_consume_fuel_instr instr frame) >>= λ frame. put_frames (frame ∷ frames)) t

abbrev pub renew_consume_fuel : Tr (Unit {0})
renew_consume_fuel = do
  fuel_ix ← push_consume_fuel_empty
  t ← get
  renew_frame fuel_ix t.control_frames

abbrev pub metered : Tr (Unit {0}) → Tr (Unit {0})
metered body t = if t.with_consume_fuel then body t else done tt t

-- The conditional branch skips the instructions that drop and keep, and the jump after them: the
-- offset is written once their number is known.
abbrev skip_over : DropKeep → Tr (Unit {0})
skip_over d = do
  t ← get
  emit (Opcode.br_if_eqz uninit ∷ [])
  emit_drop_keep d
  t' ← get
  patch (length t'.instruction_set - 1 - length (translate_drop_keep d))
      (pos (length (translate_drop_keep d) + 2))

module _ (costs : FuelCosts) where
  abbrev br_to : AcquiredTarget → Tr (Unit {0})
  br_to (AcquiredTarget.branch end_label d) = do
    bump_fuel_consumption costs.base
    emit_drop_keep d
    offset ← try_resolve_label end_label
    emit (Opcode.br offset ∷ [])
  br_to (AcquiredTarget.return _) = bump_fuel_consumption costs.base >> visit_return

  unfoldable pub visit_br : ℕ → Tr (Unit {0})
  unfolding add_branch acquire_target emit_drop_keep visit_return bump_fuel_consumption
      try_resolve_label
  visit_br relative_depth = translate_if_reachable (do
    add_branch relative_depth
    target ← acquire_target relative_depth
    br_to target
    put_reachable false)

  abbrev br_if_to : AcquiredTarget → Tr (Unit {0})
  br_if_to (AcquiredTarget.branch end_label d) =
      bump_fuel_consumption costs.base
      >> (if is_noop d
          then (do offset ← try_resolve_label end_label; emit (Opcode.br_if_nez offset ∷ []))
          else (do skip_over d; offset ← try_resolve_label end_label; emit (Opcode.br offset ∷ [])))
  br_if_to (AcquiredTarget.return d) = do
    bump_fuel_consumption costs.base
    skip_over d
    emit (Opcode.return ∷ [])

  unfoldable pub visit_br_if : ℕ → Tr (Unit {0})
  unfolding add_branch acquire_target emit_drop_keep is_noop patch bump_fuel_consumption
      try_resolve_label translate_drop_keep push_consume_fuel_empty update_consume_fuel_instr
  visit_br_if relative_depth = translate_if_reachable (do
    pop_n 1
    _ ← pop_stack_type
    add_branch relative_depth
    target ← acquire_target relative_depth
    br_if_to target
    metered renew_consume_fuel)
