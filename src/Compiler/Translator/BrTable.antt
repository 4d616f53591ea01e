-- ===== src/Compiler/Translator/BrTable.antt =====
-- src/compiler/translator.rs: `br_table`. The instructions of the targets, `br_table_branches`, and of
-- the jumps that drop and keep, `trampoline_ixs`, are two lists.
use rwasm.Base.{ℕ, ◌+◌, ◌-◌, ◌*◌, ◌/◌, ◌^◌, false, List, [], ◌∷◌, ◌++◌, length, ltb, if◌then◌else◌}
use rwasm.Base.Ints.{pos}
use rwasm.Types.Opcode.{Opcode}
use rwasm.Compiler.Error.{branch_table_targets_out_of_bounds}
use rwasm.Compiler.DropKeep.{DropKeep, translate_drop_keep, translate_height, is_noop}
use rwasm.Compiler.Translator.{
  FuelCosts, Tr, ◌>>=◌, ◌>>◌, pure, done, failed, get, emit, put_reachable, put_height, pop_n,
  pop_stack_type, current_pc, bump_fuel_consumption, try_resolve_label_for, translate_if_reachable,
}
use rwasm.Compiler.Translator.Frames.{AcquiredTarget, acquire_target, add_branch}

pub record Table : Type 0 where
  pub branches : List Opcode
  pub trampolines : List Opcode

-- The height of the copies.
abbrev touched : DropKeep → Tr (Unit {0})
touched d t = put_height (translate_height d t.stack_height) t

-- Where the trampoline of a target begins, seen from its jump.
abbrev to_trampoline : ℕ → Table → Opcode
to_trampoline final_len table =
    Opcode.br (pos (final_len - length table.branches + length table.trampolines))

abbrev return_target : ℕ → DropKeep → Table → Tr Table
return_target final_len d table =
    if is_noop d
    then pure (record table { branches = table.branches ++ (Opcode.return ∷ Opcode.return ∷ []) })
    else touched d
      >> pure (record {
        branches = table.branches ++ (to_trampoline final_len table ∷ Opcode.return ∷ []);
        trampolines = table.trampolines ++ (translate_drop_keep d ++ (Opcode.return ∷ []));
      })

-- The jump that resolves the label counts from where it comes to stand, after `br_table` itself.
abbrev direct_target : ℕ → Table → Tr Table
direct_target label table = do
  t ← get
  offset ← try_resolve_label_for label (current_pc t + (length table.branches + 1))
  pure (record table { branches = table.branches ++ (Opcode.br offset ∷ Opcode.return ∷ []) })

abbrev trampoline_target : ℕ → ℕ → DropKeep → Table → Tr Table
trampoline_target final_len label d table = do
  t ← get
  touched d
  offset ←
      try_resolve_label_for label
        (current_pc t + (final_len + (length (table.trampolines ++ translate_drop_keep d) + 1)))
  pure (record {
    branches = table.branches ++ (to_trampoline final_len table ∷ Opcode.return ∷ []);
    trampolines = table.trampolines ++ (translate_drop_keep d ++ (Opcode.br offset ∷ []));
  })

unfoldable pub encode_br_table_target : ℕ → AcquiredTarget → Table → Tr Table
unfolding is_noop translate_drop_keep translate_height current_pc try_resolve_label_for
encode_br_table_target final_len (AcquiredTarget.return d) table = return_target final_len d table
encode_br_table_target final_len (AcquiredTarget.branch label d) table =
    if is_noop d then direct_target label table else trampoline_target final_len label d table

unfoldable pub encode_targets : ℕ → List ℕ → Table → Tr Table
unfolding add_branch acquire_target encode_br_table_target
encode_targets final_len [] table = pure table
encode_targets final_len (depth ∷ depths) table =
    add_branch depth
    >> (acquire_target depth >>= λ target.
        encode_br_table_target final_len target table >>= λ table.
        encode_targets final_len depths table)

-- `BranchTableTargets` is an `u32`.
abbrev count_fits : ℕ → Tr (Unit {0})
count_fits n t = if ltb n (2 ^ 32) then done tt t else failed branch_table_targets_out_of_bounds

-- Each target takes two instructions, the default one too, which comes last.
unfoldable pub visit_br_table : FuelCosts → List ℕ → ℕ → Tr (Unit {0})
unfolding bump_fuel_consumption encode_targets add_branch acquire_target encode_br_table_target
visit_br_table costs targets default = translate_if_reachable (do
  bump_fuel_consumption costs.base
  pop_n 1
  _ ← pop_stack_type
  table ←
      encode_targets ((length targets + 1) * 2) targets (record { branches = []; trampolines = [] })
  add_branch default
  target ← acquire_target default
  count_fits (length table.branches / 2 + 1)
  all ← encode_br_table_target ((length targets + 1) * 2) target table
  emit (Opcode.br_table (length table.branches / 2 + 1) ∷ (all.branches ++ all.trampolines))
  put_reachable false)
