-- ===== src/Compiler/Translator/Frames.antt =====
-- src/compiler/translator.rs: what a branch finds on the stack of frames. The debug assertions are
-- left out: they ask for reachable code, where alone these functions are called.
use rwasm.Base.{
  ℕ, Bool, true, false, ◌+◌, ◌-◌, List, [], ◌∷◌, Option, some, none, length, leb, if◌then◌else◌,
}
use rwasm.Compiler.Error.{drop_keep_out_of_bounds}
use rwasm.Compiler.ControlFlow.{
  ControlFrame, unreachable_frame, ControlFrameKind, kind, block_type, stack_height,
  branch_destination, bump_branches, is_root, nth_back, nth_back_mut,
}
use rwasm.Compiler.FuncTypeRegistry.{
  FuncType, FuncTypeRegistry, BlockType, resolve_func_params_len_type_by_block,
  resolve_func_results_len_type_by_block,
}
use rwasm.Compiler.DropKeep as DropKeep
use rwasm.Compiler.DropKeep.{DropKeep}
use rwasm.Compiler.Translator.{Tr, ◌>>=◌, ◌>>◌, pure, done, failed, panic, get, expect, put_frames}

-- A panic unless the test holds.
abbrev pub assert : Bool → Tr (Unit {0})
assert true t = done tt t
assert false t = panic

-- `DropKeep::new(..)?`.
abbrev pub drop_keep_or_error : Option DropKeep → Tr DropKeep
drop_keep_or_error none t = failed drop_keep_out_of_bounds
drop_keep_or_error (some d) t = done d t

unfoldable pub frame_stack_height : BlockType → Tr ℕ
unfolding resolve_func_params_len_type_by_block
frame_stack_height block_type = do
  t ← get
  len_params ← expect (resolve_func_params_len_type_by_block block_type t.func_type_registry)
  assert (leb len_params t.stack_height.height)
  pure (t.stack_height.height - len_params)

-- A branch to a frame without labels panics.
abbrev branched : Option ControlFrame → ℕ → Tr (Unit {0})
branched none relative_depth t = panic
branched (some (unreachable_frame _)) relative_depth t = panic
branched (some frame) relative_depth t =
    (expect (nth_back_mut relative_depth bump_branches t.control_frames) >>= put_frames) t

unfoldable pub add_branch : ℕ → Tr (Unit {0})
unfolding nth_back nth_back_mut bump_branches
add_branch relative_depth t = branched (nth_back relative_depth t.control_frames) relative_depth t

unfoldable pub height_diff : ℕ → Tr ℕ
unfolding nth_back stack_height
height_diff depth = do
  t ← get
  frame ← expect (nth_back depth t.control_frames)
  origin_height ← expect (stack_height frame)
  assert (leb origin_height t.stack_height.height)
  pure (t.stack_height.height - origin_height)

-- The values that a branch keeps: the results of the block, or the parameters of a loop.
abbrev pub kept : ControlFrameKind → BlockType → FuncTypeRegistry → Option ℕ
kept ControlFrameKind.loop_kind block_type registry =
    resolve_func_params_len_type_by_block block_type registry
kept _ block_type registry = resolve_func_results_len_type_by_block block_type registry

unfoldable pub compute_drop_keep : ℕ → Tr DropKeep
unfolding nth_back kind block_type resolve_func_params_len_type_by_block
    resolve_func_results_len_type_by_block height_diff DropKeep.new
compute_drop_keep depth = do
  t ← get
  frame ← expect (nth_back depth t.control_frames)
  keep ← expect (kept (kind frame) (block_type frame) t.func_type_registry)
  height_diff ← height_diff depth
  assert (leb keep height_diff)
  drop_keep_or_error (DropKeep.new (height_diff - keep) keep)

abbrev pub depth_of_root : List ControlFrame → Tr ℕ
depth_of_root [] t = panic
depth_of_root (_ ∷ frames) t = done (length frames) t

unfoldable pub max_depth : Tr ℕ
max_depth t = depth_of_root t.control_frames t

unfoldable pub drop_keep_return : Tr DropKeep
unfolding max_depth compute_drop_keep DropKeep.new
drop_keep_return = do
  depth ← max_depth
  d ← compute_drop_keep depth
  t ← get
  drop_keep_or_error (DropKeep.new (d.drop + t.locals) d.keep)

unfoldable pub drop_keep_return_call : FuncType → Tr DropKeep
unfolding max_depth height_diff DropKeep.new
drop_keep_return_call callee_type = do
  depth ← max_depth
  height_diff ← height_diff depth
  t ← get
  assert (leb (length callee_type.params) height_diff)
  drop_keep_or_error (
      DropKeep.new (height_diff - length callee_type.params + t.locals) (length callee_type.params))

pub data AcquiredTarget : Type 0 where
  branch : ℕ → DropKeep → AcquiredTarget
  return : DropKeep → AcquiredTarget

abbrev acquire_label : ℕ → Tr AcquiredTarget
acquire_label relative_depth = do
  t ← get
  frame ← expect (nth_back relative_depth t.control_frames)
  label ← expect (branch_destination frame)
  d ← compute_drop_keep relative_depth
  pure (AcquiredTarget.branch label d)

unfoldable pub acquire_target : ℕ → Tr AcquiredTarget
unfolding is_root nth_back branch_destination compute_drop_keep drop_keep_return
acquire_target relative_depth t =
    if is_root relative_depth t.control_frames
    then (drop_keep_return >>= λ d. pure (AcquiredTarget.return d)) t
    else acquire_label relative_depth t
