-- ===== src/Compiler/Translator/Kept.antt =====
-- What a branch drops and keeps, by src/compiler/translator.rs and src/compiler/drop_keep.rs, executed.
use rwasm.Base.{
  ℕ, ◌+◌, ◌-◌, ◌^◌, ◌<◌, ◌≡◌, ◌≢◌, refl, true, some, List, ◌++◌, length, leb, ltb, arith,
}
use rwasm.Isa.Words.{Computes}
use rwasm.Compiler.ControlFlow.{
  ControlFrame, ControlFrameKind, kind, block_type, stack_height, nth_back,
}
use rwasm.Compiler.FuncTypeRegistry.{
  BlockType, FuncTypeRegistry, resolve_func_params_len_type_by_block,
  resolve_func_results_len_type_by_block,
}
use rwasm.Compiler.DropKeep as DropKeep
use rwasm.Compiler.DropKeep.{DropKeep, translate_drop_keep}
use rwasm.Compiler.DropKeep.Correct.{translate_drop_keep-Computes}
use rwasm.Compiler.Translator.{Translator, done}
use rwasm.Compiler.Translator.Frames.{height_diff, kept, compute_drop_keep}

-- The results of a block or an `if`, the parameters of a loop.
by_kind :
    (k : ControlFrameKind) (b : BlockType) (r : FuncTypeRegistry) (n : ℕ)
    → (k ≡ ControlFrameKind.loop_kind → resolve_func_params_len_type_by_block b r ≡ some n)
    → (k ≢ ControlFrameKind.loop_kind → resolve_func_results_len_type_by_block b r ≡ some n)
    → kept k b r ≡ some n
by_kind ControlFrameKind.loop_kind b r n p q = p refl
by_kind ControlFrameKind.block_kind b r n p q = q (λ e. absurd cc)
by_kind ControlFrameKind.if_kind b r n p q = q (λ e. absurd cc)

-- A branch to a reachable frame on a stack that holds, above the frame's height, cells for the
-- parameters of the frame's loop, or for the results if it is no loop, on top of others, fewer than
-- 2 ^ 16 of each: its amounts are computed without an error or a panic, nothing changes, and the code
-- emitted for them keeps just the cells on top and removes the others, with one free cell at most.
pub compute_drop_keep-Computes :
    (depth : ℕ) (t : Translator) (frame : ControlFrame) (origin : ℕ) (xs ys : List ℕ)
    → nth_back depth t.control_frames ≡ some frame
    → stack_height frame ≡ some origin
    → (kind frame ≡ ControlFrameKind.loop_kind
        → resolve_func_params_len_type_by_block (block_type frame) t.func_type_registry
          ≡ some (length xs))
    → (kind frame ≢ ControlFrameKind.loop_kind
        → resolve_func_results_len_type_by_block (block_type frame) t.func_type_registry
          ≡ some (length xs))
    → t.stack_height.height ≡ origin + length xs + length ys
    → length xs < 2 ^ 16
    → length ys < 2 ^ 16
    → (d : DropKeep) × (compute_drop_keep depth t ≡ done d t)
      × Computes (translate_drop_keep d) 1 (xs ++ ys) xs
unfolding compute_drop_keep height_diff DropKeep.new
compute_drop_keep-Computes depth t frame origin xs ys found known looped blocked high few others =
    let arity =
      by_kind (kind frame) (block_type frame) t.func_type_registry (length xs) looped blocked in
    let above : leb origin t.stack_height.height ≡ true = ground arith in
    let diff : t.stack_height.height - origin ≡ length xs + length ys = omega arith in
    let enough : leb (length xs) (length xs + length ys) ≡ true = ground arith in
    let rest : length xs + length ys - length xs ≡ length ys = omega arith in
    let k : ltb (length xs) (2 ^ 16) ≡ true = ground arith in
    let l : ltb (length ys) (2 ^ 16) ≡ true = ground arith in
    (
      record { drop = length ys; keep = length xs },
      rw (found, arity, found, known, above, diff, enough, rest, k, l) refl,
      translate_drop_keep-Computes (record { drop = length ys; keep = length xs }) xs ys refl refl,
    )
