-- ===== src/Compiler/ControlFlow.antt =====
-- src/compiler/control_flow.rs: the frames of the blocks that are open. A panic is `none`. The stack
-- of frames is a list, the innermost first.
use mathlib.Core.Option
use rwasm.Base.{
  ℕ, ◌+◌, Bool, true, false, Option, some, none, List, length, get_elem?, set, ltb, ◌==◌,
  if◌then◌else◌,
}
use rwasm.Compiler.FuncTypeRegistry.{BlockType}

pub record BlockControlFrame : Type 0 where
  pub block_type : BlockType
  pub stack_height : ℕ
  pub end_label : ℕ
  pub consume_fuel : Option ℕ
  pub len_branches : ℕ

pub record LoopControlFrame : Type 0 where
  pub block_type : BlockType
  pub stack_height : ℕ
  pub head_label : ℕ
  pub consume_fuel : Option ℕ
  pub len_branches : ℕ

pub record IfControlFrame : Type 0 where
  pub block_type : BlockType
  pub stack_height : ℕ
  pub end_label : ℕ
  pub else_label : ℕ
  pub end_of_then_is_reachable : Option Bool
  pub consume_fuel : Option ℕ
  pub len_branches : ℕ

pub data ControlFrameKind : Type 0 where
  block_kind loop_kind if_kind : ControlFrameKind

pub record UnreachableControlFrame : Type 0 where
  pub block_type : BlockType
  pub kind : ControlFrameKind

pub data ControlFrame : Type 0 where
  block_frame : BlockControlFrame → ControlFrame
  loop_frame : LoopControlFrame → ControlFrame
  if_frame : IfControlFrame → ControlFrame
  unreachable_frame : UnreachableControlFrame → ControlFrame

unfoldable pub new_block : BlockType → ℕ → ℕ → Option ℕ → BlockControlFrame
new_block block_type end_label stack_height consume_fuel = record {
  block_type = block_type;
  stack_height = stack_height;
  end_label = end_label;
  consume_fuel = consume_fuel;
  len_branches = 0;
}

unfoldable pub new_loop : BlockType → ℕ → ℕ → Option ℕ → LoopControlFrame
new_loop block_type head_label stack_height consume_fuel = record {
  block_type = block_type;
  stack_height = stack_height;
  head_label = head_label;
  consume_fuel = consume_fuel;
  len_branches = 0;
}

-- The two labels must differ.
unfoldable pub new_if : BlockType → ℕ → ℕ → ℕ → Option ℕ → Option IfControlFrame
new_if block_type end_label else_label stack_height consume_fuel =
    if end_label == else_label
    then none
    else some (record {
      block_type = block_type;
      stack_height = stack_height;
      end_label = end_label;
      else_label = else_label;
      end_of_then_is_reachable = none;
      consume_fuel = consume_fuel;
      len_branches = 0;
    })

abbrev end_of_then : Bool → IfControlFrame → Option Bool → Option IfControlFrame
end_of_then reachable f none = some (record f { end_of_then_is_reachable = some reachable })
end_of_then reachable f (some _) = none

-- It is told once.
unfoldable pub update_end_of_then_reachability : Bool → IfControlFrame → Option IfControlFrame
update_end_of_then_reachability reachable f = end_of_then reachable f f.end_of_then_is_reachable

unfoldable pub kind : ControlFrame → ControlFrameKind
kind (block_frame _) = block_kind
kind (loop_frame _) = loop_kind
kind (if_frame _) = if_kind
kind (unreachable_frame f) = f.kind

unfoldable pub branch_destination : ControlFrame → Option ℕ
branch_destination (block_frame f) = some f.end_label
branch_destination (loop_frame f) = some f.head_label
branch_destination (if_frame f) = some f.end_label
branch_destination (unreachable_frame _) = none

unfoldable pub end_label : ControlFrame → Option ℕ
end_label (block_frame f) = some f.end_label
end_label (if_frame f) = some f.end_label
end_label (loop_frame _) = none
end_label (unreachable_frame _) = none

unfoldable pub stack_height : ControlFrame → Option ℕ
stack_height (block_frame f) = some f.stack_height
stack_height (loop_frame f) = some f.stack_height
stack_height (if_frame f) = some f.stack_height
stack_height (unreachable_frame _) = none

unfoldable pub block_type : ControlFrame → BlockType
block_type (block_frame f) = f.block_type
block_type (loop_frame f) = f.block_type
block_type (if_frame f) = f.block_type
block_type (unreachable_frame f) = f.block_type

unfoldable pub is_reachable : ControlFrame → Bool
is_reachable (unreachable_frame _) = false
is_reachable _ = true

unfoldable pub consume_fuel_instr : ControlFrame → Option ℕ
consume_fuel_instr (block_frame f) = f.consume_fuel
consume_fuel_instr (loop_frame f) = f.consume_fuel
consume_fuel_instr (if_frame f) = f.consume_fuel
consume_fuel_instr (unreachable_frame _) = none

unfoldable pub bump_branches : ControlFrame → ControlFrame
bump_branches (block_frame f) = block_frame (record f { len_branches = f.len_branches + 1 })
bump_branches (loop_frame f) = loop_frame (record f { len_branches = f.len_branches + 1 })
bump_branches (if_frame f) = if_frame (record f { len_branches = f.len_branches + 1 })
bump_branches (unreachable_frame f) = unreachable_frame f

unfoldable pub is_branched_to : ControlFrame → Bool
is_branched_to (block_frame f) = ltb 0 f.len_branches
is_branched_to (loop_frame f) = ltb 0 f.len_branches
is_branched_to (if_frame f) = ltb 0 f.len_branches
is_branched_to (unreachable_frame _) = false

-- The assertion of the three frames that an instruction is there to be replaced.
abbrev replaced : Option ℕ → ControlFrame → Option ControlFrame
replaced none f = none
replaced (some _) f = some f

unfoldable pub update_consume_fuel_instr : ℕ → ControlFrame → Option ControlFrame
update_consume_fuel_instr instr (block_frame f) =
    replaced f.consume_fuel (block_frame (record f { consume_fuel = some instr }))
update_consume_fuel_instr instr (loop_frame f) =
    replaced f.consume_fuel (loop_frame (record f { consume_fuel = some instr }))
update_consume_fuel_instr instr (if_frame f) =
    replaced f.consume_fuel (if_frame (record f { consume_fuel = some instr }))
update_consume_fuel_instr instr (unreachable_frame f) = some (unreachable_frame f)

-- The stack of frames: `is_root`, `nth_back`, and `nth_back_mut` as a change in place.
unfoldable pub is_root : ℕ → List ControlFrame → Bool
is_root relative_depth frames = relative_depth + 1 == length frames

unfoldable pub nth_back : ℕ → List ControlFrame → Option ControlFrame
nth_back depth frames = get_elem? frames depth

unfoldable pub nth_back_mut :
    ℕ → (ControlFrame → ControlFrame) → List ControlFrame → Option (List ControlFrame)
unfolding nth_back
nth_back_mut depth f frames =
    Option.map (λ frame. set frames depth (f frame)) (nth_back depth frames)
