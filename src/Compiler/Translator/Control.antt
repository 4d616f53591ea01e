-- ===== src/Compiler/Translator/Control.antt =====
-- src/compiler/translator.rs: the operators that open and close blocks.
use mathlib.Core.Option
use rwasm.Base.{ℕ, ◌-◌, true, false, Option, some, none, List, [], ◌∷◌, ltb, leb, if◌then◌else◌}
use rwasm.Types.Opcode.{Opcode}
use rwasm.Types.Value.{ValType}
use rwasm.Compiler.ControlFlow.{
  ControlFrame, block_frame, loop_frame, if_frame, unreachable_frame, ControlFrameKind,
  IfControlFrame, new_block, new_loop, new_if, kind, block_type, stack_height, is_reachable,
  end_label, consume_fuel_instr, update_end_of_then_reachability,
}
use rwasm.Compiler.FuncTypeRegistry.{
  BlockType, FuncTypeRegistry, result_cells, resolve_original_func_type,
}
use rwasm.Compiler.Translator.{
  FuelCosts, Tr, ◌>>=◌, ◌>>◌, pure, done, panic, get, expect, emit, put_reachable, push_n, pop_n,
  shrink_to, push_stack_type, fresh_label, pin_here, try_pin_here, push_consume_fuel_empty,
  bump_fuel_consumption, try_resolve_label, translate_if_reachable,
}
use rwasm.Compiler.Translator.Frames.{frame_stack_height}
use rwasm.Compiler.Translator.Branches.{visit_return, metered, renew_consume_fuel}

unfoldable pub visit_unreachable : Tr (Unit {0})
visit_unreachable = translate_if_reachable (emit (Opcode.unreachable ∷ []) >> put_reachable false)

abbrev push_frame : ControlFrame → Tr (Unit {0})
push_frame frame t = done tt (record t { control_frames = frame ∷ t.control_frames })

abbrev last_frame : List ControlFrame → Tr ControlFrame
last_frame [] t = panic
last_frame (frame ∷ _) t = done frame t

abbrev pub pop_frame_of : List ControlFrame → Tr ControlFrame
pop_frame_of [] t = panic
pop_frame_of (frame ∷ frames) t = done frame (record t { control_frames = frames })

abbrev pub pop_frame : Tr ControlFrame
pop_frame t = pop_frame_of t.control_frames t

-- `is_fuel_metering_enabled().then(|| push_consume_fuel_empty())`.
abbrev pub consume_fuel_if_metered : Tr (Option ℕ)
consume_fuel_if_metered t =
    if t.with_consume_fuel
    then (push_consume_fuel_empty >>= λ instr. pure (some instr)) t
    else done none t

-- In code that is not reached, a frame without labels.
abbrev enter : ControlFrameKind → BlockType → Tr (Unit {0}) → Tr (Unit {0})
enter kind block_type body t =
    if t.reachable
    then body t
    else push_frame (unreachable_frame (record { kind = kind; block_type = block_type })) t

unfoldable pub visit_block : BlockType → Tr (Unit {0})
unfolding consume_fuel_instr frame_stack_height fresh_label new_block
visit_block block_type = enter ControlFrameKind.block_kind block_type (do
  t ← get
  parent ← last_frame t.control_frames
  stack_height ← frame_stack_height block_type
  end_label ← fresh_label
  push_frame
      (block_frame (new_block block_type end_label stack_height (consume_fuel_instr parent))))

unfoldable pub visit_loop : BlockType → Tr (Unit {0})
unfolding frame_stack_height fresh_label pin_here push_consume_fuel_empty new_loop
visit_loop block_type = enter ControlFrameKind.loop_kind block_type (do
  stack_height ← frame_stack_height block_type
  header ← fresh_label
  pin_here header
  consume_fuel ← consume_fuel_if_metered
  push_frame (loop_frame (new_loop block_type header stack_height consume_fuel)))

-- `stack_types.pop()`, whose result is not looked at.
abbrev forget_type : List ValType → Tr (Unit {0})
forget_type [] t = done tt t
forget_type (_ ∷ tys) t = done tt (record t { stack_types = tys })

abbrev pub put_types : List ValType → Tr (Unit {0})
put_types tys t = done tt (record t { stack_types = tys })

module _ (costs : FuelCosts) where
  unfoldable pub visit_if : BlockType → Tr (Unit {0})
  unfolding frame_stack_height fresh_label bump_fuel_consumption try_resolve_label
      push_consume_fuel_empty new_if
  visit_if block_type = enter ControlFrameKind.if_kind block_type (do
    pop_n 1
    t ← get
    forget_type t.stack_types
    stack_height ← frame_stack_height block_type
    else_label ← fresh_label
    end_label ← fresh_label
    bump_fuel_consumption costs.base
    branch_offset ← try_resolve_label else_label
    emit (Opcode.br_if_eqz branch_offset ∷ [])
    consume_fuel ← consume_fuel_if_metered
    frame ← expect (new_if block_type end_label else_label stack_height consume_fuel)
    push_frame (if_frame frame))

-- The loop of `else` and `end` on the stack of types: types go until the height is `target`. A panic
-- where they run out; so it is too, sooner or later, where the counter would go below 0.
unfoldable pub pop_types : ℕ → ℕ → List ValType → Option (List ValType)
pop_types old target [] = if ltb target old then none else some []
pop_types old target (ty ∷ tys) =
    let rest = pop_types (old - result_cells ty) target tys in
    if ltb target old then (if leb (result_cells ty) old then rest else none) else some (ty ∷ tys)

-- `shrink_to`, and the types with it.
abbrev pub unwind_types : ℕ → Tr (Unit {0})
unwind_types old_height = do
  t ← get
  tys ← expect (pop_types old_height t.stack_height.height t.stack_types)
  put_types tys

unfoldable pub unwind : ℕ → Tr (Unit {0})
unfolding pop_types
unwind target = do t ← get; shrink_to target; unwind_types t.stack_height.height

unfoldable pub push_values : List ValType → Tr (Unit {0})
push_values [] = pure tt
push_values (ty ∷ tys) = push_n (result_cells ty) >> push_stack_type ty >> push_values tys

abbrev params_of : BlockType → FuncTypeRegistry → Option (List ValType)
params_of (BlockType.func_type i) r = Option.map (λ t. t.params) (resolve_original_func_type i r)
params_of _ r = some []

abbrev pub results_of : BlockType → FuncTypeRegistry → Option (List ValType)
results_of (BlockType.func_type i) r = Option.map (λ t. t.results) (resolve_original_func_type i r)
results_of (BlockType.type ty) r = some (ty ∷ [])
results_of BlockType.empty r = some []

abbrev jump_to_end : ℕ → Tr (Unit {0})
jump_to_end end_label = do offset ← try_resolve_label end_label; emit (Opcode.br offset ∷ [])

abbrev renewed : Option ℕ → IfControlFrame → Tr IfControlFrame
renewed none frame t = done frame t
renewed (some instr) frame t = renew instr frame.consume_fuel t
  where
    renew : ℕ → Option ℕ → Tr IfControlFrame
    renew instr none t = panic
    renew instr (some _) t = done (record frame { consume_fuel = some instr }) t

abbrev else_of_if : IfControlFrame → Tr (Unit {0})
else_of_if popped = do
  t ← get
  told ← expect (update_end_of_then_reachability t.reachable popped)
  (if t.reachable then jump_to_end told.end_label else pure tt)
  pin_here told.else_label
  instr ← consume_fuel_if_metered
  frame ← renewed instr told
  unwind frame.stack_height
  params ← expect (params_of frame.block_type t.func_type_registry)
  push_values params
  push_frame (if_frame frame)
  put_reachable true

abbrev else_of : ControlFrame → Tr (Unit {0})
else_of (if_frame frame) = else_of_if frame
else_of (unreachable_frame frame) = else_of_unreachable frame.kind
  where
    else_of_unreachable : ControlFrameKind → Tr (Unit {0})
    else_of_unreachable ControlFrameKind.if_kind = push_frame (unreachable_frame frame)
    else_of_unreachable _ = λ t. panic
else_of _ = λ t. panic

unfoldable pub visit_else : Tr (Unit {0})
unfolding update_end_of_then_reachability pin_here push_consume_fuel_empty unwind push_values
    try_resolve_label
visit_else = pop_frame >>= else_of

-- The labels that an end pins: the one of an absent `else`, and the end of what is not a loop.
abbrev pin_else : ControlFrame → Tr (Unit {0})
pin_else (if_frame frame) = try_pin_here frame.else_label
pin_else _ = pure tt

abbrev pin_end : ControlFrame → Tr (Unit {0})
pin_end (block_frame frame) = pin_here frame.end_label
pin_end (if_frame frame) = pin_here frame.end_label
pin_end _ = pure tt

abbrev pub unwind_frame : Option ℕ → Tr (Unit {0})
unwind_frame none = pure tt
unwind_frame (some height) = unwind height

abbrev pub renew_unless_empty : List ControlFrame → Tr (Unit {0})
renew_unless_empty [] = pure tt
renew_unless_empty (_ ∷ _) = metered renew_consume_fuel

abbrev below_last : List ControlFrame → List ControlFrame
below_last [] = []
below_last (_ ∷ frames) = frames

abbrev pub end_body : ControlFrame → List ControlFrame → Tr (Unit {0})
end_body frame [] = visit_return
end_body frame (_ ∷ _) = put_reachable (is_reachable frame)

-- The frame goes, its results stay, and the frame around it charges with a new instruction.
abbrev pub close_frame : Tr (Unit {0})
close_frame = do
  frame ← pop_frame
  t ← get
  results ← expect (results_of (block_type frame) t.func_type_registry)
  push_values results
  t' ← get
  renew_unless_empty t'.control_frames

unfoldable pub visit_end : Tr (Unit {0})
unfolding try_pin_here pin_here is_reachable stack_height block_type visit_return unwind push_values
    push_consume_fuel_empty
visit_end = do
  t ← get
  frame ← last_frame t.control_frames
  pin_else frame
  pin_end frame
  end_body frame (below_last t.control_frames)
  unwind_frame (stack_height frame)
  close_frame
