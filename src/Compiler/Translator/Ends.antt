-- ===== src/Compiler/Translator/Ends.antt =====
-- What the end of a block leaves of the types and of the height.
use mathlib.Core.List.{reverse_aux}
use rwasm.Base.{
  ℕ, ◌+◌, ◌-◌, ◌≤◌, ◌≡◌, refl, sym, ap, ◌∙◌, true, Option, some, none, List, [], ◌∷◌, ◌++◌, length,
  max, leb, if◌then◌else◌, Bool-cases, inl, inr, arith,
}
use rwasm.Types.Opcode.{Opcode}
use rwasm.Types.Value.{ValType}
use rwasm.Compiler.Error.{Result, ok, err}
use rwasm.Compiler.ControlFlow.{
  ControlFrame, BlockControlFrame, block_frame, update_consume_fuel_instr,
}
use rwasm.Compiler.FuncTypeRegistry.{result_cells}
use rwasm.Compiler.LabelRegistry.{LabelRegistry, pin_label}
use rwasm.Compiler.LabelRegistry as Labels
use rwasm.Compiler.ValueStackHeight as Height
use rwasm.Compiler.ValueStackHeight.{ValueStackHeight}
use rwasm.Compiler.Translator.{
  Translator, done, and_then, expect, pinned_labels, pin_here, height_popped,
  push_consume_fuel_empty, current_pc,
}
use rwasm.Compiler.Translator.Control.{
  pop_types, put_types, unwind_types, close_frame, renew_unless_empty, unwind, push_values,
  results_of, visit_end,
}
use rwasm.Compiler.Translator.Branches.{renew_frame, renew_consume_fuel}
use rwasm.Compiler.Translator.Returns.{and_then_inv, expect_inv}

abbrev pub type_cells : List ValType → ℕ
type_cells [] = 0
type_cells (ty ∷ tys) = result_cells ty + type_cells tys

some_cell : (ty : ValType) → 1 ≤ result_cells ty
some_cell ValType.i32 = omega arith
some_cell ValType.i64 = omega arith
some_cell ValType.f32 = omega arith
some_cell ValType.f64 = omega arith
some_cell ValType.v128 = omega arith
some_cell ValType.func_ref = omega arith
some_cell ValType.extern_ref = omega arith

-- As many types go as the cells between the heights ask for.
pub pop_types-append :
    (above below : List ValType) (base : ℕ)
    → pop_types (type_cells above + base) base (above ++ below) ≡ some below
unfolding pop_types
pop_types-append [] [] base = ground arith
pop_types-append [] (b ∷ below) base = ground arith
pop_types-append (a ∷ above) below base =
    let less : result_cells a + type_cells above + base - result_cells a ≡ type_cells above + base =
      omega arith in
    rw less (ground (arith, pop_types-append above below base, some_cell a))

-- What the operators on labels and fuel leave alone.
pub record Keeps (t t' : Translator) : Type 0 where
  pub stack_types : t.stack_types ≡ t'.stack_types
  pub height : t.stack_height.height ≡ t'.stack_height.height
  pub reachable : t.reachable ≡ t'.reachable

pin_here_inv :
    (label : ℕ) (t : Translator) {u : Unit {0}} {t' : Translator}
    → pin_here label t ≡ done u t'
    → (labels : LabelRegistry) × (t' ≡ record t { labels = labels })
unfolding pin_here
pin_here_inv label t {u} {t'} h = pinned (pin_label label (current_pc t) t.labels) h
  where
    pinned :
        (o : Option (Result Labels.LabelError LabelRegistry))
        → pinned_labels o t ≡ done u t'
        → (labels : LabelRegistry) × (t' ≡ record t { labels = labels })
    pinned none h = absurd cc
    pinned (some (err _)) h = absurd cc
    pinned (some (ok labels)) h = (labels, cc)

abbrev pushed : ValType → Translator → Translator
pushed ty t = record t {
  stack_types = ty ∷ t.stack_types;
  stack_height = record {
    height = t.stack_height.height + result_cells ty;
    max_height = max (t.stack_height.height + result_cells ty) t.stack_height.max_height;
  };
}

abbrev at_height : ℕ → Translator → Translator
at_height target t = record t {
  stack_height = record { height = target; max_height = t.stack_height.max_height };
}

done_inv : {A : Type 0} {a b : A} {t u : Translator} → done a t ≡ done b u → t ≡ u
done_inv e = cc

abbrev unwound : ℕ → List ValType → Translator → Translator
unwound target tys t = record t {
  stack_types = tys;
  stack_height = record { height = target; max_height = t.stack_height.max_height };
}

abbrev charged : Translator → Translator
charged t = record t { instruction_set = t.instruction_set ++ (Opcode.consume_fuel 0 ∷ []) }

-- Frames, labels and code stay; the types of the results come on top.
push_values_outcome :
    (tys : List ValType) (t : Translator) {t' : Translator}
    → push_values tys t ≡ done tt t'
    → (t'.stack_types ≡ reverse_aux tys t.stack_types)
      × (t'.stack_height.height ≡ type_cells tys + t.stack_height.height)
      × (t'.reachable ≡ t.reachable)
      × (t'.control_frames ≡ t.control_frames)
unfolding push_values Height.push_n
push_values_outcome [] t {t'} h =
    let e : t ≡ t' = cc in
    (
      ap (λ t. t.stack_types) (sym e),
      omega (arith, ap (λ t. t.stack_height.height) e),
      ap (λ t. t.reachable) (sym e),
      ap (λ t. t.control_frames) (sym e),
    )
push_values_outcome (ty ∷ tys) t h =
    let (types, height, reachable, frames) = push_values_outcome tys (pushed ty t) h in
    (types, omega (arith, height), reachable, frames)

unwind_outcome :
    (target : ℕ) (t : Translator) (above below : List ValType)
    → t.stack_types ≡ above ++ below
    → t.stack_height.height ≡ type_cells above + target
    → unwind target t ≡ done tt (unwound target below t)
unfolding unwind Height.shrink_to
unwind_outcome target t above below types height =
    let low : leb target t.stack_height.height ≡ true = ground (arith, height) in
    ap
      (λ b.
        and_then
          (height_popped
            (if b
              then some (record { height = target; max_height = t.stack_height.max_height })
              else none)
            t)
          (λ _. unwind_types t.stack_height.height))
      low
    ∙ ap (λ o. and_then (expect o (at_height target t)) put_types)
        (ap (λ h. pop_types h target t.stack_types) height
          ∙ (ap (λ tys. pop_types (type_cells above + target) target tys) types
              ∙ pop_types-append above below target))

renew_frame-Keeps :
    (instr : ℕ) (frames : List ControlFrame) (t : Translator) {t' : Translator}
    → renew_frame instr frames t ≡ done tt t'
    → Keeps t t'
renew_frame-Keeps instr [] t h = absurd cc
renew_frame-Keeps instr (frame ∷ frames) t {t'} h =
    let (new, t1, e1, h1) = and_then_inv (expect (update_consume_fuel_instr instr frame) t) _ h in
    let (_, same) = expect_inv (update_consume_fuel_instr instr frame) e1 in
    let end : record t1 { control_frames = new ∷ frames } ≡ t' = cc in
    record {
      stack_types = ap (λ t. t.stack_types) same ∙ ap (λ t. t.stack_types) end;
      height = ap (λ t. t.stack_height.height) same ∙ ap (λ t. t.stack_height.height) end;
      reachable = ap (λ t. t.reachable) same ∙ ap (λ t. t.reachable) end;
    }

renewed-Keeps :
    (frames : List ControlFrame) (t : Translator) {t' : Translator}
    → renew_unless_empty frames t ≡ done tt t'
    → Keeps t t'
unfolding push_consume_fuel_empty
renewed-Keeps [] t {t'} h =
    let e : t ≡ t' = cc in
    record {
      stack_types = ap (λ t. t.stack_types) e;
      height = ap (λ t. t.stack_height.height) e;
      reachable = ap (λ t. t.reachable) e;
    }
renewed-Keeps (_ ∷ _) t {t'} h = elim (Bool-cases t.with_consume_fuel) [
  | inl on ↦
      let run : renew_consume_fuel t ≡ done tt t' =
        sym (ap (λ b. if b then renew_consume_fuel t else done tt t) on) ∙ h in
      let k = renew_frame-Keeps (length t.instruction_set) t.control_frames (charged t) run in
      record { stack_types = k.stack_types; height = k.height; reachable = k.reachable }
  | inr off ↦
      let run : done tt t ≡ done tt t' =
        sym (ap (λ b. if b then renew_consume_fuel t else done tt t) off) ∙ h in
      let e : t ≡ t' = cc in
      record {
        stack_types = ap (λ t. t.stack_types) e;
        height = ap (λ t. t.stack_height.height) e;
        reachable = ap (λ t. t.reachable) e;
      }
]

-- A reachable block with the types `above` on the stack, in a block that surrounds it.
abbrev pub in_block :
    Translator
    → BlockControlFrame
    → ControlFrame
    → List ControlFrame
    → List ValType
    → ℕ
    → Translator
in_block t frame outer frames types height = record t {
  control_frames = block_frame frame ∷ outer ∷ frames;
  stack_types = types;
  stack_height = record { height = height; max_height = t.stack_height.max_height };
}

-- If the `end` of a block succeeds in reachable code, with the types of the block above those of the
-- code around it, then the types of the block's results are on those of the code around it, the
-- height is that of the block's frame and the cells of the results, and code is reachable.
pub visit_end-in_block :
    (t : Translator) (frame : BlockControlFrame) (outer : ControlFrame) (frames : List ControlFrame)
    (above below results : List ValType) {t' : Translator}
    → results_of frame.block_type t.func_type_registry ≡ some results
    → visit_end
        (in_block t frame outer frames (above ++ below) (type_cells above + frame.stack_height))
      ≡ done tt t'
    → (t'.stack_types ≡ reverse_aux results below)
      × (t'.stack_height.height ≡ type_cells results + frame.stack_height)
      × (t'.reachable ≡ true)
unfolding visit_end
visit_end-in_block t frame outer frames above below results {t'} known h =
    let (u, t1, e1, h1) =
      and_then_inv
        (pin_here frame.end_label
          (in_block t frame outer frames (above ++ below) (type_cells above + frame.stack_height)))
        _ h in
    let (labels, same) = pin_here_inv frame.end_label _ e1 in
    closed labels (
      sym (
        ap
          (λ s.
            and_then (unwind frame.stack_height (record s { reachable = true })) (λ _. close_frame))
          same)
      ∙ h1)
  where
    inner : LabelRegistry → List ValType → ℕ → Translator
    inner labels tys n = record (in_block t frame outer frames tys n) {
      labels = labels;
      reachable = true;
    }

    closed :
        (labels : LabelRegistry)
        → and_then
            (unwind frame.stack_height
              (inner labels (above ++ below) (type_cells above + frame.stack_height)))
            (λ _. close_frame)
          ≡ done tt t'
        → (t'.stack_types ≡ reverse_aux results below)
          × (t'.stack_height.height ≡ type_cells results + frame.stack_height)
          × (t'.reachable ≡ true)
    closed labels h =
        let low : close_frame (inner labels below frame.stack_height) ≡ done tt t' =
          sym (
            ap (λ o. and_then o (λ _. close_frame))
              (unwind_outcome frame.stack_height
                (inner labels (above ++ below) (type_cells above + frame.stack_height)) above below
                refl refl))
          ∙ h in
        let (values, t2, e2, h2) =
          and_then_inv
            (expect (results_of frame.block_type t.func_type_registry)
              (record (inner labels below frame.stack_height) { control_frames = outer ∷ frames }))
            _ low in
        let (found, same2) = expect_inv (results_of frame.block_type t.func_type_registry) e2 in
        let (u, t3, e3, h3) = and_then_inv (push_values values t2) _ h2 in
        let (types, height, reachable, _) = push_values_outcome values t2 e3 in
        let k = renewed-Keeps t3.control_frames t3 h3 in
        let one : some values ≡ some results = sym found ∙ known in
        let these : values ≡ results = cc in
        (
          sym k.stack_types
              ∙ (types
                  ∙ (ap (λ t. reverse_aux values t.stack_types) (sym same2)
                      ∙ ap (λ v. reverse_aux v below) these)),
          omega
              (arith, k.height, height, ap (λ t. t.stack_height.height) same2, ap type_cells these),
          sym k.reachable ∙ (reachable ∙ ap (λ t. t.reachable) (sym same2)),
        )
