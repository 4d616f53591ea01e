-- ===== src/Tests/Translator.antt =====
-- The translator (src/compiler/translator.rs) at a concrete function.
use rwasm.Base.{ℕ, ◌+◌, ◌≤◌, ◌≡◌, refl, arith, List, [], ◌∷◌, ◌++◌, length, some, none, true, false}
use rwasm.Types.Opcode.{Opcode}
use rwasm.Types.Value.{Value, ValType, ty}
use rwasm.Vm.Monad.{RwasmModule}
use rwasm.Vm.Executor.Run.{run_the_loop}
use rwasm.Isa.AddSub.{op_i64_add, msh_i64_add}
use rwasm.Isa.Words.{cells64, stack, Computes}
use rwasm.Compiler.ControlFlow.{
  ControlFrame, BlockControlFrame, kind, block_type, stack_height, nth_back,
}
use rwasm.Compiler.FuncTypeRegistry.{
  default_registry, BlockType, FuncTypeRegistry, resolve_func_results_len_type_by_block,
}
use rwasm.Compiler.LabelRegistry.{pinned, unpinned, pin_label}
use rwasm.Compiler.ValueStackHeight as Height
use rwasm.Isa.Conv.{op_i32_wrap_i64}
use rwasm.Compiler.Translator.{FuelCosts, Translator, done}
use rwasm.Compiler.Translator.Numeric.{I64Binary, Conversion}
use rwasm.Compiler.Operators.{Operator}
use rwasm.Compiler.Operators.Values.{types}
use rwasm.Compiler.Operators.Emits.{Agrees, at}
use rwasm.Compiler.Operators.Charge.{Plain}
use rwasm.Compiler.Operators.Sequence.{visit_all, meaning_all, Constants}
use rwasm.Compiler.Translator.Frames.{compute_drop_keep}
use rwasm.Compiler.Translator.Branches.{visit_return}
use rwasm.Compiler.Translator.Control.{visit_end}
use rwasm.Compiler.DropKeep.{DropKeep, translate_drop_keep}
use rwasm.Compiler.Translator.Kept.{compute_drop_keep-Computes}
use rwasm.Compiler.Translator.Ends.{in_block, visit_end-in_block}
use rwasm.Compiler.Operators.Return.{visit_return-Computes}
use rwasm.Compiler.SegmentBuilder.{default, add_passive_memory, add_passive_elements}
use rwasm.Compiler.SegmentBuilder.Sections.{Step, Steps, Kept, add_passive_memory-Kept}
use rwasm.Compiler.Operators.Execution.{visit_all_outcome, run_the_loop-visit_all}
use rwasm.Tests.Machine.{host, store}

abbrev costs : FuelCosts
costs = record { base = 1; entity = 1; load = 1; store = 1; call = 1; fuel_for_locals = λ n. n }

-- In the block of a function with one parameter of type `i64`.
abbrev inside : Translator
inside = record {
  reachable = true;
  control_frames =
      ControlFrame.block_frame (record {
        block_type = BlockType.func_type 0;
        stack_height = 0;
        end_label = 0;
        consume_fuel = none;
        len_branches = 0;
      })
      ∷ [];
  labels = record { labels = []; users = [] };
  instruction_set = Opcode.stack_check 0 ∷ [];
  stack_types = ValType.i64 ∷ [];
  func_type_registry = default_registry;
  compiled_funcs = [];
  globals = [];
  func_offsets = [];
  snippet_calls = [];
  intrinsics = [];
  entrypoint_bytecode = [];
  stack_height = record { height = 0; max_height = 0 };
  with_consume_fuel = false;
  consume_fuel_for_params_and_locals = false;
  locals = 2;
  with_code_snippets = false;
}

inside-Plain : Plain inside
inside-Plain = record {
  reaches = refl;
  frame = _;
  frames = [];
  framed = refl;
  unmetered = refl;
  inlined = refl;
}

-- The parameter is raised by 7, stored and its low word tested.
abbrev operators : List Operator
operators =
    Operator.local_get 0
    ∷ Operator.i64_const 7
    ∷ Operator.i64_binary I64Binary.add
    ∷ Operator.local_tee 0
    ∷ Operator.conversion Conversion.i32_wrap_i64
    ∷ Operator.i32_eqz
    ∷ []

operators-Constants : Constants operators
operators-Constants = (tt, (omega arith, (tt, (tt, (tt, (tt, tt))))))

abbrev before : List Value
before = Value.i64 4294967289 ∷ []

inside-Agrees : Agrees inside [] before
unfolding ty
inside-Agrees = record {
  typed = refl;
  high = refl;
  params = omega arith;
  operands_fit = tt;
  locals_fit = (omega arith, tt);
  bounded = omega arith;
}

abbrev translated : List Opcode
translated =
    Opcode.local_get 2
    ∷ Opcode.local_get 2
    ∷ Opcode.i32_const 7
    ∷ Opcode.i32_const 0
    ∷ (op_i64_add
        ++ (Opcode.local_tee 3
            ∷ Opcode.local_get 2
            ∷ Opcode.local_set 4
            ∷ Opcode.drop
            ∷ Opcode.i32_eqz
            ∷ []))

abbrev finished : Translator
finished =
    at inside (Opcode.stack_check 0 ∷ translated) (ValType.i32 ∷ ValType.i64 ∷ []) 1
      (4 + msh_i64_add)

emitted : visit_all costs operators inside ≡ done tt finished
unfolding visit_all Height.pop_type Height.push_n Height.push_type op_i64_add op_i32_wrap_i64
emitted = refl

meant : meaning_all operators [] before ≡ some (Value.i32 1 ∷ [], Value.i64 4294967296 ∷ [])
unfolding meaning_all
meant = refl

visit_all_example :
    (code : List Opcode) × (height : ℕ) × (most : ℕ) × (visit_all costs operators inside
      ≡ done tt (
          at inside
            ((Opcode.stack_check 0 ∷ []) ++ code)
            (types (Value.i32 1 ∷ Value.i64 4294967296 ∷ []))
            height
            most))
    × (0 ≤ most)
    × Agrees
        (at inside
          ((Opcode.stack_check 0 ∷ []) ++ code)
          (types (Value.i32 1 ∷ Value.i64 4294967296 ∷ []))
          height
          most)
        (Value.i32 1 ∷ [])
        (Value.i64 4294967296 ∷ [])
visit_all_example =
    visit_all_outcome costs operators inside [] before (Value.i32 1 ∷ [])
      (Value.i64 4294967296 ∷ []) inside-Plain operators-Constants inside-Agrees meant

abbrev program : RwasmModule
program = record {
  code_section = (Opcode.stack_check 0 ∷ []) ++ (translated ++ (Opcode.return ∷ []));
  data_section = [];
  elem_section = [];
}

run_the_loop-visit_all_example :
    (k : ℕ) × ((rounds : ℕ)
      → run_the_loop host program (k + rounds) (record {
        value_stack = stack (0 ∷ 4294967289 ∷ (9 ∷ [])) (4 + msh_i64_add) 64;
        call_stack = 40 ∷ [];
        ip = 1 + 0;
        store = store;
      })
        ≡ run_the_loop host program rounds (record {
          value_stack = stack (1 ∷ 1 ∷ 0 ∷ (9 ∷ [])) (3 + msh_i64_add) 64;
          call_stack = 40 ∷ [];
          ip = 1 + length translated;
          store = store;
        }))
run_the_loop-visit_all_example =
    run_the_loop-visit_all costs operators inside [] before (Value.i32 1 ∷ [])
      (Value.i64 4294967296 ∷ []) inside-Plain operators-Constants inside-Agrees meant translated
      emitted refl host program (40 ∷ []) store (Opcode.stack_check 0 ∷ []) (Opcode.return ∷ [])
      refl (9 ∷ []) (4 + msh_i64_add) 64 (omega arith)

-- One result on top of the parameter.
abbrev types_of_module : FuncTypeRegistry
types_of_module = record {
  original_func_types = record { params = ValType.i64 ∷ []; results = ValType.i32 ∷ [] } ∷ [];
  func_types = record { params = ValType.i32 ∷ ValType.i32 ∷ []; results = ValType.i32 ∷ [] } ∷ [];
  original_signatures = 0 ∷ [];
}

abbrev body : ControlFrame
body = ControlFrame.block_frame (record {
  block_type = BlockType.func_type 0;
  stack_height = 0;
  end_label = 0;
  consume_fuel = none;
  len_branches = 0;
})

abbrev returning : Translator
returning = record inside {
  control_frames = body ∷ [];
  func_type_registry = types_of_module;
  stack_types = ValType.i32 ∷ ValType.i64 ∷ [];
  stack_height = record { height = 1; max_height = 3 };
}

returning-Agrees : Agrees returning (Value.i32 5 ∷ []) before
unfolding ty
returning-Agrees = record {
  typed = refl;
  high = refl;
  params = omega arith;
  operands_fit = (omega arith, tt);
  locals_fit = (omega arith, tt);
  bounded = omega arith;
}

abbrev returned : Translator
returned = record returning {
  reachable = false;
  instruction_set =
      Opcode.stack_check 0 ∷ Opcode.local_set 2 ∷ Opcode.bulk_drop 1 ∷ Opcode.return ∷ [];
}

returns : visit_return returning ≡ done tt returned
unfolding visit_return
returns = refl

visit_return-Computes_example :
    (code : List Opcode) × (returned.instruction_set
      ≡ (Opcode.stack_check 0 ∷ []) ++ (code ++ (Opcode.return ∷ [])))
    × Computes code 1 (5 ∷ cells64 4294967289) (5 ∷ [])
    × (false ≡ false)
unfolding stack_height kind block_type resolve_func_results_len_type_by_block nth_back
visit_return-Computes_example =
    visit_return-Computes returning (Value.i32 5 ∷ []) before body 1 (5 ∷ []) (cells64 4294967289)
      returning-Agrees refl returns refl refl refl refl refl refl

-- A branch out of a block with one result, on a stack with three cells above the frame.
abbrev branching : Translator
branching = record returning { stack_height = record { height = 3; max_height = 6 } }

compute_drop_keep_example :
    (d : DropKeep) × (compute_drop_keep 0 branching ≡ done d branching)
    × Computes (translate_drop_keep d) 1 (7 ∷ 8 ∷ 9 ∷ []) (7 ∷ [])
unfolding nth_back stack_height kind block_type resolve_func_results_len_type_by_block
compute_drop_keep_example =
    compute_drop_keep-Computes 0 branching body 0 (7 ∷ []) (8 ∷ 9 ∷ []) refl refl (λ e. absurd cc)
      (λ e. refl) refl (omega arith) (omega arith)

-- A block with one result, around it the function.
abbrev block : BlockControlFrame
block = record {
  block_type = BlockType.type ValType.i64;
  stack_height = 1;
  end_label = 0;
  consume_fuel = none;
  len_branches = 1;
}

abbrev labelled : Translator
labelled = record inside {
  labels = record { labels = unpinned ∷ []; users = [] };
  stack_height = record { height = 0; max_height = 6 };
}

abbrev ended : Translator
ended = record labelled {
  control_frames = body ∷ [];
  labels = record { labels = pinned 1 ∷ []; users = [] };
  stack_types = ValType.i64 ∷ ValType.i32 ∷ [];
  stack_height = record { height = 3; max_height = 6 };
}

ends :
    visit_end (
      in_block labelled block body []
        ((ValType.i32 ∷ ValType.i64 ∷ []) ++ (ValType.i32 ∷ []))
        (3 + 1))
    ≡ done tt ended
unfolding visit_end Height.push_n Height.shrink_to pin_label
ends = refl

visit_end-in_block_example :
    (ended.stack_types ≡ ValType.i64 ∷ ValType.i32 ∷ [])
    × (ended.stack_height.height ≡ 2 + 1)
    × (ended.reachable ≡ true)
visit_end-in_block_example =
    visit_end-in_block labelled block body [] (ValType.i32 ∷ ValType.i64 ∷ []) (ValType.i32 ∷ [])
      (ValType.i64 ∷ []) refl ends

-- A source just below 2 ^ 32 gets past the guard, and moves to before the segment, which begins at 32.
-- Three bytes under index 0, then two under index 1 and one element.
add_passive_memory_example : Kept 0 (1 ∷ 2 ∷ 3 ∷ []) (
    add_passive_elements 0
      (9 ∷ [])
      (add_passive_memory 1 (4 ∷ 5 ∷ []) (add_passive_memory 0 (1 ∷ 2 ∷ 3 ∷ []) default)))
unfolding default
add_passive_memory_example =
    add_passive_memory-Kept 0 (1 ∷ 2 ∷ 3 ∷ []) default
      (Steps.then (Step.passive_memory 1 (4 ∷ 5 ∷ []))
        (Steps.then (Step.passive_elements 0 (9 ∷ [])) Steps.stop))
      (omega arith) (λ e. absurd cc, (tt, tt))
