-- ===== src/Lib.antt =====
-- A verification library for rwasm, a compiler from WebAssembly to a reduced instruction set of
-- 32-bit cells, and the virtual machine that runs it.
--
-- The program's parts. The compiler (src/compiler) translates the functions of a Wasm module into
-- one list of instructions; a 64-bit operation becomes a sequence of 32-bit ones (src/isa) on pairs
-- of cells. The executor (src/vm/executor.rs and src/vm/executor/) fetches and runs the instructions
-- on a value stack (src/vm/value_stack.rs), a call stack, and a store (src/vm/store.rs) with the
-- linear memory (src/vm/memory.rs), tables (src/vm/table_entity.rs), globals and fuel. System calls go
-- to a handler of the embedder.
--
-- The files:
--   Base: shared names, lists and integers over native numbers, laws of `&`, `|` and `^`.
--   Types: src/types. Trap (trap_code.rs), UntypedValue (untyped_value.rs), Bytes (the loads and
--     stores of untyped_value.rs and value.rs; Bytes/Access and Bytes/RoundTrip are about them),
--     BranchOffset, Opcode, Value, Pages (units.rs), Limits (mod.rs).
--   Vm: src/vm. ValueStack, Memory, TableEntity and Store are the files of those names; a child
--     module of each is about what it names. Monad holds the state of `RwasmExecutor` and its
--     effects; Executor/Stack, Alu, ControlFlow, Memory, Table and System are the files under
--     src/vm/executor/ with the `visit_` methods under their names, Step is `step`, Run is
--     `run_the_loop` and `run`. Executor/Invariant is about what every instruction keeps.
--   Isa: src/isa. AddSub, Mul, Compare, Conv, Bitwise and Division are the sequences, `op_` and `msh_` constants
--     under their names. Block follows a sequence on the stack alone, Words says what it computes,
--     Placed carries that to the executor; Arithmetic, Order, Logic, Conversions, Counts, Shifts and
--     RightShift are about the single sequences, Straight about instructions that do not branch.
--     Memory and Table are the 64-bit loads and stores and the guarded sequences of memory.rs and
--     table.rs, Guard and MemoryInit are about `memory.init`.
--   Compiler: src/compiler. DropKeep (drop_keep.rs), ValueStackHeight (value_stack.rs),
--     LabelRegistry (labels.rs), FuncTypeRegistry (func_type_registry.rs), ControlFlow
--     (control_flow.rs), Snippets (snippets.rs), SegmentBuilder (segment_builder.rs), FuncBuilder
--     (func_builder.rs) and Error (error.rs). Translator is translator.rs, with the state of
--     `InstructionTranslator` and its `visit_` methods in the child modules Locals, Numeric, Control,
--     Branches, BrTable, Calls, Memory, Tables and Function; Returns, Kept and Ends are about them.
--     Operators names the integer operators of Wasm, says what they mean on values, and carries that
--     to the code that is emitted for them.
--   Tests: a small host, and concrete runs.
--
-- How the state is modelled. A cell is a number below 2 ^ 32. The buffer of the value stack with its raw
-- pointer is a list of live cells and a number of free ones; what the source leaves undefined there, and
-- panics, are `none` and `fault`. A trap is an outcome that carries the state reached. Hash maps are
-- functions, the bit vectors of dropped segments lists of flags. The import linker, the handler of system
-- calls and the allocator are fields of `Host`, parameters of everything that uses them. The translator is
-- a state that every visit is handed; an error of the compilation and a panic are outcomes of it. The
-- costs of the package rwasm-fuel-policy are a record that the visits take.
--
-- Fuel and bounds. `run_the_loop` takes the number of rounds, and answers whether the program returned
-- within them; the source has no bound, and the theorems hold for every number. The run of a sequence is
-- a number of rounds that its theorem gives.
--
-- Not modelled: floats (src/vm/executor/fpu.rs, behind a feature; without it the instructions trap, as
-- modelled), the tracer, the encoding by the bincode package, the wasmtime backend (src/wasmtime,
-- src/strategy), the parser and validator (the wasmparser package), the constant expressions, the fuel
-- procedures of block_fuel.rs, and the visits of float operators. Nothing is proved about the sequences
-- for division, remainder, the signed right shift and rotations, and Operators gives those operators no
-- meaning.

pub mod Base
pub mod Types
pub mod Vm
pub mod Isa
pub mod Compiler
pub mod Tests
