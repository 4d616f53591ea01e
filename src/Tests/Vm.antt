-- ===== src/Tests/Vm.antt =====
-- The virtual machine (src/vm, src/types) at concrete inputs.
use rwasm.Base.{
  ℕ, ◌+◌, ◌*◌, ◌%◌, ◌^◌, ◌<◌, ◌≤◌, ◌≡◌, refl, ◌⊎◌, none, some, List, [], ◌∷◌, true, false, length,
  take, drop, get_elem?, ltb, leb, ◌==◌, ◌&&◌, min, if◌then◌else◌, arith,
}
use rwasm.Base.Ints.{negsuc}
use rwasm.Types.Trap.{ok, err, memory_out_of_bounds, stack_overflow, out_of_fuel}
use rwasm.Types.BranchOffset.{from_src_to_dst, apply_offset, apply_offset-from_src_to_dst}
use rwasm.Types.Opcode.{Opcode}
use rwasm.Types.Value.{Value, ty}
use rwasm.Types.Bytes.{store_wrap, load_extend, overwrite, from_le_bytes, to_le_bytes}
use rwasm.Types.Bytes.RoundTrip.{store_wrap_outcome, load_extend_outcome, load_extend-store_wrap}
use rwasm.Vm.ValueStack.{ValueStack, push, push_value, pop_value, reserve, len}
use rwasm.Vm.ValueStack.RoundTrip.{
  pop_value-push_value, reserve_outcome, reserve-capacity, here, reserved, pushed,
}
use rwasm.Vm.Memory.{GlobalMemory, grow}
use rwasm.Vm.Memory.Growth.{WellFormed, grown, grow_outcome}
use rwasm.Vm.Store.{try_consume_fuel, bit_at}
use rwasm.Vm.Store.Fuel.{try_consume_fuel_outcome}
use rwasm.Vm.Executor.DropFlags.{drop_flags}
use rwasm.Vm.Executor.Memory.{visit_data_drop}
use rwasm.Vm.Executor.Table.{visit_element_drop}
use rwasm.Vm.Monad.{RwasmModule, Executor, done}
use rwasm.Vm.Executor.Run.{run_the_loop}
use rwasm.Vm.Executor.Invariant.{After}
use rwasm.Vm.Executor.Invariant.Frames.{Shallow, run_the_loop-Shallow}
use rwasm.Vm.Executor.Invariant.Fuel.{Funded, run_the_loop-Funded}
use rwasm.Vm.Executor.Invariant.Memory.{Sized, run_the_loop-Sized}
use rwasm.Tests.Machine.{host, store, start}

apply_offset-from_src_to_dst_example : apply_offset 9 (negsuc 5) ≡ some 3
unfolding from_src_to_dst
apply_offset-from_src_to_dst_example = apply_offset-from_src_to_dst 9 3 refl

abbrev bytes : List ℕ
bytes = 10 ∷ 11 ∷ 12 ∷ 13 ∷ 14 ∷ 15 ∷ []

store_wrap_example : store_wrap 2 bytes 1 4 0x1_0203 ≡ (
    if leb (4 + 1 + 2) (length bytes)
    then ok (overwrite bytes (4 + 1) (to_le_bytes 2 (0x1_0203 % 2 ^ (8 * 2))))
    else err memory_out_of_bounds)
store_wrap_example = store_wrap_outcome 2 bytes 1 4 (omega arith) (omega arith) 0x1_0203

load_extend_example : load_extend 2 (λ v. v) bytes 1 2 ≡ (
    if leb (2 + 1 + 2) (length bytes)
    then ok (from_le_bytes (take 2 (drop (2 + 1) bytes)))
    else err memory_out_of_bounds)
load_extend_example = load_extend_outcome 2 bytes 1 2 (omega arith) (omega arith) (λ v. v)

abbrev stored : List ℕ
stored = 10 ∷ 11 ∷ 12 ∷ 3 ∷ 2 ∷ 15 ∷ []

load_extend-store_wrap_example :
    (load_extend 2 (λ v. v) stored 1 2 ≡ ok (0x1_0203 % 2 ^ (8 * 2)))
    × (length stored ≡ length bytes)
    × ((i : ℕ) → (i < 2 + 1) ⊎ (2 + 1 + 2 ≤ i) → get_elem? stored i ≡ get_elem? bytes i)
unfolding store_wrap
load_extend-store_wrap_example =
    load_extend-store_wrap 2 bytes 1 2 0x1_0203 (λ v. v) {memory' = stored} (omega arith)
      (omega arith) refl

abbrev small_stack : ValueStack
small_stack = record { cells = 7 ∷ []; room = 3; maximum_len = 8 }

pop_value-push_value_example :
    (s' : ValueStack) × (push_value (Value.i64 0x1_0000_0002) small_stack ≡ some (tt, s'))
    × (pop_value (ty (Value.i64 0x1_0000_0002)) s' ≡ some (Value.i64 0x1_0000_0002, small_stack))
pop_value-push_value_example =
    pop_value-push_value (Value.i64 0x1_0000_0002) small_stack (omega arith) (omega arith)

reserve_example :
    ((8 < len small_stack + 5) × (reserve 5 small_stack ≡ err stack_overflow))
    ⊎ ((s' : ValueStack) × (reserve 5 small_stack ≡ ok s')
        × (len small_stack + 5 ≤ 8)
        × (s'.cells ≡ 7 ∷ [])
        × (5 ≤ s'.room)
        × (3 ≤ s'.room)
        × (s'.maximum_len ≡ 8))
reserve_example = reserve_outcome 5 small_stack

abbrev extended_stack : ValueStack
extended_stack = record { cells = 7 ∷ []; room = 9; maximum_len = 8 }

-- A call makes room, and a value is pushed.
reserve-capacity_example : (10 < 2 * 8) × ◌≡◌ {A = ℕ} 8 8
unfolding reserve push
reserve-capacity_example =
    reserve-capacity small_stack (record { cells = 5 ∷ 7 ∷ []; room = 8; maximum_len = 8 })
      (pushed {t = extended_stack} 5 (reserved {t = small_stack} 5 here refl) refl) (omega arith)

abbrev no_memory : GlobalMemory
no_memory = record { shared_memory = []; current_pages = 0; max_allowed_memory_pages = 2 }

no_memory-WellFormed : WellFormed no_memory
no_memory-WellFormed = record { sized = refl; allowed = omega arith; addressable = omega arith }

grow_example : grow (λ _. true) 3 no_memory ≡ (
    if 3 == 0
    then some (0, no_memory)
    else if leb (0 + 3) (min 2 65536) && true
    then some (0, grown 3 no_memory)
    else none)
grow_example = grow_outcome (λ _. true) 3 no_memory no_memory-WellFormed

try_consume_fuel_example : try_consume_fuel 998 store ≡ (
    if leb (3 + 998) 1000 then ok (record store { consumed_fuel = 3 + 998 }) else err out_of_fuel)
try_consume_fuel_example = try_consume_fuel_outcome store 1000 refl (omega arith) 998

-- Data segment 2 and element segment 3 had been dropped.
abbrev dropped : Executor ℕ
dropped = record start {
  store = record store {
    empty_data_segments = false ∷ false ∷ true ∷ [];
    empty_elem_segments = false ∷ false ∷ false ∷ true ∷ [];
  };
}

drop_flags_example :
    (y z : Executor ℕ) × (visit_data_drop 1 dropped ≡ done tt y)
    × (visit_element_drop 1 dropped ≡ done tt z)
    × ((j : ℕ)
        → bit_at y.store.empty_data_segments j
          ≡ (if ltb j 1 then bit_at (false ∷ false ∷ true ∷ []) j else 1 == j))
    × ((j : ℕ)
        → bit_at z.store.empty_elem_segments j
          ≡ (if ltb j 1 then bit_at (false ∷ false ∷ false ∷ true ∷ []) j else 1 == j))
    × (y ≡ record dropped {
      ip = 1;
      store = record dropped.store { empty_data_segments = y.store.empty_data_segments };
    })
    × (z ≡ record dropped {
      ip = 1;
      store = record dropped.store { empty_elem_segments = z.store.empty_elem_segments };
    })
drop_flags_example = drop_flags 1 dropped

-- A program that grows the memory, stores a byte and calls itself.
abbrev program : RwasmModule
program = record {
  code_section =
      Opcode.consume_fuel 5
      ∷ Opcode.i32_const 1
      ∷ Opcode.memory_grow
      ∷ Opcode.i32_const 8
      ∷ Opcode.i32_store8 0
      ∷ Opcode.call_internal 0
      ∷ [];
  data_section = [];
  elem_section = [];
}

start-Shallow : Shallow start
unfolding Shallow
start-Shallow = omega arith

start-Funded : Funded start
unfolding Funded
start-Funded = omega arith

start-Sized : Sized start
unfolding Sized
start-Sized = no_memory-WellFormed

run_the_loop-Shallow_example : After Shallow (run_the_loop host program 20 start)
run_the_loop-Shallow_example = run_the_loop-Shallow host program 20 start start-Shallow

run_the_loop-Funded_example : After Funded (run_the_loop host program 20 start)
run_the_loop-Funded_example =
    run_the_loop-Funded host program (λ f ps rs x h. h) 20 start start-Funded

run_the_loop-Sized_example : After Sized (run_the_loop host program 20 start)
run_the_loop-Sized_example = run_the_loop-Sized host program (λ f ps rs x h. h) 20 start start-Sized
