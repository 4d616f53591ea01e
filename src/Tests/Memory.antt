-- ===== src/Tests/Memory.antt =====
-- `memory.init` (src/isa/memory.rs, src/vm/executor/memory.rs) in a concrete program.
use rwasm.Base.{
  ℕ, suc, ◌+◌, ◌<◌, ◌≤◌, ◌≡◌, refl, ◌⊎◌, List, [], ◌∷◌, ◌++◌, length, some, false, arith,
}
use rwasm.Types.Trap.{TrapCode}
use rwasm.Types.Opcode.{Opcode}
use rwasm.Types.Bytes.{overwrite}
use rwasm.Vm.Store.{Store, bit_at}
use rwasm.Vm.Monad.{RwasmModule, Executor, trapped}
use rwasm.Vm.Executor.Run.{run_the_loop}
use rwasm.Isa.Memory.{op_memory_init_checked}
use rwasm.Isa.MemoryInit.{run_the_loop-op_memory_init_checked}
use rwasm.Tests.Machine.{host, store}

abbrev with_memory : List ℕ → Store ℕ
with_memory bytes = record store {
  global_memory = record { shared_memory = bytes; current_pages = 0; max_allowed_memory_pages = 2 };
}

-- The segment has index 1 and three bytes, after two others.
abbrev code : List Opcode
code = op_memory_init_checked 64 6 (some 2) (some 3) 1 false

abbrev program : RwasmModule
program = record {
  code_section = (Opcode.stack_check 8 ∷ []) ++ (code ++ (Opcode.return ∷ []));
  data_section = (1 ∷ 2 ∷ []) ++ ((3 ∷ 4 ∷ 5 ∷ []) ++ (6 ∷ []));
  elem_section = [];
}

abbrev state : ℕ → Store ℕ → List ℕ → ℕ → Executor ℕ
state ip store cells room = record {
  value_stack = record { cells = cells; room = room; maximum_len = 64 };
  call_stack = 40 ∷ [];
  ip = ip;
  store = store;
}

abbrev before : Store ℕ
before = with_memory (0 ∷ 0 ∷ 0 ∷ 0 ∷ [])

abbrev after : Store ℕ
after = with_memory (0 ∷ 4 ∷ 5 ∷ 0 ∷ [])

-- Two bytes from the second on are copied; the same with three would trap.
run_the_loop-op_memory_init_checked_example :
    ((3 < 2 + 1)
      × (k : ℕ) × ((rounds : ℕ)
          → run_the_loop host program (k + suc rounds) (state (1 + 0) before (2 ∷ 1 ∷ 1 ∷ 9 ∷ []) 3)
            ≡ trapped TrapCode.memory_out_of_bounds (state (1 + 6) before (2 ∷ 1 ∷ 1 ∷ 9 ∷ []) 3)))
    ⊎ ((2 + 1 ≤ 3)
        × (k : ℕ) × ((rounds : ℕ)
            → run_the_loop host program
                (k + suc rounds)
                (state (1 + 0) before (2 ∷ 1 ∷ 1 ∷ 9 ∷ []) 3)
              ≡ run_the_loop host program rounds (state (1 + length code) after (9 ∷ []) 6)))
unfolding bit_at overwrite op_memory_init_checked
run_the_loop-op_memory_init_checked_example =
    run_the_loop-op_memory_init_checked host program (40 ∷ []) before (Opcode.stack_check 8 ∷ [])
      (Opcode.return ∷ []) (1 ∷ 2 ∷ []) (3 ∷ 4 ∷ 5 ∷ []) (6 ∷ []) 1 2 1 1 1 64 64 6 (9 ∷ [])
      (omega arith) (omega arith) refl refl refl (omega arith) (omega arith) (omega arith)
