-- ===== src/Tests/Machine.antt =====
-- A host and a store to run programs with (src/vm/store.rs, src/vm/executor.rs).
use rwasm.Base.{ℕ, none, some, [], true}
use rwasm.Types.Trap
use rwasm.Vm.Store.{Store}
use rwasm.Vm.Monad.{Host, Executor}

-- No system calls, and memory without end.
abbrev pub host : Host ℕ
host = record {
  linker = λ _. none;
  syscall_handler = λ _ _ results s. (Trap.ok tt, results, s);
  can_reserve = λ _. true;
}

abbrev pub store : Store ℕ
store = record {
  consumed_fuel = 3;
  global_memory = record { shared_memory = []; current_pages = 0; max_allowed_memory_pages = 2 };
  context = 0;
  last_signature = none;
  tables = λ _. none;
  global_variables = λ _. none;
  empty_data_segments = [];
  empty_elem_segments = [];
  fuel_limit = some 1000;
}

abbrev pub start : Executor ℕ
start = record {
  value_stack = record { cells = []; room = 32; maximum_len = 8192 };
  call_stack = [];
  ip = 0;
  store = store;
}
