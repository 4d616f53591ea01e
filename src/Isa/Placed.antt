-- ===== src/Isa/Placed.antt =====
-- What a sequence of src/isa computes, seen from the executor that runs it inside a program.
use rwasm.Base.{ℕ, ◌+◌, ◌-◌, ◌≡◌, List, ◌++◌, length, refl}
use rwasm.Types.Opcode.{Opcode}
use rwasm.Vm.Store.{Store}
use rwasm.Vm.Monad.{RwasmModule, Host}
use rwasm.Vm.Executor.Run.{run_the_loop}
use rwasm.Isa.Block.{run_the_loop-local}
use rwasm.Isa.Words.{Computes, stack, spare}

-- In whatever program a sequence stands, once the executor is at its first instruction with the
-- operands on the stack and the promised room free, it gets after some rounds past the last
-- instruction with the results in place of the operands; the frames and the store are untouched.
pub run_the_loop-Computes :
    {T : Type 0} (host : Host T) (m : RwasmModule) (frames : List ℕ) (store : Store T)
    (pre code post : List Opcode) {msh : ℕ} {before after : List ℕ}
    → Computes code msh before after
    → m.code_section ≡ pre ++ (code ++ post)
    → (rest : List ℕ) (r limit : ℕ)
    → (k : ℕ) × ((rounds : ℕ)
        → run_the_loop host m (k + rounds) (record {
          value_stack = stack (before ++ rest) (spare msh r) limit;
          call_stack = frames;
          ip = length pre + 0;
          store = store;
        })
          ≡ run_the_loop host m rounds (record {
            value_stack =
                stack (after ++ rest) (spare (length before + msh - length after) r) limit;
            call_stack = frames;
            ip = length pre + length code;
            store = store;
          }))
run_the_loop-Computes host m frames store pre code post c placed rest r limit =
    let run = c.computes rest r limit in
    (
      run.rounds,
      λ rounds.
          run_the_loop-local host m frames store (length pre) pre code post placed refl run.rounds
            rounds 0 (stack (_ ++ rest) (spare _ r) limit) run.runs,
    )
