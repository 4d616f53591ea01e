-- ===== src/Isa/MemoryInit.antt =====
-- `memory.init` of a passive data segment, as src/isa/memory.rs guards it and the executor
-- (src/vm/executor/memory.rs) runs it on the one data section of a module.
use rwasm.Base.{
  ℕ, zero, suc, Bool, ◌+◌, ◌-◌, ◌^◌, ◌<◌, ◌≤◌, ◌≡◌, refl, ap, ◌∙◌, ◌⊎◌, inl, inr, List, [], ◌∷◌,
  ◌++◌, true, false, some, leb, length, length-append, take, drop, get_elem?, Bool-cases, arith,
}
use rwasm.Types.Trap.{TrapCode}
use rwasm.Types.Opcode.{Opcode}
use rwasm.Types.Bytes.{overwrite}
use rwasm.Vm.ValueStack
use rwasm.Vm.ValueStack.{ValueStack}
use rwasm.Vm.Store.{Store, bit_at}
use rwasm.Vm.Monad.{RwasmModule, Host, Executor, M, ◌>>=◌, pure, done, trapped, bind-done}
use rwasm.Vm.Executor.ControlFlow.{visit_trap_code}
use rwasm.Vm.Executor.Memory.{visit_memory_init, to_usize, put_memory}
use rwasm.Vm.Executor.Step.{step}
use rwasm.Vm.Executor.Run.{run_the_loop, run_the_loop-suc, fetch}
use rwasm.Isa.Block.{fetch-inside, run_the_loop-local}
use rwasm.Isa.Words.{stack}
use rwasm.Isa.Guard.{init, guard_stops, guard_passes}

-- A part of a list in the middle of another.
drop_past : (pre ys : List ℕ) (s : ℕ) → drop (length pre + s) (pre ++ ys) ≡ drop s ys
drop_past [] ys s = let e : 0 + s ≡ s = omega arith in rw e refl
drop_past (x ∷ pre) ys s =
    let e : suc (length pre) + s ≡ suc (length pre + s) = omega arith in rw e (drop_past pre ys s)

drop_within : (s : ℕ) (xs ys : List ℕ) → s ≤ length xs → drop s (xs ++ ys) ≡ drop s xs ++ ys
drop_within zero xs ys p = refl
drop_within (suc s) [] ys p = absurd (omega arith)
drop_within (suc s) (x ∷ xs) ys p = drop_within s xs ys (omega arith)

take_within : (n : ℕ) (xs ys : List ℕ) → n ≤ length xs → take n (xs ++ ys) ≡ take n xs
take_within zero xs ys p = refl
take_within (suc n) [] ys p = absurd (omega arith)
take_within (suc n) (x ∷ xs) ys p = ap (λ l. x ∷ l) (take_within n xs ys (omega arith))

length_drop : (s : ℕ) (xs : List ℕ) → length (drop s xs) ≡ length xs - s
length_drop zero xs = omega arith
length_drop (suc s) [] = omega arith
length_drop (suc s) (x ∷ xs) = length_drop s xs ∙ omega arith

take_inside :
    (pre xs post : List ℕ) (s n : ℕ)
    → n + s ≤ length xs
    → take n (drop (length pre + s) (pre ++ (xs ++ post))) ≡ take n (drop s xs)
take_inside pre xs post s n p =
    ap (take n) (drop_past pre (xs ++ post) s ∙ drop_within s xs post (omega arith))
    ∙ take_within n (drop s xs) post (omega (arith, length_drop s xs))

module _ {T : Type 0} (host : Host T) (m : RwasmModule) (frames : List ℕ) (store : Store T)
    (pre post : List Opcode) (before bytes after : List ℕ)
    (segment n s d r limit bytes_per_fuel bytes_per_fuel_log2 : ℕ) (rest : List ℕ)
    (nonempty : 0 < length bytes) (fits : length before + length bytes < 2 ^ 31) where
  abbrev pub sequence : List Opcode
  sequence =
      init (length bytes) (length before) segment n s d r limit rest bytes_per_fuel
        bytes_per_fuel_log2 nonempty (omega arith) (omega arith)

  abbrev pub copied : Store T
  copied = record store {
    global_memory = record store.global_memory {
      shared_memory = overwrite store.global_memory.shared_memory d (take n (drop s bytes));
    };
  }

  small : (v : ℕ) → v < 2 ^ 31 → to_usize v ≡ v
  small v p = ground arith

  abbrev pub reached : ℕ → Store T → List ℕ → ℕ → Executor T
  reached pc store cells room = record {
    value_stack = stack cells room limit;
    call_stack = frames;
    ip = length pre + pc;
    store = store;
  }

  copies :
      (pc : ℕ)
      → m.data_section ≡ before ++ (bytes ++ after)
      → bit_at store.empty_data_segments segment ≡ false
      → n + s ≤ length bytes
      → d + n ≤ length store.global_memory.shared_memory
      → length store.global_memory.shared_memory < 2 ^ 31
      → step host m
          (Opcode.memory_init segment)
          (reached pc store (n ∷ (length before + s) ∷ d ∷ rest) (suc (suc r)))
        ≡ done false (reached (suc pc) copied rest (suc (suc (suc (suc (suc r))))))
  unfolding step visit_memory_init put_memory ValueStack.pop3
  copies pc placed live inside room memory =
      let e1 = small d (omega arith) in
      let e2 = small (length before + s) (omega arith) in
      let e3 = small n (omega arith) in
      let b1 : leb d (length store.global_memory.shared_memory) ≡ true = ground arith in
      let b2 : leb n (length store.global_memory.shared_memory - d) ≡ true = ground arith in
      let size = length-append before (bytes ++ after) in
      let size' = length-append bytes after in
      let b3 : leb (length before + s) (length (before ++ (bytes ++ after))) ≡ true =
        ground (arith, size, size') in
      let b4 : leb n (length (before ++ (bytes ++ after)) - (length before + s)) ≡ true =
        ground (arith, size, size') in
      let next : length pre + pc + 1 ≡ length pre + suc pc = omega arith in
      rw (live, e1, e2, e3, b1, b2, placed, b3, b4, take_inside before bytes after s n inside, next)
        refl

  stops :
      (rounds pc : ℕ) (cells : List ℕ) (room : ℕ) (trap : TrapCode)
      → m.code_section ≡ pre ++ (sequence ++ post)
      → get_elem? sequence pc ≡ some (Opcode.trap trap)
      → run_the_loop host m (suc rounds) (reached pc store cells room)
        ≡ trapped trap (reached pc store cells room)
  unfolding run_the_loop step visit_trap_code
  stops rounds pc cells room trap placed found =
      let next : Bool → M T Bool = λ return_reached. elim return_reached [
        | true ↦ pure true
        | false ↦ run_the_loop host m rounds
      ] in
      bind-done (fetch host m) (λ instr. step host m instr >>= next) (reached pc store cells room)
        (fetch-inside host m frames store (length pre) pre sequence post placed refl pc
          (stack cells room limit) (Opcode.trap trap) found)

  -- `memory.init` of a data segment that is not empty and not dropped, where no fuel is charged for its
  -- bytes, in whatever program its instructions stand and whatever bytes lie before and after the
  -- segment in the data section. With destination, source and number of bytes on the stack, two cells
  -- free and a range in the memory to write, the executor gets either to the trap `MemoryOutOfBounds`
  -- with nothing changed, which is where the range passes the end of the segment; or past the
  -- instructions with the operands popped and just the bytes of the segment from the source on written
  -- at the destination, which is where the range lies in the segment. The sum of source and number,
  -- and the size of the memory and the end of the segment, are below 2 ^ 31.
  pub run_the_loop-op_memory_init_checked :
      m.code_section ≡ pre ++ (sequence ++ post)
      → m.data_section ≡ before ++ (bytes ++ after)
      → bit_at store.empty_data_segments segment ≡ false
      → d + n ≤ length store.global_memory.shared_memory
      → length store.global_memory.shared_memory < 2 ^ 31
      → n + s < 2 ^ 31
      → ((length bytes < n + s)
          × (k : ℕ) × ((rounds : ℕ)
              → run_the_loop host m
                  (k + suc rounds)
                  (reached 0 store (n ∷ s ∷ d ∷ rest) (suc (suc r)))
                ≡ trapped TrapCode.memory_out_of_bounds
                    (reached 6 store (n ∷ s ∷ d ∷ rest) (suc (suc r)))))
        ⊎ ((n + s ≤ length bytes)
            × (k : ℕ) × ((rounds : ℕ)
                → run_the_loop host m
                    (k + suc rounds)
                    (reached 0 store (n ∷ s ∷ d ∷ rest) (suc (suc r)))
                  ≡ run_the_loop host m rounds
                      (reached (length sequence) copied rest (suc (suc (suc (suc (suc r))))))))
  run_the_loop-op_memory_init_checked placed stored live room memory range =
      elim (Bool-cases (leb (n + s) (length bytes))) [
        | inl e ↦
            let (pc, found, last, run) =
              guard_passes (length bytes) (length before) segment n s d r limit rest bytes_per_fuel
                bytes_per_fuel_log2 nonempty (omega arith) (omega arith) (ground arith) in
            inr (
              ground arith,
              run.rounds,
              λ rounds.
                  run_the_loop-local host m frames store (length pre) pre sequence post placed refl
                    run.rounds (suc rounds) 0 (stack (n ∷ s ∷ d ∷ rest) (suc (suc r)) limit)
                    run.runs
                  ∙ (run_the_loop-suc host m rounds _
                        (fetch-inside host m frames store (length pre) pre sequence post placed refl
                          pc _ (Opcode.memory_init segment) found)
                        (copies pc stored live (ground arith) room memory)
                      ∙ ap
                          (λ end.
                            run_the_loop host m rounds
                              (reached end copied rest (suc (suc (suc (suc (suc r)))))))
                          last),
            )
        | inr e ↦
            let (found, run) =
              guard_stops (length bytes) (length before) segment n s d r limit rest bytes_per_fuel
                bytes_per_fuel_log2 nonempty (omega arith) (omega arith) (ground arith) range in
            inl (
              ground arith,
              run.rounds,
              λ rounds.
                  run_the_loop-local host m frames store (length pre) pre sequence post placed refl
                    run.rounds (suc rounds) 0 (stack (n ∷ s ∷ d ∷ rest) (suc (suc r)) limit)
                    run.runs
                  ∙ stops rounds 6 (n ∷ s ∷ d ∷ rest) (suc (suc r)) TrapCode.memory_out_of_bounds
                      placed found,
            )
      ]
