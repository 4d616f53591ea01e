-- ===== src/Vm/Executor/Invariant/Memory.antt =====
-- The linear memory that src/vm/executor.rs changes.
use rwasm.Base.{
  ℕ, ◌%◌, ◌^◌, ◌<◌, ◌≤◌, ◌≡◌, refl, ◌∙◌, inl, inr, List, [], Bool, Option, none, some, Option-cases,
  length, length-replicate, replicate, if◌then◌else◌, arith,
}
use rwasm.Types.Trap.{TrapCode, Checked, memory_out_of_bounds}
use rwasm.Types.Trap
use rwasm.Types.Pages
use rwasm.Types.Value.{Value}
use rwasm.Types.Opcode.{Opcode}
use rwasm.Types.Bytes
use rwasm.Types.Bytes.{slice, overwrite, store_wrap}
use rwasm.Types.Bytes.Access.{slice-some, length-overwrite}
use rwasm.Types.Bytes.RoundTrip.{load_extend-store_wrap}
use rwasm.Vm.ValueStack
use rwasm.Vm.Memory.{GlobalMemory, grow}
use rwasm.Vm.Memory.Growth.{WellFormed, grow-WellFormed}
use rwasm.Vm.Store.{bit_at}
use rwasm.Vm.Monad.{RwasmModule, Host, Executor, ◌>>=◌, ◌>>◌, on_sp, checked, ok_or, advance}
use rwasm.Vm.Executor.ControlFlow.{visit_call, visit_return_call}
use rwasm.Vm.Executor.Memory.{
  to_usize, put_memory, grow_result, execute_store_wrap, visit_memory_fill, visit_memory_copy,
  visit_memory_init, visit_memory_grow,
}
use rwasm.Vm.Executor.Stack.{visit_bulk_const}
use rwasm.Vm.Executor.Step.{step}
use rwasm.Vm.Executor.Run.{run_the_loop}
use rwasm.Vm.Executor.Invariant.{
  After, Keeps, Blind, Keeps-bind, After-and_then, After-on_sp, on_sp-Keeps, advance-Keeps,
  visit_call-Keeps, visit_return_call-Keeps, visit_bulk_const-Keeps, run_the_loop-Keeps,
}

unfoldable pub Sized : {T : Type 0} → Executor T → Type 0
Sized x = WellFormed x.store.global_memory

module _ (T : Type 0) where
  blind : Blind (Sized {T = T})
  unfolding Blind Sized
  blind x s ip h = h

  -- Bytes that are as many as before.
  put_memory-Sized :
      (bytes : List ℕ) (x : Executor T)
      → Sized x
      → length bytes ≡ length x.store.global_memory.shared_memory
      → After Sized (put_memory bytes x)
  unfolding Sized put_memory
  put_memory-Sized bytes x h e = record {
    sized = e ∙ h.sized;
    allowed = h.allowed;
    addressable = h.addressable;
  }

  -- The rest of an instruction that has its new bytes.
  finish :
      (bytes : List ℕ) (x : Executor T)
      → Sized x
      → length bytes ≡ length x.store.global_memory.shared_memory
      → After Sized ((put_memory bytes >> advance 1) x)
  unfolding Sized put_memory
  finish bytes x h e = put_memory-Sized bytes x h e

  fill_from :
      (x : Executor T) (d n v : ℕ)
      → Sized x
      → After Sized (
          (ok_or (slice x.store.global_memory.shared_memory d n) memory_out_of_bounds >>= λ _.
          put_memory (overwrite x.store.global_memory.shared_memory d (replicate n v)) >> advance 1)
            x)
  unfolding Sized put_memory
  fill_from x d n v h = elim (Option-cases (slice x.store.global_memory.shared_memory d n)) [
    | inl e ↦ rw e h
    | inr (ys, e) ↦
        let (fits, _) = slice-some x.store.global_memory.shared_memory d n e in
        let k = length-replicate n v in
        rw e (
          finish (overwrite x.store.global_memory.shared_memory d (replicate n v)) x h (
            length-overwrite x.store.global_memory.shared_memory d (replicate n v)
              (omega (arith, k))))
  ]

  copy_from :
      (x : Executor T) (source : List ℕ) (d s n : ℕ)
      → Sized x
      → After Sized (
          (ok_or (slice source s n) memory_out_of_bounds >>= λ new.
          ok_or (slice x.store.global_memory.shared_memory d n) memory_out_of_bounds >>= λ _.
          put_memory (overwrite x.store.global_memory.shared_memory d new) >> advance 1)
            x)
  unfolding Sized put_memory
  copy_from x source d s n h = elim (Option-cases (slice source s n)) [
    | inl e ↦ rw e h
    | inr (new, e) ↦ elim (Option-cases (slice x.store.global_memory.shared_memory d n)) [
      | inl f ↦ rw (e, f) h
      | inr (ys, f) ↦
          let (fits, _) = slice-some x.store.global_memory.shared_memory d n f in
          let (_, k) = slice-some source s n e in
          rw (e, f)
            (finish (overwrite x.store.global_memory.shared_memory d new) x h
              (length-overwrite x.store.global_memory.shared_memory d new (omega (arith, k))))
    ]
  ]

  init_from :
      (x : Executor T) (source : List ℕ) (d s n : ℕ)
      → Sized x
      → After Sized (
          (ok_or (slice x.store.global_memory.shared_memory d n) memory_out_of_bounds >>= λ _.
          ok_or (slice source s n) memory_out_of_bounds >>= λ new.
          put_memory (overwrite x.store.global_memory.shared_memory d new) >> advance 1)
            x)
  unfolding Sized put_memory
  init_from x source d s n h = elim (Option-cases (slice x.store.global_memory.shared_memory d n)) [
    | inl f ↦ rw f h
    | inr (ys, f) ↦ elim (Option-cases (slice source s n)) [
      | inl e ↦ rw (f, e) h
      | inr (new, e) ↦
          let (fits, _) = slice-some x.store.global_memory.shared_memory d n f in
          let (_, k) = slice-some source s n e in
          rw (f, e)
            (finish (overwrite x.store.global_memory.shared_memory d new) x h
              (length-overwrite x.store.global_memory.shared_memory d new (omega (arith, k))))
    ]
  ]

  visit_memory_fill-Sized : Keeps (Sized {T = T}) visit_memory_fill
  unfolding visit_memory_fill Keeps
  visit_memory_fill-Sized =
      Keeps-bind Sized (on_sp ValueStack.pop3) _ (on_sp-Keeps Sized blind ValueStack.pop3)
        (λ range x h. fill_from x (to_usize range.0) (to_usize range.2) (range.1 % 2 ^ 8) h)

  visit_memory_copy-Sized : Keeps (Sized {T = T}) visit_memory_copy
  unfolding visit_memory_copy Keeps
  visit_memory_copy-Sized =
      Keeps-bind Sized (on_sp ValueStack.pop3) _ (on_sp-Keeps Sized blind ValueStack.pop3)
        (λ range x h.
          copy_from x x.store.global_memory.shared_memory (to_usize range.0) (to_usize range.1)
            (to_usize range.2) h)

  visit_memory_init-Sized :
      (m : RwasmModule) (i : ℕ) → Keeps (Sized {T = T}) (visit_memory_init m i)
  unfolding visit_memory_init Keeps Sized
  visit_memory_init-Sized m i x h = After-on_sp Sized ValueStack.pop3 _ x (λ range stack.
      init_from (record x { value_stack = stack })
        (if bit_at x.store.empty_data_segments i then [] else m.data_section) (to_usize range.0)
        (to_usize range.1) (to_usize range.2) h)

  store_into :
      (x : Executor T) (n address offset value : ℕ)
      → 0 < n
      → Sized x
      → After Sized (
          (checked (store_wrap n x.store.global_memory.shared_memory address offset value)
              >>= λ bytes. put_memory bytes >> advance 1)
            x)
  unfolding Sized put_memory
  store_into x n address offset value p h =
      go (store_wrap n x.store.global_memory.shared_memory address offset value) refl
    where
      go :
          (c : Checked (List ℕ))
          → store_wrap n x.store.global_memory.shared_memory address offset value ≡ c
          → After Sized ((checked c >>= λ bytes. put_memory bytes >> advance 1) x)
      go (Trap.err t) e = h
      go (Trap.ok bytes) e =
          let small : length x.store.global_memory.shared_memory ≤ 2 ^ 32 =
            omega (arith, h.sized, h.addressable) in
          let (_, k, _) =
            load_extend-store_wrap n x.store.global_memory.shared_memory address offset value
              (λ v. v) p small e in
          finish bytes x h k

  execute_store_wrap-Sized :
      (offset n : ℕ) → 0 < n → Keeps (Sized {T = T}) (execute_store_wrap offset (store_wrap n))
  unfolding execute_store_wrap Keeps
  execute_store_wrap-Sized offset n p =
      Keeps-bind Sized (on_sp ValueStack.pop2) _ (on_sp-Keeps Sized blind ValueStack.pop2)
        (λ operands x h. store_into x n operands.0 offset operands.1 p h)

  grow_result-Sized :
      (can_reserve : ℕ → Bool) (pages : Option ℕ) (x : Executor T)
      → Sized x
      → After Sized (
          grow_result
            (elim pages [ none ↦ none | some n ↦ grow can_reserve n x.store.global_memory ])
            x)
  unfolding grow_result Sized Keeps
  grow_result-Sized can_reserve none x h = on_sp-Keeps Sized blind (ValueStack.push _) x h
  grow_result-Sized can_reserve (some n) x h = go (grow can_reserve n x.store.global_memory) refl
    where
      go :
          (o : Option (ℕ × GlobalMemory))
          → grow can_reserve n x.store.global_memory ≡ o
          → After Sized (grow_result o x)
      go none e = on_sp-Keeps Sized blind (ValueStack.push _) x h
      go (some (old, memory)) e =
          let store = x.store in
          on_sp-Keeps Sized blind (ValueStack.push old)
            (record x { store = record store { global_memory = memory } })
            (grow-WellFormed can_reserve n x.store.global_memory h e)

  visit_memory_grow-Sized :
      (can_reserve : ℕ → Bool) → Keeps (Sized {T = T}) (visit_memory_grow can_reserve)
  unfolding visit_memory_grow Keeps
  visit_memory_grow-Sized can_reserve =
      Keeps-bind Sized (on_sp ValueStack.pop) _ (on_sp-Keeps Sized blind ValueStack.pop)
        (λ delta x h.
          After-and_then Sized
            (grow_result
              (elim (Pages.new delta) [
                | none ↦ none
                | some n ↦ grow can_reserve n x.store.global_memory
              ])
              x)
            _ (grow_result-Sized can_reserve (Pages.new delta) x h)
            (λ _. advance-Keeps Sized blind 1))

-- Any instruction, whether it succeeds or traps, leaves the linear memory well-formed if the handler
-- of system calls does.
pub step-Sized :
    {T : Type 0} (host : Host T) (m : RwasmModule)
    → ((f : ℕ) (ps rs : List Value) (x : Executor T)
        → Sized x
        → Sized (record x { store = (host.syscall_handler f ps rs x.store).2 }))
    → (op : Opcode) → Keeps Sized (step host m op)
unfolding step Keeps Sized Blind Bytes.i32_store Bytes.i32_store8 Bytes.i32_store16
step-Sized {T} host m handler (Opcode.call f) =
    Keeps-bind Sized (visit_call host f) _ (visit_call-Keeps Sized (blind T) host handler f)
      (λ _ x h. h)
step-Sized {T} host m handler (Opcode.return_call f) =
    Keeps-bind Sized (visit_return_call host f) _
      (visit_return_call-Keeps Sized (blind T) host handler f) (λ _ x h. h)
step-Sized {T} host m handler (Opcode.bulk_const n) =
    Keeps-bind Sized (visit_bulk_const n) _ (visit_bulk_const-Keeps Sized (blind T) n) (λ _ x h. h)
step-Sized {T} host m handler Opcode.memory_grow =
    Keeps-bind Sized (visit_memory_grow host.can_reserve) _
      (visit_memory_grow-Sized T host.can_reserve) (λ _ x h. h)
step-Sized {T} host m handler Opcode.memory_fill =
    Keeps-bind Sized visit_memory_fill _ (visit_memory_fill-Sized T) (λ _ x h. h)
step-Sized {T} host m handler Opcode.memory_copy =
    Keeps-bind Sized visit_memory_copy _ (visit_memory_copy-Sized T) (λ _ x h. h)
step-Sized {T} host m handler (Opcode.memory_init i) =
    Keeps-bind Sized (visit_memory_init m i) _ (visit_memory_init-Sized T m i) (λ _ x h. h)
step-Sized {T} host m handler (Opcode.i32_store offset) =
    Keeps-bind Sized (execute_store_wrap offset (store_wrap 4)) _
      (execute_store_wrap-Sized T offset 4 (omega arith)) (λ _ x h. h)
step-Sized {T} host m handler (Opcode.i32_store8 offset) =
    Keeps-bind Sized (execute_store_wrap offset (store_wrap 1)) _
      (execute_store_wrap-Sized T offset 1 (omega arith)) (λ _ x h. h)
step-Sized {T} host m handler (Opcode.i32_store16 offset) =
    Keeps-bind Sized (execute_store_wrap offset (store_wrap 2)) _
      (execute_store_wrap-Sized T offset 2 (omega arith)) (λ _ x h. h)
step-Sized {T} host m handler _ = λ x h. ground arith

-- However many instructions run, the linear memory stays well-formed: it has a whole number of pages,
-- no more than allowed, if that holds at the start and the handler of system calls keeps it.
pub run_the_loop-Sized :
    {T : Type 0} (host : Host T) (m : RwasmModule)
    → ((f : ℕ) (ps rs : List Value) (x : Executor T)
        → Sized x
        → Sized (record x { store = (host.syscall_handler f ps rs x.store).2 }))
    → (rounds : ℕ) (x : Executor T) → Sized x
    → After Sized (run_the_loop host m rounds x)
unfolding Keeps
run_the_loop-Sized host m handler rounds =
    run_the_loop-Keeps Sized host m (step-Sized host m handler) rounds
