-- ===== src/Vm/Executor/Invariant.antt =====
-- Predicates that the parts of src/vm/executor.rs preserve, whatever they return.
pub mod Frames
pub mod Fuel
pub mod Memory
use rwasm.Base.{
  ℕ, zero, suc, ◌+◌, ◌≤◌, ◌≡◌, refl, List, [], ◌∷◌, reverse, length, max, Option, none, some, true,
  false, get_elem?,
}
use rwasm.Types.Trap.{TrapCode, Checked, ok, err, execution_halted}
use rwasm.Types.Trap
use rwasm.Types.Value.{Value, ValType}
use rwasm.Vm.ValueStack
use rwasm.Vm.ValueStack.{ValueStack, Sp}
use rwasm.Vm.Store.{Store}
use rwasm.Vm.Executor.Step.{step}
use rwasm.Vm.Executor.Run.{fetch, run_the_loop}
use rwasm.Types.Opcode.{Opcode}
use rwasm.Vm.Monad.{
  RwasmModule, Host, Executor, Outcome, done, trapped, fault, M, ◌>>=◌, ◌>>◌, pure, raise, get,
  expect, checked, on_sp, put_store, put_ip, advance, and_then,
}
use rwasm.Vm.Executor.Stack.{push_zeros, visit_bulk_const}
use rwasm.Vm.Executor.ControlFlow.{
  pop_values, default_values, push_values, default_value, finish_syscall, invoke_syscall,
  visit_call, visit_return_call,
}

-- Of the state that an outcome leaves; a panic leaves none.
abbrev pub After : {T A : Type 0} → (Executor T → Type 0) → Outcome T A → Type 0
After P (done a x) = P x
After P (trapped t x) = P x
After P fault = Unit {0}

unfoldable pub Keeps : {T A : Type 0} → (Executor T → Type 0) → M T A → Type 0
Keeps {T} P m = (x : Executor T) → P x → After P (m x)

-- A predicate that does not read the value stack.
unfoldable pub Blind : {T : Type 0} → (Executor T → Type 0) → Type 0
Blind {T} P =
    (x : Executor T) (s : ValueStack) (ip : ℕ) → P x → P (record x { value_stack = s; ip = ip })

pub After-and_then :
    {T A B : Type 0} (P : Executor T → Type 0) (o : Outcome T A) (f : A → M T B)
    → After P o
    → ((a : A) → Keeps P (f a))
    → After P (and_then o f)
unfolding Keeps
After-and_then P (done a x) f p q = q a x p
After-and_then P (trapped t x) f p q = p
After-and_then P fault f p q = tt

pub Keeps-bind :
    {T A B : Type 0} (P : Executor T → Type 0) (m : M T A) (f : A → M T B)
    → Keeps P m
    → ((a : A) → Keeps P (f a))
    → Keeps P (m >>= f)
unfolding Keeps
Keeps-bind P m f p q x h = After-and_then P (m x) f (p x h) q

-- A method of the stack changes nothing else.
pub After-on_sp :
    {T A B : Type 0} (P : Executor T → Type 0) (m : Sp A) (f : A → M T B) (x : Executor T)
    → ((a : A) (s : ValueStack) → After P (f a (record x { value_stack = s })))
    → After P ((on_sp m >>= f) x)
After-on_sp {A} P m f x q = go (m x.value_stack)
  where
    go :
        (o : Option (A × ValueStack))
        → After P (
            and_then
              (elim o [ none ↦ fault | some (a, s) ↦ done a (record x { value_stack = s }) ])
              f)
    go none = tt
    go (some (a, s)) = q a s

module _ {T : Type 0} (P : Executor T → Type 0) (blind : Blind P) where
  pub on_sp-Keeps : {A : Type 0} (m : Sp A) → Keeps P (on_sp m)
  unfolding Keeps Blind
  on_sp-Keeps {A} m x h = go (m x.value_stack)
    where
      go :
          (o : Option (A × ValueStack))
          → After P (elim o [ none ↦ fault | some (a, s) ↦ done a (record x { value_stack = s }) ])
      go none = tt
      go (some (a, s)) = blind x s x.ip h

  pub advance-Keeps : (n : ℕ) → Keeps P (advance n)
  unfolding Keeps Blind
  advance-Keeps n x h = blind x x.value_stack (x.ip + n) h

  pop_values-Keeps : (ts : List ValType) → Keeps P (pop_values ts)
  unfolding pop_values Keeps
  pop_values-Keeps [] = λ x h. h
  pop_values-Keeps (t ∷ ts) =
      Keeps-bind P (on_sp (ValueStack.pop_value t)) _ (on_sp-Keeps (ValueStack.pop_value t))
        (λ v. Keeps-bind P (pop_values ts) _ (pop_values-Keeps ts) (λ vs x h. h))

  expect-Keeps : {A : Type 0} (o : Option A) → Keeps P (expect o)
  unfolding Keeps
  expect-Keeps none x h = tt
  expect-Keeps (some a) x h = h

  default_values-Keeps : (ts : List ValType) → Keeps P (default_values ts)
  unfolding default_values Keeps
  default_values-Keeps [] = λ x h. h
  default_values-Keeps (t ∷ ts) =
      Keeps-bind P (expect (default_value t)) _ (expect-Keeps (default_value t))
        (λ v. Keeps-bind P (default_values ts) _ (default_values-Keeps ts) (λ vs x h. h))

  push_values-Keeps : (vs : List Value) → Keeps P (push_values vs)
  unfolding push_values Keeps
  push_values-Keeps [] = λ x h. h
  push_values-Keeps (v ∷ vs) =
      Keeps-bind P (on_sp (ValueStack.push_value v)) _ (on_sp-Keeps (ValueStack.push_value v))
        (λ _. push_values-Keeps vs)

  push_zeros-Keeps : (n : ℕ) → Keeps P (push_zeros n)
  unfolding push_zeros Keeps
  push_zeros-Keeps zero = λ x h. h
  push_zeros-Keeps (suc n) =
      Keeps-bind P (on_sp (ValueStack.push 0)) _ (on_sp-Keeps (ValueStack.push 0))
        (λ _. push_zeros-Keeps n)

  pub visit_bulk_const-Keeps : (n : ℕ) → Keeps P (visit_bulk_const n)
  unfolding visit_bulk_const Keeps
  visit_bulk_const-Keeps n =
      Keeps-bind P (push_zeros n) _ (push_zeros-Keeps n) (λ _. advance-Keeps 1)

  finish_syscall-Keeps :
      (result : List Value) (c : Checked (Unit {0})) → Keeps P (finish_syscall result c)
  unfolding finish_syscall Keeps
  finish_syscall-Keeps result (Trap.ok _) = push_values-Keeps result
  finish_syscall-Keeps result (Trap.err Trap.unreachable_code_reached) = λ x h. h
  finish_syscall-Keeps result (Trap.err Trap.memory_out_of_bounds) = λ x h. h
  finish_syscall-Keeps result (Trap.err Trap.table_out_of_bounds) = λ x h. h
  finish_syscall-Keeps result (Trap.err Trap.indirect_call_to_null) = λ x h. h
  finish_syscall-Keeps result (Trap.err Trap.integer_division_by_zero) = λ x h. h
  finish_syscall-Keeps result (Trap.err Trap.integer_overflow) = λ x h. h
  finish_syscall-Keeps result (Trap.err Trap.bad_conversion_to_integer) = λ x h. h
  finish_syscall-Keeps result (Trap.err Trap.stack_overflow) = λ x h. h
  finish_syscall-Keeps result (Trap.err Trap.bad_signature) = λ x h. h
  finish_syscall-Keeps result (Trap.err Trap.out_of_fuel) = λ x h. h
  finish_syscall-Keeps result (Trap.err Trap.unknown_external_function) = λ x h. h
  finish_syscall-Keeps result (Trap.err Trap.illegal_opcode) = λ x h. h
  finish_syscall-Keeps result (Trap.err Trap.interruption_called) = λ x h. h
  finish_syscall-Keeps result (Trap.err Trap.execution_halted) =
      Keeps-bind P (push_values result) _ (push_values-Keeps result) (λ _ x h. h)

  pub checked-Keeps : {A : Type 0} (c : Checked A) → Keeps P (checked c)
  unfolding Keeps
  checked-Keeps (Trap.ok a) x h = h
  checked-Keeps (Trap.err t) x h = h

  -- The handler is outside: it is supposed to keep the predicate.
  module _ (host : Host T)
      (handler : (f : ℕ) (ps rs : List Value) (x : Executor T)
        → P x
        → P (record x { store = (host.syscall_handler f ps rs x.store).2 })) where
    answer-Keeps :
        (f : ℕ) (ps rs : List Value)
        → Keeps P (
            get >>= λ y.
            let answer = host.syscall_handler f ps rs y.store in
            put_store answer.2 >> finish_syscall answer.1 answer.0)
    unfolding Keeps
    answer-Keeps f ps rs x h =
        let answer = host.syscall_handler f ps rs x.store in
        finish_syscall-Keeps answer.1 answer.0 (record x { store = answer.2 }) (handler f ps rs x h)

    invoke_syscall-Keeps : (f : ℕ) → Keeps P (invoke_syscall host f)
    unfolding invoke_syscall Keeps
    invoke_syscall-Keeps f =
        Keeps-bind P (expect (host.linker f)) _ (expect-Keeps (host.linker f)) (λ types. λ x.
          (Keeps-bind P
              (checked (ValueStack.reserve (max (length types.0) (length types.1)) x.value_stack)) _
              (checked-Keeps
                (ValueStack.reserve (max (length types.0) (length types.1)) x.value_stack))
              (λ s.
                Keeps-bind P (on_sp (λ _. some (tt, s))) _ (on_sp-Keeps (λ _. some (tt, s))) (λ _.
                  Keeps-bind P (pop_values types.0) _ (pop_values-Keeps types.0) (λ popped.
                    Keeps-bind P (default_values types.1) _ (default_values-Keeps types.1)
                      (λ defaults. answer-Keeps f (reverse popped) defaults)))))
            x)

    pub visit_call-Keeps : (f : ℕ) → Keeps P (visit_call host f)
    unfolding visit_call
    visit_call-Keeps f = Keeps-bind P (advance 1) _ (advance-Keeps 1) (λ _. invoke_syscall-Keeps f)

    pub visit_return_call-Keeps : (f : ℕ) → Keeps P (visit_return_call host f)
    unfolding visit_return_call
    visit_return_call-Keeps f =
        Keeps-bind P (advance 1) _ (advance-Keeps 1) (λ _. invoke_syscall-Keeps f)

fetched :
    {T : Type 0} (P : Executor T → Type 0) (o : Option Opcode) (x : Executor T)
    → P x
    → After P (expect o x)
fetched P none x h = tt
fetched P (some op) x h = h

-- What every instruction keeps the loop keeps.
pub run_the_loop-Keeps :
    {T : Type 0} (P : Executor T → Type 0) (host : Host T) (m : RwasmModule)
    → ((op : Opcode) → Keeps P (step host m op))
    → (rounds : ℕ) → Keeps P (run_the_loop host m rounds)
unfolding run_the_loop Keeps fetch
run_the_loop-Keeps P host m p zero = λ x h. h
run_the_loop-Keeps P host m p (suc rounds) =
    Keeps-bind P (fetch host m) _ (λ x h. fetched P (get_elem? m.code_section x.ip) x h)
      (λ op.
        Keeps-bind P (step host m op) _ (p op)
          (elim [ true ↦ λ x h. h | false ↦ run_the_loop-Keeps P host m p rounds ]))
