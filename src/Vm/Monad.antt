-- ===== src/Vm/Monad.antt =====
-- The state of `RwasmExecutor` (src/vm/executor.rs) and the effects of its methods: they change
-- the state and may stop with a trap, which leaves the state as it was changed up to there.
use rwasm.Base.{◌≡◌, ap, ℕ, ◌+◌, Bool, Option, none, some, List}
use rwasm.Types.Trap.{TrapCode, Checked}
use rwasm.Types.Trap
use rwasm.Types.Opcode.{Opcode}
use rwasm.Types.Value.{Value, ValType}
use rwasm.Vm.ValueStack.{ValueStack, Sp}
use rwasm.Vm.Store.{Store}

pub record RwasmModule : Type 0 where
  pub code_section : List Opcode
  pub data_section : List ℕ
  pub elem_section : List ℕ

-- What the embedder provides: the import linker, the handler of system calls with its view of the
-- store, and an allocator that grants or refuses more memory.
pub record Host (T : Type 0) : Type 0 where
  pub linker : ℕ → Option (List ValType × List ValType)
  pub syscall_handler :
      ℕ → List Value → List Value → Store T → Checked (Unit {0}) × List Value × Store T
  pub can_reserve : ℕ → Bool

-- The stack pointer `sp` is part of `value_stack`: the source copies it there before each use of
-- the stack's own length.
pub record Executor (T : Type 0) : Type 0 where
  pub value_stack : ValueStack
  pub call_stack : List ℕ
  pub ip : ℕ
  pub store : Store T

-- `fault` is a panic, or a step that the source leaves undefined.
pub data Outcome (T : Type 0) (A : Type 0) : Type 0 where
  done : A → Executor T → Outcome T A
  trapped : TrapCode → Executor T → Outcome T A
  fault : Outcome T A

abbrev pub M : Type 0 → Type 0 → Type 0
M T A = Executor T → Outcome T A

abbrev pub and_then : {T A B : Type 0} → Outcome T A → (A → M T B) → Outcome T B
and_then (done a x) f = f a x
and_then (trapped t x) f = trapped t x
and_then fault f = fault

infixl 5 ◌>>=◌ ◌>>◌
abbrev pub ◌>>=◌ : {T A B : Type 0} → M T A → (A → M T B) → M T B
◌>>=◌ m f x = and_then (m x) f

abbrev pub ◌>>◌ : {T B : Type 0} → M T (Unit {0}) → M T B → M T B
m >> k = m >>= λ _. k

pub bind-done :
    {T A B : Type 0} (m : M T A) (f : A → M T B) (x : Executor T) {a : A} {y : Executor T}
    → m x ≡ done a y
    → (m >>= f) x ≡ f a y
bind-done m f x h = ap (λ o. and_then o f) h

abbrev pub pure : {T A : Type 0} → A → M T A
pure a x = done a x

abbrev pub raise : {T A : Type 0} → TrapCode → M T A
raise t x = trapped t x

abbrev pub get : {T : Type 0} → M T (Executor T)
get x = done x x

-- `expect`, `unwrap` and reads through pointers.
abbrev pub expect : {T A : Type 0} → Option A → M T A
expect none x = fault
expect (some a) x = done a x

abbrev pub ok_or : {T A : Type 0} → Option A → TrapCode → M T A
ok_or none t x = trapped t x
ok_or (some a) t x = done a x

-- The `?` operator.
abbrev pub checked : {T A : Type 0} → Checked A → M T A
checked (Trap.err t) x = trapped t x
checked (Trap.ok a) x = done a x

-- A method of the stack pointer.
abbrev pub on_sp : {T A : Type 0} → Sp A → M T A
on_sp m x = elim (m x.value_stack) [
  | none ↦ fault
  | some (a, s) ↦ done a (record x { value_stack = s })
]

abbrev pub put_store : {T : Type 0} → Store T → M T (Unit {0})
put_store s x = done tt (record x { store = s })

abbrev pub put_ip : {T : Type 0} → ℕ → M T (Unit {0})
put_ip ip x = done tt (record x { ip = ip })

-- `self.ip.add(n)`
abbrev pub advance : {T : Type 0} → ℕ → M T (Unit {0})
advance n x = done tt (record x { ip = x.ip + n })
