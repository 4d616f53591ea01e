-- ===== src/Vm/ValueStack/RoundTrip.antt =====
-- Values on the stack of src/vm/value_stack.rs: what is pushed is popped, and what `reserve` gives.
use rwasm.Base.{
  ℕ, zero, suc, ◌+◌, ◌*◌, ◌/◌, ◌%◌, ◌^◌, ◌<◌, ◌≤◌, ◌≡◌, refl, ◌⊎◌, inl, inr, Bool-cases, some, List,
  bit_or, arith, ltb, leb,
}
use rwasm.Base.Bits.{bit_or-add}
use rwasm.Types.Trap.{ok, err, stack_overflow}
use rwasm.Types.Value.{Value, ty}
use rwasm.Vm.ValueStack.{
  ValueStack, push_value, pop_value, reserve, push, pop, reset, len, capacity,
}

-- The cells that a value takes, and the numbers that its cells can hold.
abbrev pub width : Value → ℕ
width (Value.i64 _) = 2
width (Value.f64 _) = 2
width _ = 1

abbrev pub Fits : Value → Type 0
Fits (Value.i32 v) = v < 2 ^ 32
Fits (Value.i64 v) = v < 2 ^ 64
Fits (Value.f32 v) = v < 2 ^ 32
Fits (Value.f64 v) = v < 2 ^ 64
Fits (Value.func_ref v) = v < 2 ^ 32
Fits (Value.extern_ref v) = v < 2 ^ 32

rejoined : (v : ℕ) → v < 2 ^ 64 → bit_or (v / 2 ^ 32 % 2 ^ 32 * 2 ^ 32) (v % 2 ^ 32) ≡ v
rejoined v p = omega (arith, bit_or-add 32 (v / 2 ^ 32 % 2 ^ 32) (v % 2 ^ 32) (omega arith))

abbrev of_parts : List ℕ → ℕ → ℕ → ValueStack
of_parts cells room m = record { cells = cells; room = room; maximum_len = m }

Restores : Value → ValueStack → Type 0
Restores v s =
    (s' : ValueStack) × (push_value v s ≡ some (tt, s')) × (pop_value (ty v) s' ≡ some (v, s))

restore :
    (v : Value) (cells : List ℕ) (room m : ℕ)
    → Fits v
    → width v ≤ room
    → Restores v (of_parts cells room m)
unfolding Restores push_value pop_value ty
restore (Value.i32 v) cells (suc room) m p q = (_, refl, refl)
restore (Value.f32 v) cells (suc room) m p q = (_, refl, refl)
restore (Value.func_ref v) cells (suc room) m p q = (_, refl, refl)
restore (Value.extern_ref v) cells (suc room) m p q = (_, refl, refl)
restore (Value.i64 v) cells (suc (suc room)) m p q = (_, refl, rw (rejoined v p) refl)
restore (Value.f64 v) cells (suc (suc room)) m p q = (_, refl, rw (rejoined v p) refl)
restore (Value.i32 v) cells zero m p q = absurd (omega arith)
restore (Value.f32 v) cells zero m p q = absurd (omega arith)
restore (Value.func_ref v) cells zero m p q = absurd (omega arith)
restore (Value.extern_ref v) cells zero m p q = absurd (omega arith)
restore (Value.i64 v) cells zero m p q = absurd (omega arith)
restore (Value.f64 v) cells zero m p q = absurd (omega arith)
restore (Value.i64 v) cells (suc zero) m p q = absurd (omega arith)
restore (Value.f64 v) cells (suc zero) m p q = absurd (omega arith)

-- A value that is pushed where there is room is popped again by its type, and the stack is then
-- what it was.
pub pop_value-push_value :
    (v : Value) (s : ValueStack)
    → Fits v
    → width v ≤ s.room
    → (s' : ValueStack) × (push_value v s ≡ some (tt, s')) × (pop_value (ty v) s' ≡ some (v, s))
unfolding Restores
pop_value-push_value v s p q = restore v s.cells s.room s.maximum_len p q

-- `reserve` fails exactly when the live cells and the new ones pass the limit. Otherwise it keeps the
-- cells, gives the room asked for and takes no room away.
pub reserve_outcome :
    (n : ℕ) (s : ValueStack)
    → ((s.maximum_len < len s + n) × (reserve n s ≡ err stack_overflow))
      ⊎ ((s' : ValueStack) × (reserve n s ≡ ok s')
          × (len s + n ≤ s.maximum_len)
          × (s'.cells ≡ s.cells)
          × (n ≤ s'.room)
          × (s.room ≤ s'.room)
          × (s'.maximum_len ≡ s.maximum_len))
unfolding reserve
reserve_outcome n s = elim (Bool-cases (leb (len s + n) s.maximum_len)) [
  | inl e ↦ inr (elim (Bool-cases (ltb (capacity s) (len s + n))) [
    | inl f ↦ (
      record s { room = s.room + (len s + n) },
      rw (e, f) refl,
      ground arith,
      refl,
      omega arith,
      omega arith,
      refl,
    )
    | inr f ↦ (s, rw (e, f) refl, ground arith, refl, ground arith, omega arith, refl)
  ])
  | inr e ↦ inl (ground arith, rw e refl)
]

-- A stack that comes from another by such operations.
pub data Comes (s : ValueStack) : ValueStack → Type 0 where
  here : Comes s s
  reserved : {t u : ValueStack} (n : ℕ) → Comes s t → reserve n t ≡ ok u → Comes s u
  pushed : {t u : ValueStack} (v : ℕ) → Comes s t → push v t ≡ some (tt, u) → Comes s u
  popped : {t u : ValueStack} {v : ℕ} → Comes s t → pop t ≡ some (v, u) → Comes s u
  cleared : {t : ValueStack} → Comes s t → Comes s (reset t)

-- Shorter than twice the limit, which is the limit of `s`.
Short : ValueStack → ValueStack → Type 0
Short s t = (capacity t < 2 * t.maximum_len) × (t.maximum_len ≡ s.maximum_len)

reserved-Short :
    (s t : ValueStack) (n : ℕ) {u : ValueStack} → reserve n t ≡ ok u → Short s t → Short s u
unfolding reserve Short
reserved-Short s t n h p = ground arith

pushed-Short :
    (s t : ValueStack) (v : ℕ) {u : ValueStack} → push v t ≡ some (tt, u) → Short s t → Short s u
unfolding push Short
pushed-Short s t v h p = ground arith

popped-Short :
    (s t : ValueStack) {v : ℕ} {u : ValueStack} → pop t ≡ some (v, u) → Short s t → Short s u
unfolding pop Short
popped-Short s t h p = ground arith

cleared-Short : (s t : ValueStack) → Short s t → Short s (reset t)
unfolding reset Short
cleared-Short s t p = ground arith

-- However often it is extended, with pushes, pops and resets in between, a buffer that is shorter than
-- twice the limit stays so, and the limit stays what it was.
pub reserve-capacity :
    (s t : ValueStack)
    → Comes s t
    → capacity s < 2 * s.maximum_len
    → (capacity t < 2 * t.maximum_len) × (t.maximum_len ≡ s.maximum_len)
unfolding Short
reserve-capacity s t here p = (p, refl)
reserve-capacity s t (reserved {t = m} n c e) p = reserved-Short s m n e (reserve-capacity s m c p)
reserve-capacity s t (pushed {t = m} v c e) p = pushed-Short s m v e (reserve-capacity s m c p)
reserve-capacity s t (popped {t = m} c e) p = popped-Short s m e (reserve-capacity s m c p)
reserve-capacity s t (cleared {t = m} c) p = cleared-Short s m (reserve-capacity s m c p)
