-- ===== src/Vm/ValueStack.antt =====
-- src/vm/value_stack.rs. The source keeps a buffer of cells and a raw pointer to the first free
-- one; the model keeps the live cells, the last pushed first, and the number of free cells above
-- them. Moving the pointer below the base or writing past the buffer is undefined: `none`.
pub mod RoundTrip
use mathlib.Core.Option
use rwasm.Base.{
  ◌≡◌, ap, ℕ, zero, suc, ◌+◌, ◌-◌, ◌*◌, ◌/◌, ◌%◌, ◌^◌, Bool, Option, none, some, List, [], ◌∷◌,
  bit_or, ltb, leb, if◌then◌else◌, length, get_elem?,
}
use rwasm.Types.Trap.{Checked, ok, err, stack_overflow}
use rwasm.Types.Limits.{n_default_stack_size, n_max_stack_size}
use rwasm.Types.UntypedValue.{to_bool}
use rwasm.Types.Value.{Value, ValType}

pub record ValueStack : Type 0 where
  pub cells : List ℕ
  pub room : ℕ
  pub maximum_len : ℕ

-- `ValueStack::default`.
unfoldable pub initial : ValueStack
initial = record { cells = []; room = n_default_stack_size; maximum_len = n_max_stack_size }

abbrev pub len : ValueStack → ℕ
len s = length s.cells

abbrev pub capacity : ValueStack → ℕ
capacity s = length s.cells + s.room

-- A buffer that is too short is extended by `new_len` cells.
unfoldable pub reserve : ℕ → ValueStack → Checked ValueStack
reserve additional s =
    let new_len = len s + additional in
    if leb new_len s.maximum_len
    then (if ltb (capacity s) new_len then ok (record s { room = s.room + new_len }) else ok s)
    else err stack_overflow

-- `reset` forgets the live cells, whose places are free again.
unfoldable pub reset : ValueStack → ValueStack
reset s = record s { cells = []; room = capacity s }

-- A method of `ValueStackPtr`: it returns a value and moves the pointer.
abbrev pub Sp : Type 0 → Type 0
Sp A = ValueStack → Option (A × ValueStack)

abbrev pub and_then :
    {A B : Type 0} → Option (A × ValueStack) → (A → Sp B) → Option (B × ValueStack)
and_then none f = none
and_then (some (a, s)) f = f a s

infixl 5 ◌>>=◌ ◌>>◌
abbrev pub ◌>>=◌ : {A B : Type 0} → Sp A → (A → Sp B) → Sp B
◌>>=◌ m f s = and_then (m s) f

pub bind-some :
    {A B : Type 0} (m : Sp A) (f : A → Sp B) (s : ValueStack) {a : A} {t : ValueStack}
    → m s ≡ some (a, t)
    → (m >>= f) s ≡ f a t
bind-some m f s h = ap (λ o. and_then o f) h

abbrev pub ◌>>◌ : {B : Type 0} → Sp (Unit {0}) → Sp B → Sp B
m >> k = m >>= λ _. k

abbrev pub pure : {A : Type 0} → A → Sp A
pure a s = some (a, s)

abbrev push_into : ℕ → ValueStack → ℕ → Option (Unit {0} × ValueStack)
push_into v s zero = none
push_into v s (suc room) = some (tt, record s { cells = v ∷ s.cells; room = room })

unfoldable pub push : ℕ → Sp (Unit {0})
push v s = push_into v s s.room

abbrev pop_from : ValueStack → List ℕ → Option (ℕ × ValueStack)
pop_from s [] = none
pop_from s (v ∷ rest) = some (v, record s { cells = rest; room = suc s.room })

unfoldable pub pop : Sp ℕ
pop s = pop_from s s.cells

unfoldable pub drop : Sp (Unit {0})
unfolding pop
drop = do _ ← pop; pure tt

unfoldable pub drop_n : ℕ → Sp (Unit {0})
unfolding pop
drop_n zero = pure tt
drop_n (suc n) = pop >>= λ _. drop_n n

unfoldable pub pop2 : Sp (ℕ × ℕ)
unfolding pop
pop2 = do rhs ← pop; lhs ← pop; pure (lhs, rhs)

unfoldable pub pop3 : Sp (ℕ × ℕ × ℕ)
unfolding pop2
pop3 = do (snd, trd) ← pop2; fst ← pop; pure (fst, snd, trd)

-- A depth of 0 is the free cell at the pointer, whose content is unspecified.
abbrev pub cell_at : List ℕ → ℕ → Option ℕ
cell_at cells zero = none
cell_at cells (suc i) = get_elem? cells i

unfoldable pub nth_back : ℕ → Sp ℕ
nth_back depth s = elim (cell_at s.cells depth) [ none ↦ none | some v ↦ some (v, s) ]

unfoldable pub last : Sp ℕ
unfolding nth_back
last = nth_back 1

abbrev pub cells_set : List ℕ → ℕ → ℕ → Option (List ℕ)
cells_set [] i v = none
cells_set (c ∷ cs) zero v = none
cells_set (c ∷ cs) (suc zero) v = some (v ∷ cs)
cells_set (c ∷ cs) (suc (suc i)) v = elim (cells_set cs (suc i) v) [
  | none ↦ none
  | some cs' ↦ some (c ∷ cs')
]

unfoldable pub set_nth_back : ℕ → ℕ → Sp (Unit {0})
set_nth_back depth v s = elim (cells_set s.cells depth v) [
  | none ↦ none
  | some cs ↦ some (tt, record s { cells = cs })
]

unfoldable pub eval_top : (ℕ → ℕ) → Sp (Unit {0})
unfolding nth_back set_nth_back
eval_top f = do v ← nth_back 1; set_nth_back 1 (f v)

unfoldable pub eval_top2 : (ℕ → ℕ → ℕ) → Sp (Unit {0})
unfolding pop nth_back set_nth_back
eval_top2 f = do rhs ← pop; lhs ← nth_back 1; set_nth_back 1 (f lhs rhs)

unfoldable pub eval_top3 : (ℕ → ℕ → ℕ → ℕ) → Sp (Unit {0})
unfolding pop2 nth_back set_nth_back
eval_top3 f = do (e2, e3) ← pop2; e1 ← nth_back 1; set_nth_back 1 (f e1 e2 e3)

-- `split_into_i32_tuple`, low word first.
unfoldable pub push_i64 : ℕ → Sp (Unit {0})
unfolding push
push_i64 v = do push (v % 2 ^ 32); push (v / 2 ^ 32 % 2 ^ 32)

unfoldable pub pop_i64 : Sp ℕ
unfolding pop2
pop_i64 = do (lo, hi) ← pop2; pure (bit_or (hi * 2 ^ 32) lo)

unfoldable pub push_value : Value → Sp (Unit {0})
unfolding push push_i64
push_value (Value.i32 v) = push v
push_value (Value.i64 v) = push_i64 v
push_value (Value.f32 v) = push v
push_value (Value.f64 v) = push_i64 v
push_value (Value.func_ref v) = push v
push_value (Value.extern_ref v) = push v

-- The source panics at a 128-bit vector.
unfoldable pub pop_value : ValType → Sp Value
unfolding pop pop_i64
pop_value ValType.i32 = do v ← pop; pure (Value.i32 v)
pop_value ValType.i64 = do v ← pop_i64; pure (Value.i64 v)
pop_value ValType.f32 = do v ← pop; pure (Value.f32 v)
pop_value ValType.f64 = do v ← pop_i64; pure (Value.f64 v)
pop_value ValType.v128 = λ s. none
pop_value ValType.func_ref = do v ← pop; pure (Value.func_ref v)
pop_value ValType.extern_ref = do v ← pop; pure (Value.extern_ref v)
