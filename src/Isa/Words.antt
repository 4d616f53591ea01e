-- ===== src/Isa/Words.antt =====
-- A 64-bit number as two cells of the value stack, and what a sequence of src/isa computes.
use rwasm.Base.{
  ℕ, zero, suc, ◌+◌, ◌-◌, ◌/◌, ◌%◌, ◌^◌, List, [], ◌∷◌, ◌++◌, length, ltb, if◌then◌else◌,
}
use rwasm.Base.Ints.{ℤ, pos, negsuc}
use rwasm.Types.Opcode.{Opcode}
use rwasm.Vm.ValueStack.{ValueStack}
use rwasm.Isa.Block.{Runs}

-- `split_into_i32_tuple`, as it lies on the stack: the high cell on top.
abbrev pub cells64 : ℕ → List ℕ
cells64 z = z / 2 ^ 32 % 2 ^ 32 ∷ z % 2 ^ 32 ∷ []

-- A 64-bit pattern read as an `i64`.
abbrev pub to_i64 : ℕ → ℤ
to_i64 w = if ltb w (2 ^ 63) then pos w else negsuc (2 ^ 64 - 1 - w)

-- The lowest `n` bits read as a signed number, as an `i64`.
abbrev pub sign_extend : ℕ → ℕ → ℕ
sign_extend n w = if ltb (w % 2 ^ n) (2 ^ (n - 1)) then w % 2 ^ n else w % 2 ^ n + (2 ^ 64 - 2 ^ n)

abbrev pub stack : List ℕ → ℕ → ℕ → ValueStack
stack cells room m = record { cells = cells; room = room; maximum_len = m }

-- `n` free cells and `r` more.
abbrev pub spare : ℕ → ℕ → ℕ
spare zero r = r
spare (suc n) r = suc (spare n r)

-- From its first instruction to past its last one, and with no more than `msh` free cells, `code`
-- replaces the cells `before` on top of the stack by the cells `after`.
pub record Computes (code : List Opcode) (msh : ℕ) (before after : List ℕ) : Type 0 where
  pub computes :
      (rest : List ℕ) (r m : ℕ)
      → Runs code 0
          (stack (before ++ rest) (spare msh r) m)
          (length code)
          (stack (after ++ rest) (spare (length before + msh - length after) r) m)
