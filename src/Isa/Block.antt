-- ===== src/Isa/Block.antt =====
-- Runs of a block of instructions that work on the value stack alone. A block is followed with
-- positions counted from its start, and what it does holds wherever it stands in a program.
pub mod Shift
use Prim.Native.Nat.add
use rwasm.Base.{
  ℕ, zero, suc, ◌+◌, ◌*◌, ◌%◌, ◌^◌, ◌≡◌, refl, sym, ap, ◌∙◌, false, Option, none, some, List, ◌++◌,
  if◌then◌else◌, length, get_elem?, get_elem?-inside, arith,
}
use rwasm.Types.BranchOffset.{apply_offset}
use rwasm.Types.Opcode.{Opcode}
use rwasm.Types.UntypedValue
use rwasm.Types.UntypedValue.{to_bool}
use rwasm.Vm.ValueStack
use rwasm.Vm.ValueStack.{ValueStack, Sp, ◌>>=◌, ◌>>◌, pure}
use rwasm.Vm.Store.{Store}
use rwasm.Vm.Monad.{RwasmModule, Host, Executor, done}
use rwasm.Vm.Executor.Step.{step}
use rwasm.Vm.Executor.Run.{fetch, run_the_loop, run_the_loop-suc}

abbrev target : Option ℕ → Sp ℕ
target none s = none
target (some pc) s = some (pc, s)

abbrev unary : (ℕ → ℕ) → ℕ → Sp ℕ
unary f pc = do ValueStack.eval_top f; pure (pc + 1)

abbrev pub binary : (ℕ → ℕ → ℕ) → ℕ → Sp ℕ
binary f pc = do ValueStack.eval_top2 f; pure (pc + 1)

-- One instruction at position `pc` of a block: the next position and the new stack.
unfoldable pub local_step : Opcode → ℕ → Sp ℕ
unfolding ValueStack.nth_back ValueStack.push ValueStack.pop ValueStack.set_nth_back ValueStack.last
    ValueStack.drop ValueStack.drop_n ValueStack.eval_top ValueStack.eval_top2 ValueStack.eval_top3
    ValueStack.pop2 ValueStack.push_i64 apply_offset
local_step (Opcode.local_get d) pc = do v ← ValueStack.nth_back d; ValueStack.push v; pure (pc + 1)
local_step (Opcode.local_set d) pc = do
  v ← ValueStack.pop
  ValueStack.set_nth_back d v
  pure (pc + 1)
local_step (Opcode.local_tee d) pc = do
  v ← ValueStack.last
  ValueStack.set_nth_back d v
  pure (pc + 1)
local_step Opcode.select pc = do
  ValueStack.eval_top3 (λ e1 e2 e3. if to_bool e3 then e1 else e2)
  pure (pc + 1)
local_step Opcode.drop pc = do ValueStack.drop; pure (pc + 1)
local_step (Opcode.bulk_drop n) pc = do ValueStack.drop_n n; pure (pc + 1)
local_step (Opcode.i32_const v) pc = do ValueStack.push v; pure (pc + 1)
local_step (Opcode.br b) pc = target (apply_offset pc b)
local_step (Opcode.br_if_eqz b) pc = do
  v ← ValueStack.pop
  if to_bool v then pure (pc + 1) else target (apply_offset pc b)
local_step (Opcode.br_if_nez b) pc = do
  v ← ValueStack.pop
  if to_bool v then target (apply_offset pc b) else pure (pc + 1)
local_step Opcode.i32_mul64 pc = do
  (lhs, rhs) ← ValueStack.pop2
  ValueStack.push_i64 (lhs * rhs % 2 ^ 64)
  pure (pc + 1)
local_step Opcode.i32_add64 pc = do
  (lhs, rhs) ← ValueStack.pop2
  ValueStack.push_i64 ((lhs + rhs) % 2 ^ 64)
  pure (pc + 1)
local_step Opcode.i32_eqz pc = unary UntypedValue.i32_eqz pc
local_step Opcode.i32_clz pc = unary UntypedValue.i32_clz pc
local_step Opcode.i32_ctz pc = unary UntypedValue.i32_ctz pc
local_step Opcode.i32_popcnt pc = unary UntypedValue.i32_popcnt pc
local_step Opcode.i32_wrap_i64 pc = unary UntypedValue.i32_wrap_i64 pc
local_step Opcode.i32_extend8_s pc = unary UntypedValue.i32_extend8_s pc
local_step Opcode.i32_extend16_s pc = unary UntypedValue.i32_extend16_s pc
local_step Opcode.i32_eq pc = binary UntypedValue.i32_eq pc
local_step Opcode.i32_ne pc = binary UntypedValue.i32_ne pc
local_step Opcode.i32_lt_s pc = binary UntypedValue.i32_lt_s pc
local_step Opcode.i32_lt_u pc = binary UntypedValue.i32_lt_u pc
local_step Opcode.i32_gt_s pc = binary UntypedValue.i32_gt_s pc
local_step Opcode.i32_gt_u pc = binary UntypedValue.i32_gt_u pc
local_step Opcode.i32_le_s pc = binary UntypedValue.i32_le_s pc
local_step Opcode.i32_le_u pc = binary UntypedValue.i32_le_u pc
local_step Opcode.i32_ge_s pc = binary UntypedValue.i32_ge_s pc
local_step Opcode.i32_ge_u pc = binary UntypedValue.i32_ge_u pc
local_step Opcode.i32_add pc = binary UntypedValue.i32_add pc
local_step Opcode.i32_sub pc = binary UntypedValue.i32_sub pc
local_step Opcode.i32_mul pc = binary UntypedValue.i32_mul pc
local_step Opcode.i32_and pc = binary UntypedValue.i32_and pc
local_step Opcode.i32_or pc = binary UntypedValue.i32_or pc
local_step Opcode.i32_xor pc = binary UntypedValue.i32_xor pc
local_step Opcode.i32_shl pc = binary UntypedValue.i32_shl pc
local_step Opcode.i32_shr_s pc = binary UntypedValue.i32_shr_s pc
local_step Opcode.i32_shr_u pc = binary UntypedValue.i32_shr_u pc
local_step Opcode.i32_rotl pc = binary UntypedValue.i32_rotl pc
local_step Opcode.i32_rotr pc = binary UntypedValue.i32_rotr pc
local_step _ pc = λ s. none

abbrev attempt : Option Opcode → ℕ → Sp ℕ
attempt none pc s = none
attempt (some op) pc s = local_step op pc s

-- The instruction at a position of a block.
unfoldable tick : List Opcode → ℕ → Sp ℕ
unfolding local_step
tick code pc s = attempt (get_elem? code pc) pc s

tick_lem :
    (code : List Opcode) (pc : ℕ) (s : ValueStack)
    → tick code pc s ≡ attempt (get_elem? code pc) pc s
unfolding tick
tick_lem code pc s = refl

abbrev and_then : Option (ℕ × ValueStack) → (ℕ → Sp ℕ) → Option (ℕ × ValueStack)
and_then none k = none
and_then (some (pc, s)) k = k pc s

-- `rounds` instructions of the block `code`, from position `pc`.
unfoldable pub local_run : List Opcode → ℕ → ℕ → Sp ℕ
unfolding tick
local_run code zero pc s = some (pc, s)
local_run code (suc rounds) pc s = and_then (tick code pc s) (local_run code rounds)

-- From one position and stack the block comes to another in so many rounds.
pub record Runs (code : List Opcode) (pc : ℕ) (s : ValueStack) (pc' : ℕ) (s' : ValueStack)
    : Type 0 where
  pub rounds : ℕ
  pub runs : local_run code rounds pc s ≡ some (pc', s')

local_run-zero :
    (code : List Opcode) (pc : ℕ) (s : ValueStack) → local_run code 0 pc s ≡ some (pc, s)
unfolding local_run
local_run-zero code pc s = refl

local_run-suc :
    (code : List Opcode) (k pc : ℕ) (s : ValueStack)
    → local_run code (suc k) pc s ≡ and_then (tick code pc s) (local_run code k)
unfolding local_run
local_run-suc code k pc s = refl

-- A run of some rounds begins with a tick.
and_then-some :
    (o : Option (ℕ × ValueStack)) (k : ℕ → Sp ℕ) {r : ℕ × ValueStack}
    → and_then o k ≡ some r
    → (next : ℕ) × (mid : ValueStack) × (o ≡ some (next, mid)) × (k next mid ≡ some r)
and_then-some none k h = cc
and_then-some (some (next, mid)) k h = (next, mid, refl, h)

attempt-some :
    (o : Option Opcode) (pc : ℕ) (s : ValueStack) {r : ℕ × ValueStack}
    → attempt o pc s ≡ some r
    → (op : Opcode) × (o ≡ some op) × (local_step op pc s ≡ some r)
attempt-some none pc s h = cc
attempt-some (some op) pc s h = (op, refl, h)

local_run-add :
    (code : List Opcode) (j k pc : ℕ) (s : ValueStack) {mid : ℕ} {t : ValueStack}
    → local_run code j pc s ≡ some (mid, t)
    → local_run code (j + k) pc s ≡ local_run code k mid t
local_run-add code zero k pc s h =
    rw add.zero (cc (ap (λ o. and_then o (local_run code k)) (sym (local_run-zero code pc s) ∙ h)))
local_run-add code (suc j) k pc s h =
    let (next, between, e, r) =
      and_then-some (tick code pc s) (local_run code j) (sym (local_run-suc code j pc s) ∙ h) in
    rw (add.suc, local_run-suc, e) (local_run-add code j k next between r)

-- One instruction.
pub Runs-one :
    {code : List Opcode} {pc : ℕ} {s : ValueStack} {pc' : ℕ} {s' : ValueStack} (op : Opcode)
    → get_elem? code pc ≡ some op
    → local_step op pc s ≡ some (pc', s')
    → Runs code pc s pc' s'
unfolding local_run
Runs-one {code} {pc} {s} op found stepped = record {
  rounds = 1;
  runs =
      ap (λ o. and_then o (local_run code 0))
        (tick_lem code pc s ∙ ap (λ o. attempt o pc s) found ∙ stepped);
}

-- None.
pub Runs-stop : {code : List Opcode} {pc : ℕ} {s : ValueStack} → Runs code pc s pc s
unfolding local_run
Runs-stop = record { rounds = 0; runs = refl }

pub Runs-trans :
    {code : List Opcode} {pc mid end : ℕ} {s t u : ValueStack}
    → Runs code pc s mid t
    → Runs code mid t end u
    → Runs code pc s end u
Runs-trans {code} {pc} {s} p q = record {
  rounds = p.rounds + q.rounds;
  runs = local_run-add code p.rounds q.rounds pc s p.runs ∙ q.runs;
}

module _ {T : Type 0} (host : Host T) (m : RwasmModule) (frames : List ℕ) (store : Store T)
    (base : ℕ) where
  abbrev pub at : ℕ → ValueStack → Executor T
  at pc s = record { value_stack = s; call_stack = frames; ip = base + pc; store = store }

  step-local :
      (op : Opcode) (pc : ℕ) (s : ValueStack) {pc' : ℕ} {s' : ValueStack}
      → local_step op pc s ≡ some (pc', s')
      → step host m op (at pc s) ≡ done false (at pc' s')
  unfolding local_step step
  step-local (Opcode.local_get d) pc s h = ground arith
  step-local (Opcode.local_set d) pc s h = ground arith
  step-local (Opcode.br b) pc s h = ground arith
  step-local (Opcode.br_if_eqz b) pc s h = ground arith
  step-local Opcode.i32_add pc s h = ground arith
  step-local Opcode.i32_mul64 pc s h = ground arith
  step-local (Opcode.bulk_drop n) pc s h = ground arith
  step-local _ pc s h = ground arith

  -- A block does the same wherever it stands in a program, and touches nothing but the stack.
  module _ (pre code post : List Opcode) (placed : m.code_section ≡ pre ++ (code ++ post))
      (start : base ≡ length pre) where
    pub fetch-inside :
        (pc : ℕ) (s : ValueStack) (op : Opcode)
        → get_elem? code pc ≡ some op
        → fetch host m (at pc s) ≡ done op (at pc s)
    unfolding fetch
    fetch-inside pc s op h =
        let e : get_elem? m.code_section (base + pc) ≡ some op =
          rw (placed, start) (get_elem?-inside pre code post pc h) in
        rw e

    pub run_the_loop-local :
        (k rounds pc : ℕ) (s : ValueStack) {end : ℕ} {s' : ValueStack}
        → local_run code k pc s ≡ some (end, s')
        → run_the_loop host m (k + rounds) (at pc s) ≡ run_the_loop host m rounds (at end s')
    run_the_loop-local zero rounds pc s h =
        let e = sym (local_run-zero code pc s) ∙ h in rw add.zero (cc e)
    run_the_loop-local (suc k) rounds pc s h =
        let (next, between, e, r) =
          and_then-some (tick code pc s) (local_run code k) (sym (local_run-suc code k pc s) ∙ h) in
        let (op, found, stepped) =
          attempt-some (get_elem? code pc) pc s (sym (tick_lem code pc s) ∙ e) in
        rw
          (
            add.suc,
            run_the_loop-suc host m (k + rounds) (at pc s) (fetch-inside pc s op found)
                (step-local op pc s stepped),
          )
          (run_the_loop-local k rounds next between r)
