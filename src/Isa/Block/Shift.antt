-- ===== src/Isa/Block/Shift.antt =====
-- A block inside a longer one, and blocks in sequence.
use mathlib.Core.Path.{subst}
use rwasm.Base.{
  ℕ, zero, suc, ◌+◌, ◌≡◌, refl, sym, ap, ◌∙◌, List, [], ◌++◌, append-nil, Option, some, none,
  length, length-append, get_elem?, get_elem?-inside, arith,
}
use rwasm.Types.Opcode.{Opcode}
use rwasm.Vm.ValueStack.{ValueStack}
use rwasm.Isa.Block.{
  local_step, local_run, tick, tick_lem, attempt, and_then, and_then-some, attempt-some,
  local_run-zero, local_run-suc, Runs, Runs-trans,
}

-- Branches are relative, so that a position counts from wherever the block starts.
local_step-shift :
    (op : Opcode) (b pc : ℕ) (s : ValueStack) {pc' : ℕ} {s' : ValueStack}
    → local_step op pc s ≡ some (pc', s')
    → local_step op (b + pc) s ≡ some (b + pc', s')
unfolding local_step
local_step-shift (Opcode.local_get d) b pc s h = ground arith
local_step-shift (Opcode.br o) b pc s h = ground arith
local_step-shift (Opcode.br_if_eqz o) b pc s h = ground arith
local_step-shift (Opcode.br_if_nez o) b pc s h = ground arith
local_step-shift Opcode.i32_add b pc s h = ground arith
local_step-shift (Opcode.bulk_drop n) b pc s h = ground arith
local_step-shift _ b pc s h = ground arith

abbrev moved : ℕ → Option (ℕ × ValueStack) → Option (ℕ × ValueStack)
moved b none = none
moved b (some (pc, s)) = some (b + pc, s)

pub Runs-at :
    {code code' : List Opcode} {a a' b b' : ℕ} {s t : ValueStack}
    → code ≡ code'
    → a ≡ a'
    → b ≡ b'
    → Runs code a s b t
    → Runs code' a' s b' t
Runs-at {code} {code'} {a} {a'} {b} {b'} {s} {t} p q r run =
    subst (λ c. Runs c a' s b' t) p
      (subst (λ n. Runs code n s b' t) q (subst (λ n. Runs code a s n t) r run))

module _ (pre code post : List Opcode) where
  local_run-shift :
      (k pc : ℕ) (s : ValueStack) {pc' : ℕ} {s' : ValueStack}
      → local_run code k pc s ≡ some (pc', s')
      → local_run (pre ++ (code ++ post)) k (length pre + pc) s ≡ some (length pre + pc', s')
  local_run-shift zero pc s {pc'} {s'} h =
      local_run-zero (pre ++ (code ++ post)) (length pre + pc) s
      ∙ ap (moved (length pre)) (sym (local_run-zero code pc s) ∙ h)
  local_run-shift (suc k) pc s h =
      let (next, between, e, r) =
        and_then-some (tick code pc s) (local_run code k) (sym (local_run-suc code k pc s) ∙ h) in
      let (op, found, stepped) =
        attempt-some (get_elem? code pc) pc s (sym (tick_lem code pc s) ∙ e) in
      let ticked : tick (pre ++ (code ++ post)) (length pre + pc) s
          ≡ some (length pre + next, between) =
        tick_lem (pre ++ (code ++ post)) (length pre + pc) s
        ∙ (ap (λ o. attempt o (length pre + pc) s) (get_elem?-inside pre code post pc found)
            ∙ local_step-shift op (length pre) pc s stepped) in
      local_run-suc (pre ++ (code ++ post)) k (length pre + pc) s
      ∙ (ap (λ o. and_then o (local_run (pre ++ (code ++ post)) k)) ticked
          ∙ local_run-shift k next between r)

  Runs-inside :
      {pc pc' : ℕ} {s s' : ValueStack}
      → Runs code pc s pc' s'
      → Runs (pre ++ (code ++ post)) (length pre + pc) s (length pre + pc') s'
  Runs-inside {pc} {s = s} run = record {
    rounds = run.rounds;
    runs = local_run-shift run.rounds pc s run.runs;
  }

-- One block after another.
pub Runs-append :
    (first second : List Opcode) {s t u : ValueStack}
    → Runs first 0 s (length first) t
    → Runs second 0 t (length second) u
    → Runs (first ++ second) 0 s (length (first ++ second)) u
Runs-append first second {s} {t} {u} p q =
    Runs-trans
      (Runs-at {b' = length first} refl (omega arith) (omega arith) (Runs-inside [] first second p))
      (Runs-at (ap (λ c. first ++ c) (append-nil second)) (omega arith)
        (omega (arith, length-append first second)) (Runs-inside first second [] q))
