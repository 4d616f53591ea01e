-- ===== src/Compiler/Operators/Code.antt =====
-- What code does to the value stack, with the room that it needs, and its composition.
use mathlib.Core.Path.{subst}
use rwasm.Base.{
  ℕ, zero, suc, ◌+◌, ◌-◌, ◌≤◌, ◌≡◌, refl, sym, List, [], ◌++◌, append_assoc, append-nil, length,
  length-append, arith,
}
use rwasm.Types.Opcode.{Opcode}
use rwasm.Isa.Block.{Runs}
use rwasm.Isa.Block.Shift.{Runs-append, Runs-at}
use rwasm.Isa.Straight.{Straight, Straight-Runs}
use rwasm.Vm.ValueStack.{ValueStack}
use rwasm.Isa.Words.{Computes, stack, spare}

-- With `need` free cells, or more, the code replaces the cells `before` by `after`.
pub record Leads (code : List Opcode) (need : ℕ) (before after : List ℕ) : Type 0 where
  pub leads :
      (rest : List ℕ) (r m : ℕ)
      → need ≤ r
      → Runs code 0
          (stack (before ++ rest) r m)
          (length code)
          (stack (after ++ rest) (r + length before - length after) m)

spare-eq : (n r : ℕ) → spare n r ≡ n + r
spare-eq zero r = omega arith
spare-eq (suc n) r = omega (arith, spare-eq n r)

module _ {code : List Opcode} {before after : List ℕ} where
  pub Computes-Leads :
      {msh : ℕ}
      → Computes code msh before after
      → length after ≤ length before + msh
      → Leads code msh before after
  Computes-Leads {msh} c fits = record {
    leads = λ rest r m enough.
        let start : spare msh (r - msh) ≡ r = omega (arith, spare-eq msh (r - msh)) in
        let end : spare (length before + msh - length after) (r - msh)
            ≡ r + length before - length after =
          omega (arith, spare-eq (length before + msh - length after) (r - msh)) in
        subst
          (λ n. Runs code 0 (stack (before ++ rest) r m) (length code) (stack (after ++ rest) n m))
          end
          (subst
            (λ n.
              Runs code 0 (stack (before ++ rest) n m) (length code)
                (stack (after ++ rest) (spare (length before + msh - length after) (r - msh)) m))
            start (c.computes rest (r - msh) m));
  }

  -- Cells below are left alone.
  pub Leads-under :
      {need : ℕ} (deep : List ℕ)
      → Leads code need before after
      → Leads code need (before ++ deep) (after ++ deep)
  Leads-under deep l = record {
    leads = λ rest r m enough.
        let room : r + length before - length after
            ≡ r + length (before ++ deep) - length (after ++ deep) =
          omega (arith, length-append before deep, length-append after deep) in
        subst
          (λ cells. Runs code 0 (stack cells r m) (length code) (
            stack ((after ++ deep) ++ rest) (r + length (before ++ deep) - length (after ++ deep))
              m))
          (sym (append_assoc before deep rest))
          (subst
            (λ cells.
              Runs code 0 (stack (before ++ (deep ++ rest)) r m) (length code)
                (stack cells (r + length (before ++ deep) - length (after ++ deep)) m))
            (sym (append_assoc after deep rest))
            (subst
              (λ n.
                Runs code 0 (stack (before ++ (deep ++ rest)) r m) (length code)
                  (stack (after ++ (deep ++ rest)) n m))
              room (l.leads (deep ++ rest) r m enough)));
  }

pub Leads-append :
    {first second : List Opcode} {need more most : ℕ} {before between after : List ℕ}
    → Leads first need before between
    → Leads second more between after
    → need ≤ most
    → length between ≤ length before + most
    → more + length between ≤ most + length before
    → Leads (first ++ second) most before after
Leads-append {first} {second} {before = before} {between = between} {after = after} p q need fits
      more =
    record {
      leads = λ rest r m enough.
          let room : r + length before - length between + length between - length after
              ≡ r + length before - length after =
            omega arith in
          Runs-append first second (p.leads rest r m (omega arith)) (
            subst
              (λ n.
                Runs second 0 (stack (between ++ rest) (r + length before - length between) m)
                  (length second) (stack (after ++ rest) n m))
              room (q.leads rest (r + length before - length between) m (omega arith)));
    }

pub Leads-more :
    {code : List Opcode} {need more : ℕ} {before after : List ℕ}
    → need ≤ more
    → Leads code need before after
    → Leads code more before after
Leads-more {more = more} p l = record {
  leads = λ rest r m (enough : more ≤ r). l.leads rest r m (omega arith);
}

Straight-all :
    {code : List Opcode} {s t : ValueStack} → Straight code s t → Runs code 0 s (length code) t
Straight-all {code} {t = t} p =
    Runs-at {code = code} {a = length {A = Opcode} []} {b = length {A = Opcode} [] + length code}
      refl refl (omega arith) (Straight-Runs [] [] p (sym (append-nil code)))

-- Code that does not branch, with `out` free cells where it ends.
pub Straight-Leads :
    {code : List Opcode} {before after : List ℕ} (need : ℕ) (out : ℕ → ℕ)
    → ((r : ℕ) → out r + length after ≡ need + r + length before)
    → ((rest : List ℕ) (r m : ℕ)
        → Straight code (stack (before ++ rest) (spare need r) m) (stack (after ++ rest) (out r) m))
    → Leads code need before after
Straight-Leads {code} {before} {after} need out e run = record {
  leads = λ rest r m (enough : need ≤ r).
      let start : spare need (r - need) ≡ r = omega (arith, spare-eq need (r - need)) in
      let end : out (r - need) ≡ r + length before - length after = omega (arith, e (r - need)) in
      subst
        (λ n. Runs code 0 (stack (before ++ rest) r m) (length code) (stack (after ++ rest) n m))
        end
        (subst
          (λ n.
            Runs code 0 (stack (before ++ rest) n m) (length code)
              (stack (after ++ rest) (out (r - need)) m))
          start (Straight-all (run rest (r - need) m)));
}

pub Leads-cells :
    {code : List Opcode} {need : ℕ} {before before' after after' : List ℕ}
    → before ≡ before'
    → after ≡ after'
    → Leads code need before after
    → Leads code need before' after'
Leads-cells {code} {need} {before' = before'} {after = after} p q l =
    subst (λ cs. Leads code need before' cs) q (subst (λ cs. Leads code need cs after) p l)
