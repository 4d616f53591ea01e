-- ===== src/Isa/Straight.antt =====
-- Runs of instructions that do not branch.
use mathlib.Core.Path.{subst}
use rwasm.Base.{
  ℕ, suc, ◌+◌, ◌≡◌, refl, sym, ap, ◌∙◌, List, [], ◌∷◌, ◌++◌, some, length, get_elem?,
  get_elem?-inside, append_assoc, length-append, arith,
}
use rwasm.Types.Opcode.{Opcode}
use rwasm.Vm.ValueStack.{ValueStack}
use rwasm.Isa.Block.{local_step, Runs, Runs-one, Runs-stop, Runs-trans}

subst2 : (P : ℕ → ℕ → Type 0) {a a' b b' : ℕ} → a ≡ a' → b ≡ b' → P a b → P a' b'
subst2 P {a' = a'} {b = b} p q h = subst (λ y. P a' y) q (subst (λ x. P x b) p h)

pub data Straight : List Opcode → ValueStack → ValueStack → Type 0 where
  stop : {s : ValueStack} → Straight [] s s
  go :
      {op : Opcode} {ops : List Opcode} {s t u : ValueStack}
      → ((pc : ℕ) → local_step op pc s ≡ some (pc + 1, t))
      → Straight ops t u
      → Straight (op ∷ ops) s u

pub Straight-append :
    {xs ys : List Opcode} {s t u : ValueStack}
    → Straight xs s t
    → Straight ys t u
    → Straight (xs ++ ys) s u
Straight-append stop q = q
Straight-append (go p ps) q = go p (Straight-append ps q)

pub Straight-Runs :
    {code : List Opcode} (pre post : List Opcode) {ops : List Opcode} {s t : ValueStack}
    → Straight ops s t
    → code ≡ pre ++ (ops ++ post)
    → Runs code (length pre) s (length pre + length ops) t
Straight-Runs {code} pre post {s = s} stop e =
    let z : length pre + 0 ≡ length pre = omega arith in rw z Runs-stop
Straight-Runs {code} pre post {ops} {t = t} (go {op = op} {ops = rest} {t = mid} p ps) e =
    let at_pre : length pre + 0 ≡ length pre = omega arith in
    let found : get_elem? code (length pre) ≡ some op =
      ap (λ c. get_elem? c (length pre)) e
      ∙ sym (ap (get_elem? (pre ++ (op ∷ (rest ++ post)))) at_pre)
      ∙ get_elem?-inside pre (op ∷ rest) post 0 refl in
    let l : length (pre ++ (op ∷ [])) ≡ length pre + 1 = length-append pre (op ∷ []) in
    let there : length (pre ++ (op ∷ [])) + length rest ≡ length pre + suc (length rest) =
      omega (arith, l) in
    let later =
      Straight-Runs (pre ++ (op ∷ [])) post ps
        (e ∙ sym (append_assoc pre (op ∷ []) (rest ++ post))) in
    Runs-trans (Runs-one op found (p (length pre)))
      (subst2 (λ a b. Runs code a mid b t) l there later)
