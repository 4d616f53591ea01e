-- ===== src/Compiler/Operators/Write.antt =====
-- The operators that write locals.
use mathlib.Core.Path.{subst}
use rwasm.Base.{
  ℕ, suc, ◌+◌, ◌-◌, ◌≡◌, refl, sym, ap, ◌∙◌, List, [], ◌∷◌, ◌++◌, length, length-append,
  append_assoc, some, arith,
}
use rwasm.Types.Opcode.{Opcode}
use rwasm.Vm.ValueStack as ValueStack
use rwasm.Isa.Block.{local_step}
use rwasm.Isa.Words.{stack}
use rwasm.Isa.Straight.{Straight, stop, go}
use rwasm.Compiler.DropKeep.Correct.{local_get-step, local_set-step, set_inside}
use rwasm.Compiler.Operators.Code.{Leads, Straight-Leads}

module _ (m : ℕ) where
  -- The lower of two cells, from the top.
  second_set :
      (pre tail : List ℕ) (lo hi olo e room : ℕ)
      → e ≡ length pre + 2
      → (pc : ℕ)
      → local_step (Opcode.local_set e) pc (stack (lo ∷ (pre ++ (hi ∷ olo ∷ tail))) room m)
        ≡ some (pc + 1, stack (pre ++ (hi ∷ lo ∷ tail)) (suc room) m)
  second_set pre tail lo hi olo e room eq pc =
      subst
        (λ cs.
          local_step (Opcode.local_set e) pc (stack (lo ∷ cs) room m)
          ≡ some (pc + 1, stack (pre ++ (hi ∷ lo ∷ tail)) (suc room) m))
        (append_assoc pre (hi ∷ []) (olo ∷ tail))
        (subst
          (λ cs.
            local_step (Opcode.local_set e) pc
              (stack (lo ∷ ((pre ++ (hi ∷ [])) ++ (olo ∷ tail))) room m)
            ≡ some (pc + 1, stack cs (suc room) m))
          (append_assoc pre (hi ∷ []) (lo ∷ tail))
          (local_set-step m (pre ++ (hi ∷ [])) tail lo olo e room
            (omega (arith, eq, length-append pre (hi ∷ []))) pc))

  local_tee-step :
      (pre tail : List ℕ) (v w d room : ℕ)
      → d ≡ length pre + 2
      → (pc : ℕ)
      → local_step (Opcode.local_tee d) pc (stack (v ∷ (pre ++ (w ∷ tail))) room m)
        ≡ some (pc + 1, stack (v ∷ (pre ++ (v ∷ tail))) room m)
  unfolding local_step
  local_tee-step pre tail v w d room e pc =
      let at_depth : d ≡ suc (length (v ∷ pre)) = omega (arith, e) in
      rw at_depth (
        ValueStack.bind-some (ValueStack.set_nth_back (suc (length (v ∷ pre))) v)
          (λ _. ValueStack.pure (pc + 1)) (stack (v ∷ (pre ++ (w ∷ tail))) room m)
          (set_inside m (v ∷ pre) tail w v room))

-- The cells `before` and what stands under them, grouped as the lemmas on steps have it.
regrouped :
    (code : List Opcode) (top top' pre old new post rest : List ℕ) (room room' m : ℕ)
    → Straight code
        (stack (top ++ (pre ++ (old ++ (post ++ rest)))) room m)
        (stack (top' ++ (pre ++ (new ++ (post ++ rest)))) room' m)
    → Straight code
        (stack ((top ++ (pre ++ (old ++ post))) ++ rest) room m)
        (stack ((top' ++ (pre ++ (new ++ post))) ++ rest) room' m)
regrouped code top top' pre old new post rest room room' m run =
    let group = λ (top mid : List ℕ).
      append_assoc top (pre ++ (mid ++ post)) rest
      ∙ ap (λ c. top ++ c)
          (append_assoc pre (mid ++ post) rest ∙ ap (λ c. pre ++ c) (append_assoc mid post rest)) in
    subst
      (λ cs.
        Straight code (stack cs room m) (stack ((top' ++ (pre ++ (new ++ post))) ++ rest) room' m))
      (sym (group top old))
      (subst
        (λ cs.
          Straight code (stack (top ++ (pre ++ (old ++ (post ++ rest)))) room m) (stack cs room' m))
        (sym (group top' new)) run)

module _ (pre post : List ℕ) where
  pub set_narrow :
      (w o e : ℕ)
      → e ≡ length pre + 1
      → Leads (Opcode.local_set e ∷ []) 0 (w ∷ (pre ++ (o ∷ post))) (pre ++ (w ∷ post))
  set_narrow w o e eq =
      Straight-Leads 0 (λ r. suc r)
        (λ r. omega (arith, length-append pre (o ∷ post), length-append pre (w ∷ post)))
        λ rest r m.
          regrouped _ (w ∷ []) [] pre (o ∷ []) (w ∷ []) post rest r (suc r) m
            (go (local_set-step m pre (post ++ rest) w o e r (omega (arith, eq))) stop)

  pub set_wide :
      (lo hi olo ohi e : ℕ)
      → e ≡ length pre + 2
      → Leads
          (Opcode.local_set e ∷ Opcode.local_set e ∷ [])
          0
          (hi ∷ lo ∷ (pre ++ (ohi ∷ olo ∷ post)))
          (pre ++ (hi ∷ lo ∷ post))
  set_wide lo hi olo ohi e eq =
      Straight-Leads 0 (λ r. suc (suc r))
        (λ r.
          omega (arith, length-append pre (ohi ∷ olo ∷ post), length-append pre (hi ∷ lo ∷ post)))
        λ rest r m.
          regrouped _ (hi ∷ lo ∷ []) [] pre (ohi ∷ olo ∷ []) (hi ∷ lo ∷ []) post rest r
            (suc (suc r)) m
            (go (local_set-step m (lo ∷ pre) (olo ∷ (post ++ rest)) hi ohi e r (omega (arith, eq)))
              (go (second_set m pre (post ++ rest) lo hi olo e (suc r) eq) stop))

  pub tee_narrow :
      (w o e : ℕ)
      → e ≡ length pre + 2
      → Leads (Opcode.local_tee e ∷ []) 0 (w ∷ (pre ++ (o ∷ post))) (w ∷ (pre ++ (w ∷ post)))
  tee_narrow w o e eq =
      Straight-Leads 0 (λ r. r)
        (λ r. omega (arith, length-append pre (o ∷ post), length-append pre (w ∷ post)))
        λ rest r m.
          regrouped _ (w ∷ []) (w ∷ []) pre (o ∷ []) (w ∷ []) post rest r r m
            (go (local_tee-step m pre (post ++ rest) w o e r eq) stop)

  pub tee_wide :
      (lo hi olo ohi e : ℕ)
      → e ≡ length pre + 4
      → Leads
          (Opcode.local_tee (e - 1) ∷ Opcode.local_get 2 ∷ Opcode.local_set e ∷ [])
          1
          (hi ∷ lo ∷ (pre ++ (ohi ∷ olo ∷ post)))
          (hi ∷ lo ∷ (pre ++ (hi ∷ lo ∷ post)))
  tee_wide lo hi olo ohi e eq =
      Straight-Leads 1 (λ r. suc r)
        (λ r.
          omega (arith, length-append pre (ohi ∷ olo ∷ post), length-append pre (hi ∷ lo ∷ post)))
        λ rest r m.
          regrouped _ (hi ∷ lo ∷ []) (hi ∷ lo ∷ []) pre (ohi ∷ olo ∷ []) (hi ∷ lo ∷ []) post rest
            (suc r) (suc r) m
            (go
              (local_tee-step m (lo ∷ pre) (olo ∷ (post ++ rest)) hi ohi (e - 1) (suc r)
                (omega (arith, eq)))
              (go (local_get-step m (hi ∷ []) (pre ++ (hi ∷ olo ∷ (post ++ rest))) lo 2 r refl) (
                go (second_set m (hi ∷ lo ∷ pre) (post ++ rest) lo hi olo e r (omega (arith, eq)))
                  stop)))
