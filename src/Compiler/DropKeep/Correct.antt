-- ===== src/Compiler/DropKeep/Correct.antt =====
-- What the instructions of src/compiler/drop_keep.rs do to the value stack.
use mathlib.Core.Path.{subst}
use rwasm.Base as Lists
use rwasm.Base.{
  take, length-take, length-drop, take-append-drop, ℕ, zero, suc, ◌+◌, ◌-◌, ◌<◌, ◌≤◌, ◌≡◌, refl,
  sym, ap, ◌∙◌, ◌⊎◌, inl, inr, List, [], ◌∷◌, ◌++◌, Option, some, none, length, get_elem?,
  length-append, append_assoc, append-nil, Bool, true, false, Bool-cases, leb, ◌==◌, if◌then◌else◌,
  arith,
}
use rwasm.Types.Opcode.{Opcode}
use rwasm.Vm.ValueStack
use rwasm.Vm.ValueStack.{ValueStack, cells_set, cell_at, drop_n, set_nth_back, nth_back, ◌>>◌}
use rwasm.Isa.Block.{local_step, Runs}
use rwasm.Isa.Words.{Computes, stack, spare}
use rwasm.Isa.Straight.{Straight, stop, go, Straight-append, Straight-Runs}
use rwasm.Compiler.DropKeep.{DropKeep, set_below, copy_below, translate_drop_keep}

cells_set-inside :
    (pre post : List ℕ) (w v : ℕ)
    → cells_set (pre ++ (w ∷ post)) (suc (length pre)) v ≡ some (pre ++ (v ∷ post))
cells_set-inside [] post w v = refl
cells_set-inside (x ∷ pre) post w v = rw (cells_set-inside pre post w v) refl

get_elem?-middle : (pre post : List ℕ) (v : ℕ) → get_elem? (pre ++ (v ∷ post)) (length pre) ≡ some v
get_elem?-middle [] post v = refl
get_elem?-middle (x ∷ pre) post v = get_elem?-middle pre post v

spare-suc : (n r : ℕ) → spare n (suc r) ≡ suc (spare n r)
spare-suc zero r = refl
spare-suc (suc n) r = ap suc (spare-suc n r)

spare-add : (a b r : ℕ) → spare a (spare b r) ≡ spare (a + b) r
spare-add zero b r = let e : 0 + b ≡ b = omega arith in rw e refl
spare-add (suc a) b r =
    let e : suc a + b ≡ suc (a + b) = omega arith in rw e (ap suc (spare-add a b r))

-- A list that is not empty ends somewhere.
split_last :
    (xs : List ℕ) (n : ℕ)
    → length xs ≡ suc n
    → (ys : List ℕ) × (v : ℕ) × (xs ≡ ys ++ (v ∷ [])) × (length ys ≡ n)
split_last [] n h = absurd (omega arith)
split_last (x ∷ []) n h = ([], x, refl, omega arith)
split_last (x ∷ (y ∷ xs)) zero h = absurd (omega arith)
split_last (x ∷ (y ∷ xs)) (suc n) h =
    let (ys, v, e, l) = split_last (y ∷ xs) n (omega arith) in
    (x ∷ ys, v, ap (λ zs. x ∷ zs) e, omega arith)

module _ (m : ℕ) where
  pub set_inside :
      (pre post : List ℕ) (w v room : ℕ)
      → set_nth_back (suc (length pre)) v (stack (pre ++ (w ∷ post)) room m)
        ≡ some (tt, stack (pre ++ (v ∷ post)) room m)
  unfolding set_nth_back
  set_inside pre post w v room = rw (set_nth_back, cells_set-inside pre post w v) refl

  get_inside :
      (pre post : List ℕ) (v room : ℕ)
      → nth_back (suc (length pre)) (stack (pre ++ (v ∷ post)) room m)
        ≡ some (v, stack (pre ++ (v ∷ post)) room m)
  unfolding nth_back
  get_inside pre post v room = rw (nth_back, get_elem?-middle pre post v) refl

  pub local_set-step :
      (pre post : List ℕ) (v w d room : ℕ)
      → d ≡ suc (length pre)
      → (pc : ℕ)
      → local_step (Opcode.local_set d) pc (stack (v ∷ (pre ++ (w ∷ post))) room m)
        ≡ some (pc + 1, stack (pre ++ (v ∷ post)) (suc room) m)
  unfolding local_step
  local_set-step pre post v w d room e pc = rw e (
      ValueStack.bind-some (set_nth_back (suc (length pre)) v) (λ _. ValueStack.pure (pc + 1))
        (stack (pre ++ (w ∷ post)) (suc room) m) (set_inside pre post w v (suc room)))

  pub local_get-step :
      (pre post : List ℕ) (v d room : ℕ)
      → d ≡ suc (length pre)
      → (pc : ℕ)
      → local_step (Opcode.local_get d) pc (stack (pre ++ (v ∷ post)) (suc room) m)
        ≡ some (pc + 1, stack (v ∷ (pre ++ (v ∷ post))) room m)
  unfolding local_step
  local_get-step pre post v d room e pc = rw e (
      ValueStack.bind-some (nth_back (suc (length pre)))
        (λ v. ValueStack.push v >> ValueStack.pure (pc + 1))
        (stack (pre ++ (v ∷ post)) (suc room) m) (get_inside pre post v (suc room)))

  drop_n-prefix :
      (cells rest : List ℕ) (room : ℕ)
      → drop_n (length cells) (stack (cells ++ rest) room m)
        ≡ some (tt, stack rest (spare (length cells) room) m)
  unfolding drop_n
  drop_n-prefix [] rest room = refl
  drop_n-prefix (c ∷ cells) rest room =
      drop_n-prefix cells rest (suc room)
      ∙ ap (λ r. some (tt, stack rest r m)) (spare-suc (length cells) room)

  bulk_drop-step :
      (cells rest : List ℕ) (n room : ℕ)
      → n ≡ length cells
      → (pc : ℕ)
      → local_step (Opcode.bulk_drop n) pc (stack (cells ++ rest) room m)
        ≡ some (pc + 1, stack rest (spare (length cells) room) m)
  unfolding local_step
  bulk_drop-step cells rest n room e pc = rw e (
      ValueStack.bind-some (drop_n (length cells)) (λ _. ValueStack.pure (pc + 1))
        (stack (cells ++ rest) room m) (drop_n-prefix cells rest room))

  -- `done` are the kept values that are in place already, `over` the ones still to be overwritten.
  set_below-Straight :
      (kept first done over rest : List ℕ) (drop room : ℕ)
      → length over ≡ length kept
      → drop ≡ length first + length done + length over
      → Straight
          (set_below drop (length kept))
          (stack (kept ++ (first ++ (done ++ (over ++ rest)))) room m)
          (stack (first ++ ((done ++ kept) ++ rest)) (spare (length kept) room) m)
  unfolding set_below
  set_below-Straight [] first done [] rest drop room p q = rw (append-nil done) stop
  set_below-Straight [] first done (w ∷ over) rest drop room p q = absurd (omega arith)
  set_below-Straight (v ∷ kept) first done [] rest drop room p q = absurd (omega arith)
  set_below-Straight (v ∷ kept) first done (w ∷ over) rest drop room p q =
      let before : (kept ++ (first ++ done)) ++ (w ∷ (over ++ rest))
          ≡ kept ++ (first ++ (done ++ (w ∷ (over ++ rest)))) =
        append_assoc kept (first ++ done) (w ∷ (over ++ rest))
        ∙ ap (λ xs. kept ++ xs) (append_assoc first done (w ∷ (over ++ rest))) in
      let after : (kept ++ (first ++ done)) ++ (v ∷ (over ++ rest))
          ≡ kept ++ (first ++ ((done ++ (v ∷ [])) ++ (over ++ rest))) =
        append_assoc kept (first ++ done) (v ∷ (over ++ rest))
        ∙ ap (λ xs. kept ++ xs)
            (append_assoc first done (v ∷ (over ++ rest))
              ∙ ap (λ xs. first ++ xs) (sym (append_assoc done (v ∷ []) (over ++ rest)))) in
      let l : drop ≡ suc (length (kept ++ (first ++ done))) =
        omega (arith, length-append kept (first ++ done), length-append first done) in
      let ih =
        set_below-Straight kept first (done ++ (v ∷ [])) over rest drop (suc room) (omega arith)
          (omega (arith, length-append done (v ∷ []))) in
      let end : (done ++ (v ∷ [])) ++ kept ≡ done ++ (v ∷ kept) = append_assoc done (v ∷ []) kept in
      go
        (λ pc.
          subst
            (λ xs.
              local_step (Opcode.local_set drop) pc (stack (v ∷ xs) room m)
              ≡ some (
                pc + 1,
                stack (kept ++ (first ++ ((done ++ (v ∷ [])) ++ (over ++ rest)))) (suc room) m,
              ))
            before
            (subst
              (λ ys.
                local_step (Opcode.local_set drop) pc
                  (stack (v ∷ ((kept ++ (first ++ done)) ++ (w ∷ (over ++ rest)))) room m)
                ≡ some (pc + 1, stack ys (suc room) m))
              after (local_set-step (kept ++ (first ++ done)) (over ++ rest) v w drop room l pc)))
        (subst
          (λ xs.
            Straight (set_below drop (length kept))
              (stack (kept ++ (first ++ ((done ++ (v ∷ [])) ++ (over ++ rest)))) (suc room) m)
              (stack (first ++ (xs ++ rest)) (suc (spare (length kept) room)) m))
          end
          (subst
            (λ r.
              Straight (set_below drop (length kept))
                (stack (kept ++ (first ++ ((done ++ (v ∷ [])) ++ (over ++ rest)))) (suc room) m)
                (stack (first ++ (((done ++ (v ∷ [])) ++ kept) ++ rest)) r m))
            (spare-suc (length kept) room) ih))

  Copied : ℕ → ℕ → List ℕ → List ℕ → List ℕ → ℕ → Type 0
  Copied drop n kept over rest room =
      (left : List ℕ) × (length left ≡ drop)
      × Straight (copy_below drop n) (stack (kept ++ (over ++ rest)) (suc room) m)
          (stack (left ++ (kept ++ rest)) (suc room) m)

  -- One value copied down, then the others.
  copy_one :
      (n drop room : ℕ) (ks over over₁ rest : List ℕ) (v w : ℕ)
      → length ks ≡ n
      → length over₁ ≡ drop
      → v ∷ over ≡ over₁ ++ (w ∷ [])
      → Copied drop n ks over₁ (v ∷ rest) room
      → Copied drop (suc n) (ks ++ (v ∷ [])) over rest room
  unfolding Copied copy_below
  copy_one n drop room ks over over₁ rest v w k l e (left, ll, st) =
      let kept : (ks ++ (v ∷ [])) ++ (over ++ rest) ≡ ks ++ (v ∷ (over ++ rest)) =
        append_assoc ks (v ∷ []) (over ++ rest) in
      let shifted : ks ++ (v ∷ (over ++ rest)) ≡ (ks ++ over₁) ++ (w ∷ rest) =
        ap (λ xs. ks ++ (xs ++ rest)) e
        ∙ ap (λ xs. ks ++ xs) (append_assoc over₁ (w ∷ []) rest)
        ∙ sym (append_assoc ks over₁ (w ∷ rest)) in
      let after : (ks ++ over₁) ++ (v ∷ rest) ≡ ks ++ (over₁ ++ (v ∷ rest)) =
        append_assoc ks over₁ (v ∷ rest) in
      let end : left ++ (ks ++ (v ∷ rest)) ≡ left ++ ((ks ++ (v ∷ [])) ++ rest) =
        ap (λ xs. left ++ xs) (sym (append_assoc ks (v ∷ []) rest)) in
      let d : suc n + drop ≡ suc (length (ks ++ over₁)) = omega (arith, length-append ks over₁) in
      let get : (pc : ℕ)
          → local_step (Opcode.local_get (suc n)) pc
              (stack (ks ++ (v ∷ (over ++ rest))) (suc room) m)
            ≡ some (pc + 1, stack (v ∷ ((ks ++ over₁) ++ (w ∷ rest))) room m) =
        λ pc.
          subst
            (λ xs.
              local_step (Opcode.local_get (suc n)) pc
                (stack (ks ++ (v ∷ (over ++ rest))) (suc room) m)
              ≡ some (pc + 1, stack (v ∷ xs) room m))
            shifted (local_get-step ks (over ++ rest) v (suc n) room (ap suc (sym k)) pc) in
      let set = local_set-step (ks ++ over₁) rest v w (suc n + drop) room d in
      let later =
        subst
          (λ xs.
            Straight (copy_below drop n) (stack xs (suc room) m)
              (stack (left ++ (ks ++ (v ∷ rest))) (suc room) m))
          (sym after) st in
      (
        left,
        ll,
        subst
            (λ xs.
              Straight (copy_below drop (suc n)) (stack xs (suc room) m)
                (stack (left ++ ((ks ++ (v ∷ [])) ++ rest)) (suc room) m))
            (sym kept)
            (subst
              (λ ys.
                Straight (copy_below drop (suc n)) (stack (ks ++ (v ∷ (over ++ rest))) (suc room) m)
                  (stack ys (suc room) m))
              end (go get (go set later))),
      )

  Copied-none :
      (drop room : ℕ) (over rest : List ℕ) → length over ≡ drop → Copied drop 0 [] over rest room
  unfolding Copied copy_below
  Copied-none drop room over rest l = (over, l, stop)

  copy_below-Straight :
      (n drop room : ℕ) (kept over rest : List ℕ)
      → length kept ≡ n
      → length over ≡ drop
      → 0 < drop
      → Copied drop n kept over rest room
  copy_below-Straight zero drop room [] over rest k l p = Copied-none drop room over rest l
  copy_below-Straight zero drop room (x ∷ kept) over rest k l p = absurd (omega arith)
  copy_below-Straight (suc n) drop room kept over rest k l p =
      let (ks, v, e, k') = split_last kept n k in
      let (over₁, w, f, l') = split_last (v ∷ over) drop (ap suc l) in
      subst (λ xs. Copied drop (suc n) xs over rest room) (sym e)
        (copy_one n drop room ks over over₁ rest v w k' l' f
          (copy_below-Straight n drop room ks over₁ (v ∷ rest) k' l' p))

-- The whole translation, by the three forms it has.
module _ (drop keep : ℕ) (kept dropped rest : List ℕ) (k : length kept ≡ keep)
    (d : length dropped ≡ drop) (r m : ℕ) where
  abbrev before : ValueStack
  before = stack ((kept ++ dropped) ++ rest) (spare 1 r) m

  abbrev after : ValueStack
  after = stack (kept ++ rest) (spare (drop + 1) r) m

  joined : kept ++ (dropped ++ rest) ≡ (kept ++ dropped) ++ rest
  joined = sym (append_assoc kept dropped rest)

  end_at :
      {ops : List Opcode} (room : ℕ)
      → room ≡ spare (drop + 1) r
      → Straight ops before (stack (kept ++ rest) room m)
      → Straight ops before after
  end_at {ops} room e st = subst (λ x. Straight ops before (stack (kept ++ rest) x m)) e st

  by_sets :
      keep ≤ drop
      → Straight (set_below drop keep ++ (Opcode.bulk_drop (drop - keep) ∷ [])) before after
  by_sets p =
      let first = take (drop - keep) dropped in
      let over = Lists.drop (drop - keep) dropped in
      let f : length first ≡ drop - keep = omega (arith, length-take (drop - keep) dropped) in
      let o : length over ≡ keep = omega (arith, length-drop (drop - keep) dropped) in
      let cut : kept ++ (first ++ (over ++ rest)) ≡ (kept ++ dropped) ++ rest =
        ap (λ xs. kept ++ xs)
          (sym (append_assoc first over rest)
            ∙ ap (λ xs. xs ++ rest) (take-append-drop (drop - keep) dropped))
        ∙ joined in
      let sets =
        subst
          (λ n.
            Straight (set_below drop n) (stack (kept ++ (first ++ (over ++ rest))) (suc r) m)
              (stack (first ++ (kept ++ rest)) (spare n (suc r)) m))
          k
          (set_below-Straight m kept first [] over rest drop (suc r) (omega arith) (omega arith)) in
      let room : spare (length first) (spare keep (suc r)) ≡ spare (drop + 1) r =
        ap (spare (length first)) (spare-add keep 1 r)
        ∙ spare-add (length first) (keep + 1) r
        ∙ ap (λ n. spare n r) (rooms f p) in
      end_at (spare (length first) (spare keep (suc r))) room (
        Straight-append
          (subst
            (λ xs.
              Straight (set_below drop keep) (stack xs (suc r) m)
                (stack (first ++ (kept ++ rest)) (spare keep (suc r)) m))
            cut sets)
          (go (bulk_drop-step m first (kept ++ rest) (drop - keep) (spare keep (suc r)) (sym f))
            stop))
    where
      rooms : {l : ℕ} → l ≡ drop - keep → keep ≤ drop → l + (keep + 1) ≡ drop + 1
      rooms f p = omega arith

  by_copies :
      0 < drop → Straight (copy_below drop keep ++ (Opcode.bulk_drop drop ∷ [])) before after
  unfolding Copied
  by_copies p =
      let (left, l, st) = copy_below-Straight m keep drop r kept dropped rest k d p in
      let room : spare (length left) (suc r) ≡ spare (drop + 1) r =
        spare-add (length left) 1 r ∙ ap (λ n. spare (n + 1) r) l in
      end_at (spare (length left) (suc r)) room (
        Straight-append
          (subst
            (λ xs.
              Straight (copy_below drop keep) (stack xs (suc r) m)
                (stack (left ++ (kept ++ rest)) (suc r) m))
            joined st)
          (go (bulk_drop-step m left (kept ++ rest) drop (suc r) (sym l)) stop))

  nothing : drop ≡ 0 → Straight [] before after
  nothing z =
      let e : dropped ≡ [] = empty dropped (d ∙ z) in
      let cells : kept ++ rest ≡ (kept ++ dropped) ++ rest =
        sym (ap (λ xs. (kept ++ xs) ++ rest) e ∙ ap (λ xs. xs ++ rest) (append-nil kept)) in
      end_at (suc r) (sym (ap (λ n. spare (n + 1) r) z))
        (subst (λ xs. Straight [] (stack xs (suc r) m) (stack (kept ++ rest) (suc r) m)) cells stop)
    where
      empty : (xs : List ℕ) → length xs ≡ 0 → xs ≡ []
      empty [] h = refl
      empty (x ∷ xs) h = absurd (omega arith)

  translate_drop_keep-Straight :
      Straight (translate_drop_keep (record { drop = drop; keep = keep })) before after
  unfolding translate_drop_keep
  translate_drop_keep-Straight = elim (Bool-cases (drop == 0)) [
    | inl e ↦ rw e (nothing (ground arith))
    | inr e ↦ elim (Bool-cases (leb keep drop)) [
      | inl f ↦ rw (e, f) (by_sets (ground arith))
      | inr f ↦ rw (e, f) (by_copies (ground arith))
    ]
  ]

-- Executed, the translation removes the `drop` values below the `keep` topmost ones, with one
-- free cell at most.
pub translate_drop_keep-Computes :
    (d : DropKeep) (kept dropped : List ℕ)
    → length kept ≡ d.keep
    → length dropped ≡ d.drop
    → Computes (translate_drop_keep d) 1 (kept ++ dropped) kept
translate_drop_keep-Computes d kept dropped k l = record {
  computes = λ rest r m.
      let code = translate_drop_keep d in
      let run =
        Straight-Runs {code = code} [] []
          (translate_drop_keep-Straight d.drop d.keep kept dropped rest k l r m)
          (sym (append-nil code)) in
      let z : 0 + length code ≡ length code = omega arith in
      let room : d.drop + 1 ≡ length (kept ++ dropped) + 1 - length kept =
        omega (arith, length-append kept dropped) in
      subst
        (λ n.
          Runs code 0 (stack ((kept ++ dropped) ++ rest) (spare 1 r) m) (length code)
            (stack (kept ++ rest) (spare n r) m))
        room
        (subst
          (λ e.
            Runs code 0 (stack ((kept ++ dropped) ++ rest) (spare 1 r) m) e
              (stack (kept ++ rest) (spare (d.drop + 1) r) m))
          z run);
}
