-- ===== src/Compiler/Translator/Returns.antt =====
-- What branches and returns drop and keep.
use rwasm.Base.{
  ℕ, ◌+◌, ◌-◌, ◌^◌, ◌≡◌, refl, sym, ap, ◌∙◌, Bool, true, false, Option, some, none, List, [], ◌∷◌,
  ◌++◌, length, leb, ltb, ◌&&◌, if◌then◌else◌, Bool-cases, inl, inr, append_assoc, arith,
}
use rwasm.Types.Opcode.{Opcode}
use rwasm.Compiler.ControlFlow.{ControlFrame, kind, block_type, stack_height, nth_back}
use rwasm.Compiler.DropKeep as DropKeep
use rwasm.Compiler.DropKeep.{DropKeep, translate_drop_keep, translate_height}
use rwasm.Compiler.Translator.{Translator, Outcome, Tr, done, failed, panic, and_then, expect}
use rwasm.Compiler.Translator.Frames.{
  assert, depth_of_root, drop_keep_or_error, height_diff, kept, compute_drop_keep, max_depth,
  drop_keep_return,
}
use rwasm.Compiler.Translator.Branches.{emit_drop_keep, return_body, visit_return}

-- What succeeds, did so at every step.
pub and_then_inv :
    {A B : Type 0} (o : Outcome A) (f : A → Tr B) {b : B} {t' : Translator}
    → and_then o f ≡ done b t'
    → (a : A) × (t1 : Translator) × (o ≡ done a t1) × (f a t1 ≡ done b t')
and_then_inv (done a t) f h = (a, t, refl, h)
and_then_inv (failed e) f h = absurd cc
and_then_inv panic f h = absurd cc

pub expect_inv :
    {A : Type 0} (o : Option A) {t t' : Translator} {a : A}
    → expect o t ≡ done a t'
    → (o ≡ some a) × (t ≡ t')
expect_inv none h = absurd cc
expect_inv (some a) h = (cc, cc)

pub assert_inv :
    (b : Bool) {t t' : Translator} {u : Unit {0}} → assert b t ≡ done u t' → (b ≡ true) × (t ≡ t')
assert_inv false h = absurd cc
assert_inv true h = (refl, cc)

-- `DropKeep::new` keeps the amounts.
new_inv :
    (drop keep : ℕ) {t t' : Translator} {d : DropKeep}
    → drop_keep_or_error (DropKeep.new drop keep) t ≡ done d t'
    → (d.drop ≡ drop) × (d.keep ≡ keep) × (t ≡ t')
unfolding DropKeep.new
new_inv drop keep {t} {t'} {d} h = elim (Bool-cases (ltb keep (2 ^ 16) && ltb drop (2 ^ 16))) [
  | inl e ↦
      let made : drop_keep_or_error (some (record { drop = drop; keep = keep })) t ≡ done d t' =
        rw e at h in
      let same : record { drop = drop; keep = keep } ≡ d = cc in
      (sym (ap (λ d. d.drop) same), sym (ap (λ d. d.keep) same), cc)
  | inr e ↦ let made : drop_keep_or_error none t ≡ done d t' = rw e at h in absurd cc
]

height_diff_inv :
    (depth : ℕ) (t : Translator) {n : ℕ} {t' : Translator}
    → height_diff depth t ≡ done n t'
    → (frame : ControlFrame) × (origin : ℕ) × (nth_back depth t.control_frames ≡ some frame)
      × (stack_height frame ≡ some origin)
      × (n + origin ≡ t.stack_height.height)
      × (t ≡ t')
unfolding height_diff
height_diff_inv depth t {n} {t'} h =
    let (frame, t1, e1, h1) = and_then_inv (expect (nth_back depth t.control_frames) t) _ h in
    let (found, same1) = expect_inv (nth_back depth t.control_frames) e1 in
    let (origin, t2, e2, h2) = and_then_inv (expect (stack_height frame) t1) _ h1 in
    let (known, same2) = expect_inv (stack_height frame) e2 in
    let (u, t3, e3, h3) = and_then_inv (assert (leb origin t.stack_height.height) t2) _ h2 in
    let (below, same3) = assert_inv (leb origin t.stack_height.height) e3 in
    let difference : t.stack_height.height - origin ≡ n = cc in
    (frame, origin, found, known, ground (arith, difference, below), cc)

-- A branch that succeeds drops and keeps together all that the height counts above the frame that it
-- leaves, and keeps as many as `kept` says; nothing changes.
pub compute_drop_keep_outcome :
    (depth : ℕ) (t : Translator) {d : DropKeep} {t' : Translator}
    → compute_drop_keep depth t ≡ done d t'
    → (frame : ControlFrame) × (origin : ℕ) × (nth_back depth t.control_frames ≡ some frame)
      × (stack_height frame ≡ some origin)
      × (kept (kind frame) (block_type frame) t.func_type_registry ≡ some d.keep)
      × (d.drop + d.keep + origin ≡ t.stack_height.height)
      × (t ≡ t')
unfolding compute_drop_keep
compute_drop_keep_outcome depth t {d} {t'} h =
    let (frame, t1, e1, h1) = and_then_inv (expect (nth_back depth t.control_frames) t) _ h in
    let (found, same1) = expect_inv (nth_back depth t.control_frames) e1 in
    let (keep, t2, e2, h2) =
      and_then_inv (expect (kept (kind frame) (block_type frame) t.func_type_registry) t1) _ h1 in
    let (arity, same2) =
      expect_inv (kept (kind frame) (block_type frame) t.func_type_registry) e2 in
    let (diff, t3, e3, h3) = and_then_inv (height_diff depth t2) _ h2 in
    let (frame', origin, found', known, sum, same3) = height_diff_inv depth t2 e3 in
    let (u, t4, e4, h4) = and_then_inv (assert (leb keep diff) t3) _ h3 in
    let (fits, same4) = assert_inv (leb keep diff) e4 in
    let (drops, keeps, same5) = new_inv (diff - keep) keep h4 in
    let start : t ≡ t2 = cc in
    let there : nth_back depth t.control_frames ≡ some frame' =
      ap (λ t. nth_back depth t.control_frames) start ∙ found' in
    let one : some frame' ≡ some frame = sym there ∙ found in
    let frames : frame' ≡ frame = cc in
    (
      frame,
      origin,
      found,
      ap stack_height (sym frames) ∙ known,
      arity ∙ ap some (sym keeps),
      ground (arith, drops, keeps, fits, sum, ap (λ t. t.stack_height.height) start),
      cc,
    )

depth_of_root_inv :
    (t : Translator) {n : ℕ} {t' : Translator}
    → max_depth t ≡ done n t'
    → (n ≡ length t.control_frames - 1) × (t ≡ t')
unfolding max_depth
depth_of_root_inv t {n} {t'} h = by_frames t.control_frames h
  where
    by_frames :
        (frames : List ControlFrame)
        → depth_of_root frames t ≡ done n t'
        → (n ≡ length frames - 1) × (t ≡ t')
    by_frames [] h = absurd cc
    by_frames (f ∷ fs) h = let e : length fs ≡ n = cc in (omega (arith, e), cc)

-- A return drops the locals too.
pub drop_keep_return_outcome :
    (t : Translator) {d : DropKeep} {t' : Translator}
    → drop_keep_return t ≡ done d t'
    → (root : ControlFrame) × (origin : ℕ) × (nth_back
          (length t.control_frames - 1)
          t.control_frames
        ≡ some root)
      × (stack_height root ≡ some origin)
      × (kept (kind root) (block_type root) t.func_type_registry ≡ some d.keep)
      × (d.drop + d.keep + origin ≡ t.stack_height.height + t.locals)
      × (t ≡ t')
unfolding drop_keep_return
drop_keep_return_outcome t {d} {t'} h =
    let (depth, t1, e1, h1) = and_then_inv (max_depth t) _ h in
    let (deepest, same1) = depth_of_root_inv t e1 in
    let (inner, t2, e2, h2) = and_then_inv (compute_drop_keep depth t1) _ h1 in
    let (root, origin, found, known, arity, sum, same2) = compute_drop_keep_outcome depth t1 e2 in
    let (drops, keeps, same3) = new_inv (inner.drop + t2.locals) inner.keep h2 in
    (
      root,
      origin,
      ap (λ n. nth_back n t.control_frames) (sym deepest)
          ∙ (ap (λ t. nth_back depth t.control_frames) same1 ∙ found),
      known,
      ap (λ t. kept (kind root) (block_type root) t.func_type_registry) same1
          ∙ (arity ∙ ap some (sym keeps)),
      omega (
        arith,
        sum,
        drops,
        keeps,
        ap (λ t. t.stack_height.height) same1,
        ap (λ t. t.locals) (same1 ∙ same2),
      ),
      cc,
    )

abbrev with_return : DropKeep → Translator → Translator
with_return d t = record t {
  reachable = false;
  instruction_set = (t.instruction_set ++ translate_drop_keep d) ++ (Opcode.return ∷ []);
  stack_height = translate_height d t.stack_height;
}

-- A return that succeeds appends the code that drops and keeps, and the instruction that returns.
pub visit_return_outcome :
    (t : Translator) {t' : Translator}
    → t.reachable ≡ true
    → visit_return t ≡ done tt t'
    → (d : DropKeep) × (drop_keep_return t ≡ done d t)
      × (t'.instruction_set ≡ t.instruction_set ++ (translate_drop_keep d ++ (Opcode.return ∷ [])))
      × (t'.reachable ≡ false)
unfolding visit_return emit_drop_keep
visit_return_outcome t {t'} r h =
    let run : return_body t ≡ done tt t' =
      sym (ap (λ b. if b then return_body t else done tt t) r) ∙ h in
    let (d, t1, e, left) = and_then_inv (drop_keep_return t) _ run in
    let (_, _, _, _, _, _, same) = drop_keep_return_outcome t e in
    let end : with_return d t1 ≡ t' = cc in
    (
      d,
      e ∙ ap (λ t. done d t) (sym same),
      ap (λ t. t.instruction_set) (sym end)
          ∙ (append_assoc t1.instruction_set (translate_drop_keep d) (Opcode.return ∷ [])
              ∙ ap (λ u. u.instruction_set ++ (translate_drop_keep d ++ (Opcode.return ∷ [])))
                  (sym same)),
      ap (λ t. t.reachable) (sym end),
    )
