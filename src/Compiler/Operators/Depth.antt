-- ===== src/Compiler/Operators/Depth.antt =====
-- Where a local stands, in types and in cells, and the code that copies it.
use mathlib.Core.Path.{subst}
use rwasm.Base.{
  ℕ, suc, ◌+◌, ◌≡◌, refl, sym, ap, ◌∙◌, List, [], ◌∷◌, ◌++◌, length, length-append, append_assoc,
  some, arith,
}
use rwasm.Types.Opcode.{Opcode}
use rwasm.Types.Value.{Value, ValType, ty}
use rwasm.Isa.Block.{local_step}
use rwasm.Isa.Words.{stack}
use rwasm.Isa.Straight.{Straight, stop, go}
use rwasm.Compiler.DropKeep.Correct.{local_get-step}
use rwasm.Compiler.Translator.Locals.{relative_local_depth, type_at, get_expressed_depth}
use rwasm.Compiler.Operators.Values.{
  cells, cells_of, types, cells-append, types-append, length-types, get_expressed_depth-cells,
}
use rwasm.Compiler.Operators.Code.{Leads, Straight-Leads}

module _ (pre post : List ℕ) where
  pub get_narrow :
      (w e : ℕ)
      → e ≡ length pre + 1
      → Leads (Opcode.local_get e ∷ []) 1 (pre ++ (w ∷ post)) (w ∷ (pre ++ (w ∷ post)))
  get_narrow w e eq =
      Straight-Leads 1 (λ r. r) (λ r. omega arith)
        (λ rest r m.
          subst (λ cs. Straight (Opcode.local_get e ∷ []) (stack cs (suc r) m) (stack (w ∷ cs) r m))
            (sym (append_assoc pre (w ∷ post) rest))
            (go (local_get-step m pre (post ++ rest) w e r (omega (arith, eq))) stop))

  pub get_wide :
      (lo hi e : ℕ)
      → e ≡ length pre + 2
      → Leads
          (Opcode.local_get e ∷ Opcode.local_get e ∷ [])
          2
          (pre ++ (hi ∷ lo ∷ post))
          (hi ∷ lo ∷ (pre ++ (hi ∷ lo ∷ post)))
  get_wide lo hi e eq =
      Straight-Leads 2 (λ r. r) (λ r. omega arith)
        (λ rest r m.
          let first : (pre ++ (hi ∷ [])) ++ (lo ∷ (post ++ rest))
              ≡ pre ++ (hi ∷ lo ∷ (post ++ rest)) =
            append_assoc pre (hi ∷ []) (lo ∷ (post ++ rest)) in
          subst
            (λ cs.
              Straight (Opcode.local_get e ∷ Opcode.local_get e ∷ []) (stack cs (suc (suc r)) m)
                (stack (hi ∷ lo ∷ cs) r m))
            (sym (append_assoc pre (hi ∷ lo ∷ post) rest))
            (go
              (λ pc.
                subst
                  (λ cs.
                    local_step (Opcode.local_get e) pc (stack cs (suc (suc r)) m)
                    ≡ some (pc + 1, stack (lo ∷ cs) (suc r) m))
                  first
                  (local_get-step m (pre ++ (hi ∷ [])) (post ++ rest) lo e (suc r)
                    (omega (arith, eq, length-append pre (hi ∷ []))) pc))
              (go (local_get-step m (lo ∷ pre) (lo ∷ (post ++ rest)) hi e r (omega (arith, eq)))
                stop)))

-- What the translator works out about a local with the values `pre` above it.
module _ (pre : List Value) (v : Value) (below : List Value) where
  abbrev all_types : List ValType
  all_types = types (pre ++ (v ∷ below))

  pub length-all : length (types (pre ++ (v ∷ below))) ≡ length pre + suc (length below)
  length-all = length-types (pre ++ (v ∷ below)) ∙ length-append pre (v ∷ below)

  pub depth_of :
      relative_local_depth (length below) (types (pre ++ (v ∷ below))) ≡ some (suc (length pre))
  unfolding relative_local_depth
  depth_of = ground (arith, length-all)

  pub expressed :
      get_expressed_depth (suc (length pre)) (types (pre ++ (v ∷ below)))
      ≡ length (cells pre) + length (cells_of v)
  expressed =
      let grouped : types (pre ++ (v ∷ below)) ≡ types (pre ++ (v ∷ [])) ++ types below =
        ap types (sym (append_assoc pre (v ∷ []) below)) ∙ types-append (pre ++ (v ∷ [])) below in
      let l : length (pre ++ (v ∷ [])) ≡ suc (length pre) =
        omega (arith, length-append pre (v ∷ [])) in
      ap (get_expressed_depth (suc (length pre))) grouped
      ∙ (ap (λ n. get_expressed_depth n (types (pre ++ (v ∷ [])) ++ types below)) (sym l)
          ∙ (get_expressed_depth-cells (pre ++ (v ∷ [])) (types below)
              ∙ omega (
                arith,
                ap length (cells-append pre (v ∷ [])),
                length-append (cells pre) (cells_of v ++ []),
                length-append (cells_of v) [],
              )))

pub type_of :
    (pre : List Value) (v : Value) (below : List Value)
    → type_at (suc (length pre)) (types (pre ++ (v ∷ below))) ≡ some (ty v)
type_of [] v below = refl
type_of (x ∷ pre) v below = type_of pre v below
