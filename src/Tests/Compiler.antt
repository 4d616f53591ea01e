-- ===== src/Tests/Compiler.antt =====
-- The compiler (src/compiler) at concrete inputs.
use rwasm.Base.{ℕ, max, ◌≤◌, ◌≡◌, ◌≢◌, ◌↔◌, refl, arith, List, [], ◌∷◌, ◌++◌, some, get_elem?}
use rwasm.Base.Ints.{pos, negsuc}
use rwasm.Types.BranchOffset.{BranchOffset}
use rwasm.Isa.Words.{Computes}
use rwasm.Compiler.DropKeep.{translate_drop_keep}
use rwasm.Compiler.DropKeep.Correct.{translate_drop_keep-Computes}
use rwasm.Compiler.Error.{Result, ok, CompilationError}
use rwasm.Compiler.LabelRegistry.{
  Label, pinned, unpinned, LabelRegistry, get_label, resolve_users, try_pin_label,
}
use rwasm.Compiler.FuncTypeRegistry.{
  ValType-discrete, FuncType, FuncType-discrete, FuncTypeRegistry, new, position,
  resolve_func_type_signature,
}
use rwasm.Compiler.FuncTypeRegistry.Canonical.{NoVector, NoVectors, new-Canonical}
use rwasm.Types.Value.{ValType}
use rwasm.Compiler.ValueStackHeight.{ValueStackHeight, push_type, push_n, pop_n, shrink_to}
use rwasm.Compiler.ValueStackHeight.Maximum.{
  Follows, done, push_types, pop_ns, push_ns, shrinks, highest, Follows-maximum,
}
use rwasm.Compiler.LabelRegistry.Resolution.{Leads, resolve_users-Resolved, try_pin_label-outcome}

translate_drop_keep-Computes_example :
    Computes
      (translate_drop_keep (record { drop = 2; keep = 3 }))
      1
      ((1 ∷ 2 ∷ 3 ∷ []) ++ (4 ∷ 5 ∷ []))
      (1 ∷ 2 ∷ 3 ∷ [])
translate_drop_keep-Computes_example =
    translate_drop_keep-Computes (record { drop = 2; keep = 3 }) (1 ∷ 2 ∷ 3 ∷ []) (4 ∷ 5 ∷ []) refl
      refl

-- A loop's label pinned at 4 and a block's label pinned at 20, with a branch to each.
abbrev registry : LabelRegistry
registry = record {
  labels = pinned 4 ∷ pinned 20 ∷ unpinned ∷ [];
  users = record { label = 1; user = 9 } ∷ record { label = 0; user = 12 } ∷ [];
}

abbrev results : List (ℕ × Result CompilationError BranchOffset)
results = (9, ok (pos 11)) ∷ (12, ok (negsuc 7)) ∷ []

resolve_users-Resolved_example :
    (dst : ℕ) × (result : Result CompilationError BranchOffset) × (get_label registry 0
      ≡ some (pinned dst))
    × (get_elem? results 1 ≡ some (12, result))
    × Leads 12 dst result
unfolding resolve_users
resolve_users-Resolved_example =
    resolve_users-Resolved registry registry.users {results = results} refl 1
      (record { label = 0; user = 12 }) refl

try_pin_label_example :
    (r' : LabelRegistry) × (try_pin_label 2 7 registry ≡ some r')
    × (r'.users ≡ registry.users)
    × (◌≡◌ {A = Label} unpinned unpinned → get_label r' 2 ≡ some (pinned 7))
    × ((at : ℕ) → unpinned ≡ pinned at → get_label r' 2 ≡ some (pinned at))
    × ((other : ℕ) → 2 ≢ other → get_label r' other ≡ get_label registry other)
try_pin_label_example = try_pin_label-outcome 2 7 registry {l = unpinned} refl

abbrev unary : ValType → FuncType
unary t = record { params = t ∷ []; results = t ∷ [] }

abbrev func_types : List FuncType
func_types = unary ValType.i32 ∷ unary ValType.i64 ∷ unary ValType.i32 ∷ unary ValType.func_ref ∷ []

position_test : position (unary ValType.func_ref) func_types ≡ some 3
unfolding position FuncType-discrete ValType-discrete
position_test = refl

func_types-NoVectors : NoVectors func_types
unfolding NoVectors NoVector
func_types-NoVectors = (
  (i32_narrow, tt),
  (i32_narrow, tt),
  (
    (i64_narrow, tt),
    (i64_narrow, tt),
    ((i32_narrow, tt), (i32_narrow, tt), ((ref_narrow, tt), (ref_narrow, tt), tt)),
  ),
)
  where
    i32_narrow : ◌≡◌ {A = ValType} ValType.i32 ValType.v128 → ⊥
    i32_narrow e = cc

    i64_narrow : ◌≡◌ {A = ValType} ValType.i64 ValType.v128 → ⊥
    i64_narrow e = cc

    ref_narrow : ◌≡◌ {A = ValType} ValType.func_ref ValType.v128 → ⊥
    ref_narrow e = cc

new-Canonical_example :
    (r : FuncTypeRegistry) × (new func_types ≡ ok r)
    × ((i j : ℕ) (t u : FuncType)
        → get_elem? func_types i ≡ some t
        → get_elem? func_types j ≡ some u
        → (m : ℕ) × (n : ℕ) × (resolve_func_type_signature i r ≡ some m)
          × (resolve_func_type_signature j r ≡ some n)
          × ((m ≡ n) ↔ (t ≡ u)))
new-Canonical_example = new-Canonical func_types func_types-NoVectors (omega arith)

abbrev height_at : ℕ → ℕ → ValueStackHeight
height_at height max_height = record { height = height; max_height = max_height }

-- A 64-bit value, a pop of one cell, three cells more, and back to one.
climb : Follows (height_at 0 0) (2 ∷ 1 ∷ 4 ∷ 1 ∷ []) (height_at 1 4)
unfolding push_type push_n pop_n shrink_to
climb = push_types ValType.i64 (pop_ns 1 refl (push_ns 3 (shrinks 1 refl done)))

Follows-maximum_example :
    ((height_at 1 4).max_height ≡ max (height_at 0 0).max_height (highest (2 ∷ 1 ∷ 4 ∷ 1 ∷ [])))
    × ((height_at 1 4).height ≤ (height_at 1 4).max_height)
Follows-maximum_example =
    Follows-maximum {h = height_at 0 0} {h' = height_at 1 4} {hs = 2 ∷ 1 ∷ 4 ∷ 1 ∷ []} climb
      (omega arith)
