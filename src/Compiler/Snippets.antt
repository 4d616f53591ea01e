-- ===== src/Compiler/Snippets.antt =====
-- src/compiler/snippets.rs: the sequences of src/isa that can become functions of a module.
use rwasm.Base.{ℕ, List, [], ◌∷◌}
use rwasm.Types.Opcode.{Opcode}
use rwasm.Types.Value.{ValType}
use rwasm.Isa.AddSub.{op_i64_add, msh_i64_add, op_i64_sub, msh_i64_sub}
use rwasm.Isa.Mul.{op_i64_mul, msh_i64_mul}
use rwasm.Isa.Bitwise.Shl.{op_i64_shl, msh_i64_shl}
use rwasm.Isa.Division.DivS.{op_i64_div_s, msh_i64_div_s}
use rwasm.Isa.Division.DivU.{op_i64_div_u, msh_i64_div_u}
use rwasm.Isa.Division.RemS.{op_i64_rem_s, msh_i64_rem_s}
use rwasm.Isa.Division.RemU.{op_i64_rem_u, msh_i64_rem_u}
use rwasm.Isa.Bitwise.ShrS.{op_i64_shr_s, msh_i64_shr_s}
use rwasm.Isa.Bitwise.ShrU.{op_i64_shr_u, msh_i64_shr_u}
use rwasm.Isa.Bitwise.RotL.{op_i64_rotl, msh_i64_rotl}
use rwasm.Isa.Bitwise.RotR.{op_i64_rotr, msh_i64_rotr}
use rwasm.Isa.Compare.{
  op_i64_eq, msh_i64_eq, op_i64_ne, msh_i64_ne, op_i64_lt_s, msh_i64_lt_s, op_i64_lt_u,
  msh_i64_lt_u, op_i64_gt_s, msh_i64_gt_s, op_i64_gt_u, msh_i64_gt_u, op_i64_le_s, msh_i64_le_s,
  op_i64_le_u, msh_i64_le_u, op_i64_ge_s, msh_i64_ge_s, op_i64_ge_u, msh_i64_ge_u,
}

pub data Snippet : Type 0 where
  i64_eq i64_ne i64_lt_s i64_lt_u i64_gt_s i64_gt_u : Snippet
  i64_le_s i64_le_u i64_ge_s i64_ge_u : Snippet
  i64_add i64_sub i64_mul i64_div_s i64_div_u i64_rem_s i64_rem_u : Snippet
  i64_shl i64_shr_s i64_shr_u i64_rotl i64_rotr : Snippet

-- `emitter`: what it appends.
unfoldable pub emit : Snippet → List Opcode
emit Snippet.i64_eq = op_i64_eq
emit Snippet.i64_ne = op_i64_ne
emit Snippet.i64_lt_s = op_i64_lt_s
emit Snippet.i64_lt_u = op_i64_lt_u
emit Snippet.i64_gt_s = op_i64_gt_s
emit Snippet.i64_gt_u = op_i64_gt_u
emit Snippet.i64_le_s = op_i64_le_s
emit Snippet.i64_le_u = op_i64_le_u
emit Snippet.i64_ge_s = op_i64_ge_s
emit Snippet.i64_ge_u = op_i64_ge_u
emit Snippet.i64_add = op_i64_add
emit Snippet.i64_sub = op_i64_sub
emit Snippet.i64_mul = op_i64_mul
emit Snippet.i64_shl = op_i64_shl
emit Snippet.i64_div_s = op_i64_div_s
emit Snippet.i64_div_u = op_i64_div_u
emit Snippet.i64_rem_s = op_i64_rem_s
emit Snippet.i64_rem_u = op_i64_rem_u
emit Snippet.i64_shr_s = op_i64_shr_s
emit Snippet.i64_shr_u = op_i64_shr_u
emit Snippet.i64_rotl = op_i64_rotl
emit Snippet.i64_rotr = op_i64_rotr

unfoldable pub max_stack_height : Snippet → ℕ
max_stack_height Snippet.i64_eq = msh_i64_eq
max_stack_height Snippet.i64_ne = msh_i64_ne
max_stack_height Snippet.i64_lt_s = msh_i64_lt_s
max_stack_height Snippet.i64_lt_u = msh_i64_lt_u
max_stack_height Snippet.i64_gt_s = msh_i64_gt_s
max_stack_height Snippet.i64_gt_u = msh_i64_gt_u
max_stack_height Snippet.i64_le_s = msh_i64_le_s
max_stack_height Snippet.i64_le_u = msh_i64_le_u
max_stack_height Snippet.i64_ge_s = msh_i64_ge_s
max_stack_height Snippet.i64_ge_u = msh_i64_ge_u
max_stack_height Snippet.i64_add = msh_i64_add
max_stack_height Snippet.i64_sub = msh_i64_sub
max_stack_height Snippet.i64_mul = msh_i64_mul
max_stack_height Snippet.i64_shl = msh_i64_shl
max_stack_height Snippet.i64_div_s = msh_i64_div_s
max_stack_height Snippet.i64_div_u = msh_i64_div_u
max_stack_height Snippet.i64_rem_s = msh_i64_rem_s
max_stack_height Snippet.i64_rem_u = msh_i64_rem_u
max_stack_height Snippet.i64_shr_s = msh_i64_shr_s
max_stack_height Snippet.i64_shr_u = msh_i64_shr_u
max_stack_height Snippet.i64_rotl = msh_i64_rotl
max_stack_height Snippet.i64_rotr = msh_i64_rotr

unfoldable pub orig_params : Snippet → List ValType
orig_params _ = ValType.i64 ∷ ValType.i64 ∷ []

-- Comparisons leave an `i32`.
unfoldable pub orig_results : Snippet → List ValType
orig_results Snippet.i64_add = ValType.i64 ∷ []
orig_results Snippet.i64_sub = ValType.i64 ∷ []
orig_results Snippet.i64_mul = ValType.i64 ∷ []
orig_results Snippet.i64_shl = ValType.i64 ∷ []
orig_results Snippet.i64_div_s = ValType.i64 ∷ []
orig_results Snippet.i64_div_u = ValType.i64 ∷ []
orig_results Snippet.i64_rem_s = ValType.i64 ∷ []
orig_results Snippet.i64_rem_u = ValType.i64 ∷ []
orig_results Snippet.i64_shr_s = ValType.i64 ∷ []
orig_results Snippet.i64_shr_u = ValType.i64 ∷ []
orig_results Snippet.i64_rotl = ValType.i64 ∷ []
orig_results Snippet.i64_rotr = ValType.i64 ∷ []
orig_results _ = ValType.i32 ∷ []

unfoldable pub expand_i64_to_i32 : List ValType → List ValType
expand_i64_to_i32 [] = []
expand_i64_to_i32 (ValType.i64 ∷ ts) = ValType.i32 ∷ ValType.i32 ∷ expand_i64_to_i32 ts
expand_i64_to_i32 (ValType.f64 ∷ ts) = ValType.i32 ∷ ValType.i32 ∷ expand_i64_to_i32 ts
expand_i64_to_i32 (t ∷ ts) = t ∷ expand_i64_to_i32 ts

-- `loc` is the place of the call.
pub record SnippetCall : Type 0 where
  pub snippet : Snippet
  pub loc : ℕ
