-- ===== src/Compiler/FuncTypeRegistry.antt =====
-- src/compiler/func_type_registry.rs: the function types of a module, as they were declared and on
-- 32-bit cells, and the number that stands for equal ones in an indirect call.
pub mod Position
pub mod Canonical
use rwasm.Base.{ℕ, suc, ◌%◌, ◌^◌, List, [], ◌∷◌, ◌++◌, Option, some, none, length, get_elem?}
use rwasm.Types.Value.{ValType}
use rwasm.Compiler.Error.{Result, ok, err, CompilationError, not_supported_func_type}
use mathlib.Core.Option

unfoldable pub ValType-discrete : Discrete ValType
ValType-discrete = hlevel

-- The parser's type of a function (of the wasmparser package), which compares by its parts.
pub record FuncType : Type 0 where
  pub params : List ValType
  pub results : List ValType

unfoldable pub FuncType-discrete : Discrete FuncType
FuncType-discrete = hlevel

pub record FuncTypeRegistry : Type 0 where
  pub original_func_types : List FuncType
  pub func_types : List FuncType
  pub original_signatures : List ℕ

abbrev pub default_registry : FuncTypeRegistry
default_registry = record { original_func_types = []; func_types = []; original_signatures = [] }

-- The loops over parameters and over results: a 64-bit type takes two cells, a vector is an error.
pub adjust : List ValType → Option (List ValType)
adjust [] = some []
adjust (ValType.i64 ∷ ts) = Option.map (λ rest. ValType.i32 ∷ ValType.i32 ∷ rest) (adjust ts)
adjust (ValType.f64 ∷ ts) = Option.map (λ rest. ValType.i32 ∷ ValType.i32 ∷ rest) (adjust ts)
adjust (ValType.v128 ∷ ts) = none
adjust (ValType.i32 ∷ ts) = Option.map (λ rest. ValType.i32 ∷ rest) (adjust ts)
adjust (ValType.f32 ∷ ts) = Option.map (λ rest. ValType.f32 ∷ rest) (adjust ts)
adjust (ValType.func_ref ∷ ts) = Option.map (λ rest. ValType.func_ref ∷ rest) (adjust ts)
adjust (ValType.extern_ref ∷ ts) = Option.map (λ rest. ValType.extern_ref ∷ rest) (adjust ts)

abbrev pub at_head {ℓ} : {A : Type ℓ} → Dec A → Option ℕ → Option ℕ
at_head (yes _) rest = some 0
at_head (no _) rest = Option.map suc rest

-- `iter().position(..)`: the first place that holds the type.
unfoldable pub position : FuncType → List FuncType → Option ℕ
position t [] = none
position t (u ∷ us) = at_head (FuncType-discrete u t) (position t us)

abbrev pub unwrap_or : Option ℕ → ℕ → ℕ
unwrap_or none other = other
unwrap_or (some n) other = n

abbrev pub add_type :
    FuncType
    → FuncTypeRegistry
    → Option (List ValType)
    → Option (List ValType)
    → Result CompilationError (ℕ × FuncTypeRegistry)
add_type t r (some adjusted_params) (some adjusted_result) =
    let next_func_type_index = length r.original_func_types in
    ok (
      next_func_type_index % 2 ^ 32,
      record {
        original_func_types = r.original_func_types ++ (t ∷ []);
        func_types =
            r.func_types ++ (record { params = adjusted_params; results = adjusted_result } ∷ []);
        original_signatures =
            r.original_signatures
            ++ (unwrap_or (position t r.original_func_types) next_func_type_index % 2 ^ 32 ∷ []);
      },
    )
add_type t r (some adjusted_params) none = err not_supported_func_type
add_type t r none adjusted_result = err not_supported_func_type

pub alloc_func_type : FuncType → FuncTypeRegistry → Result CompilationError (ℕ × FuncTypeRegistry)
unfolding adjust position
alloc_func_type t r = add_type t r (adjust t.params) (adjust t.results)

-- The `?` of the loop, which drops the index.
abbrev pub with_registry :
    Result CompilationError (ℕ × FuncTypeRegistry)
    → (FuncTypeRegistry → Result CompilationError FuncTypeRegistry)
    → Result CompilationError FuncTypeRegistry
with_registry (err e) f = err e
with_registry (ok (index, r)) f = f r

-- The loop of `new`.
pub alloc_all : List FuncType → FuncTypeRegistry → Result CompilationError FuncTypeRegistry
unfolding alloc_func_type
alloc_all [] r = ok r
alloc_all (t ∷ ts) r = with_registry (alloc_func_type t r) (λ r'. alloc_all ts r')

pub new : List FuncType → Result CompilationError FuncTypeRegistry
unfolding alloc_all
new func_types = alloc_all func_types default_registry

-- An index past the end is a panic: `none`.
unfoldable pub resolve_func_type_signature : ℕ → FuncTypeRegistry → Option ℕ
resolve_func_type_signature func_type_idx r = get_elem? r.original_signatures func_type_idx

unfoldable pub resolve_func_type : ℕ → FuncTypeRegistry → Option FuncType
resolve_func_type func_type_idx r = get_elem? r.func_types func_type_idx

unfoldable pub resolve_original_func_type : ℕ → FuncTypeRegistry → Option FuncType
resolve_original_func_type func_type_idx r = get_elem? r.original_func_types func_type_idx

-- The parser's type of a block (of the wasmparser package).
pub data BlockType : Type 0 where
  empty : BlockType
  type : ValType → BlockType
  func_type : ℕ → BlockType

-- The number of cells of a value type, as the results of a block count it.
abbrev pub result_cells : ValType → ℕ
result_cells ValType.i64 = 2
result_cells ValType.f64 = 2
result_cells _ = 1

unfoldable pub resolve_func_params_len_type_by_block : BlockType → FuncTypeRegistry → Option ℕ
unfolding resolve_func_type
resolve_func_params_len_type_by_block empty r = some 0
resolve_func_params_len_type_by_block (type _) r = some 0
resolve_func_params_len_type_by_block (func_type i) r =
    Option.map (λ t. length t.params) (resolve_func_type i r)

unfoldable pub resolve_func_results_len_type_by_block : BlockType → FuncTypeRegistry → Option ℕ
unfolding resolve_func_type
resolve_func_results_len_type_by_block empty r = some 0
resolve_func_results_len_type_by_block (type t) r = some (result_cells t)
resolve_func_results_len_type_by_block (func_type i) r =
    Option.map (λ t. length t.results) (resolve_func_type i r)
