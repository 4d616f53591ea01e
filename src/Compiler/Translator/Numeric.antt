-- ===== src/Compiler/Translator/Numeric.antt =====
-- src/compiler/translator.rs: the operators on integers, and the closures that they share.
use rwasm.Base.{ℕ, List, [], ◌∷◌, ◌++◌, ltb, if◌then◌else◌, length, reverse}
use rwasm.Types.Opcode.{Opcode}
use rwasm.Types.Value.{ValType}
use rwasm.Isa.Bitwise.{
  op_i64_clz, msh_i64_clz, op_i64_ctz, msh_i64_ctz, op_i64_popcnt, msh_i64_popcnt, op_i64_and,
  msh_i64_and, op_i64_or, msh_i64_or, op_i64_xor, msh_i64_xor,
}
use rwasm.Isa.Compare.{op_i64_eqz, msh_i64_eqz}
use rwasm.Isa.Conv.{
  op_i32_wrap_i64, op_i64_extend_i32_s, msh_i64_extend_i32_s, op_i64_extend_i32_u,
  msh_i64_extend_i32_u, op_i64_extend8_s, msh_i64_extend8_s, op_i64_extend16_s, msh_i64_extend16_s,
  op_i64_extend32_s, msh_i64_extend32_s,
}
use rwasm.Compiler.FuncTypeRegistry.{ValType-discrete}
use rwasm.Compiler.Snippets as Snippets
use rwasm.Compiler.Snippets.{Snippet, SnippetCall}
use rwasm.Compiler.Translator.{
  FuelCosts, Tr, ◌>>=◌, ◌>>◌, pure, panic, done, emit, push_stack_type, pop_stack_type, push_n,
  pop_n, push_type, pop_type, bump_fuel_consumption, translate_if_reachable,
}
use rwasm.Compiler.Translator.Locals.{when}

-- The operators, as the parser names them.
pub data I32Compare : Type 0 where
  eq ne lt_s lt_u gt_s gt_u le_s le_u : I32Compare
  ge_s ge_u : I32Compare

pub data I32Unary : Type 0 where
  clz ctz popcnt extend8_s extend16_s : I32Unary

pub data I32Binary : Type 0 where
  add sub mul div_s div_u rem_s rem_u and : I32Binary
  or xor shl shr_s shr_u rotl rotr : I32Binary

pub data I64Compare : Type 0 where
  eq ne lt_s lt_u gt_s gt_u le_s le_u : I64Compare
  ge_s ge_u : I64Compare

pub data I64Unary : Type 0 where
  clz ctz popcnt extend8_s extend16_s extend32_s : I64Unary

pub data I64Binary : Type 0 where
  add sub mul and or xor shl div_s div_u rem_s rem_u shr_s shr_u rotl rotr : I64Binary

pub data Conversion : Type 0 where
  i32_wrap_i64 i64_extend_i32_s i64_extend_i32_u : Conversion

-- The closures that `translate_binary` and its kin run where the code is reachable.
abbrev pub binary_body : List Opcode → ℕ → Tr (Unit {0})
binary_body code max_stack_height = do
  lhs_type ← pop_stack_type
  _ ← pop_stack_type
  push_stack_type lhs_type
  when (ltb 0 max_stack_height) (push_n max_stack_height)
  pop_type lhs_type
  pop_type lhs_type
  push_type lhs_type
  when (ltb 0 max_stack_height) (pop_n max_stack_height)
  emit code

abbrev pub binary_compare_body : List Opcode → ℕ → Tr (Unit {0})
binary_compare_body code max_stack_height = do
  lhs_type ← pop_stack_type
  rhs_type ← pop_stack_type
  push_stack_type ValType.i32
  when (ltb 0 max_stack_height) (push_n max_stack_height)
  pop_type lhs_type
  pop_type rhs_type
  push_type ValType.i32
  when (ltb 0 max_stack_height) (pop_n max_stack_height)
  emit code

abbrev pub unary_body : List Opcode → ℕ → Tr (Unit {0})
unary_body code max_stack_height = do
  lhs_type ← pop_stack_type
  push_stack_type lhs_type
  push_n max_stack_height
  pop_type lhs_type
  push_type lhs_type
  pop_n max_stack_height
  emit code

abbrev pub unary_compare_body : List Opcode → ℕ → Tr (Unit {0})
unary_compare_body code max_stack_height = do
  lhs_type ← pop_stack_type
  push_stack_type ValType.i32
  push_n max_stack_height
  pop_type lhs_type
  push_type ValType.i32
  pop_n max_stack_height
  emit code

abbrev pub conversion_body : ValType → ValType → List Opcode → ℕ → Tr (Unit {0})
conversion_body input_type output_type code max_stack_height = do
  when (ltb 0 max_stack_height) (push_n max_stack_height)
  _ ← pop_stack_type
  push_stack_type output_type
  pop_type input_type
  push_type output_type
  when (ltb 0 max_stack_height) (pop_n max_stack_height)
  emit code

abbrev pub wrap_body : Tr (Unit {0})
wrap_body = do _ ← pop_stack_type; push_stack_type ValType.i32; emit op_i32_wrap_i64; pop_n 1

-- The call is patched later: its target is `SNIPPET_FUNC_IDX_UNRESOLVED`.
abbrev pub unresolved : ℕ
unresolved = 4294967295

abbrev pub expected : {A : Type 0} → Dec A → Tr (Unit {0})
expected (yes _) t = done tt t
expected (no _) t = panic

-- The types of a call are popped one by one, and compared with the given ones.
unfoldable pub pop_stack_types : List ValType → Tr (Unit {0})
unfolding ValType-discrete
pop_stack_types [] = pure tt
pop_stack_types (ty ∷ tys) =
    pop_stack_type >>= λ popped. expected (ValType-discrete ty popped) >> pop_stack_types tys

unfoldable pub push_stack_types : List ValType → Tr (Unit {0})
push_stack_types [] = pure tt
push_stack_types (t ∷ ts) = push_stack_type t >>= λ _. push_stack_types ts

abbrev pub call_snippet : Snippet → Tr (Unit {0})
call_snippet snippet t = done tt (record t {
  instruction_set = t.instruction_set ++ (Opcode.call_internal unresolved ∷ []);
  snippet_calls =
      t.snippet_calls ++ (record { snippet = snippet; loc = length t.instruction_set } ∷ []);
})

abbrev pub snippet_body : Snippet → Tr (Unit {0})
snippet_body snippet = do
  pop_n (length (Snippets.expand_i64_to_i32 (Snippets.orig_params snippet)))
  push_n (length (Snippets.expand_i64_to_i32 (Snippets.orig_results snippet)))
  pop_stack_types (reverse (Snippets.orig_params snippet))
  push_stack_types (Snippets.orig_results snippet)
  call_snippet snippet

module _ (costs : FuelCosts) where
  unfoldable pub charged : Tr (Unit {0}) → Tr (Unit {0})
  unfolding bump_fuel_consumption
  charged body = translate_if_reachable (bump_fuel_consumption costs.base >> body)

  unfoldable pub translate_binary : List Opcode → ℕ → Tr (Unit {0})
  unfolding charged
  translate_binary code msh = charged (binary_body code msh)

  unfoldable pub translate_binary_compare : List Opcode → ℕ → Tr (Unit {0})
  unfolding charged
  translate_binary_compare code msh = charged (binary_compare_body code msh)

  unfoldable pub translate_unary : List Opcode → ℕ → Tr (Unit {0})
  unfolding charged
  translate_unary code msh = charged (unary_body code msh)

  unfoldable pub translate_unary_compare : List Opcode → ℕ → Tr (Unit {0})
  unfolding charged
  translate_unary_compare code msh = charged (unary_compare_body code msh)

  unfoldable pub translate_conversion : ValType → ValType → List Opcode → ℕ → Tr (Unit {0})
  unfolding charged
  translate_conversion input output code msh = charged (conversion_body input output code msh)

  -- Without snippets the sequence is emitted in place, as a binary operator.
  unfoldable pub translate_to_snippet_call : Snippet → Tr (Unit {0})
  unfolding charged translate_binary Snippets.emit Snippets.max_stack_height Snippets.orig_params
      Snippets.orig_results Snippets.expand_i64_to_i32 pop_stack_types push_stack_types
  translate_to_snippet_call snippet t =
      if t.with_code_snippets
      then charged (snippet_body snippet) t
      else translate_binary (Snippets.emit snippet) (Snippets.max_stack_height snippet) t

  unfoldable pub visit_i32_eqz : Tr (Unit {0})
  unfolding translate_unary_compare
  visit_i32_eqz = translate_unary_compare (Opcode.i32_eqz ∷ []) 0

  unfoldable pub visit_i64_eqz : Tr (Unit {0})
  unfolding translate_unary_compare
  visit_i64_eqz = translate_unary_compare op_i64_eqz msh_i64_eqz

  unfoldable pub visit_i32_compare : I32Compare → Tr (Unit {0})
  unfolding translate_binary_compare
  visit_i32_compare I32Compare.eq = translate_binary_compare (Opcode.i32_eq ∷ []) 0
  visit_i32_compare I32Compare.ne = translate_binary_compare (Opcode.i32_ne ∷ []) 0
  visit_i32_compare I32Compare.lt_s = translate_binary_compare (Opcode.i32_lt_s ∷ []) 0
  visit_i32_compare I32Compare.lt_u = translate_binary_compare (Opcode.i32_lt_u ∷ []) 0
  visit_i32_compare I32Compare.gt_s = translate_binary_compare (Opcode.i32_gt_s ∷ []) 0
  visit_i32_compare I32Compare.gt_u = translate_binary_compare (Opcode.i32_gt_u ∷ []) 0
  visit_i32_compare I32Compare.le_s = translate_binary_compare (Opcode.i32_le_s ∷ []) 0
  visit_i32_compare I32Compare.le_u = translate_binary_compare (Opcode.i32_le_u ∷ []) 0
  visit_i32_compare I32Compare.ge_s = translate_binary_compare (Opcode.i32_ge_s ∷ []) 0
  visit_i32_compare I32Compare.ge_u = translate_binary_compare (Opcode.i32_ge_u ∷ []) 0

  unfoldable pub visit_i64_compare : I64Compare → Tr (Unit {0})
  unfolding translate_to_snippet_call
  visit_i64_compare I64Compare.eq = translate_to_snippet_call Snippet.i64_eq
  visit_i64_compare I64Compare.ne = translate_to_snippet_call Snippet.i64_ne
  visit_i64_compare I64Compare.lt_s = translate_to_snippet_call Snippet.i64_lt_s
  visit_i64_compare I64Compare.lt_u = translate_to_snippet_call Snippet.i64_lt_u
  visit_i64_compare I64Compare.gt_s = translate_to_snippet_call Snippet.i64_gt_s
  visit_i64_compare I64Compare.gt_u = translate_to_snippet_call Snippet.i64_gt_u
  visit_i64_compare I64Compare.le_s = translate_to_snippet_call Snippet.i64_le_s
  visit_i64_compare I64Compare.le_u = translate_to_snippet_call Snippet.i64_le_u
  visit_i64_compare I64Compare.ge_s = translate_to_snippet_call Snippet.i64_ge_s
  visit_i64_compare I64Compare.ge_u = translate_to_snippet_call Snippet.i64_ge_u

  unfoldable pub visit_i32_unary : I32Unary → Tr (Unit {0})
  unfolding translate_unary
  visit_i32_unary I32Unary.clz = translate_unary (Opcode.i32_clz ∷ []) 0
  visit_i32_unary I32Unary.ctz = translate_unary (Opcode.i32_ctz ∷ []) 0
  visit_i32_unary I32Unary.popcnt = translate_unary (Opcode.i32_popcnt ∷ []) 0
  visit_i32_unary I32Unary.extend8_s = translate_unary (Opcode.i32_extend8_s ∷ []) 0
  visit_i32_unary I32Unary.extend16_s = translate_unary (Opcode.i32_extend16_s ∷ []) 0

  unfoldable pub visit_i32_binary : I32Binary → Tr (Unit {0})
  unfolding translate_binary
  visit_i32_binary I32Binary.add = translate_binary (Opcode.i32_add ∷ []) 0
  visit_i32_binary I32Binary.sub = translate_binary (Opcode.i32_sub ∷ []) 0
  visit_i32_binary I32Binary.mul = translate_binary (Opcode.i32_mul ∷ []) 0
  visit_i32_binary I32Binary.div_s = translate_binary (Opcode.i32_div_s ∷ []) 0
  visit_i32_binary I32Binary.div_u = translate_binary (Opcode.i32_div_u ∷ []) 0
  visit_i32_binary I32Binary.rem_s = translate_binary (Opcode.i32_rem_s ∷ []) 0
  visit_i32_binary I32Binary.rem_u = translate_binary (Opcode.i32_rem_u ∷ []) 0
  visit_i32_binary I32Binary.and = translate_binary (Opcode.i32_and ∷ []) 0
  visit_i32_binary I32Binary.or = translate_binary (Opcode.i32_or ∷ []) 0
  visit_i32_binary I32Binary.xor = translate_binary (Opcode.i32_xor ∷ []) 0
  visit_i32_binary I32Binary.shl = translate_binary (Opcode.i32_shl ∷ []) 0
  visit_i32_binary I32Binary.shr_s = translate_binary (Opcode.i32_shr_s ∷ []) 0
  visit_i32_binary I32Binary.shr_u = translate_binary (Opcode.i32_shr_u ∷ []) 0
  visit_i32_binary I32Binary.rotl = translate_binary (Opcode.i32_rotl ∷ []) 0
  visit_i32_binary I32Binary.rotr = translate_binary (Opcode.i32_rotr ∷ []) 0

  unfoldable pub visit_i64_unary : I64Unary → Tr (Unit {0})
  unfolding translate_unary
  visit_i64_unary I64Unary.clz = translate_unary op_i64_clz msh_i64_clz
  visit_i64_unary I64Unary.ctz = translate_unary op_i64_ctz msh_i64_ctz
  visit_i64_unary I64Unary.popcnt = translate_unary op_i64_popcnt msh_i64_popcnt
  visit_i64_unary I64Unary.extend8_s = translate_unary op_i64_extend8_s msh_i64_extend8_s
  visit_i64_unary I64Unary.extend16_s = translate_unary op_i64_extend16_s msh_i64_extend16_s
  visit_i64_unary I64Unary.extend32_s = translate_unary op_i64_extend32_s msh_i64_extend32_s

  unfoldable pub visit_i64_binary : I64Binary → Tr (Unit {0})
  unfolding translate_binary translate_to_snippet_call
  visit_i64_binary I64Binary.add = translate_to_snippet_call Snippet.i64_add
  visit_i64_binary I64Binary.sub = translate_to_snippet_call Snippet.i64_sub
  visit_i64_binary I64Binary.mul = translate_to_snippet_call Snippet.i64_mul
  visit_i64_binary I64Binary.and = translate_binary op_i64_and msh_i64_and
  visit_i64_binary I64Binary.or = translate_binary op_i64_or msh_i64_or
  visit_i64_binary I64Binary.xor = translate_binary op_i64_xor msh_i64_xor
  visit_i64_binary I64Binary.shl = translate_to_snippet_call Snippet.i64_shl
  visit_i64_binary I64Binary.div_s = translate_to_snippet_call Snippet.i64_div_s
  visit_i64_binary I64Binary.div_u = translate_to_snippet_call Snippet.i64_div_u
  visit_i64_binary I64Binary.rem_s = translate_to_snippet_call Snippet.i64_rem_s
  visit_i64_binary I64Binary.rem_u = translate_to_snippet_call Snippet.i64_rem_u
  visit_i64_binary I64Binary.shr_s = translate_to_snippet_call Snippet.i64_shr_s
  visit_i64_binary I64Binary.shr_u = translate_to_snippet_call Snippet.i64_shr_u
  visit_i64_binary I64Binary.rotl = translate_to_snippet_call Snippet.i64_rotl
  visit_i64_binary I64Binary.rotr = translate_to_snippet_call Snippet.i64_rotr

  unfoldable pub visit_conversion : Conversion → Tr (Unit {0})
  unfolding charged translate_conversion
  visit_conversion Conversion.i32_wrap_i64 = charged wrap_body
  visit_conversion Conversion.i64_extend_i32_s =
      translate_conversion ValType.i32 ValType.i64 op_i64_extend_i32_s msh_i64_extend_i32_s
  visit_conversion Conversion.i64_extend_i32_u =
      translate_conversion ValType.i32 ValType.i64 op_i64_extend_i32_u msh_i64_extend_i32_u
