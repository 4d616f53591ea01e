-- ===== src/Compiler/Operators/Emits.antt =====
-- What the translation of an operator does to its state, and what the emitted code does.
use rwasm.Base.{ℕ, suc, ◌+◌, ◌-◌, ◌≤◌, ◌≡◌, List, ◌∷◌, ◌++◌, length, max, arith}
use rwasm.Types.Opcode.{Opcode}
use rwasm.Types.Value.{Value, ValType}
use rwasm.Compiler.ValueStackHeight as Height
use rwasm.Compiler.ValueStackHeight.{ValueStackHeight}
use rwasm.Compiler.Translator.{Translator, Tr, done}
use rwasm.Compiler.Translator.Numeric.{
  binary_body, binary_compare_body, unary_body, unary_compare_body, conversion_body,
}
use rwasm.Compiler.Operators.Values.{cells, types, AllFit}
use rwasm.Compiler.Operators.Code.{Leads}

-- A state with the given stack of types and height.
abbrev pub at : Translator → List Opcode → List ValType → ℕ → ℕ → Translator
at t code tys h m = record t {
  instruction_set = code;
  stack_types = tys;
  stack_height = record { height = h; max_height = m };
}

module _ (t : Translator) (is code : List Opcode) (tys : List ValType) (h m n : ℕ) where
  pub binary_i32 :
      2 ≤ h
      → h ≤ m
      → binary_body code n (at t is (ValType.i32 ∷ ValType.i32 ∷ tys) h m)
        ≡ done tt (at t (is ++ code) (ValType.i32 ∷ tys) (h - 1) (max (h + n) m))
  unfolding Height.push_n Height.pop_n Height.push_type Height.pop_type
  binary_i32 p q = ground arith

  pub binary_i64 :
      4 ≤ h
      → h ≤ m
      → binary_body code n (at t is (ValType.i64 ∷ ValType.i64 ∷ tys) h m)
        ≡ done tt (at t (is ++ code) (ValType.i64 ∷ tys) (h - 2) (max (h + n) m))
  unfolding Height.push_n Height.pop_n Height.push_type Height.pop_type
  binary_i64 p q = ground arith

  pub compare_i32 :
      2 ≤ h
      → h ≤ m
      → binary_compare_body code n (at t is (ValType.i32 ∷ ValType.i32 ∷ tys) h m)
        ≡ done tt (at t (is ++ code) (ValType.i32 ∷ tys) (h - 1) (max (h + n) m))
  unfolding Height.push_n Height.pop_n Height.push_type Height.pop_type
  compare_i32 p q = ground arith

  pub unary_i32 :
      1 ≤ h
      → h ≤ m
      → unary_body code n (at t is (ValType.i32 ∷ tys) h m)
        ≡ done tt (at t (is ++ code) (ValType.i32 ∷ tys) h (max (h + n) m))
  unfolding Height.push_n Height.pop_n Height.push_type Height.pop_type
  unary_i32 p q = ground arith

  pub unary_i64 :
      2 ≤ h
      → h ≤ m
      → unary_body code n (at t is (ValType.i64 ∷ tys) h m)
        ≡ done tt (at t (is ++ code) (ValType.i64 ∷ tys) h (max (h + n) m))
  unfolding Height.push_n Height.pop_n Height.push_type Height.pop_type
  unary_i64 p q = ground arith

  pub unary_compare_i32 :
      1 ≤ h
      → h ≤ m
      → unary_compare_body code n (at t is (ValType.i32 ∷ tys) h m)
        ≡ done tt (at t (is ++ code) (ValType.i32 ∷ tys) h (max (h + n) m))
  unfolding Height.push_n Height.pop_n Height.push_type Height.pop_type
  unary_compare_i32 p q = ground arith

  pub unary_compare_i64 :
      2 ≤ h
      → h ≤ m
      → unary_compare_body code n (at t is (ValType.i64 ∷ tys) h m)
        ≡ done tt (at t (is ++ code) (ValType.i32 ∷ tys) (h - 1) (max (h + n) m))
  unfolding Height.push_n Height.pop_n Height.push_type Height.pop_type
  unary_compare_i64 p q = ground arith

  pub extend_i32 :
      1 ≤ h
      → h ≤ m
      → conversion_body ValType.i32 ValType.i64 code (suc n) (at t is (ValType.i32 ∷ tys) h m)
        ≡ done tt (at t (is ++ code) (ValType.i64 ∷ tys) (h + 1) (max (h + n + 2) m))
  unfolding Height.push_n Height.pop_n Height.push_type Height.pop_type
  extend_i32 p q = ground arith

-- The translator's picture of the stack: the types of the operands and of the locals, and the
-- height, which counts the cells but for the parameters.
pub record Agrees (t : Translator) (os ls : List Value) : Type 0 where
  pub typed : t.stack_types ≡ types (os ++ ls)
  pub high : t.stack_height.height + t.locals ≡ length (cells os) + length (cells ls)
  pub params : t.locals ≤ length (cells ls)
  pub operands_fit : AllFit os
  pub locals_fit : AllFit ls
  pub bounded : t.stack_height.height ≤ t.stack_height.max_height

-- The closure `body` succeeds and appends code; the code turns the values into the new ones with no
-- more room than the new maximum allows, and the picture is right again.
pub record Emits (body : Tr (Unit {0})) (t : Translator) (os ls os' ls' : List Value) : Type 0 where
  pub code : List Opcode
  pub height : ℕ
  pub most : ℕ
  pub runs : body t ≡ done tt (at t (t.instruction_set ++ code) (types (os' ++ ls')) height most)
  pub grown : t.stack_height.max_height ≤ most
  pub agrees : Agrees (at t (t.instruction_set ++ code) (types (os' ++ ls')) height most) os' ls'
  pub leads :
      Leads code (most - t.stack_height.height) (cells os ++ cells ls) (cells os' ++ cells ls')
