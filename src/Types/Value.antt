-- ===== src/Types/Value.antt =====
-- src/types/value.rs: the typed values of the host side. Integers and floats are bit patterns, a
-- reference is the number in it.
use rwasm.Base.{ℕ}

-- The types that the parser names (of the wasmparser package).
pub data ValType : Type 0 where
  i32 i64 f32 f64 v128 func_ref extern_ref : ValType

pub data Value : Type 0 where
  i32 i64 f32 f64 func_ref extern_ref : ℕ → Value

-- `Value::ty`.
unfoldable pub ty : Value → ValType
ty (Value.i32 _) = ValType.i32
ty (Value.i64 _) = ValType.i64
ty (Value.f32 _) = ValType.f32
ty (Value.f64 _) = ValType.f64
ty (Value.func_ref _) = ValType.func_ref
ty (Value.extern_ref _) = ValType.extern_ref
