-- ===== src/Types/Opcode.antt =====
-- src/types/opcode.rs: the instructions and their codes. Immediate operands are `u32` or `u16`
-- numbers, but for a trap code and a branch offset. The `fpu` instructions stand in a type of
-- their own: without that feature an executor refuses each of them.
use rwasm.Base.{ℕ, ◌+◌}
use rwasm.Types.Trap.{TrapCode}
use rwasm.Types.BranchOffset.{BranchOffset}

pub data FpuOpcode : Type 0 where
  f32_load : ℕ → FpuOpcode
  f64_load : ℕ → FpuOpcode
  f32_store : ℕ → FpuOpcode
  f64_store : ℕ → FpuOpcode
  f32_eq : FpuOpcode
  f32_ne : FpuOpcode
  f32_lt : FpuOpcode
  f32_gt : FpuOpcode
  f32_le : FpuOpcode
  f32_ge : FpuOpcode
  f64_eq : FpuOpcode
  f64_ne : FpuOpcode
  f64_lt : FpuOpcode
  f64_gt : FpuOpcode
  f64_le : FpuOpcode
  f64_ge : FpuOpcode
  f32_abs : FpuOpcode
  f32_neg : FpuOpcode
  f32_ceil : FpuOpcode
  f32_floor : FpuOpcode
  f32_trunc : FpuOpcode
  f32_nearest : FpuOpcode
  f32_sqrt : FpuOpcode
  f32_add : FpuOpcode
  f32_sub : FpuOpcode
  f32_mul : FpuOpcode
  f32_div : FpuOpcode
  f32_min : FpuOpcode
  f32_max : FpuOpcode
  f32_copysign : FpuOpcode
  f64_abs : FpuOpcode
  f64_neg : FpuOpcode
  f64_ceil : FpuOpcode
  f64_floor : FpuOpcode
  f64_trunc : FpuOpcode
  f64_nearest : FpuOpcode
  f64_sqrt : FpuOpcode
  f64_add : FpuOpcode
  f64_sub : FpuOpcode
  f64_mul : FpuOpcode
  f64_div : FpuOpcode
  f64_min : FpuOpcode
  f64_max : FpuOpcode
  f64_copysign : FpuOpcode
  i32_trunc_f32_s : FpuOpcode
  i32_trunc_f32_u : FpuOpcode
  i32_trunc_f64_s : FpuOpcode
  i32_trunc_f64_u : FpuOpcode
  i64_trunc_f32_s : FpuOpcode
  i64_trunc_f32_u : FpuOpcode
  i64_trunc_f64_s : FpuOpcode
  i64_trunc_f64_u : FpuOpcode
  f32_convert_i32_s : FpuOpcode
  f32_convert_i32_u : FpuOpcode
  f32_convert_i64_s : FpuOpcode
  f32_convert_i64_u : FpuOpcode
  f32_demote_f64 : FpuOpcode
  f64_convert_i32_s : FpuOpcode
  f64_convert_i32_u : FpuOpcode
  f64_convert_i64_s : FpuOpcode
  f64_convert_i64_u : FpuOpcode
  f64_promote_f32 : FpuOpcode
  i32_trunc_sat_f32_s : FpuOpcode
  i32_trunc_sat_f32_u : FpuOpcode
  i32_trunc_sat_f64_s : FpuOpcode
  i32_trunc_sat_f64_u : FpuOpcode
  i64_trunc_sat_f32_s : FpuOpcode
  i64_trunc_sat_f32_u : FpuOpcode
  i64_trunc_sat_f64_s : FpuOpcode
  i64_trunc_sat_f64_u : FpuOpcode

pub data Opcode : Type 0 where
  unreachable : Opcode
  trap : TrapCode → Opcode
  local_get : ℕ → Opcode
  local_set : ℕ → Opcode
  local_tee : ℕ → Opcode
  br : BranchOffset → Opcode
  br_if_eqz : BranchOffset → Opcode
  br_if_nez : BranchOffset → Opcode
  br_table : ℕ → Opcode
  consume_fuel : ℕ → Opcode
  consume_fuel_stack : Opcode
  return : Opcode
  return_call_internal : ℕ → Opcode
  return_call : ℕ → Opcode
  return_call_indirect : ℕ → Opcode
  call_internal : ℕ → Opcode
  call : ℕ → Opcode
  call_indirect : ℕ → Opcode
  signature_check : ℕ → Opcode
  stack_check : ℕ → Opcode
  ref_func : ℕ → Opcode
  i32_const : ℕ → Opcode
  drop : Opcode
  select : Opcode
  global_get : ℕ → Opcode
  global_set : ℕ → Opcode
  i32_load : ℕ → Opcode
  i32_load8_s : ℕ → Opcode
  i32_load8_u : ℕ → Opcode
  i32_load16_s : ℕ → Opcode
  i32_load16_u : ℕ → Opcode
  i32_store : ℕ → Opcode
  i32_store8 : ℕ → Opcode
  i32_store16 : ℕ → Opcode
  memory_size : Opcode
  memory_grow : Opcode
  memory_fill : Opcode
  memory_copy : Opcode
  memory_init : ℕ → Opcode
  data_drop : ℕ → Opcode
  table_size : ℕ → Opcode
  table_grow : ℕ → Opcode
  table_fill : ℕ → Opcode
  table_get : ℕ → Opcode
  table_set : ℕ → Opcode
  table_copy : ℕ → ℕ → Opcode
  table_init : ℕ → Opcode
  elem_drop : ℕ → Opcode
  i32_eqz : Opcode
  i32_eq : Opcode
  i32_ne : Opcode
  i32_lt_s : Opcode
  i32_lt_u : Opcode
  i32_gt_s : Opcode
  i32_gt_u : Opcode
  i32_le_s : Opcode
  i32_le_u : Opcode
  i32_ge_s : Opcode
  i32_ge_u : Opcode
  i32_clz : Opcode
  i32_ctz : Opcode
  i32_popcnt : Opcode
  i32_add : Opcode
  i32_sub : Opcode
  i32_mul : Opcode
  i32_div_s : Opcode
  i32_div_u : Opcode
  i32_rem_s : Opcode
  i32_rem_u : Opcode
  i32_and : Opcode
  i32_or : Opcode
  i32_xor : Opcode
  i32_shl : Opcode
  i32_shr_s : Opcode
  i32_shr_u : Opcode
  i32_rotl : Opcode
  i32_rotr : Opcode
  i32_wrap_i64 : Opcode
  i32_extend8_s : Opcode
  i32_extend16_s : Opcode
  i32_mul64 : Opcode
  i32_add64 : Opcode
  bulk_const : ℕ → Opcode
  bulk_drop : ℕ → Opcode
  fpu : FpuOpcode → Opcode

abbrev fpu_opcode_offset : ℕ
fpu_opcode_offset = 1000

unfoldable pub fpu_code : FpuOpcode → ℕ
fpu_code (f32_load _) = 0
fpu_code (f64_load _) = 1
fpu_code (f32_store _) = 2
fpu_code (f64_store _) = 3
fpu_code f32_eq = 4
fpu_code f32_ne = 5
fpu_code f32_lt = 6
fpu_code f32_gt = 7
fpu_code f32_le = 8
fpu_code f32_ge = 9
fpu_code f64_eq = 10
fpu_code f64_ne = 11
fpu_code f64_lt = 12
fpu_code f64_gt = 13
fpu_code f64_le = 14
fpu_code f64_ge = 15
fpu_code f32_abs = 16
fpu_code f32_neg = 17
fpu_code f32_ceil = 18
fpu_code f32_floor = 19
fpu_code f32_trunc = 20
fpu_code f32_nearest = 21
fpu_code f32_sqrt = 22
fpu_code f32_add = 23
fpu_code f32_sub = 24
fpu_code f32_mul = 25
fpu_code f32_div = 26
fpu_code f32_min = 27
fpu_code f32_max = 28
fpu_code f32_copysign = 29
fpu_code f64_abs = 30
fpu_code f64_neg = 31
fpu_code f64_ceil = 32
fpu_code f64_floor = 33
fpu_code f64_trunc = 34
fpu_code f64_nearest = 35
fpu_code f64_sqrt = 36
fpu_code f64_add = 37
fpu_code f64_sub = 38
fpu_code f64_mul = 39
fpu_code f64_div = 40
fpu_code f64_min = 41
fpu_code f64_max = 42
fpu_code f64_copysign = 43
fpu_code i32_trunc_f32_s = 44
fpu_code i32_trunc_f32_u = 45
fpu_code i32_trunc_f64_s = 46
fpu_code i32_trunc_f64_u = 47
fpu_code i64_trunc_f32_s = 48
fpu_code i64_trunc_f32_u = 49
fpu_code i64_trunc_f64_s = 50
fpu_code i64_trunc_f64_u = 51
fpu_code f32_convert_i32_s = 52
fpu_code f32_convert_i32_u = 53
fpu_code f32_convert_i64_s = 54
fpu_code f32_convert_i64_u = 55
fpu_code f32_demote_f64 = 56
fpu_code f64_convert_i32_s = 57
fpu_code f64_convert_i32_u = 58
fpu_code f64_convert_i64_s = 59
fpu_code f64_convert_i64_u = 60
fpu_code f64_promote_f32 = 61
fpu_code i32_trunc_sat_f32_s = 62
fpu_code i32_trunc_sat_f32_u = 63
fpu_code i32_trunc_sat_f64_s = 64
fpu_code i32_trunc_sat_f64_u = 65
fpu_code i64_trunc_sat_f32_s = 66
fpu_code i64_trunc_sat_f32_u = 67
fpu_code i64_trunc_sat_f64_s = 68
fpu_code i64_trunc_sat_f64_u = 69

-- `Opcode::code`.
unfoldable pub code : Opcode → ℕ
unfolding fpu_code
code unreachable = 0
code (trap _) = 1
code (local_get _) = 2
code (local_set _) = 3
code (local_tee _) = 4
code (br _) = 5
code (br_if_eqz _) = 6
code (br_if_nez _) = 7
code (br_table _) = 8
code (consume_fuel _) = 9
code consume_fuel_stack = 10
code return = 11
code (return_call_internal _) = 12
code (return_call _) = 13
code (return_call_indirect _) = 14
code (call_internal _) = 15
code (call _) = 16
code (call_indirect _) = 17
code (signature_check _) = 18
code (stack_check _) = 19
code (ref_func _) = 20
code (i32_const _) = 21
code drop = 22
code select = 23
code (global_get _) = 24
code (global_set _) = 25
code (i32_load _) = 26
code (i32_load8_s _) = 27
code (i32_load8_u _) = 28
code (i32_load16_s _) = 29
code (i32_load16_u _) = 30
code (i32_store _) = 31
code (i32_store8 _) = 32
code (i32_store16 _) = 33
code memory_size = 34
code memory_grow = 35
code memory_fill = 36
code memory_copy = 37
code (memory_init _) = 38
code (data_drop _) = 39
code (table_size _) = 40
code (table_grow _) = 41
code (table_fill _) = 42
code (table_get _) = 43
code (table_set _) = 44
code (table_copy _ _) = 45
code (table_init _) = 46
code (elem_drop _) = 47
code i32_eqz = 48
code i32_eq = 49
code i32_ne = 50
code i32_lt_s = 51
code i32_lt_u = 52
code i32_gt_s = 53
code i32_gt_u = 54
code i32_le_s = 55
code i32_le_u = 56
code i32_ge_s = 57
code i32_ge_u = 58
code i32_clz = 59
code i32_ctz = 60
code i32_popcnt = 61
code i32_add = 62
code i32_sub = 63
code i32_mul = 64
code i32_div_s = 65
code i32_div_u = 66
code i32_rem_s = 67
code i32_rem_u = 68
code i32_and = 69
code i32_or = 70
code i32_xor = 71
code i32_shl = 72
code i32_shr_s = 73
code i32_shr_u = 74
code i32_rotl = 75
code i32_rotr = 76
code i32_wrap_i64 = 77
code i32_extend8_s = 78
code i32_extend16_s = 79
code i32_mul64 = 80
code i32_add64 = 81
code (bulk_const _) = 82
code (bulk_drop _) = 83
code (fpu f) = fpu_opcode_offset + fpu_code f
