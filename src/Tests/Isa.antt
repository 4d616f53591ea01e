-- ===== src/Tests/Isa.antt =====
-- The sequences of src/isa on concrete operands.
use rwasm.Base.{
  ℕ, ◌+◌, ◌-◌, ◌*◌, ◌/◌, ◌%◌, ◌^◌, ◌≡◌, refl, [], ◌∷◌, ◌++◌, length, bit_and, bit_or, bit_xor, not,
  ltb, leb, ◌==◌, arith,
}
use rwasm.Base.Ints.{ltb_ℤ, leb_ℤ}
use rwasm.Types.Opcode.{Opcode}
use rwasm.Types.UntypedValue.{of_bool, leading_zeros, trailing_zeros, count_ones}
use rwasm.Vm.Monad.{RwasmModule}
use rwasm.Vm.Executor.Run.{run_the_loop}
use rwasm.Isa.Words.{Computes, cells64, stack, spare, sign_extend, to_i64}
use rwasm.Isa.AddSub.{op_i64_add, msh_i64_add, op_i64_sub, msh_i64_sub}
use rwasm.Isa.Mul.{op_i64_mul, msh_i64_mul}
use rwasm.Isa.Bitwise.{
  op_i64_and, op_i64_or, op_i64_xor, op_i64_clz, op_i64_ctz, op_i64_popcnt, msh_i64_and, msh_i64_or,
  msh_i64_xor, msh_i64_clz, msh_i64_ctz, msh_i64_popcnt,
}
use rwasm.Isa.Compare.{
  op_i64_eqz, op_i64_eq, op_i64_ne, op_i64_lt_s, op_i64_lt_u, op_i64_gt_s, op_i64_gt_u, op_i64_le_s,
  op_i64_le_u, op_i64_ge_s, op_i64_ge_u, msh_i64_eqz, msh_i64_eq, msh_i64_ne, msh_i64_lt_s,
  msh_i64_lt_u, msh_i64_gt_s, msh_i64_gt_u, msh_i64_le_s, msh_i64_le_u, msh_i64_ge_s, msh_i64_ge_u,
}
use rwasm.Isa.Conv.{
  op_i64_extend_i32_s, op_i64_extend_i32_u, op_i64_extend8_s, op_i64_extend16_s, op_i64_extend32_s,
  msh_i64_extend_i32_s, msh_i64_extend_i32_u, msh_i64_extend8_s, msh_i64_extend16_s,
  msh_i64_extend32_s,
}
use rwasm.Isa.Bitwise.Shl.{op_i64_shl, msh_i64_shl}
use rwasm.Isa.Shifts.{op_i64_shl_lem}
use rwasm.Isa.Bitwise.ShrU.{op_i64_shr_u, msh_i64_shr_u}
use rwasm.Isa.RightShift.{op_i64_shr_u_lem}
use rwasm.Isa.Placed.{run_the_loop-Computes}
use rwasm.Isa.Arithmetic.{op_i64_add_lem, op_i64_sub_lem, op_i64_mul_lem}
use rwasm.Isa.Logic.{logic_lem}
use rwasm.Isa.Order.{orders_lem, equality_lem}
use rwasm.Isa.Conversions.{extensions_lem, widening_lem}
use rwasm.Isa.Counts.{op_i64_clz_lem, op_i64_ctz_lem, op_i64_popcnt_lem}
use rwasm.Tests.Machine.{host, store}

abbrev x : ℕ
x = 0x8000_0000_ffff_ffff

abbrev y : ℕ
y = 0x7fff_ffff_0000_0003

op_i64_add_example :
    Computes op_i64_add msh_i64_add (cells64 y ++ cells64 x) (cells64 ((x + y) % 2 ^ 64))
op_i64_add_example = op_i64_add_lem x y (omega arith) (omega arith)

op_i64_sub_example :
    Computes op_i64_sub msh_i64_sub (cells64 y ++ cells64 x) (cells64 ((x + 2 ^ 64 - y) % 2 ^ 64))
op_i64_sub_example = op_i64_sub_lem x y (omega arith) (omega arith)

op_i64_mul_example :
    Computes op_i64_mul msh_i64_mul (cells64 y ++ cells64 x) (cells64 (x * y % 2 ^ 64))
op_i64_mul_example = op_i64_mul_lem x y (omega arith) (omega arith)

logic_example :
    Computes op_i64_and msh_i64_and (cells64 y ++ cells64 x) (cells64 (bit_and x y))
    × Computes op_i64_or msh_i64_or (cells64 y ++ cells64 x) (cells64 (bit_or x y))
    × Computes op_i64_xor msh_i64_xor (cells64 y ++ cells64 x) (cells64 (bit_xor x y))
logic_example = logic_lem x y (omega arith) (omega arith)

equality_example :
    Computes op_i64_eq msh_i64_eq (cells64 y ++ cells64 x) (of_bool (x == y) ∷ [])
    × Computes op_i64_ne msh_i64_ne (cells64 y ++ cells64 x) (of_bool (not (x == y)) ∷ [])
    × Computes op_i64_eqz msh_i64_eqz (cells64 x) (of_bool (x == 0) ∷ [])
equality_example = equality_lem x y (omega arith) (omega arith)

extensions_example :
    Computes op_i64_extend8_s msh_i64_extend8_s (cells64 x) (cells64 (sign_extend 8 x))
    × Computes op_i64_extend16_s msh_i64_extend16_s (cells64 x) (cells64 (sign_extend 16 x))
    × Computes op_i64_extend32_s msh_i64_extend32_s (cells64 x) (cells64 (sign_extend 32 x))
extensions_example = extensions_lem x (omega arith)

widening_example :
    Computes op_i64_extend_i32_s msh_i64_extend_i32_s
      (0xffff_fff0 ∷ [])
      (cells64 (sign_extend 32 0xffff_fff0))
    × Computes op_i64_extend_i32_u msh_i64_extend_i32_u (0xffff_fff0 ∷ []) (cells64 (0xffff_fff0))
widening_example = widening_lem 0xffff_fff0 (omega arith)

op_i64_shl_example :
    Computes op_i64_shl msh_i64_shl (cells64 y ++ cells64 x) (cells64 (x * 2 ^ (y % 64) % 2 ^ 64))
op_i64_shl_example = op_i64_shl_lem x y (omega arith) (omega arith)

op_i64_shr_u_example :
    Computes op_i64_shr_u msh_i64_shr_u (cells64 y ++ cells64 x) (cells64 (x / 2 ^ (y % 64)))
op_i64_shr_u_example = op_i64_shr_u_lem x y (omega arith) (omega arith)

op_i64_clz_example : Computes op_i64_clz msh_i64_clz (cells64 x) (cells64 (leading_zeros 64 x))
op_i64_clz_example = op_i64_clz_lem x (omega arith)

op_i64_ctz_example : Computes op_i64_ctz msh_i64_ctz (cells64 x) (cells64 (trailing_zeros 64 x))
op_i64_ctz_example = op_i64_ctz_lem x (omega arith)

op_i64_popcnt_example :
    Computes op_i64_popcnt msh_i64_popcnt (cells64 x) (cells64 (count_ones 64 x))
op_i64_popcnt_example = op_i64_popcnt_lem x (omega arith)

orders_example :
    Computes op_i64_lt_s msh_i64_lt_s
      (cells64 y ++ cells64 x)
      (of_bool (ltb_ℤ (to_i64 x) (to_i64 y)) ∷ [])
    × Computes op_i64_lt_u msh_i64_lt_u (cells64 y ++ cells64 x) (of_bool (ltb x y) ∷ [])
    × Computes op_i64_gt_s msh_i64_gt_s
        (cells64 y ++ cells64 x)
        (of_bool (ltb_ℤ (to_i64 y) (to_i64 x)) ∷ [])
    × Computes op_i64_gt_u msh_i64_gt_u (cells64 y ++ cells64 x) (of_bool (ltb y x) ∷ [])
    × Computes op_i64_le_s msh_i64_le_s
        (cells64 y ++ cells64 x)
        (of_bool (leb_ℤ (to_i64 x) (to_i64 y)) ∷ [])
    × Computes op_i64_le_u msh_i64_le_u (cells64 y ++ cells64 x) (of_bool (leb x y) ∷ [])
    × Computes op_i64_ge_s msh_i64_ge_s
        (cells64 y ++ cells64 x)
        (of_bool (leb_ℤ (to_i64 y) (to_i64 x)) ∷ [])
    × Computes op_i64_ge_u msh_i64_ge_u (cells64 y ++ cells64 x) (of_bool (leb y x) ∷ [])
orders_example = orders_lem x y (omega arith) (omega arith)

-- A program that adds two numbers and returns.
abbrev program : RwasmModule
program = record {
  code_section = (Opcode.stack_check 8 ∷ []) ++ (op_i64_add ++ (Opcode.return ∷ []));
  data_section = [];
  elem_section = [];
}

run_the_loop-Computes_example :
    (k : ℕ) × ((rounds : ℕ)
      → run_the_loop host program (k + rounds) (record {
        value_stack = stack ((cells64 y ++ cells64 x) ++ (9 ∷ [])) (spare msh_i64_add 3) 64;
        call_stack = 40 ∷ [];
        ip = 1 + 0;
        store = store;
      })
        ≡ run_the_loop host program rounds (record {
          value_stack = stack (cells64 ((x + y) % 2 ^ 64) ++ (9 ∷ [])) (spare 6 3) 64;
          call_stack = 40 ∷ [];
          ip = 1 + length op_i64_add;
          store = store;
        }))
run_the_loop-Computes_example =
    run_the_loop-Computes host program (40 ∷ []) store (Opcode.stack_check 8 ∷ []) op_i64_add
      (Opcode.return ∷ []) (op_i64_add_lem x y (omega arith) (omega arith)) refl (9 ∷ []) 3 64
