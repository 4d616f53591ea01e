-- ===== src/Isa/Guard.antt =====
-- The guard of `memory.init` in src/isa/memory.rs: where it goes to for which operands.
use mathlib.Core.Path.{subst}
use rwasm.Base.{
  ℕ, suc, ◌+◌, ◌%◌, ◌^◌, ◌<◌, ◌≤◌, ◌≡◌, refl, sym, ap, inl, inr, List, [], ◌∷◌, ◌++◌, true, false,
  some, ltb, get_elem?, length, arith, Bool-cases,
}
use rwasm.Base.Ints.{ltb_ℤ}
use rwasm.Types.Opcode.{Opcode}
use rwasm.Types.Trap.{TrapCode}
use rwasm.Types.UntypedValue as U
use rwasm.Types.UntypedValue.{to_i32}
use rwasm.Isa.Block.{local_run, Runs}
use rwasm.Isa.Words.{stack}
use rwasm.Isa.Memory.{op_memory_init_checked, guard_length, rewrite_source}

abbrev moved : ℕ → ℕ → List Opcode
unfolding guard_length rewrite_source
moved length offset = guard_length TrapCode.memory_out_of_bounds length ++ rewrite_source offset

abbrev unmoved : ℕ → List Opcode
unfolding guard_length
unmoved length = guard_length TrapCode.memory_out_of_bounds length

module _ (size offset segment n s d r m : ℕ) (rest : List ℕ) where
  abbrev pub operands : ℕ → List ℕ
  operands source = n ∷ source ∷ d ∷ rest

  abbrev Ends : List Opcode → ℕ → ℕ → Type 0
  Ends code pc source =
      Runs code 0 (stack (operands s) (suc (suc r)) m) pc (stack (operands source) (suc (suc r)) m)

  moved_stops :
      ltb_ℤ (to_i32 size) (to_i32 ((n + s) % 2 ^ 32)) ≡ true
      → Ends (moved size offset ++ (Opcode.memory_init segment ∷ [])) 6 s
  unfolding local_run guard_length rewrite_source U.i32_gt_s U.i32_add
  moved_stops e = record { rounds = 6; runs = rw e refl }

  moved_passes :
      ltb_ℤ (to_i32 size) (to_i32 ((n + s) % 2 ^ 32)) ≡ false
      → Ends (moved size offset ++ (Opcode.memory_init segment ∷ [])) 11 ((offset + s) % 2 ^ 32)
  unfolding local_run guard_length rewrite_source U.i32_gt_s U.i32_add
  moved_passes e = record { rounds = 10; runs = rw e refl }

  unmoved_stops :
      ltb_ℤ (to_i32 size) (to_i32 ((n + s) % 2 ^ 32)) ≡ true
      → Ends (unmoved size ++ (Opcode.memory_init segment ∷ [])) 6 s
  unfolding local_run guard_length U.i32_gt_s U.i32_add
  unmoved_stops e = record { rounds = 6; runs = rw e refl }

  unmoved_passes :
      ltb_ℤ (to_i32 size) (to_i32 ((n + s) % 2 ^ 32)) ≡ false
      → Ends (unmoved size ++ (Opcode.memory_init segment ∷ [])) 7 s
  unfolding local_run guard_length U.i32_gt_s U.i32_add
  unmoved_passes e = record { rounds = 6; runs = rw e refl }

  module _ (bytes_per_fuel bytes_per_fuel_log2 : ℕ) (p : 0 < size) (q : size < 2 ^ 31)
      (fits : offset + size < 2 ^ 32) where
    abbrev pub init : List Opcode
    init =
        op_memory_init_checked bytes_per_fuel bytes_per_fuel_log2 (some offset) (some size) segment
          false

    some_size : ltb 0 size ≡ true
    some_size = ground arith

    moved_code : ltb 0 offset ≡ true → init ≡ moved size offset ++ (Opcode.memory_init segment ∷ [])
    unfolding op_memory_init_checked
    moved_code o = rw (some_size, o) refl

    unmoved_code : ltb 0 offset ≡ false → init ≡ unmoved size ++ (Opcode.memory_init segment ∷ [])
    unfolding op_memory_init_checked
    unmoved_code o = rw (some_size, o) refl

    -- The code comes to the trap, with the operands as they were.
    pub guard_stops :
        size < n + s
        → n + s < 2 ^ 31
        → (get_elem? init 6 ≡ some (Opcode.trap TrapCode.memory_out_of_bounds)) × Ends init 6 s
    unfolding guard_length rewrite_source
    guard_stops above small =
        let e : ltb_ℤ (to_i32 size) (to_i32 ((n + s) % 2 ^ 32)) ≡ true = ground arith in
        elim (Bool-cases (ltb 0 offset)) [
          | inl o ↦ (
            ap (λ code. get_elem? code 6) (moved_code o),
            subst (λ code. Ends code 6 s) (sym (moved_code o)) (moved_stops e),
          )
          | inr o ↦ (
            ap (λ code. get_elem? code 6) (unmoved_code o),
            subst (λ code. Ends code 6 s) (sym (unmoved_code o)) (unmoved_stops e),
          )
        ]

    -- The code comes to `memory.init`, with a source inside the data section.
    pub guard_passes :
        n + s ≤ size
        → (pc : ℕ) × (get_elem? init pc ≡ some (Opcode.memory_init segment))
          × (suc pc ≡ length init)
          × Ends init pc (offset + s)
    unfolding guard_length rewrite_source
    guard_passes inside =
        let e : ltb_ℤ (to_i32 size) (to_i32 ((n + s) % 2 ^ 32)) ≡ false = ground arith in
        elim (Bool-cases (ltb 0 offset)) [
          | inl o ↦ (
            11,
            ap (λ code. get_elem? code 11) (moved_code o),
            ap length (sym (moved_code o)),
            subst (λ code. Ends code 11 (offset + s)) (sym (moved_code o))
                (subst
                  (λ source.
                    Ends (moved size offset ++ (Opcode.memory_init segment ∷ [])) 11 source)
                  (let w : (offset + s) % 2 ^ 32 ≡ offset + s = omega arith in w) (moved_passes e)),
          )
          | inr o ↦ (
            7,
            ap (λ code. get_elem? code 7) (unmoved_code o),
            ap length (sym (unmoved_code o)),
            subst (λ code. Ends code 7 (offset + s)) (sym (unmoved_code o))
                (subst (λ source. Ends (unmoved size ++ (Opcode.memory_init segment ∷ [])) 7 source)
                  (let w : s ≡ offset + s = ground arith in w) (unmoved_passes e)),
          )
        ]
