-- ===== src/Types/Bytes/RoundTrip.antt =====
-- The contract of a store and of a load after it, from the lemmas on the access itself.
use native.Mathlib.Nat
use rwasm.Base.{
  ℕ, ◌+◌, ◌*◌, ◌%◌, ◌^◌, ◌<◌, ◌≤◌, ◌≡◌, sym, ap, ◌∙◌, ◌⊎◌, inl, inr, List, leb, if◌then◌else◌,
  length, take, drop, get_elem?, Bool-cases, false, leb→le, arith,
}
use rwasm.Types.Trap.{ok, err, memory_out_of_bounds}
use rwasm.Types.Bytes.{overwrite, from_le_bytes, to_le_bytes, load_extend, store_wrap}
use rwasm.Types.Bytes.Access.{
  length-to_le_bytes, from_le_bytes-to_le_bytes, length-overwrite, overwrite_inside,
  get_elem?-overwrite_below, get_elem?-overwrite_above, store_wrap_inside, store_wrap_outside,
  load_extend_inside, load_extend_outside,
}

leb-above : (a b : ℕ) → leb a b ≡ false → b < a
leb-above a b h = ground arith

module _ (n : ℕ) (memory : List ℕ) (address offset : ℕ) (some_bytes : 0 < n)
    (small : length memory ≤ 2 ^ 32) where
  -- A store writes the lowest bytes of the value, the lowest one first, if all of them lie inside the
  -- memory, and traps otherwise: the address and the offset are added without wrapping around.
  pub store_wrap_outcome :
      (value : ℕ)
      → store_wrap n memory address offset value ≡ (
          if leb (offset + address + n) (length memory)
          then ok (overwrite memory (offset + address) (to_le_bytes n (value % 2 ^ (8 * n))))
          else err memory_out_of_bounds)
  store_wrap_outcome value = elim (Bool-cases (leb (offset + address + n) (length memory))) [
    | inl e ↦ rw e (
        store_wrap_inside n memory address offset small value some_bytes
          (leb→le (offset + address + n) (length memory) e))
    | inr e ↦ rw e (
        store_wrap_outside n memory address offset small value some_bytes
          (leb-above (offset + address + n) (length memory) e))
  ]

  -- A load reads the bytes at the sum of the address and the offset, the lowest one first, if all of
  -- them lie inside the memory, and traps otherwise.
  pub load_extend_outcome :
      (extend : ℕ → ℕ)
      → load_extend n extend memory address offset ≡ (
          if leb (offset + address + n) (length memory)
          then ok (extend (from_le_bytes (take n (drop (offset + address) memory))))
          else err memory_out_of_bounds)
  load_extend_outcome extend = elim (Bool-cases (leb (offset + address + n) (length memory))) [
    | inl e ↦ rw e (
        load_extend_inside n memory address offset small extend some_bytes
          (leb→le (offset + address + n) (length memory) e))
    | inr e ↦ rw e (
        load_extend_outside n memory address offset small extend some_bytes
          (leb-above (offset + address + n) (length memory) e))
  ]

  stored_inside :
      (value : ℕ) {memory' : List ℕ}
      → store_wrap n memory address offset value ≡ ok memory'
      → (offset + address + n ≤ length memory)
        × (overwrite memory (offset + address) (to_le_bytes n (value % 2 ^ (8 * n))) ≡ memory')
  stored_inside value h = elim (Bool-cases (leb (offset + address + n) (length memory))) [
    | inl e ↦
        let q = leb→le (offset + address + n) (length memory) e in
        let r = store_wrap_inside n memory address offset small value some_bytes q in (q, cc)
    | inr e ↦
        let r =
          store_wrap_outside n memory address offset small value some_bytes
            (leb-above (offset + address + n) (length memory) e) in
        cc
  ]

-- After a store that does not trap, a load from the same place finds the value, wrapped to the
-- width of the store; the memory has the length it had, and every byte outside the range is as it was.
pub load_extend-store_wrap :
    (n : ℕ) (memory : List ℕ) (address offset value : ℕ) (extend : ℕ → ℕ) {memory' : List ℕ}
    → 0 < n
    → length memory ≤ 2 ^ 32
    → store_wrap n memory address offset value ≡ ok memory'
    → (load_extend n extend memory' address offset ≡ ok (extend (value % 2 ^ (8 * n))))
      × (length memory' ≡ length memory)
      × ((i : ℕ)
          → (i < offset + address) ⊎ (offset + address + n ≤ i)
          → get_elem? memory' i ≡ get_elem? memory i)
load_extend-store_wrap n memory address offset value extend {memory'} p small h =
    let (q, e) = stored_inside n memory address offset p small value h in
    let new = to_le_bytes n (value % 2 ^ (8 * n)) in
    let k = length-to_le_bytes n (value % 2 ^ (8 * n)) in
    let fits : offset + address + length new ≤ length memory = omega (arith, k) in
    let l : length memory' ≡ length memory =
      sym (ap length e) ∙ length-overwrite memory (offset + address) new fits in
    let start = offset + address in
    let back : take n (drop start memory') ≡ new =
      sym (ap (λ ys. take n (drop start ys)) e)
      ∙ sym (ap (λ t. take t (drop start (overwrite memory start new))) k)
      ∙ overwrite_inside memory start new fits in
    let loaded = load_extend_inside n memory' address offset (omega arith) extend p (omega arith) in
    let wrap : value % 2 ^ (8 * n) % 2 ^ (8 * n) ≡ value % 2 ^ (8 * n) =
      Nat.mod-mod value (2 ^ (8 * n)) in
    (
      loaded
          ∙ ap (λ bytes. ok (extend (from_le_bytes bytes))) back
          ∙ ap (λ v. ok (extend v)) (from_le_bytes-to_le_bytes n (value % 2 ^ (8 * n)) ∙ wrap),
      l,
      λ i. elim [
        | inl below ↦
            sym (ap (λ ys. get_elem? ys i) e)
            ∙ get_elem?-overwrite_below memory start new fits i below
        | inr above ↦
            sym (ap (λ ys. get_elem? ys i) e)
            ∙ get_elem?-overwrite_above memory start new fits i (omega (arith, k))
      ],
    )
