-- ===== src/Vm/Store.antt =====
-- src/vm/store.rs: what an instance keeps between calls.
pub mod Fuel
pub mod DropFlags
use rwasm.Base.{
  ℕ, zero, suc, ◌+◌, ◌-◌, ◌^◌, Bool, true, false, Option, none, some, List, [], ◌∷◌, ltb, leb, ◌==◌,
  if◌then◌else◌, min, length,
}
use rwasm.Types.Trap.{Checked, ok, err, out_of_fuel}
use rwasm.Vm.Memory.{GlobalMemory}
use rwasm.Vm.TableEntity.{TableEntity}

-- A hash map is a function; a bit vector is a list, whose `resize` cuts off what is too long.
pub record Store (T : Type 0) : Type 0 where
  pub consumed_fuel : ℕ
  pub global_memory : GlobalMemory
  pub context : T
  pub last_signature : Option ℕ
  pub tables : ℕ → Option TableEntity
  pub global_variables : ℕ → Option ℕ
  pub empty_data_segments : List Bool
  pub empty_elem_segments : List Bool
  pub fuel_limit : Option ℕ

abbrev pub update {ℓ} : {A : Type ℓ} → (ℕ → Option A) → ℕ → A → ℕ → Option A
update f i v j = if i == j then some v else f j

-- `bits.resize(n, false)`
unfoldable pub resize : ℕ → List Bool → List Bool
resize zero bits = []
resize (suc n) [] = false ∷ resize n []
resize (suc n) (b ∷ bits) = b ∷ resize n bits

-- `bits.set(i, true)`
unfoldable pub set_bit : ℕ → List Bool → List Bool
set_bit i [] = []
set_bit zero (b ∷ bits) = true ∷ bits
set_bit (suc i) (b ∷ bits) = b ∷ set_bit i bits

-- `bits.get(i).unwrap_or(false)`
unfoldable pub bit_at : List Bool → ℕ → Bool
bit_at [] i = false
bit_at (b ∷ bits) zero = b
bit_at (b ∷ bits) (suc i) = bit_at bits i

-- A short bit vector is filled with `false`, a longer one replaced by an empty one.
falses : List Bool → List Bool
falses [] = []
falses (b ∷ bits) = false ∷ falses bits

unfoldable pub cleared : List Bool → List Bool
unfolding falses
cleared bits = if leb (length bits) 8 then falses bits else []

abbrev pub u64_max : ℕ
u64_max = 18446744073709551615

abbrev pub saturating_add : ℕ → ℕ → ℕ
saturating_add a b = min (a + b) u64_max

module _ {T : Type 0} where
  abbrev charge : Store T → ℕ → Option ℕ → Checked (Store T)
  charge s consumed none = ok (record s { consumed_fuel = consumed })
  charge s consumed (some limit) =
      if ltb limit consumed then err out_of_fuel else ok (record s { consumed_fuel = consumed })

  unfoldable pub try_consume_fuel : ℕ → Store T → Checked (Store T)
  try_consume_fuel delta s = charge s (saturating_add s.consumed_fuel delta) s.fuel_limit

  unfoldable pub remaining_fuel : Store T → Option ℕ
  remaining_fuel s = elim s.fuel_limit [ none ↦ none | some limit ↦ some (limit - s.consumed_fuel) ]

  unfoldable pub reset_fuel : ℕ → Store T → Store T
  reset_fuel new_fuel_limit s = record s { fuel_limit = some new_fuel_limit; consumed_fuel = 0 }

  unfoldable pub reset : Bool → Store T → Store T
  unfolding cleared
  reset keep_flags s = record s {
    consumed_fuel = 0;
    empty_data_segments =
        if keep_flags then s.empty_data_segments else cleared s.empty_data_segments;
    empty_elem_segments =
        if keep_flags then s.empty_elem_segments else cleared s.empty_elem_segments;
    last_signature = none;
  }

  unfoldable pub memory_size_bytes : Store T → ℕ
  memory_size_bytes s = length s.global_memory.shared_memory
