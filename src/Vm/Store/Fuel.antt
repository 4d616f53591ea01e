-- ===== src/Vm/Store/Fuel.antt =====
-- Fuel accounting of src/vm/store.rs.
use rwasm.Base.{ℕ, ◌+◌, ◌<◌, ◌≤◌, ◌≡◌, some, none, leb, if◌then◌else◌, arith}
use rwasm.Types.Trap.{ok, err, out_of_fuel}
use rwasm.Vm.Store.{Store, try_consume_fuel, u64_max}

-- No more fuel is consumed than the limit allows, and the limit is a 64-bit number.
pub Funded : {T : Type 0} → Store T → Type 0
Funded s = elim s.fuel_limit [
  | none ↦ Unit {0}
  | some limit ↦ (s.consumed_fuel ≤ limit) × (limit ≤ u64_max)
]

module _ {T : Type 0} (s : Store T) (limit : ℕ) (limited : s.fuel_limit ≡ some limit)
    (small : limit < u64_max) where
  -- A charge is refused exactly when it goes past the limit; one that is granted adds up exactly.
  pub try_consume_fuel_outcome :
      (delta : ℕ)
      → try_consume_fuel delta s ≡ (
          if leb (s.consumed_fuel + delta) limit
          then ok (record s { consumed_fuel = s.consumed_fuel + delta })
          else err out_of_fuel)
  unfolding try_consume_fuel
  try_consume_fuel_outcome delta = rw limited (ground arith)
