-- ===== src/Vm/Executor/DropFlags.antt =====
-- What `data.drop` and `elem.drop` of src/vm/executor/memory.rs and src/vm/executor/table.rs do to the
-- flags of all segments.
use rwasm.Base.{ℕ, ◌+◌, ◌≡◌, refl, ltb, ◌==◌, if◌then◌else◌}
use rwasm.Vm.Store.{bit_at}
use rwasm.Vm.Store.DropFlags.{flags_at}
use rwasm.Vm.Monad.{Executor, done}
use rwasm.Vm.Executor.Memory.{visit_data_drop}
use rwasm.Vm.Executor.Table.{visit_element_drop}

module _ {T : Type 0} (i : ℕ) (x : Executor T) where
  -- Dropping data segment `i`, or element segment `i`, always succeeds. Of the flags for segments of its
  -- kind, those below `i` are as they were, that of `i` is set, and every one above is clear, whether or
  -- not that segment had been dropped. Besides, only the instruction pointer moves, by one.
  pub drop_flags :
      (y : Executor T) × (z : Executor T) × (visit_data_drop i x ≡ done tt y)
      × (visit_element_drop i x ≡ done tt z)
      × ((j : ℕ)
          → bit_at y.store.empty_data_segments j
            ≡ (if ltb j i then bit_at x.store.empty_data_segments j else i == j))
      × ((j : ℕ)
          → bit_at z.store.empty_elem_segments j
            ≡ (if ltb j i then bit_at x.store.empty_elem_segments j else i == j))
      × (y ≡ record x {
        ip = x.ip + 1;
        store = record x.store { empty_data_segments = y.store.empty_data_segments };
      })
      × (z ≡ record x {
        ip = x.ip + 1;
        store = record x.store { empty_elem_segments = z.store.empty_elem_segments };
      })
  unfolding visit_data_drop visit_element_drop
  drop_flags = (
    _,
    _,
    refl,
    refl,
    flags_at i x.store.empty_data_segments,
    flags_at i x.store.empty_elem_segments,
    refl,
    refl,
  )
