-- ===== src/Vm/Executor/Memory.antt =====
-- src/vm/executor/memory.rs, and `execute_load_extend` and `execute_store_wrap` of
-- src/vm/executor.rs.
use rwasm.Base.{
  ℕ, suc, ◌+◌, ◌-◌, ◌%◌, ◌^◌, Bool, Option, none, some, List, [], ltb, if◌then◌else◌, replicate,
}
use rwasm.Types.Trap.{Checked, memory_out_of_bounds}
use rwasm.Types.Pages
use rwasm.Types.UntypedValue.{u32_max}
use rwasm.Types.Bytes.{slice, overwrite}
use rwasm.Vm.ValueStack
use rwasm.Vm.Memory.{GlobalMemory, grow}
use rwasm.Vm.Store.{resize, set_bit, bit_at}
use rwasm.Vm.Monad.{RwasmModule, M, ◌>>=◌, ◌>>◌, get, ok_or, checked, on_sp, put_store, advance}

-- `i32::from(v) as usize`: a negative number becomes a huge one.
abbrev pub to_usize : ℕ → ℕ
to_usize v = if ltb v (2 ^ 31) then v else v + (2 ^ 64 - 2 ^ 32)

module _ {T : Type 0} where
  -- The address is replaced by what is loaded, or left if the load traps.
  unfoldable pub execute_load_extend : ℕ → (List ℕ → ℕ → ℕ → Checked ℕ) → M T (Unit {0})
  unfolding ValueStack.nth_back ValueStack.set_nth_back
  execute_load_extend offset load_extend = do
    address ← on_sp (ValueStack.nth_back 1)
    x ← get
    value ← checked (load_extend x.store.global_memory.shared_memory address offset)
    on_sp (ValueStack.set_nth_back 1 value)
    advance 1

  unfoldable pub put_memory : List ℕ → M T (Unit {0})
  put_memory bytes = do
    x ← get
    let memory = x.store.global_memory
    put_store (record x.store { global_memory = record memory { shared_memory = bytes } })

  unfoldable pub execute_store_wrap : ℕ → (List ℕ → ℕ → ℕ → ℕ → Checked (List ℕ)) → M T (Unit {0})
  unfolding ValueStack.pop2 put_memory
  execute_store_wrap offset store_wrap = do
    (address, value) ← on_sp ValueStack.pop2
    x ← get
    bytes ← checked (store_wrap x.store.global_memory.shared_memory address offset value)
    put_memory bytes
    advance 1

  unfoldable pub visit_memory_size : M T (Unit {0})
  unfolding ValueStack.push
  visit_memory_size = do
    x ← get
    on_sp (ValueStack.push x.store.global_memory.current_pages)
    advance 1

  unfoldable pub grow_result : Option (ℕ × GlobalMemory) → M T (Unit {0})
  unfolding ValueStack.push
  grow_result none = on_sp (ValueStack.push u32_max)
  grow_result (some (old_pages, memory)) = do
    x ← get
    put_store (record x.store { global_memory = memory })
    on_sp (ValueStack.push old_pages)

  -- A number of pages that is out of range, or that cannot be had, gives -1.
  unfoldable pub visit_memory_grow : (ℕ → Bool) → M T (Unit {0})
  unfolding ValueStack.pop Pages.new grow grow_result
  visit_memory_grow can_reserve = do
    delta ← on_sp ValueStack.pop
    x ← get
    grow_result (elim (Pages.new delta) [
      | none ↦ none
      | some pages ↦ grow can_reserve pages x.store.global_memory
    ])
    advance 1

  unfoldable pub visit_memory_fill : M T (Unit {0})
  unfolding ValueStack.pop3 slice overwrite put_memory
  visit_memory_fill = do
    (d, val, n) ← on_sp ValueStack.pop3
    x ← get
    let memory = x.store.global_memory.shared_memory
    _ ← ok_or (slice memory (to_usize d) (to_usize n)) memory_out_of_bounds
    put_memory (overwrite memory (to_usize d) (replicate (to_usize n) (val % 2 ^ 8)))
    advance 1

  unfoldable pub visit_memory_copy : M T (Unit {0})
  unfolding ValueStack.pop3 slice overwrite put_memory
  visit_memory_copy = do
    (d, s, n) ← on_sp ValueStack.pop3
    x ← get
    let memory = x.store.global_memory.shared_memory
    src ← ok_or (slice memory (to_usize s) (to_usize n)) memory_out_of_bounds
    _ ← ok_or (slice memory (to_usize d) (to_usize n)) memory_out_of_bounds
    put_memory (overwrite memory (to_usize d) src)
    advance 1

  unfoldable pub visit_memory_init : RwasmModule → ℕ → M T (Unit {0})
  unfolding bit_at ValueStack.pop3 slice overwrite put_memory
  visit_memory_init m data_segment_idx = do
    x ← get
    let is_empty_data_segment = bit_at x.store.empty_data_segments data_segment_idx
    (d, s, n) ← on_sp ValueStack.pop3
    let memory = x.store.global_memory.shared_memory
    _ ← ok_or (slice memory (to_usize d) (to_usize n)) memory_out_of_bounds
    let memory_section = if is_empty_data_segment then [] else m.data_section
    new ← ok_or (slice memory_section (to_usize s) (to_usize n)) memory_out_of_bounds
    put_memory (overwrite memory (to_usize d) new)
    advance 1

  unfoldable pub visit_data_drop : ℕ → M T (Unit {0})
  unfolding resize set_bit
  visit_data_drop data_segment_idx = do
    x ← get
    put_store (record x.store {
      empty_data_segments =
          set_bit data_segment_idx (resize (suc data_segment_idx) x.store.empty_data_segments);
    })
    advance 1
