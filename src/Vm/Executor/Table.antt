-- ===== src/Vm/Executor/Table.antt =====
-- src/vm/executor/table.rs.
use rwasm.Base.{ℕ, suc, Bool, Option, none, some, [], ◌==◌, if◌then◌else◌}
use rwasm.Types.Trap.{table_out_of_bounds}
use rwasm.Vm.ValueStack
use rwasm.Vm.TableEntity
use rwasm.Vm.TableEntity.{TableEntity}
use rwasm.Vm.Store.{update, resize, set_bit, bit_at}
use rwasm.Vm.Monad.{
  RwasmModule, M, ◌>>=◌, ◌>>◌, pure, get, expect, ok_or, checked, on_sp, put_store, advance,
}
use rwasm.Vm.Executor.ControlFlow.{fetch_table_index}

module _ {T : Type 0} where
  -- A table that is not there makes the source panic.
  unfoldable pub get_table : ℕ → M T TableEntity
  get_table table_idx = do x ← get; expect (x.store.tables table_idx)

  unfoldable pub put_table : ℕ → TableEntity → M T (Unit {0})
  put_table table_idx t = do
    x ← get
    put_store (record x.store { tables = update x.store.tables table_idx t })

  unfoldable pub visit_table_size : ℕ → M T (Unit {0})
  unfolding get_table ValueStack.push
  visit_table_size table_idx = do
    t ← get_table table_idx
    on_sp (ValueStack.push (TableEntity.size t))
    advance 1

  abbrev or_empty : Option TableEntity → M T TableEntity
  or_empty none = pure []
  or_empty (some t) = pure t

  -- Growing a table that is not there creates it.
  unfoldable pub visit_table_grow : (ℕ → Bool) → ℕ → M T (Unit {0})
  unfolding ValueStack.pop2 ValueStack.push TableEntity.grow_untyped put_table
  visit_table_grow can_reserve table_idx = do
    (init, delta) ← on_sp ValueStack.pop2
    x ← get
    t ← or_empty (x.store.tables table_idx)
    let grown = TableEntity.grow_untyped can_reserve delta init t
    put_table table_idx grown.1
    on_sp (ValueStack.push grown.0)
    advance 1

  unfoldable pub visit_table_fill : ℕ → M T (Unit {0})
  unfolding ValueStack.pop3 get_table TableEntity.fill_untyped put_table
  visit_table_fill table_idx = do
    (i, val, n) ← on_sp ValueStack.pop3
    t ← get_table table_idx
    t' ← checked (TableEntity.fill_untyped i val n t)
    put_table table_idx t'
    advance 1

  unfoldable pub visit_table_get : ℕ → M T (Unit {0})
  unfolding ValueStack.pop get_table ValueStack.push
  visit_table_get table_idx = do
    index ← on_sp ValueStack.pop
    t ← get_table table_idx
    value ← ok_or (TableEntity.get_untyped t index) table_out_of_bounds
    on_sp (ValueStack.push value)
    advance 1

  unfoldable pub visit_table_set : ℕ → M T (Unit {0})
  unfolding ValueStack.pop2 get_table TableEntity.set_untyped put_table
  visit_table_set table_idx = do
    (index, value) ← on_sp ValueStack.pop2
    t ← get_table table_idx
    t' ← checked (TableEntity.set_untyped index value t)
    put_table table_idx t'
    advance 1

  unfoldable pub copy_between : ℕ → ℕ → ℕ × ℕ × ℕ → M T (Unit {0})
  unfolding get_table TableEntity.copy put_table
  copy_between dst_table_idx src_table_idx (d, s, n) = do
    src ← get_table src_table_idx
    dst ← get_table dst_table_idx
    t' ← checked (TableEntity.copy d src s n dst)
    put_table dst_table_idx t'

  unfoldable pub copy_inside : ℕ → ℕ × ℕ × ℕ → M T (Unit {0})
  unfolding get_table TableEntity.copy_within put_table
  copy_inside table_idx (d, s, n) = do
    t ← get_table table_idx
    t' ← checked (TableEntity.copy_within d s n t)
    put_table table_idx t'

  unfoldable pub visit_table_copy : ℕ → ℕ → M T (Unit {0})
  unfolding ValueStack.pop3 copy_between copy_inside
  visit_table_copy dst_table_idx src_table_idx = do
    range ← on_sp ValueStack.pop3
    if src_table_idx == dst_table_idx
        then copy_inside src_table_idx range
        else copy_between dst_table_idx src_table_idx range
    advance 1

  unfoldable pub visit_table_init : RwasmModule → ℕ → M T (Unit {0})
  unfolding fetch_table_index ValueStack.pop3 bit_at get_table TableEntity.init_untyped put_table
  visit_table_init m element_segment_idx = do
    table_idx ← fetch_table_index m 1
    (d, s, n) ← on_sp ValueStack.pop3
    x ← get
    let is_empty_segment = bit_at x.store.empty_elem_segments element_segment_idx
    let elements = if is_empty_segment then [] else m.elem_section
    t ← get_table table_idx
    t' ← checked (TableEntity.init_untyped d elements s n t)
    put_table table_idx t'
    advance 2

  unfoldable pub visit_element_drop : ℕ → M T (Unit {0})
  unfolding resize set_bit
  visit_element_drop element_segment_idx = do
    x ← get
    put_store (record x.store {
      empty_elem_segments =
          set_bit element_segment_idx
            (resize (suc element_segment_idx) x.store.empty_elem_segments);
    })
    advance 1
