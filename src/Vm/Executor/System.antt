-- ===== src/Vm/Executor/System.antt =====
-- src/vm/executor/system.rs.
use rwasm.Base.{ℕ, Option, none, some, ◌==◌, if◌then◌else◌}
use rwasm.Types.Trap.{bad_signature}
use rwasm.Vm.ValueStack
use rwasm.Vm.Store.{update, try_consume_fuel}
use rwasm.Vm.Monad.{M, ◌>>=◌, ◌>>◌, pure, raise, get, checked, on_sp, put_store, advance}

module _ {T : Type 0} where
  unfoldable pub consume : ℕ → M T (Unit {0})
  unfolding try_consume_fuel
  consume fuel = do x ← get; s ← checked (try_consume_fuel fuel x.store); put_store s

  unfoldable pub visit_consume_fuel : ℕ → M T (Unit {0})
  unfolding consume
  visit_consume_fuel block_fuel = do consume block_fuel; advance 1

  unfoldable pub visit_consume_fuel_stack : M T (Unit {0})
  unfolding ValueStack.pop consume
  visit_consume_fuel_stack = do block_fuel ← on_sp ValueStack.pop; consume block_fuel; advance 1

  abbrev match_signature : Option ℕ → ℕ → M T (Unit {0})
  match_signature none signature_idx = pure tt
  match_signature (some actual) signature_idx =
      if actual == signature_idx then pure tt else raise bad_signature

  -- `take` clears the noted signature whether or not it is the right one.
  unfoldable pub visit_signature_check : ℕ → M T (Unit {0})
  visit_signature_check signature_idx = do
    x ← get
    put_store (record x.store { last_signature = none })
    match_signature x.store.last_signature signature_idx
    advance 1

  unfoldable pub visit_stack_check : ℕ → M T (Unit {0})
  unfolding ValueStack.reserve
  visit_stack_check max_stack_height = do
    x ← get
    s ← checked (ValueStack.reserve max_stack_height x.value_stack)
    on_sp (λ _. some (tt, s))
    advance 1

  abbrev word_or_zero : Option ℕ → M T ℕ
  word_or_zero none = pure 0
  word_or_zero (some v) = pure v

  unfoldable pub visit_global_get : ℕ → M T (Unit {0})
  unfolding ValueStack.push
  visit_global_get global_idx = do
    x ← get
    value ← word_or_zero (x.store.global_variables global_idx)
    on_sp (ValueStack.push value)
    advance 1

  unfoldable pub visit_global_set : ℕ → M T (Unit {0})
  unfolding ValueStack.pop
  visit_global_set global_idx = do
    new_value ← on_sp ValueStack.pop
    x ← get
    put_store
        (record x.store { global_variables = update x.store.global_variables global_idx new_value })
    advance 1
