-- ===== src/Vm.antt =====
-- The virtual machine (src/vm).
pub mod ValueStack
pub mod Memory
pub mod TableEntity
pub mod Store
pub mod Monad
pub mod Executor
