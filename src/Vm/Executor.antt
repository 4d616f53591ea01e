-- ===== src/Vm/Executor.antt =====
-- The interpreter (src/vm/executor.rs and src/vm/executor/).
pub mod Stack
pub mod Alu
pub mod ControlFlow
pub mod Memory
pub mod Table
pub mod System
pub mod Step
pub mod Run
pub mod DropFlags
pub mod Invariant
