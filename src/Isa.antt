-- ===== src/Isa.antt =====
-- src/isa: the sequences of 32-bit instructions that stand for wider operations.
pub mod Block
pub mod Words
pub mod AddSub
pub mod Mul
pub mod Division
pub mod Memory
pub mod Table
pub mod Guard
pub mod MemoryInit
pub mod Compare
pub mod Conv
pub mod Bitwise
pub mod Arithmetic
pub mod Order
pub mod Logic
pub mod Conversions
pub mod Counts
pub mod Placed
pub mod Straight
pub mod Shifts
pub mod RightShift
