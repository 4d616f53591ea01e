-- ===== src/Types.antt =====
-- The data model (src/types): trap codes, stack cells, branch offsets, instructions, page counts.
pub mod Trap
pub mod UntypedValue
pub mod BranchOffset
pub mod Opcode
pub mod Value
pub mod Limits
pub mod Pages
pub mod Bytes
