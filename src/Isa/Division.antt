-- ===== src/Isa/Division.antt =====
-- The sequences of src/isa for 64-bit division and remainder.
pub mod DivS
pub mod DivU
pub mod RemS
pub mod RemU
