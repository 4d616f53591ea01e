-- ===== src/Compiler.antt =====
-- src/compiler: the translation of Wasm functions into rwasm instructions.
pub mod Error
pub mod ControlFlow
pub mod Snippets
pub mod Translator
pub mod Operators
pub mod ValueStackHeight
pub mod DropKeep
pub mod LabelRegistry
pub mod FuncTypeRegistry
pub mod FuncBuilder
pub mod SegmentBuilder
