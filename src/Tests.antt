-- ===== src/Tests.antt =====
-- Tests of the model, and the theorems at concrete inputs.
mod Machine
mod Isa
mod Vm
mod Compiler
mod Translator
mod Memory
