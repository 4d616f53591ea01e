-- ===== src/Compiler/Error.antt =====
-- src/compiler/error.rs: what a translation can fail with, as far as the modelled parts meet it.
-- `Result<A, E>`.
pub data Result (E A : Type 0) : Type 0 where
  ok : A → Result E A
  err : E → Result E A

-- `CompilationError`.
pub data CompilationError : Type 0 where
  branch_offset_out_of_bounds block_fuel_out_of_bounds not_supported_extension : CompilationError
  drop_keep_out_of_bounds branch_table_targets_out_of_bounds : CompilationError
  not_supported_func_type not_supported_local_type not_supported_global_type : CompilationError
  max_readonly_data_reached memory_out_of_bounds table_out_of_bounds : CompilationError
