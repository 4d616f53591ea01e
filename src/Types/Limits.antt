-- ===== src/Types/Limits.antt =====
-- The limits of src/types/mod.rs.
use rwasm.Base.{ℕ}

abbrev pub n_max_stack_size : ℕ
n_max_stack_size = 8192

abbrev pub n_default_stack_size : ℕ
n_default_stack_size = 32

abbrev pub n_max_recursion_depth : ℕ
n_max_recursion_depth = 1024

abbrev pub n_bytes_per_memory_page : ℕ
n_bytes_per_memory_page = 65536

abbrev pub n_default_max_memory_pages : ℕ
n_default_max_memory_pages = 1024

abbrev pub n_max_allowed_memory_pages : ℕ
n_max_allowed_memory_pages = 32768

abbrev pub null_func_idx : ℕ
null_func_idx = 0

abbrev pub n_max_table_size : ℕ
n_max_table_size = 1024
