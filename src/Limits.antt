-- ===== src/Limits.antt =====
-- crates/premonition-core/src/limits.rs: the fixed ceilings that the modelled code reads. The
-- protocol and executor crates declare the same numbers under the same names.
use omarchy_premonition.Base.{ℕ, ◌*◌}

abbrev pub max_input_bytes : ℕ
max_input_bytes = 32 * 1024

abbrev pub max_prompt_bytes : ℕ
max_prompt_bytes = 96 * 1024

abbrev pub max_patch_bytes : ℕ
max_patch_bytes = 256 * 1024

abbrev pub max_rationale_bytes : ℕ
max_rationale_bytes = 8 * 1024

abbrev pub max_files : ℕ
max_files = 8

abbrev pub max_hunks : ℕ
max_hunks = 128

abbrev pub max_diff_line_bytes : ℕ
max_diff_line_bytes = 16 * 1024

abbrev pub max_result_file_bytes : ℕ
max_result_file_bytes = 2 * 1024 * 1024

abbrev pub max_repositories : ℕ
max_repositories = 64
