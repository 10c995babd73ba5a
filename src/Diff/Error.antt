-- ===== src/Diff/Error.antt =====
-- `DiffError`, the failures of strict parsing.

pub data DiffError : Type 0 where
  patch_size line_size malformed unsafe_path header_mismatch unsupported_feature : DiffError
  hunk_count no_hunks no_files duplicate_path too_many_files too_many_hunks : DiffError
