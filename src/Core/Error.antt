-- ===== src/Core/Error.antt =====
-- The stable failures of the repository boundary, the snapshot, Git, the policy and Apply.

use omarchy_premonition.Diff.Error.{DiffError}

pub data RepositoryError : Type 0 where
  config unknown unsafe identity_changed operation_in_progress : RepositoryError
  path nested_repository git : RepositoryError

pub data SnapshotError : Type 0 where
  repository git too_large unsafe_file_type unstable io stale : SnapshotError

pub data GitError : Type 0 where
  unsafe_binary binary_changed spawn io timeout output_limit exit : GitError

pub data CoreError : Type 0 where
  repository : RepositoryError → CoreError
  snapshot : SnapshotError → CoreError
  diff : DiffError → CoreError
  apply_check : CoreError

pub data ApplyError : Type 0 where
  state identifier transaction_exists recovery_required : ApplyError
  repository : RepositoryError → ApplyError
  snapshot : SnapshotError → ApplyError
  git : GitError → ApplyError
