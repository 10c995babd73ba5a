-- ===== src/Core/Model.antt =====
-- The values that pass between the policy, the daemon and Apply. Paths are texts, digests are byte
-- lists.
use omarchy_premonition.Diff.Parse.{ParsedPatch}
use omarchy_premonition.Base.{ℕ, Text}

pub record GitBinary : Type 0 where
  pub location : Text
  pub digest : Text
  pub device : ℕ
  pub inode : ℕ

pub record RepositoryIdentity : Type 0 where
  pub root : Text
  pub git_dir : Text
  pub root_device : ℕ
  pub root_inode : ℕ
  pub git_device : ℕ
  pub git_inode : ℕ

pub record ResolvedRepository : Type 0 where
  pub id : Text
  pub label : Text
  pub root : Text
  pub git_dir : Text
  pub identity : RepositoryIdentity
  pub git : GitBinary

pub record RepositorySnapshot : Type 0 where
  pub head_oid : Text
  pub head_ref_digest : Text
  pub index_digest : Text
  pub worktree_digest : Text
  pub file_count : ℕ
  pub total_bytes : ℕ

pub record GenerationContext : Type 0 where
  pub repository : ResolvedRepository
  pub snapshot : RepositorySnapshot

pub record ValidatedProposal : Type 0 where
  pub repository : ResolvedRepository
  pub snapshot : RepositorySnapshot
  pub patch : ParsedPatch

pub record ApplyOutcome : Type 0 where
  pub files_changed : ℕ
