-- ===== src/Core/Repository.antt =====
-- crates/premonition-core/src/repository.rs: the identity of a repository, and what of it is read before
-- a path in it is accepted.
pub mod ChangePath
pub mod Operation
pub mod Identity
use omarchy_premonition.Core.Error.{RepositoryError}
use omarchy_premonition.Core.Model.{ResolvedRepository, RepositoryIdentity, GitBinary}
use omarchy_premonition.Diff.Parse.{FileChange, ChangeKind}
use omarchy_premonition.Apply.Publication.{join}
use omarchy_premonition.Limits.{max_result_file_bytes}
use omarchy_premonition.Core.System.{is_file, is_directory, is_found, run_git, Lookup, System}
use omarchy_premonition.Base.{
  ◌%◌, Bool, true, false, not, ◌&&◌, ◌||◌, List, [], ◌∷◌, ltb, ◌==◌, if◌then◌else◌, Text, text,
  text_eq, starts_with, Component, components, is_empty, any, is_utf8, trim_line_ends, Result,
  ◌>>=◌, ◌>>◌, reject, ok_or, map_err, ok, err,
}

unfoldable pub utf8_trimmed : Text → Result RepositoryError Text
utf8_trimmed bytes = do reject (not (is_utf8 bytes)) RepositoryError.git; ok (trim_line_ends bytes)

-- The trimmed output of `git rev-parse` with one more argument.
unfoldable pub rev_parse : System → GitBinary → Text → Text → Result RepositoryError Text
unfolding utf8_trimmed run_git
rev_parse sys git root argument = do
  bytes ←
      map_err (λ _. RepositoryError.git)
        (run_git sys git root (text "rev-parse" ∷ argument ∷ []) [])
  utf8_trimmed bytes

abbrev pub is_worktree : Lookup → Bool
is_worktree (Lookup.found at) = is_directory at.kind || is_file at.kind
is_worktree _ = false

unfoldable pub resolve_identity :
    System → GitBinary → Text → Result RepositoryError RepositoryIdentity
unfolding rev_parse text_eq starts_with join
resolve_identity sys git configured_root = do
  root ← ok_or (sys.canonicalize configured_root) RepositoryError.unsafe
  root_at ← ok_or (sys.metadata root) RepositoryError.unsafe
  reject (not (is_directory root_at.kind)) RepositoryError.unsafe
  reject (not (is_worktree (sys.symlink_metadata (join root (text ".git"))))) RepositoryError.unsafe
  top_value ← rev_parse sys git root (text "--show-toplevel")
  top ← ok_or (sys.canonicalize top_value) RepositoryError.unsafe
  reject (not (text_eq top root)) RepositoryError.unsafe
  bare ← rev_parse sys git root (text "--is-bare-repository")
  reject (not (text_eq bare (text "false"))) RepositoryError.unsafe
  inside ← rev_parse sys git root (text "--is-inside-work-tree")
  reject (not (text_eq inside (text "true"))) RepositoryError.unsafe
  superproject ← rev_parse sys git root (text "--show-superproject-working-tree")
  reject (not (is_empty superproject)) RepositoryError.unsafe
  git_dir_value ← rev_parse sys git root (text "--git-dir")
  git_dir ←
      ok_or
        (sys.canonicalize
          (if starts_with (text "/") git_dir_value then git_dir_value else join root git_dir_value))
        RepositoryError.unsafe
  git_at ← ok_or (sys.metadata git_dir) RepositoryError.unsafe
  reject (not (is_directory git_at.kind)) RepositoryError.unsafe
  ok (record {
    root = root;
    git_dir = git_dir;
    root_device = root_at.dev;
    root_inode = root_at.ino;
    git_device = git_at.dev;
    git_inode = git_at.ino;
  })

unfoldable pub identity_eq : RepositoryIdentity → RepositoryIdentity → Bool
unfolding text_eq
identity_eq a b =
    text_eq a.root b.root
    && text_eq a.git_dir b.git_dir
    && a.root_device == b.root_device
    && a.root_inode == b.root_inode
    && a.git_device == b.git_device
    && a.git_inode == b.git_inode

unfoldable pub revalidate_identity : System → ResolvedRepository → Result RepositoryError (Unit {0})
unfolding resolve_identity identity_eq
revalidate_identity sys repository = do
  current ← resolve_identity sys repository.git repository.root
  reject (not (identity_eq current repository.identity)) RepositoryError.identity_changed

abbrev pub markers : List Text
markers =
    text "MERGE_HEAD"
    ∷ text "CHERRY_PICK_HEAD"
    ∷ text "REVERT_HEAD"
    ∷ text "BISECT_LOG"
    ∷ text "index.lock"
    ∷ text "rebase-apply"
    ∷ text "rebase-merge"
    ∷ text "sequencer"
    ∷ []

unfoldable pub assert_operation_safe :
    System → ResolvedRepository → Result RepositoryError (Unit {0})
unfolding revalidate_identity join
assert_operation_safe sys repository = do
  revalidate_identity sys repository
  reject (any (λ marker. is_found (sys.symlink_metadata (join repository.git_dir marker))) markers)
      RepositoryError.operation_in_progress

-- A directory on the way to a target: a real one, with no repository of its own.
abbrev pub check_step : Lookup → Result RepositoryError (Unit {0})
check_step (Lookup.found at) = reject (not (is_directory at.kind)) RepositoryError.path
check_step _ = err RepositoryError.path

unfoldable pub check_directory : System → Text → Result RepositoryError (Unit {0})
unfolding join
check_directory sys path = do
  check_step (sys.symlink_metadata path)
  reject (is_found (sys.symlink_metadata (join path (text ".git"))))
      RepositoryError.nested_repository

-- The loop over all components but the last.
unfoldable pub check_directories :
    System → Text → List Component → Result RepositoryError (Unit {0})
unfolding check_directory join
check_directories sys current [] = ok tt
check_directories sys current (last ∷ []) = ok tt
check_directories sys current (Component.special ∷ next ∷ rest) = err RepositoryError.path
check_directories sys current (Component.normal name ∷ next ∷ rest) = do
  check_directory sys (join current name)
  check_directories sys (join current name) (next ∷ rest)

abbrev pub is_add : ChangeKind → Bool
is_add ChangeKind.add = true
is_add _ = false

-- `metadata.mode() & 0o777 != 0o644`, among others.
unfoldable pub check_target : ChangeKind → Lookup → Result RepositoryError (Unit {0})
check_target kind (Lookup.found at) =
    reject
      (is_add kind
        || not (is_file at.kind)
        || not (at.mode % 512 == 420)
        || ltb 1 at.nlink
        || ltb max_result_file_bytes at.len)
      RepositoryError.path
check_target kind Lookup.missing = reject (not (is_add kind)) RepositoryError.path
check_target kind Lookup.failed = err RepositoryError.path

unfoldable pub validate_change_path :
    System → ResolvedRepository → FileChange → Result RepositoryError (Unit {0})
unfolding revalidate_identity check_directories check_target join
validate_change_path sys repository change = do
  revalidate_identity sys repository
  reject (is_empty (components change.path.as_str)) RepositoryError.path
  check_directories sys repository.root (components change.path.as_str)
  check_target change.kind (sys.symlink_metadata (join repository.root change.path.as_str))
