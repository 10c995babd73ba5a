-- ===== src/Core/Policy.antt =====
-- crates/premonition-core/src/lib.rs: the policy, and the checks of `ApplyEngine::apply`.
pub mod Verified
pub mod Approval
pub mod Publication
use omarchy_premonition.Apply.Journal.{validate_transaction_id}
use omarchy_premonition.Core.Model.{ValidatedProposal, ResolvedRepository, GenerationContext}
use omarchy_premonition.Diff.Parse.{ParsedPatch, FileChange}
use omarchy_premonition.Core.Error.{SnapshotError, RepositoryError, GitError, CoreError, ApplyError}
use omarchy_premonition.Base.{
  not, List, [], ◌∷◌, Text, text, Result, ◌>>=◌, ◌>>◌, reject, map_err, ok,
}
use omarchy_premonition.Core.System.{run_git, System}
use omarchy_premonition.Core.Repository.{assert_operation_safe, validate_change_path, identity_eq}
use omarchy_premonition.Core.Catalog.{resolve, RepositoryCatalog}
use omarchy_premonition.Core.Snapshot.{capture, revalidate}
use omarchy_premonition.Diff.Parse

abbrev repository_failed {ℓ} : {A : Type ℓ} → Result RepositoryError A → Result CoreError A
repository_failed r = map_err (λ e. CoreError.repository e) r

abbrev snapshot_failed {ℓ} : {A : Type ℓ} → Result SnapshotError A → Result CoreError A
snapshot_failed r = map_err (λ e. CoreError.snapshot e) r

unfoldable pub begin_investigation :
    System → RepositoryCatalog → Text → Result CoreError GenerationContext
unfolding resolve assert_operation_safe capture
begin_investigation sys catalog repository_id = do
  repository ← repository_failed (resolve sys catalog repository_id)
  repository_failed (assert_operation_safe sys repository)
  snapshot ← snapshot_failed (capture sys repository)
  ok (record { repository = repository; snapshot = snapshot })

unfoldable pub validate_paths :
    System → ResolvedRepository → List FileChange → Result RepositoryError (Unit {0})
unfolding validate_change_path
validate_paths sys repository [] = ok tt
validate_paths sys repository (change ∷ changes) = do
  validate_change_path sys repository change
  validate_paths sys repository changes

-- The run of `git apply --check` on a patch.
abbrev pub run_apply_check : System → ResolvedRepository → ParsedPatch → Result GitError Text
run_apply_check sys repository patch =
    run_git sys repository.git repository.root
      (text "apply" ∷ text "--check" ∷ text "--whitespace=nowarn" ∷ text "-" ∷ []) patch.raw

unfoldable pub git_apply_check :
    System → ResolvedRepository → ParsedPatch → Result CoreError (Unit {0})
unfolding run_git
git_apply_check sys repository patch = do
  _ ← map_err (λ _. CoreError.apply_check) (run_apply_check sys repository patch)
  ok tt

-- The system is read at three times: at the first revalidation and before it, for the paths and git, and
-- at the last revalidation.
unfoldable pub validate_candidate :
    System
    → System
    → System
    → RepositoryCatalog
    → GenerationContext
    → Text
    → Result CoreError ValidatedProposal
unfolding resolve identity_eq revalidate validate_paths git_apply_check
validate_candidate first middle last catalog context raw_patch = do
  current ← repository_failed (resolve first catalog context.repository.id)
  reject (not (identity_eq current.identity context.repository.identity))
      (CoreError.repository RepositoryError.identity_changed)
  snapshot_failed (revalidate first current context.snapshot)
  patch ← map_err (λ e. CoreError.diff e) (Parse.parse raw_patch)
  repository_failed (validate_paths middle current patch.files)
  git_apply_check middle current patch
  snapshot_failed (revalidate last current context.snapshot)
  ok (record { repository = current; snapshot = context.snapshot; patch = patch })

-- What `ApplyEngine::apply` checks before it makes the directory of the transaction, at three times.
unfoldable pub check_apply :
    System → System → System → Text → ValidatedProposal → Result ApplyError (Unit {0})
unfolding validate_transaction_id assert_operation_safe revalidate validate_paths run_git
check_apply first middle last proposal_id proposal = do
  validate_transaction_id proposal_id
  map_err (λ e. ApplyError.repository e) (assert_operation_safe first proposal.repository)
  map_err (λ e. ApplyError.snapshot e) (revalidate first proposal.repository proposal.snapshot)
  map_err (λ e. ApplyError.repository e)
      (validate_paths middle proposal.repository proposal.patch.files)
  _ ← map_err (λ e. ApplyError.git e) (run_apply_check middle proposal.repository proposal.patch)
  map_err (λ e. ApplyError.snapshot e) (revalidate last proposal.repository proposal.snapshot)
