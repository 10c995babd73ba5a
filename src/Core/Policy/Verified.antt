-- ===== src/Core/Policy/Verified.antt =====
-- What a patch is checked for in a repository, described by what the file system and git answer.
use omarchy_premonition.Diff.Parse
use omarchy_premonition.Core.Policy.{validate_paths, run_apply_check}
use omarchy_premonition.Core.Snapshot.Equality.{revalidate_iff}
use omarchy_premonition.Diff.Parse.Bounds.{parse-IsBounded}
use omarchy_premonition.Core.Snapshot.{repository_failed, capture, revalidate}
use omarchy_premonition.Core.Repository.{validate_change_path, assert_operation_safe}
use omarchy_premonition.Core.Model.{ResolvedRepository, RepositorySnapshot}
use omarchy_premonition.Core.Repository.Operation.{assert_operation_safe-NoOperation, NoOperation}
use omarchy_premonition.Core.System.Binary.{run_git_iff, IsSameBinary}
use omarchy_premonition.Core.Repository.ChangePath.{validate_change_path_iff, IsAccepted}
use omarchy_premonition.Diff.Parse.{ParsedPatch, FileChange}
use omarchy_premonition.Core.System.{System}
use omarchy_premonition.Base.{
  List, [], ◌∷◌, ◌≡◌, refl, sym, subst, Text, text, All, bind-eq-ok, map_err-eq-ok, ok,
}

-- At the first and the last time the snapshot is captured and no operation is in progress. Between them
-- every path of the patch is accepted, and `git apply --check`, run from the same binary on exactly the
-- text of the candidate, succeeds.
pub record IsVerified (first middle last : System) (repository : ResolvedRepository)
    (snapshot : RepositorySnapshot) (raw_patch : Text) (patch : ParsedPatch) : Type 0 where
  pub captured_first : capture first repository ≡ ok snapshot
  pub idle_first : NoOperation first repository
  pub paths : All (IsAccepted middle repository) patch.files
  pub binary : IsSameBinary middle repository.git
  pub applicable :
      (out : Text) × (middle.run repository.root
          (text "apply" ∷ text "--check" ∷ text "--whitespace=nowarn" ∷ text "-" ∷ [])
          raw_patch
        ≡ ok out)
  pub captured_last : capture last repository ≡ ok snapshot
  pub idle_last : NoOperation last repository

pub capture-safe :
    (sys : System) (repository : ResolvedRepository) (s : RepositorySnapshot)
    → capture sys repository ≡ ok s
    → assert_operation_safe sys repository ≡ ok tt
unfolding capture
capture-safe sys repository s h =
    let (u, safe, rest) =
      bind-eq-ok (repository_failed (assert_operation_safe sys repository)) _ h in
    map_err-eq-ok _ (assert_operation_safe sys repository) safe

capture-NoOperation :
    (sys : System) (repository : ResolvedRepository) (s : RepositorySnapshot)
    → capture sys repository ≡ ok s
    → NoOperation sys repository
capture-NoOperation sys repository s h =
    assert_operation_safe-NoOperation sys repository (capture-safe sys repository s h)

pub validate_paths-All :
    (sys : System) (repository : ResolvedRepository) (changes : List FileChange)
    → validate_paths sys repository changes ≡ ok tt
    → All (IsAccepted sys repository) changes
unfolding validate_paths
validate_paths-All sys repository [] h = tt
validate_paths-All sys repository (change ∷ changes) h =
    let (u, here, rest) = bind-eq-ok (validate_change_path sys repository change) _ h in
    (
      (validate_change_path_iff sys repository change).0 here,
      validate_paths-All sys repository changes rest,
    )

pub All-validate_paths :
    (sys : System) (repository : ResolvedRepository) (changes : List FileChange)
    → All (IsAccepted sys repository) changes
    → validate_paths sys repository changes ≡ ok tt
unfolding validate_paths
All-validate_paths sys repository [] h = refl
All-validate_paths sys repository (change ∷ changes) h =
    rw
      (
        (validate_change_path_iff sys repository change).1 h.0,
        All-validate_paths sys repository changes h.1,
      )
      refl

module _ (first middle last : System) (repository : ResolvedRepository)
    (snapshot : RepositorySnapshot) (raw_patch : Text) (patch : ParsedPatch)
    (parsed : Parse.parse raw_patch ≡ ok patch) where
  keeps : patch.raw ≡ raw_patch
  keeps = (parse-IsBounded raw_patch patch parsed).keeps_raw

  pub verifies :
      revalidate first repository snapshot ≡ ok tt
      → validate_paths middle repository patch.files ≡ ok tt
      → (out : Text) × (run_apply_check middle repository patch ≡ ok out)
      → revalidate last repository snapshot ≡ ok tt
      → IsVerified first middle last repository snapshot raw_patch patch
  verifies v p (out, ran) w =
      let captured = (revalidate_iff first repository snapshot).0 v in
      let again = (revalidate_iff last repository snapshot).0 w in
      let (same, accepted) = (run_git_iff middle repository.git repository.root _ _ out).0 ran in
      record {
        captured_first = captured;
        idle_first = capture-NoOperation first repository snapshot captured;
        paths = validate_paths-All middle repository patch.files p;
        binary = same;
        applicable = (
          out,
          subst
              (λ (x : Text).
                middle.run repository.root
                  (text "apply" ∷ text "--check" ∷ text "--whitespace=nowarn" ∷ text "-" ∷ []) x
                ≡ ok out)
              keeps accepted,
        );
        captured_last = again;
        idle_last = capture-NoOperation last repository snapshot again;
      }

  pub verified-applicable :
      IsVerified first middle last repository snapshot raw_patch patch
      → (out : Text) × (run_apply_check middle repository patch ≡ ok out)
  verified-applicable v = (
    v.applicable.0,
    (run_git_iff middle repository.git repository.root _ _ v.applicable.0).1 (
      v.binary,
      subst
          (λ (x : Text).
            middle.run repository.root
              (text "apply" ∷ text "--check" ∷ text "--whitespace=nowarn" ∷ text "-" ∷ []) x
            ≡ ok v.applicable.0)
          (sym keeps) v.applicable.1,
    ),
  )
