-- ===== src/Core/Policy/Publication.antt =====
-- What is checked again before a proposal is published.
use omarchy_premonition.Core.Snapshot.{revalidate}
use omarchy_premonition.Core.Policy.{validate_candidate}
use omarchy_premonition.Apply.Journal.{validate_transaction_id}
use omarchy_premonition.Core.Policy.{validate_paths, run_apply_check, check_apply}
use omarchy_premonition.Core.Repository.{assert_operation_safe}
use omarchy_premonition.Core.Catalog.{RepositoryCatalog}
use omarchy_premonition.Core.Model.{ValidatedProposal, RepositorySnapshot, GenerationContext}
use omarchy_premonition.Core.Error.{ApplyError}
use omarchy_premonition.Diff.Parse
use omarchy_premonition.Core.Snapshot.Equality.{revalidate_iff}
use omarchy_premonition.Core.Policy.Approval.{validate_candidate_iff}
use omarchy_premonition.Core.Policy.Verified.{
  IsVerified, verifies, verified-applicable, All-validate_paths, capture-safe,
}
use omarchy_premonition.Core.System.{System}
use omarchy_premonition.Base.{
  ◌≤◌, ◌<◌, true, ◌||◌, ◌↔◌, ◌≡◌, refl, subst, arith, ◌==◌, ||-eq-false, not-eq-false, Text,
  is_ascii_alphanumeric, length, all, bind-eq-ok, reject-eq-ok, map_err, map_err-eq-ok, ok,
}

-- One to sixty-four letters, digits, underscores and dashes.
pub record IsTransactionId (id : Text) : Type 0 where
  pub some_bytes : 0 < length id
  pub few_bytes : length id ≤ 64
  pub plain : all (λ byte. is_ascii_alphanumeric byte || (byte == b'_' || byte == b'-')) id ≡ true

validate_transaction_id_iff :
    (id : Text) → (validate_transaction_id id ≡ ok tt) ↔ IsTransactionId id
unfolding validate_transaction_id
validate_transaction_id_iff id = (
  λ h.
      let passes = reject-eq-ok _ _ h in
      record {
        some_bytes = ground (arith, passes);
        few_bytes = ground (arith, passes);
        plain = not-eq-false _ (||-eq-false _ _ passes).1;
      },
  λ v. ground (arith, v.some_bytes, v.few_bytes, v.plain),
)

module _ (first middle last : System) (id : Text) (proposal : ValidatedProposal) (raw_patch : Text)
    (parsed : Parse.parse raw_patch ≡ ok proposal.patch) where
  abbrev IsPublishable : Type 0
  IsPublishable =
      IsTransactionId id
      × IsVerified first middle last proposal.repository proposal.snapshot raw_patch proposal.patch

  publishable : check_apply first middle last id proposal ≡ ok tt → IsPublishable
  unfolding check_apply
  publishable h =
      let repository = proposal.repository in
      let snapshot = proposal.snapshot in
      let (u0, i, h0) = bind-eq-ok (validate_transaction_id id) _ h in
      let (u1, s, h1) =
        bind-eq-ok (map_err (λ e. ApplyError.repository e) (assert_operation_safe first repository))
          _ h0 in
      let (u2, v, h2) =
        bind-eq-ok (map_err (λ e. ApplyError.snapshot e) (revalidate first repository snapshot)) _
          h1 in
      let (u3, p, h3) =
        bind-eq-ok
          (map_err (λ e. ApplyError.repository e)
            (validate_paths middle repository proposal.patch.files))
          _ h2 in
      let (out, g, w) =
        bind-eq-ok
          (map_err (λ e. ApplyError.git e) (run_apply_check middle repository proposal.patch)) _
          h3 in
      (
        (validate_transaction_id_iff id).0 i,
        verifies first middle last repository snapshot raw_patch proposal.patch parsed
            (map_err-eq-ok _ _ v) (map_err-eq-ok _ _ p) (out, map_err-eq-ok _ _ g)
            (map_err-eq-ok _ _ w),
      )

  publishes : IsPublishable → check_apply first middle last id proposal ≡ ok tt
  unfolding check_apply
  publishes (i, v) =
      rw
        (
          (revalidate_iff first proposal.repository proposal.snapshot).1 v.captured_first,
          (revalidate_iff last proposal.repository proposal.snapshot).1 v.captured_last,
          (validate_transaction_id_iff id).1 i,
          capture-safe first proposal.repository proposal.snapshot v.captured_first,
          All-validate_paths middle proposal.repository proposal.patch.files v.paths,
          (verified-applicable first middle last proposal.repository proposal.snapshot raw_patch
              proposal.patch parsed v).1,
        )
        refl

-- A proposal that a candidate became is let through to its transaction, later, exactly if its identifier
-- has one to sixty-four letters, digits, underscores and dashes, and, for the repository of the proposal
-- and the snapshot of the candidate's context: the snapshot is captured once more, with no operation in
-- progress, both before and after the other checks; every path of the patch is accepted again; and git,
-- from the same binary, accepts again exactly the text of the candidate.
pub check_apply-validated :
    (first middle last first' middle' last' : System) (catalog : RepositoryCatalog)
    (context : GenerationContext) (raw_patch id : Text) (p : ValidatedProposal)
    → validate_candidate first middle last catalog context raw_patch ≡ ok p
    → (check_apply first' middle' last' id p ≡ ok tt) ↔ (
        IsTransactionId id
        × IsVerified first' middle' last' p.repository context.snapshot raw_patch p.patch)
check_apply-validated first middle last first' middle' last' catalog context raw_patch id p h =
    let a = (validate_candidate_iff first middle last catalog context raw_patch p).0 h in
    subst
      (λ (s : RepositorySnapshot).
        (check_apply first' middle' last' id p ≡ ok tt)
        ↔ (IsTransactionId id × IsVerified first' middle' last' p.repository s raw_patch p.patch))
      a.same_snapshot
      (
        publishable first' middle' last' id p raw_patch a.parsed,
        publishes first' middle' last' id p raw_patch a.parsed,
      )
