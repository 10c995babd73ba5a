-- ===== src/Core/Policy/Approval.antt =====
-- What it takes for a candidate to become a proposal.
use omarchy_premonition.Diff.Parse.Bounds.{IsBounded, parse-IsBounded}
use omarchy_premonition.Core.Policy.Verified.{
  IsVerified, verifies, verified-applicable, All-validate_paths,
}
use omarchy_premonition.Core.Catalog.Resolution.{IsResolved, resolve_iff}
use omarchy_premonition.Core.Snapshot.Equality.{revalidate_iff, identity_eq→eq, identity_eq_refl}
use omarchy_premonition.Core.Model.{
  ValidatedProposal, ResolvedRepository, GenerationContext, RepositoryIdentity, RepositorySnapshot,
}
use omarchy_premonition.Diff.Parse.{ParsedPatch}
use omarchy_premonition.Core.Error.{CoreError, SnapshotError}
use omarchy_premonition.Base.{
  true, ◌↔◌, ◌≡◌, refl, sym, ap, ◌∙◌, subst, Text, Result, ok-injective, bind-eq-ok, passed,
  map_err, map_err-eq-ok, ok,
}
use omarchy_premonition.Core.System.{System}
use omarchy_premonition.Core.Repository.{identity_eq}
use omarchy_premonition.Core.Catalog.{RepositoryCatalog}
use omarchy_premonition.Core.Policy.{git_apply_check, run_apply_check, validate_candidate}
use omarchy_premonition.Diff.Parse

-- The proposal that a candidate becomes, described by what the allow-list, the file system and git
-- answer.
pub record IsApproved (first middle last : System) (catalog : RepositoryCatalog)
    (context : GenerationContext) (raw_patch : Text) (p : ValidatedProposal) : Type 0 where
  pub resolved : IsResolved first catalog context.repository.id p.repository
  pub same_identity : p.repository.identity ≡ context.repository.identity
  pub same_snapshot : p.snapshot ≡ context.snapshot
  pub parsed : Parse.parse raw_patch ≡ ok p.patch
  pub bounded : IsBounded raw_patch p.patch
  pub verified : IsVerified first middle last p.repository p.snapshot raw_patch p.patch

git_apply_check-eq-ok :
    (sys : System) (repository : ResolvedRepository) (patch : ParsedPatch)
    → git_apply_check sys repository patch ≡ ok tt
    → (out : Text) × (run_apply_check sys repository patch ≡ ok out)
unfolding git_apply_check
git_apply_check-eq-ok sys repository patch h =
    let (out, ran, rest) =
      bind-eq-ok (map_err (λ _. CoreError.apply_check) (run_apply_check sys repository patch)) _
        h in
    (out, map_err-eq-ok _ (run_apply_check sys repository patch) ran)

approved :
    (first middle last : System) (catalog : RepositoryCatalog) (context : GenerationContext)
    (raw_patch : Text) (p : ValidatedProposal)
    → validate_candidate first middle last catalog context raw_patch ≡ ok p
    → IsApproved first middle last catalog context raw_patch p
unfolding validate_candidate
approved first middle last catalog context raw_patch p h =
    let (current, r, h1) = bind-eq-ok _ _ h in
    let (u1, i, h2) = bind-eq-ok _ _ h1 in
    let (u2, v, h3) = bind-eq-ok _ _ h2 in
    let (patch, q, h4) = bind-eq-ok _ _ h3 in
    let (u3, paths, h5) = bind-eq-ok _ _ h4 in
    let (u4, check, h6) = bind-eq-ok _ _ h5 in
    let (u5, w, end) = bind-eq-ok _ _ h6 in
    let parsed = map_err-eq-ok _ _ q in
    subst (IsApproved first middle last catalog context raw_patch) (ok-injective end) (record {
      resolved = (resolve_iff first catalog context.repository.id current).0 (map_err-eq-ok _ _ r);
      same_identity = identity_eq→eq _ _ (passed _ _ i);
      same_snapshot = refl;
      parsed = parsed;
      bounded = parse-IsBounded raw_patch patch parsed;
      verified =
          verifies first middle last current context.snapshot raw_patch patch parsed
            (map_err-eq-ok _ _ v) (map_err-eq-ok _ _ paths)
            (git_apply_check-eq-ok middle current patch check) (map_err-eq-ok _ _ w);
    })

approves :
    (first middle last : System) (catalog : RepositoryCatalog) (context : GenerationContext)
    (raw_patch : Text) (p : ValidatedProposal)
    → IsApproved first middle last catalog context raw_patch p
    → validate_candidate first middle last catalog context raw_patch ≡ ok p
unfolding validate_candidate git_apply_check
approves first middle last catalog context raw_patch p a =
    let v = a.verified in
    let same : identity_eq p.repository.identity context.repository.identity ≡ true =
      subst (λ (i : RepositoryIdentity). identity_eq p.repository.identity i ≡ true) a.same_identity
        (identity_eq_refl p.repository.identity) in
    let kept : ◌≡◌ {A = Result SnapshotError RepositorySnapshot} (ok p.snapshot)
        (ok context.snapshot) =
      ap (λ (s : RepositorySnapshot). ok s) a.same_snapshot in
    rw
      (
        (resolve_iff first catalog context.repository.id p.repository).1 a.resolved,
        same,
        (revalidate_iff first p.repository context.snapshot).1 (v.captured_first ∙ kept),
        a.parsed,
        All-validate_paths middle p.repository p.patch.files v.paths,
        (verified-applicable first middle last p.repository p.snapshot raw_patch p.patch a.parsed
            v).1,
        (revalidate_iff last p.repository context.snapshot).1 (v.captured_last ∙ kept),
      )
      (ap
        (λ (s : RepositorySnapshot).
          ok (record { repository = p.repository; snapshot = s; patch = p.patch }))
        (sym a.same_snapshot))

-- A candidate becomes the proposal `p` exactly if the following holds. The repository of `p` is that of
-- the first entry of the allow-list with the context's identifier: the top of a work tree that is not
-- bare and no submodule, by the answers of git, with the identity that the context has. `p` keeps the
-- snapshot of the context, which is captured again, with no operation in progress, both before and after
-- the other checks. The patch of `p` is that which the candidate's text parses to, within the bounds of
-- the parser. Every directory on the way of each of its paths is a plain one and every target is fit for
-- its change. And `git apply --check`, run by a binary with the digest and the inode of the allow-list's,
-- succeeds on exactly the candidate's text.
pub validate_candidate_iff :
    (first middle last : System) (catalog : RepositoryCatalog) (context : GenerationContext)
    (raw_patch : Text) (p : ValidatedProposal)
    → (validate_candidate first middle last catalog context raw_patch ≡ ok p)
      ↔ IsApproved first middle last catalog context raw_patch p
validate_candidate_iff first middle last catalog context raw_patch p = (
  approved first middle last catalog context raw_patch p,
  approves first middle last catalog context raw_patch p,
)
