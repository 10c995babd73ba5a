-- ===== src/Core/Snapshot/Equality.antt =====
-- The revalidations of identities and snapshots, and equality.
use omarchy_premonition.Core.Model.{ResolvedRepository, RepositorySnapshot, RepositoryIdentity}
use omarchy_premonition.Core.System.{System}
use omarchy_premonition.Base.{
  true, ◌↔◌, ◌≡◌, refl, ap, ◌∙◌, ==_iff, ==_refl, &&-eq-true, text_eq→eq, text_eq_refl, bind-eq-ok,
  passed, ok,
}
use omarchy_premonition.Core.Repository.{identity_eq}
use omarchy_premonition.Core.Snapshot.{snapshot_eq, revalidate, capture}

pub identity_eq→eq : (a b : RepositoryIdentity) → identity_eq a b ≡ true → a ≡ b
unfolding identity_eq
identity_eq→eq a b h =
    let (h1, gi) = &&-eq-true _ _ h in
    let (h2, gd) = &&-eq-true _ _ h1 in
    let (h3, ri) = &&-eq-true _ _ h2 in
    let (h4, rd) = &&-eq-true _ _ h3 in
    let (r, g) = &&-eq-true _ _ h4 in
    λ i. record {
      root = text_eq→eq a.root b.root r i;
      git_dir = text_eq→eq a.git_dir b.git_dir g i;
      root_device = (==_iff a.root_device b.root_device).0 rd i;
      root_inode = (==_iff a.root_inode b.root_inode).0 ri i;
      git_device = (==_iff a.git_device b.git_device).0 gd i;
      git_inode = (==_iff a.git_inode b.git_inode).0 gi i;
    }

pub identity_eq_refl : (a : RepositoryIdentity) → identity_eq a a ≡ true
unfolding identity_eq
identity_eq_refl a =
    rw
      (
        text_eq_refl a.root,
        text_eq_refl a.git_dir,
        ==_refl a.root_device,
        ==_refl a.root_inode,
        ==_refl a.git_device,
        ==_refl a.git_inode,
      )
      refl

pub snapshot_eq→eq : (a b : RepositorySnapshot) → snapshot_eq a b ≡ true → a ≡ b
unfolding snapshot_eq
snapshot_eq→eq a b h =
    let (h1, t) = &&-eq-true _ _ h in
    let (h2, f) = &&-eq-true _ _ h1 in
    let (h3, w) = &&-eq-true _ _ h2 in
    let (h4, x) = &&-eq-true _ _ h3 in
    let (o, r) = &&-eq-true _ _ h4 in
    λ i. record {
      head_oid = text_eq→eq a.head_oid b.head_oid o i;
      head_ref_digest = text_eq→eq a.head_ref_digest b.head_ref_digest r i;
      index_digest = text_eq→eq a.index_digest b.index_digest x i;
      worktree_digest = text_eq→eq a.worktree_digest b.worktree_digest w i;
      file_count = (==_iff a.file_count b.file_count).0 f i;
      total_bytes = (==_iff a.total_bytes b.total_bytes).0 t i;
    }

pub snapshot_eq_refl : (a : RepositorySnapshot) → snapshot_eq a a ≡ true
unfolding snapshot_eq
snapshot_eq_refl a =
    rw
      (
        text_eq_refl a.head_oid,
        text_eq_refl a.head_ref_digest,
        text_eq_refl a.index_digest,
        text_eq_refl a.worktree_digest,
        ==_refl a.file_count,
        ==_refl a.total_bytes,
      )
      refl

-- A snapshot is still valid exactly if taking it again gives the same one.
pub revalidate_iff :
    (sys : System) (repository : ResolvedRepository) (snapshot : RepositorySnapshot)
    → (revalidate sys repository snapshot ≡ ok tt) ↔ (capture sys repository ≡ ok snapshot)
unfolding revalidate
revalidate_iff sys repository snapshot = (
  λ h.
      let (current, c, same) = bind-eq-ok (capture sys repository) _ h in
      c ∙ ap (λ (s : RepositorySnapshot). ok s) (snapshot_eq→eq current snapshot (passed _ _ same)),
  λ c. rw (c, snapshot_eq_refl snapshot) refl,
)
