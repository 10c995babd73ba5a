-- ===== src/Core/System/Binary.antt =====
-- When the git binary is still the one that was resolved, and what a run of it is.
use mathlib.Core.Option.{some-injective}
use omarchy_premonition.Core.System.{System}
use omarchy_premonition.Core.Repository.ChangePath.{is_file-eq}
use omarchy_premonition.Core.Error.{GitError}
use omarchy_premonition.Core.Model.{GitBinary}
use omarchy_premonition.Core.System.{
  run_git, revalidate_binary, max_git_binary_bytes, is_file, hash_binary, FileMetadata, FileKind,
}
use omarchy_premonition.Base.{
  ℕ, ◌≤◌, not, ◌||◌, List, ◌↔◌, some, ◌≡◌, refl, sym, ◌∙◌, subst, ltb, ◌==◌, ==_iff, ==_refl,
  not_ltb→le, le→not_ltb, ||-eq-false, not-eq-false, Text, text_eq, text_eq→eq, text_eq_refl,
  length, reject, ok_or, ok-injective, bind-eq-ok, reject-eq-ok, passed, ok_or-eq-ok, ok,
}

-- The path is canonical, and is that of a regular file of the same device and inode, whose contents are
-- within the bound and have the same digest.
pub record IsSameBinary (sys : System) (git : GitBinary) : Type 0 where
  pub canonical : sys.canonicalize git.location ≡ some git.location
  pub at : FileMetadata
  pub here : sys.metadata git.location ≡ some at
  pub regular : at.kind ≡ FileKind.file
  pub device : at.dev ≡ git.device
  pub inode : at.ino ≡ git.inode
  pub short : at.len ≤ max_git_binary_bytes
  pub contents : Text
  pub afterwards : FileMetadata
  pub read : sys.read_file git.location ≡ some (contents, afterwards)
  pub small : length contents ≤ max_git_binary_bytes
  pub digest : sys.sha256 contents ≡ git.digest

-- The contents of a binary that were hashed.
hash_binary-eq-ok :
    (sys : System) (path : Text) (limit : ℕ) (at : FileMetadata) (digest : Text)
    → sys.metadata path ≡ some at
    → hash_binary sys path limit ≡ ok digest
    → (at.len ≤ limit)
      × (r : Text × FileMetadata) × (sys.read_file path ≡ some r)
      × (length r.0 ≤ limit)
      × (sys.sha256 r.0 ≡ digest)
unfolding hash_binary
hash_binary-eq-ok sys path limit at digest m h =
    let (before, e0, h0) = bind-eq-ok (ok_or (sys.metadata path) GitError.io) _ h in
    let same : before ≡ at = some-injective _ _ (sym (ok_or-eq-ok _ _ e0) ∙ m) in
    let (u1, e1, h1) = bind-eq-ok (reject (ltb limit before.len) GitError.unsafe_binary) _ h0 in
    let (r, e2, h2) = bind-eq-ok (ok_or (sys.read_file path) GitError.io) _ h1 in
    let (u3, e3, h3) = bind-eq-ok (reject (ltb limit (length r.0)) GitError.unsafe_binary) _ h2 in
    (
      subst (λ (x : FileMetadata). x.len ≤ limit) same
          (not_ltb→le limit before.len (reject-eq-ok _ _ e1)),
      r,
      ok_or-eq-ok _ _ e2,
      not_ltb→le limit (length r.0) (reject-eq-ok _ _ e3),
      ok-injective h3,
    )

same_binary :
    (sys : System) (git : GitBinary) → revalidate_binary sys git ≡ ok tt → IsSameBinary sys git
unfolding revalidate_binary
same_binary sys git h =
    let (c, e0, h0) =
      bind-eq-ok (ok_or (sys.canonicalize git.location) GitError.binary_changed) _ h in
    let (at, e1, h1) = bind-eq-ok (ok_or (sys.metadata c) GitError.binary_changed) _ h0 in
    let (u2, e2, h2) =
      bind-eq-ok
        (reject
          (not (text_eq c git.location)
            || not (is_file at.kind)
            || not (at.dev == git.device)
            || not (at.ino == git.inode))
          GitError.binary_changed)
        _ h1 in
    let (d, e3, h3) = bind-eq-ok (hash_binary sys c max_git_binary_bytes) _ h2 in
    let (t1, ino) = ||-eq-false _ _ (reject-eq-ok _ _ e2) in
    let (t2, dev) = ||-eq-false _ _ t1 in
    let (path, file) = ||-eq-false _ _ t2 in
    let same = text_eq→eq c git.location (not-eq-false _ path) in
    let here = ok_or-eq-ok _ _ e1 in
    let (short, r, read, small, sha) = hash_binary-eq-ok sys c max_git_binary_bytes at d here e3 in
    record {
      canonical =
          subst (λ (x : Text). sys.canonicalize git.location ≡ some x) same (ok_or-eq-ok _ _ e0);
      at = at;
      here = subst (λ (x : Text). sys.metadata x ≡ some at) same here;
      regular = is_file-eq at.kind (not-eq-false _ file);
      device = (==_iff at.dev git.device).0 (not-eq-false _ dev);
      inode = (==_iff at.ino git.inode).0 (not-eq-false _ ino);
      short = short;
      contents = r.0;
      afterwards = r.1;
      read = subst (λ (x : Text). sys.read_file x ≡ some r) same read;
      small = small;
      digest = sha ∙ text_eq→eq d git.digest (passed _ _ h3);
    }

binary_same :
    (sys : System) (git : GitBinary) → IsSameBinary sys git → revalidate_binary sys git ≡ ok tt
unfolding revalidate_binary hash_binary
binary_same sys git v =
    rw
      (
        v.canonical,
        v.here,
        text_eq_refl git.location,
        v.regular,
        v.device,
        v.inode,
        ==_refl git.device,
        ==_refl git.inode,
        le→not_ltb max_git_binary_bytes v.at.len v.short,
        v.read,
        le→not_ltb max_git_binary_bytes (length v.contents) v.small,
        v.digest,
        text_eq_refl git.digest,
      )
      refl

-- A run of git gives `out` exactly if the binary is the same and the process gives it.
pub run_git_iff :
    (sys : System) (git : GitBinary) (root : Text) (arguments : List Text) (input out : Text)
    → (run_git sys git root arguments input ≡ ok out)
      ↔ (IsSameBinary sys git × (sys.run root arguments input ≡ ok out))
unfolding run_git
run_git_iff sys git root arguments input out = (
  λ h.
      let (u, same, ran) = bind-eq-ok (revalidate_binary sys git) _ h in
      (same_binary sys git same, ran),
  λ v. rw (binary_same sys git v.0) v.1,
)
