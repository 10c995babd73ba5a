-- ===== src/Core/Snapshot/Bounds.antt =====
-- What a snapshot counts, and what bounds it.
use omarchy_premonition.Core.Enumeration.{parse_nul_paths}
use omarchy_premonition.Core.Repository.{assert_operation_safe}
use omarchy_premonition.Core.Error.{SnapshotError}
use omarchy_premonition.Core.Model.{RepositorySnapshot, ResolvedRepository}
use omarchy_premonition.Core.System.{
  FileKind, FileMetadata, Lookup, System, run_git, revalidate_binary,
}
use omarchy_premonition.Base.{
  ℕ, ◌+◌, ◌^◌, ◌≤◌, true, not, List, [], ◌∷◌, ◌≡◌, refl, subst, arith, ltb, leb, not_ltb→le, Text,
  text, length, reject, ok_or, ok-injective, bind-eq-ok, reject-eq-ok, passed, map_err-eq-ok, ok,
}
use omarchy_premonition.Apply.Publication.{join}
use omarchy_premonition.Core.Snapshot.{
  read_stable, hash_lookup, hash_found, is_object_id, max_snapshot_files, max_snapshot_bytes,
  utf8_line, hash_regular_file, hash_paths, repository_failed, git_failed, capture,
}

-- The bytes that a path adds: the length of a regular file.
abbrev file_len : FileKind → FileMetadata → ℕ
file_len FileKind.file at = at.len
file_len _ at = 0

abbrev found_len : Lookup → ℕ
found_len (Lookup.found at) = file_len at.kind at
found_len _ = 0

-- The lengths of all regular files among the paths.
unfoldable pub file_bytes : System → Text → List Text → ℕ
file_bytes sys root [] = 0
file_bytes sys root (relative ∷ paths) =
    found_len (sys.symlink_metadata (join root relative)) + file_bytes sys root paths

abbrev pub listing : List Text
listing =
    text "ls-files" ∷ text "-z" ∷ text "--cached" ∷ text "--others" ∷ text "--exclude-standard" ∷ []

-- A snapshot that counts the paths that git lists and the bytes of their files, within the bounds.
pub record IsBounded (sys : System) (repository : ResolvedRepository) (s : RepositorySnapshot)
    : Type 0 where
  pub object_id : is_object_id s.head_oid ≡ true
  pub names : Text
  pub paths : List Text
  pub listed : sys.run repository.root listing [] ≡ ok names
  pub parsed : parse_nul_paths names ≡ ok paths
  pub counted : s.file_count ≡ length paths
  pub summed : s.total_bytes ≡ file_bytes sys repository.root paths
  pub files : length paths ≤ max_snapshot_files
  pub bytes : file_bytes sys repository.root paths ≤ max_snapshot_bytes

-- The total moves on by `n` and stays within the bound.
abbrev Adds : ℕ → ℕ → ℕ → Type 0
Adds total n r = (r ≡ total + n) × (r ≤ max_snapshot_bytes)

module _ (sys : System) where
  hash_found-Adds :
      (path : Text) (at : FileMetadata) (kind : FileKind) (total : ℕ) (r : Text × ℕ)
      → total ≤ max_snapshot_bytes
      → hash_found sys path at kind total ≡ ok r
      → Adds total (file_len kind at) r.1
  unfolding hash_found
  hash_found-Adds path at FileKind.file total r t h =
      let size = total + at.len in
      let (u, o, h1) = bind-eq-ok (reject (leb (2 ^ 64) size) SnapshotError.too_large) _ h in
      let (v, b, h2) =
        bind-eq-ok (reject (ltb max_snapshot_bytes size) SnapshotError.too_large) _ h1 in
      let (c, k, h3) = bind-eq-ok (read_stable sys path at) _ h2 in
      subst (λ (x : Text × ℕ). Adds total at.len x.1) (ok-injective h3)
        (refl, not_ltb→le max_snapshot_bytes size (reject-eq-ok _ _ b))
  hash_found-Adds path at FileKind.symlink total r t h =
      let (c, k, h1) = bind-eq-ok (ok_or (sys.read_link path) SnapshotError.io) _ h in
      subst (λ (x : Text × ℕ). Adds total 0 x.1) (ok-injective h1) (omega arith, t)
  hash_found-Adds path at FileKind.directory total r t h = cc
  hash_found-Adds path at FileKind.other total r t h = cc

  hash_lookup-Adds :
      (path : Text) (total : ℕ) (l : Lookup) (r : Text × ℕ)
      → total ≤ max_snapshot_bytes
      → hash_lookup sys path total l ≡ ok r
      → Adds total (found_len l) r.1
  unfolding hash_lookup
  hash_lookup-Adds path total (Lookup.found at) r t h = hash_found-Adds path at at.kind total r t h
  hash_lookup-Adds path total Lookup.missing r t h =
      subst (λ (x : Text × ℕ). Adds total 0 x.1) (ok-injective h) (omega arith, t)
  hash_lookup-Adds path total Lookup.failed r t h = cc

  hash_paths-Adds :
      (root : Text) (total : ℕ) (paths : List Text) (r : Text × ℕ)
      → total ≤ max_snapshot_bytes
      → hash_paths sys root total paths ≡ ok r
      → Adds total (file_bytes sys root paths) r.1
  unfolding hash_paths file_bytes
  hash_paths-Adds root total [] r t h =
      subst (λ (x : Text × ℕ). Adds total 0 x.1) (ok-injective h) (omega arith, t)
  hash_paths-Adds root total (relative ∷ paths) r t h =
      let path = join root relative in
      let (here, k, h1) = bind-eq-ok (hash_lookup sys path total (sys.symlink_metadata path)) _ h in
      let (rest, l, h2) = bind-eq-ok (hash_paths sys root here.1 paths) _ h1 in
      let first = hash_lookup-Adds path total (sys.symlink_metadata path) here t k in
      let more = hash_paths-Adds root here.1 paths rest first.1 l in
      subst
        (λ (x : Text × ℕ).
          Adds total (found_len (sys.symlink_metadata path) + file_bytes sys root paths) x.1)
        (ok-injective h2) (omega (arith, first.0, more.0), more.1)

  -- If a capture succeeds, the commit of the snapshot has forty or sixty-four hexadecimal digits, its
  -- number of files is that of the paths that git lists, its bytes are the sum of the lengths of the
  -- regular files among these, and neither is more than its bound.
  pub capture-IsBounded :
      (repository : ResolvedRepository) (s : RepositorySnapshot)
      → capture sys repository ≡ ok s
      → IsBounded sys repository s
  unfolding capture run_git
  capture-IsBounded repository s h =
      let (u0, safe, h0) =
        bind-eq-ok (repository_failed (assert_operation_safe sys repository)) _ h in
      let (head_bytes, e1, h1) =
        bind-eq-ok (git_failed (run_git sys repository.git repository.root _ [])) _ h0 in
      let (head_oid, e2, h2) = bind-eq-ok (utf8_line head_bytes) _ h1 in
      let (u3, e3, h3) = bind-eq-ok (reject (not (is_object_id head_oid)) SnapshotError.git) _ h2 in
      let (head_ref, e4, h4) =
        bind-eq-ok (git_failed (run_git sys repository.git repository.root _ [])) _ h3 in
      let (index, e5, h5) = bind-eq-ok (hash_regular_file sys _ _) _ h4 in
      let (names, e6, h6) =
        bind-eq-ok (git_failed (run_git sys repository.git repository.root _ [])) _ h5 in
      let (paths, e7, h7) = bind-eq-ok (parse_nul_paths names) _ h6 in
      let (u8, e8, h8) =
        bind-eq-ok (reject (ltb max_snapshot_files (length paths)) SnapshotError.too_large) _ h7 in
      let (hashed, e9, h9) = bind-eq-ok (hash_paths sys repository.root 0 paths) _ h8 in
      let (u10, e10, h10) =
        bind-eq-ok (reject (leb (2 ^ 32) (length paths)) SnapshotError.too_large) _ h9 in
      let (u11, e11, ran) =
        bind-eq-ok (revalidate_binary sys repository.git) (λ u. sys.run repository.root listing [])
          (map_err-eq-ok _ (run_git sys repository.git repository.root listing []) e6) in
      let total = hash_paths-Adds repository.root 0 paths hashed (ground arith) e9 in
      subst (IsBounded sys repository) (ok-injective h10) (record {
        object_id = passed _ _ e3;
        names = names;
        paths = paths;
        listed = ran;
        parsed = e7;
        counted = refl;
        summed = omega (arith, total.0);
        files = not_ltb→le max_snapshot_files (length paths) (reject-eq-ok _ _ e8);
        bytes = omega (arith, total.0, total.1);
      })
