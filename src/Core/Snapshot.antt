-- ===== src/Core/Snapshot.antt =====
-- crates/premonition-core/src/snapshot.rs: the token of a repository's state.
pub mod Equality
pub mod Bounds
use omarchy_premonition.Core.Enumeration.{parse_nul_paths}
use omarchy_premonition.Core.Repository.{assert_operation_safe}
use omarchy_premonition.Core.Model.{ResolvedRepository, RepositorySnapshot}
use omarchy_premonition.Core.Error.{SnapshotError, RepositoryError, GitError}
use omarchy_premonition.Base.{
  ℕ, zero, suc, ◌+◌, ◌*◌, ◌/◌, ◌%◌, ◌^◌, Bool, not, ◌&&◌, ◌||◌, List, [], ◌∷◌, ◌++◌, ltb, leb, ◌==◌,
  Text, text, text_eq, contains, is_ascii_hexdigit, length, is_empty, all, is_utf8, trim_line_ends,
  Result, ◌>>=◌, ◌>>◌, reject, ok_or, map_err, ok, err,
}
use omarchy_premonition.Core.System.{is_file, FileKind, FileMetadata, Lookup, System, run_git}
use omarchy_premonition.Apply.Publication.{join}

abbrev pub max_snapshot_files : ℕ
max_snapshot_files = 4096

abbrev pub max_snapshot_bytes : ℕ
max_snapshot_bytes = 64 * 1024 * 1024

unfoldable pub utf8_line : Text → Result SnapshotError Text
utf8_line bytes = do
  reject (not (is_utf8 bytes)) SnapshotError.git
  reject (is_empty (trim_line_ends bytes) || contains 0x0a (trim_line_ends bytes)) SnapshotError.git
  ok (trim_line_ends bytes)

-- `to_be_bytes` of an integer of the given bytes.
unfoldable pub be_bytes : ℕ → ℕ → Text
be_bytes zero n = []
be_bytes (suc width) n = be_bytes width (n / 256) ++ (n % 256 ∷ [])

unfoldable pub hash_metadata : FileMetadata → Text
unfolding be_bytes
hash_metadata at =
    be_bytes 8 at.dev
    ++ (be_bytes 8 at.ino
        ++ (be_bytes 4 at.mode
            ++ (be_bytes 8 at.nlink
                ++ (be_bytes 8 at.len
                    ++ (be_bytes 8 at.mtime
                        ++ (be_bytes 8 at.mtime_nsec
                            ++ (be_bytes 8 at.ctime ++ be_bytes 8 at.ctime_nsec)))))))

unfoldable pub same_metadata : FileMetadata → FileMetadata → Bool
same_metadata left right =
    left.dev == right.dev
    && left.ino == right.ino
    && left.mode == right.mode
    && left.nlink == right.nlink
    && left.len == right.len
    && left.mtime == right.mtime
    && left.mtime_nsec == right.mtime_nsec
    && left.ctime == right.ctime
    && left.ctime_nsec == right.ctime_nsec

-- `hash_file_stable`: what it feeds to the hash.
unfoldable pub read_stable : System → Text → FileMetadata → Result SnapshotError Text
unfolding same_metadata
read_stable sys path before = do
  read ← ok_or (sys.read_file path) SnapshotError.io
  reject (not (same_metadata before read.1)) SnapshotError.unstable
  ok read.0

unfoldable pub hash_regular_file : System → Text → ℕ → Result SnapshotError Text
unfolding read_stable
hash_regular_file sys path limit = elim (sys.symlink_metadata path) [
  | Lookup.found at ↦ do
    reject (not (is_file at.kind) || ltb limit at.len) SnapshotError.io
    contents ← read_stable sys path at
    ok (sys.sha256 contents)
  | _ ↦ err SnapshotError.io
]

-- What one path adds to the hash, and the bytes of files so far.
unfoldable pub hash_found :
    System → Text → FileMetadata → FileKind → ℕ → Result SnapshotError (Text × ℕ)
unfolding read_stable hash_metadata
hash_found sys path at FileKind.file total = do
  reject (leb (2 ^ 64) (total + at.len)) SnapshotError.too_large
  reject (ltb max_snapshot_bytes (total + at.len)) SnapshotError.too_large
  contents ← read_stable sys path at
  ok (text "file" ++ (0 ∷ (hash_metadata at ++ contents)), total + at.len)
hash_found sys path at FileKind.symlink total = do
  target ← ok_or (sys.read_link path) SnapshotError.io
  ok (text "symlink" ++ (0 ∷ (hash_metadata at ++ target)), total)
hash_found sys path at _ total = err SnapshotError.unsafe_file_type

unfoldable pub hash_lookup : System → Text → ℕ → Lookup → Result SnapshotError (Text × ℕ)
unfolding hash_found
hash_lookup sys path total (Lookup.found at) = hash_found sys path at at.kind total
hash_lookup sys path total Lookup.missing = ok (text "missing" ++ (0 ∷ []), total)
hash_lookup sys path total Lookup.failed = err SnapshotError.io

unfoldable pub hash_paths : System → Text → ℕ → List Text → Result SnapshotError (Text × ℕ)
unfolding hash_lookup join
hash_paths sys root total [] = ok ([], total)
hash_paths sys root total (relative ∷ paths) = do
  here ← hash_lookup sys (join root relative) total (sys.symlink_metadata (join root relative))
  rest ← hash_paths sys root here.1 paths
  ok (text "path" ++ (0 ∷ (relative ++ (0 ∷ (here.0 ++ rest.0)))), rest.1)

abbrev pub repository_failed {ℓ} : {A : Type ℓ} → Result RepositoryError A → Result SnapshotError A
repository_failed r = map_err (λ _. SnapshotError.repository) r

abbrev pub git_failed {ℓ} : {A : Type ℓ} → Result GitError A → Result SnapshotError A
git_failed r = map_err (λ _. SnapshotError.git) r

abbrev pub is_object_id : Text → Bool
is_object_id oid = (length oid == 40 || length oid == 64) && all is_ascii_hexdigit oid

-- All of it is read at one time.
unfoldable pub capture : System → ResolvedRepository → Result SnapshotError RepositorySnapshot
unfolding utf8_line hash_regular_file hash_paths parse_nul_paths join all is_ascii_hexdigit
capture sys repository = do
  repository_failed (assert_operation_safe sys repository)
  head_bytes ← git_failed (
      run_git sys repository.git repository.root
        (text "rev-parse" ∷ text "--verify" ∷ text "HEAD^{commit}" ∷ []) [])
  head_oid ← utf8_line head_bytes
  reject (not (is_object_id head_oid)) SnapshotError.git
  head_ref ← git_failed (
      run_git sys repository.git repository.root
        (text "rev-parse" ∷ text "--abbrev-ref" ∷ text "HEAD" ∷ []) [])
  index_digest ← hash_regular_file sys (join repository.git_dir (text "index")) (64 * 1024 * 1024)
  names ← git_failed (
      run_git sys repository.git repository.root
        (text "ls-files"
          ∷ text "-z"
          ∷ text "--cached"
          ∷ text "--others"
          ∷ text "--exclude-standard"
          ∷ [])
        [])
  paths ← parse_nul_paths names
  reject (ltb max_snapshot_files (length paths)) SnapshotError.too_large
  hashed ← hash_paths sys repository.root 0 paths
  reject (leb (2 ^ 32) (length paths)) SnapshotError.too_large
  ok (record {
    head_oid = head_oid;
    head_ref_digest = sys.sha256 head_ref;
    index_digest = index_digest;
    worktree_digest = sys.sha256 hashed.0;
    file_count = length paths;
    total_bytes = hashed.1;
  })

unfoldable pub snapshot_eq : RepositorySnapshot → RepositorySnapshot → Bool
unfolding text_eq
snapshot_eq a b =
    text_eq a.head_oid b.head_oid
    && text_eq a.head_ref_digest b.head_ref_digest
    && text_eq a.index_digest b.index_digest
    && text_eq a.worktree_digest b.worktree_digest
    && a.file_count == b.file_count
    && a.total_bytes == b.total_bytes

unfoldable pub revalidate :
    System → ResolvedRepository → RepositorySnapshot → Result SnapshotError (Unit {0})
unfolding capture snapshot_eq
revalidate sys repository snapshot = do
  current ← capture sys repository
  reject (not (snapshot_eq current snapshot)) SnapshotError.stale
