-- ===== src/Core/System.antt =====
-- What the policy reads of the file system and of git, and crates/premonition-core/src/git.rs: the git
-- binary and its identity.
pub mod Binary
use omarchy_premonition.Core.Error.{GitError}
use omarchy_premonition.Core.Model.{GitBinary}
use omarchy_premonition.Base.{
  ℕ, ◌*◌, Bool, true, false, not, ◌||◌, List, Option, ltb, ◌==◌, Text, text, text_eq, starts_with,
  length, Result, ◌>>=◌, ◌>>◌, reject, ok_or, ok,
}

pub data FileKind : Type 0 where
  file directory symlink other : FileKind

-- `std::fs::FileMetadata`.
pub record FileMetadata : Type 0 where
  pub kind : FileKind
  pub mode : ℕ
  pub nlink : ℕ
  pub len : ℕ
  pub dev : ℕ
  pub ino : ℕ
  pub mtime : ℕ
  pub mtime_nsec : ℕ
  pub ctime : ℕ
  pub ctime_nsec : ℕ

-- `fs::symlink_metadata`, with `ErrorKind::NotFound` apart from the other errors.
pub data Lookup : Type 0 where
  found : FileMetadata → Lookup
  missing failed : Lookup

-- What the file system, git and SHA-256 answer at one time. `read_file` reads an open file to its end,
-- with its metadata after that; `run` is the git process, by its directory, arguments and input.
pub record System : Type 0 where
  pub canonicalize : Text → Option Text
  pub metadata : Text → Option FileMetadata
  pub symlink_metadata : Text → Lookup
  pub read_link : Text → Option Text
  pub read_file : Text → Option (Text × FileMetadata)
  pub run : Text → List Text → Text → Result GitError Text
  pub sha256 : Text → Text

abbrev pub is_file : FileKind → Bool
is_file FileKind.file = true
is_file _ = false

abbrev pub is_directory : FileKind → Bool
is_directory FileKind.directory = true
is_directory _ = false

abbrev pub is_found : Lookup → Bool
is_found (Lookup.found m) = true
is_found _ = false

-- `MAX_GIT_BINARY_BYTES`.
abbrev pub max_git_binary_bytes : ℕ
max_git_binary_bytes = 128 * 1024 * 1024

-- `hash_file` of git.rs.
unfoldable pub hash_binary : System → Text → ℕ → Result GitError Text
hash_binary sys path limit = do
  before ← ok_or (sys.metadata path) GitError.io
  reject (ltb limit before.len) GitError.unsafe_binary
  read ← ok_or (sys.read_file path) GitError.io
  reject (ltb limit (length read.0)) GitError.unsafe_binary
  ok (sys.sha256 read.0)

unfoldable pub resolve_binary : System → Text → Result GitError GitBinary
unfolding hash_binary starts_with
resolve_binary sys path = do
  reject (not (starts_with (text "/") path)) GitError.unsafe_binary
  canonical ← ok_or (sys.canonicalize path) GitError.unsafe_binary
  at ← ok_or (sys.metadata canonical) GitError.unsafe_binary
  reject (not (is_file at.kind) || ltb max_git_binary_bytes at.len) GitError.unsafe_binary
  digest ← hash_binary sys canonical max_git_binary_bytes
  ok (record { location = canonical; digest = digest; device = at.dev; inode = at.ino })

-- The digest is read only if the tests before it pass.
unfoldable pub revalidate_binary : System → GitBinary → Result GitError (Unit {0})
unfolding hash_binary text_eq
revalidate_binary sys git = do
  canonical ← ok_or (sys.canonicalize git.location) GitError.binary_changed
  at ← ok_or (sys.metadata canonical) GitError.binary_changed
  reject
      (not (text_eq canonical git.location)
        || not (is_file at.kind)
        || not (at.dev == git.device)
        || not (at.ino == git.inode))
      GitError.binary_changed
  digest ← hash_binary sys canonical max_git_binary_bytes
  reject (not (text_eq digest git.digest)) GitError.binary_changed

-- `GitBinary::run`.
unfoldable pub run_git : System → GitBinary → Text → List Text → Text → Result GitError Text
unfolding revalidate_binary
run_git sys git root arguments input = do revalidate_binary sys git; sys.run root arguments input
