-- ===== src/Core/Catalog.antt =====
-- crates/premonition-core/src/repository.rs: the allow-list of repositories.
pub mod Entries
pub mod Resolution
use omarchy_premonition.Core.Error.{RepositoryError}
use omarchy_premonition.Core.Model.{ResolvedRepository, GitBinary}
use omarchy_premonition.Base.{
  ℕ, ◌*◌, Bool, true, false, not, ◌&&◌, ◌||◌, List, [], ◌∷◌, map, Option, none, some, ltb, ◌==◌,
  if◌then◌else◌, Text, text, text_eq, starts_with, is_plain_byte, text_lt, chars, is_control,
  is_bidi_embedding, length, is_empty, all, any, is_utf8, Result, ◌>>=◌, ◌>>◌, reject, ok_or,
  map_err, ok, err,
}
use omarchy_premonition.Core.System.{is_file, is_directory, resolve_binary, Lookup, System}
use omarchy_premonition.Core.Repository.{resolve_identity}
use omarchy_premonition.Limits.{max_repositories}

pub record RawRepository : Type 0 where
  pub id : Text
  pub label : Text
  pub path : Text

pub record RawConfig : Type 0 where
  pub version : ℕ
  pub git_binary : Text
  pub repositories : List RawRepository

pub record RepositoryEntry : Type 0 where
  pub id : Text
  pub label : Text
  pub root : Text

-- The map of entries is a list in the order of the identifiers.
pub record RepositoryCatalog : Type 0 where
  pub git : GitBinary
  pub entries : List RepositoryEntry

-- `MAX_CONFIG_BYTES` and `CONFIG_VERSION`.
abbrev pub max_config_bytes : ℕ
max_config_bytes = 64 * 1024

abbrev pub config_version : ℕ
config_version = 1

unfoldable pub validate_id : Text → Result RepositoryError (Unit {0})
unfolding all is_plain_byte
validate_id value =
    reject (is_empty value || ltb 64 (length value) || not (all is_plain_byte value))
      RepositoryError.config

abbrev pub is_bad_label_char : ℕ → Bool
is_bad_label_char c = (is_control c && not (c == 0x09)) || is_bidi_embedding c

unfoldable pub validate_label : Text → Result RepositoryError (Unit {0})
validate_label value =
    reject (is_empty value || ltb 80 (length value) || any is_bad_label_char (chars value))
      RepositoryError.config

unfoldable pub find_entry : Text → List RepositoryEntry → Option RepositoryEntry
unfolding text_eq
find_entry id [] = none
find_entry id (entry ∷ entries) =
    let rest = find_entry id entries in if text_eq entry.id id then some entry else rest

unfoldable pub insert_entry : RepositoryEntry → List RepositoryEntry → List RepositoryEntry
unfolding text_lt
insert_entry entry [] = entry ∷ []
insert_entry entry (e ∷ es) =
    let rest = insert_entry entry es in if text_lt entry.id e.id then entry ∷ (e ∷ es) else e ∷ rest

abbrev pub is_known : Option RepositoryEntry → Bool
is_known none = false
is_known (some entry) = true

-- One turn of the loop of `from_raw`, with the roots seen and the entries so far.
unfoldable pub accept_raw :
    System
    → List Text
    → List RepositoryEntry
    → RawRepository
    → Result RepositoryError RepositoryEntry
unfolding validate_id validate_label find_entry text_eq starts_with
accept_raw sys roots entries raw = do
  validate_id raw.id
  validate_label raw.label
  reject (not (starts_with (text "/") raw.path)) RepositoryError.config
  root ← ok_or (sys.canonicalize raw.path) RepositoryError.unsafe
  at ← ok_or (sys.metadata root) RepositoryError.unsafe
  reject (not (is_directory at.kind) || any (text_eq root) roots) RepositoryError.config
  reject (is_known (find_entry raw.id entries)) RepositoryError.config
  ok (record { id = raw.id; label = raw.label; root = root })

unfoldable pub collect :
    System
    → List Text
    → List RepositoryEntry
    → List RawRepository
    → Result RepositoryError (List RepositoryEntry)
unfolding accept_raw insert_entry
collect sys roots entries [] = ok entries
collect sys roots entries (raw ∷ raws) = do
  entry ← accept_raw sys roots entries raw
  collect sys (entry.root ∷ roots) (insert_entry entry entries) raws

unfoldable pub resolve_entry :
    System → GitBinary → RepositoryEntry → Result RepositoryError ResolvedRepository
unfolding resolve_identity
resolve_entry sys git entry = do
  identity ← resolve_identity sys git entry.root
  ok (record {
    id = entry.id;
    label = entry.label;
    root = identity.root;
    git_dir = identity.git_dir;
    identity = identity;
    git = git;
  })

unfoldable pub resolve :
    System → RepositoryCatalog → Text → Result RepositoryError ResolvedRepository
unfolding find_entry resolve_entry
resolve sys catalog id = do
  entry ← ok_or (find_entry id catalog.entries) RepositoryError.unknown
  resolve_entry sys catalog.git entry

unfoldable pub resolve_all :
    System → RepositoryCatalog → List RepositoryEntry → Result RepositoryError (Unit {0})
unfolding resolve
resolve_all sys catalog [] = ok tt
resolve_all sys catalog (entry ∷ entries) = do
  _ ← resolve sys catalog entry.id
  resolve_all sys catalog entries

unfoldable pub from_raw : System → RawConfig → Result RepositoryError RepositoryCatalog
unfolding collect resolve_all
from_raw sys config = do
  reject
      (not (config.version == config_version)
        || is_empty config.repositories
        || ltb max_repositories (length config.repositories))
      RepositoryError.config
  git ← map_err (λ _. RepositoryError.git) (resolve_binary sys config.git_binary)
  entries ← collect sys [] [] config.repositories
  resolve_all sys (record { git = git; entries = entries }) entries
  ok (record { git = git; entries = entries })

-- `RepositoryCatalog::load`, with the TOML reader as a parameter.
unfoldable pub load :
    System → (Text → Option RawConfig) → Text → Result RepositoryError RepositoryCatalog
unfolding from_raw
load sys from_toml path = do
  elim (sys.symlink_metadata path) [
    | Lookup.found at ↦
        reject (not (is_file at.kind) || ltb max_config_bytes at.len) RepositoryError.config
    | _ ↦ err RepositoryError.config
  ]
  read ← ok_or (sys.read_file path) RepositoryError.config
  reject (ltb max_config_bytes (length read.0)) RepositoryError.config
  reject (not (is_utf8 read.0)) RepositoryError.config
  config ← ok_or (from_toml read.0) RepositoryError.config
  from_raw sys config

unfoldable pub summaries : RepositoryCatalog → List (Text × Text)
summaries catalog = map (λ (entry : RepositoryEntry). (entry.id, entry.label)) catalog.entries
