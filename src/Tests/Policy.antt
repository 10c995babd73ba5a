-- ===== src/Tests/Policy.antt =====
-- The theorems on the policy at concrete inputs.
use omarchy_premonition.Core.Policy.{check_apply}
use omarchy_premonition.Apply.Journal.{validate_transaction_id}
use omarchy_premonition.Core.Policy.Publication.{check_apply-validated, IsTransactionId}
use omarchy_premonition.Core.Policy.Verified.{IsVerified}
use omarchy_premonition.Core.Enumeration.Listed.{parse_nul_paths-IsListed, IsListed}
use omarchy_premonition.Core.Policy.Approval.{validate_candidate_iff, IsApproved}
use omarchy_premonition.Core.Catalog.Entries.{from_raw-IsAllowList, IsAllowList}
use omarchy_premonition.Core.Repository.ChangePath.{validate_change_path_iff, IsAccepted}
use omarchy_premonition.Diff.Parse.{FileChange, ChangeKind}
use omarchy_premonition.Core.Snapshot.Bounds.{IsBounded, capture-IsBounded}
use omarchy_premonition.Base.{
  ℕ, ◌≤◌, List, [], ◌∷◌, ◌++◌, ◌↔◌, Option, none, some, ◌≡◌, refl, if◌then◌else◌, Text, text,
  text_eq, starts_with, ends_with, contains, split, is_ascii_alphanumeric, is_ascii_hexdigit,
  is_plain_byte, pieces, components, text_lt, chars_from, chars, length, all, any, All,
  leading_byte, next_byte, is_utf8_from, trim_line_ends, ok,
}
use omarchy_premonition.Limits.{max_repositories}
use omarchy_premonition.Tests.Patches.{evaluates, modify_patch, main_rs, modify_parsed}
use omarchy_premonition.Core.Repository.{
  utf8_trimmed, rev_parse, resolve_identity, identity_eq, revalidate_identity,
  assert_operation_safe, check_directory, check_directories, check_target, validate_change_path,
}
use omarchy_premonition.Core.Catalog.{
  validate_id, validate_label, find_entry, insert_entry, accept_raw, collect, resolve_entry,
  resolve, resolve_all,
}
use omarchy_premonition.Core.Snapshot.{
  utf8_line, be_bytes, hash_metadata, same_metadata, read_stable, hash_regular_file, hash_found,
  hash_lookup, hash_paths, snapshot_eq, revalidate,
}
use omarchy_premonition.Core.Enumeration.{
  drop_last, components_lt, components_eq, insert_path, accept_paths, parse_nul_paths,
}
use omarchy_premonition.Core.Policy.{validate_paths, git_apply_check, validate_candidate}
use omarchy_premonition.Apply.Publication.{join}
use omarchy_premonition.Base.{
  ℕ, ◌≤◌, List, [], ◌∷◌, ◌++◌, ◌↔◌, Option, none, some, ◌≡◌, refl, if◌then◌else◌, Text, text,
  text_eq, starts_with, ends_with, contains, split, is_ascii_alphanumeric, is_ascii_hexdigit,
  is_plain_byte, pieces, components, text_lt, chars_from, chars, length, all, any, All,
  leading_byte, next_byte, is_utf8_from, trim_line_ends, ok,
}
use omarchy_premonition.Core.Model.{
  ResolvedRepository, RepositorySnapshot, RepositoryIdentity, GitBinary, GenerationContext,
  ValidatedProposal,
}
use omarchy_premonition.Core.System.{Lookup, FileKind}
use omarchy_premonition.Core.System.{
  FileMetadata, System, FileKind, Lookup, resolve_binary, revalidate_binary, run_git, hash_binary,
}
use omarchy_premonition.Base.{
  ℕ, ◌≤◌, List, [], ◌∷◌, ◌++◌, ◌↔◌, Option, none, some, ◌≡◌, refl, if◌then◌else◌, Text, text,
  text_eq, starts_with, ends_with, contains, split, is_ascii_alphanumeric, is_ascii_hexdigit,
  is_plain_byte, pieces, components, text_lt, chars_from, chars, length, all, any, All,
  leading_byte, next_byte, is_utf8_from, trim_line_ends, ok,
}
use omarchy_premonition.Core.Snapshot.{capture}
use omarchy_premonition.Core.Catalog.{from_raw, RawConfig, RepositoryCatalog}

abbrev stat : FileKind → ℕ → ℕ → FileMetadata
stat kind ino len = record {
  kind = kind;
  mode = 420;
  nlink = 1;
  len = len;
  dev = 1;
  ino = ino;
  mtime = 0;
  mtime_nsec = 0;
  ctime = 0;
  ctime_nsec = 0;
}

-- What stands at a path, with its contents.
abbrev at_path : Text → Option (Text × FileMetadata)
at_path x =
    if text_eq x (text "/r")
    then some ([], stat FileKind.directory 1 0)
    else if text_eq x (text "/r/.git")
    then some ([], stat FileKind.directory 2 0)
    else if text_eq x (text "/r/.git/index")
    then some (text "i", stat FileKind.file 3 1)
    else if text_eq x (text "/r/src")
    then some ([], stat FileKind.directory 4 0)
    else if text_eq x (text "/r/src/main.rs")
    then some (text "old", stat FileKind.file 5 3)
    else if text_eq x (text "/git")
    then some (text "bin", stat FileKind.file 6 3)
    else none

abbrev stat_of : Option (Text × FileMetadata) → Option FileMetadata
stat_of none = none
stat_of (some (contents, at)) = some at

abbrev lookup_of : Option (Text × FileMetadata) → Lookup
lookup_of none = Lookup.missing
lookup_of (some (contents, at)) = Lookup.found at

abbrev head : Text
head = text "0123456789abcdef0123456789abcdef01234567"

abbrev answer : List Text → Text
answer arguments =
    let asks = λ (word : Text). any (text_eq word) arguments in
    if asks (text "--show-toplevel")
    then text "/r"
    else if asks (text "--is-bare-repository")
    then text "false"
    else if asks (text "--is-inside-work-tree")
    then text "true"
    else if asks (text "--git-dir")
    then text ".git"
    else if asks (text "--verify")
    then head
    else if asks (text "--abbrev-ref")
    then text "main"
    else if asks (text "ls-files")
    then text "src/main.rs" ++ (0 ∷ [])
    else []

-- A repository with one file. Every digest is the same text.
abbrev system : System
system = record {
  canonicalize = λ path. some path;
  metadata = λ path. stat_of (at_path path);
  symlink_metadata = λ path. lookup_of (at_path path);
  read_link = λ path. none;
  read_file = at_path;
  run = λ root arguments input. ok (answer arguments);
  sha256 = λ contents. text "digest";
}

abbrev config : RawConfig
config = record {
  version = 1;
  git_binary = text "/git";
  repositories = record { id = text "one"; label = text "One"; path = text "/r" } ∷ [];
}

abbrev git : GitBinary
git = record { location = text "/git"; digest = text "digest"; device = 1; inode = 6 }

abbrev catalog : RepositoryCatalog
catalog = record {
  git = git;
  entries = record { id = text "one"; label = text "One"; root = text "/r" } ∷ [];
}

abbrev identity : RepositoryIdentity
identity = record {
  root = text "/r";
  git_dir = text "/r/.git";
  root_device = 1;
  root_inode = 1;
  git_device = 1;
  git_inode = 2;
}

abbrev repository : ResolvedRepository
repository = record {
  id = text "one";
  label = text "One";
  root = text "/r";
  git_dir = text "/r/.git";
  identity = identity;
  git = git;
}

abbrev snapshot : RepositorySnapshot
snapshot = record {
  head_oid = head;
  head_ref_digest = text "digest";
  index_digest = text "digest";
  worktree_digest = text "digest";
  file_count = 1;
  total_bytes = 3;
}

-- Opens everything that a run of the policy goes through.
unfoldable pub reads : Unit {0}
unfolding resolve_binary revalidate_binary run_git hash_binary utf8_trimmed rev_parse
    resolve_identity identity_eq revalidate_identity assert_operation_safe check_directory
    check_directories check_target validate_change_path validate_id validate_label find_entry
    insert_entry accept_raw collect resolve_entry resolve resolve_all from_raw utf8_line be_bytes
    hash_metadata same_metadata read_stable hash_regular_file hash_found hash_lookup hash_paths
    drop_last components_lt components_eq insert_path accept_paths parse_nul_paths capture
    snapshot_eq revalidate validate_paths git_apply_check validate_candidate join ends_with text_eq
    starts_with any all contains split components pieces text_lt is_utf8_from next_byte leading_byte
    trim_line_ends chars chars_from is_plain_byte is_ascii_alphanumeric is_ascii_hexdigit
reads = tt

config-accepted : from_raw system config ≡ ok catalog
unfolding reads
config-accepted = refl

snapshot-captured : capture system repository ≡ ok snapshot
unfolding reads
snapshot-captured = refl

abbrev context : GenerationContext
context = record { repository = repository; snapshot = snapshot }

abbrev proposal : ValidatedProposal
proposal = record { repository = repository; snapshot = snapshot; patch = modify_parsed }

candidate-approved :
    validate_candidate system system system catalog context modify_patch ≡ ok proposal
unfolding reads evaluates
candidate-approved = refl

validate_candidate_iff_example :
    (validate_candidate system system system catalog context modify_patch ≡ ok proposal)
    ↔ IsApproved system system system catalog context modify_patch proposal
validate_candidate_iff_example =
    validate_candidate_iff system system system catalog context modify_patch proposal

abbrev change : FileChange
change = record { path = main_rs; kind = ChangeKind.modify; hunks = 1 }

validate_change_path_iff_example :
    (validate_change_path system repository change ≡ ok tt) ↔ IsAccepted system repository change
validate_change_path_iff_example = validate_change_path_iff system repository change

capture-IsBounded_example : IsBounded system repository snapshot
capture-IsBounded_example = capture-IsBounded system repository snapshot snapshot-captured

from_raw-IsAllowList_example :
    IsAllowList catalog.entries
    × (length catalog.entries ≡ length config.repositories)
    × (length catalog.entries ≤ max_repositories)
from_raw-IsAllowList_example = from_raw-IsAllowList system config catalog config-accepted

-- The bytes after the first, and the paths in their order.
abbrev listing : Text
listing = text "/b" ++ (0 ∷ (text "a" ++ (0 ∷ [])))

abbrev listed : List Text
listed = text "a" ∷ (text "s/b" ∷ [])

listing-accepted : parse_nul_paths (b's' ∷ listing) ≡ ok listed
unfolding reads
listing-accepted = refl

parse_nul_paths-IsListed_example :
    All IsListed listed × (length listed ≡ length (split 0 (drop_last (b's' ∷ listing))))
parse_nul_paths-IsListed_example = parse_nul_paths-IsListed b's' listing listed listing-accepted

check_apply-validated_example :
    (check_apply system system system (text "p-1-1") proposal ≡ ok tt) ↔ (
      IsTransactionId (text "p-1-1")
      × IsVerified system system system repository snapshot modify_patch modify_parsed)
check_apply-validated_example =
    check_apply-validated system system system system system system catalog context modify_patch
      (text "p-1-1") proposal candidate-approved

proposal-publishable : check_apply system system system (text "p-1-1") proposal ≡ ok tt
unfolding reads check_apply validate_transaction_id
proposal-publishable = refl
