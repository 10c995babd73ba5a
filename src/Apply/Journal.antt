-- ===== src/Apply/Journal.antt =====
-- The journal of a transaction: how it is prepared, and which journals recovery accepts.
pub mod Names
pub mod Accepted
use omarchy_premonition.Base.{
  ℕ, ◌+◌, Bool, false, not, ◌&&◌, ◌||◌, List, [], ◌∷◌, ◌++◌, Option, none, some, ltb, ◌==◌, Text,
  text, text_eq, starts_with, contains, ends_with_text, is_ascii_alphanumeric, is_plain_byte,
  decimal, length, is_empty, all, any, Result, ◌>>=◌, ◌>>◌, reject, map_err, ok,
}
use omarchy_premonition.Diff.SafePath.{SafePath}
use omarchy_premonition.Diff.SafePath
use omarchy_premonition.Diff.Parse.{FileChange, ParsedPatch, ChangeKind}
use omarchy_premonition.Core.Error.{ApplyError}
use omarchy_premonition.Limits.{max_files}

pub data Phase : Type 0 where
  prepared publishing committed : Phase

pub data JournalKind : Type 0 where
  modify add delete : JournalKind

pub record JournalEntry : Type 0 where
  pub relative : Text
  pub kind : JournalKind
  pub temporary : Text
  pub backup : Text
  pub pre_hash : Option Text
  pub post_hash : Option Text
  pub published : Bool

pub record Journal : Type 0 where
  pub version : ℕ
  pub repository_root : Text
  pub phase : Phase
  pub entries : List JournalEntry

abbrev pub journal_version : ℕ
journal_version = 1

-- `JournalKind::from`.
abbrev pub from_change : ChangeKind → JournalKind
from_change ChangeKind.modify = JournalKind.modify
from_change ChangeKind.add = JournalKind.add
from_change ChangeKind.delete = JournalKind.delete

unfoldable pub validate_transaction_id : Text → Result ApplyError (Unit {0})
validate_transaction_id value =
    reject
      (is_empty value
        || ltb 64 (length value)
        || not (all (λ byte. is_ascii_alphanumeric byte || (byte == b'_' || byte == b'-')) value))
      ApplyError.identifier

-- `format!(".premonition-{proposal_id}-{index}{suffix}")`.
unfoldable pub entry_name : Text → ℕ → Text → Text
entry_name proposal_id index suffix =
    text ".premonition-" ++ (proposal_id ++ (text "-" ++ (decimal index ++ suffix)))

-- What the file system and Git answer while a transaction is prepared: the stage and the directory of
-- a staged file, a staged copy with the hash of its source, the hash of a staged result, the two runs of
-- `git apply`, and the revalidation of the snapshot.
pub record Staging : Type 0 where
  pub create_stage : Result ApplyError (Unit {0})
  pub create_parent : Text → Result ApplyError (Unit {0})
  pub copy_source : Text → Result ApplyError Text
  pub hash_staged : Text → Result ApplyError Text
  pub git_check : Result ApplyError (Unit {0})
  pub git_apply : Result ApplyError (Unit {0})
  pub revalidate : Result ApplyError (Unit {0})

unfoldable pub hash_source : Staging → ChangeKind → Text → Result ApplyError (Option Text)
hash_source staging ChangeKind.add relative = ok none
hash_source staging _ relative = staging.copy_source relative >>= λ hash. ok (some hash)

-- The first loop of `prepare_and_publish`, from `index` on.
unfoldable pub stage_entries :
    Staging → Text → ℕ → List FileChange → Result ApplyError (List JournalEntry)
stage_entries staging proposal_id index [] = ok []
stage_entries staging proposal_id index (change ∷ changes) = do
  staging.create_parent change.path.as_str
  hash ← hash_source staging change.kind change.path.as_str
  entries ← stage_entries staging proposal_id (index + 1) changes
  ok (
      record {
        relative = change.path.as_str;
        kind = from_change change.kind;
        temporary = entry_name proposal_id index (text ".new");
        backup = entry_name proposal_id index (text ".bak");
        pre_hash = hash;
        post_hash = none;
        published = false;
      }
      ∷ entries)

unfoldable pub hash_result : Staging → JournalEntry → Result ApplyError JournalEntry
hash_result staging entry = elim entry.kind [
  | JournalKind.delete ↦ ok entry
  | _ ↦ staging.hash_staged entry.relative >>= λ hash. ok (record entry { post_hash = some hash })
]

-- The second loop.
unfoldable pub hash_entries : Staging → List JournalEntry → Result ApplyError (List JournalEntry)
hash_entries staging [] = ok []
hash_entries staging (entry ∷ entries) = do
  hashed ← hash_result staging entry
  rest ← hash_entries staging entries
  ok (hashed ∷ rest)

-- The journal that is written first.
unfoldable pub prepare : Staging → Text → Text → ParsedPatch → Result ApplyError Journal
prepare staging proposal_id root patch = do
  staging.create_stage
  staged ← stage_entries staging proposal_id 0 patch.files
  staging.git_check
  staging.git_apply
  staging.revalidate
  entries ← hash_entries staging staged
  ok (record {
    version = journal_version;
    repository_root = root;
    phase = Phase.prepared;
    entries = entries;
  })

unfoldable pub is_transaction_filename : Text → Text → Bool
is_transaction_filename value suffix =
    starts_with (text ".premonition-") value
    && ends_with_text suffix value
    && not (contains b'/' value)
    && all is_plain_byte value

-- The loop of `validate_journal` over the entries, with the paths that it has seen.
unfoldable pub validate_entries : List Text → List JournalEntry → Result ApplyError (Unit {0})
unfolding is_transaction_filename
validate_entries unique [] = ok tt
validate_entries unique (entry ∷ entries) = do
  _ ← map_err (λ _. ApplyError.recovery_required) (SafePath.parse entry.relative)
  reject
      (any (text_eq entry.relative) unique
        || not (is_transaction_filename entry.temporary (text ".new"))
        || not (is_transaction_filename entry.backup (text ".bak")))
      ApplyError.recovery_required
  validate_entries (entry.relative ∷ unique) entries

unfoldable pub validate_journal : Journal → Result ApplyError (Unit {0})
validate_journal journal = do
  reject
      (not (journal.version == journal_version)
        || not (starts_with (text "/") journal.repository_root)
        || is_empty journal.entries
        || ltb max_files (length journal.entries))
      ApplyError.recovery_required
  validate_entries [] journal.entries
