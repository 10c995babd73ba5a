-- ===== src/Apply/Publication.antt =====
-- Publication, rollback and recovery: `prepare_and_publish` from the first journal on, `recover_one`
-- and what they call.
pub mod Entry
pub mod Frame
use omarchy_premonition.Base.{
  ℕ, Bool, false, not, [], ◌∷◌, ◌++◌, Option, none, some, ltb, if◌then◌else◌, Text, text_eq,
  ends_with, contains, length, Result, reject, err,
}
use omarchy_premonition.Core.Error.{ApplyError, SnapshotError}
use omarchy_premonition.Limits.{max_result_file_bytes}
use omarchy_premonition.Apply.Journal.{Journal, JournalEntry, JournalKind}
use omarchy_premonition.Apply.World.{
  ◌>>◌, Node, is_some, World, M, fail, rename, remove_file, sync_directory, when_exists, check,
  or_else,
}

-- `Path::join` with a relative path, and `Path::parent` of a path with a slash.
unfoldable pub join : Text → Text → Text
join base name = if ends_with b'/' base then base ++ name else base ++ b'/' ∷ name

unfoldable pub parent : Text → Text
parent [] = []
parent (c ∷ s) = let rest = parent s in if contains b'/' s then c ∷ rest else []

unfoldable pub target_of : Text → JournalEntry → Text
unfolding join
target_of root entry = join root entry.relative

unfoldable pub temporary_of : Text → JournalEntry → Text
unfolding join parent target_of
temporary_of root entry = join (parent (target_of root entry)) entry.temporary

unfoldable pub backup_of : Text → JournalEntry → Text
unfolding join parent target_of
backup_of root entry = join (parent (target_of root entry)) entry.backup

-- SHA-256 in hexadecimal, and the length of the journal as JSON.
pub record Host : Type 0 where
  pub sha256 : Text → Text
  pub encoded_len : Journal → Option ℕ

-- `hash_file`: a missing, special or oversized file is an error.
unfoldable pub hash_node : Host → Option Node → Option Text
hash_node host (some (Node.regular contents)) =
    if ltb max_result_file_bytes (length contents) then none else some (host.sha256 contents)
hash_node host _ = none

-- `is_ok_and(|actual| actual == *expected)`.
abbrev pub has_hash : Option Text → Text → Bool
has_hash none expected = false
has_hash (some actual) expected = text_eq actual expected

abbrev pub stale : ApplyError
stale = ApplyError.snapshot SnapshotError.stale

abbrev pub verify_pre_kind :
    Host → JournalKind → Option Text → Option Node → Result ApplyError (Unit {0})
verify_pre_kind host JournalKind.add none found = reject (is_some found) stale
verify_pre_kind host JournalKind.modify (some expected) found =
    reject (not (has_hash (hash_node host found) expected)) stale
verify_pre_kind host JournalKind.delete (some expected) found =
    reject (not (has_hash (hash_node host found) expected)) stale
verify_pre_kind host _ _ found = err stale

unfoldable pub verify_pre : Host → Text → JournalEntry → World → Result ApplyError (Unit {0})
verify_pre host root entry w =
    verify_pre_kind host entry.kind entry.pre_hash (w.files (target_of root entry))

abbrev pub verify_post_kind :
    Host → JournalKind → Option Text → Option Node → Result ApplyError (Unit {0})
verify_post_kind host JournalKind.delete none found =
    reject (is_some found) ApplyError.recovery_required
verify_post_kind host JournalKind.add (some expected) found =
    reject (not (has_hash (hash_node host found) expected)) ApplyError.recovery_required
verify_post_kind host JournalKind.modify (some expected) found =
    reject (not (has_hash (hash_node host found) expected)) ApplyError.recovery_required
verify_post_kind host _ _ found = err ApplyError.recovery_required

unfoldable pub verify_post : Host → Text → JournalEntry → World → Result ApplyError (Unit {0})
verify_post host root entry w =
    verify_post_kind host entry.kind entry.post_hash (w.files (target_of root entry))

-- The renames of `publish_entry`.
unfoldable pub move_in : JournalKind → Text → Text → Text → M (Unit {0})
move_in JournalKind.add target temporary backup = rename ApplyError.state temporary target
move_in JournalKind.modify target temporary backup =
    rename ApplyError.state target backup
    >> or_else (rename ApplyError.state temporary target)
        (rename ApplyError.recovery_required backup target >> fail ApplyError.state)
move_in JournalKind.delete target temporary backup = rename ApplyError.state target backup

unfoldable pub publish_entry : Host → Text → JournalEntry → M (Unit {0})
unfolding move_in
publish_entry host root entry =
    check (verify_pre host root entry)
    >> move_in entry.kind (target_of root entry) (temporary_of root entry) (backup_of root entry)
    >> sync_directory ApplyError.state

-- `rollback_entry` without the last call, by kind; `verified` is `verify_post` of the entry.
unfoldable pub move_out : JournalKind → M (Unit {0}) → Text → Text → M (Unit {0})
move_out JournalKind.add verified target backup =
    when_exists target (verified >> remove_file ApplyError.recovery_required target)
move_out JournalKind.modify verified target backup = when_exists backup (
    when_exists target (verified >> remove_file ApplyError.recovery_required target)
    >> rename ApplyError.recovery_required backup target)
move_out JournalKind.delete verified target backup = when_exists backup (
    when_exists target (fail ApplyError.recovery_required)
    >> rename ApplyError.recovery_required backup target)

unfoldable pub rollback_entry : Host → Text → JournalEntry → M (Unit {0})
unfolding move_out
rollback_entry host root entry =
    move_out entry.kind (check (verify_post host root entry)) (target_of root entry)
      (backup_of root entry)
    >> sync_directory ApplyError.recovery_required
