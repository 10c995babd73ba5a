-- ===== src/Apply/Transaction.antt =====
-- A transaction from its first journal to its end, and its recovery: the rest of
-- `prepare_and_publish`, `recover_one` and `ApplyEngine::apply` after the directory is made.
pub mod Invariant
pub mod Rollback
pub mod Cleanup
pub mod Flags
pub mod Recovery
pub mod Restart
pub mod Staging
pub mod Copies
pub mod Publishing
pub mod Outcome
pub mod Leftovers
pub mod AllOrNothing
pub mod Success
use omarchy_premonition.Limits.{max_result_file_bytes}
use omarchy_premonition.Base.{
  ℕ, Bool, true, false, not, ◌&&◌, List, [], ◌∷◌, ◌++◌, map, Option, none, some, ltb, leb,
  if◌then◌else◌, Text, length, Result, reject, is_ok, ok, err,
}
use omarchy_premonition.Core.Error.{ApplyError}
use omarchy_premonition.Apply.Journal.{
  Journal, JournalEntry, JournalKind, Phase, validate_journal, journal_version,
}
use omarchy_premonition.Apply.World.{
  ◌>>◌, M, World, Node, Files, put, done, call, remove_file, sync_directory, when_exists, check,
  fail,
}
use omarchy_premonition.Apply.Publication.{
  Host, publish_entry, rollback_entry, verify_post, temporary_of, backup_of,
}

-- `MAX_JOURNAL_BYTES`.
abbrev pub max_journal_bytes : ℕ
max_journal_bytes = 65536

abbrev pub fits_journal : Option ℕ → Bool
fits_journal none = false
fits_journal (some n) = leb n max_journal_bytes

abbrev pub set_journal : Journal → M (Unit {0})
set_journal journal w = (ok tt, record w { journal = some journal })

-- A journal is written beside the old one, and renamed over it: the calls before the rename count as
-- one, and the call after it may fail with the new journal in place.
unfoldable pub write_journal : Host → Journal → M (Unit {0})
write_journal host journal = do
  check (λ w. reject (not (fits_journal (host.encoded_len journal))) ApplyError.state)
  sync_directory ApplyError.state
  set_journal journal
  sync_directory ApplyError.state

abbrev pub created : Text → Files → Option Node → Option Files
created path files none = some (put files path (some (Node.regular [])))
created path files (some node) = none

-- `copy_file_bounded` of a staged result to the temporary file, which must be new, and its mode. A
-- file that is not written to its end is an empty one here.
unfoldable pub copy_contents : Text → Option Text → M (Unit {0})
copy_contents path none = fail ApplyError.state
copy_contents path (some contents) = do
  call ApplyError.state (λ files. created path files (files path))
  check (λ w. reject (ltb max_result_file_bytes (length contents)) ApplyError.state)
  call ApplyError.state (λ files. some (put files path (some (Node.regular contents))))
  sync_directory ApplyError.state

unfoldable pub copy_staged : Text → JournalEntry → M (Unit {0})
unfolding copy_contents
copy_staged root entry w = copy_contents (temporary_of root entry) (w.stage entry.relative) w

-- `if entry.kind == JournalKind::Delete { continue; }`.
unfoldable pub copy_entry : Text → JournalEntry → M (Unit {0})
unfolding copy_staged
copy_entry root entry = elim entry.kind [ JournalKind.delete ↦ done | _ ↦ copy_staged root entry ]

unfoldable pub copy_entries : Text → List JournalEntry → M (Unit {0})
copy_entries root [] = done
copy_entries root (entry ∷ entries) = do copy_entry root entry; copy_entries root entries

abbrev pub published : JournalEntry → JournalEntry
published entry = record entry { published = true }

abbrev pub journal_of : Text → Phase → List JournalEntry → Journal
journal_of root phase entries = record {
  version = journal_version;
  repository_root = root;
  phase = phase;
  entries = entries;
}

-- The loop of publications, with the entries before `index` and those from it on.
unfoldable pub publish_entries : Host → Text → List JournalEntry → List JournalEntry → M (Unit {0})
publish_entries host root before [] = done
publish_entries host root before (entry ∷ entries) = do
  publish_entry host root entry
  write_journal host (journal_of root Phase.publishing (before ++ (published entry ∷ entries)))
  publish_entries host root (before ++ (published entry ∷ [])) entries

-- `for name in [&entry.temporary, &entry.backup]` of `cleanup_transaction`.
unfoldable pub cleanup_entry : Text → JournalEntry → M (Unit {0})
cleanup_entry root entry = do
  when_exists (temporary_of root entry) (remove_file ApplyError.state (temporary_of root entry))
  when_exists (backup_of root entry) (remove_file ApplyError.state (backup_of root entry))

unfoldable pub cleanup_entries : Text → List JournalEntry → M (Unit {0})
cleanup_entries root [] = done
cleanup_entries root (entry ∷ entries) = do cleanup_entry root entry; cleanup_entries root entries

abbrev forget_journal : M (Unit {0})
forget_journal w = (ok tt, record w { journal = none })

abbrev end_transaction : M (Unit {0})
end_transaction w = (ok tt, record w { journal = none; transaction = false })

-- `fs::remove_dir_all` may fail before it removes the journal, or after.
unfoldable pub remove_transaction : M (Unit {0})
remove_transaction = do
  sync_directory ApplyError.state
  forget_journal
  sync_directory ApplyError.state
  end_transaction

unfoldable pub cleanup_transaction : Journal → M (Unit {0})
cleanup_transaction journal = do
  cleanup_entries journal.repository_root journal.entries
  remove_transaction

-- `for entry in journal.entries.iter().rev()`.
unfoldable pub rollback_entries : Host → Text → List JournalEntry → M (Unit {0})
rollback_entries host root [] = done
rollback_entries host root (entry ∷ entries) = do
  rollback_entries host root entries
  rollback_entry host root entry

unfoldable pub verify_entries : Host → Text → List JournalEntry → M (Unit {0})
verify_entries host root [] = done
verify_entries host root (entry ∷ entries) = do
  check (verify_post host root entry)
  verify_entries host root entries

unfoldable pub recover_phase : Host → Phase → Journal → M (Unit {0})
recover_phase host Phase.prepared journal = cleanup_transaction journal
recover_phase host Phase.publishing journal = do
  rollback_entries host journal.repository_root journal.entries
  cleanup_transaction journal
recover_phase host Phase.committed journal = do
  verify_entries host journal.repository_root journal.entries
  cleanup_transaction journal

abbrev pub recover_journal : Host → Option Journal → M (Unit {0})
recover_journal host none = remove_transaction
recover_journal host (some journal) = do
  check (λ w. validate_journal journal)
  recover_phase host journal.phase journal

-- The journal that is read is the one that was written.
unfoldable pub recover_one : Host → M (Unit {0})
recover_one host w = recover_journal host w.journal w

-- `prepare_and_publish` from the first journal on.
unfoldable pub publish_transaction : Host → Text → List JournalEntry → M (Unit {0})
publish_transaction host root entries = do
  write_journal host (journal_of root Phase.prepared entries)
  copy_entries root entries
  write_journal host (journal_of root Phase.publishing entries)
  publish_entries host root [] entries
  write_journal host (journal_of root Phase.committed (map published entries))
  sync_directory ApplyError.state
  cleanup_transaction (journal_of root Phase.committed (map published entries))

-- What `apply` does with a transaction that failed.
unfoldable pub recovered :
    Host → Result ApplyError (Unit {0}) × World → Result ApplyError (Unit {0}) × World
recovered host (ok u, w) = (ok u, w)
recovered host (err e, w) =
    let again = recover_one host w in
    if w.transaction && not (is_ok again.0)
    then (err ApplyError.recovery_required, again.1)
    else if w.transaction
    then (err e, again.1)
    else (err e, w)

unfoldable pub apply_transaction : Host → Text → List JournalEntry → M (Unit {0})
apply_transaction host root entries w = recovered host (publish_transaction host root entries w)
