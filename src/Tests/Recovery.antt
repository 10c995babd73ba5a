-- ===== src/Tests/Recovery.antt =====
-- The theorems on a transaction under faults at concrete inputs.
use omarchy_premonition.Apply.Transaction.Cleanup.{IsCleared}
use omarchy_premonition.Core.Error.{ApplyError}
use omarchy_premonition.Apply.Transaction.{
  write_journal, verify_entries, remove_transaction, recover_phase, publish_entries, copy_staged,
  copy_entry, copy_entries, cleanup_transaction, cleanup_entry, cleanup_entries,
  publish_transaction, recovered, copy_contents,
}
use omarchy_premonition.Apply.World.{sync_directory, remove_file, call, rename, put}
use omarchy_premonition.Base.{
  ℕ, Bool, true, false, List, [], ◌∷◌, ◌⊎◌, Option, none, some, ◌≡◌, refl, leb, ◌==◌, if◌then◌else◌,
  Text, text, text_eq, starts_with, ends_with, contains, contains_text, ends_with_text, split,
  eq_ignore_ascii_case, is_plain_byte, all, any, All, Result, ok, err,
}
use omarchy_premonition.Apply.Transaction.Recovery.Step.{recover_one-IsResumable}
use omarchy_premonition.Apply.Transaction.Flags.{Flagged-refl}
use omarchy_premonition.Apply.Transaction.{recover_one, journal_of}
use omarchy_premonition.Apply.Transaction.Success.Run.{apply_transaction_ok}
use omarchy_premonition.Base.{
  ℕ, Bool, true, false, List, [], ◌∷◌, ◌⊎◌, Option, none, some, ◌≡◌, refl, leb, ◌==◌, if◌then◌else◌,
  Text, text, text_eq, starts_with, ends_with, contains, contains_text, ends_with_text, split,
  eq_ignore_ascii_case, is_plain_byte, all, any, All, Result, ok, err,
}
use omarchy_premonition.Apply.Journal.{Phase, validate_journal, validate_entries}
use omarchy_premonition.Diff.SafePath
use omarchy_premonition.Diff.SafePath.{is_ambiguous, is_safe_component}
use omarchy_premonition.Apply.Transaction.Cleanup.{IsRemovable}
use omarchy_premonition.Apply.Transaction.Outcome.{IsReady}
use omarchy_premonition.Apply.Transaction.Restart.{Ends}
use omarchy_premonition.Apply.World.Keeps.{quiet}
use omarchy_premonition.Apply.Transaction.AllOrNothing.{
  restarted, recover_one-AllOrNothing, apply_transaction-Applies, Applies, AllBefore, AllAfter,
}
use omarchy_premonition.Apply.Journal.{JournalKind, JournalEntry}
use omarchy_premonition.Apply.Transaction.Recovery.{IsTransaction, IsResumable}
use omarchy_premonition.Apply.Publication.Entry.{IsHashed}
use omarchy_premonition.Apply.World.{World, Node, Files}
use omarchy_premonition.Apply.Transaction.Invariant.{
  IsOutside, IsForeign, IsEntry, ArePairwiseForeign,
}
use omarchy_premonition.Base.{
  ℕ, Bool, true, false, List, [], ◌∷◌, ◌⊎◌, Option, none, some, ◌≡◌, refl, leb, ◌==◌, if◌then◌else◌,
  Text, text, text_eq, starts_with, ends_with, contains, contains_text, ends_with_text, split,
  eq_ignore_ascii_case, is_plain_byte, all, any, All, Result, ok, err,
}
use omarchy_premonition.Apply.Publication.{
  join, parent, target_of, temporary_of, backup_of, hash_node, Host, verify_pre, verify_post,
  move_in, publish_entry,
}
use omarchy_premonition.Apply.Transaction.{apply_transaction}

-- The digest of a text is the text, and every journal is short.
abbrev host : Host
host = record { sha256 = λ contents. contents; encoded_len = λ journal. some 4096 }

abbrev root : Text
root = text "/r"

abbrev holding : List (Text × Text) → Files
holding [] x = none
holding ((path, contents) ∷ rest) x =
    if text_eq x path then some (Node.regular contents) else holding rest x

abbrev changed : JournalEntry
changed = record {
  relative = text "a";
  kind = JournalKind.modify;
  temporary = text ".premonition-p-0.new";
  backup = text ".premonition-p-0.bak";
  pre_hash = some (text "old");
  post_hash = some (text "new");
  published = false;
}

abbrev added : JournalEntry
added = record {
  relative = text "d/b";
  kind = JournalKind.add;
  temporary = text ".premonition-p-1.new";
  backup = text ".premonition-p-1.bak";
  pre_hash = none;
  post_hash = some (text "more");
  published = false;
}

abbrev removed : JournalEntry
removed = record {
  relative = text "c";
  kind = JournalKind.delete;
  temporary = text ".premonition-p-2.new";
  backup = text ".premonition-p-2.bak";
  pre_hash = some (text "gone");
  post_hash = none;
  published = false;
}

abbrev entries : List JournalEntry
entries = changed ∷ (added ∷ (removed ∷ []))

abbrev files_before : Files
files_before = holding ((text "/r/a", text "old") ∷ ((text "/r/c", text "gone") ∷ []))

abbrev files_after : Files
files_after = holding ((text "/r/a", text "new") ∷ ((text "/r/d/b", text "more") ∷ []))

abbrev staged : Text → Option Text
staged x =
    if text_eq x (text "a")
    then some (text "new")
    else if text_eq x (text "d/b")
    then some (text "more")
    else none

abbrev world : (ℕ → Bool) → World
world faults = record {
  files = files_before;
  journal = none;
  transaction = true;
  stage = staged;
  faults = faults;
}

-- The machine stops at a call.
abbrev stops_at : ℕ → ℕ → Bool
stops_at n k = leb n k

changed-IsEntry : IsEntry root files_before files_after host changed
unfolding target_of temporary_of backup_of join parent hash_node text_eq ends_with contains
changed-IsEntry = record {
  hashed =
      IsHashed.modifies (text "old") (text "new") (text "old") (text "new") refl refl refl refl;
  apart = record { tn = refl; nt = refl; tb = refl; bt = refl; nb = refl; bn = refl };
}

added-IsEntry : IsEntry root files_before files_after host added
unfolding target_of temporary_of backup_of join parent hash_node text_eq ends_with contains
added-IsEntry = record {
  hashed = IsHashed.adds (text "more") (text "more") refl refl refl;
  apart = record { tn = refl; nt = refl; tb = refl; bt = refl; nb = refl; bn = refl };
}

removed-IsEntry : IsEntry root files_before files_after host removed
unfolding target_of temporary_of backup_of join parent hash_node text_eq ends_with contains
removed-IsEntry = record {
  hashed = IsHashed.deletes (text "gone") (text "gone") refl refl refl;
  apart = record { tn = refl; nt = refl; tb = refl; bt = refl; nb = refl; bn = refl };
}

outside :
    (e : JournalEntry) (x : Text)
    → text_eq x (target_of root e) ≡ false
    → text_eq x (temporary_of root e) ≡ false
    → text_eq x (backup_of root e) ≡ false
    → IsOutside root e x
outside e x t n b = record { not_target = t; not_temporary = n; not_backup = b }

entries-ArePairwiseForeign : ArePairwiseForeign root entries
unfolding target_of temporary_of backup_of join parent text_eq ends_with contains
entries-ArePairwiseForeign =
    let foreign : (e d : JournalEntry)
        → IsOutside root e (target_of root d)
        → IsOutside root e (temporary_of root d)
        → IsOutside root e (backup_of root d)
        → IsForeign root e d =
      λ e d t n b. record { target_outside = t; temporary_outside = n; backup_outside = b } in
    (
      (
        (
          foreign changed added (outside _ _ refl refl refl) (outside _ _ refl refl refl)
              (outside _ _ refl refl refl),
          foreign added changed (outside _ _ refl refl refl) (outside _ _ refl refl refl)
              (outside _ _ refl refl refl),
        ),
        (
          (
            foreign changed removed (outside _ _ refl refl refl) (outside _ _ refl refl refl)
                (outside _ _ refl refl refl),
            foreign removed changed (outside _ _ refl refl refl) (outside _ _ refl refl refl)
                (outside _ _ refl refl refl),
          ),
          tt,
        ),
      ),
      (
        (
          (
            foreign added removed (outside _ _ refl refl refl) (outside _ _ refl refl refl)
                (outside _ _ refl refl refl),
            foreign removed added (outside _ _ refl refl refl) (outside _ _ refl refl refl)
                (outside _ _ refl refl refl),
          ),
          tt,
        ),
        (tt, tt),
      ),
    )

entries-IsTransaction : IsTransaction host root files_before files_after entries
unfolding validate_journal starts_with validate_entries omarchy_premonition.Diff.SafePath.parse
    is_ambiguous ends_with contains contains_text all split is_safe_component eq_ignore_ascii_case
    is_plain_byte any ends_with_text
entries-IsTransaction = record {
  entries = (changed-IsEntry, (added-IsEntry, (removed-IsEntry, tt)));
  foreign = entries-ArePairwiseForeign;
  valid = refl;
}

abbrev Ready : World → Type 0
Ready = IsReady host root files_before files_after entries entries-IsTransaction

world-IsReady : (faults : ℕ → Bool) → Ready (world faults)
unfolding target_of temporary_of backup_of join parent text_eq ends_with contains
world-IsReady faults = record {
  no_journal = refl;
  intact = (
    record { target_before = refl; no_backup = refl },
    (
      record { target_before = refl; no_backup = refl },
      (record { target_before = refl; no_backup = refl }, tt),
    ),
  );
  offered = ((λ k. refl), ((λ k. refl), ((λ k. elim (k refl) [ ]), tt)));
}

world-IsRemovable : (faults : ℕ → Bool) → All (IsRemovable root (world faults).files) entries
unfolding target_of temporary_of backup_of join parent text_eq ends_with contains
world-IsRemovable faults = ((tt, tt), ((tt, tt), ((tt, tt), tt)))

-- The machine stops when the second of three entries is moved in.
apply_transaction-Applies_example :
    Applies host root files_before files_after entries entries-IsTransaction
      (apply_transaction host root entries (world (stops_at 16)))
apply_transaction-Applies_example =
    apply_transaction-Applies host root files_before files_after entries entries-IsTransaction
      (world (stops_at 16)) (world-IsReady (stops_at 16)) (world-IsRemovable (stops_at 16)) refl

-- So do two recoveries.
recover_one-AllOrNothing_example :
    Ends (
      restarted host
        (stops_at 1 ∷ (stops_at 3 ∷ []))
        (apply_transaction host root entries (world (stops_at 16))).1)
    × (AllBefore host root files_before files_after entries
          (restarted host
            (stops_at 1 ∷ (stops_at 3 ∷ []))
            (apply_transaction host root entries (world (stops_at 16))).1).1
        ⊎ AllAfter host root files_before files_after entries
            (restarted host
              (stops_at 1 ∷ (stops_at 3 ∷ []))
              (apply_transaction host root entries (world (stops_at 16))).1).1)
recover_one-AllOrNothing_example =
    recover_one-AllOrNothing host root files_before files_after entries entries-IsTransaction
      (stops_at 1 ∷ (stops_at 3 ∷ [])) (world (stops_at 16)) (world-IsReady (stops_at 16))
      (world-IsRemovable (stops_at 16)) refl

apply_transaction_ok_example :
    ((apply_transaction host root entries (world quiet)).0 ≡ ok tt)
    × ((apply_transaction host root entries (world quiet)).1.journal ≡ none)
    × ((apply_transaction host root entries (world quiet)).1.transaction ≡ false)
    × AllAfter host root files_before files_after entries
        (apply_transaction host root entries (world quiet)).1
    × All (IsCleared root (apply_transaction host root entries (world quiet)).1.files) entries
unfolding target_of temporary_of backup_of join parent text_eq ends_with contains
apply_transaction_ok_example =
    apply_transaction_ok host root files_before files_after entries entries-IsTransaction
      (λ phase running f. refl) (world quiet) (world-IsReady quiet) (refl, (refl, (refl, tt))) refl

-- A recovery that stops at its second call.
recover_one-IsResumable_example :
    IsResumable host root files_before files_after entries
      (recover_one host
        (record (world (stops_at 1)) { journal = some (journal_of root Phase.prepared entries) })).1
recover_one-IsResumable_example =
    recover_one-IsResumable host root files_before files_after entries
      (record (world (stops_at 1)) { journal = some (journal_of root Phase.prepared entries) })
      entries-IsTransaction
      (IsResumable.preparing entries refl (Flagged-refl entries)
        (world-IsReady (stops_at 1)).intact)

-- One call fails, the removal of the directory: the result is an error, and all is as after.
abbrev late : Result ApplyError (Unit {0}) × World
late = apply_transaction host root entries (world (λ n. n == 28))

late_fails : late.0 ≡ err ApplyError.state
unfolding apply_transaction publish_transaction write_journal copy_entries copy_entry copy_staged
    copy_contents publish_entries publish_entry move_in verify_pre hash_node call rename remove_file
    sync_directory put cleanup_transaction cleanup_entries cleanup_entry remove_transaction
    recovered recover_one recover_phase verify_entries verify_post target_of temporary_of backup_of
    join parent text_eq ends_with contains validate_journal starts_with validate_entries
    omarchy_premonition.Diff.SafePath.parse is_ambiguous contains_text all split is_safe_component
    eq_ignore_ascii_case is_plain_byte any ends_with_text
late_fails = refl

late_files : AllAfter host root files_before files_after entries late.1
unfolding apply_transaction publish_transaction write_journal copy_entries copy_entry copy_staged
    copy_contents publish_entries publish_entry move_in verify_pre hash_node call rename remove_file
    sync_directory put cleanup_transaction cleanup_entries cleanup_entry remove_transaction
    recovered recover_one recover_phase verify_entries verify_post target_of temporary_of backup_of
    join parent text_eq ends_with contains validate_journal starts_with validate_entries
    omarchy_premonition.Diff.SafePath.parse is_ambiguous contains_text all split is_safe_component
    eq_ignore_ascii_case is_plain_byte any ends_with_text
late_files = (refl, (refl, (refl, tt)))
