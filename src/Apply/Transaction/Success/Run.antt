-- ===== src/Apply/Transaction/Success/Run.antt =====
-- A transaction that meets no faults, from its first journal to its end.
use omarchy_premonition.Apply.Transaction.Cleanup.{IsCleared}
use omarchy_premonition.Apply.Transaction.Success.Parts.{copy_entries_ok, publish_entries_ok}
use omarchy_premonition.Apply.Transaction.Success.Parts.{
  resume-Succeeds, publish_entry-KeepsCalm, publish_entries_ok, IsFree,
}
use omarchy_premonition.Apply.Transaction.AllOrNothing.{AllAfter}
use omarchy_premonition.Apply.Transaction.Restart.{Flagged-IsRemovable}
use omarchy_premonition.Apply.Transaction.Leftovers.{publish_entries-Keeps}
use omarchy_premonition.Apply.Transaction.Restart.{cleanup_transaction-Ends}
use omarchy_premonition.Apply.Transaction.Outcome.{
  IsReady, Flagged-map, IsPrepared, IsCopiedOver, IsCommitted, prepare-Leaves, copy-Leaves,
  begin-Leaves, commit-Leaves, sync-Leaves, IsFinished, publish_transaction-Leaves,
}
use omarchy_premonition.Apply.Transaction.Staging.{write_journal-SameFiles, copy_entries-Keeps}
use omarchy_premonition.Apply.Journal.{Phase, JournalEntry}
use omarchy_premonition.Apply.Transaction.Recovery.{IsTransaction}
use omarchy_premonition.Apply.Transaction.Publishing.Loop.{
  IsRunning, IsDone, publish_entries-Leaves,
}
use omarchy_premonition.Apply.Transaction.Copies.{copy_entries-PlainAt}
use omarchy_premonition.Apply.Transaction.Success.{
  write_journal_ok, write_journal-KeepsCalm, KeepsCalm-IsCalm, KeepsCalm, IsCalm,
}
use omarchy_premonition.Apply.Publication.{Host}
use omarchy_premonition.Apply.Transaction.Flags.{Flagged, Flagged-refl}
use omarchy_premonition.Core.Error.{ApplyError}
use omarchy_premonition.Apply.Transaction.Invariant.{All-zip, All-of}
use omarchy_premonition.Apply.Transaction.Publishing.{Leaves}
use omarchy_premonition.Base.{
  ℕ, Bool, true, false, List, [], map, none, ◌≡◌, refl, sym, ap, subst, Text, All, Result, ok, err,
}
use omarchy_premonition.Apply.World.{Files, World, call, sync_directory}
use omarchy_premonition.Apply.World.Keeps.{
  quiet, StaysQuiet-IsFrame, PlainAt-IsFrame, sync_directory-Keeps, IsPlain,
}
use omarchy_premonition.Apply.Transaction.{
  published, fits_journal, copy_entries, journal_of, publish_entries, publish_transaction,
  cleanup_transaction, recovered, apply_transaction,
}

module _ (host : Host) (root : Text) (pre post : Files) (es : List JournalEntry)
    (t : IsTransaction host root pre post es)
    (fits : (phase : Phase) (running : List JournalEntry)
      → Flagged es running
      → fits_journal (host.encoded_len (journal_of root phase running)) ≡ true) where
  with_files :
      (P : World → Type 0) (f : Files) (r : Result ApplyError (Unit {0}) × World)
      → Leaves host root pre post es P r
      → r.1.files ≡ f
      → Leaves host root pre post es (λ v. P v × (v.files ≡ f)) r
  with_files P f (ok u, w) h k = (h, k)
  with_files P f (err e, w) h k = h

  copy_entries-KeepsCalm : KeepsCalm (copy_entries root es)
  copy_entries-KeepsCalm = record {
    faultless =
        copy_entries-Keeps StaysQuiet-IsFrame root es
          (All-of (λ e. λ w c. StaysQuiet-IsFrame.fault w) es);
    plain = copy_entries-PlainAt root es;
  }

  publish_entries-KeepsCalm : KeepsCalm (publish_entries host root [] es)
  publish_entries-KeepsCalm = record {
    faultless =
        publish_entries-Keeps host StaysQuiet-IsFrame root [] es
          (λ e. (publish_entry-KeepsCalm host root pre post es t fits e).faultless)
          (λ j. (write_journal-KeepsCalm host j).faultless);
    plain = λ x.
        publish_entries-Keeps host (PlainAt-IsFrame x) root [] es
          (λ e. (publish_entry-KeepsCalm host root pre post es t fits e).plain x)
          (λ j. (write_journal-KeepsCalm host j).plain x);
  }

  sync_directory-KeepsCalm : (e : ApplyError) → KeepsCalm (sync_directory e)
  sync_directory-KeepsCalm e = record {
    faultless = sync_directory-Keeps StaysQuiet-IsFrame e;
    plain = λ x. sync_directory-Keeps (PlainAt-IsFrame x) e;
  }

  sync_directory_ok : (w : World) → w.faults ≡ quiet → (sync_directory ApplyError.state w).0 ≡ ok tt
  unfolding sync_directory call
  sync_directory_ok w q = rw (ap (λ (f : ℕ → Bool). f 0) q) refl

  cleanup_committed_ok :
      (w : World)
      → IsCalm root es w
      → (cleanup_transaction (journal_of root Phase.committed (map published es)) w).0 ≡ ok tt
  cleanup_committed_ok w c =
      (cleanup_transaction-Ends host root Phase.committed (map published es) w c.no_faults (
        Flagged-IsRemovable host root w.files es (map published es) (Flagged-map es) c.removable)).0

  pub publish_transaction_ok :
      (w : World)
      → IsReady host root pre post es t w
      → All (IsFree host root pre post w.files) es
      → IsCalm root es w
      → (publish_transaction host root es w).0 ≡ ok tt
  unfolding publish_transaction
  publish_transaction_ok w ready free initial =
      let next = resume-Succeeds host root pre post es t fits in
      let calm = KeepsCalm-IsCalm root es in
      let write = write_journal-KeepsCalm host in
      next (λ v. IsPrepared host root pre post es t v × (v.files ≡ w.files)) _ _
        (write_journal_ok host _ w initial.no_faults (fits Phase.prepared es (Flagged-refl es)))
        (with_files _ w.files _ (prepare-Leaves host root pre post es t w ready)
          (write_journal-SameFiles host _ w))
        (calm _ w (write _) initial)
        λ w1 h1 c1.
          next (IsCopiedOver host root pre post es t) _ _
            (copy_entries_ok host root pre post es w1 t.entries t.foreign h1.0.2
              (subst (λ (f : Files). All (IsFree host root pre post f) es) (sym h1.1) free)
              c1.no_faults)
            (copy-Leaves host root pre post es t w1 h1.0) (calm _ w1 copy_entries-KeepsCalm c1)
            λ w2 h2 c2.
              next (IsRunning host root pre post [] es) _ _
                (write_journal_ok host _ w2 c2.no_faults
                  (fits Phase.publishing es (Flagged-refl es)))
                (begin-Leaves host root pre post es t w2 h2) (calm _ w2 (write _) c2)
                λ w3 h3 c3.
                  next (IsDone host root pre post es) _ _
                    (publish_entries_ok host root pre post es t fits [] es w3 t (Flagged-refl es) h3
                      c3)
                    (publish_entries-Leaves host root pre post es [] es w3 t (Flagged-refl es) h3)
                    (calm _ w3 publish_entries-KeepsCalm c3)
                    λ w4 h4 c4.
                      next (IsCommitted host root pre post es t) _ _
                        (write_journal_ok host _ w4 c4.no_faults
                          (fits Phase.committed (map published es) (Flagged-map es)))
                        (commit-Leaves host root pre post es t w4 h4) (calm _ w4 (write _) c4)
                        λ w5 h5 c5.
                          next (IsCommitted host root pre post es t) _ _
                            (sync_directory_ok w5 c5.no_faults)
                            (sync-Leaves host root pre post es t w5 h5)
                            (calm _ w5 (sync_directory-KeepsCalm ApplyError.state) c5)
                            λ w6 h6 c6. cleanup_committed_ok w6 c6

  over_recovered :
      (r : Result ApplyError (Unit {0}) × World)
      → r.0 ≡ ok tt
      → Leaves host root pre post es (IsFinished host root pre post es t) r
      → ((recovered host r).0 ≡ ok tt)
        × ((recovered host r).1.journal ≡ none)
        × ((recovered host r).1.transaction ≡ false)
        × AllAfter host root pre post es (recovered host r).1
        × All (IsCleared root (recovered host r).1.files) es
  unfolding recovered
  over_recovered (ok u, w) h k = (refl, k.no_journal, k.no_transaction, k.targets_after, k.cleared)
  over_recovered (err e, w) h k = cc

  -- The hashes of the entries are those of the files before and after, no two of their paths are
  -- the same, and their journal is valid; every journal of these entries is within its bound; at
  -- the start there is no journal, nothing stands at the backup and the temporary paths, and the
  -- stage holds the results. Without faults an application returns ok, the files of all entries
  -- are as after, and nothing is left of the transaction: neither the journal, nor the directory,
  -- nor the temporary file or the backup of any entry.
  pub apply_transaction_ok :
      (w : World)
      → IsReady host root pre post es t w
      → All (IsFree host root pre post w.files) es
      → w.faults ≡ quiet
      → ((apply_transaction host root es w).0 ≡ ok tt)
        × ((apply_transaction host root es w).1.journal ≡ none)
        × ((apply_transaction host root es w).1.transaction ≡ false)
        × AllAfter host root pre post es (apply_transaction host root es w).1
        × All (IsCleared root (apply_transaction host root es w).1.files) es
  unfolding apply_transaction
  apply_transaction_ok w ready free q =
      let removable =
        All-zip es (λ e i f. (subst IsPlain (sym f) tt, subst IsPlain (sym i.no_backup) tt))
          ready.intact free in
      over_recovered (publish_transaction host root es w)
        (publish_transaction_ok w ready free (record { no_faults = q; removable = removable }))
        (publish_transaction-Leaves host root pre post es t w ready)
