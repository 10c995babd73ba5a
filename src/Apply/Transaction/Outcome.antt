-- ===== src/Apply/Transaction/Outcome.antt =====
-- A transaction from its first journal to its end.
use omarchy_premonition.Apply.Transaction.Cleanup.{IsCleared}
use omarchy_premonition.Apply.Transaction.Staging.{write_journal-Writes}
use omarchy_premonition.Apply.Transaction.Publishing.{write_journal-Leaves, resume-Leaves, Leaves}
use omarchy_premonition.Apply.Journal.{Phase, JournalEntry}
use omarchy_premonition.Apply.Transaction.Recovery.{
  TargetBefore, TargetAfter, IsTransaction, IsResumable,
}
use omarchy_premonition.Apply.Transaction.Recovery.Step.{cleanup-finishes, cleanup-after}
use omarchy_premonition.Apply.Transaction.Publishing.Loop.{
  publish_entries-Leaves, IsRunning, IsDone,
}
use omarchy_premonition.Apply.Publication.{Host}
use omarchy_premonition.Apply.Transaction.Flags.{Flagged-refl, Flagged}
use omarchy_premonition.Apply.Transaction.Copies.{
  copy_entries-SameRest, copy_entries-IsIntact, copy_entries-CopiesAll, IsOffered, CopiesAll,
}
use omarchy_premonition.Core.Error.{ApplyError}
use omarchy_premonition.Apply.Transaction.Invariant.{
  IsStaged, IsPosted-IsHalfway, IsIntact-IsHalfway, IsIntact, IsHalfway, All-zip, All-map,
}
use omarchy_premonition.Base.{
  false, List, [], ◌∷◌, map, inl, inr, Option, none, some, ◌≡◌, refl, sym, ◌∙◌, subst, Bool-cases,
  Text, All, Result, ok, err,
}
use omarchy_premonition.Apply.Transaction.{
  published, write_journal, copy_entries, journal_of, cleanup_transaction, publish_transaction,
}
use omarchy_premonition.Apply.World.{Files, World, call, sync_directory}

pub Flagged-map : (es : List JournalEntry) → Flagged es (map published es)
Flagged-map [] = tt
Flagged-map (e ∷ es) = (refl, Flagged-map es)

module _ (host : Host) (root : Text) (pre post : Files) (es : List JournalEntry)
    (t : IsTransaction host root pre post es) where
  -- Nothing has been done yet, and the stage holds the results.
  pub record IsReady (w : World) : Type 0 where
    pub no_journal : w.journal ≡ none
    pub intact : All (IsIntact root pre post w.files) es
    pub offered : All (IsOffered root post w.stage) es

  -- All is as after, and the transaction is gone.
  pub record IsFinished (w : World) : Type 0 where
    pub no_journal : w.journal ≡ none
    pub no_transaction : w.transaction ≡ false
    pub targets_after : All (TargetAfter host root pre post w.files) es
    pub cleared : All (IsCleared root w.files) es

  abbrev Stays : (World → Type 0) → Result ApplyError (Unit {0}) × World → Type 0
  Stays = Leaves host root pre post es

  abbrev HasJournal : Phase → World → Type 0
  HasJournal phase w = w.journal ≡ some (journal_of root phase es)

  abbrev pub IsPrepared : World → Type 0
  IsPrepared w =
      HasJournal Phase.prepared w
      × All (IsIntact root pre post w.files) es
      × All (IsOffered root post w.stage) es

  abbrev pub IsCopiedOver : World → Type 0
  IsCopiedOver w = HasJournal Phase.prepared w × All (IsStaged root pre post w.files) es

  abbrev pub IsCommitted : World → Type 0
  IsCommitted w =
      (w.journal ≡ some (journal_of root Phase.committed (map published es)))
      × All (TargetAfter host root pre post w.files) es

  moved_files :
      (P : Files → JournalEntry → Type 0) (f g : Files) → f ≡ g → All (P g) es → All (P f) es
  moved_files P f g h k = subst (λ (x : Files). All (P x) es) (sym h) k

  all_before :
      (f : Files) → All (IsIntact root pre post f) es → All (TargetBefore host root pre post f) es
  all_before f h = All-map es (λ e i. i.target_before) h

  pub prepare-Leaves :
      (w : World)
      → IsReady w
      → Stays IsPrepared (write_journal host (journal_of root Phase.prepared es) w)
  prepare-Leaves w h =
      write_journal-Leaves host root pre post es IsPrepared _ w _ (write_journal-Writes host _ w)
        (λ v f s j. (
          j,
          moved_files (IsIntact root pre post) v.files w.files f h.intact,
          subst (λ (x : Text → Option Text). All (IsOffered root post x) es) (sym s) h.offered,
        ))
        (λ v f j.
          IsResumable.before (j ∙ h.no_journal)
            (all_before v.files (moved_files (IsIntact root pre post) v.files w.files f h.intact)))
        (λ v f j.
          IsResumable.preparing es j (Flagged-refl es)
            (moved_files (IsIntact root pre post) v.files w.files f h.intact))

  copied :
      (r : Result ApplyError (Unit {0}) × World)
      → HasJournal Phase.prepared r.1
      → All (IsIntact root pre post r.1.files) es
      → CopiesAll root post es r
      → Stays IsCopiedOver r
  copied (ok u, w) j h k = (j, All-zip es (λ e i c. record { intact = i; temporary_after = c }) h k)
  copied (err e, w) j h k = IsResumable.preparing es j (Flagged-refl es) h

  pub copy-Leaves : (w : World) → IsPrepared w → Stays IsCopiedOver (copy_entries root es w)
  copy-Leaves w h =
      copied (copy_entries root es w) (((copy_entries-SameRest root es).at w).journal_kept ∙ h.0)
        (copy_entries-IsIntact root pre post host es w t.entries t.foreign h.1)
        (copy_entries-CopiesAll root post es w t.foreign h.2)

  pub begin-Leaves :
      (w : World)
      → IsCopiedOver w
      → Stays
          (IsRunning host root pre post [] es)
          (write_journal host (journal_of root Phase.publishing es) w)
  begin-Leaves w h =
      let intact = All-map es (λ e i. i.intact) h.1 in
      write_journal-Leaves host root pre post es _ _ w _ (write_journal-Writes host _ w)
        (λ v f s j. (j, (tt, moved_files (IsStaged root pre post) v.files w.files f h.1)))
        (λ v f j.
          IsResumable.preparing es (j ∙ h.0) (Flagged-refl es)
            (moved_files (IsIntact root pre post) v.files w.files f intact))
        (λ v f j. IsResumable.publishing es j (Flagged-refl es) (
          moved_files (IsHalfway root pre post) v.files w.files f
            (All-map es (IsIntact-IsHalfway root pre post w.files) intact)))

  pub commit-Leaves :
      (w : World)
      → IsDone host root pre post es w
      → Stays IsCommitted
          (write_journal host (journal_of root Phase.committed (map published es)) w)
  commit-Leaves w (running, j, f, h) =
      let after = All-map es (λ e p. p.target_after) h in
      write_journal-Leaves host root pre post es _ _ w _ (write_journal-Writes host _ w)
        (λ v k s l. (l, moved_files (TargetAfter host root pre post) v.files w.files k after))
        (λ v k l. IsResumable.publishing running (l ∙ j) f (
          moved_files (IsHalfway root pre post) v.files w.files k
            (All-map es (IsPosted-IsHalfway root pre post w.files) h)))
        (λ v k l.
          IsResumable.committing (map published es) l (Flagged-map es)
            (moved_files (TargetAfter host root pre post) v.files w.files k after))

  pub sync-Leaves :
      (w : World) → IsCommitted w → Stays IsCommitted (sync_directory ApplyError.state w)
  unfolding sync_directory call
  sync-Leaves w h = elim (Bool-cases (w.faults 0)) [
    | inl broken ↦ rw broken (IsResumable.committing (map published es) h.0 (Flagged-map es) h.1)
    | inr works ↦ rw works h
  ]

  finished :
      (r : Result ApplyError (Unit {0}) × World)
      → IsResumable host root pre post es r.1
      → (r.0 ≡ ok tt
          → (r.1.journal ≡ none)
            × (r.1.transaction ≡ false)
            × All (TargetAfter host root pre post r.1.files) es
            × All (IsCleared root r.1.files) es)
      → Stays IsFinished r
  finished (ok u, w) h k =
      let (j, t', a, c) = k refl in
      record { no_journal = j; no_transaction = t'; targets_after = a; cleared = c }
  finished (err e, w) h k = h

  cleanup-Leaves :
      (w : World)
      → IsCommitted w
      → Stays IsFinished
          (cleanup_transaction (journal_of root Phase.committed (map published es)) w)
  cleanup-Leaves w h =
      finished (cleanup_transaction (journal_of root Phase.committed (map published es)) w)
        (cleanup-after host root pre post es (map published es) w t (Flagged-map es) h.0 h.1)
        (cleanup-finishes host root pre post es (map published es) w t (Flagged-map es) h.1)

  pub publish_transaction-Leaves :
      (w : World) → IsReady w → Stays IsFinished (publish_transaction host root es w)
  unfolding publish_transaction
  publish_transaction-Leaves w h =
      let next = resume-Leaves host root pre post es in
      next IsPrepared IsFinished _ _ (prepare-Leaves w h) λ w1 h1.
        next IsCopiedOver IsFinished _ _ (copy-Leaves w1 h1) λ w2 h2.
          next (IsRunning host root pre post [] es) IsFinished _ _ (begin-Leaves w2 h2) λ w3 h3.
            next (IsDone host root pre post es) IsFinished _ _
              (publish_entries-Leaves host root pre post es [] es w3 t (Flagged-refl es) h3)
              λ w4 h4. next IsCommitted IsFinished _ _ (commit-Leaves w4 h4) λ w5 h5.
                next IsCommitted IsFinished _ _ (sync-Leaves w5 h5) λ w6 h6. cleanup-Leaves w6 h6
