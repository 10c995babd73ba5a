-- ===== src/Apply/Transaction/Recovery/Step.antt =====
-- One recovery, and what the next one finds.
use omarchy_premonition.Apply.Transaction.Cleanup.{
  IsCleared, cleanup_entries-IsCleared, cleanup_entries-targets, cleanup_entries-SameRest,
  cleanup_entries-IsIntact,
}
use omarchy_premonition.Apply.Transaction.{
  verify_entries, rollback_entries, remove_transaction, recover_phase, recover_one, recover_journal,
  journal_of, cleanup_transaction, cleanup_entries,
}
use omarchy_premonition.Apply.Transaction.Rollback.{
  rollback_entries-SameRest, rollback_entries-RollsBackAll, RollsBackAll,
}
use omarchy_premonition.Apply.Journal.{Phase, JournalEntry, Journal}
use omarchy_premonition.Apply.Transaction.Recovery.{
  Flagged-IsTransaction, Flagged-IsHalfway, Flagged-IsIntact, Flagged-TargetAfter, gone,
  resume-journal, remove_transaction-files, remove_transaction-ends, TargetAfter, IsTransaction,
  IsResumable,
}
use omarchy_premonition.Apply.Publication.{verify_post, Host, temporary_of, backup_of}
use omarchy_premonition.Apply.Transaction.Flags.{
  Flagged-validate_journal, Flagged-sym, Flagged, Flagged-All,
}
use omarchy_premonition.Core.Error.{ApplyError}
use omarchy_premonition.Apply.Transaction.Invariant.{IsIntact-IsHalfway, IsIntact, All-zip, All-map}
use omarchy_premonition.Base.{
  false, List, [], ◌∷◌, inl, inr, Option, none, some, ◌≡◌, refl, ap, ◌∙◌, Text, All, Result, ok,
  err,
}
use omarchy_premonition.Apply.World.{resume, Files, World, M}

module _ (host : Host) (root : Text) (pre post : Files) where
  -- The end of a recovery, from files that are as before.
  cleanup-before :
      (es es' : List JournalEntry) (w : World) (phase : Phase)
      → IsTransaction host root pre post es
      → Flagged es es'
      → ((v : World)
          → v.journal ≡ some (journal_of root phase es')
          → All (IsIntact root pre post v.files) es
          → IsResumable host root pre post es v)
      → w.journal ≡ some (journal_of root phase es')
      → All (IsIntact root pre post w.files) es
      → IsResumable host root pre post es (cleanup_transaction (journal_of root phase es') w).1
  unfolding cleanup_transaction
  cleanup-before es es' w phase t f here j h =
      let r = cleanup_entries root es' w in
      let t' = Flagged-IsTransaction host root pre post es es' f t in
      let intact : All (IsIntact root pre post r.1.files) es =
        Flagged-IsIntact host root pre post r.1.files es' es (Flagged-sym es es' f) (
          cleanup_entries-IsIntact root pre post host es' w t'.entries t'.foreign
            (Flagged-IsIntact host root pre post w.files es es' f h)) in
      let (files, journal) =
        resume-journal w r ((cleanup_entries-SameRest root es').at w).journal_kept in
      let intact' : All (IsIntact root pre post (resume (λ u. remove_transaction) r).1.files) es =
        rw files intact in
      elim journal [
        | inl k ↦ here _ (k ∙ j) intact'
        | inr k ↦ IsResumable.before k (All-map es (λ e i. i.target_before) intact')
      ]

  -- The end of a recovery, from targets that are as after.
  pub cleanup-after :
      (es es' : List JournalEntry) (w : World)
      → IsTransaction host root pre post es
      → Flagged es es'
      → w.journal ≡ some (journal_of root Phase.committed es')
      → All (TargetAfter host root pre post w.files) es
      → IsResumable host root pre post es
          (cleanup_transaction (journal_of root Phase.committed es') w).1
  unfolding cleanup_transaction
  cleanup-after es es' w t f j h =
      let r = cleanup_entries root es' w in
      let t' = Flagged-IsTransaction host root pre post es es' f t in
      let same = cleanup_entries-targets root pre post host es' w t'.entries t'.foreign in
      let posted : All (TargetAfter host root pre post r.1.files) es =
        Flagged-TargetAfter host root pre post r.1.files es' es (Flagged-sym es es' f) (
          All-zip es' (λ e k i. k ∙ i) same
            (Flagged-TargetAfter host root pre post w.files es es' f h)) in
      let (files, journal) =
        resume-journal w r ((cleanup_entries-SameRest root es').at w).journal_kept in
      let posted' : All
          (TargetAfter host root pre post (resume (λ u. remove_transaction) r).1.files) es =
        rw files posted in
      elim journal [
        | inl k ↦ IsResumable.committing es' (k ∙ j) f posted'
        | inr k ↦ IsResumable.after k posted'
      ]

  finishes :
      (es : List JournalEntry) (r : Result ApplyError (Unit {0}) × World)
      → All (TargetAfter host root pre post r.1.files) es
      → (r.0 ≡ ok tt → All (IsCleared root r.1.files) es)
      → (resume (λ u. remove_transaction) r).0 ≡ ok tt
      → (let v = (resume (λ u. remove_transaction) r).1 in
          (v.journal ≡ none)
          × (v.transaction ≡ false)
          × All (TargetAfter host root pre post v.files) es
          × All (IsCleared root v.files) es)
  finishes es (err e, w) h c k = cc
  finishes es (ok u, w) h c k =
      let (j, gone) = remove_transaction-ends w k in
      (j, gone, rw (remove_transaction-files w) h, rw (remove_transaction-files w) (c refl))

  Flagged-IsCleared :
      (f : Files) (es es' : List JournalEntry)
      → Flagged es es'
      → All (IsCleared root f) es
      → All (IsCleared root f) es'
  unfolding temporary_of backup_of
  Flagged-IsCleared f es es' g h = Flagged-All es es' (λ e b k. k) g h

  -- A cleanup that succeeds leaves the targets and nothing else.
  pub cleanup-finishes :
      (es es' : List JournalEntry) (w : World)
      → IsTransaction host root pre post es
      → Flagged es es'
      → All (TargetAfter host root pre post w.files) es
      → (cleanup_transaction (journal_of root Phase.committed es') w).0 ≡ ok tt
      → (let v = (cleanup_transaction (journal_of root Phase.committed es') w).1 in
          (v.journal ≡ none)
          × (v.transaction ≡ false)
          × All (TargetAfter host root pre post v.files) es
          × All (IsCleared root v.files) es)
  unfolding cleanup_transaction
  cleanup-finishes es es' w t f h k =
      let t' = Flagged-IsTransaction host root pre post es es' f t in
      let same = cleanup_entries-targets root pre post host es' w t'.entries t'.foreign in
      finishes es (cleanup_entries root es' w)
        (Flagged-TargetAfter host root pre post (cleanup_entries root es' w).1.files es' es
          (Flagged-sym es es' f)
          (All-zip es' (λ e l i. l ∙ i) same
            (Flagged-TargetAfter host root pre post w.files es es' f h)))
        (λ o.
          Flagged-IsCleared (cleanup_entries root es' w).1.files es' es (Flagged-sym es es' f)
            (cleanup_entries-IsCleared root es' w o))
        k

  resume-publishing :
      (es es' : List JournalEntry) (r : Result ApplyError (Unit {0}) × World)
      → IsTransaction host root pre post es
      → Flagged es es'
      → r.1.journal ≡ some (journal_of root Phase.publishing es')
      → RollsBackAll host root pre post es' r
      → IsResumable host root pre post es
          (resume (λ u. cleanup_transaction (journal_of root Phase.publishing es')) r).1
  resume-publishing es es' (err e, w) t f j h =
      IsResumable.publishing es' j f
        (Flagged-IsHalfway host root pre post w.files es' es (Flagged-sym es es' f) h)
  resume-publishing es es' (ok u, w) t f j h =
      cleanup-before es es' w Phase.publishing t f
        (λ v k i.
          IsResumable.publishing es' k f (All-map es (IsIntact-IsHalfway root pre post v.files) i))
        j (Flagged-IsIntact host root pre post w.files es' es (Flagged-sym es es' f) h)

  verify-same :
      (f : M (Unit {0})) (r : Result ApplyError (Unit {0})) (w : World)
      → (f w).1 ≡ w
      → (resume (λ u. f) (r, w)).1 ≡ w
  verify-same f (ok u) w h = h
  verify-same f (err e) w h = refl

  pub verify_entries-same :
      (es : List JournalEntry) (w : World) → (verify_entries host root es w).1 ≡ w
  unfolding verify_entries
  verify_entries-same [] w = refl
  verify_entries-same (e ∷ es) w =
      verify-same (verify_entries host root es) (verify_post host root e w) w
        (verify_entries-same es w)

  resume-committing :
      (es es' : List JournalEntry) (r : Result ApplyError (Unit {0}) × World)
      → IsTransaction host root pre post es
      → Flagged es es'
      → r.1.journal ≡ some (journal_of root Phase.committed es')
      → All (TargetAfter host root pre post r.1.files) es
      → IsResumable host root pre post es
          (resume (λ u. cleanup_transaction (journal_of root Phase.committed es')) r).1
  resume-committing es es' (err e, w) t f j h = IsResumable.committing es' j f h
  resume-committing es es' (ok u, w) t f j h = cleanup-after es es' w t f j h

  pub recover_one-journal :
      (w : World) (journal : Option Journal)
      → w.journal ≡ journal
      → recover_one host w ≡ recover_journal host journal w
  unfolding recover_one
  recover_one-journal w journal j = ap (λ (x : Option Journal). recover_journal host x w) j

  -- The hashes of the entries are those of the files before and after, no two of their paths
  -- are the same, and their journal is valid. From a world in which the files are as the phase
  -- of the journal says, with any of its entries marked as published, or all as before or all
  -- as after where there is no journal, a recovery under any faults leaves such a world,
  -- possibly of another phase.
  pub recover_one-IsResumable :
      (es : List JournalEntry) (w : World)
      → IsTransaction host root pre post es
      → IsResumable host root pre post es w
      → IsResumable host root pre post es (recover_one host w).1
  unfolding recover_phase
  recover_one-IsResumable es w t (IsResumable.before j h) =
      rw (recover_one-journal w _ j)
        (IsResumable.before (gone w j) (rw (remove_transaction-files w) h))
  recover_one-IsResumable es w t (IsResumable.after j h) =
      rw (recover_one-journal w _ j)
        (IsResumable.after (gone w j) (rw (remove_transaction-files w) h))
  recover_one-IsResumable es w t (IsResumable.preparing es' j f h) =
      rw (recover_one-journal w _ j, (Flagged-IsTransaction host root pre post es es' f t).valid)
        (cleanup-before es es' w Phase.prepared t f (λ v k i. IsResumable.preparing es' k f i) j h)
  recover_one-IsResumable es w t (IsResumable.publishing es' j f h) =
      let t' = Flagged-IsTransaction host root pre post es es' f t in
      rw
        (
          recover_one-journal w _ j,
          Flagged-validate_journal root Phase.prepared Phase.publishing es es' f,
          t.valid,
        )
        (resume-publishing es es' (rollback_entries host root es' w) t f
          (((rollback_entries-SameRest host root es').at w).journal_kept ∙ j)
          (rollback_entries-RollsBackAll host root pre post es' w t'.entries t'.foreign
            (Flagged-IsHalfway host root pre post w.files es es' f h)))
  recover_one-IsResumable es w t (IsResumable.committing es' j f h) =
      rw
        (
          recover_one-journal w _ j,
          Flagged-validate_journal root Phase.prepared Phase.committed es es' f,
          t.valid,
        )
        (resume-committing es es' (verify_entries host root es' w) t f
          (ap (λ (v : World). v.journal) (verify_entries-same es' w) ∙ j)
          (rw (verify_entries-same es' w) h))
