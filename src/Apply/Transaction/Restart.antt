-- ===== src/Apply/Transaction/Restart.antt =====
-- A recovery that meets no faults.
use omarchy_premonition.Apply.Transaction.{recover_journal}
use omarchy_premonition.Apply.Transaction.Rollback.{
  rollback_entries-ok, rollback_entries-StaysQuiet, rollback_entries-PlainAt,
}
use omarchy_premonition.Apply.Transaction.Cleanup.{
  cleanup_entries-ok, cleanup_entries-StaysQuiet, IsRemovable,
}
use omarchy_premonition.Core.Error.{ApplyError}
use omarchy_premonition.Base.{
  false, List, [], ◌∷◌, Option, none, some, ◌≡◌, refl, Text, text_eq_refl, All, Result, ok, err,
}
use omarchy_premonition.Apply.World.{World, Files, Node, M, resume}
use omarchy_premonition.Apply.World.Keeps.{quiet}
use omarchy_premonition.Apply.Publication.{
  Host, target_of, temporary_of, backup_of, verify_post, verify_post_kind,
}
use omarchy_premonition.Apply.Publication.Entry.{IsHashed}
use omarchy_premonition.Apply.Transaction.{
  journal_of, recover_one, remove_transaction, cleanup_transaction, recover_phase, cleanup_entries,
  rollback_entries, verify_entries,
}
use omarchy_premonition.Apply.Transaction.Invariant.{All-map, IsEntry}
use omarchy_premonition.Apply.Transaction.Flags.{Flagged, Flagged-All, Flagged-validate_journal}
use omarchy_premonition.Apply.Transaction.Recovery.{
  IsResumable, IsTransaction, remove_transaction-ok, Flagged-IsTransaction, Flagged-TargetAfter,
  Flagged-IsHalfway, remove_transaction-ends,
}
use omarchy_premonition.Apply.Transaction.Recovery.Step.{verify_entries-same, recover_one-journal}
use omarchy_premonition.Apply.Journal.{JournalEntry, JournalKind, Phase, Journal}

-- The transaction is over.
abbrev pub Ends : Result ApplyError (Unit {0}) × World → Type 0
Ends r = (r.0 ≡ ok tt) × (r.1.journal ≡ none) × (r.1.transaction ≡ false)

resume-Ends :
    (f : M (Unit {0})) (r : Result ApplyError (Unit {0}) × World)
    → r.0 ≡ ok tt
    → Ends (f r.1)
    → Ends (resume (λ u. f) r)
resume-Ends f (ok u, w) h k = k
resume-Ends f (err e, w) h k = cc

remove_transaction-over :
    (f : M (Unit {0})) (r : Result ApplyError (Unit {0}) × World)
    → ((w : World) → (f w).0 ≡ ok tt → ((f w).1.journal ≡ none) × ((f w).1.transaction ≡ false))
    → (resume (λ u. f) r).0 ≡ ok tt
    → ((resume (λ u. f) r).1.journal ≡ none) × ((resume (λ u. f) r).1.transaction ≡ false)
remove_transaction-over f (ok u, w) k h = k w h
remove_transaction-over f (err e, w) k h = cc

-- A recovery that succeeds, under any faults, ends the transaction.
pub recover_one-over :
    (host : Host) (w : World)
    → (recover_one host w).0 ≡ ok tt
    → ((recover_one host w).1.journal ≡ none) × ((recover_one host w).1.transaction ≡ false)
unfolding recover_one recover_phase cleanup_transaction
recover_one-over host w h = by_journal w.journal h
  where
    cleaned :
        (journal : Journal) (v : World)
        → (cleanup_transaction journal v).0 ≡ ok tt
        → ((cleanup_transaction journal v).1.journal ≡ none)
          × ((cleanup_transaction journal v).1.transaction ≡ false)
    cleaned journal v = remove_transaction-over remove_transaction _ remove_transaction-ends

    by_phase :
        (phase : Phase) (journal : Journal) (v : World)
        → (recover_phase host phase journal v).0 ≡ ok tt
        → ((recover_phase host phase journal v).1.journal ≡ none)
          × ((recover_phase host phase journal v).1.transaction ≡ false)
    by_phase Phase.prepared journal v = cleaned journal v
    by_phase Phase.publishing journal v = remove_transaction-over _ _ (cleaned journal)
    by_phase Phase.committed journal v = remove_transaction-over _ _ (cleaned journal)

    by_journal :
        (journal : Option Journal)
        → (recover_journal host journal w).0 ≡ ok tt
        → ((recover_journal host journal w).1.journal ≡ none)
          × ((recover_journal host journal w).1.transaction ≡ false)
    by_journal none = remove_transaction-ends w
    by_journal (some journal) = remove_transaction-over _ _ (by_phase journal.phase journal)

module _ (host : Host) (root : Text) where
  pub Flagged-IsRemovable :
      (f : Files) (es es' : List JournalEntry)
      → Flagged es es'
      → All (IsRemovable root f) es
      → All (IsRemovable root f) es'
  unfolding temporary_of backup_of target_of
  Flagged-IsRemovable f es es' g h = Flagged-All es es' (λ e b k. k) g h

  pub cleanup_transaction-Ends :
      (phase : Phase) (es : List JournalEntry) (w : World)
      → w.faults ≡ quiet
      → All (IsRemovable root w.files) es
      → Ends (cleanup_transaction (journal_of root phase es) w)
  unfolding cleanup_transaction
  cleanup_transaction-Ends phase es w q h =
      resume-Ends remove_transaction (cleanup_entries root es w) (cleanup_entries-ok root es w q h)
        (remove_transaction-ok (cleanup_entries root es w).1
          ((cleanup_entries-StaysQuiet root es).at w q))

  module _ (pre post : Files) where
    verify-hashed :
        (p q found : Option Node) (kind : JournalKind) (before after : Option Text)
        → IsHashed host p q kind before after
        → found ≡ q
        → verify_post_kind host kind after found ≡ ok tt
    verify-hashed p q found kind before after (IsHashed.adds c h x y z) f =
        rw (f, z, text_eq_refl h) refl
    verify-hashed p q found kind before after (IsHashed.modifies c c' h h' x y z z') f =
        rw (f, z', text_eq_refl h') refl
    verify-hashed p q found kind before after (IsHashed.deletes c h x y z) f = rw (f, y) refl

    verify_entries-ok :
        (es : List JournalEntry) (w : World)
        → All (IsEntry root pre post host) es
        → All (λ e. w.files (target_of root e) ≡ post (target_of root e)) es
        → (verify_entries host root es w).0 ≡ ok tt
    unfolding verify_entries verify_post
    verify_entries-ok [] w v h = refl
    verify_entries-ok (e ∷ es) w v h =
        rw (verify-hashed _ _ _ e.kind e.pre_hash e.post_hash v.0.hashed h.0)
          (verify_entries-ok es w v.1 h.1)

    pub recover_one-Ends :
        (es : List JournalEntry) (w : World)
        → IsTransaction host root pre post es
        → IsResumable host root pre post es w
        → All (IsRemovable root w.files) es
        → w.faults ≡ quiet
        → Ends (recover_one host w)
    unfolding recover_phase
    recover_one-Ends es w t (IsResumable.before j h) p q =
        rw (recover_one-journal host root pre post w _ j) (remove_transaction-ok w q)
    recover_one-Ends es w t (IsResumable.after j h) p q =
        rw (recover_one-journal host root pre post w _ j) (remove_transaction-ok w q)
    recover_one-Ends es w t (IsResumable.preparing es' j f h) p q =
        rw
          (
            recover_one-journal host root pre post w _ j,
            (Flagged-IsTransaction host root pre post es es' f t).valid,
          )
          (cleanup_transaction-Ends Phase.prepared es' w q (Flagged-IsRemovable w.files es es' f p))
    recover_one-Ends es w t (IsResumable.publishing es' j f h) p q =
        let t' = Flagged-IsTransaction host root pre post es es' f t in
        let r = rollback_entries host root es' w in
        rw
          (
            recover_one-journal host root pre post w _ j,
            Flagged-validate_journal root Phase.prepared Phase.publishing es es' f,
            t.valid,
          )
          (resume-Ends (cleanup_transaction (journal_of root Phase.publishing es')) r
            (rollback_entries-ok host root pre post es' w t'.entries t'.foreign
              (Flagged-IsHalfway host root pre post w.files es es' f h) q)
            (cleanup_transaction-Ends Phase.publishing es' r.1
              ((rollback_entries-StaysQuiet host root es').at w q)
              (All-map es'
                (λ e k. (
                  (rollback_entries-PlainAt host root es' (temporary_of root e)).at w k.0,
                  (rollback_entries-PlainAt host root es' (backup_of root e)).at w k.1,
                ))
                (Flagged-IsRemovable w.files es es' f p))))
    recover_one-Ends es w t (IsResumable.committing es' j f h) p q =
        let t' = Flagged-IsTransaction host root pre post es es' f t in
        rw
          (
            recover_one-journal host root pre post w _ j,
            Flagged-validate_journal root Phase.prepared Phase.committed es es' f,
            t.valid,
          )
          (resume-Ends (cleanup_transaction (journal_of root Phase.committed es'))
            (verify_entries host root es' w)
            (verify_entries-ok es' w t'.entries
              (Flagged-TargetAfter host root pre post w.files es es' f h))
            (rw (verify_entries-same host root pre post es' w) (
              cleanup_transaction-Ends Phase.committed es' w q
                (Flagged-IsRemovable w.files es es' f p))))
