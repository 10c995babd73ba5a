-- ===== src/Apply/Transaction/Recovery.antt =====
-- Recovery: from whatever a stopped transaction left, under any faults of its own.
pub mod Step
use omarchy_premonition.Core.Error.{ApplyError}
use omarchy_premonition.Base.{
  ℕ, Bool, false, List, ◌⊎◌, inl, inr, none, some, ◌≡◌, refl, ap, ◌∙◌, arith, Text, All, Result, ok,
  err,
}
use omarchy_premonition.Apply.World.{World, Files, resume, call, sync_directory}
use omarchy_premonition.Apply.World.Keeps.{quiet}
use omarchy_premonition.Apply.Publication.{Host, target_of}
use omarchy_premonition.Apply.Transaction.{journal_of, remove_transaction}
use omarchy_premonition.Apply.Transaction.Invariant.{
  ArePairwiseForeign, IsEntry, IsIntact, IsHalfway,
}
use omarchy_premonition.Apply.Transaction.Flags.{
  Flagged, Flagged-All, Flagged-validate_journal, Flagged-ArePairwiseForeign, marked-IsEntry,
  marked-IsIntact, marked-IsHalfway,
}
use omarchy_premonition.Apply.Journal.{JournalEntry, Phase, validate_journal}

-- The journal stays or goes; nothing else but the directory and the faults to come changes.
pub remove_transaction-files : (w : World) → (remove_transaction w).1.files ≡ w.files
unfolding remove_transaction sync_directory call
remove_transaction-files w = ground arith

remove_transaction-journal :
    (w : World)
    → ((remove_transaction w).1.journal ≡ w.journal) ⊎ ((remove_transaction w).1.journal ≡ none)
unfolding remove_transaction sync_directory call
remove_transaction-journal w = ground arith

pub remove_transaction-ok :
    (w : World)
    → w.faults ≡ quiet
    → ((remove_transaction w).0 ≡ ok tt)
      × ((remove_transaction w).1.journal ≡ none)
      × ((remove_transaction w).1.transaction ≡ false)
unfolding remove_transaction sync_directory call
remove_transaction-ok w q =
    ground (arith, ap (λ (f : ℕ → Bool). f 0) q, ap (λ (f : ℕ → Bool). f 1) q)

pub remove_transaction-ends :
    (w : World)
    → (remove_transaction w).0 ≡ ok tt
    → ((remove_transaction w).1.journal ≡ none) × ((remove_transaction w).1.transaction ≡ false)
unfolding remove_transaction sync_directory call
remove_transaction-ends w h = ground arith

pub resume-journal :
    (w : World) (r : Result ApplyError (Unit {0}) × World)
    → r.1.journal ≡ w.journal
    → ((resume (λ u. remove_transaction) r).1.files ≡ r.1.files)
      × (((resume (λ u. remove_transaction) r).1.journal ≡ w.journal)
          ⊎ ((resume (λ u. remove_transaction) r).1.journal ≡ none))
resume-journal w (err e, v) h = (refl, inl h)
resume-journal w (ok u, v) h = (
  remove_transaction-files v,
  elim (remove_transaction-journal v) [ inl k ↦ inl (k ∙ h) | inr k ↦ inr k ],
)

pub gone : (w : World) → w.journal ≡ none → (remove_transaction w).1.journal ≡ none
gone w j = elim (remove_transaction-journal w) [ inl k ↦ k ∙ j | inr k ↦ k ]

module _ (host : Host) (root : Text) (pre post : Files) where
  abbrev pub TargetBefore : Files → JournalEntry → Type 0
  TargetBefore f e = f (target_of root e) ≡ pre (target_of root e)

  abbrev pub TargetAfter : Files → JournalEntry → Type 0
  TargetAfter f e = f (target_of root e) ≡ post (target_of root e)

  -- The journal is that of the phase, with some entries marked, and the files are as the phase says.
  pub data IsResumable (es : List JournalEntry) (w : World) : Type 0 where
    before : w.journal ≡ none → All (TargetBefore w.files) es → IsResumable es w
    after : w.journal ≡ none → All (TargetAfter w.files) es → IsResumable es w
    preparing :
        (es' : List JournalEntry)
        → w.journal ≡ some (journal_of root Phase.prepared es')
        → Flagged es es'
        → All (IsIntact root pre post w.files) es
        → IsResumable es w
    publishing :
        (es' : List JournalEntry)
        → w.journal ≡ some (journal_of root Phase.publishing es')
        → Flagged es es'
        → All (IsHalfway root pre post w.files) es
        → IsResumable es w
    committing :
        (es' : List JournalEntry)
        → w.journal ≡ some (journal_of root Phase.committed es')
        → Flagged es es'
        → All (TargetAfter w.files) es
        → IsResumable es w

  -- What holds of the entries of a transaction, at all times.
  pub record IsTransaction (es : List JournalEntry) : Type 0 where
    pub entries : All (IsEntry root pre post host) es
    pub foreign : ArePairwiseForeign root es
    pub valid : validate_journal (journal_of root Phase.prepared es) ≡ ok tt

  pub Flagged-IsTransaction :
      (es es' : List JournalEntry) → Flagged es es' → IsTransaction es → IsTransaction es'
  Flagged-IsTransaction es es' f t = record {
    entries = Flagged-All es es' (marked-IsEntry root pre post host) f t.entries;
    foreign = Flagged-ArePairwiseForeign root es es' f t.foreign;
    valid = Flagged-validate_journal root Phase.prepared Phase.prepared es es' f ∙ t.valid;
  }

  pub Flagged-IsIntact :
      (f : Files) (es es' : List JournalEntry)
      → Flagged es es'
      → All (IsIntact root pre post f) es
      → All (IsIntact root pre post f) es'
  Flagged-IsIntact f es es' g h = Flagged-All es es' (marked-IsIntact root pre post f) g h

  pub Flagged-TargetAfter :
      (f : Files) (es es' : List JournalEntry)
      → Flagged es es'
      → All (TargetAfter f) es
      → All (TargetAfter f) es'
  unfolding target_of
  Flagged-TargetAfter f es es' g h = Flagged-All es es' (λ e b k. k) g h

  pub Flagged-IsHalfway :
      (f : Files) (es es' : List JournalEntry)
      → Flagged es es'
      → All (IsHalfway root pre post f) es
      → All (IsHalfway root pre post f) es'
  Flagged-IsHalfway f es es' g h = Flagged-All es es' (marked-IsHalfway root pre post f) g h
