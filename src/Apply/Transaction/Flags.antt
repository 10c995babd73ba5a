-- ===== src/Apply/Transaction/Flags.antt =====
-- Entries of a journal that differ only in what is marked as published.
use omarchy_premonition.Apply.Publication.{temporary_of, target_of, backup_of, Host}
use omarchy_premonition.Apply.World.{Files}
use omarchy_premonition.Base.{
  suc, Bool, true, List, [], ◌∷◌, ◌++◌, ◌≡◌, refl, sym, ap, subst, Text, length, is_empty, All,
}
use omarchy_premonition.Apply.Transaction.{journal_of}
use omarchy_premonition.Apply.Transaction.Invariant.{
  All-map, IsForeign, ArePairwiseForeign, IsOutside, IsEntry, IsIntact, IsHalfway, IsPosted,
}
use omarchy_premonition.Apply.Journal.{JournalEntry, Phase, validate_entries, validate_journal}

abbrev pub Flagged : List JournalEntry → List JournalEntry → Type 0
Flagged [] [] = Unit
Flagged (e ∷ es) (e' ∷ es') = (e' ≡ record e { published = e'.published }) × Flagged es es'
Flagged _ _ = ⊥

pub Flagged-refl : (es : List JournalEntry) → Flagged es es
Flagged-refl [] = tt
Flagged-refl (e ∷ es) = (refl, Flagged-refl es)

pub Flagged-sym : (es es' : List JournalEntry) → Flagged es es' → Flagged es' es
Flagged-sym [] [] f = tt
Flagged-sym (e ∷ es) (e' ∷ es') f = (
  sym (ap (λ (x : JournalEntry). record x { published = e.published }) f.0),
  Flagged-sym es es' f.1,
)
Flagged-sym [] (e' ∷ es') f = elim f [ ]
Flagged-sym (e ∷ es) [] f = elim f [ ]

pub Flagged-All {ℓ} :
    {P : JournalEntry → Type ℓ} (es es' : List JournalEntry)
    → ((e : JournalEntry) (b : Bool) → P e → P (record e { published = b }))
    → Flagged es es'
    → All P es
    → All P es'
Flagged-All [] [] k f h = tt
Flagged-All {P = P} (e ∷ es) (e' ∷ es') k f h =
    (subst P (sym f.0) (k e e'.published h.0), Flagged-All es es' k f.1 h.1)
Flagged-All [] (e' ∷ es') k f h = elim f [ ]
Flagged-All (e ∷ es) [] k f h = elim f [ ]

-- One more entry is published.
pub Flagged-published :
    (before : List JournalEntry) (e : JournalEntry) (after es : List JournalEntry)
    → Flagged es (before ++ e ∷ after)
    → Flagged es (before ++ record e { published = true } ∷ after)
Flagged-published [] e after [] f = elim f [ ]
Flagged-published [] e after (d ∷ es) f =
    (ap (λ (x : JournalEntry). record x { published = true }) f.0, f.1)
Flagged-published (b ∷ before) e after [] f = elim f [ ]
Flagged-published (b ∷ before) e after (d ∷ es) f = (f.0, Flagged-published before e after es f.1)

abbrev marked : JournalEntry → Bool → JournalEntry
marked e b = record e { published = b }

module _ (root : Text) where
  marked-IsOutside :
      (e : JournalEntry) (b : Bool) (x : Text) → IsOutside root e x → IsOutside root (marked e b) x
  unfolding target_of temporary_of backup_of
  marked-IsOutside e b x v = record {
    not_target = v.not_target;
    not_temporary = v.not_temporary;
    not_backup = v.not_backup;
  }

  marked-IsForeign :
      (e d : JournalEntry) (b : Bool)
      → IsForeign root e d × IsForeign root d e
      → IsForeign root (marked e b) d × IsForeign root d (marked e b)
  unfolding target_of temporary_of backup_of
  marked-IsForeign e d b v = (
    record {
      target_outside = marked-IsOutside e b _ v.0.target_outside;
      temporary_outside = marked-IsOutside e b _ v.0.temporary_outside;
      backup_outside = marked-IsOutside e b _ v.0.backup_outside;
    },
    record {
      target_outside = v.1.target_outside;
      temporary_outside = v.1.temporary_outside;
      backup_outside = v.1.backup_outside;
    },
  )

  pub Flagged-ArePairwiseForeign :
      (es es' : List JournalEntry)
      → Flagged es es'
      → ArePairwiseForeign root es
      → ArePairwiseForeign root es'
  Flagged-ArePairwiseForeign [] [] f a = tt
  Flagged-ArePairwiseForeign (e ∷ es) (e' ∷ es') f a = (
    subst (λ (x : JournalEntry). All (λ d. IsForeign root x d × IsForeign root d x) es') (sym f.0)
        (Flagged-All es es'
          (λ d b g.
            let (there, here) = marked-IsForeign d (marked e e'.published) b (g.1, g.0) in
            (here, there))
          f.1 (All-map es (λ d g. marked-IsForeign e d e'.published g) a.0)),
    Flagged-ArePairwiseForeign es es' f.1 a.1,
  )
  Flagged-ArePairwiseForeign [] (e' ∷ es') f a = elim f [ ]
  Flagged-ArePairwiseForeign (e ∷ es) [] f a = elim f [ ]

  module _ (pre post : Files) where
    pub marked-IsEntry :
        (host : Host) (e : JournalEntry) (b : Bool)
        → IsEntry root pre post host e
        → IsEntry root pre post host (marked e b)
    unfolding target_of temporary_of backup_of
    marked-IsEntry host e b v = record { hashed = v.hashed; apart = v.apart }

    pub marked-IsIntact :
        (f : Files) (e : JournalEntry) (b : Bool)
        → IsIntact root pre post f e
        → IsIntact root pre post f (marked e b)
    unfolding target_of temporary_of backup_of
    marked-IsIntact f e b v = record { target_before = v.target_before; no_backup = v.no_backup }

    pub marked-IsHalfway :
        (f : Files) (e : JournalEntry) (b : Bool)
        → IsHalfway root pre post f e
        → IsHalfway root pre post f (marked e b)
    unfolding target_of temporary_of backup_of
    marked-IsHalfway f e b v = v

    pub marked-IsPosted :
        (f : Files) (e : JournalEntry) (b : Bool)
        → IsPosted root pre post f e
        → IsPosted root pre post f (marked e b)
    unfolding target_of temporary_of backup_of
    marked-IsPosted f e b v = record {
      target_after = v.target_after;
      backup_before = v.backup_before;
    }

-- The validation does not look at the marks.
Flagged-validate_entries :
    (unique : List Text) (es es' : List JournalEntry)
    → Flagged es es'
    → validate_entries unique es' ≡ validate_entries unique es
unfolding validate_entries
Flagged-validate_entries unique [] [] f = refl
Flagged-validate_entries unique (e ∷ es) (e' ∷ es') f =
    rw (f.0, Flagged-validate_entries (e.relative ∷ unique) es es' f.1) refl
Flagged-validate_entries unique [] (e' ∷ es') f = elim f [ ]
Flagged-validate_entries unique (e ∷ es) [] f = elim f [ ]

Flagged-length : (es es' : List JournalEntry) → Flagged es es' → length es' ≡ length es
Flagged-length [] [] f = refl
Flagged-length (e ∷ es) (e' ∷ es') f = ap suc (Flagged-length es es' f.1)
Flagged-length [] (e' ∷ es') f = elim f [ ]
Flagged-length (e ∷ es) [] f = elim f [ ]

Flagged-is_empty : (es es' : List JournalEntry) → Flagged es es' → is_empty es' ≡ is_empty es
Flagged-is_empty [] [] f = refl
Flagged-is_empty (e ∷ es) (e' ∷ es') f = refl
Flagged-is_empty [] (e' ∷ es') f = elim f [ ]
Flagged-is_empty (e ∷ es) [] f = elim f [ ]

pub Flagged-validate_journal :
    (root : Text) (phase phase' : Phase) (es es' : List JournalEntry)
    → Flagged es es'
    → validate_journal (journal_of root phase' es') ≡ validate_journal (journal_of root phase es)
unfolding validate_journal
Flagged-validate_journal root phase phase' es es' f =
    rw (Flagged-validate_entries [] es es' f, Flagged-length es es' f, Flagged-is_empty es es' f)
      refl
