-- ===== src/Apply/Transaction/Publishing/Loop.antt =====
-- The loop of publications and journal writes, under any faults.
use mathlib.Core.List.{append_assoc}
use omarchy_premonition.Apply.Transaction.Staging.{write_journal-Writes}
use omarchy_premonition.Apply.Transaction.Rollback.{publish_entry-SameRest}
use omarchy_premonition.Apply.Journal.{Phase, JournalEntry}
use omarchy_premonition.Apply.Transaction.Recovery.{
  IsTransaction, IsResumable, Flagged-IsTransaction,
}
use omarchy_premonition.Apply.Publication.{publish_entry, Host}
use omarchy_premonition.Apply.Transaction.Flags.{
  marked-IsPosted, marked-IsHalfway, Flagged-sym, Flagged-refl, Flagged-published, Flagged-All,
  Flagged,
}
use omarchy_premonition.Core.Error.{ApplyError}
use omarchy_premonition.Apply.Transaction.Invariant.{
  IsPosted-IsHalfway, IsPosted, IsHalfway, All-map,
}
use omarchy_premonition.Apply.Transaction.Publishing.{
  write_journal-Leaves, resume-Leaves, publish_entry-Publishes, Leaves, IsStaged-IsHalfway,
  AreSplit, All-split, All-++, Publishes,
}
use omarchy_premonition.Base.{
  true, List, [], ◌∷◌, ◌++◌, some, ◌≡◌, sym, ap, ◌∙◌, subst, Text, All, Result, ok, err,
}
use omarchy_premonition.Apply.Transaction.{published, write_journal, journal_of, publish_entries}
use omarchy_premonition.Apply.World.{Files, World}

module _ (host : Host) (root : Text) (pre post : Files) where
  abbrev Kept : List JournalEntry → World → Type 0
  Kept running w = w.journal ≡ some (journal_of root Phase.publishing running)

  -- A failure in this phase leaves what a recovery can go on with.
  halfway-IsResumable :
      (es running : List JournalEntry) (w : World)
      → Flagged es running
      → Kept running w
      → All (IsHalfway root pre post w.files) running
      → IsResumable host root pre post es w
  halfway-IsResumable es running w f j h =
      IsResumable.publishing running j f (
        Flagged-All running es (marked-IsHalfway root pre post w.files) (Flagged-sym es running f)
          h)

  -- The journal is that of the running list, whose first part is published.
  abbrev pub IsRunning : List JournalEntry → List JournalEntry → World → Type 0
  IsRunning before after w = Kept (before ++ after) w × AreSplit root pre post w.files before after

  abbrev pub WasPublished : List JournalEntry → JournalEntry → List JournalEntry → World → Type 0
  WasPublished before e after w =
      Kept (before ++ e ∷ after) w
      × AreSplit root pre post w.files before after
      × IsPosted root pre post w.files e

  pub publish_entry-Leaves :
      (es before : List JournalEntry) (e : JournalEntry) (after : List JournalEntry)
      (r : Result ApplyError (Unit {0}) × World)
      → Flagged es (before ++ e ∷ after)
      → Kept (before ++ e ∷ after) r.1
      → Publishes root pre post host before e after r
      → Leaves host root pre post es (WasPublished before e after) r
  publish_entry-Leaves es before e after (ok u, w) f j h = (j, h.0, h.1)
  publish_entry-Leaves es before e after (err x, w) f j h =
      halfway-IsResumable es (before ++ e ∷ after) w f j h

  split-IsHalfway :
      (before : List JournalEntry) (e : JournalEntry) (after : List JournalEntry) (f : Files)
      → AreSplit root pre post f before after
      → IsPosted root pre post f e
      → All (IsHalfway root pre post f) (before ++ e ∷ after)
  split-IsHalfway before e after f h k =
      All-++ _ before (e ∷ after) (All-map before (IsPosted-IsHalfway root pre post f) h.0) (
        IsPosted-IsHalfway root pre post f e k,
        All-map after (IsStaged-IsHalfway root pre post f) h.1,
      )

  pub mark-Leaves :
      (es before : List JournalEntry) (e : JournalEntry) (after : List JournalEntry) (w : World)
      → Flagged es (before ++ e ∷ after)
      → WasPublished before e after w
      → Leaves host root pre post es (IsRunning (before ++ (published e ∷ [])) after) (
          write_journal host (journal_of root Phase.publishing (before ++ (published e ∷ after))) w)
  mark-Leaves es before e after w f h =
      let running = before ++ (published e ∷ after) in
      let posted = marked-IsPosted root pre post w.files e true h.2 in
      write_journal-Leaves host root pre post es _ _ w _ (write_journal-Writes host _ w)
        (λ v k s j. (
          j
              ∙ ap (λ (l : List JournalEntry). some (journal_of root Phase.publishing l))
                  (sym (append_assoc before (published e ∷ []) after)),
          subst (λ (fs : Files). AreSplit root pre post fs (before ++ (published e ∷ [])) after)
              (sym k) (All-++ _ before (published e ∷ []) h.1.0 (posted, tt), h.1.1),
        ))
        (λ v k j.
          halfway-IsResumable es (before ++ e ∷ after) v f (j ∙ h.0)
            (rw k (split-IsHalfway before e after w.files h.1 h.2)))
        (λ v k j.
          halfway-IsResumable es running v (Flagged-published before e after es f) j
            (rw k (split-IsHalfway before (published e) after w.files h.1 posted)))

  -- All is published, and the journal does not say so yet.
  abbrev pub IsDone : List JournalEntry → World → Type 0
  IsDone es w =
      (running : List JournalEntry) × (w.journal ≡ some (journal_of root Phase.publishing running))
      × Flagged es running
      × All (IsPosted root pre post w.files) es

  -- The list for the rest of the loop.
  pub next-IsTransaction :
      (before : List JournalEntry) (e : JournalEntry) (after : List JournalEntry)
      → IsTransaction host root pre post (before ++ e ∷ after)
      → IsTransaction host root pre post ((before ++ (published e ∷ [])) ++ after)
  next-IsTransaction before e after t =
      subst (λ (x : List JournalEntry). IsTransaction host root pre post x)
        (sym (append_assoc before (published e ∷ []) after))
        (Flagged-IsTransaction host root pre post (before ++ e ∷ after)
          (before ++ (published e ∷ after)) (Flagged-published before e after _ (Flagged-refl _)) t)

  pub next-Flagged :
      (es before : List JournalEntry) (e : JournalEntry) (after : List JournalEntry)
      → Flagged es (before ++ e ∷ after)
      → Flagged es ((before ++ (published e ∷ [])) ++ after)
  next-Flagged es before e after f =
      subst (λ (x : List JournalEntry). Flagged es x)
        (sym (append_assoc before (published e ∷ []) after)) (Flagged-published before e after es f)

  pub publish_entries-Leaves :
      (es before after : List JournalEntry) (w : World)
      → IsTransaction host root pre post (before ++ after)
      → Flagged es (before ++ after)
      → IsRunning before after w
      → Leaves host root pre post es (IsDone es) (publish_entries host root before after w)
  unfolding publish_entries
  publish_entries-Leaves es before [] w t f h = (
    before ++ [],
    h.0,
    f,
    Flagged-All (before ++ []) es (marked-IsPosted root pre post w.files)
        (Flagged-sym es (before ++ []) f) (All-++ _ before [] h.1.0 tt),
  )
  publish_entries-Leaves es before (e ∷ after) w t f h =
      let entry = (All-split _ before (e ∷ after) t.entries).1.0 in
      resume-Leaves host root pre post es (WasPublished before e after) (IsDone es) _
        (publish_entry host root e w)
        (publish_entry-Leaves es before e after _ f
          (((publish_entry-SameRest host root e).at w).journal_kept ∙ h.0)
          (publish_entry-Publishes root pre post host before e after w entry t.foreign h.1))
        λ v k.
          resume-Leaves host root pre post es (IsRunning (before ++ (published e ∷ [])) after)
            (IsDone es) _ _ (mark-Leaves es before e after v f k)
            λ u l.
              publish_entries-Leaves es (before ++ (published e ∷ [])) after u
                (next-IsTransaction before e after t) (next-Flagged es before e after f) l
