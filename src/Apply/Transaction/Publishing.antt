-- ===== src/Apply/Transaction/Publishing.antt =====
-- The loop of publications, under any faults.
pub mod Loop
use omarchy_premonition.Apply.Transaction.Rollback.{publish_entry-Agrees}
use omarchy_premonition.Apply.World.{resume}
use omarchy_premonition.Apply.Publication.Entry.{publish-Publishes}
use omarchy_premonition.Apply.Transaction.Staging.{Writes}
use omarchy_premonition.Apply.Journal.{JournalEntry, Journal}
use omarchy_premonition.Apply.Transaction.Recovery.{IsResumable}
use omarchy_premonition.Apply.Publication.{verify_pre, target_of, publish_entry, backup_of, Host}
use omarchy_premonition.Apply.World.{World, M, Files}
use omarchy_premonition.Core.Error.{ApplyError}
use omarchy_premonition.Apply.Transaction.Invariant.{
  IsStaged, IsPosted-IsHalfway, IsPosted, IsIntact-IsHalfway, IsHalfway, IsForeign, IsEntry,
  ArePairwiseForeign, All-zip, All-map, Agrees-IsStaged, Agrees-IsPosted,
}
use omarchy_premonition.Base.{List, [], ◌∷◌, ◌++◌, some, ◌≡◌, Text, All, Result, ok, err}
use omarchy_premonition.Apply.Publication.Entry

pub All-++ {ℓ} :
    {A : Type 0} (P : A → Type ℓ) (xs ys : List A) → All P xs → All P ys → All P (xs ++ ys)
All-++ P [] ys h k = k
All-++ P (x ∷ xs) ys h k = (h.0, All-++ P xs ys h.1 k)

pub All-split {ℓ} :
    {A : Type 0} (P : A → Type ℓ) (xs ys : List A) → All P (xs ++ ys) → All P xs × All P ys
All-split P [] ys h = (tt, h)
All-split P (x ∷ xs) ys h = let (k, l) = All-split P xs ys h.1 in ((h.0, k), l)

-- What a part of a transaction leaves: `Q` where it succeeds, and what a recovery can go on with
-- where it fails.
module _ (host : Host) (root : Text) (pre post : Files) (es : List JournalEntry) where
  abbrev pub Leaves : (World → Type 0) → Result ApplyError (Unit {0}) × World → Type 0
  Leaves Q (ok u, w) = Q w
  Leaves Q (err e, w) = IsResumable host root pre post es w

  pub resume-Leaves :
      (P Q : World → Type 0) (f : M (Unit {0})) (r : Result ApplyError (Unit {0}) × World)
      → Leaves P r
      → ((w : World) → P w → Leaves Q (f w))
      → Leaves Q (resume (λ u. f) r)
  resume-Leaves P Q f (ok u, w) p k = k w p
  resume-Leaves P Q f (err e, w) p k = p

  pub write_journal-Leaves :
      (Q : World → Type 0) (journal : Journal) (w : World)
      (r : Result ApplyError (Unit {0}) × World)
      → Writes journal w r
      → ((v : World) → v.files ≡ w.files → v.stage ≡ w.stage → v.journal ≡ some journal → Q v)
      → ((v : World)
          → v.files ≡ w.files
          → v.journal ≡ w.journal
          → IsResumable host root pre post es v)
      → ((v : World)
          → v.files ≡ w.files
          → v.journal ≡ some journal
          → IsResumable host root pre post es v)
      → Leaves Q r
  write_journal-Leaves Q journal w r (Writes.wrote v f s j) q k l = q v f s j
  write_journal-Leaves Q journal w r (Writes.kept e v f j) q k l = k v f j
  write_journal-Leaves Q journal w r (Writes.replaced e v f j) q k l = l v f j

module _ (root : Text) where
  pub ArePairwiseForeign-split :
      (before : List JournalEntry) (e : JournalEntry) (after : List JournalEntry)
      → ArePairwiseForeign root (before ++ e ∷ after)
      → All (IsForeign root e) before × All (IsForeign root e) after
  ArePairwiseForeign-split [] e after a = (tt, All-map after (λ d f. f.0) a.0)
  ArePairwiseForeign-split (b ∷ before) e after a =
      let (k, l) = ArePairwiseForeign-split before e after a.1 in
      let (skipped, here) = All-split _ before (e ∷ after) a.0 in ((here.0.1, k), l)

  module _ (pre post : Files) where
    pub IsStaged-IsHalfway :
        (f : Files) (e : JournalEntry) → IsStaged root pre post f e → IsHalfway root pre post f e
    IsStaged-IsHalfway f e v = IsIntact-IsHalfway root pre post f e v.intact

    -- The entries so far are published, and those to come are staged.
    abbrev pub AreSplit : Files → List JournalEntry → List JournalEntry → Type 0
    AreSplit f before after =
        All (IsPosted root pre post f) before × All (IsStaged root pre post f) after

    AreSplit-IsHalfway :
        (f : Files) (before after : List JournalEntry)
        → AreSplit f before after
        → All (IsHalfway root pre post f) (before ++ after)
    AreSplit-IsHalfway f before after h =
        All-++ _ before after (All-map before (IsPosted-IsHalfway root pre post f) h.0)
          (All-map after (IsStaged-IsHalfway f) h.1)

    module _ (host : Host) where
      -- What the publication of one entry does to all of them.
      abbrev pub Publishes :
          List JournalEntry
          → JournalEntry
          → List JournalEntry
          → Result ApplyError (Unit {0}) × World
          → Type 0
      Publishes before e after (ok u, w) =
          AreSplit w.files before after × IsPosted root pre post w.files e
      Publishes before e after (err x, w) =
          All (IsHalfway root pre post w.files) (before ++ e ∷ after)

      publish_entry-others :
          (before : List JournalEntry) (e : JournalEntry) (after : List JournalEntry) (w : World)
          → ArePairwiseForeign root (before ++ e ∷ after)
          → AreSplit w.files before after
          → AreSplit (publish_entry host root e w).1.files before after
      publish_entry-others before e after w a h =
          let (there, here) = ArePairwiseForeign-split before e after a in
          (
            All-zip before
                (λ d f k.
                  Agrees-IsPosted root pre post w.files _ d (publish_entry-Agrees host root e d w f)
                    k)
                there h.0,
            All-zip after
                (λ d f k.
                  Agrees-IsStaged root pre post w.files _ d (publish_entry-Agrees host root e d w f)
                    k)
                here h.1,
          )

      assembled :
          (before : List JournalEntry) (e : JournalEntry) (after : List JournalEntry)
          (r : Result ApplyError (Unit {0}) × World)
          → AreSplit r.1.files before after
          → Entry.Publishes
              (pre (target_of root e))
              (post (target_of root e))
              (target_of root e)
              (backup_of root e)
              r
          → Publishes before e after r
      assembled before e after (ok u, w) h k =
          (h, record { target_after = k.0; backup_before = k.1 })
      assembled before e after (err x, w) h k =
          All-++ _ before (e ∷ after)
            (All-map before (IsPosted-IsHalfway root pre post w.files) h.0)
            (k, All-map after (IsStaged-IsHalfway w.files) h.1)

      pub publish_entry-Publishes :
          (before : List JournalEntry) (e : JournalEntry) (after : List JournalEntry) (w : World)
          → IsEntry root pre post host e
          → ArePairwiseForeign root (before ++ e ∷ after)
          → AreSplit w.files before (e ∷ after)
          → Publishes before e after (publish_entry host root e w)
      unfolding publish_entry verify_pre
      publish_entry-Publishes before e after w v a h =
          assembled before e after (publish_entry host root e w)
            (publish_entry-others before e after w a (h.0, h.1.1))
            (publish-Publishes host _ _ _ _ _ v.apart e.kind e.pre_hash e.post_hash w v.hashed
              h.1.0.intact.target_before h.1.0.intact.no_backup h.1.0.temporary_after)
