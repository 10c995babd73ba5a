-- ===== src/Apply/Transaction/Success/Parts.antt =====
-- The parts of a transaction that meets no faults.
use omarchy_premonition.Apply.Transaction.Rollback.{
  quieten-eq, publish_entry-SameRest, publish_entry-PlainAt,
}
use omarchy_premonition.Apply.Transaction.Staging.{copy_entry-Keeps}
use omarchy_premonition.Apply.Publication.Frame.{publish_entry-Keeps, StaysQuiet-AllowsWrites}
use omarchy_premonition.Apply.Journal.{Phase, JournalEntry}
use omarchy_premonition.Apply.Transaction.Recovery.{IsTransaction}
use omarchy_premonition.Apply.Transaction.Publishing.Loop.{
  publish_entry-Leaves, next-IsTransaction, next-Flagged, mark-Leaves, WasPublished, IsRunning,
}
use omarchy_premonition.Apply.Transaction.Copies.{copy_entry-SameAt, IsOffered}
use omarchy_premonition.Apply.Transaction.Success.{
  write_journal_ok, write_journal-KeepsCalm, KeepsCalm-IsCalm, KeepsCalm, IsCalm, copy_entry_ok,
}
use omarchy_premonition.Apply.Publication.{verify_pre, temporary_of, publish_entry, Host}
use omarchy_premonition.Apply.Transaction.Flags.{Flagged-published, Flagged}
use omarchy_premonition.Core.Error.{ApplyError}
use omarchy_premonition.Apply.Transaction.Invariant.{IsStaged, IsEntry, ArePairwiseForeign, All-zip}
use omarchy_premonition.Apply.Transaction.Publishing.{publish_entry-Publishes, Leaves, All-split}
use omarchy_premonition.Base.{
  true, List, [], ◌∷◌, ◌++◌, none, ◌≡◌, refl, sym, ◌∙◌, subst, Text, All, Result, ok, err,
}
use omarchy_premonition.Apply.World.{resume, Files, World, M}
use omarchy_premonition.Apply.Publication.Entry.{publish_quiet}
use omarchy_premonition.Apply.World.Keeps.{
  quiet, SameRest-files, SameRest-IsFrame, StaysQuiet-IsFrame, resume-ok,
}
use omarchy_premonition.Apply.Transaction.{
  published, fits_journal, write_journal, copy_entry, copy_entries, journal_of, publish_entries,
}

module _ (host : Host) (root : Text) (pre post : Files) where
  -- Nothing stands at the temporary path.
  abbrev pub IsFree : Files → JournalEntry → Type 0
  IsFree f e = f (temporary_of root e) ≡ none

  pub copy_entries_ok :
      (es : List JournalEntry) (w : World)
      → All (IsEntry root pre post host) es
      → ArePairwiseForeign root es
      → All (IsOffered root post w.stage) es
      → All (IsFree w.files) es
      → w.faults ≡ quiet
      → (copy_entries root es w).0 ≡ ok tt
  unfolding copy_entries
  copy_entries_ok [] w v a o n q = refl
  copy_entries_ok (e ∷ es) w v a o n q =
      let r = copy_entry root e w in
      let same =
        ((copy_entry-Keeps SameRest-IsFrame root e (λ v c. SameRest-files v _)).at w).stage_kept in
      resume-ok (λ u. copy_entries root es) r (copy_entry_ok host root pre post e w v.0 o.0 n.0 q)
        (copy_entries_ok es r.1 v.1 a.1 (rw same o.1)
          (All-zip es
            (λ d f i.
              (copy_entry-SameAt root e (temporary_of root d)
                  f.0.temporary_outside.not_temporary).at
                w
              ∙ i)
            a.0 n.1)
          ((copy_entry-Keeps StaysQuiet-IsFrame root e (λ v c. StaysQuiet-IsFrame.fault v)).at w q))

  publish_entry_ok :
      (e : JournalEntry) (w : World)
      → IsEntry root pre post host e
      → IsStaged root pre post w.files e
      → w.faults ≡ quiet
      → (publish_entry host root e w).0 ≡ ok tt
  unfolding publish_entry verify_pre
  publish_entry_ok e w v h q =
      subst (λ (u : World). (publish_entry host root e u).0 ≡ ok tt)
        (sym (quieten-eq host root pre post w q))
        (publish_quiet host _ _ _ _ _ v.apart e.kind e.pre_hash e.post_hash w v.hashed
          h.intact.target_before h.intact.no_backup h.temporary_after)

  module _ (es : List JournalEntry) (t : IsTransaction host root pre post es)
      (fits : (phase : Phase) (running : List JournalEntry)
        → Flagged es running
        → fits_journal (host.encoded_len (journal_of root phase running)) ≡ true) where
    pub resume-Succeeds :
        (P : World → Type 0) (f : M (Unit {0})) (r : Result ApplyError (Unit {0}) × World)
        → r.0 ≡ ok tt
        → Leaves host root pre post es P r
        → IsCalm root es r.1
        → ((w : World) → P w → IsCalm root es w → (f w).0 ≡ ok tt)
        → (resume (λ u. f) r).0 ≡ ok tt
    resume-Succeeds P f (ok u, w) h p q k = k w p q
    resume-Succeeds P f (err e, w) h p q k = cc

    pub publish_entry-KeepsCalm : (e : JournalEntry) → KeepsCalm (publish_entry host root e)
    publish_entry-KeepsCalm e = record {
      faultless =
          publish_entry-Keeps StaysQuiet-IsFrame host root e (StaysQuiet-AllowsWrites _ _ _);
      plain = publish_entry-PlainAt host root e;
    }

    pub publish_entries_ok :
        (before after : List JournalEntry) (w : World)
        → IsTransaction host root pre post (before ++ after)
        → Flagged es (before ++ after)
        → IsRunning host root pre post before after w
        → IsCalm root es w
        → (publish_entries host root before after w).0 ≡ ok tt
    unfolding publish_entries
    publish_entries_ok before [] w t' f h q = refl
    publish_entries_ok before (e ∷ after) w t' f h q =
        let entry = (All-split _ before (e ∷ after) t'.entries).1.0 in
        resume-Succeeds (WasPublished host root pre post before e after) _
          (publish_entry host root e w) (publish_entry_ok e w entry h.1.1.0 q.no_faults)
          (publish_entry-Leaves host root pre post es before e after _ f
            (((publish_entry-SameRest host root e).at w).journal_kept ∙ h.0)
            (publish_entry-Publishes root pre post host before e after w entry t'.foreign h.1))
          (KeepsCalm-IsCalm root es _ w (publish_entry-KeepsCalm e) q)
          λ v k p.
            resume-Succeeds (IsRunning host root pre post (before ++ (published e ∷ [])) after) _
              (write_journal host
                (journal_of root Phase.publishing (before ++ (published e ∷ after))) v)
              (write_journal_ok host _ v p.no_faults
                (fits Phase.publishing _ (Flagged-published before e after es f)))
              (mark-Leaves host root pre post es before e after v f k)
              (KeepsCalm-IsCalm root es _ v (write_journal-KeepsCalm host _) p)
              λ u l o.
                publish_entries_ok (before ++ (published e ∷ [])) after u
                  (next-IsTransaction host root pre post before e after t')
                  (next-Flagged host root pre post es before e after f) l o
