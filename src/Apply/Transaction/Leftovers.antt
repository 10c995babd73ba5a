-- ===== src/Apply/Transaction/Leftovers.antt =====
-- What a transaction and its recovery keep at every point.
use omarchy_premonition.Apply.Transaction.Staging.{write_journal-SameFiles}
use omarchy_premonition.Apply.Transaction.Recovery.Step.{verify_entries-same}
use omarchy_premonition.Apply.Transaction.Recovery.{remove_transaction-files}
use omarchy_premonition.Apply.Transaction.Rollback.{
  rollback_entries-PlainAt, publish_entry-SameRest, publish_entry-PlainAt,
}
use omarchy_premonition.Apply.Transaction.Copies.{copy_entries-SameRest, copy_entries-PlainAt}
use omarchy_premonition.Apply.Transaction.Cleanup.{
  cleanup_entries-SameRest, cleanup_entries-PlainAt,
}
use omarchy_premonition.Apply.Journal.{Phase, JournalEntry, Journal}
use omarchy_premonition.Apply.World.Keeps.{
  sync_directory-Keeps, done-Keeps, check-Keeps, bind-Keeps, PlainAt-IsFrame, PlainAt, Keeps,
  IsPlain, IsFrame,
}
use omarchy_premonition.Apply.Publication.{publish_entry, Host}
use omarchy_premonition.Core.Error.{ApplyError}
use omarchy_premonition.Base.{
  List, [], ◌∷◌, Option, none, some, ◌≡◌, refl, sym, ◌∙◌, subst, arith, Text, Result, ok, err,
}
use omarchy_premonition.Apply.World.{◌>>◌, resume, World, M, call, sync_directory}
use omarchy_premonition.Apply.Transaction.{
  write_journal, publish_entries, remove_transaction, cleanup_transaction, verify_entries,
  recover_phase, recover_journal, recover_one, publish_transaction,
}

-- The relation holds where the operation fails.
pub record Fails (R : World → World → Type 0) (m : M (Unit {0})) : Type 0 where
  pub at : (w : World) (e : ApplyError) → (m w).0 ≡ err e → R w (m w).1

module _ {R : World → World → Type 0} (frame : IsFrame R) where
  Keeps-Fails : (m : M (Unit {0})) → Keeps R m → Fails R m
  Keeps-Fails m k = record { at = λ w e h. k.at w }

  resume-Fails :
      (f : M (Unit {0})) (w : World) (r : Result ApplyError (Unit {0}) × World) (e : ApplyError)
      → Fails R f
      → R w r.1
      → (resume (λ u. f) r).0 ≡ err e
      → R w (resume (λ u. f) r).1
  resume-Fails f w (ok u, v) e k h i = frame.chain w v (f v).1 h (k.at v e i)
  resume-Fails f w (err x, v) e k h i = h

  bind-Fails : (m f : M (Unit {0})) → Keeps R m → Fails R f → Fails R (m >> f)
  bind-Fails m f k l = record { at = λ w e h. resume-Fails f w (m w) e l (k.at w) h }

-- The directory of the transaction is there or not as before.
abbrev pub SameDirectory : World → World → Type 0
SameDirectory w w' = w'.transaction ≡ w.transaction

pub SameDirectory-IsFrame : IsFrame SameDirectory
SameDirectory-IsFrame = record { same = λ w. refl; chain = λ u v w h k. k ∙ h; fault = λ w. refl }

write_journal-SameDirectory :
    (host : Host) (journal : Journal) → Keeps SameDirectory (write_journal host journal)
unfolding write_journal sync_directory call
write_journal-SameDirectory host journal = record { at = λ w. ground arith }

pub write_journal-PlainAt :
    (host : Host) (journal : Journal) (x : Text) → Keeps (PlainAt x) (write_journal host journal)
write_journal-PlainAt host journal x = record {
  at = λ w h. rw (write_journal-SameFiles host journal w) h;
}

remove_transaction-SameDirectory : Fails SameDirectory remove_transaction
unfolding remove_transaction sync_directory call
remove_transaction-SameDirectory = record { at = λ w e h. ground arith }

remove_transaction-PlainAt : (x : Text) → Keeps (PlainAt x) remove_transaction
remove_transaction-PlainAt x = record { at = λ w h. rw (remove_transaction-files w) h }

cleanup_transaction-SameDirectory :
    (journal : Journal) → Fails SameDirectory (cleanup_transaction journal)
unfolding cleanup_transaction
cleanup_transaction-SameDirectory journal =
    bind-Fails SameDirectory-IsFrame _ _
      (record {
        at = λ w.
            ((cleanup_entries-SameRest journal.repository_root journal.entries).at
              w).transaction_kept;
      })
      remove_transaction-SameDirectory

pub cleanup_transaction-PlainAt :
    (journal : Journal) (x : Text) → Keeps (PlainAt x) (cleanup_transaction journal)
unfolding cleanup_transaction
cleanup_transaction-PlainAt journal x =
    bind-Keeps (PlainAt-IsFrame x) _ _
      (cleanup_entries-PlainAt journal.repository_root journal.entries x)
      λ u. remove_transaction-PlainAt x

module _ (host : Host) where
  recover_phase-PlainAt :
      (phase : Phase) (journal : Journal) (x : Text)
      → Keeps (PlainAt x) (recover_phase host phase journal)
  unfolding recover_phase
  recover_phase-PlainAt Phase.prepared journal x = cleanup_transaction-PlainAt journal x
  recover_phase-PlainAt Phase.publishing journal x =
      bind-Keeps (PlainAt-IsFrame x) _ _
        (rollback_entries-PlainAt host journal.repository_root journal.entries x)
        λ u. cleanup_transaction-PlainAt journal x
  recover_phase-PlainAt Phase.committed journal x =
      bind-Keeps (PlainAt-IsFrame x) _ _
        (verify_entries-PlainAt journal.repository_root journal.entries x)
        λ u. cleanup_transaction-PlainAt journal x
    where
      verify_entries-PlainAt :
          (root : Text) (es : List JournalEntry) (y : Text)
          → Keeps (PlainAt y) (verify_entries host root es)
      verify_entries-PlainAt root es y = record {
        at = λ w h.
            subst (λ (v : World). IsPlain (v.files y))
              (sym (verify_entries-same host root w.files w.files es w)) h;
      }

  pub recover_one-PlainAt : (x : Text) → Keeps (PlainAt x) (recover_one host)
  unfolding recover_one
  recover_one-PlainAt x = record { at = λ w. (by_journal w.journal).at w }
    where
      by_journal : (journal : Option Journal) → Keeps (PlainAt x) (recover_journal host journal)
      by_journal none = remove_transaction-PlainAt x
      by_journal (some journal) =
          bind-Keeps (PlainAt-IsFrame x) _ _ (check-Keeps (PlainAt-IsFrame x) _)
            λ u. recover_phase-PlainAt journal.phase journal x

  -- A relation that the publications and the journal writes keep.
  pub publish_entries-Keeps :
      {R : World → World → Type 0} (frame : IsFrame R) (root : Text)
      (before after : List JournalEntry)
      → ((e : JournalEntry) → Keeps R (publish_entry host root e))
      → ((journal : Journal) → Keeps R (write_journal host journal))
      → Keeps R (publish_entries host root before after)
  unfolding publish_entries
  publish_entries-Keeps frame root before [] p j = done-Keeps frame
  publish_entries-Keeps frame root before (e ∷ after) p j =
      bind-Keeps frame _ _ (p e)
        λ u. bind-Keeps frame _ _ (j _) λ v. publish_entries-Keeps frame root _ after p j

  pub publish_transaction-PlainAt :
      (root : Text) (es : List JournalEntry) (x : Text)
      → Keeps (PlainAt x) (publish_transaction host root es)
  unfolding publish_transaction
  publish_transaction-PlainAt root es x =
      let frame = PlainAt-IsFrame x in
      bind-Keeps frame _ _ (write_journal-PlainAt host _ x) λ u.
        bind-Keeps frame _ _ (copy_entries-PlainAt root es x) λ u.
          bind-Keeps frame _ _ (write_journal-PlainAt host _ x) λ u.
            bind-Keeps frame _ _
              (publish_entries-Keeps frame root [] es (λ e. publish_entry-PlainAt host root e x)
                λ j. write_journal-PlainAt host j x)
              λ u. bind-Keeps frame _ _ (write_journal-PlainAt host _ x) λ u.
                bind-Keeps frame _ _ (sync_directory-Keeps frame _)
                  λ u. cleanup_transaction-PlainAt _ x

  -- A transaction that fails keeps its directory.
  pub publish_transaction-SameDirectory :
      (root : Text) (es : List JournalEntry)
      → Fails SameDirectory (publish_transaction host root es)
  unfolding publish_transaction
  publish_transaction-SameDirectory root es =
      let frame = SameDirectory-IsFrame in
      let write = write_journal-SameDirectory host in
      bind-Fails frame _ _ (write _) (
        bind-Fails frame _ _
          (record { at = λ w. ((copy_entries-SameRest root es).at w).transaction_kept })
          (bind-Fails frame _ _ (write _) (
            bind-Fails frame _ _
              (publish_entries-Keeps frame root [] es
                (λ e. record {
                  at = λ w. ((publish_entry-SameRest host root e).at w).transaction_kept;
                })
                write)
              (bind-Fails frame _ _ (write _) (
                bind-Fails frame _ _ (sync_directory-Keeps frame _)
                  (cleanup_transaction-SameDirectory _))))))
