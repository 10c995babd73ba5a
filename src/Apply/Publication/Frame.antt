-- ===== src/Apply/Publication/Frame.antt =====
-- What the operations on one entry leave alone, under any faults.
use omarchy_premonition.Core.Error.{ApplyError}
use omarchy_premonition.Base.{false, none, some, ◌≡◌, refl, arith, Text, text_eq, Result}
use omarchy_premonition.Apply.World.{Node, World, put, tick, rename, remove_file, check}
use omarchy_premonition.Apply.World.Keeps.{
  SameRest-files, Keeps, IsFrame, SameRest, StaysQuiet, StaysQuiet-IsFrame, SameAt, bind-Keeps,
  or_else-Keeps, check-Keeps, fail-Keeps, when_exists-Keeps, rename-Keeps, remove_file-Keeps,
  sync_directory-Keeps, PlainAt,
}
use omarchy_premonition.Apply.Publication.{
  Host, target_of, temporary_of, backup_of, move_in, publish_entry, move_out, rollback_entry,
}
use omarchy_premonition.Apply.Journal.{JournalEntry, JournalKind}

-- The relation holds across each write at the paths of one entry.
pub record AllowsWrites (R : World → World → Type 0) (t n b : Text) : Type 0 where
  pub bring :
      (w : World) (c : Text)
      → R w (record (tick w) { files = put (put w.files n none) t (some (Node.regular c)) })
  pub save :
      (w : World) (c : Text)
      → R w (record (tick w) { files = put (put w.files t none) b (some (Node.regular c)) })
  pub restore :
      (w : World) (c : Text)
      → R w (record (tick w) { files = put (put w.files b none) t (some (Node.regular c)) })
  pub erase : (w : World) → R w (record (tick w) { files = put w.files t none })

module _ {R : World → World → Type 0} (frame : IsFrame R) {t n b : Text}
    (writes : AllowsWrites R t n b) where
  bring-Keeps : (e : ApplyError) → Keeps R (rename e n t)
  bring-Keeps e = rename-Keeps frame e n t writes.bring

  save-Keeps : (e : ApplyError) → Keeps R (rename e t b)
  save-Keeps e = rename-Keeps frame e t b writes.save

  restore-Keeps : (e : ApplyError) → Keeps R (rename e b t)
  restore-Keeps e = rename-Keeps frame e b t writes.restore

  erase-Keeps : (e : ApplyError) → Keeps R (remove_file e t)
  erase-Keeps e = remove_file-Keeps frame e t writes.erase

  move_in-Keeps : (kind : JournalKind) → Keeps R (move_in kind t n b)
  unfolding move_in
  move_in-Keeps JournalKind.add = bring-Keeps _
  move_in-Keeps JournalKind.modify = bind-Keeps frame _ _ (save-Keeps _) λ u.
      or_else-Keeps frame _ _ (bring-Keeps _)
        (bind-Keeps frame _ _ (restore-Keeps _) λ v. fail-Keeps frame _)
  move_in-Keeps JournalKind.delete = save-Keeps _

  move_out-Keeps :
      (kind : JournalKind) (test : World → Result ApplyError (Unit {0}))
      → Keeps R (move_out kind (check test) t b)
  unfolding move_out
  move_out-Keeps JournalKind.add test =
      when_exists-Keeps frame t _ (bind-Keeps frame _ _ (check-Keeps frame test) λ u. erase-Keeps _)
  move_out-Keeps JournalKind.modify test = when_exists-Keeps frame b _ (
      bind-Keeps frame _ _
        (when_exists-Keeps frame t _
          (bind-Keeps frame _ _ (check-Keeps frame test) λ u. erase-Keeps _))
        λ u. restore-Keeps _)
  move_out-Keeps JournalKind.delete test =
      when_exists-Keeps frame b _ (
        bind-Keeps frame _ _ (when_exists-Keeps frame t _ (fail-Keeps frame _))
          λ u. restore-Keeps _)

module _ {R : World → World → Type 0} (frame : IsFrame R) (host : Host) (root : Text)
    (e : JournalEntry)
    (writes : AllowsWrites R (target_of root e) (temporary_of root e) (backup_of root e)) where
  pub publish_entry-Keeps : Keeps R (publish_entry host root e)
  unfolding publish_entry
  publish_entry-Keeps = bind-Keeps frame _ _ (check-Keeps frame _) λ u.
      bind-Keeps frame _ _ (move_in-Keeps frame writes e.kind) λ v. sync_directory-Keeps frame _

  pub rollback_entry-Keeps : Keeps R (rollback_entry host root e)
  unfolding rollback_entry
  rollback_entry-Keeps =
      bind-Keeps frame _ _ (move_out-Keeps frame writes e.kind _) λ u. sync_directory-Keeps frame _

pub SameRest-AllowsWrites : (t n b : Text) → AllowsWrites SameRest t n b
SameRest-AllowsWrites t n b = record {
  bring = λ w c. SameRest-files w _;
  save = λ w c. SameRest-files w _;
  restore = λ w c. SameRest-files w _;
  erase = λ w. SameRest-files w _;
}

pub StaysQuiet-AllowsWrites : (t n b : Text) → AllowsWrites StaysQuiet t n b
StaysQuiet-AllowsWrites t n b = record {
  bring = λ w c. StaysQuiet-IsFrame.fault w;
  save = λ w c. StaysQuiet-IsFrame.fault w;
  restore = λ w c. StaysQuiet-IsFrame.fault w;
  erase = λ w. StaysQuiet-IsFrame.fault w;
}

pub SameAt-AllowsWrites :
    (x t n b : Text)
    → text_eq x t ≡ false
    → text_eq x n ≡ false
    → text_eq x b ≡ false
    → AllowsWrites (SameAt x) t n b
unfolding put
SameAt-AllowsWrites x t n b ht hn hb = record {
  bring = λ w c. rw (ht, hn) refl;
  save = λ w c. rw (hb, ht) refl;
  restore = λ w c. rw (ht, hb) refl;
  erase = λ w. rw ht refl;
}

pub PlainAt-AllowsWrites : (x t n b : Text) → AllowsWrites (PlainAt x) t n b
unfolding put
PlainAt-AllowsWrites x t n b = record {
  bring = λ w c h. ground arith;
  save = λ w c h. ground arith;
  restore = λ w c h. ground arith;
  erase = λ w h. ground arith;
}
