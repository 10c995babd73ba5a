-- ===== src/Apply/Transaction/Staging.antt =====
-- The journal writes and the copies of the staged results to the temporary files, under any faults.
use mathlib.Core.Option.{some-injective}
use omarchy_premonition.Apply.Transaction.{
  fits_journal, write_journal, created, copy_contents, copy_staged, copy_entry, copy_entries,
}
use omarchy_premonition.Apply.Journal.{JournalKind, JournalEntry, Journal}
use omarchy_premonition.Apply.World.Keeps.{
  sync_directory-Keeps, fail-Keeps, done-Keeps, call-Keeps, bind-Keeps, Keeps, IsFrame, check-Keeps,
}
use omarchy_premonition.Apply.Publication.{temporary_of, Host}
use omarchy_premonition.Apply.World.{sync_directory, call, World, Node, Files, put, done, tick}
use omarchy_premonition.Core.Error.{ApplyError}
use omarchy_premonition.Base.{
  List, [], ◌∷◌, inl, inr, Option, none, some, ◌≡◌, refl, subst, Bool-cases, Text, All, Result, ok,
  err,
}

-- Only the journal changes, and where the write fails it is the old one or the new one.
pub data Writes (journal : Journal) (w : World)
    : Result ApplyError (Unit {0}) × World → Type 0 where
  wrote :
      (v : World)
      → v.files ≡ w.files
      → v.stage ≡ w.stage
      → v.journal ≡ some journal
      → Writes journal w (ok tt, v)
  kept :
      (e : ApplyError) (v : World)
      → v.files ≡ w.files
      → v.journal ≡ w.journal
      → Writes journal w (err e, v)
  replaced :
      (e : ApplyError) (v : World)
      → v.files ≡ w.files
      → v.journal ≡ some journal
      → Writes journal w (err e, v)

pub write_journal-Writes :
    (host : Host) (journal : Journal) (w : World) → Writes journal w (write_journal host journal w)
unfolding write_journal sync_directory call
write_journal-Writes host journal w = elim (Bool-cases (fits_journal (host.encoded_len journal))) [
  | inr large ↦ rw large (Writes.kept _ w refl refl)
  | inl fits ↦ elim (Bool-cases (w.faults 0)) [
    | inl broken ↦ rw (fits, broken) (Writes.kept _ (tick w) refl refl)
    | inr works ↦ elim (Bool-cases (w.faults 1)) [
      | inl late ↦ rw (fits, works, late) (Writes.replaced _ _ refl refl)
      | inr fine ↦ rw (fits, works, fine) (Writes.wrote _ refl refl refl)
    ]
  ]
]

pub write_journal-SameFiles :
    (host : Host) (journal : Journal) (w : World) → (write_journal host journal w).1.files ≡ w.files
write_journal-SameFiles host journal w = taken (write_journal-Writes host journal w)
  where
    taken : {r : Result ApplyError (Unit {0}) × World} → Writes journal w r → r.1.files ≡ w.files
    taken (Writes.wrote v f s j) = f
    taken (Writes.kept e v f j) = f
    taken (Writes.replaced e v f j) = f

-- The relation holds across each write at the path.
abbrev pub AllowsFill : (World → World → Type 0) → Text → Type 0
AllowsFill R path =
    (w : World) (c : Text)
    → R w (record (tick w) { files = put w.files path (some (Node.regular c)) })

module _ {R : World → World → Type 0} (frame : IsFrame R) where
  copy_contents-Keeps :
      (path : Text) (contents : Option Text)
      → AllowsFill R path
      → Keeps R (copy_contents path contents)
  unfolding copy_contents
  copy_contents-Keeps path none k = fail-Keeps frame ApplyError.state
  copy_contents-Keeps path (some c) k =
      bind-Keeps frame _ _ (call-Keeps frame _ _ λ w files h. created-R w files (w.files path) h)
        λ u. bind-Keeps frame _ _ (check-Keeps frame _) λ x.
          bind-Keeps frame _ _
            (call-Keeps frame _ _ λ w files h.
              subst (λ (fs : Files). R w (record (tick w) { files = fs })) (some-injective _ _ h)
                (k w c))
            λ v. sync_directory-Keeps frame _
    where
      created-R :
          (w : World) (files : Files) (a : Option Node)
          → created path w.files a ≡ some files
          → R w (record (tick w) { files = files })
      created-R w files none h =
          subst (λ (fs : Files). R w (record (tick w) { files = fs })) (some-injective _ _ h)
            (k w [])
      created-R w files (some found) h = cc

  pub copy_entry-Keeps :
      (root : Text) (e : JournalEntry)
      → AllowsFill R (temporary_of root e)
      → Keeps R (copy_entry root e)
  unfolding copy_entry copy_staged
  copy_entry-Keeps root e k = by_kind e.kind
    where
      staged : Keeps R (λ w. copy_contents (temporary_of root e) (w.stage e.relative) w)
      staged = record {
        at = λ w. (copy_contents-Keeps (temporary_of root e) (w.stage e.relative) k).at w;
      }

      by_kind :
          (kind : JournalKind)
          → Keeps R (elim kind [
            | JournalKind.delete ↦ done
            | _ ↦ λ w. copy_contents (temporary_of root e) (w.stage e.relative) w
          ])
      by_kind JournalKind.add = staged
      by_kind JournalKind.modify = staged
      by_kind JournalKind.delete = done-Keeps frame

  pub copy_entries-Keeps :
      (root : Text) (es : List JournalEntry)
      → All (λ e. AllowsFill R (temporary_of root e)) es
      → Keeps R (copy_entries root es)
  unfolding copy_entries
  copy_entries-Keeps root [] k = done-Keeps frame
  copy_entries-Keeps root (e ∷ es) k =
      bind-Keeps frame _ _ (copy_entry-Keeps root e k.0) λ u. copy_entries-Keeps root es k.1
