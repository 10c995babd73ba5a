-- ===== src/Apply/Transaction/Copies.antt =====
-- What the copies of the staged results leave at the paths of the entries, under any faults.
use omarchy_premonition.Apply.Publication.{temporary_of, target_of, backup_of, Host}
use omarchy_premonition.Apply.Transaction.Staging.{copy_entry-Keeps, copy_entries-Keeps}
use omarchy_premonition.Apply.Transaction.{copy_staged, copy_entry, copy_entries, copy_contents}
use omarchy_premonition.Apply.World.Keeps.{
  SameRest-files, SameRest-IsFrame, SameRest, SameAt-IsFrame, SameAt, PlainAt-IsFrame, PlainAt,
  Keeps,
}
use omarchy_premonition.Apply.Journal.{JournalKind, JournalEntry}
use omarchy_premonition.Apply.World.{sync_directory, put, call, World, Node, M, Files, resume, done}
use omarchy_premonition.Core.Error.{ApplyError}
use omarchy_premonition.Apply.Transaction.Invariant.{
  ArePairwiseForeign, All-of, All-map, All-zip, IsForeign, IsEntry, IsIntact,
}
use omarchy_premonition.Base.{
  false, List, [], ◌∷◌, ◌≢◌, Option, none, some, ◌≡◌, refl, ◌∙◌, arith, Text, text_eq, text_eq_refl,
  All, Result, ok, err,
}

abbrev pub node_of : Option Text → Option Node
node_of none = none
node_of (some contents) = some (Node.regular contents)

-- Where a copy succeeds, the staged result stands at the path.
abbrev pub FilledAt : Text → Option Text → Result ApplyError (Unit {0}) × World → Type 0
FilledAt path contents (ok u, w) = w.files path ≡ node_of contents
FilledAt path contents (err e, w) = Unit

copy_contents-FilledAt :
    (path : Text) (contents : Option Text) (w : World)
    → FilledAt path contents (copy_contents path contents w)
unfolding copy_contents call sync_directory put
copy_contents-FilledAt path none w = tt
copy_contents-FilledAt path (some c) w = ground (arith, text_eq_refl path)

module _ (root : Text) where
  copy_entry-FilledAt :
      (e : JournalEntry) (w : World)
      → e.kind ≢ JournalKind.delete
      → FilledAt (temporary_of root e) (w.stage e.relative) (copy_entry root e w)
  unfolding copy_entry copy_staged
  copy_entry-FilledAt e w k = by_kind e.kind k
    where
      by_kind :
          (kind : JournalKind)
          → kind ≢ JournalKind.delete
          → (let m : M (Unit {0}) = elim kind [
            | JournalKind.delete ↦ done
            | _ ↦ copy_staged root e
          ] in
              FilledAt (temporary_of root e) (w.stage e.relative) (m w))
      by_kind JournalKind.add k =
          copy_contents-FilledAt (temporary_of root e) (w.stage e.relative) w
      by_kind JournalKind.modify k =
          copy_contents-FilledAt (temporary_of root e) (w.stage e.relative) w
      by_kind JournalKind.delete k = elim (k refl) [ ]

  -- The path is not a temporary file of an entry.
  abbrev pub IsOther : Text → JournalEntry → Type 0
  IsOther x e = text_eq x (temporary_of root e) ≡ false

  pub copy_entry-SameAt :
      (e : JournalEntry) (x : Text) → IsOther x e → Keeps (SameAt x) (copy_entry root e)
  unfolding put
  copy_entry-SameAt e x o = copy_entry-Keeps (SameAt-IsFrame x) root e (λ w c. rw o refl)

  copy_entries-SameAt :
      (es : List JournalEntry) (x : Text)
      → All (IsOther x) es
      → Keeps (SameAt x) (copy_entries root es)
  unfolding put
  copy_entries-SameAt es x o =
      copy_entries-Keeps (SameAt-IsFrame x) root es (All-map es (λ e k. λ w c. rw k refl) o)

  pub copy_entries-SameRest : (es : List JournalEntry) → Keeps SameRest (copy_entries root es)
  copy_entries-SameRest es =
      copy_entries-Keeps SameRest-IsFrame root es (All-of (λ e. λ w c. SameRest-files w _) es)

  pub copy_entries-PlainAt :
      (es : List JournalEntry) (x : Text) → Keeps (PlainAt x) (copy_entries root es)
  unfolding put
  copy_entries-PlainAt es x =
      copy_entries-Keeps (PlainAt-IsFrame x) root es (All-of (λ e. λ w c m. ground arith) es)

  module _ (post : Files) where
    -- The stage holds what is to stand at the target.
    abbrev pub IsOffered : (Text → Option Text) → JournalEntry → Type 0
    IsOffered stage e =
        e.kind ≢ JournalKind.delete → node_of (stage e.relative) ≡ post (target_of root e)

    abbrev pub IsCopied : Files → JournalEntry → Type 0
    IsCopied f e = e.kind ≢ JournalKind.delete → f (temporary_of root e) ≡ post (target_of root e)

    abbrev pub CopiesAll : List JournalEntry → Result ApplyError (Unit {0}) × World → Type 0
    CopiesAll es (ok u, w) = All (IsCopied w.files) es
    CopiesAll es (err e, w) = Unit

    filled :
        (e : JournalEntry) (stage : Text → Option Text) (r : Result ApplyError (Unit {0}) × World)
        → IsOffered stage e
        → (e.kind ≢ JournalKind.delete → FilledAt (temporary_of root e) (stage e.relative) r)
        → CopiesAll (e ∷ []) r
    filled e stage (ok u, w) o h = (λ k. h k ∙ o k, tt)
    filled e stage (err x, w) o h = tt

    joined :
        (e : JournalEntry) (es : List JournalEntry) (w : World)
        (r : Result ApplyError (Unit {0}) × World)
        → IsCopied w.files e
        → r.1.files (temporary_of root e) ≡ w.files (temporary_of root e)
        → CopiesAll es r
        → CopiesAll (e ∷ es) r
    joined e es w (ok u, v) c s h = (λ k. s ∙ c k, h)
    joined e es w (err x, v) c s h = tt

    resume-CopiesAll :
        (e : JournalEntry) (es : List JournalEntry) (stage : Text → Option Text)
        (r : Result ApplyError (Unit {0}) × World)
        → All (λ d. IsForeign root e d × IsForeign root d e) es
        → r.1.stage ≡ stage
        → All (IsOffered stage) es
        → CopiesAll (e ∷ []) r
        → ((w : World) → All (IsOffered w.stage) es → CopiesAll es (copy_entries root es w))
        → CopiesAll (e ∷ es) (resume (λ u. copy_entries root es) r)
    resume-CopiesAll e es stage (err x, w) a s o c rest = tt
    resume-CopiesAll e es stage (ok u, w) a s o c rest =
        joined e es w (copy_entries root es w) c.0
          ((copy_entries-SameAt es (temporary_of root e)
              (All-map es (λ d f. f.1.temporary_outside.not_temporary) a)).at
            w)
          (rest w (rw s o))

    pub copy_entries-CopiesAll :
        (es : List JournalEntry) (w : World)
        → ArePairwiseForeign root es
        → All (IsOffered w.stage) es
        → CopiesAll es (copy_entries root es w)
    unfolding copy_entries
    copy_entries-CopiesAll [] w a o = tt
    copy_entries-CopiesAll (e ∷ es) w a o =
        resume-CopiesAll e es w.stage (copy_entry root e w) a.0
          ((copy_entry-Keeps SameRest-IsFrame root e (λ v c. SameRest-files v _)).at w).stage_kept
          o.1 (filled e w.stage (copy_entry root e w) o.0 (copy_entry-FilledAt e w))
          (λ v p. copy_entries-CopiesAll es v a.1 p)

  -- Neither the targets nor the backups change.
  module _ (pre post : Files) (host : Host) where
    others :
        (es : List JournalEntry)
        → All (IsEntry root pre post host) es
        → ArePairwiseForeign root es
        → All (λ e. All (IsOther (target_of root e)) es × All (IsOther (backup_of root e)) es) es
    others [] v a = tt
    others (e ∷ es) v a = (
      (
        (v.0.apart.tn, All-map es (λ d f. f.1.target_outside.not_temporary) a.0),
        (v.0.apart.bn, All-map es (λ d f. f.1.backup_outside.not_temporary) a.0),
      ),
      All-zip es
          (λ d f o.
            ((f.0.target_outside.not_temporary, o.0), (f.0.backup_outside.not_temporary, o.1)))
          a.0 (others es v.1 a.1),
    )

    pub copy_entries-IsIntact :
        (es : List JournalEntry) (w : World)
        → All (IsEntry root pre post host) es
        → ArePairwiseForeign root es
        → All (IsIntact root pre post w.files) es
        → All (IsIntact root pre post (copy_entries root es w).1.files) es
    copy_entries-IsIntact es w v a h =
        All-zip es
          (λ e o i. record {
            target_before = (copy_entries-SameAt es _ o.0).at w ∙ i.target_before;
            no_backup = (copy_entries-SameAt es _ o.1).at w ∙ i.no_backup;
          })
          (others es v a) h
