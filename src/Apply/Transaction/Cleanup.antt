-- ===== src/Apply/Transaction/Cleanup.antt =====
-- What the removal of the temporary files and the backups leaves, under any faults.
use omarchy_premonition.Core.Error.{ApplyError}
use omarchy_premonition.Apply.World.Keeps.{
  when_exists-Keeps, remove_file-Keeps, done-Keeps, bind-Keeps, StaysQuiet-IsFrame, StaysQuiet,
  SameRest-files, SameRest-IsFrame, SameRest, SameAt-IsFrame, SameAt, MissingAt-IsFrame, MissingAt,
  Keeps, IsFrame, quiet, resume-ok, IsPlain, PlainAt, PlainAt-IsFrame,
}
use omarchy_premonition.Base.{
  ℕ, Bool, false, List, [], ◌∷◌, none, ◌≡◌, refl, sym, ap, ◌∙◌, subst, arith, Text, text_eq,
  text_eq_refl, All, Result, ok, err,
}
use omarchy_premonition.Apply.World.{
  World, Files, put, tick, call, remove_file, when_exists, resume, M,
}
use omarchy_premonition.Apply.Publication.{target_of, temporary_of, backup_of, Host}
use omarchy_premonition.Apply.Transaction.{cleanup_entries, cleanup_entry}
use omarchy_premonition.Apply.Transaction.Invariant.{
  All-map, All-zip, All-of, ArePairwiseForeign, IsEntry, IsIntact,
}
use omarchy_premonition.Apply.Journal.{JournalEntry}

module _ (root : Text) where
  cleanup_entries-Keeps :
      {R : World → World → Type 0} (frame : IsFrame R) (es : List JournalEntry)
      → All
          (λ e.
            ((w : World) → R w (record (tick w) { files = put w.files (temporary_of root e) none }))
            × ((w : World) → R w (record (tick w) { files = put w.files (backup_of root e) none })))
          es
      → Keeps R (cleanup_entries root es)
  unfolding cleanup_entries cleanup_entry
  cleanup_entries-Keeps frame [] o = done-Keeps frame
  cleanup_entries-Keeps frame (e ∷ es) o =
      bind-Keeps frame _ _
        (bind-Keeps frame _ _
          (when_exists-Keeps frame (temporary_of root e) _ (remove_file-Keeps frame _ _ o.0.0))
          λ u. when_exists-Keeps frame (backup_of root e) _ (remove_file-Keeps frame _ _ o.0.1))
        λ u. cleanup_entries-Keeps frame es o.1

  pub cleanup_entries-StaysQuiet :
      (es : List JournalEntry) → Keeps StaysQuiet (cleanup_entries root es)
  cleanup_entries-StaysQuiet es =
      cleanup_entries-Keeps StaysQuiet-IsFrame es
        (All-of (λ e. (λ w. StaysQuiet-IsFrame.fault w, λ w. StaysQuiet-IsFrame.fault w)) es)

  pub cleanup_entries-SameRest : (es : List JournalEntry) → Keeps SameRest (cleanup_entries root es)
  cleanup_entries-SameRest es =
      cleanup_entries-Keeps SameRest-IsFrame es
        (All-of (λ e. (λ w. SameRest-files w _, λ w. SameRest-files w _)) es)

  pub cleanup_entries-MissingAt :
      (es : List JournalEntry) (x : Text) → Keeps (MissingAt x) (cleanup_entries root es)
  unfolding put
  cleanup_entries-MissingAt es x =
      cleanup_entries-Keeps (MissingAt-IsFrame x) es
        (All-of (λ e. (λ w m. ground arith, λ w m. ground arith)) es)

  pub cleanup_entries-PlainAt :
      (es : List JournalEntry) (x : Text) → Keeps (PlainAt x) (cleanup_entries root es)
  unfolding put
  cleanup_entries-PlainAt es x =
      cleanup_entries-Keeps (PlainAt-IsFrame x) es
        (All-of (λ e. (λ w m. ground arith, λ w m. ground arith)) es)

  -- What the cleanup finds of an entry is missing or a regular file.
  abbrev pub IsRemovable : Files → JournalEntry → Type 0
  IsRemovable f e = IsPlain (f (temporary_of root e)) × IsPlain (f (backup_of root e))

  remove_ok :
      (x : Text) (w : World)
      → w.faults ≡ quiet
      → IsPlain (w.files x)
      → (when_exists x (remove_file ApplyError.state x) w).0 ≡ ok tt
  unfolding remove_file call
  remove_ok x w q h = ground (arith, ap (λ (f : ℕ → Bool). f 0) q)

  remove-PlainAt : (x y : Text) → Keeps (PlainAt y) (when_exists x (remove_file ApplyError.state x))
  unfolding put
  remove-PlainAt x y =
      when_exists-Keeps (PlainAt-IsFrame y) x _
        (remove_file-Keeps (PlainAt-IsFrame y) _ x (λ w m. ground arith))

  remove-StaysQuiet : (x : Text) → Keeps StaysQuiet (when_exists x (remove_file ApplyError.state x))
  remove-StaysQuiet x =
      when_exists-Keeps StaysQuiet-IsFrame x _
        (remove_file-Keeps StaysQuiet-IsFrame _ x (λ w. StaysQuiet-IsFrame.fault w))

  cleanup_entry-ok :
      (e : JournalEntry) (w : World)
      → w.faults ≡ quiet
      → IsRemovable w.files e
      → (cleanup_entry root e w).0 ≡ ok tt
  unfolding cleanup_entry
  cleanup_entry-ok e w q h =
      let first =
        when_exists (temporary_of root e) (remove_file ApplyError.state (temporary_of root e)) in
      resume-ok _ (first w) (remove_ok (temporary_of root e) w q h.0) (
        remove_ok (backup_of root e) (first w).1 ((remove-StaysQuiet (temporary_of root e)).at w q)
          ((remove-PlainAt (temporary_of root e) (backup_of root e)).at w h.1))

  cleanup_entry-PlainAt : (e : JournalEntry) (x : Text) → Keeps (PlainAt x) (cleanup_entry root e)
  unfolding cleanup_entry
  cleanup_entry-PlainAt e x =
      bind-Keeps (PlainAt-IsFrame x) _ _ (remove-PlainAt _ x) λ u. remove-PlainAt _ x

  cleanup_entry-StaysQuiet : (e : JournalEntry) → Keeps StaysQuiet (cleanup_entry root e)
  unfolding cleanup_entry
  cleanup_entry-StaysQuiet e =
      bind-Keeps StaysQuiet-IsFrame _ _ (remove-StaysQuiet _) λ u. remove-StaysQuiet _

  -- Without faults the cleanup succeeds.
  pub cleanup_entries-ok :
      (es : List JournalEntry) (w : World)
      → w.faults ≡ quiet
      → All (IsRemovable w.files) es
      → (cleanup_entries root es w).0 ≡ ok tt
  unfolding cleanup_entries
  cleanup_entries-ok [] w q h = refl
  cleanup_entries-ok (e ∷ es) w q h =
      resume-ok (λ u. cleanup_entries root es) (cleanup_entry root e w) (cleanup_entry-ok e w q h.0)
        (cleanup_entries-ok es (cleanup_entry root e w).1 ((cleanup_entry-StaysQuiet e).at w q) (
          All-map es
            (λ e' k. ((cleanup_entry-PlainAt e _).at w k.0, (cleanup_entry-PlainAt e _).at w k.1))
            h.1))

  -- Nothing stands at the paths that the cleanup of an entry removes.
  abbrev pub IsCleared : Files → JournalEntry → Type 0
  IsCleared f e = (f (temporary_of root e) ≡ none) × (f (backup_of root e) ≡ none)

  remove_cleared :
      (x : Text) (w : World)
      → (when_exists x (remove_file ApplyError.state x) w).0 ≡ ok tt
      → (when_exists x (remove_file ApplyError.state x) w).1.files x ≡ none
  unfolding remove_file call put
  remove_cleared x w h = ground (arith, text_eq_refl x)

  remove-MissingAt :
      (x y : Text) → Keeps (MissingAt y) (when_exists x (remove_file ApplyError.state x))
  unfolding put
  remove-MissingAt x y =
      when_exists-Keeps (MissingAt-IsFrame y) x _
        (remove_file-Keeps (MissingAt-IsFrame y) _ x (λ w m. ground arith))

  -- Two steps that succeed together: the first did, and the world is the second's.
  resume-eq-ok :
      (m : M (Unit {0})) (r : Result ApplyError (Unit {0}) × World)
      → (resume (λ u. m) r).0 ≡ ok tt
      → (r.0 ≡ ok tt) × ((m r.1).0 ≡ ok tt) × ((resume (λ u. m) r).1 ≡ (m r.1).1)
  resume-eq-ok m (ok u, w) h = (refl, h, refl)
  resume-eq-ok m (err e, w) h = cc

  cleanup_entry-IsCleared :
      (e : JournalEntry) (w : World)
      → (cleanup_entry root e w).0 ≡ ok tt
      → IsCleared (cleanup_entry root e w).1.files e
  unfolding cleanup_entry
  cleanup_entry-IsCleared e w h =
      let x = temporary_of root e in
      let y = backup_of root e in
      let first = when_exists x (remove_file ApplyError.state x) w in
      let (one, two, same) =
        resume-eq-ok (when_exists y (remove_file ApplyError.state y)) first h in
      rw same
        ((remove-MissingAt y x).at first.1 (remove_cleared x w one), remove_cleared y first.1 two)

  -- A cleanup that succeeds leaves neither a temporary file nor a backup.
  pub cleanup_entries-IsCleared :
      (es : List JournalEntry) (w : World)
      → (cleanup_entries root es w).0 ≡ ok tt
      → All (IsCleared (cleanup_entries root es w).1.files) es
  unfolding cleanup_entries
  cleanup_entries-IsCleared [] w h = tt
  cleanup_entries-IsCleared (e ∷ es) w h =
      let first = cleanup_entry root e w in
      let (one, two, same) = resume-eq-ok (cleanup_entries root es) first h in
      let (x, y) = cleanup_entry-IsCleared e w one in
      subst (λ (v : World). All (IsCleared v.files) (e ∷ es)) (sym same)
        (
          (
            (cleanup_entries-MissingAt es (temporary_of root e)).at first.1 x,
            (cleanup_entries-MissingAt es (backup_of root e)).at first.1 y,
          ),
          cleanup_entries-IsCleared es first.1 two,
        )

  -- The path is not one that the cleanup of an entry removes.
  abbrev pub IsKept : Text → JournalEntry → Type 0
  IsKept x e = (text_eq x (temporary_of root e) ≡ false) × (text_eq x (backup_of root e) ≡ false)

  cleanup_entries-SameAt :
      (es : List JournalEntry) (x : Text)
      → All (IsKept x) es
      → Keeps (SameAt x) (cleanup_entries root es)
  unfolding put
  cleanup_entries-SameAt es x k =
      cleanup_entries-Keeps (SameAt-IsFrame x) es
        (All-map es (λ e h. (λ w. rw h.0 refl, λ w. rw h.1 refl)) k)

  module _ (pre post : Files) (host : Host) where
    target_of-IsKept :
        (e : JournalEntry) → IsEntry root pre post host e → IsKept (target_of root e) e
    target_of-IsKept e v = (v.apart.tn, v.apart.tb)

    -- No target is removed.
    pub targets-IsKept :
        (es : List JournalEntry)
        → All (IsEntry root pre post host) es
        → ArePairwiseForeign root es
        → All (λ e. All (IsKept (target_of root e)) es) es
    targets-IsKept [] v a = tt
    targets-IsKept (e ∷ es) v a = (
      (
        target_of-IsKept e v.0,
        All-map es (λ e' f. (f.1.target_outside.not_temporary, f.1.target_outside.not_backup)) a.0,
      ),
      All-zip es (λ e' f k. ((f.0.target_outside.not_temporary, f.0.target_outside.not_backup), k))
          a.0 (targets-IsKept es v.1 a.1),
    )

    pub cleanup_entries-targets :
        (es : List JournalEntry) (w : World)
        → All (IsEntry root pre post host) es
        → ArePairwiseForeign root es
        → All
            (λ e.
              (cleanup_entries root es w).1.files (target_of root e) ≡ w.files (target_of root e))
            es
    cleanup_entries-targets es w v a =
        All-map es (λ e k. (cleanup_entries-SameAt es _ k).at w) (targets-IsKept es v a)

    pub cleanup_entries-IsIntact :
        (es : List JournalEntry) (w : World)
        → All (IsEntry root pre post host) es
        → ArePairwiseForeign root es
        → All (IsIntact root pre post w.files) es
        → All (IsIntact root pre post (cleanup_entries root es w).1.files) es
    cleanup_entries-IsIntact es w v a h =
        All-zip es
          (λ e k i. record {
            target_before = k ∙ i.target_before;
            no_backup = (cleanup_entries-MissingAt es (backup_of root e)).at w i.no_backup;
          })
          (cleanup_entries-targets es w v a) h
