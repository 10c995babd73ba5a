-- ===== src/Apply/Transaction/Rollback.antt =====
-- Rolling all entries back, under any faults.
use omarchy_premonition.Apply.Transaction.{rollback_entries}
use omarchy_premonition.Apply.Publication.Frame.{
  rollback_entry-Keeps, publish_entry-Keeps, SameAt-AllowsWrites, AllowsWrites,
  StaysQuiet-AllowsWrites, SameRest-AllowsWrites, PlainAt-AllowsWrites,
}
use omarchy_premonition.Apply.Publication.Entry.{
  rollback-RollsBack, RollsBack, quieten, rollback_quiet,
}
use omarchy_premonition.Apply.World.Keeps.{
  done-Keeps, bind-Keeps, SameAt-IsFrame, SameAt, Keeps, quiet, IsFrame, StaysQuiet,
  StaysQuiet-IsFrame, resume-ok, SameRest, SameRest-IsFrame, PlainAt, PlainAt-IsFrame,
}
use omarchy_premonition.Core.Error.{ApplyError}
use omarchy_premonition.Base.{
  ℕ, Bool, List, [], ◌∷◌, ◌≡◌, refl, sym, ap, subst, Text, All, Result, ok, err,
}
use omarchy_premonition.Apply.World.{World, Files, resume}
use omarchy_premonition.Apply.Publication.{
  Host, target_of, backup_of, verify_post, publish_entry, rollback_entry, temporary_of,
}
use omarchy_premonition.Apply.Transaction.Invariant.{
  IsOutside, IsForeign, Agrees, IsEntry, IsIntact, IsHalfway, All-map, All-zip, ArePairwiseForeign,
  IsIntact-IsHalfway, Agrees-IsHalfway, Agrees-IsIntact, All-of,
}
use omarchy_premonition.Apply.Journal.{JournalEntry}

module _ (host : Host) (root : Text) where
  pub publish_entry-SameAt :
      (e : JournalEntry) (x : Text)
      → IsOutside root e x
      → Keeps (SameAt x) (publish_entry host root e)
  publish_entry-SameAt e x o =
      publish_entry-Keeps (SameAt-IsFrame x) host root e
        (SameAt-AllowsWrites x _ _ _ o.not_target o.not_temporary o.not_backup)

  pub publish_entry-SameRest : (e : JournalEntry) → Keeps SameRest (publish_entry host root e)
  publish_entry-SameRest e =
      publish_entry-Keeps SameRest-IsFrame host root e (SameRest-AllowsWrites _ _ _)

  pub publish_entry-PlainAt :
      (e : JournalEntry) (x : Text) → Keeps (PlainAt x) (publish_entry host root e)
  publish_entry-PlainAt e x =
      publish_entry-Keeps (PlainAt-IsFrame x) host root e (PlainAt-AllowsWrites x _ _ _)

  pub rollback_entry-SameAt :
      (e : JournalEntry) (x : Text)
      → IsOutside root e x
      → Keeps (SameAt x) (rollback_entry host root e)
  rollback_entry-SameAt e x o =
      rollback_entry-Keeps (SameAt-IsFrame x) host root e
        (SameAt-AllowsWrites x _ _ _ o.not_target o.not_temporary o.not_backup)

  pub publish_entry-Agrees :
      (e e' : JournalEntry) (w : World)
      → IsForeign root e e'
      → Agrees root w.files (publish_entry host root e w).1.files e'
  publish_entry-Agrees e e' w v = record {
    at_target = (publish_entry-SameAt e _ v.target_outside).at w;
    at_temporary = (publish_entry-SameAt e _ v.temporary_outside).at w;
    at_backup = (publish_entry-SameAt e _ v.backup_outside).at w;
  }

  pub rollback_entry-Agrees :
      (e e' : JournalEntry) (w : World)
      → IsForeign root e e'
      → Agrees root w.files (rollback_entry host root e w).1.files e'
  rollback_entry-Agrees e e' w v = record {
    at_target = (rollback_entry-SameAt e _ v.target_outside).at w;
    at_temporary = (rollback_entry-SameAt e _ v.temporary_outside).at w;
    at_backup = (rollback_entry-SameAt e _ v.backup_outside).at w;
  }

  pub rollback_entries-Keeps :
      {R : World → World → Type 0} (frame : IsFrame R) (es : List JournalEntry)
      → All (λ e. AllowsWrites R (target_of root e) (temporary_of root e) (backup_of root e)) es
      → Keeps R (rollback_entries host root es)
  unfolding rollback_entries
  rollback_entries-Keeps frame [] o = done-Keeps frame
  rollback_entries-Keeps frame (e ∷ es) o =
      bind-Keeps frame _ _ (rollback_entries-Keeps frame es o.1)
        λ u. rollback_entry-Keeps frame host root e o.0

  rollback_entries-SameAt :
      (es : List JournalEntry) (x : Text)
      → All (λ e. IsOutside root e x) es
      → Keeps (SameAt x) (rollback_entries host root es)
  rollback_entries-SameAt es x o =
      rollback_entries-Keeps (SameAt-IsFrame x) es (
        All-map es (λ e v. SameAt-AllowsWrites x _ _ _ v.not_target v.not_temporary v.not_backup) o)

  rollback_entries-Agrees :
      (e : JournalEntry) (es : List JournalEntry) (w : World)
      → All (λ e'. IsForeign root e e' × IsForeign root e' e) es
      → Agrees root w.files (rollback_entries host root es w).1.files e
  rollback_entries-Agrees e es w f = record {
    at_target = (rollback_entries-SameAt es _ (All-map es (λ e' g. g.1.target_outside) f)).at w;
    at_temporary =
        (rollback_entries-SameAt es _ (All-map es (λ e' g. g.1.temporary_outside) f)).at w;
    at_backup = (rollback_entries-SameAt es _ (All-map es (λ e' g. g.1.backup_outside) f)).at w;
  }

  pub rollback_entries-StaysQuiet :
      (es : List JournalEntry) → Keeps StaysQuiet (rollback_entries host root es)
  rollback_entries-StaysQuiet es = rollback_entries-Keeps StaysQuiet-IsFrame es (
      All-of
        (λ e. StaysQuiet-AllowsWrites (target_of root e) (temporary_of root e) (backup_of root e))
        es)

  pub rollback_entries-SameRest :
      (es : List JournalEntry) → Keeps SameRest (rollback_entries host root es)
  rollback_entries-SameRest es = rollback_entries-Keeps SameRest-IsFrame es (
      All-of
        (λ e. SameRest-AllowsWrites (target_of root e) (temporary_of root e) (backup_of root e)) es)

  pub rollback_entries-PlainAt :
      (es : List JournalEntry) (x : Text) → Keeps (PlainAt x) (rollback_entries host root es)
  rollback_entries-PlainAt es x = rollback_entries-Keeps (PlainAt-IsFrame x) es (
      All-of
        (λ e. PlainAt-AllowsWrites x (target_of root e) (temporary_of root e) (backup_of root e))
        es)

  module _ (pre post : Files) where
    -- All is as before, or where a call failed, may still be rolled back.
    abbrev pub RollsBackAll : List JournalEntry → Result ApplyError (Unit {0}) × World → Type 0
    RollsBackAll es (ok u, w) = All (IsIntact root pre post w.files) es
    RollsBackAll es (err e, w) = All (IsHalfway root pre post w.files) es

    abbrev RollsOne : JournalEntry → Result ApplyError (Unit {0}) × World → Type 0
    RollsOne e = RollsBackAll (e ∷ [])

    rollback_entry-RollsOne :
        (e : JournalEntry) (w : World)
        → IsEntry root pre post host e
        → IsHalfway root pre post w.files e
        → RollsOne e (rollback_entry host root e w)
    unfolding rollback_entry verify_post
    rollback_entry-RollsOne e w v h =
        taken (rollback_entry host root e w)
          (rollback-RollsBack host _ _ _ _ _ v.apart e.kind e.pre_hash e.post_hash w v.hashed h)
      where
        taken :
            (r : Result ApplyError (Unit {0}) × World)
            → RollsBack
                (pre (target_of root e))
                (post (target_of root e))
                (target_of root e)
                (backup_of root e)
                r
            → RollsOne e r
        taken (ok u, w') k = (record { target_before = k.0; no_backup = k.1 }, tt)
        taken (err x, w') k = (k, tt)

    rollback_entry-RollsBackAll :
        (e : JournalEntry) (es : List JournalEntry) (w : World)
        → IsEntry root pre post host e
        → All (IsForeign root e) es
        → IsHalfway root pre post w.files e
        → All (IsIntact root pre post w.files) es
        → RollsBackAll (e ∷ es) (rollback_entry host root e w)
    rollback_entry-RollsBackAll e es w v foreign h intact =
        taken (rollback_entry host root e w) (rollback_entry-RollsOne e w v h) (
          All-zip es
            (λ e' f k.
              Agrees-IsIntact root pre post w.files _ e' (rollback_entry-Agrees e e' w f) k)
            foreign intact)
      where
        taken :
            (r : Result ApplyError (Unit {0}) × World)
            → RollsOne e r
            → All (IsIntact root pre post r.1.files) es
            → RollsBackAll (e ∷ es) r
        taken (ok u, w') one rest = (one.0, rest)
        taken (err x, w') one rest =
            (one.0, All-map es (IsIntact-IsHalfway root pre post w'.files) rest)

    resume-RollsBackAll :
        (e : JournalEntry) (es : List JournalEntry) (r : Result ApplyError (Unit {0}) × World)
        → IsEntry root pre post host e
        → All (IsForeign root e) es
        → IsHalfway root pre post r.1.files e
        → RollsBackAll es r
        → RollsBackAll (e ∷ es) (resume (λ u. rollback_entry host root e) r)
    resume-RollsBackAll e es (ok u, w) v foreign h rest =
        rollback_entry-RollsBackAll e es w v foreign h rest
    resume-RollsBackAll e es (err x, w) v foreign h rest = (h, rest)

    -- Under any faults.
    pub rollback_entries-RollsBackAll :
        (es : List JournalEntry) (w : World)
        → All (IsEntry root pre post host) es
        → ArePairwiseForeign root es
        → All (IsHalfway root pre post w.files) es
        → RollsBackAll es (rollback_entries host root es w)
    unfolding rollback_entries
    rollback_entries-RollsBackAll [] w v a h = tt
    rollback_entries-RollsBackAll (e ∷ es) w v a h =
        resume-RollsBackAll e es (rollback_entries host root es w) v.0
          (All-map es (λ e' f. f.0) a.0)
          (Agrees-IsHalfway root pre post w.files (rollback_entries host root es w).1.files e
            (rollback_entries-Agrees e es w a.0) h.0)
          (rollback_entries-RollsBackAll es w v.1 a.1 h.1)

    pub quieten-eq : (w : World) → w.faults ≡ quiet → w ≡ quieten w
    quieten-eq w h = ap (λ (f : ℕ → Bool). record w { faults = f }) h

    rollback_entry-ok :
        (e : JournalEntry) (w : World)
        → IsEntry root pre post host e
        → IsHalfway root pre post w.files e
        → w.faults ≡ quiet
        → (rollback_entry host root e w).0 ≡ ok tt
    unfolding rollback_entry verify_post
    rollback_entry-ok e w v h q =
        subst (λ (u : World). (rollback_entry host root e u).0 ≡ ok tt) (sym (quieten-eq w q))
          (rollback_quiet host _ _ _ _ _ v.apart e.kind e.pre_hash e.post_hash w v.hashed h)

    -- Without faults it succeeds.
    pub rollback_entries-ok :
        (es : List JournalEntry) (w : World)
        → All (IsEntry root pre post host) es
        → ArePairwiseForeign root es
        → All (IsHalfway root pre post w.files) es
        → w.faults ≡ quiet
        → (rollback_entries host root es w).0 ≡ ok tt
    unfolding rollback_entries
    rollback_entries-ok [] w v a h q = refl
    rollback_entries-ok (e ∷ es) w v a h q =
        resume-ok (λ u. rollback_entry host root e) (rollback_entries host root es w)
          (rollback_entries-ok es w v.1 a.1 h.1 q)
          (rollback_entry-ok e (rollback_entries host root es w).1 v.0
            (Agrees-IsHalfway root pre post w.files (rollback_entries host root es w).1.files e
              (rollback_entries-Agrees e es w a.0) h.0)
            ((rollback_entries-StaysQuiet es).at w q))
