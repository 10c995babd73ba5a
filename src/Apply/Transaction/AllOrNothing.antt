-- ===== src/Apply/Transaction/AllOrNothing.antt =====
-- What a transaction and its recoveries come to.
use omarchy_premonition.Apply.Transaction.Recovery.Step.{recover_one-IsResumable}
use omarchy_premonition.Apply.Transaction.Leftovers.{
  recover_one-PlainAt, publish_transaction-PlainAt, publish_transaction-SameDirectory,
}
use omarchy_premonition.Apply.Transaction.Publishing.{Leaves}
use omarchy_premonition.Apply.Journal.{JournalEntry}
use omarchy_premonition.Apply.Transaction.Recovery.{
  TargetBefore, TargetAfter, IsTransaction, IsResumable,
}
use omarchy_premonition.Apply.Transaction.Cleanup.{IsRemovable}
use omarchy_premonition.Apply.Transaction.Outcome.{publish_transaction-Leaves, IsReady, IsFinished}
use omarchy_premonition.Apply.Publication.{temporary_of, backup_of, Host}
use omarchy_premonition.Apply.Transaction.Restart.{recover_one-over, Ends}
use omarchy_premonition.Core.Error.{ApplyError}
use omarchy_premonition.Apply.Transaction.Invariant.{All-map}
use omarchy_premonition.Base.{
  ℕ, Bool, true, false, not, ◌&&◌, List, [], ◌∷◌, ◌≢◌, ◌⊎◌, inl, inr, none, ◌≡◌, refl, ap, ◌∙◌,
  if◌then◌else◌, Bool-cases, Text, All, Result, is_ok, is_ok-ok, ok, err,
}
use omarchy_premonition.Apply.World.{Files, World}
use omarchy_premonition.Apply.Transaction.Restart.{recover_one-Ends}
use omarchy_premonition.Apply.World.Keeps.{quiet}
use omarchy_premonition.Apply.Transaction.{
  recover_one, publish_transaction, recovered, apply_transaction,
}

-- The world after restarts whose recoveries meet the given faults.
abbrev pub attempts : Host → List (ℕ → Bool) → World → World
attempts host [] w = w
attempts host (faults ∷ rest) w =
    attempts host rest (recover_one host (record w { faults = faults })).1

-- A recovery without faults after them.
abbrev pub restarted : Host → List (ℕ → Bool) → World → Result ApplyError (Unit {0}) × World
restarted host faults w = recover_one host (record (attempts host faults w) { faults = quiet })

module _ (host : Host) (root : Text) (pre post : Files) (es : List JournalEntry) where
  abbrev pub AllBefore : World → Type 0
  AllBefore w = All (TargetBefore host root pre post w.files) es

  abbrev pub AllAfter : World → Type 0
  AllAfter w = All (TargetAfter host root pre post w.files) es

  -- Without a journal, nothing is halfway.
  IsResumable-over :
      (w : World)
      → IsResumable host root pre post es w
      → w.journal ≡ none
      → AllBefore w ⊎ AllAfter w
  IsResumable-over w (IsResumable.before j h) k = inl h
  IsResumable-over w (IsResumable.after j h) k = inr h
  IsResumable-over w (IsResumable.preparing es' j f h) k = cc
  IsResumable-over w (IsResumable.publishing es' j f h) k = cc
  IsResumable-over w (IsResumable.committing es' j f h) k = cc

  -- The faults to come do not matter.
  IsResumable-faults :
      (w : World) (faults : ℕ → Bool)
      → IsResumable host root pre post es w
      → IsResumable host root pre post es (record w { faults = faults })
  IsResumable-faults w faults (IsResumable.before j h) = IsResumable.before j h
  IsResumable-faults w faults (IsResumable.after j h) = IsResumable.after j h
  IsResumable-faults w faults (IsResumable.preparing es' j f h) = IsResumable.preparing es' j f h
  IsResumable-faults w faults (IsResumable.publishing es' j f h) = IsResumable.publishing es' j f h
  IsResumable-faults w faults (IsResumable.committing es' j f h) = IsResumable.committing es' j f h

  -- A world from which a recovery without faults succeeds.
  abbrev pub IsSafe : World → Type 0
  IsSafe w = IsResumable host root pre post es w × All (IsRemovable root w.files) es

  module _ (t : IsTransaction host root pre post es) where
    recover_one-IsSafe : (w : World) → IsSafe w → IsSafe (recover_one host w).1
    recover_one-IsSafe w h = (
      recover_one-IsResumable host root pre post es w t h.0,
      All-map es
          (λ e p. (
            (recover_one-PlainAt host (temporary_of root e)).at w p.0,
            (recover_one-PlainAt host (backup_of root e)).at w p.1,
          ))
          h.1,
    )

    attempts-IsSafe :
        (faults : List (ℕ → Bool)) (w : World) → IsSafe w → IsSafe (attempts host faults w)
    attempts-IsSafe [] w h = h
    attempts-IsSafe (f ∷ faults) w h =
        attempts-IsSafe faults _
          (recover_one-IsSafe (record w { faults = f }) (IsResumable-faults w f h.0, h.1))

    safe_recovery :
        (w : World)
        → IsSafe w
        → w.faults ≡ quiet
        → Ends (recover_one host w)
          × (AllBefore (recover_one host w).1 ⊎ AllAfter (recover_one host w).1)
    safe_recovery w h q =
        let over = recover_one-Ends host root pre post es w t h.0 h.1 q in
        (over, IsResumable-over _ (recover_one-IsSafe w h).0 over.1)

    Leaves-IsResumable :
        (r : Result ApplyError (Unit {0}) × World)
        → Leaves host root pre post es (IsFinished host root pre post es t) r
        → IsResumable host root pre post es r.1
    Leaves-IsResumable (ok u, w) h = IsResumable.after h.no_journal h.targets_after
    Leaves-IsResumable (err e, w) h = h

    publish-IsSafe :
        (w : World)
        → IsReady host root pre post es t w
        → All (IsRemovable root w.files) es
        → IsSafe (publish_transaction host root es w).1
    publish-IsSafe w h p = (
      Leaves-IsResumable _ (publish_transaction-Leaves host root pre post es t w h),
      All-map es
          (λ e k. (
            (publish_transaction-PlainAt host root es (temporary_of root e)).at w k.0,
            (publish_transaction-PlainAt host root es (backup_of root e)).at w k.1,
          ))
          p,
    )

    -- What an application comes to, by its result.
    abbrev pub Applies : Result ApplyError (Unit {0}) × World → Type 0
    Applies (ok u, w) = (w.journal ≡ none) × (w.transaction ≡ false) × AllAfter w
    Applies (err e, w) =
        e ≢ ApplyError.recovery_required
        → (w.journal ≡ none) × (w.transaction ≡ false) × (AllBefore w ⊎ AllAfter w)

    recovered-there :
        (e : ApplyError) (w : World)
        → w.transaction ≡ true
        → recovered host (err e, w) ≡ (
            let again = recover_one host w in
            if not (is_ok again.0)
            then (err ApplyError.recovery_required, again.1)
            else (err e, again.1))
    unfolding recovered
    recovered-there e w d =
        let again = recover_one host w in
        ap
          (λ (b : Bool).
            if b && not (is_ok again.0)
            then (err ApplyError.recovery_required, again.1)
            else if b
            then (err e, again.1)
            else (err e, w))
          d

    recovered-cases :
        (e : ApplyError) (w : World)
        → IsSafe w
        → w.transaction ≡ true
        → Applies (recovered host (err e, w)) × IsSafe (recovered host (err e, w)).1
    recovered-cases e w h d =
        let safe = recover_one-IsSafe w h in
        elim (Bool-cases (is_ok (recover_one host w).0)) [
          | inl fine ↦
              let over = recover_one-over host w (is_ok-ok _ fine) in
              rw (recovered-there e w d, fine)
                ((λ n. (over.0, over.1, IsResumable-over _ safe.0 over.0)), safe)
          | inr stuck ↦ rw (recovered-there e w d, stuck) ((λ n. elim (n refl) [ ]), safe)
        ]

    applied :
        (r : Result ApplyError (Unit {0}) × World)
        → Leaves host root pre post es (IsFinished host root pre post es t) r
        → IsSafe r.1
        → ((e : ApplyError) → r.0 ≡ err e → r.1.transaction ≡ true)
        → Applies (recovered host r) × IsSafe (recovered host r).1
    unfolding recovered
    applied (ok u, w) h s d = ((h.no_journal, h.no_transaction, h.targets_after), s)
    applied (err e, w) h s d = recovered-cases e w s (d e refl)

    apply_transaction-cases :
        (w : World)
        → IsReady host root pre post es t w
        → All (IsRemovable root w.files) es
        → w.transaction ≡ true
        → Applies (apply_transaction host root es w) × IsSafe (apply_transaction host root es w).1
    unfolding apply_transaction
    apply_transaction-cases w h p d =
        applied (publish_transaction host root es w)
          (publish_transaction-Leaves host root pre post es t w h) (publish-IsSafe w h p)
          (λ e k. (publish_transaction-SameDirectory host root es).at w e k ∙ d)

    -- The hashes of the entries are those of the files before and after, no two of their paths
    -- are the same, and their journal is valid; at the start there is no journal, nothing stands
    -- at the backup paths and no special file at the temporary ones, the directory is there, and
    -- the stage holds the results. Under any faults, an application that returns ok has changed
    -- the files of all entries, and one that fails without asking for a recovery has changed
    -- those of all or of none; in both cases neither the journal nor the directory is left.
    pub apply_transaction-Applies :
        (w : World)
        → IsReady host root pre post es t w
        → All (IsRemovable root w.files) es
        → w.transaction ≡ true
        → Applies (apply_transaction host root es w)
    apply_transaction-Applies w h p d = (apply_transaction-cases w h p d).0

    -- The hashes of the entries are those of the files before and after, no two of their paths
    -- are the same, and their journal is valid; at the start there is no journal, nothing stands
    -- at the backup paths and no special file at the temporary ones, the directory is there, and
    -- the stage holds the results. An application is then stopped by any faults, and so is each
    -- of any number of recoveries. A recovery without faults after them succeeds, ends the
    -- transaction, and leaves the files of all entries as before or those of all as after.
    pub recover_one-AllOrNothing :
        (faults : List (ℕ → Bool)) (w : World)
        → IsReady host root pre post es t w
        → All (IsRemovable root w.files) es
        → w.transaction ≡ true
        → Ends (restarted host faults (apply_transaction host root es w).1)
          × (AllBefore (restarted host faults (apply_transaction host root es w).1).1
              ⊎ AllAfter (restarted host faults (apply_transaction host root es w).1).1)
    recover_one-AllOrNothing faults w h p d =
        let safe = attempts-IsSafe faults _ (apply_transaction-cases w h p d).1 in
        safe_recovery _ (IsResumable-faults _ quiet safe.0, safe.1) refl
