-- ===== src/Apply/Publication/Entry.antt =====
-- One entry of a journal under any faults: what publication and rollback leave at its three paths.
use omarchy_premonition.Core.Error.{ApplyError}
use omarchy_premonition.Base.{
  false, ◌≢◌, Option, none, some, ◌≡◌, arith, Text, text_eq, text_eq_refl, Result, ok, err,
}
use omarchy_premonition.Apply.World.Keeps.{quiet}
use omarchy_premonition.Apply.World.{
  ◌>>◌, Node, World, put, M, call, rename, remove_file, sync_directory, check,
}
use omarchy_premonition.Apply.Publication.{
  Host, hash_node, verify_post_kind, move_out, verify_pre_kind, move_in,
}
use omarchy_premonition.Apply.Journal.{JournalKind}

-- What stands at the target and at the backup while an entry is published, with `p` at the target
-- before and `q` after: all as before, the target in the backup, or the target replaced too.
pub data IsRecoverable (p q t b : Option Node) : Type 0 where
  intact : t ≡ p → b ≡ none → IsRecoverable p q t b
  moved : b ≡ p → t ≡ none → IsRecoverable p q t b
  swapped : b ≡ p → t ≡ q → IsRecoverable p q t b

-- The hashes of an entry are those of the contents before and after.
pub data IsHashed (host : Host) (p q : Option Node)
    : JournalKind → Option Text → Option Text → Type 0 where
  adds :
      (c h : Text)
      → p ≡ none
      → q ≡ some (Node.regular c)
      → hash_node host q ≡ some h
      → IsHashed host p q JournalKind.add none (some h)
  modifies :
      (c c' h h' : Text)
      → p ≡ some (Node.regular c)
      → q ≡ some (Node.regular c')
      → hash_node host p ≡ some h
      → hash_node host q ≡ some h'
      → IsHashed host p q JournalKind.modify (some h) (some h')
  deletes :
      (c h : Text)
      → p ≡ some (Node.regular c)
      → q ≡ none
      → hash_node host p ≡ some h
      → IsHashed host p q JournalKind.delete (some h) none

-- Three different paths.
pub record AreApart (t n b : Text) : Type 0 where
  pub tn : text_eq t n ≡ false
  pub nt : text_eq n t ≡ false
  pub tb : text_eq t b ≡ false
  pub bt : text_eq b t ≡ false
  pub nb : text_eq n b ≡ false
  pub bn : text_eq b n ≡ false

-- A rollback keeps an entry recoverable, and where it succeeds, all is as before.
abbrev pub RollsBack :
    Option Node → Option Node → Text → Text → Result ApplyError (Unit {0}) × World → Type 0
RollsBack p q t b (ok u, w) = (w.files t ≡ p) × (w.files b ≡ none)
RollsBack p q t b (err e, w) = IsRecoverable p q (w.files t) (w.files b)

-- A publication leaves an entry recoverable, and where it succeeds, the target is as after.
abbrev pub Publishes :
    Option Node → Option Node → Text → Text → Result ApplyError (Unit {0}) × World → Type 0
Publishes p q t b (ok u, w) = (w.files t ≡ q) × (w.files b ≡ p)
Publishes p q t b (err e, w) = IsRecoverable p q (w.files t) (w.files b)

abbrev pub quieten : World → World
quieten w = record w { faults = quiet }

module _ (host : Host) (p q : Option Node) (t n b : Text) (apart : AreApart t n b) where
  -- `rollback_entry` with the entry's fields and paths taken apart.
  abbrev pub rollback : JournalKind → Option Text → M (Unit {0})
  rollback kind post = do
    move_out kind (check (λ w. verify_post_kind host kind post (w.files t))) t b
    sync_directory ApplyError.recovery_required

  pub rollback-RollsBack :
      (kind : JournalKind) (pre post : Option Text) (w : World)
      → IsHashed host p q kind pre post
      → IsRecoverable p q (w.files t) (w.files b)
      → RollsBack p q t b (rollback kind post w)
  unfolding move_out rename remove_file sync_directory call put
  rollback-RollsBack kind pre post w (IsHashed.adds c h x y z) (IsRecoverable.intact u v) =
      ground (arith, text_eq_refl t, text_eq_refl b, text_eq_refl h)
  rollback-RollsBack kind pre post w (IsHashed.adds c h x y z) (IsRecoverable.moved u v) =
      ground (arith, text_eq_refl t, text_eq_refl b, text_eq_refl h)
  rollback-RollsBack kind pre post w (IsHashed.adds c h x y z) (IsRecoverable.swapped u v) =
      ground (arith, text_eq_refl t, text_eq_refl b, text_eq_refl h)
  rollback-RollsBack kind pre post w (IsHashed.modifies c c' h h' x y z z')
        (IsRecoverable.intact u v) =
      ground (arith, text_eq_refl t, text_eq_refl b, text_eq_refl h')
  rollback-RollsBack kind pre post w (IsHashed.modifies c c' h h' x y z z')
        (IsRecoverable.moved u v) =
      ground (arith, text_eq_refl t, text_eq_refl b, text_eq_refl h')
  rollback-RollsBack kind pre post w (IsHashed.modifies c c' h h' x y z z')
        (IsRecoverable.swapped u v) =
      ground (arith, text_eq_refl t, text_eq_refl b, text_eq_refl h')
  rollback-RollsBack kind pre post w (IsHashed.deletes c h x y z) (IsRecoverable.intact u v) =
      ground (arith, text_eq_refl t, text_eq_refl b)
  rollback-RollsBack kind pre post w (IsHashed.deletes c h x y z) (IsRecoverable.moved u v) =
      ground (arith, text_eq_refl t, text_eq_refl b)
  rollback-RollsBack kind pre post w (IsHashed.deletes c h x y z) (IsRecoverable.swapped u v) =
      ground (arith, text_eq_refl t, text_eq_refl b)

  -- `publish_entry` with the entry's fields and paths taken apart.
  abbrev pub publish : JournalKind → Option Text → M (Unit {0})
  publish kind pre = do
    check (λ w. verify_pre_kind host kind pre (w.files t))
    move_in kind t n b
    sync_directory ApplyError.state

  pub publish-Publishes :
      (kind : JournalKind) (pre post : Option Text) (w : World)
      → IsHashed host p q kind pre post
      → w.files t ≡ p
      → w.files b ≡ none
      → (kind ≢ JournalKind.delete → w.files n ≡ q)
      → Publishes p q t b (publish kind pre w)
  unfolding move_in rename sync_directory call put
  publish-Publishes kind pre post w (IsHashed.adds c h x y z) u v s =
      ground (arith, text_eq_refl t, text_eq_refl b, text_eq_refl n, text_eq_refl h, s (λ e. cc))
  publish-Publishes kind pre post w (IsHashed.modifies c c' h h' x y z z') u v s =
      ground (arith, text_eq_refl t, text_eq_refl b, text_eq_refl n, text_eq_refl h', s (λ e. cc))
  publish-Publishes kind pre post w (IsHashed.deletes c h x y z) u v s =
      ground (arith, text_eq_refl t, text_eq_refl b, text_eq_refl n, text_eq_refl h)

  -- Without faults a publication succeeds.
  pub publish_quiet :
      (kind : JournalKind) (pre post : Option Text) (w : World)
      → IsHashed host p q kind pre post
      → w.files t ≡ p
      → w.files b ≡ none
      → (kind ≢ JournalKind.delete → w.files n ≡ q)
      → (publish kind pre (quieten w)).0 ≡ ok tt
  unfolding move_in rename sync_directory call put
  publish_quiet kind pre post w (IsHashed.adds c h x y z) u v s =
      ground (arith, text_eq_refl t, text_eq_refl b, text_eq_refl n, text_eq_refl h, s (λ e. cc))
  publish_quiet kind pre post w (IsHashed.modifies c c' h h' x y z z') u v s = ground (
    arith,
    text_eq_refl t,
    text_eq_refl b,
    text_eq_refl n,
    text_eq_refl h,
    apart.nt,
    apart.nb,
    s (λ e. cc),
  )
  publish_quiet kind pre post w (IsHashed.deletes c h x y z) u v s =
      ground (arith, text_eq_refl t, text_eq_refl b, text_eq_refl n, text_eq_refl h)

  -- Without faults a rollback succeeds.
  pub rollback_quiet :
      (kind : JournalKind) (pre post : Option Text) (w : World)
      → IsHashed host p q kind pre post
      → IsRecoverable p q (w.files t) (w.files b)
      → (rollback kind post (quieten w)).0 ≡ ok tt
  unfolding move_out rename remove_file sync_directory call put
  rollback_quiet kind pre post w (IsHashed.adds c h x y z) (IsRecoverable.intact u v) =
      ground (arith, text_eq_refl t, text_eq_refl b, text_eq_refl h)
  rollback_quiet kind pre post w (IsHashed.adds c h x y z) (IsRecoverable.moved u v) =
      ground (arith, text_eq_refl t, text_eq_refl b, text_eq_refl h)
  rollback_quiet kind pre post w (IsHashed.adds c h x y z) (IsRecoverable.swapped u v) =
      ground (arith, text_eq_refl t, text_eq_refl b, text_eq_refl h)
  rollback_quiet kind pre post w (IsHashed.modifies c c' h h' x y z z') (IsRecoverable.intact u v) =
      ground (arith, text_eq_refl t, text_eq_refl b, text_eq_refl h')
  rollback_quiet kind pre post w (IsHashed.modifies c c' h h' x y z z') (IsRecoverable.moved u v) =
      ground (arith, text_eq_refl t, text_eq_refl b, text_eq_refl h')
  rollback_quiet kind pre post w (IsHashed.modifies c c' h h' x y z z')
        (IsRecoverable.swapped u v) =
      ground (arith, text_eq_refl t, text_eq_refl b, text_eq_refl h')
  rollback_quiet kind pre post w (IsHashed.deletes c h x y z) (IsRecoverable.intact u v) =
      ground (arith, text_eq_refl t, text_eq_refl b)
  rollback_quiet kind pre post w (IsHashed.deletes c h x y z) (IsRecoverable.moved u v) =
      ground (arith, text_eq_refl t, text_eq_refl b)
  rollback_quiet kind pre post w (IsHashed.deletes c h x y z) (IsRecoverable.swapped u v) =
      ground (arith, text_eq_refl t, text_eq_refl b)
