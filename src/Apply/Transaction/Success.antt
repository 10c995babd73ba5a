-- ===== src/Apply/Transaction/Success.antt =====
-- The calm worlds, in which no fault is to come, and the journal writes in them.
pub mod Parts
pub mod Run
use mathlib.Core.Option.{some-injective}
use omarchy_premonition.Apply.Publication.{hash_node}
use omarchy_premonition.Base.{
  ℕ, Bool, true, false, List, [], ◌≢◌, Option, none, some, ◌≡◌, refl, ap, ◌∙◌, subst, arith, ltb,
  Text, length, All, ok,
}
use omarchy_premonition.Limits.{max_result_file_bytes}
use omarchy_premonition.Core.Error.{ApplyError}
use omarchy_premonition.Apply.Transaction.Leftovers.{write_journal-PlainAt}
use omarchy_premonition.Apply.Journal.{JournalKind, JournalEntry, Journal}
use omarchy_premonition.Apply.Transaction.Cleanup.{IsRemovable}
use omarchy_premonition.Apply.Transaction.Copies.{node_of, IsOffered}
use omarchy_premonition.Apply.Publication.Entry.{IsHashed}
use omarchy_premonition.Apply.Publication.{temporary_of, target_of, backup_of, Host}
use omarchy_premonition.Apply.Transaction.Invariant.{IsEntry, All-map}
use omarchy_premonition.Base.{
  ℕ, Bool, true, false, List, [], ◌≢◌, Option, none, some, ◌≡◌, refl, ap, ◌∙◌, subst, arith, ltb,
  Text, length, All, ok,
}
use omarchy_premonition.Apply.World.{Node, Files, World, M, done, call, sync_directory}
use omarchy_premonition.Apply.World.Keeps.{
  quiet, Keeps, StaysQuiet, StaysQuiet-IsFrame, PlainAt, bind-Keeps, check-Keeps,
  sync_directory-Keeps,
}
use omarchy_premonition.Apply.Transaction.{
  copy_contents, fits_journal, write_journal, copy_staged, copy_entry, set_journal,
}

-- No fault is to come, and the cleanup meets no special file.
pub record IsCalm (root : Text) (es : List JournalEntry) (w : World) : Type 0 where
  pub no_faults : w.faults ≡ quiet
  pub removable : All (IsRemovable root w.files) es

pub record KeepsCalm (m : M (Unit {0})) : Type 0 where
  pub faultless : Keeps StaysQuiet m
  pub plain : (x : Text) → Keeps (PlainAt x) m

pub KeepsCalm-IsCalm :
    (root : Text) (es : List JournalEntry) (m : M (Unit {0})) (w : World)
    → KeepsCalm m
    → IsCalm root es w
    → IsCalm root es (m w).1
KeepsCalm-IsCalm root es m w k h = record {
  no_faults = k.faultless.at w h.no_faults;
  removable =
      All-map es
        (λ e p. ((k.plain (temporary_of root e)).at w p.0, (k.plain (backup_of root e)).at w p.1))
        h.removable;
}

fault_free : (w : World) → w.faults ≡ quiet → (n : ℕ) → w.faults n ≡ false
fault_free w q n = ap (λ (f : ℕ → Bool). f n) q

pub write_journal_ok :
    (host : Host) (journal : Journal) (w : World)
    → w.faults ≡ quiet
    → fits_journal (host.encoded_len journal) ≡ true
    → (write_journal host journal w).0 ≡ ok tt
unfolding write_journal sync_directory call
write_journal_ok host journal w q f = rw (f, fault_free w q 0, fault_free w q 1) refl

write_journal-StaysQuiet :
    (host : Host) (journal : Journal) → Keeps StaysQuiet (write_journal host journal)
unfolding write_journal
write_journal-StaysQuiet host journal =
    let frame = StaysQuiet-IsFrame in
    let set : Keeps StaysQuiet (set_journal journal) = record { at = λ w q. q } in
    bind-Keeps frame _ _ (check-Keeps frame _) λ u.
      bind-Keeps frame _ _ (sync_directory-Keeps frame ApplyError.state)
        λ u. bind-Keeps frame _ _ set λ u. sync_directory-Keeps frame ApplyError.state

pub write_journal-KeepsCalm :
    (host : Host) (journal : Journal) → KeepsCalm (write_journal host journal)
write_journal-KeepsCalm host journal = record {
  faultless = write_journal-StaysQuiet host journal;
  plain = write_journal-PlainAt host journal;
}

copy_contents_ok :
    (path : Text) (contents : Option Text) (c : Text) (w : World)
    → w.faults ≡ quiet
    → contents ≡ some c
    → w.files path ≡ none
    → ltb max_result_file_bytes (length c) ≡ false
    → (copy_contents path contents w).0 ≡ ok tt
unfolding copy_contents sync_directory call
copy_contents_ok path none c w q h n b = cc
copy_contents_ok path (some d) c w q h n b =
    rw (fault_free w q 0, n, some-injective d c h, b, fault_free w q 1, fault_free w q 2) refl

abbrev contents_of : Option Node → Text
contents_of (some (Node.regular contents)) = contents
contents_of _ = []

node_of-some :
    (contents : Option Text) (c : Text)
    → node_of contents ≡ some (Node.regular c)
    → contents ≡ some c
node_of-some none c h = cc
node_of-some (some d) c h = ap (λ (found : Option Node). some (contents_of found)) h

-- What has a hash is within the bound of a copy.
hash_node_fits :
    (host : Host) (found : Option Node) (c h : Text)
    → found ≡ some (Node.regular c)
    → hash_node host found ≡ some h
    → ltb max_result_file_bytes (length c) ≡ false
unfolding hash_node
hash_node_fits host (some (Node.regular d)) c h f k =
    let small : ltb max_result_file_bytes (length d) ≡ false = ground arith in
    subst (λ (x : Text). ltb max_result_file_bytes (length x) ≡ false) (ap contents_of f) small
hash_node_fits host none c h f k = cc
hash_node_fits host (some Node.other) c h f k = cc

module _ (host : Host) (root : Text) (pre post : Files) where
  -- The temporary path is free, and the stage has what goes there.
  pub copy_entry_ok :
      (e : JournalEntry) (w : World)
      → IsEntry root pre post host e
      → IsOffered root post w.stage e
      → w.files (temporary_of root e) ≡ none
      → w.faults ≡ quiet
      → (copy_entry root e w).0 ≡ ok tt
  unfolding copy_entry copy_staged
  copy_entry_ok e w v o n q = by_kind e.kind e.pre_hash e.post_hash v.hashed o
    where
      by_kind :
          (kind : JournalKind) (before after : Option Text)
          → IsHashed host (pre (target_of root e)) (post (target_of root e)) kind before after
          → (kind ≢ JournalKind.delete → node_of (w.stage e.relative) ≡ post (target_of root e))
          → (let m : M (Unit {0}) = elim kind [
            | JournalKind.delete ↦ done
            | _ ↦ copy_staged root e
          ] in
              (m w).0 ≡ ok tt)
      by_kind JournalKind.add before after (IsHashed.adds c h x y z) k =
          copy_contents_ok _ (w.stage e.relative) c w q
            (node_of-some (w.stage e.relative) c (k (λ i. cc) ∙ y)) n
            (hash_node_fits host _ c _ y z)
      by_kind JournalKind.modify before after (IsHashed.modifies c c' h h' x y z z') k =
          copy_contents_ok _ (w.stage e.relative) c' w q
            (node_of-some (w.stage e.relative) c' (k (λ i. cc) ∙ y)) n
            (hash_node_fits host _ c' _ y z')
      by_kind JournalKind.delete before after v k = refl
