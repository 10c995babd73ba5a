-- ===== src/Apply/Transaction/Invariant.antt =====
-- What the files look like in each phase of a transaction, with `pre` and `post` for what stands at
-- the targets before and after.
use omarchy_premonition.Base.{false, List, [], ◌∷◌, ◌≢◌, none, ◌≡◌, ◌∙◌, Text, text_eq, All}
use omarchy_premonition.Apply.World.{Files}
use omarchy_premonition.Apply.Publication.{Host, target_of, temporary_of, backup_of}
use omarchy_premonition.Apply.Publication.Entry.{AreApart, IsHashed, IsRecoverable}
use omarchy_premonition.Apply.Journal.{JournalEntry, JournalKind}

module _ (root : Text) where
  -- A path is none of the three of an entry.
  pub record IsOutside (e : JournalEntry) (x : Text) : Type 0 where
    pub not_target : text_eq x (target_of root e) ≡ false
    pub not_temporary : text_eq x (temporary_of root e) ≡ false
    pub not_backup : text_eq x (backup_of root e) ≡ false

  -- No path of the second entry is one of the first.
  pub record IsForeign (e e' : JournalEntry) : Type 0 where
    pub target_outside : IsOutside e (target_of root e')
    pub temporary_outside : IsOutside e (temporary_of root e')
    pub backup_outside : IsOutside e (backup_of root e')

  -- No path belongs to two entries.
  abbrev pub ArePairwiseForeign : List JournalEntry → Type 0
  ArePairwiseForeign [] = Unit
  ArePairwiseForeign (e ∷ es) =
      All (λ e'. IsForeign e e' × IsForeign e' e) es × ArePairwiseForeign es

  -- The same file stands at the three paths of an entry.
  pub record Agrees (f f' : Files) (e : JournalEntry) : Type 0 where
    pub at_target : f' (target_of root e) ≡ f (target_of root e)
    pub at_temporary : f' (temporary_of root e) ≡ f (temporary_of root e)
    pub at_backup : f' (backup_of root e) ≡ f (backup_of root e)

  module _ (pre post : Files) where
    pub record IsEntry (host : Host) (e : JournalEntry) : Type 0 where
      pub hashed :
          IsHashed host
            (pre (target_of root e))
            (post (target_of root e))
            e.kind
            e.pre_hash
            e.post_hash
      pub apart : AreApart (target_of root e) (temporary_of root e) (backup_of root e)

    pub record IsIntact (f : Files) (e : JournalEntry) : Type 0 where
      pub target_before : f (target_of root e) ≡ pre (target_of root e)
      pub no_backup : f (backup_of root e) ≡ none

    abbrev pub IsHalfway : Files → JournalEntry → Type 0
    IsHalfway f e =
        IsRecoverable (pre (target_of root e)) (post (target_of root e)) (f (target_of root e))
          (f (backup_of root e))

    pub record IsStaged (f : Files) (e : JournalEntry) : Type 0 where
      pub intact : IsIntact f e
      pub temporary_after :
          e.kind ≢ JournalKind.delete → f (temporary_of root e) ≡ post (target_of root e)

    pub record IsPosted (f : Files) (e : JournalEntry) : Type 0 where
      pub target_after : f (target_of root e) ≡ post (target_of root e)
      pub backup_before : f (backup_of root e) ≡ pre (target_of root e)

    pub IsIntact-IsHalfway : (f : Files) (e : JournalEntry) → IsIntact f e → IsHalfway f e
    IsIntact-IsHalfway f e v = IsRecoverable.intact v.target_before v.no_backup

    pub IsPosted-IsHalfway : (f : Files) (e : JournalEntry) → IsPosted f e → IsHalfway f e
    IsPosted-IsHalfway f e v = IsRecoverable.swapped v.backup_before v.target_after

    pub Agrees-IsHalfway :
        (f f' : Files) (e : JournalEntry) → Agrees f f' e → IsHalfway f e → IsHalfway f' e
    Agrees-IsHalfway f f' e a v = rw (a.at_target, a.at_backup) v

    pub Agrees-IsIntact :
        (f f' : Files) (e : JournalEntry) → Agrees f f' e → IsIntact f e → IsIntact f' e
    Agrees-IsIntact f f' e a v = record {
      target_before = a.at_target ∙ v.target_before;
      no_backup = a.at_backup ∙ v.no_backup;
    }

    pub Agrees-IsStaged :
        (f f' : Files) (e : JournalEntry) → Agrees f f' e → IsStaged f e → IsStaged f' e
    Agrees-IsStaged f f' e a v = record {
      intact = Agrees-IsIntact f f' e a v.intact;
      temporary_after = λ k. a.at_temporary ∙ v.temporary_after k;
    }

    pub Agrees-IsPosted :
        (f f' : Files) (e : JournalEntry) → Agrees f f' e → IsPosted f e → IsPosted f' e
    Agrees-IsPosted f f' e a v = record {
      target_after = a.at_target ∙ v.target_after;
      backup_before = a.at_backup ∙ v.backup_before;
    }

-- A property that holds of all entries of one state of files holds of all of another.
pub All-map {ℓ κ} :
    {A : Type 0} {P : A → Type ℓ} {Q : A → Type κ} (xs : List A)
    → ((x : A) → P x → Q x)
    → All P xs
    → All Q xs
All-map [] f h = tt
All-map (x ∷ xs) f h = (f x h.0, All-map xs f h.1)

pub All-zip {ℓ κ ι} :
    {A : Type 0} {P : A → Type ℓ} {Q : A → Type κ} {R : A → Type ι} (xs : List A)
    → ((x : A) → P x → Q x → R x)
    → All P xs
    → All Q xs
    → All R xs
All-zip [] f h k = tt
All-zip (x ∷ xs) f h k = (f x h.0 k.0, All-zip xs f h.1 k.1)

pub All-of {ℓ} : {A : Type 0} {P : A → Type ℓ} → ((x : A) → P x) → (xs : List A) → All P xs
All-of f [] = tt
All-of f (x ∷ xs) = (f x, All-of f xs)
