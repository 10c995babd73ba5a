-- ===== src/Apply/World/Keeps.antt =====
-- What holds between the worlds before and after an operation, by its parts.
use omarchy_premonition.Core.Error.{ApplyError}
use mathlib.Core.Option.{some-injective}
use omarchy_premonition.Base.{
  ℕ, suc, Bool, false, inl, inr, Option, none, some, ◌≡◌, refl, ap, ◌∙◌, subst, Bool-cases,
  Option-cases, Text, Result, ok, err,
}
use omarchy_premonition.Apply.World.{
  ◌>>=◌, M, Node, Files, is_some, put, World, resume, done, fail, tick, call, renamed, rename,
  removed, remove_file, sync_directory, when_exists, check, handled, or_else,
}

-- A relation between worlds that holds of a sequence if it holds of its parts, and of a call that
-- fails.
pub record IsFrame (R : World → World → Type 0) : Type 0 where
  pub same : (w : World) → R w w
  pub chain : (u v w : World) → R u v → R v w → R u w
  pub fault : (w : World) → R w (tick w)

pub record Keeps {A : Type 0} (R : World → World → Type 0) (m : M A) : Type 0 where
  pub at : (w : World) → R w (m w).1

module _ {R : World → World → Type 0} (frame : IsFrame R) where
  resume-R :
      {A B : Type 0} (f : A → M B) (w : World) (r : Result ApplyError A × World)
      → ((a : A) → Keeps R (f a))
      → R w r.1
      → R w (resume f r).1
  resume-R f w (ok a, v) k h = frame.chain w v (f a v).1 h ((k a).at v)
  resume-R f w (err e, v) k h = h

  pub bind-Keeps :
      {A B : Type 0} (m : M A) (f : A → M B)
      → Keeps R m
      → ((a : A) → Keeps R (f a))
      → Keeps R (m >>= f)
  bind-Keeps m f k l = record { at = λ w. resume-R f w (m w) l (k.at w) }

  handled-R :
      (handler : M (Unit {0})) (w : World) (r : Result ApplyError (Unit {0}) × World)
      → Keeps R handler
      → R w r.1
      → R w (handled handler r).1
  handled-R handler w (ok u, v) k h = h
  handled-R handler w (err e, v) k h = frame.chain w v (handler v).1 h (k.at v)

  pub or_else-Keeps :
      (m handler : M (Unit {0})) → Keeps R m → Keeps R handler → Keeps R (or_else m handler)
  or_else-Keeps m handler k l = record { at = λ w. handled-R handler w (m w) l (k.at w) }

  pub check-Keeps : (test : World → Result ApplyError (Unit {0})) → Keeps R (check test)
  check-Keeps test = record { at = λ w. frame.same w }

  pub fail-Keeps : (e : ApplyError) → Keeps R (fail {A = Unit {0}} e)
  fail-Keeps e = record { at = λ w. frame.same w }

  pub done-Keeps : Keeps R done
  done-Keeps = record { at = λ w. frame.same w }

  pub when_exists-Keeps :
      (path : Text) (m : M (Unit {0})) → Keeps R m → Keeps R (when_exists path m)
  when_exists-Keeps path m k = record {
    at = λ w. elim (Bool-cases (is_some (w.files path))) [
      | inl here ↦ rw here (k.at w)
      | inr gone ↦ rw gone (frame.same w)
    ];
  }

  pub call-Keeps :
      (e : ApplyError) (act : Files → Option Files)
      → ((w : World) (files : Files)
          → act w.files ≡ some files
          → R w (record (tick w) { files = files }))
      → Keeps R (call e act)
  unfolding call
  call-Keeps e act k = record {
    at = λ w. elim (Bool-cases (w.faults 0)) [
      | inl broken ↦ rw broken (frame.fault w)
      | inr works ↦ elim (Option-cases (act w.files)) [
        | inl f ↦ rw (works, f) (frame.fault w)
        | inr (files, f) ↦ rw (works, f) (k w files f)
      ]
    ];
  }

-- All but the files and the faults to come is as before.
pub record SameRest (w w' : World) : Type 0 where
  pub journal_kept : w'.journal ≡ w.journal
  pub transaction_kept : w'.transaction ≡ w.transaction
  pub stage_kept : w'.stage ≡ w.stage

pub SameRest-files : (w : World) (files : Files) → SameRest w (record (tick w) { files = files })
SameRest-files w files = record { journal_kept = refl; transaction_kept = refl; stage_kept = refl }

pub SameRest-IsFrame : IsFrame SameRest
SameRest-IsFrame = record {
  same = λ w. record { journal_kept = refl; transaction_kept = refl; stage_kept = refl };
  chain = λ u v w h k. record {
    journal_kept = k.journal_kept ∙ h.journal_kept;
    transaction_kept = k.transaction_kept ∙ h.transaction_kept;
    stage_kept = k.stage_kept ∙ h.stage_kept;
  };
  fault = λ w. record { journal_kept = refl; transaction_kept = refl; stage_kept = refl };
}

-- No fault is to come.
abbrev pub quiet : ℕ → Bool
quiet n = false

abbrev pub StaysQuiet : World → World → Type 0
StaysQuiet w w' = w.faults ≡ quiet → w'.faults ≡ quiet

pub StaysQuiet-IsFrame : IsFrame StaysQuiet
StaysQuiet-IsFrame = record {
  same = λ w h. h;
  chain = λ u v w h k q. k (h q);
  fault = λ w q. ap (λ (f : ℕ → Bool). λ n. f (suc n)) q;
}

-- The file at `x` is as before.
abbrev pub SameAt : Text → World → World → Type 0
SameAt x w w' = w'.files x ≡ w.files x

pub SameAt-IsFrame : (x : Text) → IsFrame (SameAt x)
SameAt-IsFrame x = record { same = λ w. refl; chain = λ u v w h k. k ∙ h; fault = λ w. refl }

-- For the calls on files: a relation that holds whatever is written at the given paths.
module _ {R : World → World → Type 0} (frame : IsFrame R) where
  pub rename-Keeps :
      (e : ApplyError) (source target : Text)
      → ((w : World) (c : Text)
          → R w (record (tick w) {
            files = put (put w.files source none) target (some (Node.regular c));
          }))
      → Keeps R (rename e source target)
  unfolding rename
  rename-Keeps e source target k =
      call-Keeps frame e _ λ w files h. renamed-R w files (w.files source) (w.files target) h
    where
      renamed-R :
          (w : World) (files : Files) (a b : Option Node)
          → renamed source target w.files a b ≡ some files
          → R w (record (tick w) { files = files })
      renamed-R w files (some (Node.regular c)) (some Node.other) h = cc
      renamed-R w files (some (Node.regular c)) none h =
          subst (λ (fs : Files). R w (record (tick w) { files = fs })) (some-injective _ _ h)
            (k w c)
      renamed-R w files (some (Node.regular c)) (some (Node.regular d)) h =
          subst (λ (fs : Files). R w (record (tick w) { files = fs })) (some-injective _ _ h)
            (k w c)
      renamed-R w files none b h = cc
      renamed-R w files (some Node.other) b h = cc

  pub remove_file-Keeps :
      (e : ApplyError) (path : Text)
      → ((w : World) → R w (record (tick w) { files = put w.files path none }))
      → Keeps R (remove_file e path)
  unfolding remove_file
  remove_file-Keeps e path k = call-Keeps frame e _ λ w files h. removed-R w files (w.files path) h
    where
      removed-R :
          (w : World) (files : Files) (a : Option Node)
          → removed path w.files a ≡ some files
          → R w (record (tick w) { files = files })
      removed-R w files (some (Node.regular c)) h =
          subst (λ (fs : Files). R w (record (tick w) { files = fs })) (some-injective _ _ h) (k w)
      removed-R w files none h = cc
      removed-R w files (some Node.other) h = cc

  pub sync_directory-Keeps : (e : ApplyError) → Keeps R (sync_directory e)
  unfolding sync_directory
  sync_directory-Keeps e =
      call-Keeps frame e (λ fs. some fs)
        λ w files h.
          subst (λ (fs : Files). R w (record (tick w) { files = fs })) (some-injective _ _ h)
            (frame.fault w)

pub resume-ok :
    (f : Unit {0} → M (Unit {0})) (r : Result ApplyError (Unit {0}) × World)
    → r.0 ≡ ok tt
    → (f tt r.1).0 ≡ ok tt
    → (resume f r).0 ≡ ok tt
resume-ok f (ok u, w) h k = k
resume-ok f (err e, w) h k = cc

-- What is missing at `x` stays missing.
abbrev pub MissingAt : Text → World → World → Type 0
MissingAt x w w' = w.files x ≡ none → w'.files x ≡ none

pub MissingAt-IsFrame : (x : Text) → IsFrame (MissingAt x)
MissingAt-IsFrame x = record { same = λ w h. h; chain = λ u v w h k m. k (h m); fault = λ w m. m }

-- Nothing special stands there.
abbrev pub IsPlain : Option Node → Type 0
IsPlain (some Node.other) = ⊥
IsPlain _ = Unit

abbrev pub PlainAt : Text → World → World → Type 0
PlainAt x w w' = IsPlain (w.files x) → IsPlain (w'.files x)

pub PlainAt-IsFrame : (x : Text) → IsFrame (PlainAt x)
PlainAt-IsFrame x = record { same = λ w h. h; chain = λ u v w h k m. k (h m); fault = λ w m. m }
