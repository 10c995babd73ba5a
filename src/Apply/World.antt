-- ===== src/Apply/World.antt =====
-- The file system under a transaction: what its system calls do, and that any of them may fail.
pub mod Keeps
use omarchy_premonition.Base.{
  ℕ, suc, Bool, true, false, Option, none, some, if◌then◌else◌, Text, text_eq, Result, ok, err,
}
use omarchy_premonition.Core.Error.{ApplyError}
use omarchy_premonition.Apply.Journal.{Journal}

pub data Node : Type 0 where
  regular : Text → Node
  other : Node

abbrev pub Files : Type 0
Files = Text → Option Node

abbrev pub is_some {ℓ} : {A : Type ℓ} → Option A → Bool
is_some none = false
is_some (some a) = true

-- `files` with `node` at `path`.
unfoldable pub put : Files → Text → Option Node → Files
put files path node x = if text_eq x path then node else files x

-- The files, the journal and the directory of the transaction, the staged results by relative path,
-- and the faults to come: the calls that change something fail where this says so. A machine that
-- stops is one for which all later calls fail.
pub record World : Type 0 where
  pub files : Files
  pub journal : Option Journal
  pub transaction : Bool
  pub stage : Text → Option Text
  pub faults : ℕ → Bool

-- An operation leaves a world also where it fails.
abbrev pub M : Type 0 → Type 0
M A = World → Result ApplyError A × World

abbrev pub resume :
    {A B : Type 0} → (A → M B) → Result ApplyError A × World → Result ApplyError B × World
resume f (ok a, w) = f a w
resume f (err e, w) = (err e, w)

infixr 5 ◌>>=◌ ◌>>◌
abbrev pub ◌>>=◌ : {A B : Type 0} → M A → (A → M B) → M B
◌>>=◌ m f w = resume f (m w)

abbrev pub ◌>>◌ : {B : Type 0} → M (Unit {0}) → M B → M B
m >> k = m >>= λ _. k

abbrev pub done : M (Unit {0})
done w = (ok tt, w)

abbrev pub fail : {A : Type 0} → ApplyError → M A
fail e w = (err e, w)

abbrev pub tick : World → World
tick w = record w { faults = λ n. w.faults (suc n) }

-- A system call that changes the files, or fails.
unfoldable pub call : ApplyError → (Files → Option Files) → M (Unit {0})
call e act w = if w.faults 0 then (err e, tick w) else elim (act w.files) [
  | none ↦ (err e, tick w)
  | some files ↦ (ok tt, record (tick w) { files = files })
]

-- What `fs::rename` does with a regular file. A rename of anything else, or onto anything else, is an
-- error here.
abbrev pub renamed : Text → Text → Files → Option Node → Option Node → Option Files
renamed source target files (some (Node.regular contents)) (some Node.other) = none
renamed source target files (some (Node.regular contents)) _ =
    some (put (put files source none) target (some (Node.regular contents)))
renamed source target files _ _ = none

unfoldable pub rename : ApplyError → Text → Text → M (Unit {0})
unfolding call
rename e source target = call e (λ files. renamed source target files (files source) (files target))

abbrev pub removed : Text → Files → Option Node → Option Files
removed path files (some (Node.regular contents)) = some (put files path none)
removed path files _ = none

-- `fs::remove_file`.
unfoldable pub remove_file : ApplyError → Text → M (Unit {0})
unfolding call
remove_file e path = call e (λ files. removed path files (files path))

-- A call that changes no file here and may fail, such as `sync_directory`.
unfoldable pub sync_directory : ApplyError → M (Unit {0})
unfolding call
sync_directory e = call e (λ files. some files)

-- `if path.exists() { .. }`: what is there is read as it is.
abbrev pub when_exists : Text → M (Unit {0}) → M (Unit {0})
when_exists path m w = if is_some (w.files path) then m w else (ok tt, w)

-- A check that only reads.
abbrev pub check : (World → Result ApplyError (Unit {0})) → M (Unit {0})
check test w = (test w, w)

abbrev pub handled :
    M (Unit {0}) → Result ApplyError (Unit {0}) × World → Result ApplyError (Unit {0}) × World
handled handler (ok u, w) = (ok u, w)
handled handler (err e, w) = handler w

-- `if m.is_err() { handler }`.
abbrev pub or_else : M (Unit {0}) → M (Unit {0}) → M (Unit {0})
or_else m handler w = handled handler (m w)
