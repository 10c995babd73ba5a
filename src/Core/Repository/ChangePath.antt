-- ===== src/Core/Repository/ChangePath.antt =====
-- Which paths of a patch are accepted.
use omarchy_premonition.Core.Error.{RepositoryError}
use mathlib.Core.Option.{some-injective}
use omarchy_premonition.Limits.{max_result_file_bytes}
use omarchy_premonition.Core.Model.{ResolvedRepository}
use omarchy_premonition.Diff.Parse.{FileChange, ChangeKind}
use omarchy_premonition.Base.{
  ◌%◌, ◌≤◌, true, false, List, [], ◌∷◌, ◌≢◌, ◌↔◌, Option, none, some, ◌≡◌, refl, sym, subst, arith,
  ==_iff, not_ltb→le, ||-eq-false, not-eq-false, Text, text, Component, components, is_empty, All,
  ◌>>◌, reject, bind-eq-ok, reject-eq-ok, passed, ok,
}
use omarchy_premonition.Apply.Publication.{join}
use omarchy_premonition.Core.System.{
  is_file, is_directory, is_found, FileKind, FileMetadata, Lookup, System,
}
use omarchy_premonition.Core.Repository.{
  revalidate_identity, check_directory, check_step, check_directories, check_target,
  validate_change_path, is_add,
}

-- The directories on the way to the last component, if all of these components are normal.
unfoldable pub ancestors : Text → List Component → Option (List Text)
unfolding join
ancestors current [] = some []
ancestors current (last ∷ []) = some []
ancestors current (Component.special ∷ next ∷ rest) = none
ancestors current (Component.normal name ∷ next ∷ rest) =
    elim (ancestors (join current name) (next ∷ rest)) [
      | none ↦ none
      | some paths ↦ some (join current name ∷ paths)
    ]

-- A directory that is no link and holds no repository.
pub record IsPlainDirectory (sys : System) (path : Text) : Type 0 where
  pub at : FileMetadata
  pub here : sys.symlink_metadata path ≡ Lookup.found at
  pub directory : at.kind ≡ FileKind.directory
  pub no_repository : is_found (sys.symlink_metadata (join path (text ".git"))) ≡ false

-- An addition finds nothing; another change finds a regular file of mode 644, with one link and within
-- the bound.
pub data IsFit : ChangeKind → Lookup → Type 0 where
  fresh : IsFit ChangeKind.add Lookup.missing
  present :
      {kind : ChangeKind} (at : FileMetadata)
      → kind ≢ ChangeKind.add
      → at.kind ≡ FileKind.file
      → at.mode % 512 ≡ 420
      → at.nlink ≤ 1
      → at.len ≤ max_result_file_bytes
      → IsFit kind (Lookup.found at)

pub record IsAccepted (sys : System) (repository : ResolvedRepository) (change : FileChange)
    : Type 0 where
  pub same_identity : revalidate_identity sys repository ≡ ok tt
  pub named : is_empty (components change.path.as_str) ≡ false
  pub way :
      (paths : List Text) × (ancestors repository.root (components change.path.as_str) ≡ some paths)
      × All (IsPlainDirectory sys) paths
  pub fit : IsFit change.kind (sys.symlink_metadata (join repository.root change.path.as_str))

pub is_directory-eq : (kind : FileKind) → is_directory kind ≡ true → kind ≡ FileKind.directory
is_directory-eq FileKind.directory h = refl
is_directory-eq FileKind.file h = cc
is_directory-eq FileKind.symlink h = cc
is_directory-eq FileKind.other h = cc

pub is_file-eq : (kind : FileKind) → is_file kind ≡ true → kind ≡ FileKind.file
is_file-eq FileKind.file h = refl
is_file-eq FileKind.directory h = cc
is_file-eq FileKind.symlink h = cc
is_file-eq FileKind.other h = cc

check_step-eq-ok :
    (l : Lookup)
    → check_step l ≡ ok tt
    → (at : FileMetadata) × (l ≡ Lookup.found at) × (at.kind ≡ FileKind.directory)
check_step-eq-ok (Lookup.found at) h = (at, refl, is_directory-eq at.kind (passed _ _ h))
check_step-eq-ok Lookup.missing h = cc
check_step-eq-ok Lookup.failed h = cc

module _ (sys : System) where
  plain_directory : (path : Text) → check_directory sys path ≡ ok tt → IsPlainDirectory sys path
  unfolding check_directory
  plain_directory path h =
      let (u, first, second) = bind-eq-ok (check_step (sys.symlink_metadata path)) _ h in
      let (at, e, d) = check_step-eq-ok (sys.symlink_metadata path) first in
      record { at = at; here = e; directory = d; no_repository = reject-eq-ok _ _ second }

  check_plain : (path : Text) → IsPlainDirectory sys path → check_directory sys path ≡ ok tt
  unfolding check_directory
  check_plain path v = rw (v.here, v.directory, v.no_repository) refl

  -- The directories on the way are listed, and all are plain.
  abbrev OnTheWay : Text → List Component → Type 0
  OnTheWay current cs =
      (paths : List Text) × (ancestors current cs ≡ some paths) × All (IsPlainDirectory sys) paths

  check_directories-OnTheWay :
      (current : Text) (cs : List Component)
      → check_directories sys current cs ≡ ok tt
      → OnTheWay current cs
  unfolding check_directories ancestors
  check_directories-OnTheWay current [] h = ([], refl, tt)
  check_directories-OnTheWay current (last ∷ []) h = ([], refl, tt)
  check_directories-OnTheWay current (Component.special ∷ next ∷ rest) h = cc
  check_directories-OnTheWay current (Component.normal name ∷ next ∷ rest) h =
      let (u, here, more) = bind-eq-ok (check_directory sys (join current name)) _ h in
      let (paths, e, v) = check_directories-OnTheWay (join current name) (next ∷ rest) more in
      (join current name ∷ paths, rw e refl, (plain_directory (join current name) here, v))

  OnTheWay-check_directories :
      (current : Text) (cs : List Component)
      → OnTheWay current cs
      → check_directories sys current cs ≡ ok tt
  unfolding check_directories ancestors
  OnTheWay-check_directories current [] h = refl
  OnTheWay-check_directories current (last ∷ []) h = refl
  OnTheWay-check_directories current (Component.special ∷ next ∷ rest) (paths, e, v) = cc
  OnTheWay-check_directories current (Component.normal name ∷ next ∷ rest) (paths, e, v) =
      longer (ancestors (join current name) (next ∷ rest)) refl e
        (OnTheWay-check_directories (join current name) (next ∷ rest))
    where
      longer :
          (o : Option (List Text))
          → ancestors (join current name) (next ∷ rest) ≡ o
          → elim o [ none ↦ none | some ps ↦ some (join current name ∷ ps) ] ≡ some paths
          → (OnTheWay (join current name) (next ∷ rest)
              → check_directories sys (join current name) (next ∷ rest) ≡ ok tt)
          → (check_directory sys (join current name)
              >> check_directories sys (join current name) (next ∷ rest))
            ≡ ok tt
      longer none o k again = cc
      longer (some ps) o k again =
          let all : All (IsPlainDirectory sys) (join current name ∷ ps) =
            subst (All (IsPlainDirectory sys)) (sym (some-injective _ _ k)) v in
          rw (check_plain (join current name) all.0, again (ps, o, all.1)) refl

not_added : (kind : ChangeKind) → is_add kind ≡ false → kind ≢ ChangeKind.add
not_added ChangeKind.add h k = cc
not_added ChangeKind.modify h k = cc
not_added ChangeKind.delete h k = cc

check_target-IsFit : (kind : ChangeKind) (l : Lookup) → check_target kind l ≡ ok tt → IsFit kind l
unfolding check_target
check_target-IsFit kind Lookup.failed h = cc
check_target-IsFit ChangeKind.add Lookup.missing h = IsFit.fresh
check_target-IsFit ChangeKind.modify Lookup.missing h = cc
check_target-IsFit ChangeKind.delete Lookup.missing h = cc
check_target-IsFit kind (Lookup.found at) h =
    let (h1, size) = ||-eq-false _ _ (reject-eq-ok _ _ h) in
    let (h2, links) = ||-eq-false _ _ h1 in
    let (h3, mode) = ||-eq-false _ _ h2 in
    let (add, regular) = ||-eq-false _ _ h3 in
    IsFit.present at (λ k. not_added kind add k) (is_file-eq at.kind (not-eq-false _ regular))
      ((==_iff (at.mode % 512) 420).0 (not-eq-false _ mode)) (not_ltb→le 1 at.nlink links)
      (not_ltb→le max_result_file_bytes at.len size)

IsFit-check_target : (kind : ChangeKind) (l : Lookup) → IsFit kind l → check_target kind l ≡ ok tt
unfolding check_target
IsFit-check_target kind l IsFit.fresh = refl
IsFit-check_target ChangeKind.add l (IsFit.present at n f m k s) = elim (n refl) [ ]
IsFit-check_target ChangeKind.modify l (IsFit.present at n f m k s) = rw (f, m) (ground arith)
IsFit-check_target ChangeKind.delete l (IsFit.present at n f m k s) = rw (f, m) (ground arith)

-- A change is accepted exactly if the repository still has its identity, the path has a component, the
-- directories on its way are plain directories that hold no repository, and its target is fit: missing
-- for an addition, and otherwise a regular file of mode 644, with one link and within the bound.
pub validate_change_path_iff :
    (sys : System) (repository : ResolvedRepository) (change : FileChange)
    → (validate_change_path sys repository change ≡ ok tt) ↔ IsAccepted sys repository change
unfolding validate_change_path
validate_change_path_iff sys repository change =
    let cs = components change.path.as_str in
    (
      λ h.
          let (u, i, h1) = bind-eq-ok (revalidate_identity sys repository) _ h in
          let (v, n, h2) = bind-eq-ok (reject (is_empty cs) RepositoryError.path) _ h1 in
          let (w, d, t) = bind-eq-ok (check_directories sys repository.root cs) _ h2 in
          record {
            same_identity = i;
            named = reject-eq-ok _ _ n;
            way = check_directories-OnTheWay sys repository.root cs d;
            fit = check_target-IsFit change.kind _ t;
          },
      λ a.
          rw (a.same_identity, a.named, OnTheWay-check_directories sys repository.root cs a.way)
            (IsFit-check_target change.kind _ a.fit),
    )
