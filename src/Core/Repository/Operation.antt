-- ===== src/Core/Repository/Operation.antt =====
-- When no operation is in progress in a repository.
use omarchy_premonition.Apply.Publication.{join}
use omarchy_premonition.Core.Repository.{revalidate_identity, assert_operation_safe, markers}
use omarchy_premonition.Core.Model.{ResolvedRepository}
use omarchy_premonition.Core.System.{System, is_found}
use omarchy_premonition.Base.{
  Bool, false, List, [], ◌∷◌, ◌≡◌, ||-eq-false, Text, any, All, bind-eq-ok, reject-eq-ok, ok,
}

-- None of the files and directories that git keeps while an operation is in progress is there.
abbrev pub NoOperation : System → ResolvedRepository → Type 0
NoOperation sys repository =
    All (λ marker. is_found (sys.symlink_metadata (join repository.git_dir marker)) ≡ false) markers

any-false : (p : Text → Bool) (xs : List Text) → any p xs ≡ false → All (λ x. p x ≡ false) xs
unfolding any
any-false p [] h = tt
any-false p (x ∷ xs) h = let (here, rest) = ||-eq-false _ _ h in (here, any-false p xs rest)

pub assert_operation_safe-NoOperation :
    (sys : System) (repository : ResolvedRepository)
    → assert_operation_safe sys repository ≡ ok tt
    → NoOperation sys repository
unfolding assert_operation_safe
assert_operation_safe-NoOperation sys repository h =
    let (u, i, rest) = bind-eq-ok (revalidate_identity sys repository) _ h in
    any-false (λ marker. is_found (sys.symlink_metadata (join repository.git_dir marker))) markers
      (reject-eq-ok _ _ rest)
