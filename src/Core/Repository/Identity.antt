-- ===== src/Core/Repository/Identity.antt =====
-- Which directories are resolved to a repository, and with which identity.
use omarchy_premonition.Core.Repository.{utf8_trimmed, rev_parse, resolve_identity, is_worktree}
use omarchy_premonition.Core.Error.{RepositoryError}
use omarchy_premonition.Core.System.Binary.{run_git_iff, IsSameBinary}
use omarchy_premonition.Core.Model.{RepositoryIdentity, GitBinary}
use omarchy_premonition.Core.System.{System, FileKind, FileMetadata, is_directory, run_git}
use omarchy_premonition.Apply.Publication.{join}
use omarchy_premonition.Core.Repository.ChangePath.{is_directory-eq}
use omarchy_premonition.Base.{
  ℕ, true, not, [], ◌∷◌, ◌↔◌, some, ◌≡◌, refl, ap, subst, if◌then◌else◌, Text, text, text_eq,
  text_eq→eq, text_eq_refl, starts_with, is_empty, is_utf8, trim_line_ends, reject, ok_or,
  ok-injective, bind-eq-ok, bind-eq-ok-elim, passed, ok_or-eq-ok, map_err, map_err-eq-ok, ok,
}

-- The same binary, asked by `git rev-parse` with one more argument, prints this value.
pub record Answers (sys : System) (git : GitBinary) (root argument value : Text) : Type 0 where
  pub binary : IsSameBinary sys git
  pub bytes : Text
  pub ran : sys.run root (text "rev-parse" ∷ argument ∷ []) [] ≡ ok bytes
  pub printable : is_utf8 bytes ≡ true
  pub trimmed : trim_line_ends bytes ≡ value

-- A directory of this device and inode.
pub record IsDirectoryAt (sys : System) (path : Text) (device inode : ℕ) : Type 0 where
  pub at : FileMetadata
  pub here : sys.metadata path ≡ some at
  pub directory : at.kind ≡ FileKind.directory
  pub same_device : at.dev ≡ device
  pub same_inode : at.ino ≡ inode

-- The top of a work tree, not bare and no submodule, with its directory and that of git.
pub record IsWorktree (sys : System) (git : GitBinary) (configured : Text) (i : RepositoryIdentity)
    : Type 0 where
  pub root_path : sys.canonicalize configured ≡ some i.root
  pub root_here : IsDirectoryAt sys i.root i.root_device i.root_inode
  pub marked : is_worktree (sys.symlink_metadata (join i.root (text ".git"))) ≡ true
  pub top : Text
  pub topped : Answers sys git i.root (text "--show-toplevel") top
  pub top_path : sys.canonicalize top ≡ some i.root
  pub not_bare : Answers sys git i.root (text "--is-bare-repository") (text "false")
  pub inside : Answers sys git i.root (text "--is-inside-work-tree") (text "true")
  pub no_superproject : Answers sys git i.root (text "--show-superproject-working-tree") []
  pub dir : Text
  pub housed : Answers sys git i.root (text "--git-dir") dir
  pub dir_path :
      sys.canonicalize (if starts_with (text "/") dir then dir else join i.root dir)
      ≡ some i.git_dir
  pub dir_here : IsDirectoryAt sys i.git_dir i.git_device i.git_inode

module _ (sys : System) (git : GitBinary) where
  rev_parse_iff :
      (root argument value : Text)
      → (rev_parse sys git root argument ≡ ok value) ↔ Answers sys git root argument value
  unfolding rev_parse utf8_trimmed
  rev_parse_iff root argument value = (
    λ h.
        let (bytes, ran, h1) =
          bind-eq-ok
            (map_err (λ _. RepositoryError.git)
              (run_git sys git root (text "rev-parse" ∷ argument ∷ []) []))
            _ h in
        let (u, printable, end) =
          bind-eq-ok (reject (not (is_utf8 bytes)) RepositoryError.git) _ h1 in
        let (same, process) = (run_git_iff sys git root _ [] bytes).0 (map_err-eq-ok _ _ ran) in
        record {
          binary = same;
          bytes = bytes;
          ran = process;
          printable = passed _ _ printable;
          trimmed = ok-injective end;
        },
    λ v.
        rw ((run_git_iff sys git root _ [] v.bytes).1 (v.binary, v.ran), v.printable)
          (ap (λ (x : Text). ok x) v.trimmed),
  )

  -- The answer that is asked for.
  answered :
      (root argument value asked : Text)
      → rev_parse sys git root argument ≡ ok value
      → value ≡ asked
      → Answers sys git root argument asked
  answered root argument value asked h k =
      subst (Answers sys git root argument) k ((rev_parse_iff root argument value).0 h)

  empty-eq : (value : Text) → is_empty value ≡ true → value ≡ []
  empty-eq [] h = refl
  empty-eq (b ∷ value) h = cc

  identified :
      (configured : Text) (i : RepositoryIdentity)
      → resolve_identity sys git configured ≡ ok i
      → IsWorktree sys git configured i
  unfolding resolve_identity
  identified configured i h =
      bind-eq-ok-elim (ok_or (sys.canonicalize configured) RepositoryError.unsafe) _ h λ root e0 h0.
        bind-eq-ok-elim (ok_or (sys.metadata root) RepositoryError.unsafe) _ h0 λ root_at e1 h1.
          bind-eq-ok-elim (reject (not (is_directory root_at.kind)) RepositoryError.unsafe) _ h1
            λ u2 e2 h2.
              bind-eq-ok-elim
                (reject (not (is_worktree (sys.symlink_metadata (join root (text ".git")))))
                  RepositoryError.unsafe)
                _ h2
                λ u3 e3 h3.
                  bind-eq-ok-elim (rev_parse sys git root (text "--show-toplevel")) _ h3
                    λ top e4 h4.
                      bind-eq-ok-elim (ok_or (sys.canonicalize top) RepositoryError.unsafe) _ h4
                        λ path e5 h5.
                          bind-eq-ok-elim (reject (not (text_eq path root)) RepositoryError.unsafe)
                            _ h5
                            λ u6 e6 h6.
                              bind-eq-ok-elim (rev_parse sys git root (text "--is-bare-repository"))
                                _ h6
                                λ bare e7 h7.
                                  bind-eq-ok-elim
                                    (reject (not (text_eq bare (text "false")))
                                      RepositoryError.unsafe)
                                    _ h7
                                    λ u8 e8 h8.
                                      bind-eq-ok-elim
                                        (rev_parse sys git root (text "--is-inside-work-tree")) _ h8
                                        λ inside e9 h9.
                                          bind-eq-ok-elim
                                            (reject (not (text_eq inside (text "true")))
                                              RepositoryError.unsafe)
                                            _ h9
                                            λ u10 e10 h10.
                                              bind-eq-ok-elim
                                                (rev_parse sys git root
                                                  (text "--show-superproject-working-tree"))
                                                _ h10
                                                λ super e11 h11.
                                                  bind-eq-ok-elim
                                                    (reject (not (is_empty super))
                                                      RepositoryError.unsafe)
                                                    _ h11
                                                    λ u12 e12 h12.
                                                      bind-eq-ok-elim
                                                        (rev_parse sys git root (text "--git-dir"))
                                                        _ h12
                                                        λ dir e13 h13.
                                                          bind-eq-ok-elim
                                                            (ok_or
                                                            (sys.canonicalize (
                                                            if starts_with (text "/") dir
                                                            then dir
                                                            else join root dir))
                                                            RepositoryError.unsafe)
                                                            _ h13
                                                            λ git_dir e14 h14.
                                                            bind-eq-ok-elim
                                                            (ok_or (sys.metadata git_dir)
                                                            RepositoryError.unsafe)
                                                            _ h14
                                                            λ git_at e15 h15.
                                                            bind-eq-ok-elim
                                                            (reject (not (is_directory git_at.kind))
                                                            RepositoryError.unsafe)
                                                            _ h15
                                                            λ u16 e16 end.
                                                            subst (IsWorktree sys git configured)
                                                            (ok-injective end)
                                                            (record {
                                                            root_path = ok_or-eq-ok _ _ e0;
                                                            root_here = record {
                                                            at = root_at;
                                                            here = ok_or-eq-ok _ _ e1;
                                                            directory =
                                                            is_directory-eq root_at.kind
                                                            (passed _ _ e2);
                                                            same_device = refl;
                                                            same_inode = refl;
                                                            };
                                                            marked = passed _ _ e3;
                                                            top = top;
                                                            topped =
                                                            (rev_parse_iff root _ top).0 e4;
                                                            top_path =
                                                            subst
                                                            (λ (x : Text).
                                                            sys.canonicalize top ≡ some x)
                                                            (text_eq→eq path root (passed _ _ e6))
                                                            (ok_or-eq-ok _ _ e5);
                                                            not_bare =
                                                            answered root _ bare _ e7
                                                            (text_eq→eq bare _ (passed _ _ e8));
                                                            inside =
                                                            answered root _ inside _ e9
                                                            (text_eq→eq inside _ (passed _ _ e10));
                                                            no_superproject =
                                                            answered root _ super _ e11
                                                            (empty-eq super (passed _ _ e12));
                                                            dir = dir;
                                                            housed =
                                                            (rev_parse_iff root _ dir).0 e13;
                                                            dir_path = ok_or-eq-ok _ _ e14;
                                                            dir_here = record {
                                                            at = git_at;
                                                            here = ok_or-eq-ok _ _ e15;
                                                            directory =
                                                            is_directory-eq git_at.kind
                                                            (passed _ _ e16);
                                                            same_device = refl;
                                                            same_inode = refl;
                                                            };
                                                            })

  identifies :
      (configured : Text) (i : RepositoryIdentity)
      → IsWorktree sys git configured i
      → resolve_identity sys git configured ≡ ok i
  unfolding resolve_identity
  identifies configured i v =
      rw
        (
          v.root_path,
          v.root_here.here,
          v.root_here.directory,
          v.marked,
          (rev_parse_iff i.root _ v.top).1 v.topped,
          v.top_path,
          text_eq_refl i.root,
          (rev_parse_iff i.root _ _).1 v.not_bare,
          (rev_parse_iff i.root _ _).1 v.inside,
          (rev_parse_iff i.root _ _).1 v.no_superproject,
          (rev_parse_iff i.root _ v.dir).1 v.housed,
          v.dir_path,
          v.dir_here.here,
          v.dir_here.directory,
          v.root_here.same_device,
          v.root_here.same_inode,
          v.dir_here.same_device,
          v.dir_here.same_inode,
        )
        (unfold text_eq in refl)

  pub resolve_identity_iff :
      (configured : Text) (i : RepositoryIdentity)
      → (resolve_identity sys git configured ≡ ok i) ↔ IsWorktree sys git configured i
  resolve_identity_iff configured i = (identified configured i, identifies configured i)
