-- ===== src/Core/Enumeration.antt =====
-- crates/premonition-core/src/snapshot.rs: the paths that git lists, in the order of a set of paths.
pub mod Listed
use omarchy_premonition.Core.Error.{SnapshotError}
use omarchy_premonition.Base.{
  ℕ, Bool, true, false, not, ◌&&◌, ◌||◌, List, [], ◌∷◌, Option, none, some, ◌==◌, if◌then◌else◌,
  Text, text, text_eq, starts_with, split, Component, components, text_lt, is_empty, all, any,
  last?, Result, ◌>>◌, reject, ok,
}

-- `bytes[..bytes.len() - 1]`.
unfoldable pub drop_last : Text → Text
drop_last [] = []
drop_last (b ∷ []) = []
drop_last (b ∷ c ∷ s) = b ∷ drop_last (c ∷ s)

abbrev pub ends_with_nul : Option ℕ → Bool
ends_with_nul none = false
ends_with_nul (some b) = b == 0

abbrev pub is_normal : Component → Bool
is_normal (Component.normal name) = true
is_normal Component.special = false

-- `Ord` and `Eq` of `PathBuf`, on components that are all normal.
unfoldable pub components_lt : List Component → List Component → Bool
unfolding text_lt text_eq
components_lt as' [] = false
components_lt [] (b ∷ bs) = true
components_lt (Component.normal a ∷ as') (Component.normal b ∷ bs) =
    let rest = components_lt as' bs in text_lt a b || (text_eq a b && rest)
components_lt (Component.special ∷ as') (b ∷ bs) = false
components_lt (Component.normal a ∷ as') (Component.special ∷ bs) = false

unfoldable pub components_eq : List Component → List Component → Bool
unfolding text_eq
components_eq [] [] = true
components_eq (Component.normal a ∷ as') (Component.normal b ∷ bs) =
    let rest = components_eq as' bs in text_eq a b && rest
components_eq _ _ = false

abbrev pub path_lt : Text → Text → Bool
path_lt a b = components_lt (components a) (components b)

abbrev pub path_eq : Text → Text → Bool
path_eq a b = components_eq (components a) (components b)

-- `BTreeSet::insert` of a path that is not there.
unfoldable pub insert_path : Text → List Text → List Text
unfolding components_lt components
insert_path path [] = path ∷ []
insert_path path (p ∷ ps) =
    let rest = insert_path path ps in if path_lt path p then path ∷ (p ∷ ps) else p ∷ rest

unfoldable pub accept_paths : List Text → List Text → Result SnapshotError (List Text)
unfolding insert_path components_eq starts_with all
accept_paths unique [] = ok unique
accept_paths unique (raw ∷ raws) = do
  reject (is_empty raw || starts_with (text "/") raw) SnapshotError.git
  reject (not (all is_normal (components raw))) SnapshotError.git
  reject (any (path_eq raw) unique) SnapshotError.git
  accept_paths (insert_path raw unique) raws

unfoldable pub parse_nul_paths : Text → Result SnapshotError (List Text)
unfolding accept_paths drop_last split
parse_nul_paths [] = ok []
parse_nul_paths (b ∷ bytes) = do
  reject (not (ends_with_nul (last? (b ∷ bytes)))) SnapshotError.git
  accept_paths [] (split 0 (drop_last (b ∷ bytes)))
