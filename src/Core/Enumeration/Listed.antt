-- ===== src/Core/Enumeration/Listed.antt =====
-- What an accepted list of paths holds.
use omarchy_premonition.Core.Error.{SnapshotError}
use omarchy_premonition.Base.{
  ℕ, suc, ◌+◌, true, false, not, ◌||◌, List, [], ◌∷◌, inl, inr, ◌≡◌, refl, sym, ap, ◌∙◌, subst,
  arith, Bool-cases, ||-eq-false, Text, text, starts_with, split, components, length, is_empty, all,
  any, All, last?, reject, ok-injective, bind-eq-ok, reject-eq-ok, passed, ok,
}
use omarchy_premonition.Base.{
  ℕ, suc, ◌+◌, true, false, not, ◌||◌, List, [], ◌∷◌, inl, inr, ◌≡◌, refl, sym, ap, ◌∙◌, subst,
  arith, Bool-cases, ||-eq-false, Text, text, starts_with, split, components, length, is_empty, all,
  any, All, last?, reject, ok-injective, bind-eq-ok, reject-eq-ok, passed, ok,
}
use omarchy_premonition.Core.Enumeration.{
  is_normal, path_lt, path_eq, insert_path, accept_paths, parse_nul_paths, drop_last, ends_with_nul,
}

-- A relative path whose components are all normal.
pub record IsListed (path : Text) : Type 0 where
  pub named : is_empty path ≡ false
  pub relative : starts_with (text "/") path ≡ false
  pub normal_all : all is_normal (components path) ≡ true

insert_path-All {ℓ} :
    (P : Text → Type ℓ) (path : Text) (ps : List Text)
    → P path
    → All P ps
    → All P (insert_path path ps)
unfolding insert_path
insert_path-All P path [] h k = (h, tt)
insert_path-All P path (p ∷ ps) h k = elim (Bool-cases (path_lt path p)) [
  | inl before ↦ rw before (h, k)
  | inr after ↦ rw after (k.0, insert_path-All P path ps h k.1)
]

length-insert_path : (path : Text) (ps : List Text) → length (insert_path path ps) ≡ suc (length ps)
unfolding insert_path
length-insert_path path [] = refl
length-insert_path path (p ∷ ps) = elim (Bool-cases (path_lt path p)) [
  | inl before ↦ rw before refl
  | inr after ↦ rw after (ap suc (length-insert_path path ps))
]

accept_paths-IsListed :
    (unique raws paths : List Text)
    → All IsListed unique
    → accept_paths unique raws ≡ ok paths
    → All IsListed paths × (length paths ≡ length raws + length unique)
unfolding accept_paths
accept_paths-IsListed unique [] paths v h =
    let same : length paths ≡ length unique = sym (ap length (ok-injective h)) in
    (subst (All IsListed) (ok-injective h) v, ground arith)
accept_paths-IsListed unique (raw ∷ raws) paths v h =
    let (u, a, h1) =
      bind-eq-ok (reject (is_empty raw || starts_with (text "/") raw) SnapshotError.git) _ h in
    let (w, b, h2) =
      bind-eq-ok (reject (not (all is_normal (components raw))) SnapshotError.git) _ h1 in
    let (x, c, h3) = bind-eq-ok (reject (any (path_eq raw) unique) SnapshotError.git) _ h2 in
    let (named, relative) = ||-eq-false _ _ (reject-eq-ok _ _ a) in
    let here : IsListed raw = record {
      named = named;
      relative = relative;
      normal_all = passed _ _ b;
    } in
    let (rest, n) =
      accept_paths-IsListed (insert_path raw unique) raws paths
        (insert_path-All IsListed raw unique here v) h3 in
    (rest, n ∙ (rw (length-insert_path raw unique) (ground arith)))

-- If a list of bytes that is not empty is accepted, every path is relative with normal components only,
-- and there are as many paths as pieces between the zero bytes: none is dropped.
pub parse_nul_paths-IsListed :
    (b : ℕ) (bytes : Text) (paths : List Text)
    → parse_nul_paths (b ∷ bytes) ≡ ok paths
    → All IsListed paths × (length paths ≡ length (split 0 (drop_last (b ∷ bytes))))
unfolding parse_nul_paths
parse_nul_paths-IsListed b bytes paths h =
    let (u, a, h1) =
      bind-eq-ok (reject (not (ends_with_nul (last? (b ∷ bytes)))) SnapshotError.git) _ h in
    let raws = split 0 (drop_last (b ∷ bytes)) in
    let (listed, n) = accept_paths-IsListed [] raws paths tt h1 in
    let count : length paths ≡ length raws = ground arith in (listed, count)
