-- ===== src/Core/Catalog/Resolution.antt =====
-- Which repository an identifier is resolved to.
use mathlib.Core.Option.{some-injective}
use omarchy_premonition.Core.Repository.Identity.{IsWorktree, resolve_identity_iff}
use omarchy_premonition.Core.System.{System}
use omarchy_premonition.Core.Repository.{resolve_identity}
use omarchy_premonition.Core.Model.{ResolvedRepository}
use omarchy_premonition.Core.Error.{RepositoryError}
use omarchy_premonition.Core.Catalog.{
  resolve_entry, resolve, find_entry, RepositoryEntry, RepositoryCatalog,
}
use omarchy_premonition.Base.{
  true, false, List, [], ◌∷◌, ◌++◌, ◌≢◌, ◌↔◌, inl, inr, some, ◌≡◌, refl, sym, ap, ◌∙◌, subst,
  Bool-cases, Text, text_eq, text_eq→eq, eq→text_eq, All, ok_or, ok-injective, bind-eq-ok,
  ok_or-eq-ok, ok,
}

-- The first entry of this identifier, where it stands in the list.
pub record IsFirstOf (id : Text) (entries : List RepositoryEntry) (entry : RepositoryEntry)
    : Type 0 where
  pub before : List RepositoryEntry
  pub after : List RepositoryEntry
  pub listed : entries ≡ before ++ entry ∷ after
  pub others_before : All (λ (e : RepositoryEntry). e.id ≢ id) before
  pub named : entry.id ≡ id

-- The repository of an allow-list's first entry of this identifier, as git describes it.
pub record IsResolved (sys : System) (catalog : RepositoryCatalog) (id : Text)
    (r : ResolvedRepository) : Type 0 where
  pub entry : RepositoryEntry
  pub listed : IsFirstOf id catalog.entries entry
  pub identified : IsWorktree sys catalog.git entry.root r.identity
  pub same_id : r.id ≡ id
  pub same_label : r.label ≡ entry.label
  pub same_root : r.root ≡ r.identity.root
  pub same_git_dir : r.git_dir ≡ r.identity.git_dir
  pub same_git : r.git ≡ catalog.git

text_eq-false : (a b : Text) → a ≢ b → text_eq a b ≡ false
text_eq-false a b n = elim (Bool-cases (text_eq a b)) [
  | inl same ↦ elim (n (text_eq→eq a b same)) [ ]
  | inr differs ↦ differs
]

find_entry-IsFirstOf :
    (id : Text) (entries : List RepositoryEntry) (entry : RepositoryEntry)
    → find_entry id entries ≡ some entry
    → IsFirstOf id entries entry
unfolding find_entry
find_entry-IsFirstOf id [] entry h = cc
find_entry-IsFirstOf id (e ∷ es) entry h = elim (Bool-cases (text_eq e.id id)) [
  | inl same ↦ subst (IsFirstOf id (e ∷ es)) (some-injective _ _ (rw same at h)) (record {
    before = [];
    after = es;
    listed = refl;
    others_before = tt;
    named = text_eq→eq e.id id same;
  })
  | inr differs ↦
      let f = find_entry-IsFirstOf id es entry (rw differs at h) in
      record {
        before = e ∷ f.before;
        after = f.after;
        listed = ap (λ (x : List RepositoryEntry). e ∷ x) f.listed;
        others_before =
            (λ k. let same : text_eq e.id id ≡ true = eq→text_eq e.id id k in cc, f.others_before);
        named = f.named;
      }
]

find_entry-skips :
    (id : Text) (before after : List RepositoryEntry) (entry : RepositoryEntry)
    → All (λ (e : RepositoryEntry). e.id ≢ id) before
    → entry.id ≡ id
    → find_entry id (before ++ entry ∷ after) ≡ some entry
unfolding find_entry
find_entry-skips id [] after entry h k = rw (eq→text_eq entry.id id k) refl
find_entry-skips id (e ∷ before) after entry h k =
    rw (text_eq-false e.id id h.0) (find_entry-skips id before after entry h.1 k)

pub resolve_iff :
    (sys : System) (catalog : RepositoryCatalog) (id : Text) (r : ResolvedRepository)
    → (resolve sys catalog id ≡ ok r) ↔ IsResolved sys catalog id r
unfolding resolve resolve_entry
resolve_iff sys catalog id r = (
  λ h.
      let (entry, f, h1) =
        bind-eq-ok (ok_or (find_entry id catalog.entries) RepositoryError.unknown) _ h in
      let (identity, i, end) = bind-eq-ok (resolve_identity sys catalog.git entry.root) _ h1 in
      let first = find_entry-IsFirstOf id catalog.entries entry (ok_or-eq-ok _ _ f) in
      subst (IsResolved sys catalog id) (ok-injective end) (record {
        entry = entry;
        listed = first;
        identified = (resolve_identity_iff sys catalog.git entry.root identity).0 i;
        same_id = first.named;
        same_label = refl;
        same_root = refl;
        same_git_dir = refl;
        same_git = refl;
      }),
  λ v.
      let l = v.listed in
      let found : find_entry id catalog.entries ≡ some v.entry =
        ap (find_entry id) l.listed
        ∙ find_entry-skips id l.before l.after v.entry l.others_before l.named in
      rw (found, (resolve_identity_iff sys catalog.git v.entry.root r.identity).1 v.identified)
        (λ i. ok (record {
          id = (l.named ∙ sym v.same_id) i;
          label = sym v.same_label i;
          root = sym v.same_root i;
          git_dir = sym v.same_git_dir i;
          identity = r.identity;
          git = sym v.same_git i;
        })),
)
