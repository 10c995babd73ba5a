-- ===== src/Core/Catalog/Entries.antt =====
-- What an accepted configuration holds.
use omarchy_premonition.Limits.{max_repositories}
use omarchy_premonition.Core.Error.{RepositoryError}
use omarchy_premonition.Base.{
  suc, ◌+◌, ◌≤◌, Bool, true, false, not, ◌||◌, List, [], ◌∷◌, inl, inr, ◌≡◌, refl, sym, ap, ◌∙◌,
  subst, arith, ltb, ◌==◌, not_ltb→le, Bool-cases, ||-eq-false, Text, text, text_eq, text_eq→eq,
  eq→text_eq, starts_with, text_lt, length, is_empty, all, any, All, reject, ok_or, ok-injective,
  bind-eq-ok, reject-eq-ok, map_err, ok,
}
use omarchy_premonition.Core.System.{is_directory, resolve_binary, System}
use omarchy_premonition.Core.Catalog.{
  validate_id, validate_label, find_entry, insert_entry, is_known, accept_raw, collect, resolve_all,
  from_raw, RawRepository, RawConfig, RepositoryEntry, RepositoryCatalog, config_version,
}

-- The identifier and the label passed their tests.
pub record IsValid (entry : RepositoryEntry) : Type 0 where
  pub id_valid : validate_id entry.id ≡ ok tt
  pub label_valid : validate_label entry.label ≡ ok tt

abbrev pub Differs : RepositoryEntry → RepositoryEntry → Type 0
Differs a b = text_eq a.id b.id ≡ false

-- No identifier is twice in the list.
abbrev pub AreDistinct : List RepositoryEntry → Type 0
AreDistinct [] = Unit
AreDistinct (e ∷ es) = All (Differs e) es × AreDistinct es

insert_entry-All {ℓ} :
    (P : RepositoryEntry → Type ℓ) (e : RepositoryEntry) (es : List RepositoryEntry)
    → P e
    → All P es
    → All P (insert_entry e es)
unfolding insert_entry
insert_entry-All P e [] h k = (h, tt)
insert_entry-All P e (d ∷ es) h k = elim (Bool-cases (text_lt e.id d.id)) [
  | inl before ↦ rw before (h, k)
  | inr after ↦ rw after (k.0, insert_entry-All P e es h k.1)
]

length-insert_entry :
    (e : RepositoryEntry) (es : List RepositoryEntry) → length (insert_entry e es) ≡ suc (length es)
unfolding insert_entry
length-insert_entry e [] = refl
length-insert_entry e (d ∷ es) = elim (Bool-cases (text_lt e.id d.id)) [
  | inl before ↦ rw before refl
  | inr after ↦ rw after (ap suc (length-insert_entry e es))
]

text_eq_sym : (a b : Text) → text_eq a b ≡ false → text_eq b a ≡ false
text_eq_sym a b h = elim (Bool-cases (text_eq b a)) [
  | inl same ↦ let same' : text_eq a b ≡ true = eq→text_eq a b (sym (text_eq→eq b a same)) in cc
  | inr differs ↦ differs
]

insert_entry-AreDistinct :
    (e : RepositoryEntry) (es : List RepositoryEntry)
    → All (Differs e) es
    → AreDistinct es
    → AreDistinct (insert_entry e es)
unfolding insert_entry
insert_entry-AreDistinct e [] h k = (tt, tt)
insert_entry-AreDistinct e (d ∷ es) h k = elim (Bool-cases (text_lt e.id d.id)) [
  | inl before ↦ rw before (h, k)
  | inr after ↦ rw after (
    insert_entry-All (Differs d) e es (text_eq_sym e.id d.id h.0) k.0,
    insert_entry-AreDistinct e es h.1 k.1,
  )
]

-- An identifier that is not found is that of no entry.
unknown-Differs :
    (e : RepositoryEntry) (es : List RepositoryEntry)
    → is_known (find_entry e.id es) ≡ false
    → All (Differs e) es
unfolding find_entry
unknown-Differs e [] h = tt
unknown-Differs e (d ∷ es) h = elim (Bool-cases (text_eq d.id e.id)) [
  | inl same ↦
      let bad : is_known (find_entry e.id (d ∷ es)) ≡ true = rw same refl in
      elim (true-false (sym bad ∙ h)) [ ]
  | inr differs ↦ (text_eq_sym d.id e.id differs, unknown-Differs e es (sym (rw differs refl) ∙ h))
]
  where
    true-false : ◌≡◌ {A = Bool} true false → ⊥
    true-false k = cc

-- What is true of the list so far, and of its length.
pub record IsAllowList (es : List RepositoryEntry) : Type 0 where
  pub valid : All IsValid es
  pub distinct : AreDistinct es

accept_raw-Accepts :
    (sys : System) (roots : List Text) (es : List RepositoryEntry) (raw : RawRepository)
    (e : RepositoryEntry)
    → accept_raw sys roots es raw ≡ ok e
    → IsValid e × All (Differs e) es
unfolding accept_raw
accept_raw-Accepts sys roots es raw e h =
    let (u0, i, h0) = bind-eq-ok (validate_id raw.id) _ h in
    let (u1, l, h1) = bind-eq-ok (validate_label raw.label) _ h0 in
    let (u2, a, h2) =
      bind-eq-ok (reject (not (starts_with (text "/") raw.path)) RepositoryError.config) _ h1 in
    let (root, r, h3) =
      bind-eq-ok (ok_or (sys.canonicalize raw.path) RepositoryError.unsafe) _ h2 in
    let (at, m, h4) = bind-eq-ok (ok_or (sys.metadata root) RepositoryError.unsafe) _ h3 in
    let (u5, d, h5) =
      bind-eq-ok
        (reject (not (is_directory at.kind) || any (text_eq root) roots) RepositoryError.config) _
        h4 in
    let (u6, k, h6) =
      bind-eq-ok (reject (is_known (find_entry raw.id es)) RepositoryError.config) _ h5 in
    subst (λ (x : RepositoryEntry). IsValid x × All (Differs x) es) (ok-injective h6)
      (
        record { id_valid = i; label_valid = l },
        unknown-Differs (record { id = raw.id; label = raw.label; root = root }) es
            (reject-eq-ok _ _ k),
      )

collect-IsAllowList :
    (sys : System) (roots : List Text) (es : List RepositoryEntry) (raws : List RawRepository)
    (r : List RepositoryEntry)
    → IsAllowList es
    → collect sys roots es raws ≡ ok r
    → IsAllowList r × (length r ≡ length raws + length es)
unfolding collect
collect-IsAllowList sys roots es [] r v h =
    let same : length r ≡ length es = sym (ap length (ok-injective h)) in
    (subst IsAllowList (ok-injective h) v, ground arith)
collect-IsAllowList sys roots es (raw ∷ raws) r v h =
    let (e, a, h1) = bind-eq-ok (accept_raw sys roots es raw) _ h in
    let (valid, differs) = accept_raw-Accepts sys roots es raw e a in
    let (w, n) =
      collect-IsAllowList sys (e.root ∷ roots) (insert_entry e es) raws r
        (record {
          valid = insert_entry-All IsValid e es valid v.valid;
          distinct = insert_entry-AreDistinct e es differs v.distinct;
        })
        h1 in
    (w, n ∙ (rw (length-insert_entry e es) (ground arith)))

-- A configuration that is accepted gives an allow-list whose identifiers and labels passed their tests,
-- in which no identifier occurs twice, and which has an entry for each of the configured repositories
-- and not more than the bound allows.
pub from_raw-IsAllowList :
    (sys : System) (config : RawConfig) (catalog : RepositoryCatalog)
    → from_raw sys config ≡ ok catalog
    → IsAllowList catalog.entries
      × (length catalog.entries ≡ length config.repositories)
      × (length catalog.entries ≤ max_repositories)
unfolding from_raw
from_raw-IsAllowList sys config catalog h =
    let (u0, size, h0) =
      bind-eq-ok
        (reject
          (not (config.version == config_version)
            || is_empty config.repositories
            || ltb max_repositories (length config.repositories))
          RepositoryError.config)
        _ h in
    let (git, g, h1) =
      bind-eq-ok (map_err (λ _. RepositoryError.git) (resolve_binary sys config.git_binary)) _ h0 in
    let (es, c, h2) = bind-eq-ok (collect sys [] [] config.repositories) _ h1 in
    let (u3, all, h3) = bind-eq-ok (resolve_all sys (record { git = git; entries = es }) es) _ h2 in
    let (v, n) =
      collect-IsAllowList sys [] [] config.repositories es (record { valid = tt; distinct = tt })
        c in
    let count : length es ≡ length config.repositories = ground arith in
    let bound =
      not_ltb→le max_repositories (length config.repositories)
        (||-eq-false _ _ (reject-eq-ok _ _ size)).1 in
    subst
      (λ (x : RepositoryCatalog).
        IsAllowList x.entries
        × (length x.entries ≡ length config.repositories)
        × (length x.entries ≤ max_repositories))
      (ok-injective h3) (v, count, rw count bound)
