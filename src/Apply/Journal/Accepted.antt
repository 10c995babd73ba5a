-- ===== src/Apply/Journal/Accepted.antt =====
-- What Apply prepares, before the validation of recovery.
use omarchy_premonition.Base.{
  ℕ, suc, ◌+◌, true, false, List, [], ◌∷◌, ◌≢◌, inl, inr, ◌≡◌, refl, sym, ap, ◌∙◌, subst, arith,
  ltb, Bool-cases, Text, text, text_eq, text_eq→eq, starts_with, is_ascii_alphanumeric,
  is_plain_byte, length, is_empty, all, any, All, ok-injective, bind-eq-ok, ok,
}
use omarchy_premonition.Apply.Journal.Names.{entry_name-accepted, validate_transaction_id-plain}
use omarchy_premonition.Limits.{max_files}
use omarchy_premonition.Diff.SafePath.Grammar.{parse_iff, IsPathText}
use omarchy_premonition.Diff.Parse.Paths.{DistinctPaths}
use omarchy_premonition.Diff.Parse.Bounds.{parse-IsBounded}
use omarchy_premonition.Diff.Parse.{FileChange, ParsedPatch, parse}
use omarchy_premonition.Apply.Journal.{
  entry_name, validate_transaction_id, stage_entries, hash_entries, Phase, JournalEntry, Journal,
  Staging, prepare, validate_journal, validate_entries, hash_result, hash_source,
}

-- The entries name the files in order, with the names that belong to their indices.
abbrev Drafted : Text → ℕ → List FileChange → List JournalEntry → Type 0
Drafted id index [] [] = Unit
Drafted id index (f ∷ fs) (e ∷ es) =
    (e.relative ≡ f.path.as_str)
    × (e.temporary ≡ entry_name id index (text ".new"))
    × (e.backup ≡ entry_name id index (text ".bak"))
    × Drafted id (index + 1) fs es
Drafted id index _ _ = ⊥

stage_entries-Drafted :
    (staging : Staging) (id : Text) (index : ℕ) (fs : List FileChange) (es : List JournalEntry)
    → stage_entries staging id index fs ≡ ok es
    → Drafted id index fs es
unfolding stage_entries
stage_entries-Drafted staging id index [] es h = subst (Drafted id index []) (ok-injective h) tt
stage_entries-Drafted staging id index (f ∷ fs) es h =
    let (u, e0, h0) = bind-eq-ok (staging.create_parent f.path.as_str) _ h in
    let (hash, e1, h1) = bind-eq-ok (hash_source staging f.kind f.path.as_str) _ h0 in
    let (rest, e2, h2) = bind-eq-ok (stage_entries staging id (index + 1) fs) _ h1 in
    subst (Drafted id index (f ∷ fs)) (ok-injective h2)
      (refl, refl, refl, stage_entries-Drafted staging id (index + 1) fs rest e2)

hash_result-names :
    (staging : Staging) (e e' : JournalEntry)
    → hash_result staging e ≡ ok e'
    → (e'.relative ≡ e.relative) × (e'.temporary ≡ e.temporary) × (e'.backup ≡ e.backup)
unfolding hash_result
hash_result-names staging e e' h = ground arith

hash_entries-Drafted :
    (staging : Staging) (id : Text) (index : ℕ) (fs : List FileChange) (es es' : List JournalEntry)
    → Drafted id index fs es
    → hash_entries staging es ≡ ok es'
    → Drafted id index fs es'
unfolding hash_entries
hash_entries-Drafted staging id index [] [] es' d h =
    subst (Drafted id index []) (ok-injective h) tt
hash_entries-Drafted staging id index (f ∷ fs) (e ∷ es) es' d h =
    let (hashed, e0, h0) = bind-eq-ok (hash_result staging e) _ h in
    let (rest, e1, h1) = bind-eq-ok (hash_entries staging es) _ h0 in
    let (r, t, b) = hash_result-names staging e hashed e0 in
    subst (Drafted id index (f ∷ fs)) (ok-injective h1)
      (r ∙ d.0, t ∙ d.1, b ∙ d.2, hash_entries-Drafted staging id (index + 1) fs es rest d.3 e1)
hash_entries-Drafted staging id index [] (e ∷ es) es' d h = elim d [ ]
hash_entries-Drafted staging id index (f ∷ fs) [] es' d h = elim d [ ]

Drafted-length :
    (id : Text) (index : ℕ) (fs : List FileChange) (es : List JournalEntry)
    → Drafted id index fs es
    → length es ≡ length fs
Drafted-length id index [] [] d = refl
Drafted-length id index (f ∷ fs) (e ∷ es) d = ap suc (Drafted-length id (index + 1) fs es d.3)
Drafted-length id index [] (e ∷ es) d = elim d [ ]
Drafted-length id index (f ∷ fs) [] d = elim d [ ]

-- No path of the files is among `unique`.
abbrev Unseen : List Text → List FileChange → Type 0
Unseen unique = All (λ f. any (text_eq f.path.as_str) unique ≡ false)

Unseen-cons :
    (f : FileChange) (unique : List Text) (fs : List FileChange)
    → All (λ g. f.path ≢ g.path) fs
    → Unseen unique fs
    → Unseen (f.path.as_str ∷ unique) fs
unfolding any
Unseen-cons f unique [] d h = tt
Unseen-cons f unique (g ∷ fs) d h =
    let distinct : text_eq g.path.as_str f.path.as_str ≡ false =
      elim (Bool-cases (text_eq g.path.as_str f.path.as_str)) [
        | inl same ↦ absurd (
            d.0 (
              ap (λ (t : Text). record { as_str = t })
                (sym (text_eq→eq g.path.as_str f.path.as_str same))))
        | inr other ↦ other
      ] in
    (rw (distinct, h.0) refl, Unseen-cons f unique fs d.1 h.1)

plain_new : all is_plain_byte (text ".new") ≡ true
unfolding all is_plain_byte is_ascii_alphanumeric
plain_new = refl

plain_bak : all is_plain_byte (text ".bak") ≡ true
unfolding all is_plain_byte is_ascii_alphanumeric
plain_bak = refl

validate_entries-Drafted :
    (id : Text) (index : ℕ) (unique : List Text) (fs : List FileChange) (es : List JournalEntry)
    → all is_plain_byte id ≡ true
    → Drafted id index fs es
    → DistinctPaths fs
    → All (λ f. IsPathText f.path.as_str) fs
    → Unseen unique fs
    → validate_entries unique es ≡ ok tt
unfolding validate_entries
validate_entries-Drafted id index unique [] [] plain d distinct paths fresh = refl
validate_entries-Drafted id index unique (f ∷ fs) (e ∷ es) plain d distinct paths fresh =
    let new_name = entry_name-accepted id (text ".new") index plain plain_new in
    let bak_name = entry_name-accepted id (text ".bak") index plain plain_bak in
    let parsed = (parse_iff f.path.as_str f.path).1 (refl, paths.0) in
    rw (d.0, parsed, fresh.0, d.1, new_name, d.2, bak_name)
      (validate_entries-Drafted id (index + 1) (f.path.as_str ∷ unique) fs es plain d.3 distinct.1
        paths.1 (Unseen-cons f unique fs distinct.0 fresh.1))
validate_entries-Drafted id index unique [] (e ∷ es) plain d distinct paths fresh = elim d [ ]
validate_entries-Drafted id index unique (f ∷ fs) [] plain d distinct paths fresh = elim d [ ]

all-Unseen : (fs : List FileChange) → Unseen [] fs
unfolding any
all-Unseen [] = tt
all-Unseen (f ∷ fs) = (refl, all-Unseen fs)

-- A journal that Apply prepares for a patch that parses, in a repository with an absolute root and
-- under an accepted transaction identifier, is accepted by recovery, in whatever phase.
pub validate_journal-prepare :
    (staging : Staging) (id root raw : Text) (patch : ParsedPatch) (journal : Journal)
    (phase : Phase)
    → parse raw ≡ ok patch
    → validate_transaction_id id ≡ ok tt
    → starts_with (text "/") root ≡ true
    → prepare staging id root patch ≡ ok journal
    → validate_journal (record journal { phase = phase }) ≡ ok tt
unfolding prepare validate_journal
validate_journal-prepare staging id root raw patch journal phase parsed valid absolute made =
    let bounded = parse-IsBounded raw patch parsed in
    let (u0, e, h) = bind-eq-ok staging.create_stage _ made in
    let (staged, e0, h0) = bind-eq-ok (stage_entries staging id 0 patch.files) _ h in
    let (u1, e1, h1) = bind-eq-ok staging.git_check _ h0 in
    let (u2, e2, h2) = bind-eq-ok staging.git_apply _ h1 in
    let (u3, e3, h3) = bind-eq-ok staging.revalidate _ h2 in
    let (entries, e4, h4) = bind-eq-ok (hash_entries staging staged) _ h3 in
    let drafted =
      hash_entries-Drafted staging id 0 patch.files staged entries
        (stage_entries-Drafted staging id 0 patch.files staged e0) e4 in
    let size = Drafted-length id 0 patch.files entries drafted in
    let some_entries : is_empty entries ≡ false = ground (arith, bounded.some_files, size) in
    let few_entries : ltb max_files (length entries) ≡ false =
      ground (arith, bounded.few_files, size) in
    let valid_entries =
      validate_entries-Drafted id 0 [] patch.files entries (validate_transaction_id-plain id valid)
        drafted bounded.distinct bounded.safe_paths (all-Unseen patch.files) in
    rw (← ok-injective h4) (simp (absolute, some_entries, few_entries) valid_entries)
