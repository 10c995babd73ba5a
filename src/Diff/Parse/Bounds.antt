-- ===== src/Diff/Parse/Bounds.antt =====
-- What holds of every patch that is parsed.
use omarchy_premonition.Diff.Error.{DiffError}
use omarchy_premonition.Base.{
  ℕ, zero, suc, ◌+◌, ◌≤◌, ◌<◌, true, false, not, ◌||◌, List, [], ◌∷◌, ◌++◌, inl, inr, ◌≡◌, refl, ap,
  subst, arith, ltb, ◌==◌, not_ltb→le, Bool-cases, ||-eq-false, Text, text, starts_with, ends_with,
  contains, split_inclusive, length, is_empty, any, All, drop, All-append, reject, ok-injective,
  bind-eq-ok, reject-eq-ok, Ensures, Ensures-bind, Ensures_value, ok, succeeds,
}
use omarchy_premonition.Limits.{max_hunks, max_files, max_patch_bytes, max_diff_line_bytes}
use omarchy_premonition.Diff.SafePath.{SafePath}
use omarchy_premonition.Diff.SafePath
use omarchy_premonition.Diff.SafePath.Grammar.{IsPathText}
use omarchy_premonition.Diff.Parse.Paths.{
  DistinctPaths, DistinctPaths-append, Recorded, Recorded-cons, Recorded-append, Recorded-fresh,
  parse_diff_header-IsPathText,
}
use omarchy_premonition.Diff.Headers.{parse_diff_header}
use omarchy_premonition.Diff.Parse.{
  parse, FileChange, HunkTotals, Progress, hunk, hunks, section, ChangeKind, ParsedPatch, sections,
  no_progress, metadata_lines, next_two, file_name, change_kind, no_metadata,
}

pub file_hunks_sum : List FileChange → ℕ
file_hunks_sum [] = 0
file_hunks_sum (f ∷ fs) = f.hunks + file_hunks_sum fs

file_hunks_sum-append :
    (fs : List FileChange) (f : FileChange)
    → file_hunks_sum (fs ++ f ∷ []) ≡ file_hunks_sum fs + f.hunks
unfolding file_hunks_sum
file_hunks_sum-append [] f = omega arith
file_hunks_sum-append (g ∷ fs) f = omega (arith, file_hunks_sum-append fs f)

record IsProgress (p : Progress) : Type 0 where
  recorded : Recorded p.seen p.files
  distinct : DistinctPaths p.files
  few_files : length p.files ≤ max_files
  few_hunks : p.total_hunks ≤ max_hunks
  counted : p.total_hunks ≡ file_hunks_sum p.files
  nonempty : All (λ f. 0 < f.hunks) p.files
  safe_paths : All (λ f. IsPathText f.path.as_str) p.files

-- The totals of a file move on together from `t`, and stay within the limit.
abbrev Continues : HunkTotals → HunkTotals → Type 0
Continues t u =
    (t.total_hunks + u.file_hunks ≡ u.total_hunks + t.file_hunks) × (u.total_hunks ≤ max_hunks)

Continues-trans : (t u w : HunkTotals) → Continues t u → Continues u w → Continues t w
Continues-trans t u w h k = (omega arith, k.1)

hunk-Continues :
    (t : HunkTotals) (line : Text) (lines : List Text) {u : HunkTotals} {n : ℕ}
    → hunk t line lines ≡ ok (u, n)
    → Continues t u
unfolding hunk
hunk-Continues t line lines h = ground arith

hunks-Continues :
    (skip : ℕ) (t : HunkTotals) (lines : List Text)
    → t.total_hunks ≤ max_hunks
    → Ensures (λ r. Continues t r.0) (hunks skip t lines)
unfolding hunks
hunks-Continues skip t [] h = succeeds (omega arith, h)
hunks-Continues (suc skip) t (line ∷ lines) h =
    Ensures-bind _ _ _ λ r e. succeeds (Ensures_value _ (hunks-Continues skip t lines h) e)
hunks-Continues zero t (line ∷ lines) h =
    elim (Bool-cases (starts_with (text "diff --git ") line)) [
      | inl stops ↦ rw stops (succeeds (omega arith, h))
      | inr goes ↦ rw goes (
          Ensures-bind _ _ _ λ u e. Ensures-bind _ _ _ λ w f.
            let first = hunk-Continues t line lines e in
            succeeds (
              Continues-trans t _ _ first
                (Ensures_value _ (hunks-Continues u.1 u.0 lines first.1) f)))
    ]

abbrev extend : Progress → SafePath → ChangeKind → HunkTotals → Progress
extend p path kind t = record {
  files = p.files ++ (record { path = path; kind = kind; hunks = t.file_hunks } ∷ []);
  seen = path ∷ p.seen;
  total_hunks = t.total_hunks;
}

extend-IsProgress :
    (p : Progress) (path : SafePath) (kind : ChangeKind) (t : HunkTotals)
    → IsProgress p
    → any (SafePath.eq path) p.seen ≡ false
    → Continues (record { file_hunks = 0; total_hunks = p.total_hunks }) t
    → 0 < t.file_hunks
    → length (extend p path kind t).files ≤ max_files
    → IsPathText path.as_str
    → IsProgress (extend p path kind t)
extend-IsProgress p path kind t v fresh moved some_hunks few safe = record {
  recorded =
      Recorded-append (path ∷ p.seen) p.files _ (Recorded-cons path p.seen p.files v.recorded)
        (unfold any in ground (arith, SafePath.eq_refl path));
  distinct =
      DistinctPaths-append p.files _ v.distinct
        (Recorded-fresh path p.seen p.files v.recorded fresh);
  few_files = few;
  few_hunks = moved.1;
  counted = omega (
    arith,
    file_hunks_sum-append p.files (record { path = path; kind = kind; hunks = t.file_hunks }),
    v.counted,
  );
  nonempty = All-append (λ (f : FileChange). 0 < f.hunks) p.files _ v.nonempty (some_hunks, tt);
  safe_paths =
      All-append (λ (f : FileChange). IsPathText f.path.as_str) p.files _ v.safe_paths (safe, tt);
}

section-IsProgress :
    (p : Progress) (line : Text) (lines : List Text) {q : Progress} {n : ℕ}
    → IsProgress p
    → section p line lines ≡ ok (q, n)
    → IsProgress q
unfolding section
section-IsProgress p line lines {q} {n} v h =
    let (path, e0, h0) = bind-eq-ok (parse_diff_header line) _ h in
    let (u1, fresh, h1) =
      bind-eq-ok (reject (any (SafePath.eq path) p.seen) DiffError.duplicate_path) _ h0 in
    let (meta, e2, h2) = bind-eq-ok (metadata_lines no_metadata lines) _ h1 in
    let (pair, e3, h3) = bind-eq-ok (next_two (drop meta.1 lines)) _ h2 in
    let (old, e4, h4) = bind-eq-ok (file_name (text "--- ") pair.0) _ h3 in
    let (new, e5, h5) = bind-eq-ok (file_name (text "+++ ") pair.1) _ h4 in
    let (kind, e6, h6) = bind-eq-ok (change_kind path meta.0 old new) _ h5 in
    let (counts, e7, h7) =
      bind-eq-ok (hunks 0 (record { file_hunks = 0; total_hunks = p.total_hunks }) pair.2) _ h6 in
    let (u8, some_hunks, h8) =
      bind-eq-ok (reject (counts.0.file_hunks == 0) DiffError.no_hunks) _ h7 in
    let (u9, few, h9) =
      bind-eq-ok
        (reject (ltb max_files (length (extend p path kind counts.0).files))
          DiffError.too_many_files)
        _ h8 in
    subst IsProgress (ap (λ (r : Progress × ℕ). r.0) (ok-injective h9)) (
      extend-IsProgress p path kind counts.0 v (reject-eq-ok _ _ fresh)
        (Ensures_value _ (hunks-Continues 0 _ pair.2 v.few_hunks) e7)
        (ground (arith, reject-eq-ok _ _ some_hunks)) (ground (arith, reject-eq-ok _ _ few))
        (parse_diff_header-IsPathText line path e0))

sections-IsProgress :
    (skip : ℕ) (p : Progress) (lines : List Text) {q : Progress}
    → IsProgress p
    → sections skip p lines ≡ ok q
    → IsProgress q
unfolding sections
sections-IsProgress skip p [] v h = subst IsProgress (ok-injective h) v
sections-IsProgress (suc skip) p (line ∷ lines) v h = sections-IsProgress skip p lines v h
sections-IsProgress zero p (line ∷ lines) v h =
    let (r, e, rest) = bind-eq-ok (section p line lines) _ h in
    sections-IsProgress r.1 r.0 lines (section-IsProgress p line lines v e) rest

any-false-All :
    (lines : List Text)
    → any (λ line. ltb max_diff_line_bytes (length line)) lines ≡ false
    → All (λ line. length line ≤ max_diff_line_bytes) lines
unfolding any
any-false-All [] h = tt
any-false-All (line ∷ lines) h =
    let (long, rest) = ||-eq-false _ _ h in
    (not_ltb→le max_diff_line_bytes (length line) long, any-false-All lines rest)

-- Patch bodies and their file lists are bounded, and the parts agree.
pub record IsBounded (raw : Text) (p : ParsedPatch) : Type 0 where
  pub keeps_raw : p.raw ≡ raw
  pub some_bytes : 0 < length raw
  pub few_bytes : length raw ≤ max_patch_bytes
  pub ends : ends_with b'\n' raw ≡ true
  pub short_lines : All (λ line. length line ≤ max_diff_line_bytes) (split_inclusive b'\n' raw)
  pub no_nul : contains 0 raw ≡ false
  pub no_return : contains b'\r' raw ≡ false
  pub some_files : 0 < length p.files
  pub few_files : length p.files ≤ max_files
  pub few_hunks : p.hunks ≤ max_hunks
  pub counted : p.hunks ≡ file_hunks_sum p.files
  pub nonempty : All (λ f. 0 < f.hunks) p.files
  pub distinct : DistinctPaths p.files
  pub safe_paths : All (λ f. IsPathText f.path.as_str) p.files

-- A patch that parses keeps its text, which is not empty, has at most `max_patch_bytes` bytes, ends in a
-- line feed and holds no NUL and no carriage return, and none of whose lines, with its line feed, has
-- more than `max_diff_line_bytes` bytes; it changes 1 to `max_files` files, each of a path in the
-- grammar of safe paths and no path twice, with at least one hunk in each file and at most
-- `max_hunks` in all, and the recorded total is the sum over the files.
pub parse-IsBounded : (raw : Text) (p : ParsedPatch) → parse raw ≡ ok p → IsBounded raw p
unfolding parse
parse-IsBounded raw p h =
    let (u1, sized, h1) =
      bind-eq-ok (reject (is_empty raw || ltb max_patch_bytes (length raw)) DiffError.patch_size) _
        h in
    let (u2, formed, h2) =
      bind-eq-ok
        (reject (not (ends_with b'\n' raw) || contains 0 raw || contains b'\r' raw)
          DiffError.malformed)
        _ h1 in
    let (u3, narrow, h3) =
      bind-eq-ok
        (reject (any (λ line. ltb max_diff_line_bytes (length line)) (split_inclusive b'\n' raw))
          DiffError.line_size)
        _ h2 in
    let (q, e, h4) = bind-eq-ok (sections 0 no_progress (split_inclusive b'\n' raw)) _ h3 in
    let (u5, some_files, h5) = bind-eq-ok (reject (is_empty q.files) DiffError.no_files) _ h4 in
    let v = sections-IsProgress 0 no_progress _ start e in
    subst (IsBounded raw) (ok-injective h5) (record {
      keeps_raw = refl;
      some_bytes = ground (arith, reject-eq-ok _ _ sized);
      few_bytes = ground (arith, reject-eq-ok _ _ sized);
      ends = ground (arith, reject-eq-ok _ _ formed);
      short_lines = any-false-All (split_inclusive b'\n' raw) (reject-eq-ok _ _ narrow);
      no_nul = ground (arith, reject-eq-ok _ _ formed);
      no_return = ground (arith, reject-eq-ok _ _ formed);
      some_files = ground (arith, reject-eq-ok _ _ some_files);
      few_files = v.few_files;
      few_hunks = v.few_hunks;
      counted = v.counted;
      nonempty = v.nonempty;
      distinct = v.distinct;
      safe_paths = v.safe_paths;
    })
  where
    start : IsProgress no_progress
    start = record {
      recorded = tt;
      distinct = tt;
      few_files = omega arith;
      few_hunks = omega arith;
      counted = unfold file_hunks_sum in refl;
      nonempty = tt;
      safe_paths = tt;
    }
