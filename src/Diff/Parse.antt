-- ===== src/Diff/Parse.antt =====
-- `ParsedPatch::parse`. The loops over `lines[index..]` are recursions on the lines that are left;
-- a nested loop returns how many lines it consumed, and the loop around it skips that many.
pub mod Paths
pub mod Bounds
use omarchy_premonition.Base.{
  ℕ, zero, suc, ◌+◌, ◌^◌, Bool, true, false, not, ◌&&◌, ◌||◌, List, [], ◌∷◌, ◌++◌, ltb, ◌==◌,
  if◌then◌else◌, Text, text, text_eq, strip_prefix, starts_with, strip_suffix, ends_with, contains,
  split_inclusive, trim_end_matches, length, is_empty, any, drop, Result, ◌>>=◌, ◌>>◌, reject,
  ok_or, ok, err,
}
use omarchy_premonition.Limits.{max_patch_bytes, max_diff_line_bytes, max_hunks, max_files}
use omarchy_premonition.Diff.Error.{DiffError}
use omarchy_premonition.Diff.SafePath.{SafePath}
use omarchy_premonition.Diff.SafePath
use omarchy_premonition.Diff.Headers.{parse_diff_header, validate_index_line, parse_hunk_header}

pub data ChangeKind : Type 0 where
  modify add delete : ChangeKind

pub record FileChange : Type 0 where
  pub path : SafePath
  pub kind : ChangeKind
  pub hunks : ℕ

pub record ParsedPatch : Type 0 where
  pub raw : Text
  pub files : List FileChange
  pub hunks : ℕ

-- The flags of the metadata loop.
pub record Metadata : Type 0 where
  pub declared_add : Bool
  pub declared_delete : Bool
  pub saw_index : Bool

unfoldable pub metadata_line : Metadata → Text → Result DiffError Metadata
metadata_line m line =
    let metadata = trim_end_matches b'\n' line in
    if text_eq metadata (text "new file mode 100644") && not m.declared_add && not m.declared_delete
    then ok (record m { declared_add = true })
    else if text_eq metadata (text "deleted file mode 100644")
        && not m.declared_add
        && not m.declared_delete
    then ok (record m { declared_delete = true })
    else if starts_with (text "index ") metadata && not m.saw_index
    then validate_index_line metadata >> ok (record m { saw_index = true })
    else err DiffError.unsupported_feature

-- The flags, and the number of metadata lines.
unfoldable pub metadata_lines : Metadata → List Text → Result DiffError (Metadata × ℕ)
metadata_lines m [] = ok (m, 0)
metadata_lines m (line ∷ lines) =
    if starts_with (text "--- ") line
    then ok (m, 0)
    else do m' ← metadata_line m line; (last, n) ← metadata_lines m' lines; ok (last, suc n)

-- `lines[index]` and `lines[index + 1]`, with what follows them.
unfoldable pub next_two : List Text → Result DiffError (Text × Text × List Text)
next_two (old ∷ new ∷ rest) = ok (old, new, rest)
next_two _ = err DiffError.malformed

unfoldable pub file_name : Text → Text → Result DiffError Text
file_name marker line = do
  named ← ok_or (strip_prefix marker line) DiffError.malformed
  ok_or (strip_suffix b'\n' named) DiffError.malformed

unfoldable pub change_kind : SafePath → Metadata → Text → Text → Result DiffError ChangeKind
change_kind path m old new =
    let expected_old = text "a/" ++ path.as_str in
    let expected_new = text "b/" ++ path.as_str in
    if text_eq old (text "/dev/null") && text_eq new expected_new && m.declared_add
    then ok ChangeKind.add
    else if text_eq new (text "/dev/null") && text_eq old expected_old && m.declared_delete
    then ok ChangeKind.delete
    else if text_eq old expected_old
        && text_eq new expected_new
        && not m.declared_add
        && not m.declared_delete
    then ok ChangeKind.modify
    else err DiffError.header_mismatch

-- `u64::checked_add(1)`.
unfoldable pub checked_increment : ℕ → Result DiffError ℕ
checked_increment n = if ltb (n + 1) (2 ^ 64) then ok (n + 1) else err DiffError.malformed

abbrev pub no_newline : Text
no_newline = text "\\ No newline at end of file\n"

-- One line of a hunk, counted by its first byte.
unfoldable pub hunk_line : ℕ → ℕ → Text → Result DiffError (ℕ × ℕ)
unfolding checked_increment
hunk_line old new [] = err DiffError.malformed
hunk_line old new (b ∷ line) =
    if b == b' '
    then (checked_increment old >>= λ old'. checked_increment new >>= λ new'. ok (old', new'))
    else if b == b'-'
    then (checked_increment old >>= λ old'. ok (old', new))
    else if b == b'+'
    then (checked_increment new >>= λ new'. ok (old, new'))
    else if text_eq (b ∷ line) no_newline
    then ok (old, new)
    else err DiffError.malformed

unfoldable pub ends_hunk : Text → Bool
ends_hunk line = starts_with (text "@@ ") line || starts_with (text "diff --git ") line

-- The lines seen of the old and of the new file, and the number of lines read.
unfoldable pub hunk_body : ℕ → ℕ → List Text → Result DiffError (ℕ × ℕ × ℕ)
hunk_body old new [] = ok (old, new, 0)
hunk_body old new (line ∷ lines) = if ends_hunk line then ok (old, new, 0) else do
  (old', new') ← hunk_line old new line
  (old_seen, new_seen, n) ← hunk_body old' new' lines
  ok (old_seen, new_seen, suc n)

pub record HunkTotals : Type 0 where
  pub file_hunks : ℕ
  pub total_hunks : ℕ

-- One hunk: its new totals and the length of its body.
unfoldable pub hunk : HunkTotals → Text → List Text → Result DiffError (HunkTotals × ℕ)
hunk t line lines = do
  reject (not (starts_with (text "@@ ") line)) DiffError.malformed
  (old_count, new_count) ← parse_hunk_header line
  (old_seen, new_seen, n) ← hunk_body 0 0 lines
  reject (not (old_seen == old_count) || not (new_seen == new_count)) DiffError.hunk_count
  reject (ltb max_hunks (t.total_hunks + 1)) DiffError.too_many_hunks
  ok (record { file_hunks = t.file_hunks + 1; total_hunks = t.total_hunks + 1 }, n)

-- The hunks of one file, with the number of their lines; the first argument is how many lines of a
-- hunk's body are still to be skipped.
unfoldable pub hunks : ℕ → HunkTotals → List Text → Result DiffError (HunkTotals × ℕ)
hunks skip t [] = ok (t, 0)
hunks (suc skip) t (line ∷ lines) = do (last, n) ← hunks skip t lines; ok (last, suc n)
hunks zero t (line ∷ lines) =
    if starts_with (text "diff --git ") line
    then ok (t, 0)
    else do (t', body) ← hunk t line lines; (last, n) ← hunks body t' lines; ok (last, suc n)

-- The variables of the outer loop.
pub record Progress : Type 0 where
  pub files : List FileChange
  pub seen : List SafePath
  pub total_hunks : ℕ

abbrev pub no_metadata : Metadata
no_metadata = record { declared_add = false; declared_delete = false; saw_index = false }

-- One file section, with the number of lines behind its first.
unfoldable pub section : Progress → Text → List Text → Result DiffError (Progress × ℕ)
section p line lines = do
  path ← parse_diff_header line
  reject (any (SafePath.eq path) p.seen) DiffError.duplicate_path
  (m, metadata) ← metadata_lines no_metadata lines
  (old_line, new_line, rest) ← next_two (drop metadata lines)
  old ← file_name (text "--- ") old_line
  new ← file_name (text "+++ ") new_line
  kind ← change_kind path m old new
  (t, n) ← hunks 0 (record { file_hunks = 0; total_hunks = p.total_hunks }) rest
  reject (t.file_hunks == 0) DiffError.no_hunks
  let files = p.files ++ (record { path = path; kind = kind; hunks = t.file_hunks } ∷ [])
  reject (ltb max_files (length files)) DiffError.too_many_files
  ok (record { files = files; seen = path ∷ p.seen; total_hunks = t.total_hunks }, metadata + 2 + n)

unfoldable pub sections : ℕ → Progress → List Text → Result DiffError Progress
sections skip p [] = ok p
sections (suc skip) p (line ∷ lines) = sections skip p lines
sections zero p (line ∷ lines) = do (p', n) ← section p line lines; sections n p' lines

abbrev pub no_progress : Progress
no_progress = record { files = []; seen = []; total_hunks = 0 }

unfoldable pub parse : Text → Result DiffError ParsedPatch
parse raw = do
  reject (is_empty raw || ltb max_patch_bytes (length raw)) DiffError.patch_size
  reject (not (ends_with b'\n' raw) || contains 0 raw || contains b'\r' raw) DiffError.malformed
  let lines = split_inclusive b'\n' raw
  reject (any (λ line. ltb max_diff_line_bytes (length line)) lines) DiffError.line_size
  p ← sections 0 no_progress lines
  reject (is_empty p.files) DiffError.no_files
  ok (record { raw = raw; files = p.files; hunks = p.total_hunks })
