-- ===== src/Diff/Headers.antt =====
-- The header lines of a patch: `diff --git`, `index` and `@@`.
use omarchy_premonition.Base.{
  ℕ, ◌+◌, ◌-◌, ◌*◌, ◌^◌, not, ◌&&◌, ◌||◌, List, [], ◌∷◌, Option, none, some, ltb, if◌then◌else◌,
  Text, text, text_eq, strip_prefix, strip_suffix, split, split_once, split_once_dots,
  is_ascii_digit, is_ascii_hexdigit, length, is_empty, all, Result, ◌>>=◌, ◌>>◌, reject, ok_or, ok,
  err,
}
use omarchy_premonition.Diff.Error.{DiffError}
use omarchy_premonition.Diff.SafePath.{SafePath}
use omarchy_premonition.Diff.SafePath

decimal_from : ℕ → Text → ℕ
decimal_from acc [] = acc
decimal_from acc (b ∷ bs) = decimal_from (acc * 10 + (b - b'0')) bs

-- `str::parse::<u64>` of digits: an error on overflow.
unfoldable pub parse_u64 : Text → Option ℕ
unfolding decimal_from
parse_u64 s = if ltb (decimal_from 0 s) (2 ^ 64) then some (decimal_from 0 s) else none

-- The four fields of a `diff --git` line.
pub diff_fields : List Text → Result DiffError (Text × Text)
diff_fields (f0 ∷ f1 ∷ f2 ∷ f3 ∷ []) =
    if text_eq f0 (text "diff") && text_eq f1 (text "--git")
    then ok (f2, f3)
    else err DiffError.malformed
diff_fields _ = err DiffError.malformed

unfoldable pub parse_diff_header : Text → Result DiffError SafePath
unfolding diff_fields
parse_diff_header line = do
  header ← ok_or (strip_suffix b'\n' line) DiffError.malformed
  (f2, f3) ← diff_fields (split b' ' header)
  old ← ok_or (strip_prefix (text "a/") f2) DiffError.unsafe_path
  new ← ok_or (strip_prefix (text "b/") f3) DiffError.unsafe_path
  reject (not (text_eq old new)) DiffError.header_mismatch
  SafePath.parse old

-- The second field of an `index` line with two fields, or with the mode as a third.
index_field : List Text → Result DiffError Text
index_field (f0 ∷ f1 ∷ []) = ok f1
index_field (f0 ∷ f1 ∷ f2 ∷ []) =
    if text_eq f2 (text "100644") then ok f1 else err DiffError.unsupported_feature
index_field _ = err DiffError.unsupported_feature

unfoldable pub validate_index_line : Text → Result DiffError (Unit {0})
unfolding index_field
validate_index_line line = do
  field ← index_field (split b' ' line)
  (old, new) ← ok_or (split_once_dots field) DiffError.malformed
  reject
      (ltb (length old) 7
        || ltb (length new) 7
        || not (all is_ascii_hexdigit old)
        || not (all is_ascii_hexdigit new))
      DiffError.malformed

unfoldable pub parse_range : Text → Result DiffError ℕ
parse_range value = do
  let parts : Text × Text = elim (split_once b',' value) [ none ↦ (value, text "1") | some p ↦ p ]
  let start = parts.0
  let count = parts.1
  reject
      (is_empty start
        || is_empty count
        || not (all is_ascii_digit start)
        || not (all is_ascii_digit count))
      DiffError.malformed
  _ ← ok_or (parse_u64 start) DiffError.malformed
  ok_or (parse_u64 count) DiffError.malformed

-- At least four fields, the first and the fourth `@@`.
hunk_fields : List Text → Result DiffError (Text × Text)
hunk_fields (f0 ∷ f1 ∷ f2 ∷ f3 ∷ rest) =
    if text_eq f0 (text "@@") && text_eq f3 (text "@@")
    then ok (f1, f2)
    else err DiffError.malformed
hunk_fields _ = err DiffError.malformed

unfoldable pub parse_hunk_header : Text → Result DiffError (ℕ × ℕ)
unfolding hunk_fields parse_range
parse_hunk_header line = do
  header ← ok_or (strip_suffix b'\n' line) DiffError.malformed
  (f1, f2) ← hunk_fields (split b' ' header)
  old ← ok_or (strip_prefix (text "-") f1) DiffError.malformed
  new ← ok_or (strip_prefix (text "+") f2) DiffError.malformed
  old_count ← parse_range old
  new_count ← parse_range new
  ok (old_count, new_count)
