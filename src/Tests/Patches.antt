-- ===== src/Tests/Patches.antt =====
-- The patches of the unit tests in crates/premonition-core/src/diff.rs.
use omarchy_premonition.Base.{
  [], ◌∷◌, ◌++◌, ◌≡◌, refl, Text, text, text_eq, strip_prefix, starts_with, strip_suffix, ends_with,
  contains, contains_text, split, split_inclusive, split_once, split_once_dots, trim_end_matches,
  is_ascii_hexdigit, eq_ignore_ascii_case, is_plain_byte, all, any, ok, err,
}
use omarchy_premonition.Diff.Error.{DiffError}
use omarchy_premonition.Diff.SafePath.{SafePath}
use omarchy_premonition.Diff.SafePath
use omarchy_premonition.Diff.Headers.{
  parse_diff_header, validate_index_line, parse_hunk_header, parse_u64,
}
use omarchy_premonition.Diff.Parse.{
  ChangeKind, ParsedPatch, parse, ends_hunk, sections, section, hunks, hunk, hunk_body, hunk_line,
  metadata_lines, metadata_line, file_name, next_two, change_kind,
}

-- Opens everything that a run of the parser goes through.
unfoldable pub evaluates : Unit {0}
unfolding parse sections section hunks hunk hunk_body hunk_line metadata_lines metadata_line
    file_name next_two change_kind parse_diff_header validate_index_line parse_hunk_header
    SafePath.parse SafePath.is_ambiguous SafePath.is_safe_component split_inclusive ends_hunk split
    strip_prefix strip_suffix starts_with ends_with contains contains_text any all is_plain_byte
    is_ascii_hexdigit eq_ignore_ascii_case text_eq split_once split_once_dots trim_end_matches
    parse_u64 SafePath.eq
evaluates = tt

abbrev pub modify_patch : Text
modify_patch =
    text
      "diff --git a/src/main.rs b/src/main.rs\nindex 7898192..422c2b7 100644\n--- a/src/main.rs\n+++ b/src/main.rs\n@@ -1 +1 @@\n-old\n+new\n"

abbrev pub main_rs : SafePath
main_rs = record { as_str = text "src/main.rs" }

abbrev pub modify_parsed : ParsedPatch
modify_parsed = record {
  raw = modify_patch;
  files = record { path = main_rs; kind = ChangeKind.modify; hunks = 1 } ∷ [];
  hunks = 1;
}

pub parse-modify_patch : parse modify_patch ≡ ok modify_parsed
unfolding evaluates
parse-modify_patch = refl

parse-duplicate : parse (modify_patch ++ modify_patch) ≡ err DiffError.duplicate_path
unfolding evaluates
parse-duplicate = refl
