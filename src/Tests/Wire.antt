-- ===== src/Tests/Wire.antt =====
-- The theorems on the wire contract and the patch parser at concrete inputs.
use omarchy_premonition.Diff.SafePath.{SafePath}
use omarchy_premonition.Protocol.Frame.RoundTrip.{decode_frame-encode_frame, decode_frame_shape}
use omarchy_premonition.Diff.Parse.Bounds.{parse-IsBounded, IsBounded}
use omarchy_premonition.Diff.SafePath
use omarchy_premonition.Diff.SafePath.Grammar.{parse_iff, IsPathText}
use omarchy_premonition.Base.{
  ◌≤◌, ◌<◌, [], ◌∷◌, ◌++◌, ◌↔◌, Option, some, ◌≡◌, refl, arith, Text, text, length, ok,
}
use omarchy_premonition.Tests.Patches.{main_rs, modify_patch, modify_parsed, parse-modify_patch}
use omarchy_premonition.Protocol.Frame.{encode_frame, decode_frame, to_be_bytes}
use omarchy_premonition.Protocol.Error.{max_frame_bytes}

-- A format that writes a text as itself.
abbrev write : Text → Option Text
write t = some t

abbrev frame : Text
frame = 0 ∷ 0 ∷ 0 ∷ 2 ∷ b'{' ∷ b'}' ∷ []

decode_frame-encode_frame_example :
    decode_frame write (0 ∷ 0 ∷ 0 ∷ 2 ∷ b'{' ∷ b'}' ∷ []) ≡ ok (text "{}")
unfolding encode_frame
decode_frame-encode_frame_example =
    decode_frame-encode_frame write write (λ v json h. cc) (text "{}")
      (0 ∷ 0 ∷ 0 ∷ 2 ∷ b'{' ∷ b'}' ∷ []) refl

decode_frame_shape_example :
    (json : Text) × (frame ≡ to_be_bytes (length json) ++ json)
    × (0 < length json)
    × (length json ≤ max_frame_bytes)
    × (write json ≡ some (text "{}"))
unfolding decode_frame
decode_frame_shape_example =
    decode_frame_shape write write (0 ∷ 0 ∷ 0 ∷ 2 ∷ b'{' ∷ b'}' ∷ []) (text "{}") (omega arith) refl

parse-IsBounded_example : IsBounded modify_patch modify_parsed
parse-IsBounded_example = parse-IsBounded modify_patch modify_parsed parse-modify_patch

parse_iff_example :
    (SafePath.parse (text "src/main.rs") ≡ ok main_rs)
    ↔ ((main_rs.as_str ≡ text "src/main.rs") × IsPathText (text "src/main.rs"))
parse_iff_example = parse_iff (text "src/main.rs") main_rs
