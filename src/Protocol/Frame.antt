-- ===== src/Protocol/Frame.antt =====
-- `encode_frame` and `decode_frame`: a big-endian length, then JSON. The JSON library is a
-- parameter: what `serde_json` writes for a value, and the value that it reads from bytes.
pub mod RoundTrip
use omarchy_premonition.Base.{
  ℕ, ◌+◌, ◌*◌, ◌/◌, ◌%◌, ◌^◌, not, ◌||◌, [], ◌∷◌, ◌++◌, Option, ltb, ◌==◌, Text, length, is_empty,
  Result, ◌>>=◌, ◌>>◌, reject, ok_or, ok, err,
}
use omarchy_premonition.Protocol.Error.{ProtocolError, max_frame_bytes}

abbrev pub to_be_bytes : ℕ → Text
to_be_bytes n = n / 16777216 % 256 ∷ n / 65536 % 256 ∷ n / 256 % 256 ∷ n % 256 ∷ []

abbrev pub from_be_bytes : ℕ → ℕ → ℕ → ℕ → ℕ
from_be_bytes a b c d = a * 16777216 + b * 65536 + c * 256 + d

module _ {T : Type 0} where
  -- `to_vec` is `serde_json::to_vec`.
  unfoldable pub encode_frame : (T → Option Text) → T → Result ProtocolError Text
  encode_frame to_vec value = do
    json ← ok_or (to_vec value) ProtocolError.invalid_json
    reject (is_empty json || ltb max_frame_bytes (length json)) ProtocolError.invalid_frame
    reject (not (ltb (length json) (2 ^ 32))) ProtocolError.invalid_frame
    ok (to_be_bytes (length json) ++ json)

  -- `from_slice` is `serde_json::from_slice`. A frame under five bytes has no four-byte prefix
  -- with a body.
  unfoldable pub decode_frame : (Text → Option T) → Text → Result ProtocolError T
  decode_frame from_slice (a ∷ b ∷ c ∷ d ∷ x ∷ body) = do
    let size = from_be_bytes a b c d
    reject (size == 0 || ltb max_frame_bytes size || not (length (x ∷ body) + 4 == size + 4))
        ProtocolError.invalid_frame
    ok_or (from_slice (x ∷ body)) ProtocolError.invalid_json
  decode_frame from_slice _ = err ProtocolError.invalid_frame
