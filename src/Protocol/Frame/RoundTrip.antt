-- ===== src/Protocol/Frame/RoundTrip.antt =====
-- Decoding what was encoded, and the shape of the frames that decode.
use omarchy_premonition.Base.{
  ℕ, ◌/◌, ◌%◌, ◌≤◌, ◌<◌, [], ◌∷◌, ◌++◌, inl, inr, Option, some, ◌≡◌, refl, sym, ap, arith,
  Option-cases, Text, length, All, ok,
}
use omarchy_premonition.Protocol.Error.{max_frame_bytes}
use omarchy_premonition.Protocol.Frame.{encode_frame, decode_frame, to_be_bytes, from_be_bytes}

pub be_bytes_inverse :
    (n : ℕ)
    → n < 4294967296
    → from_be_bytes (n / 16777216 % 256) (n / 65536 % 256) (n / 256 % 256) (n % 256) ≡ n
be_bytes_inverse n h = omega arith

to_be_bytes-inverse :
    (a b c d : ℕ)
    → a < 256
    → b < 256
    → c < 256
    → d < 256
    → to_be_bytes (from_be_bytes a b c d) ≡ a ∷ b ∷ c ∷ d ∷ []
to_be_bytes-inverse a b c d ha hb hc hd =
    let p : from_be_bytes a b c d / 16777216 % 256 ≡ a = omega arith in
    let q : from_be_bytes a b c d / 65536 % 256 ≡ b = omega arith in
    let r : from_be_bytes a b c d / 256 % 256 ≡ c = omega arith in
    let s : from_be_bytes a b c d % 256 ≡ d = omega arith in rw (p, q, r, s) refl

module _ {T : Type 0} (to_vec : T → Option Text) (from_slice : Text → Option T) where
  decode_frame-json :
      (json : Text) (v : T)
      → 0 < length json
      → length json ≤ max_frame_bytes
      → from_slice json ≡ some v
      → decode_frame from_slice (to_be_bytes (length json) ++ json) ≡ ok v
  unfolding decode_frame
  decode_frame-json [] v pos bound h = elim pos [ ]
  decode_frame-json (x ∷ body) v pos bound h =
      rw (be_bytes_inverse (length (x ∷ body)) (omega arith)) (ground arith)

  encode_frame-eq-ok :
      (v : T) (frame : Text)
      → encode_frame to_vec v ≡ ok frame
      → (json : Text) × (to_vec v ≡ some json)
        × (0 < length json)
        × (length json ≤ max_frame_bytes)
        × (to_be_bytes (length json) ++ json ≡ frame)
  unfolding encode_frame
  encode_frame-eq-ok v frame h = elim (Option-cases (to_vec v)) [
    | inl e ↦ absurd (ground arith)
    | inr (json, e) ↦ (json, e, ground arith, ground arith, ground arith)
  ]

  -- A frame that was encoded is decoded to the value it was encoded from, if the JSON library reads
  -- back what it writes.
  pub decode_frame-encode_frame :
      ((v : T) (json : Text) → to_vec v ≡ some json → from_slice json ≡ some v)
      → (v : T) (frame : Text) → encode_frame to_vec v ≡ ok frame
      → decode_frame from_slice frame ≡ ok v
  decode_frame-encode_frame serde v frame h =
      let (json, e, pos, bound, shape) = encode_frame-eq-ok v frame h in
      rw (← shape) (decode_frame-json json v pos bound (serde v json e))

  -- A frame of bytes is accepted only if it is the big-endian length of a JSON body, of 1 to
  -- `max_frame_bytes` bytes, followed by exactly that body; the value is what the JSON library reads
  -- from the body.
  pub decode_frame_shape :
      (frame : Text) (v : T)
      → All (λ b. b < 256) frame
      → decode_frame from_slice frame ≡ ok v
      → (json : Text) × (frame ≡ to_be_bytes (length json) ++ json)
        × (0 < length json)
        × (length json ≤ max_frame_bytes)
        × (from_slice json ≡ some v)
  unfolding decode_frame
  decode_frame_shape [] v bytes h = absurd (ground arith)
  decode_frame_shape (a ∷ []) v bytes h = absurd (ground arith)
  decode_frame_shape (a ∷ b ∷ []) v bytes h = absurd (ground arith)
  decode_frame_shape (a ∷ b ∷ c ∷ []) v bytes h = absurd (ground arith)
  decode_frame_shape (a ∷ b ∷ c ∷ d ∷ []) v bytes h = absurd (ground arith)
  decode_frame_shape (a ∷ b ∷ c ∷ d ∷ x ∷ body) v bytes h =
      let size : length (x ∷ body) ≡ from_be_bytes a b c d = ground arith in
      let prefix = to_be_bytes-inverse a b c d bytes.0 bytes.1.0 bytes.1.1.0 bytes.1.1.1.0 in
      (
        x ∷ body,
        rw size (ap (λ (p : Text). p ++ x ∷ body) (sym prefix)),
        ground arith,
        ground arith,
        ground arith,
      )
