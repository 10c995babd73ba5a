-- ===== src/Base/Utf8.antt =====
-- `String::from_utf8`: which bytes are UTF-8, and the ends of lines of such a text.
use Prim.Native.Nat.{ℕ, ◌-◌}
use mathlib.Core.Bool.{Bool, false, ◌&&◌, ◌||◌}
use mathlib.Core.List.{[], ◌∷◌}
use mathlib.Core.Option.{Option, none, some}
use omarchy_premonition.Base.Tests.{ltb, leb, ◌==◌, if◌then◌else◌}
use omarchy_premonition.Base.Str.{Text}

abbrev pub between : ℕ → ℕ → ℕ → Bool
between low high b = leb low b && leb b high

-- How many bytes follow a leading byte, and the range of the first of them.
unfoldable pub leading_byte : ℕ → Option (ℕ × ℕ × ℕ)
leading_byte b =
    if ltb b 0x80
    then some (0, 0x80, 0xbf)
    else if between 0xc2 0xdf b
    then some (1, 0x80, 0xbf)
    else if b == 0xe0
    then some (2, 0xa0, 0xbf)
    else if b == 0xed
    then some (2, 0x80, 0x9f)
    else if between 0xe1 0xef b
    then some (2, 0x80, 0xbf)
    else if b == 0xf0
    then some (3, 0x90, 0xbf)
    else if between 0xf1 0xf3 b
    then some (3, 0x80, 0xbf)
    else if b == 0xf4
    then some (3, 0x80, 0x8f)
    else none

unfoldable pub next_byte : ℕ → ℕ → ℕ → ℕ → Option (ℕ × ℕ × ℕ)
unfolding leading_byte
next_byte more low high b =
    if more == 0
    then leading_byte b
    else if between low high b
    then some (more - 1, 0x80, 0xbf)
    else none

unfoldable pub is_utf8_from : ℕ → ℕ → ℕ → Text → Bool
unfolding next_byte
is_utf8_from more low high [] = more == 0
is_utf8_from more low high (b ∷ s) = elim (next_byte more low high b) [
  | none ↦ false
  | some (m, l, h) ↦ is_utf8_from m l h s
]

abbrev pub is_utf8 : Text → Bool
is_utf8 s = is_utf8_from 0 0x80 0xbf s

-- `str::trim_end_matches(['\r', '\n'])`.
unfoldable pub trim_line_ends : Text → Text
trim_line_ends [] = []
trim_line_ends (c ∷ s) = elim (trim_line_ends s) [
  | [] ↦ if c == 0x0d || c == 0x0a then [] else c ∷ []
  | d ∷ r ↦ c ∷ d ∷ r
]
