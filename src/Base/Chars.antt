-- ===== src/Base/Chars.antt =====
-- `str::chars`: the code points of UTF-8 bytes, with the character classes that the crates test.
use Prim.Native.Nat.{ℕ, zero, suc, ◌+◌, ◌*◌, ◌%◌}
use mathlib.Core.Bool.{Bool, ◌&&◌, ◌||◌}
use mathlib.Core.List.{List, [], ◌∷◌}
use omarchy_premonition.Base.Tests.{ltb, leb, if◌then◌else◌}
use omarchy_premonition.Base.Str.{Text}

-- `more` continuation bytes are still to come for the code point begun as `acc`.
unfoldable pub chars_from : ℕ → ℕ → Text → List ℕ
chars_from more acc [] = []
chars_from zero acc (b ∷ bs) =
    let one = b ∷ chars_from zero zero bs in
    let two = chars_from 1 (b % 32) bs in
    let three = chars_from 2 (b % 16) bs in
    let four = chars_from 3 (b % 8) bs in
    if ltb b 0x80 then one else if ltb b 0xe0 then two else if ltb b 0xf0 then three else four
chars_from (suc zero) acc (b ∷ bs) = (acc * 64 + b % 64) ∷ chars_from zero zero bs
chars_from (suc (suc more)) acc (b ∷ bs) = chars_from (suc more) (acc * 64 + b % 64) bs

unfoldable pub chars : Text → List ℕ
unfolding chars_from
chars s = chars_from zero zero s

-- `char::is_control`: general category Cc.
abbrev pub is_control : ℕ → Bool
is_control c = ltb c 0x20 || (leb 0x7f c && leb c 0x9f)

-- '\u{202a}'..='\u{202e}' | '\u{2066}'..='\u{2069}'.
abbrev pub is_bidi_embedding : ℕ → Bool
is_bidi_embedding c = (leb 0x202a c && leb c 0x202e) || (leb 0x2066 c && leb c 0x2069)
