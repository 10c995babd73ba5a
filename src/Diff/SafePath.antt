-- ===== src/Diff/SafePath.antt =====
-- `SafePath`: a repository-relative path in a narrow ASCII grammar.
pub mod Join
pub mod Slashes
pub mod Grammar
use omarchy_premonition.Base.{
  Bool, true, not, ◌||◌, ◌≡◌, ap, ltb, Text, text, text_eq, text_eq→eq, text_eq_refl, starts_with,
  ends_with, contains, contains_text, split, eq_ignore_ascii_case, is_plain_byte, length, is_empty,
  all, Result, ◌>>◌, reject, ok,
}
use omarchy_premonition.Diff.Error.{DiffError}

-- The newtype over `String`; `as_str` is its field.
pub record SafePath : Type 0 where
  pub as_str : Text

unfoldable pub is_safe_component : Text → Bool
unfolding text_eq
is_safe_component component = not (
    is_empty component
    || ltb 120 (length component)
    || (text_eq component (text ".") || text_eq component (text ".."))
    || eq_ignore_ascii_case component (text ".git")
    || not (all is_plain_byte component))

unfoldable pub is_ambiguous : Text → Bool
is_ambiguous value =
    is_empty value
    || ltb 240 (length value)
    || starts_with (text "/") value
    || ends_with b'/' value
    || contains 0 value
    || contains 0x5c value
    || contains_text (text "//") value
    || starts_with (text "\"") value

unfoldable pub parse : Text → Result DiffError SafePath
parse value = do
  reject (is_ambiguous value) DiffError.unsafe_path
  reject (not (all is_safe_component (split b'/' value))) DiffError.unsafe_path
  ok (record { as_str = value })

-- `SafePath` derives `Ord`; the sets of paths use only its equality.
unfoldable pub eq : SafePath → SafePath → Bool
unfolding text_eq
eq a b = text_eq a.as_str b.as_str

pub eq→eq : (a b : SafePath) → eq a b ≡ true → a ≡ b
unfolding eq
eq→eq a b h = ap (λ (t : Text). record { as_str = t }) (text_eq→eq a.as_str b.as_str h)

pub eq_refl : (a : SafePath) → eq a a ≡ true
unfolding eq
eq_refl a = text_eq_refl a.as_str
