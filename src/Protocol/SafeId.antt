-- ===== src/Protocol/SafeId.antt =====
-- `SafeId`: an identifier that is safe in status output and on a command line.
use omarchy_premonition.Base.{
  ◌≤◌, ◌<◌, Bool, true, not, ◌||◌, ◌≡◌, ap, arith, ltb, if◌then◌else◌, Text, text_eq, text_eq_refl,
  text_eq_iff, is_plain_byte, length, is_empty, all, Result, ok, err,
}
use omarchy_premonition.Protocol.Error.{ProtocolError}

-- The newtype over `String`; `as_str` is its field.
pub record SafeId : Type 0 where
  pub as_str : Text

unfoldable pub new : Text → Result ProtocolError SafeId
new value =
    if is_empty value || ltb 64 (length value) || not (all is_plain_byte value)
    then err ProtocolError.invalid_identifier
    else ok (record { as_str = value })

-- `SafeId` derives `PartialEq`.
unfoldable pub eq : SafeId → SafeId → Bool
unfolding text_eq
eq a b = text_eq a.as_str b.as_str

-- What holds of every identifier that `new` returns.
pub record IsValid (id : SafeId) : Type 0 where
  pub nonempty : 0 < length id.as_str
  pub bounded : length id.as_str ≤ 64
  pub plain : all is_plain_byte id.as_str ≡ true

pub new-IsValid :
    (value : Text) {id : SafeId} → new value ≡ ok id → IsValid id × (id.as_str ≡ value)
unfolding new
new-IsValid value h = ground arith

pub new_of_IsValid : (id : SafeId) → IsValid id → new id.as_str ≡ ok id
unfolding new
new_of_IsValid id v = ground arith

pub eq→eq : (a b : SafeId) → eq a b ≡ true → a ≡ b
unfolding eq
eq→eq a b h = ap (λ (t : Text). record { as_str = t }) ((text_eq_iff a.as_str b.as_str).0 h)

pub eq_refl : (a : SafeId) → eq a a ≡ true
unfolding eq
eq_refl a = text_eq_refl a.as_str
