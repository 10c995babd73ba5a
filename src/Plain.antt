-- ===== src/Plain.antt =====
-- Texts of plain bytes, printed integers among them.
use omarchy_premonition.Base.{
  ℕ, zero, suc, ◌+◌, ◌/◌, ◌%◌, ◌≤◌, ◌<◌, true, [], ◌∷◌, ◌++◌, inl, inr, ◌≡◌, refl, arith, ltb,
  ltb→lt, Bool-cases, Text, is_plain_byte, decimal_digits, decimal, length, all, length-append,
  all-append,
}

-- A text of plain bytes, of a length between the bounds.
pub record IsPlainText (low high : ℕ) (s : Text) : Type 0 where
  pub long : low ≤ length s
  pub short : length s ≤ high
  pub plain : all is_plain_byte s ≡ true

is_plain_byte-digit : (d : ℕ) → d < 10 → is_plain_byte (b'0' + d) ≡ true
unfolding is_plain_byte
is_plain_byte-digit d h = ground arith

pub IsPlainText-append :
    (low high low' high' : ℕ) (s t : Text)
    → IsPlainText low high s
    → IsPlainText low' high' t
    → IsPlainText (low + low') (high + high') (s ++ t)
IsPlainText-append low high low' high' s t v w = record {
  long = omega (arith, length-append s t, v.long, w.long);
  short = omega (arith, length-append s t, v.short, w.short);
  plain = ground (arith, all-append is_plain_byte s t, v.plain, w.plain);
}

IsPlainText-cons :
    (low high b : ℕ) (s : Text)
    → is_plain_byte b ≡ true
    → IsPlainText low high s
    → IsPlainText low (high + 1) (b ∷ s)
IsPlainText-cons low high b s h v = record {
  long = omega (arith, v.long);
  short = omega (arith, v.short);
  plain = unfold all in ground (arith, v.plain);
}

IsPlainText-mono :
    (low high high' : ℕ) (s : Text)
    → high ≤ high'
    → IsPlainText low high s
    → IsPlainText low high' s
IsPlainText-mono low high high' s h v = record {
  long = v.long;
  short = omega (arith, v.short);
  plain = v.plain;
}

decimal_digits-IsPlainText :
    (fuel n low high : ℕ) (acc : Text)
    → IsPlainText low high acc
    → IsPlainText low (high + fuel) (decimal_digits fuel n acc)
unfolding decimal_digits
decimal_digits-IsPlainText zero n low high acc v =
    IsPlainText-mono low high (high + 0) acc (omega arith) v
decimal_digits-IsPlainText (suc fuel) n low high acc v = elim (Bool-cases (ltb n 10)) [
  | inl last ↦ rw last (
      IsPlainText-mono low (high + 1) (high + suc fuel) _ (omega arith)
        (IsPlainText-cons low high _ acc (is_plain_byte-digit n (ltb→lt n 10 last)) v))
  | inr more ↦ rw more (
      IsPlainText-mono low (high + 1 + fuel) (high + suc fuel) _ (omega arith) (
        decimal_digits-IsPlainText fuel (n / 10) low (high + 1) _
          (IsPlainText-cons low high _ acc (is_plain_byte-digit (n % 10) (omega arith)) v)))
]

pub decimal-IsPlainText : (n : ℕ) → IsPlainText 0 20 (decimal n)
unfolding decimal
decimal-IsPlainText n =
    decimal_digits-IsPlainText 20 n 0 0 []
      (record { long = omega arith; short = omega arith; plain = unfold all in refl })
