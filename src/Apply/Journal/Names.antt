-- ===== src/Apply/Journal/Names.antt =====
-- The names of a transaction: its identifier, and the files beside the published ones.
use omarchy_premonition.Daemon.Jobs.Identifier.{proposal_text-IsPlainText}
use omarchy_premonition.Daemon.Jobs.{proposal_text}
use omarchy_premonition.Base.{
  ℕ, zero, suc, ◌+◌, ◌/◌, ◌%◌, ◌<◌, Bool, true, false, ◌||◌, [], ◌∷◌, ◌++◌, inl, inr, ◌≡◌, refl,
  arith, ltb, ◌==◌, ltb→lt, Bool-cases, Text, text, text_eq_refl, starts_with, contains,
  ends_with_text, is_ascii_alphanumeric, is_plain_byte, decimal_digits, decimal, length, is_empty,
  all, all-append, reject-eq-ok, ok,
}
use omarchy_premonition.Plain.{decimal-IsPlainText}
use omarchy_premonition.Apply.Journal.{entry_name, validate_transaction_id, is_transaction_filename}

starts_with-append : (p s : Text) → starts_with p (p ++ s) ≡ true
unfolding starts_with
starts_with-append [] s = refl
starts_with-append (b ∷ p) s = ground (arith, starts_with-append p s)

ends_with_text_self : (s : Text) → ends_with_text s s ≡ true
unfolding ends_with_text
ends_with_text_self [] = refl
ends_with_text_self (b ∷ s) = ground (arith, text_eq_refl (b ∷ s))

ends_with_text-append :
    (s t p : Text) → ends_with_text p t ≡ true → ends_with_text p (s ++ t) ≡ true
unfolding ends_with_text
ends_with_text-append [] t p h = h
ends_with_text-append (b ∷ s) t p h = ground (arith, ends_with_text-append s t p h)

plain-slashless : (s : Text) → all is_plain_byte s ≡ true → contains b'/' s ≡ false
unfolding all contains is_plain_byte is_ascii_alphanumeric
plain-slashless [] h = refl
plain-slashless (b ∷ s) h = ground (arith, plain-slashless s)

plain_id :
    (s : Text)
    → all (λ byte. is_ascii_alphanumeric byte || (byte == b'_' || byte == b'-')) s ≡ true
    → all is_plain_byte s ≡ true
unfolding all is_plain_byte
plain_id [] h = refl
plain_id (b ∷ s) h = ground (arith, plain_id s)

pub validate_transaction_id-plain :
    (id : Text) → validate_transaction_id id ≡ ok tt → all is_plain_byte id ≡ true
unfolding validate_transaction_id
validate_transaction_id-plain id h = plain_id id (ground (arith, reject-eq-ok _ _ h))

entry_name-plain :
    (id suffix : Text) (index : ℕ)
    → all is_plain_byte id ≡ true
    → all is_plain_byte suffix ≡ true
    → all is_plain_byte (entry_name id index suffix) ≡ true
unfolding entry_name
entry_name-plain id suffix index hid hs =
    let digits = (decimal-IsPlainText index).plain in
    rw
      (
        all-append is_plain_byte (text ".premonition-")
            (id ++ (text "-" ++ (decimal index ++ suffix))),
        all-append is_plain_byte id (text "-" ++ (decimal index ++ suffix)),
        hid,
        all-append is_plain_byte (text "-") (decimal index ++ suffix),
        all-append is_plain_byte (decimal index) suffix,
        digits,
        hs,
      )
      (unfold all is_plain_byte is_ascii_alphanumeric in refl)

entry_name-ends :
    (id suffix : Text) (index : ℕ) → ends_with_text suffix (entry_name id index suffix) ≡ true
unfolding entry_name
entry_name-ends id suffix index =
    let last = ends_with_text-append (decimal index) suffix suffix (ends_with_text_self suffix) in
    let dashed = ends_with_text-append (text "-") (decimal index ++ suffix) suffix last in
    let named = ends_with_text-append id (text "-" ++ (decimal index ++ suffix)) suffix dashed in
    ends_with_text-append (text ".premonition-") (id ++ (text "-" ++ (decimal index ++ suffix)))
      suffix named

entry_name-starts :
    (id suffix : Text) (index : ℕ)
    → starts_with (text ".premonition-") (entry_name id index suffix) ≡ true
unfolding entry_name
entry_name-starts id suffix index =
    starts_with-append (text ".premonition-") (id ++ (text "-" ++ (decimal index ++ suffix)))

pub entry_name-accepted :
    (id suffix : Text) (index : ℕ)
    → all is_plain_byte id ≡ true
    → all is_plain_byte suffix ≡ true
    → is_transaction_filename (entry_name id index suffix) suffix ≡ true
unfolding is_transaction_filename
entry_name-accepted id suffix index hid hs =
    let plain = entry_name-plain id suffix index hid hs in
    rw
      (
        entry_name-starts id suffix index,
        entry_name-ends id suffix index,
        plain-slashless (entry_name id index suffix) plain,
        plain,
      )
      refl

digit_named :
    (d : ℕ)
    → d < 10
    → (is_ascii_alphanumeric (b'0' + d) || (b'0' + d == b'_' || b'0' + d == b'-')) ≡ true
unfolding is_ascii_alphanumeric
digit_named d h = ground arith

abbrev named : ℕ → Bool
named byte = is_ascii_alphanumeric byte || (byte == b'_' || byte == b'-')

decimal_digits-named :
    (fuel n : ℕ) (acc : Text) → all named acc ≡ true → all named (decimal_digits fuel n acc) ≡ true
unfolding decimal_digits all
decimal_digits-named zero n acc h = h
decimal_digits-named (suc fuel) n acc h = elim (Bool-cases (ltb n 10)) [
  | inl last ↦ rw (last, digit_named n (ltb→lt n 10 last)) h
  | inr more ↦ rw more (
      decimal_digits-named fuel (n / 10) ((b'0' + n % 10) ∷ acc)
        (rw (digit_named (n % 10) (omega arith)) h))
]

decimal-named : (n : ℕ) → all named (decimal n) ≡ true
unfolding decimal all
decimal-named n = decimal_digits-named 20 n [] refl

proposal_text-named : (ms sequence : ℕ) → all named (proposal_text ms sequence) ≡ true
unfolding proposal_text
proposal_text-named ms sequence =
    rw
      (
        all-append named (text "p-") (decimal ms ++ (text "-" ++ decimal sequence)),
        all-append named (decimal ms) (text "-" ++ decimal sequence),
        decimal-named ms,
        all-append named (text "-") (decimal sequence),
        decimal-named sequence,
      )
      (unfold all is_ascii_alphanumeric in refl)

-- Apply accepts the identifier of every proposal that the daemon makes as the identifier of a
-- transaction.
pub validate_transaction_id-proposal_text :
    (ms sequence : ℕ) → validate_transaction_id (proposal_text ms sequence) ≡ ok tt
unfolding validate_transaction_id
validate_transaction_id-proposal_text ms sequence =
    let v = proposal_text-IsPlainText ms sequence in
    let some_bytes : is_empty (proposal_text ms sequence) ≡ false = ground (arith, v.long) in
    let few_bytes : ltb 64 (length (proposal_text ms sequence)) ≡ false = ground (arith, v.short) in
    rw (some_bytes, few_bytes, proposal_text-named ms sequence) refl
