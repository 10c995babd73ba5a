-- ===== src/Daemon/Jobs/Unique.antt =====
-- What the text of a proposal's identifier tells of the time and the sequence number in it.
use omarchy_premonition.Daemon.Jobs.{proposal_text}
use omarchy_premonition.Base.{
  ℕ, zero, suc, ◌+◌, ◌-◌, ◌*◌, ◌/◌, ◌%◌, ◌^◌, ◌<◌, [], ◌∷◌, ◌++◌, ◌≢◌, inl, inr, ◌≡◌, refl, sym, ap,
  ◌∙◌, arith, ltb, Bool-cases, Text, decimal_digits, decimal, All,
}

-- The number that decimal digits denote, from the left, on top of `acc`.
abbrev digits_value : ℕ → Text → ℕ
digits_value acc [] = acc
digits_value acc (b ∷ s) = digits_value (acc * 10 + (b - b'0')) s

pow_suc : (k : ℕ) → 10 ^ suc k ≡ 10 * 10 ^ k
pow_suc k = omega arith

decimal_digits-value :
    (fuel n : ℕ) (acc : Text)
    → n < 10 ^ suc fuel
    → digits_value 0 (decimal_digits (suc fuel) n acc) ≡ digits_value n acc
unfolding decimal_digits
decimal_digits-value zero n acc h = elim (Bool-cases (ltb n 10)) [
  | inl last ↦ rw last (ap (λ (m : ℕ). digits_value m acc) (omega arith))
  | inr more ↦ absurd (ground arith)
]
decimal_digits-value (suc fuel) n acc h = elim (Bool-cases (ltb n 10)) [
  | inl last ↦ rw last (ap (λ (m : ℕ). digits_value m acc) (omega arith))
  | inr more ↦ rw more (
      decimal_digits-value fuel (n / 10) ((b'0' + n % 10) ∷ acc) (omega (arith, pow_suc (suc fuel)))
      ∙ ap (λ (m : ℕ). digits_value m acc) (omega arith))
]

decimal-value : (n : ℕ) → n < 10 ^ 20 → digits_value 0 (decimal n) ≡ n
unfolding decimal
decimal-value n h = decimal_digits-value 19 n [] h

-- No byte is a dash.
abbrev Dashless : Text → Type 0
Dashless = All (λ b. b ≢ b'-')

decimal_digits-Dashless :
    (fuel n : ℕ) (acc : Text) → Dashless acc → Dashless (decimal_digits fuel n acc)
unfolding decimal_digits
decimal_digits-Dashless zero n acc h = h
decimal_digits-Dashless (suc fuel) n acc h = elim (Bool-cases (ltb n 10)) [
  | inl last ↦ rw last ((λ e. absurd (omega arith)), h)
  | inr more ↦ rw more (decimal_digits-Dashless fuel (n / 10) _ ((λ e. absurd (omega arith)), h))
]

decimal-Dashless : (n : ℕ) → Dashless (decimal n)
unfolding decimal
decimal-Dashless n = decimal_digits-Dashless 20 n [] tt

before_dash :
    (s t u v : Text) → Dashless s → Dashless t → s ++ b'-' ∷ u ≡ t ++ b'-' ∷ v → (s ≡ t) × (u ≡ v)
before_dash [] [] u v hs ht e = (refl, cc)
before_dash [] (b ∷ t) u v hs ht e = absurd (ht.0 cc)
before_dash (a ∷ s) [] u v hs ht e = absurd (hs.0 cc)
before_dash (a ∷ s) (b ∷ t) u v hs ht e =
    let (same, rest) = before_dash s t u v hs.1 ht.1 cc in (cc, rest)

decimal-injective : (m n : ℕ) → m < 2 ^ 64 → n < 2 ^ 64 → decimal m ≡ decimal n → m ≡ n
decimal-injective m n hm hn e =
    sym (decimal-value m (omega arith)) ∙ ap (digits_value 0) e ∙ decimal-value n (omega arith)

-- Two identifiers of proposals are equal only if they were made at the same millisecond with the same
-- sequence number, both being 64-bit integers.
pub proposal_text-injective :
    (ms ms' sequence sequence' : ℕ)
    → ms < 2 ^ 64
    → ms' < 2 ^ 64
    → sequence < 2 ^ 64
    → sequence' < 2 ^ 64
    → proposal_text ms sequence ≡ proposal_text ms' sequence'
    → (ms ≡ ms') × (sequence ≡ sequence')
unfolding proposal_text
proposal_text-injective ms ms' sequence sequence' hm hm' hs hs' e =
    let (times, counts) =
      before_dash (decimal ms) (decimal ms') (decimal sequence) (decimal sequence')
        (decimal-Dashless ms) (decimal-Dashless ms') cc in
    (decimal-injective ms ms' hm hm' times, decimal-injective sequence sequence' hs hs' counts)
