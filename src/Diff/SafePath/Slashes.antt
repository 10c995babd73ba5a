-- ===== src/Diff/SafePath/Slashes.antt =====
-- What a text does not hold, by the components between its slashes.
use omarchy_premonition.Diff.SafePath.Join.{split-cons}
use omarchy_premonition.Base.{
  ℕ, true, false, List, [], ◌∷◌, inl, inr, ◌≡◌, refl, arith, ◌==◌, Bool-cases, Text, text,
  starts_with, ends_with, contains, contains_text, cons_head, split, is_plain_byte, is_empty, All,
}

-- Every component but the first has a byte.
abbrev RestNonempty : List Text → Type 0
RestNonempty [] = Unit
RestNonempty (e ∷ es) = All (λ c. is_empty c ≡ false) es

RestNonempty-cons_head : (c : ℕ) (es : List Text) → RestNonempty (cons_head c es) → RestNonempty es
RestNonempty-cons_head c [] h = tt
RestNonempty-cons_head c (e ∷ es) h = h

RestNonempty-slash :
    (c : ℕ) (s : Text)
    → (c == b'/') ≡ true
    → RestNonempty (split b'/' (c ∷ s))
    → All (λ e. is_empty e ≡ false) (split b'/' s)
unfolding split
RestNonempty-slash c s slash h = rw slash at h

pub All-RestNonempty : (es : List Text) → All (λ e. is_empty e ≡ false) es → RestNonempty es
All-RestNonempty [] h = tt
All-RestNonempty (e ∷ es) h = h.1

RestNonempty-tail :
    (c : ℕ) (s : Text) → RestNonempty (split b'/' (c ∷ s)) → RestNonempty (split b'/' s)
unfolding split
RestNonempty-tail c s h = elim (Bool-cases (c == b'/')) [
  | inl slash ↦ All-RestNonempty (split b'/' s) (RestNonempty-slash c s slash h)
  | inr other ↦ RestNonempty-cons_head c (split b'/' s) (rw other at h)
]

pub no_slash_first :
    (c : ℕ) (s : Text) → (c == b'/') ≡ true → All (λ e. is_empty e ≡ false) (split b'/' (c ∷ s)) → ⊥
unfolding split
no_slash_first c s slash h =
    let h' : All (λ e. is_empty e ≡ false) ([] ∷ split b'/' s) = rw slash at h in cc h'.0

not_double :
    (c : ℕ) (s : Text) → RestNonempty (split b'/' (c ∷ s)) → starts_with (text "//") (c ∷ s) ≡ false
unfolding starts_with
not_double c [] h = ground arith
not_double c (d ∷ s) h = elim (Bool-cases (c == b'/')) [
  | inl slash ↦ elim (Bool-cases (d == b'/')) [
    | inl double ↦ absurd (no_slash_first d s double (RestNonempty-slash c (d ∷ s) slash h))
    | inr single ↦ ground arith
  ]
  | inr other ↦ ground arith
]

pub no_double_slash : (s : Text) → RestNonempty (split b'/' s) → contains_text (text "//") s ≡ false
unfolding contains_text starts_with
no_double_slash [] h = refl
no_double_slash (c ∷ s) h =
    ground (arith, not_double c s h, no_double_slash s (RestNonempty-tail c s h))

pub no_last_slash : (s : Text) → RestNonempty (split b'/' s) → ends_with b'/' s ≡ false
unfolding ends_with split
no_last_slash [] h = refl
no_last_slash (c ∷ []) h = elim (Bool-cases (c == b'/')) [
  | inl slash ↦ absurd (cc (RestNonempty-slash c [] slash h).0)
  | inr other ↦ other
]
no_last_slash (c ∷ d ∷ s) h = no_last_slash (d ∷ s) (RestNonempty-tail c (d ∷ s) h)

-- Every byte of every component is plain.
abbrev pub PlainParts : List Text → Type 0
PlainParts = All (λ e. All (λ b. is_plain_byte b ≡ true) e)

PlainParts-cons_head :
    (c : ℕ) (e : Text) (es : List Text)
    → PlainParts (cons_head c (e ∷ es))
    → (is_plain_byte c ≡ true) × PlainParts (e ∷ es)
PlainParts-cons_head c e es h = (h.0.0, (h.0.1, h.1))

pub not_contained :
    (b : ℕ) (s : Text)
    → is_plain_byte b ≡ false
    → (b == b'/') ≡ false
    → PlainParts (split b'/' s)
    → contains b s ≡ false
unfolding contains split
not_contained b [] odd slash h = refl
not_contained b (c ∷ s) odd slash h =
    let (e, es, f) = split-cons s in
    elim (Bool-cases (c == b'/')) [
      | inl here ↦ ground (
        arith,
        not_contained b s odd slash
            (let h' : PlainParts ([] ∷ split b'/' s) = rw here at h in h'.1),
      )
      | inr other ↦
          let h' : PlainParts (cons_head c (e ∷ es)) = rw f at (rw other at h) in
          let (plain, parts) = PlainParts-cons_head c e es h' in
          let rest = not_contained b s odd slash (rw f parts) in
          elim (Bool-cases (c == b)) [
            | inl same ↦ let e' : c ≡ b = ground arith in absurd (cc (rw e' at plain))
            | inr distinct ↦ rw distinct rest
          ]
    ]
