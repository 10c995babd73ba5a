-- ===== src/Diff/SafePath/Join.antt =====
-- Splitting a text at its slashes, and joining it again.
use omarchy_premonition.Base.{
  ℕ, false, List, [], ◌∷◌, ◌++◌, inl, inr, ◌≡◌, refl, ap, ◌∙◌, arith, ◌==◌, Bool-cases, Text,
  cons_head, split, All,
}

-- The components with a slash between each two.
abbrev pub join : List Text → Text
join [] = []
join (c ∷ []) = c
join (c ∷ d ∷ cs) = c ++ b'/' ∷ join (d ∷ cs)

join_slash :
    (c : Text) (cs : List Text) (e : Text) (es : List Text)
    → cs ≡ e ∷ es
    → join (c ∷ cs) ≡ c ++ b'/' ∷ join cs
join_slash c [] e es h = cc
join_slash c (d ∷ cs) e es h = refl

pub split-cons : (s : Text) → (e : Text) × (es : List Text) × (split b'/' s ≡ e ∷ es)
unfolding split
split-cons [] = ([], [], refl)
split-cons (c ∷ s) =
    let (e, es, h) = split-cons s in
    elim (Bool-cases (c == b'/')) [
      | inl slash ↦ ([], split b'/' s, rw slash refl)
      | inr other ↦ (c ∷ e, es, rw (other, h) refl)
    ]

join-cons_head :
    (c : ℕ) (e : Text) (es : List Text) → join (cons_head c (e ∷ es)) ≡ c ∷ join (e ∷ es)
join-cons_head c e [] = refl
join-cons_head c e (d ∷ es) = refl

pub join-split : (s : Text) → join (split b'/' s) ≡ s
unfolding split
join-split [] = refl
join-split (c ∷ s) =
    let (e, es, h) = split-cons s in
    elim (Bool-cases (c == b'/')) [
      | inl slash ↦
          let same : b'/' ≡ c = ground arith in
          rw slash (
            join_slash [] (split b'/' s) e es h
            ∙ ap (λ (t : Text). b'/' ∷ t) (join-split s)
            ∙ ap (λ (b : ℕ). b ∷ s) same)
      | inr other ↦
          rw (other, h) (join-cons_head c e es ∙ ap (λ (t : Text). c ∷ t) (rw h at (join-split s)))
    ]

-- No byte is a slash.
abbrev pub Slashless : Text → Type 0
Slashless = All (λ b. (b == b'/') ≡ false)

split_one : (c : Text) → Slashless c → split b'/' c ≡ c ∷ []
unfolding split
split_one [] h = refl
split_one (b ∷ c) h = rw (h.0, split_one c h.1) refl

split_first : (c s : Text) → Slashless c → split b'/' (c ++ b'/' ∷ s) ≡ c ∷ split b'/' s
unfolding split
split_first [] s h = refl
split_first (b ∷ c) s h = rw (h.0, split_first c s h.1) refl

pub split-join :
    (c : Text) (cs : List Text) → All Slashless (c ∷ cs) → split b'/' (join (c ∷ cs)) ≡ c ∷ cs
split-join c [] h = split_one c h.0
split-join c (d ∷ cs) h = rw (split_first c (join (d ∷ cs)) h.0, split-join d cs h.1) refl
