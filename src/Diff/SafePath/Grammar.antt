-- ===== src/Diff/SafePath/Grammar.antt =====
-- The grammar that `SafePath::parse` accepts, stated on its own.
use omarchy_premonition.Diff.SafePath.Slashes.{
  not_contained, no_slash_first, no_last_slash, no_double_slash, PlainParts, All-RestNonempty,
}
use omarchy_premonition.Diff.Error.{DiffError}
use omarchy_premonition.Diff.SafePath.Join.{split-cons, join, join-split, Slashless, split-join}
use omarchy_premonition.Diff.SafePath.{is_safe_component, SafePath, is_ambiguous, parse}
use omarchy_premonition.Base.{
  ℕ, ◌≤◌, ◌<◌, true, false, not, List, [], ◌∷◌, ◌≢◌, ◌↔◌, inl, inr, ◌≡◌, refl, sym, ap, ◌∙◌, arith,
  ltb, ◌==◌, Bool-cases, Text, text, text_eq, text_eq→eq, eq→text_eq, starts_with, contains, split,
  is_ascii_alphanumeric, eq_ignore_ascii_case, is_plain_byte, length, is_empty, all, All, All-all,
  all-All, reject, ok-injective, bind-eq-ok, reject-eq-ok, ok,
}

-- A component: 1 to 120 bytes, each an ASCII letter, a digit, a dot, an underscore or a dash, that is
-- not `.`, `..` or `.git` in any case.
pub record IsComponent (c : Text) : Type 0 where
  pub nonempty : 0 < length c
  pub short : length c ≤ 120
  pub not_dot : c ≢ text "."
  pub not_dots : c ≢ text ".."
  pub not_git : eq_ignore_ascii_case c (text ".git") ≡ false
  pub plain : All (λ b. is_plain_byte b ≡ true) c

pub is_safe_component-IsComponent : (c : Text) → is_safe_component c ≡ true → IsComponent c
unfolding is_safe_component
is_safe_component-IsComponent c h = record {
  nonempty = ground arith;
  short = ground arith;
  not_dot = λ e. ground (arith, eq→text_eq c (text ".") e);
  not_dots = λ e. ground (arith, eq→text_eq c (text "..") e);
  not_git = ground arith;
  plain = All-all is_plain_byte c (ground arith);
}

pub IsComponent-is_safe_component : (c : Text) → IsComponent c → is_safe_component c ≡ true
unfolding is_safe_component
IsComponent-is_safe_component c v =
    let sized : ltb 120 (length c) ≡ false = ground (arith, v.short) in
    let some_byte : is_empty c ≡ false = ground (arith, v.nonempty) in
    let plain = all-All is_plain_byte c v.plain in
    let dot : text_eq c (text ".") ≡ false = ground (arith, text_eq→eq c (text "."), v.not_dot) in
    let dots : text_eq c (text "..") ≡ false =
      ground (arith, text_eq→eq c (text ".."), v.not_dots) in
    rw (some_byte, sized, dot, dots, v.not_git, plain) refl

-- The text of a path: one or more components with single slashes between them, 240 bytes at most.
abbrev pub IsPathText : Text → Type 0
IsPathText s =
    (length s ≤ 240)
    × ((c : Text) × (cs : List Text) × (s ≡ join (c ∷ cs)) × All IsComponent (c ∷ cs))

All-components : (es : List Text) → all is_safe_component es ≡ true → All IsComponent es
unfolding all
All-components [] h = tt
All-components (e ∷ es) h =
    (is_safe_component-IsComponent e (ground arith), All-components es (ground arith))

all-components : (es : List Text) → All IsComponent es → all is_safe_component es ≡ true
unfolding all
all-components [] h = refl
all-components (e ∷ es) h = rw (IsComponent-is_safe_component e h.0) (all-components es h.1)

parts_of : (es : List Text) → All IsComponent es → PlainParts es × All (λ e. is_empty e ≡ false) es
parts_of [] h = (tt, tt)
parts_of (e ∷ es) h =
    let (plain, some_bytes) = parts_of es h.1 in
    ((h.0.plain, plain), (ground (arith, h.0.nonempty), some_bytes))

slashless_byte : (b : ℕ) → is_plain_byte b ≡ true → (b == b'/') ≡ false
unfolding is_plain_byte is_ascii_alphanumeric
slashless_byte b h = ground arith

Slashless-part : (e : Text) → All (λ b. is_plain_byte b ≡ true) e → Slashless e
Slashless-part [] h = tt
Slashless-part (b ∷ e) h = (slashless_byte b h.0, Slashless-part e h.1)

Slashless-parts : (es : List Text) → All IsComponent es → All Slashless es
Slashless-parts [] h = tt
Slashless-parts (e ∷ es) h = (Slashless-part e h.0.plain, Slashless-parts es h.1)

not_first : (b : ℕ) (s : Text) → contains b s ≡ false → starts_with (b ∷ []) s ≡ false
unfolding contains starts_with
not_first b [] h = refl
not_first b (c ∷ s) h = ground arith

no_first_slash :
    (s : Text)
    → All (λ e. is_empty e ≡ false) (split b'/' s)
    → (is_empty s ≡ false) × (starts_with (text "/") s ≡ false)
unfolding starts_with split
no_first_slash [] h = cc h.0
no_first_slash (c ∷ s) h = elim (Bool-cases (c == b'/')) [
  | inl slash ↦ absurd (no_slash_first c s slash h)
  | inr other ↦ (refl, ground arith)
]

not_ambiguous :
    (s : Text) → length s ≤ 240 → All IsComponent (split b'/' s) → is_ambiguous s ≡ false
unfolding is_ambiguous
not_ambiguous s short h =
    let (plain, some_bytes) = parts_of (split b'/' s) h in
    let rest = All-RestNonempty (split b'/' s) some_bytes in
    let (nonempty, relative) = no_first_slash s some_bytes in
    let sized : ltb 240 (length s) ≡ false = ground (arith, short) in
    let no_nul =
      not_contained 0 s (unfold is_plain_byte is_ascii_alphanumeric in refl) refl plain in
    let no_backslash =
      not_contained 0x5c s (unfold is_plain_byte is_ascii_alphanumeric in refl) refl plain in
    let no_quote =
      not_first 34 s
        (not_contained 34 s (unfold is_plain_byte is_ascii_alphanumeric in refl) refl plain) in
    rw
      (
        nonempty,
        sized,
        relative,
        no_last_slash s rest,
        no_nul,
        no_backslash,
        no_double_slash s rest,
        no_quote,
      )
      refl

not_ambiguous-short : (s : Text) → is_ambiguous s ≡ false → length s ≤ 240
unfolding is_ambiguous
not_ambiguous-short s h = ground arith

parse-eq-ok : (s : Text) (p : SafePath) → parse s ≡ ok p → (p.as_str ≡ s) × IsPathText s
unfolding parse
parse-eq-ok s p h =
    let (u, clear, h1) = bind-eq-ok (reject (is_ambiguous s) DiffError.unsafe_path) _ h in
    let (v, safe, h2) =
      bind-eq-ok (reject (not (all is_safe_component (split b'/' s))) DiffError.unsafe_path) _ h1 in
    let (e, es, f) = split-cons s in
    let parts = All-components (split b'/' s) (ground (arith, reject-eq-ok _ _ safe)) in
    (
      ap (λ (q : SafePath). q.as_str) (sym (ok-injective h2)),
      (
        not_ambiguous-short s (reject-eq-ok _ _ clear),
        (e, es, sym (join-split s) ∙ ap join f, rw f at parts),
      ),
    )

eq-ok-parse : (s : Text) (p : SafePath) → p.as_str ≡ s → IsPathText s → parse s ≡ ok p
unfolding parse
eq-ok-parse s p same (short, (c, cs, joined, parts)) =
    let f : split b'/' s ≡ c ∷ cs =
      ap (split b'/') joined ∙ split-join c cs (Slashless-parts (c ∷ cs) parts) in
    let parts' : All IsComponent (split b'/' s) = rw f parts in
    rw (not_ambiguous s short parts', all-components (split b'/' s) parts')
      (ap (λ (t : Text). ok (record { as_str = t })) (sym same))

-- `SafePath::parse` accepts a text exactly if it is one or more components with single slashes
-- between them, of at most 240 bytes, each component 1 to 120 ASCII letters, digits, dots,
-- underscores and dashes, and none of them `.`, `..` or `.git` in any case; the path is that text.
pub parse_iff : (s : Text) (p : SafePath) → (parse s ≡ ok p) ↔ ((p.as_str ≡ s) × IsPathText s)
parse_iff s p = (parse-eq-ok s p, λ h. eq-ok-parse s p h.0 h.1)
