-- ===== src/Daemon/State/Bounds.antt =====
-- The length and the entries of a bounded deque.
use omarchy_premonition.Daemon.State.{push_bounded}
use omarchy_premonition.Base.{
  ℕ, ◌-◌, ◌≤◌, ◌<◌, List, [], ◌∷◌, inl, inr, arith, ◌==◌, Bool-cases, length, All, drop,
  length-append, All-append,
}

module _ {ℓ} {A : Type ℓ} where
  drop-le : (q : List A) → length (drop 1 q) ≤ length q - 1
  drop-le [] = omega arith
  drop-le (a ∷ q) = omega arith

  drop-All {κ} : (P : A → Type κ) (q : List A) → All P q → All P (drop 1 q)
  drop-All P [] h = tt
  drop-All P (a ∷ q) h = h.1

  pub push_bounded-le :
      (limit : ℕ) (q : List A) (a : A)
      → 0 < limit
      → length q ≤ limit
      → length (push_bounded limit q a) ≤ limit
  unfolding push_bounded
  push_bounded-le limit q a pos h = elim (Bool-cases (length q == limit)) [
    | inl full ↦ rw full (omega (arith, length-append (drop 1 q) (a ∷ []), drop-le q))
    | inr room ↦
        let below : length q < limit = ground arith in
        rw room (omega (arith, length-append q (a ∷ [])))
  ]

  pub push_bounded-All {κ} :
      (P : A → Type κ) (limit : ℕ) (q : List A) (a : A)
      → All P q
      → P a
      → All P (push_bounded limit q a)
  unfolding push_bounded
  push_bounded-All P limit q a h ha = elim (Bool-cases (length q == limit)) [
    | inl full ↦ rw full (All-append P (drop 1 q) (a ∷ []) (drop-All P q h) (ha, tt))
    | inr room ↦ rw room (All-append P q (a ∷ []) h (ha, tt))
  ]
