-- ===== src/Base/Results.antt =====
-- `Result<A, E>` with `?` as bind.
use mathlib.Core.Bool.{Bool, true, false, not}
use mathlib.Core.Option.{Option, none, some}
use mathlib.Core.Path.{◌≡◌, refl, subst, ap}

pub data Result {ℓ} (E : Type 0) (A : Type ℓ) : Type ℓ where
  ok : A → Result E A
  err : E → Result E A

module _ {E : Type 0} where
  infixl 5 ◌>>=◌ ◌>>◌
  abbrev pub ◌>>=◌ {ℓ κ} : {A : Type ℓ} {B : Type κ} → Result E A → (A → Result E B) → Result E B
  ok a >>= f = f a
  err e >>= f = err e

  abbrev pub ◌>>◌ {ℓ} : {B : Type ℓ} → Result E (Unit {0}) → Result E B → Result E B
  m >> k = m >>= λ _. k

  -- `if bad { return Err(e) }`.
  abbrev pub reject : Bool → E → Result E (Unit {0})
  reject true e = err e
  reject false e = ok tt

  -- `.ok_or(e)?`.
  abbrev pub ok_or {ℓ} : {A : Type ℓ} → Option A → E → Result E A
  ok_or none e = err e
  ok_or (some a) e = ok a

  pub ok-injective {ℓ} : {A : Type ℓ} {a b : A} → ◌≡◌ {A = Result E A} (ok a) (ok b) → a ≡ b
  ok-injective h = cc

  pub bind-eq-ok {ℓ κ} :
      {A : Type ℓ} {B : Type κ} (m : Result E A) (f : A → Result E B) {b : B}
      → (m >>= f) ≡ ok b
      → (a : A) × (m ≡ ok a) × (f a ≡ ok b)
  bind-eq-ok (ok a) f h = (a, refl, h)
  bind-eq-ok (err e) f h = cc

  -- What follows from the two steps of a chain.
  pub bind-eq-ok-elim {ℓ κ ι} :
      {A : Type ℓ} {B : Type κ} {C : Type ι} (m : Result E A) (f : A → Result E B) {b : B}
      → (m >>= f) ≡ ok b
      → ((a : A) → m ≡ ok a → f a ≡ ok b → C)
      → C
  bind-eq-ok-elim m f h k = let (a, e, rest) = bind-eq-ok m f h in k a e rest

  pub reject-eq-ok : (b : Bool) (e : E) {u : Unit {0}} → reject b e ≡ ok u → b ≡ false
  reject-eq-ok true e h = cc
  reject-eq-ok false e h = refl

  -- A test that must hold.
  pub passed : (b : Bool) (e : E) {u : Unit {0}} → reject (not b) e ≡ ok u → b ≡ true
  passed true e h = refl
  passed false e h = cc

  pub ok_or-eq-ok {ℓ} : {A : Type ℓ} (o : Option A) (e : E) {a : A} → ok_or o e ≡ ok a → o ≡ some a
  ok_or-eq-ok none e h = cc
  ok_or-eq-ok (some a) e h = cc

  abbrev pub is_ok {ℓ} : {A : Type ℓ} → Result E A → Bool
  is_ok (ok a) = true
  is_ok (err e) = false

  pub is_ok-ok : (r : Result E (Unit {0})) → is_ok r ≡ true → r ≡ ok tt
  is_ok-ok (ok u) h = refl
  is_ok-ok (err e) h = cc

-- `P` holds of the value, if there is one.
pub data Ensures {ℓ κ} {E : Type 0} {A : Type ℓ} (P : A → Type κ) : Result E A → Type (ℓ ⊔ κ) where
  succeeds : {a : A} → P a → Ensures P (ok a)
  fails : {e : E} → Ensures P (err e)

module _ {E : Type 0} where
  pub Ensures-bind {ℓ κ ι} :
      {A : Type ℓ} {B : Type κ} (P : B → Type ι) (m : Result E A) (f : A → Result E B)
      → ((a : A) → m ≡ ok a → Ensures P (f a))
      → Ensures P (m >>= f)
  Ensures-bind P (ok a) f h = h a refl
  Ensures-bind P (err e) f h = fails

  abbrev Holds {ℓ ι} : {A : Type ℓ} → (A → Type ι) → Result E A → Type ι
  Holds P (ok a) = P a
  Holds P (err e) = Unit

  Ensures-Holds {ℓ ι} : {A : Type ℓ} (P : A → Type ι) {r : Result E A} → Ensures P r → Holds P r
  Ensures-Holds P (succeeds p) = p
  Ensures-Holds P fails = tt

  pub Ensures_value {ℓ ι} :
      {A : Type ℓ} (P : A → Type ι) {r : Result E A} {a : A} → Ensures P r → r ≡ ok a → P a
  Ensures_value P h e = subst (Holds P) e (Ensures-Holds P h)

-- `.map_err(f)`.
abbrev pub map_err {ℓ} : {E F : Type 0} {A : Type ℓ} → (E → F) → Result E A → Result F A
map_err f (ok a) = ok a
map_err f (err e) = err (f e)

pub map_err-eq-ok {ℓ} :
    {E F : Type 0} {A : Type ℓ} (f : E → F) (m : Result E A) {a : A} → map_err f m ≡ ok a → m ≡ ok a
map_err-eq-ok {A = A} f (ok b) h = ap (λ (x : A). ok x) (ok-injective h)
map_err-eq-ok f (err e) h = cc
