-- ===== src/Base/Effect.antt =====
-- Results, and code that reads and changes a world and may fail.
use mathlib.Core.Path.{◌≡◌, refl, subst}
use mathlib.Core.Logic.{◌⊎◌, inl, inr}

-- Go's `(T, error)`: a value, or an error that is not nil.
pub data Result {ℓ κ} (E : Type ℓ) (A : Type κ) : Type (ℓ ⊔ κ) where
  ok : A → Result E A
  err : E → Result E A

pub Result-cases {ℓ κ} :
    {E : Type ℓ} {A : Type κ} (r : Result E A) → ((a : A) × (r ≡ ok a)) ⊎ ((e : E) × (r ≡ err e))
Result-cases (ok a) = inl (a, refl)
Result-cases (err e) = inr (e, refl)

abbrev pub Eff : Type 0 → Type 0 → Type 0 → Type 0
Eff W E A = W → Result E A × W

module _ {W E A B : Type 0} where
  abbrev pub continue : (A → W → Result E B × W) → Result E A × W → Result E B × W
  continue f (ok a, w) = f a w
  continue f (err e, w) = (err e, w)

  infixl 5 ◌>>=◌
  abbrev pub ◌>>=◌ : Eff W E A → (A → Eff W E B) → Eff W E B
  ◌>>=◌ m f w = continue f (m w)

module _ {W E B : Type 0} where
  infixl 5 ◌>>◌
  abbrev pub ◌>>◌ : Eff W E (Unit {0}) → Eff W E B → Eff W E B
  m >> k = m >>= λ _. k

module _ {W E A : Type 0} where
  abbrev pub return : A → Eff W E A
  return a w = (ok a, w)

  abbrev pub throw : E → Eff W E A
  throw e w = (err e, w)

  -- A computation that leaves the world alone.
  abbrev pub pure : Result E A → Eff W E A
  pure r w = (r, w)

-- `fmt.Errorf("…: %w", err)`
abbrev pub wrap_error {ℓ κ μ} :
    {E : Type ℓ} {F : Type κ} {A : Type μ} → (E → F) → Result E A → Result F A
wrap_error f (ok a) = ok a
wrap_error f (err e) = err (f e)

module _ {W E F A : Type 0} where
  abbrev pub wrapping : (E → F) → Eff W E A → Eff W F A
  wrapping f m w = let (r, w') = m w in (wrap_error f r, w')

pub wrap_error-eq-ok {ℓ κ μ} :
    {E : Type ℓ} {F : Type κ} {A : Type μ} (f : E → F) (r : Result E A) {a : A}
    → wrap_error f r ≡ ok a
    → r ≡ ok a
wrap_error-eq-ok f (ok b) h = cc
wrap_error-eq-ok f (err e) h = cc

ok-injective {ℓ κ} :
    {E : Type ℓ} {A : Type κ} {a b : A} → ◌≡◌ {A = Result E A} (ok a) (ok b) → a ≡ b
ok-injective h = cc

-- What is returned, if anything is, meets a condition.
module _ {W E A : Type 0} (P : A → Type 0) where
  abbrev pub Yields : Result E A × W → Type 0
  Yields (ok a, w) = P a
  Yields (err e, w) = Unit

  pub Yields_of_ok : (out : Result E A × W) {a : A} → out.0 ≡ ok a → Yields out → P a
  Yields_of_ok (ok b, w) h y = subst P (ok-injective h) y
  Yields_of_ok (err e, w) h y = cc

  pub Yields-continue :
      {B : Type 0} (f : B → W → Result E A × W) (out : Result E B × W)
      → ((b : B) (w : W) → out.0 ≡ ok b → Yields (f b w))
      → Yields (continue f out)
  Yields-continue f (ok b, w) h = h b w refl
  Yields-continue f (err e, w) h = tt

-- What is returned, if anything is, and the world behind it meet a condition.
module _ {W E A : Type 0} (P : A → W → Type 0) where
  abbrev pub Leaves : Result E A × W → Type 0
  Leaves (ok a, w) = P a w
  Leaves (err e, w) = Unit

  pub Leaves_of_ok : (out : Result E A × W) {a : A} → out.0 ≡ ok a → Leaves out → P a out.1
  Leaves_of_ok (ok b, w) h y = subst (λ a. P a w) (ok-injective h) y
  Leaves_of_ok (err e, w) h y = cc

  pub Leaves-continue :
      {B : Type 0} (f : B → W → Result E A × W) (out : Result E B × W)
      → ((b : B) → out.0 ≡ ok b → Leaves (f b out.1))
      → Leaves (continue f out)
  Leaves-continue f (ok b, w) h = h b refl
  Leaves-continue f (err e, w) h = tt

  pub Yields-of_Leaves :
      (Q : A → Type 0)
      → ((a : A) (w : W) → P a w → Q a)
      → (out : Result E A × W) → Leaves out
      → Yields Q out
  Yields-of_Leaves Q imp (ok a, w) h = imp a w h
  Yields-of_Leaves Q imp (err e, w) h = tt

-- What holds of the world and is kept by both parts is kept by their sequence.
module _ {W E : Type 0} (R : W → Type 0) where
  pub continue-keeps :
      {A B : Type 0} (f : B → W → Result E A × W) (out : Result E B × W)
      → R out.1
      → ((b : B) (w : W) → R w → R (f b w).1)
      → R (continue f out).1
  continue-keeps f (ok b, w) h then = then b w h
  continue-keeps f (err e, w) h then = h
