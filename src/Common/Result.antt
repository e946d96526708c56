-- ===== src/Common/Result.antt =====
-- Calls that return a value or throw an error, and what a chain of them that returns says.
use mathlib.Core.Path.{◌≡◌, refl, ap}
use mathlib.Core.Logic.{◌⊎◌, inl, inr}
use mathlib.Core.Bool.{Bool, true, false}
use mathlib.Core.Option.{Option, none, some}

pub data Result (E A : Type 0) : Type 0 where
  throws : E → Result E A
  returns : A → Result E A

module _ {E : Type 0} where
  infixl 5 ◌>>=◌ ◌>>◌
  abbrev pub ◌>>=◌ : {A B : Type 0} → Result E A → (A → Result E B) → Result E B
  throws e >>= k = throws e
  returns a >>= k = k a

  abbrev pub ◌>>◌ : {B : Type 0} → Result E (Unit {0}) → Result E B → Result E B
  m >> k = m >>= λ _. k

  -- `if (!b) throw e`
  abbrev pub require : Bool → E → Result E (Unit {0})
  require true e = returns tt
  require false e = throws e

  -- `if (!row) throw e`
  abbrev pub or_throw : {A : Type 0} → Option A → E → Result E A
  or_throw none e = throws e
  or_throw (some a) e = returns a

  -- A chain that returns has passed its first call.
  pub bind-returns :
      {A B : Type 0} (m : Result E A) (k : A → Result E B) (b : B)
      → (m >>= k) ≡ returns b
      → (a : A) × (m ≡ returns a) × (k a ≡ returns b)
  bind-returns (throws e) k b h = absurd (cc)
  bind-returns (returns a) k b h = (a, refl, h)

  pub require-returns :
      {B : Type 0} (c : Bool) (e : E) (k : Unit {0} → Result E B) (b : B)
      → (require c e >>= k) ≡ returns b
      → (c ≡ true) × (k tt ≡ returns b)
  require-returns true e k b h = (refl, h)
  require-returns false e k b h = absurd (cc)

  pub or_throw-returns :
      {A B : Type 0} (o : Option A) (e : E) (k : A → Result E B) (b : B)
      → (or_throw o e >>= k) ≡ returns b
      → (a : A) × (o ≡ some a) × (k a ≡ returns b)
  or_throw-returns none e k b h = absurd (cc)
  or_throw-returns (some a) e k b h = (a, refl, h)

  -- A test that holds, and a row that is there, are passed.
  pub require_of_true :
      {B : Type 0} (c : Bool) (e : E) (k : Unit {0} → Result E B)
      → c ≡ true
      → (require c e >>= k) ≡ k tt
  require_of_true c e k h = ap (λ x. require x e >>= k) h

  pub or_throw_of_some :
      {A B : Type 0} (o : Option A) (e : E) (k : A → Result E B) (a : A)
      → o ≡ some a
      → (or_throw o e >>= k) ≡ k a
  or_throw_of_some o e k a h = ap (λ x. or_throw x e >>= k) h

  pub Result-cases :
      {A : Type 0} (m : Result E A) → ((e : E) × (m ≡ throws e)) ⊎ ((a : A) × (m ≡ returns a))
  Result-cases (throws e) = inl (e, refl)
  Result-cases (returns a) = inr (a, refl)
