-- ===== src/Prelude/Fallible.antt =====
use mathlib.Core.Path.{◌≡◌, refl, subst}

-- Go's pair of a value and an error: `E` is the type of the errors that a component returns.
pub data Result (E A : Type 0) : Type 0 where
  err : E → Result E A
  ok : A → Result E A

module _ {E : Type 0} where
  infixl 5 ◌>>=◌
  -- a, err := m; if err != nil { return err }
  abbrev pub ◌>>=◌ : {A B : Type 0} → Result E A → (A → Result E B) → Result E B
  ◌>>=◌ m f = elim m [ ok a ↦ f a | err e ↦ err e ]

  infixl 5 ◌>>◌
  abbrev pub ◌>>◌ : {B : Type 0} → Result E (Unit {0}) → Result E B → Result E B
  ◌>>◌ m k = m >>= (λ _. k)

  -- A chain that ends well has taken its first step well, with some value for the rest.
  abbrev pub StepOf : {A B : Type 0} → Result E A → (A → Result E B) → B → Type 0
  StepOf {A} step rest last = (a : A) × (step ≡ ok a) × (rest a ≡ ok last)

  pub first_step :
      {A B : Type 0} (step : Result E A) (rest : A → Result E B) {last : B}
      → ◌>>=◌ step rest ≡ ok last
      → StepOf step rest last
  first_step (err e) rest ended = cc
  first_step (ok a) rest ended = (a, refl, ended)

-- What holds of a value if there is one.
abbrev pub Yields : {E A : Type 0} → (A → Type 0) → Result E A → Type 0
Yields P (err e) = Unit
Yields P (ok a) = P a

pub Yields-ok :
    {E A : Type 0} (P : A → Type 0) (r : Result E A) {a : A} → Yields P r → r ≡ ok a → P a
Yields-ok P (err e) h k = cc
Yields-ok P (ok b) h k = subst P (cc) h

pub Yields-bind :
    {E A B : Type 0} (P : A → Type 0) (Q : B → Type 0) (m : Result E A) (f : A → Result E B)
    → Yields P m
    → ((a : A) → P a → Yields Q (f a))
    → Yields Q (m >>= f)
Yields-bind P Q (err e) f h k = tt
Yields-bind P Q (ok a) f h k = k a h

pub ok_inj : {E A : Type 0} {a b : A} → ◌≡◌ {A = Result E A} (ok a) (ok b) → a ≡ b
ok_inj h = cc
