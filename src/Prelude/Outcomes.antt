-- ===== src/Prelude/Outcomes.antt =====
-- What a Go function that returns an error does: it returns a value, returns an error, or panics
-- (a nil dereference, a failed type assertion, an index out of range, a call of Panic).
use mathlib.Core.Path.{◌≡◌, refl}
use mathlib.Core.Option.{Option, none, some}
use mathlib.Core.Logic.{◌⊎◌, inl, inr}

pub data Outcome {ℓ} (E A : Type ℓ) : Type ℓ where
  ok : A → Outcome E A
  err : E → Outcome E A
  panic : Outcome E A

module _ {ℓ} {E A B : Type ℓ} where
  abbrev pub bind : Outcome E A → (A → Outcome E B) → Outcome E B
  bind (ok a) f = f a
  bind (err e) f = err e
  bind panic f = panic

  infixl 5 ◌>>=◌
  abbrev pub ◌>>=◌ : Outcome E A → (A → Outcome E B) → Outcome E B
  m >>= f = bind m f

  pub >>=-eq-ok :
      (o : Outcome E A) (next : A → Outcome E B) {v : B}
      → (o >>= next) ≡ ok v
      → (u : A) × (o ≡ ok u) × (next u ≡ ok v)
  >>=-eq-ok panic next fine = cc
  >>=-eq-ok (err e) next fine = cc
  >>=-eq-ok (ok u) next fine = (u, refl, fine)

module _ {ℓ} {E A : Type ℓ} where
  -- `*p`
  abbrev pub deref : Option A → Outcome E A
  deref none = panic
  deref (some a) = ok a

  -- `if p == nil { return err }`
  abbrev pub or_err : E → Option A → Outcome E A
  or_err e none = err e
  or_err e (some a) = ok a

module _ {ℓ} {E F A : Type ℓ} where
  -- `if err != nil { return wrap(err) }`
  abbrev pub wrap_err : (E → F) → Outcome E A → Outcome F A
  wrap_err w (ok a) = ok a
  wrap_err w (err e) = err (w e)
  wrap_err w panic = panic

module _ {ℓ} {E A : Type ℓ} where
  pub Outcome-cases :
      (o : Outcome E A) → (o ≡ panic) ⊎ ((e : E) × (o ≡ err e)) ⊎ ((a : A) × (o ≡ ok a))
  Outcome-cases (ok a) = inr (inr (a, refl))
  Outcome-cases (err e) = inr (inl (e, refl))
  Outcome-cases panic = inl refl
