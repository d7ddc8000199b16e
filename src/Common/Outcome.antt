-- ===== src/Common/Outcome.antt =====
-- What a Go call returns, over a type of errors: a value, an error or a panic.
use mathlib.Core.Path.{◌≡◌, refl}
use mathlib.Core.Logic.{◌⊎◌, inl, inr}

pub data Outcome {ℓ} (E A : Type ℓ) : Type ℓ where
  ok : A → Outcome E A
  err : E → Outcome E A
  panic : Outcome E A

module _ {ℓ} {E A B : Type ℓ} where
  infixl 5 ◌>>=◌
  abbrev pub ◌>>=◌ : Outcome E A → (A → Outcome E B) → Outcome E B
  ok a >>= f = f a
  err e >>= f = err e
  panic >>= f = panic

  -- a sequence that returns has had a first step that returned
  pub >>=-eq-ok :
      (first : Outcome E A) (next : A → Outcome E B) {result : B}
      → (first >>= next) ≡ ok result
      → (x : A) × (first ≡ ok x) × (next x ≡ ok result)
  >>=-eq-ok (ok x) next e = (x, refl, e)
  >>=-eq-ok (err reason) next e = cc
  >>=-eq-ok panic next e = cc

  -- two sequences agree where what follows a first step that returned agrees
  pub >>=_congr :
      (first : Outcome E A) {f g : A → Outcome E B}
      → ((x : A) → first ≡ ok x → f x ≡ g x)
      → (first >>= f) ≡ (first >>= g)
  >>=_congr (ok x) h = h x refl
  >>=_congr (err reason) h = refl
  >>=_congr panic h = refl

-- To split on a computed result and keep the equation.
pub Outcome-cases {ℓ} :
    {E A : Type ℓ} (r : Outcome E A)
    → ((a : A) × (r ≡ ok a)) ⊎ ((e : E) × (r ≡ err e)) ⊎ (r ≡ panic)
Outcome-cases (ok a) = inl (a, refl)
Outcome-cases (err e) = inr (inl (e, refl))
Outcome-cases panic = inr (inr refl)
