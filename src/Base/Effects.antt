-- ===== src/Base/Effects.antt =====
-- Fallible code, and fallible code over a state. What was done to the state before an error stays, so the
-- state comes back beside the error too.
use mathlib.Core.Path.{◌≡◌, refl}
use mathlib.Core.Logic.{◌⊎◌, inl, inr}
use native.Mathlib.Omega.{arith}
use mathlib.Core.List.{List, [], ◌∷◌}

pub data Result {ℓ} (E : Type 0) (A : Type ℓ) : Type ℓ where
  ok : A → Result E A
  err : E → Result E A

pub Result-cases {ℓ} :
    {E : Type 0} {A : Type ℓ} (r : Result E A) → ((a : A) × (r ≡ ok a)) ⊎ ((e : E) × (r ≡ err e))
Result-cases (ok a) = inl (a, refl)
Result-cases (err e) = inr (e, refl)

-- `?` inside a function that returns a result.
abbrev pub and_then : {E A B : Type 0} → Result E A → (A → Result E B) → Result E B
and_then (ok a) f = f a
and_then (err e) f = err e

pub and_then-inv :
    {E A B : Type 0} (m : Result E A) (f : A → Result E B) (b : B)
    → and_then m f ≡ ok b
    → (a : A) × (m ≡ ok a) × (f a ≡ ok b)
and_then-inv (ok a) f b h = (a, refl, h)
and_then-inv (err e) f b h = absurd (ground arith)

abbrev pub Exec : Type 0 → Type 0 → Type 0 → Type 0
Exec S E A = S → Result E A × S

module _ {S E : Type 0} where
  abbrev pub pure : {A : Type 0} → A → Exec S E A
  pure a s = (ok a, s)

  abbrev pub raise : {A : Type 0} → E → Exec S E A
  raise e s = (err e, s)

  abbrev pub lift : {A : Type 0} → Result E A → Exec S E A
  lift r s = (r, s)

  abbrev pub gets : {A : Type 0} → (S → A) → Exec S E A
  gets f s = (ok (f s), s)

  -- What the rest of a block does with the result of its first step.
  abbrev pub continue : {A B : Type 0} → (A → Exec S E B) → Result E A → S → Result E B × S
  continue f (ok a) s = f a s
  continue f (err e) s = (err e, s)

  infixl 10 ◌>>=◌ ◌>>◌
  abbrev pub ◌>>=◌ : {A B : Type 0} → Exec S E A → (A → Exec S E B) → Exec S E B
  ◌>>=◌ m f s = let r = m s in continue f r.0 r.1

  abbrev pub ◌>>◌ : {A B : Type 0} → Exec S E A → Exec S E B → Exec S E B
  m >> n = m >>= λ _. n

  -- `for x in xs { f(x)?; }`
  unfoldable pub for_each : {A : Type 0} → (A → Exec S E (Unit {0})) → List A → Exec S E (Unit {0})
  for_each f [] = pure tt
  for_each f (x ∷ xs) = do f x; for_each f xs
