-- ===== src/Base/Outcome.antt =====
-- A Go result `(A, error)`: a value, or an error.
use mathlib.Core.Path.{◌≡◌, refl}

pub data Result {ℓ} (E A : Type ℓ) : Type ℓ where
  ok : A → Result E A
  err : E → Result E A

module _ {ℓ} {E A B : Type ℓ} where
  infixl 5 ◌>>=◌
  -- if err != nil { return err }
  abbrev pub ◌>>=◌ : Result E A → (A → Result E B) → Result E B
  err reason >>= next = err reason
  ok value >>= next = next value

  -- Where the second step succeeds, so did the first.
  pub >>=-eq-ok :
      (first : Result E A) (next : A → Result E B) {last : B} (h : (first >>= next) ≡ ok last)
      → (value : A) × (first ≡ ok value) × (next value ≡ ok last)
  >>=-eq-ok (err reason) next h = cc
  >>=-eq-ok (ok value) next h = (value, refl, h)
