-- ===== src/Base/Trim.antt =====
-- strings.TrimFunc and a cap on the length, on the code points of a text.
use shelly_operator.Base.Tests.{if◌then◌else◌, Bool-cases}
use shelly_operator.Base.Lists.{length, take}
use Prim.Native.Nat.{ℕ, zero, suc, ◌≤◌}
use mathlib.Core.Path.{◌≡◌, refl, ap}
use mathlib.Core.Logic.{inl, inr}
use mathlib.Core.Bool.{Bool, true, false}
use mathlib.Core.List.{List, [], ◌∷◌}
use native.Mathlib.Omega.{arith}

module _ {ℓ} {A : Type ℓ} where
  abbrev pub is_empty : List A → Bool
  is_empty [] = true
  is_empty (x ∷ xs) = false

  -- Elements that fail the test are dropped from the left, from the right, from both ends.
  unfoldable pub trim_left : (A → Bool) → List A → List A
  trim_left keep [] = []
  trim_left keep (x ∷ xs) = let rest = trim_left keep xs in if keep x then x ∷ xs else rest

  unfoldable pub trim_right : (A → Bool) → List A → List A
  trim_right keep [] = []
  trim_right keep (x ∷ xs) =
      let rest = trim_right keep xs in
      if keep x then x ∷ rest else if is_empty rest then [] else x ∷ rest

  unfoldable pub trim : (A → Bool) → List A → List A
  unfolding trim_left trim_right
  trim keep xs = trim_right keep (trim_left keep xs)

  abbrev pub StartsWell : (A → Bool) → List A → Type 0
  StartsWell keep [] = Unit
  StartsWell keep (x ∷ xs) = keep x ≡ true

  abbrev pub EndsWell : (A → Bool) → List A → Type 0
  EndsWell keep [] = Unit
  EndsWell keep (x ∷ []) = keep x ≡ true
  EndsWell keep (x ∷ y ∷ ys) = EndsWell keep (y ∷ ys)

  pub trim_left-StartsWell : (keep : A → Bool) (xs : List A) → StartsWell keep (trim_left keep xs)
  unfolding trim_left
  trim_left-StartsWell keep [] = tt
  trim_left-StartsWell keep (x ∷ xs) = elim (Bool-cases (keep x)) [
    | inl e ↦ rw e e
    | inr e ↦ rw e (trim_left-StartsWell keep xs)
  ]

  pub trim_right-StartsWell :
      (keep : A → Bool) (xs : List A) → StartsWell keep xs → StartsWell keep (trim_right keep xs)
  unfolding trim_right
  trim_right-StartsWell keep [] h = tt
  trim_right-StartsWell keep (x ∷ xs) h = rw h h

  ends_cons :
      (keep : A → Bool) (x : A) (ys : List A)
      → EndsWell keep ys
      → is_empty ys ≡ false
      → EndsWell keep (x ∷ ys)
  ends_cons keep x [] h e = cc
  ends_cons keep x (y ∷ ys) h e = h

  ends_kept :
      (keep : A → Bool) (x : A) (ys : List A)
      → EndsWell keep ys
      → keep x ≡ true
      → EndsWell keep (x ∷ ys)
  ends_kept keep x [] h e = e
  ends_kept keep x (y ∷ ys) h e = h

  pub trim_right-EndsWell : (keep : A → Bool) (xs : List A) → EndsWell keep (trim_right keep xs)
  unfolding trim_right
  trim_right-EndsWell keep [] = tt
  trim_right-EndsWell keep (x ∷ xs) =
      let rest = trim_right keep xs in
      let ih = trim_right-EndsWell keep xs in
      elim (Bool-cases (keep x)) [
        | inl e ↦ rw e (ends_kept keep x rest ih e)
        | inr e ↦ elim (Bool-cases (is_empty rest)) [
          | inl k ↦ rw (e, k) tt
          | inr k ↦ rw (e, k) (ends_cons keep x rest ih k)
        ]
      ]

  pub trim_left-eq : (keep : A → Bool) (xs : List A) → StartsWell keep xs → trim_left keep xs ≡ xs
  unfolding trim_left
  trim_left-eq keep [] h = refl
  trim_left-eq keep (x ∷ xs) h = rw h refl

  pub trim_right-eq : (keep : A → Bool) (xs : List A) → EndsWell keep xs → trim_right keep xs ≡ xs
  unfolding trim_right
  trim_right-eq keep [] h = refl
  trim_right-eq keep (x ∷ []) h = rw h refl
  trim_right-eq keep (x ∷ y ∷ ys) h =
      rw (trim_right-eq keep (y ∷ ys) h)
        (elim (Bool-cases (keep x)) [ inl e ↦ rw e refl | inr e ↦ rw e refl ])

  pub length-trim_left : (keep : A → Bool) (xs : List A) → length (trim_left keep xs) ≤ length xs
  unfolding trim_left
  length-trim_left keep [] = omega arith
  length-trim_left keep (x ∷ xs) = ground (arith, length-trim_left keep xs)

  pub length-trim_right : (keep : A → Bool) (xs : List A) → length (trim_right keep xs) ≤ length xs
  unfolding trim_right
  length-trim_right keep [] = omega arith
  length-trim_right keep (x ∷ xs) = ground (arith, length-trim_right keep xs)

  pub length-take : (n : ℕ) (xs : List A) → length (take n xs) ≤ n
  length-take zero xs = omega arith
  length-take (suc n) [] = omega arith
  length-take (suc n) (x ∷ xs) = omega (arith, length-take n xs)

  pub take-eq : (n : ℕ) (xs : List A) → length xs ≤ n → take n xs ≡ xs
  take-eq zero [] h = refl
  take-eq zero (x ∷ xs) h = absurd (omega arith)
  take-eq (suc n) [] h = refl
  take-eq (suc n) (x ∷ xs) h = ap (λ l. x ∷ l) (take-eq n xs (omega arith))
