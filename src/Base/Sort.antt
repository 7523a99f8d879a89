-- ===== src/Base/Sort.antt =====
-- The stable sort of `sort.SliceStable`, `sort.Strings` and `slices.Sort`, by a test `less`.
pub mod Laws
use mathlib.Core.Path.{◌≡◌}
use mathlib.Core.Bool.{Bool, false}
use mathlib.Core.List.{List, [], ◌∷◌}
use shelly_operator.Base.Tests.{if◌then◌else◌}
use shelly_operator.Base.Lists.{All}

module _ {ℓ} {A : Type ℓ} (less : A → A → Bool) where
  -- Before the first element that is not below it, so that equal elements keep their order.
  unfoldable pub insert : A → List A → List A
  insert x [] = x ∷ []
  insert x (y ∷ ys) = if less y x then y ∷ insert x ys else x ∷ y ∷ ys

  unfoldable pub sort : List A → List A
  unfolding insert
  sort [] = []
  sort (x ∷ xs) = insert x (sort xs)

  -- No element is below one that stands before it.
  abbrev pub IsSorted : List A → Type ℓ
  IsSorted [] = Unit
  IsSorted (x ∷ xs) = All (λ y. less y x ≡ false) xs × IsSorted xs
