-- ===== src/Base/Lists.antt =====
-- Lists measured by native numbers, Boolean searches, and membership.
use Prim.Native.Nat.{ℕ, zero, suc, ◌+◌}
use mathlib.Core.Path.{◌≡◌, refl, sym, subst}
use mathlib.Core.Logic.{◌⊎◌, inl, inr}
use mathlib.Core.Bool.{Bool, true, false, ◌||◌}
use mathlib.Core.List.{List, [], ◌∷◌, ◌++◌, Memᴰ}
use mathlib.Core.Option.{Option, none, some}
use native.Mathlib.Omega.{arith}
use shelly_operator.Base.Tests.{if◌then◌else◌, Bool-cases}

module _ {ℓ} {A : Type ℓ} where
  abbrev pub length : List A → ℕ
  length [] = 0
  length (x ∷ xs) = suc (length xs)

  abbrev pub get_elem? : List A → ℕ → Option A
  get_elem? [] i = none
  get_elem? (x ∷ xs) zero = some x
  get_elem? (x ∷ xs) (suc i) = get_elem? xs i

  abbrev pub take : ℕ → List A → List A
  take zero xs = []
  take (suc n) [] = []
  take (suc n) (x ∷ xs) = x ∷ take n xs

  pub length-append : (xs ys : List A) → length (xs ++ ys) ≡ length xs + length ys
  length-append [] ys = omega arith
  length-append (x ∷ xs) ys = omega (arith, length-append xs ys)

  abbrev pub any : (A → Bool) → List A → Bool
  any p [] = false
  any p (x ∷ xs) = p x || any p xs

  -- The elements that pass a test, in order.
  abbrev pub select : (A → Bool) → List A → List A
  select p [] = []
  select p (x ∷ xs) = let rest = select p xs in if p x then x ∷ rest else rest

  -- Every element satisfies a predicate.
  abbrev pub All {κ} : (A → Type κ) → List A → Type κ
  All P [] = Unit
  All P (x ∷ xs) = P x × All P xs

  pub select-append :
      (p : A → Bool) (xs ys : List A) → select p (xs ++ ys) ≡ select p xs ++ select p ys
  select-append p [] ys = refl
  select-append p (x ∷ xs) ys = ground (arith, select-append p xs ys)

module _ {ℓ κ} {A : Type ℓ} (P : A → Type κ) where
  pub All-append : (xs ys : List A) → All P xs → All P ys → All P (xs ++ ys)
  All-append [] ys h k = k
  All-append (x ∷ xs) ys h k = (h.0, All-append xs ys h.1 k)

  pub All-mem : {a : A} {xs : List A} → All P xs → Memᴰ a xs → P a
  All-mem h (Memᴰ.head e) = subst P (sym e) h.0
  All-mem h (Memᴰ.tail m) = All-mem h.1 m

  pub All-of_mem : (xs : List A) → ((a : A) → Memᴰ a xs → P a) → All P xs
  All-of_mem [] f = tt
  All-of_mem (x ∷ xs) f = (f x (Memᴰ.head refl), All-of_mem xs (λ a m. f a (Memᴰ.tail m)))

module _ {ℓ} {A : Type ℓ} where
  pub mem-append_left : {a : A} {xs : List A} (ys : List A) → Memᴰ a xs → Memᴰ a (xs ++ ys)
  mem-append_left ys (Memᴰ.head e) = Memᴰ.head e
  mem-append_left ys (Memᴰ.tail m) = Memᴰ.tail (mem-append_left ys m)

  pub mem-append_right : {a : A} (xs : List A) {ys : List A} → Memᴰ a ys → Memᴰ a (xs ++ ys)
  mem-append_right [] m = m
  mem-append_right (x ∷ xs) m = Memᴰ.tail (mem-append_right xs m)

  pub mem-append_cases : {a : A} (xs ys : List A) → Memᴰ a (xs ++ ys) → Memᴰ a xs ⊎ Memᴰ a ys
  mem-append_cases [] ys m = inr m
  mem-append_cases (x ∷ xs) ys (Memᴰ.head e) = inl (Memᴰ.head e)
  mem-append_cases (x ∷ xs) ys (Memᴰ.tail m) = elim (mem-append_cases xs ys m) [
    | inl l ↦ inl (Memᴰ.tail l)
    | inr r ↦ inr r
  ]

  mem-select-cases :
      (p : A → Bool) {a : A} (x : A) (xs : List A) (b : Bool)
      → Memᴰ a (if b then x ∷ select p xs else select p xs)
      → ((a ≡ x) × (b ≡ true)) ⊎ Memᴰ a (select p xs)
  mem-select-cases p x xs true (Memᴰ.head e) = inl (e, refl)
  mem-select-cases p x xs true (Memᴰ.tail m) = inr m
  mem-select-cases p x xs false m = inr m

  pub mem-select :
      (p : A → Bool) {a : A} (xs : List A) → Memᴰ a (select p xs) → Memᴰ a xs × (p a ≡ true)
  mem-select p [] m = elim m [ ]
  mem-select p {a} (x ∷ xs) m = elim (mem-select-cases p x xs (p x) m) [
    | inl (e, h) ↦ (Memᴰ.head e, subst (λ y. p y ≡ true) (sym e) h)
    | inr r ↦ (Memᴰ.tail (mem-select p xs r).0, (mem-select p xs r).1)
  ]

  pub mem-select_of :
      (p : A → Bool) {a : A} (xs : List A) → Memᴰ a xs → p a ≡ true → Memᴰ a (select p xs)
  mem-select_of p [] m h = elim m [ ]
  mem-select_of p (x ∷ xs) (Memᴰ.head e) h = rw (subst (λ y. p y ≡ true) e h) (Memᴰ.head e)
  mem-select_of p {a} (x ∷ xs) (Memᴰ.tail m) h = elim (Bool-cases (p x)) [
    | inl e ↦ rw e (Memᴰ.tail (mem-select_of p xs m h))
    | inr e ↦ rw e (mem-select_of p xs m h)
  ]
