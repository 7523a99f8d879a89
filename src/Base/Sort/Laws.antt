-- ===== src/Base/Sort/Laws.antt =====
-- Lemmas on the stable sort: permutation, order, and orders of the input.
use mathlib.Core.Path.{◌≡◌, refl, sym, ◌∙◌, subst}
use mathlib.Core.Logic.{inl, inr}
use mathlib.Core.Bool.{Bool, true, false}
use mathlib.Core.List.{List, [], ◌∷◌, Memᴰ}
use mathlib.Core.List.{Permᴰ}
use mathlib.Core.List.Permᴰ as PermD
use native.Mathlib.Omega.{arith}
use shelly_operator.Base.Tests.{Bool-cases}
use shelly_operator.Base.Lists.{All, length, All-of_mem, All-mem}
use shelly_operator.Base.Sort.{insert, sort, IsSorted}

module _ {ℓ} {A : Type ℓ} where
  pub mem-perm : {a : A} {xs ys : List A} → Permᴰ xs ys → Memᴰ a xs → Memᴰ a ys
  mem-perm Permᴰ.nil m = m
  mem-perm (Permᴰ.cons e p) (Memᴰ.head q) = Memᴰ.head (q ∙ e)
  mem-perm (Permᴰ.cons e p) (Memᴰ.tail m) = Memᴰ.tail (mem-perm p m)
  mem-perm (Permᴰ.swap e f) (Memᴰ.head q) = Memᴰ.tail (Memᴰ.head (q ∙ e))
  mem-perm (Permᴰ.swap e f) (Memᴰ.tail (Memᴰ.head q)) = Memᴰ.head (q ∙ f)
  mem-perm (Permᴰ.swap e f) (Memᴰ.tail (Memᴰ.tail m)) = Memᴰ.tail (Memᴰ.tail m)
  mem-perm (Permᴰ.trans p q) m = mem-perm q (mem-perm p m)

  pub length-perm : {xs ys : List A} → Permᴰ xs ys → length xs ≡ length ys
  length-perm Permᴰ.nil = refl
  length-perm (Permᴰ.cons e p) = omega (arith, length-perm p)
  length-perm (Permᴰ.swap e f) = refl
  length-perm (Permᴰ.trans p q) = length-perm p ∙ length-perm q

  pub All-perm {κ} : (P : A → Type κ) (xs ys : List A) → Permᴰ ys xs → All P xs → All P ys
  All-perm P xs ys p h = All-of_mem P ys (λ a m. All-mem P h (mem-perm p m))

-- `less` is a strict weak order.
pub record StrictWeak {ℓ} {A : Type ℓ} (less : A → A → Bool) : Type ℓ where
  pub asymm : (a b : A) → less a b ≡ true → less b a ≡ false
  pub cotrans : (a b c : A) → less b a ≡ false → less c b ≡ false → less c a ≡ false

module _ {ℓ} {A : Type ℓ} (less : A → A → Bool) where
  pub insert-permᴰ : (x : A) (ys : List A) → Permᴰ (insert less x ys) (x ∷ ys)
  unfolding insert
  insert-permᴰ x [] = Permᴰ.cons refl Permᴰ.nil
  insert-permᴰ x (y ∷ ys) = elim (Bool-cases (less y x)) [
    | inl e ↦ rw e (Permᴰ.trans (Permᴰ.cons refl (insert-permᴰ x ys)) (Permᴰ.swap refl refl))
    | inr e ↦ rw e (PermD.refl _)
  ]

  -- The sort permutes its input.
  pub sort-permᴰ : (xs : List A) → Permᴰ (sort less xs) xs
  unfolding sort
  sort-permᴰ [] = Permᴰ.nil
  sort-permᴰ (x ∷ xs) =
      Permᴰ.trans (insert-permᴰ x (sort less xs)) (Permᴰ.cons refl (sort-permᴰ xs))

  pub mem-sort : {a : A} (xs : List A) → Memᴰ a (sort less xs) → Memᴰ a xs
  mem-sort xs m = mem-perm (sort-permᴰ xs) m

  pub mem-sort_of : {a : A} (xs : List A) → Memᴰ a xs → Memᴰ a (sort less xs)
  mem-sort_of xs m = mem-perm (PermD.symm (sort-permᴰ xs)) m

  pub length-sort : (xs : List A) → length (sort less xs) ≡ length xs
  length-sort xs = length-perm (sort-permᴰ xs)

module _ {ℓ} {A : Type ℓ} (less : A → A → Bool) (weak : StrictWeak less) where
  All-not_below :
      (x y : A) (ys : List A)
      → less y x ≡ false
      → All (λ z. less z y ≡ false) ys
      → All (λ z. less z x ≡ false) ys
  All-not_below x y [] h k = tt
  All-not_below x y (z ∷ ys) h k = (weak.cotrans x y z h k.0, All-not_below x y ys h k.1)

  insert-IsSorted : (x : A) (ys : List A) → IsSorted less ys → IsSorted less (insert less x ys)
  unfolding insert
  insert-IsSorted x [] s = (tt, tt)
  insert-IsSorted x (y ∷ ys) s = elim (Bool-cases (less y x)) [
    | inl e ↦ rw e (
      All-perm (λ z. less z y ≡ false) (x ∷ ys) (insert less x ys) (insert-permᴰ less x ys)
          (weak.asymm y x e, s.0),
      insert-IsSorted x ys s.1,
    )
    | inr e ↦ rw e ((e, All-not_below x y ys e s.0), s)
  ]

  -- The result is in order.
  pub sort-IsSorted : (xs : List A) → IsSorted less (sort less xs)
  unfolding sort
  sort-IsSorted [] = tt
  sort-IsSorted (x ∷ xs) = insert-IsSorted x (sort less xs) (sort-IsSorted xs)

  pub irrefl : (a : A) → less a a ≡ false
  irrefl a = elim (Bool-cases (less a a)) [ inl e ↦ weak.asymm a a e | inr e ↦ e ]

  -- The first element of the result is in the input, and nothing in the input is below it.
  pub sort_first :
      (xs : List A) (c : A) (cs : List A)
      → sort less xs ≡ c ∷ cs
      → Memᴰ c xs × All (λ y. less y c ≡ false) xs
  sort_first xs c cs e = (
    mem-sort less xs (subst (λ l. Memᴰ c l) (sym e) (Memᴰ.head refl)),
    All-perm (λ y. less y c ≡ false) (sort less xs) xs (PermD.symm (sort-permᴰ less xs))
        (subst (λ l. All (λ y. less y c ≡ false) l) (sym e)
          (irrefl c, (subst (λ l. IsSorted less l) e (sort-IsSorted xs)).0)),
  )
