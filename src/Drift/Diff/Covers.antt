-- ===== src/Drift/Diff/Covers.antt =====
-- internal/drift/diff.go: diffMap and the leaves of the desired map.
use mathlib.Core.Path.{subst}
use shelly_operator.Base.{
  true, String, Option, none, List, [], ◌∷◌, ◌≡◌, ◌↔◌, refl, sym, ap, Memᴰ, Bool-cases, inl, inr,
}
use shelly_operator.Json.{
  Floats, Value, Fields, null, bool, num, str, arr, obj, end, field, get, as_map, entries,
}
use shelly_operator.Drift.Diff.{extend, leaf_ok, diff_leaf, diff_value, diff_entries, diff_map}
use shelly_operator.Drift.Diff.Loop.{IsQuiet, by_key-IsQuiet, IsQuiet-by_key}

module _ {F : Type 0} where
  -- A leaf is any value but a map.
  abbrev pub IsLeaf : Value F → Type 0
  IsLeaf (obj fs) = ⊥
  IsLeaf _ = Unit

-- `fs` declares the leaf `v` under the keys of the path.
pub data LeafAt {F : Type 0} : Fields F → List String → Value F → Type 0 where
  here :
      {fs : Fields F} {k : String} {v : Value F}
      → Memᴰ (k, v) (entries fs)
      → IsLeaf v
      → LeafAt fs (k ∷ []) v
  under :
      {fs gs : Fields F} {k j : String} {p : List String} {v : Value F}
      → Memᴰ (k, obj gs) (entries fs)
      → LeafAt gs (j ∷ p) v
      → LeafAt fs (k ∷ j ∷ p) v

module _ {F : Type 0} where
  -- The value at a path; what is not a map has no keys.
  abbrev pub value_at : List String → Fields F → Option (Value F)
  value_at [] have = none
  value_at (k ∷ []) have = get k have
  value_at (k ∷ j ∷ p) have = value_at (j ∷ p) (as_map (get k have))

  LeafAt-later :
      {k : String} {w : Value F} {rest : Fields F} {p : List String} {v : Value F}
      → LeafAt rest p v
      → LeafAt (field k w rest) p v
  LeafAt-later (here m l) = here (Memᴰ.tail m) l
  LeafAt-later (under m l) = under (Memᴰ.tail m) l

module _ {F : Type 0} ⦃n : Floats F⦄ where
  -- Each desired leaf is there, at its path, and equal.
  abbrev pub Covers : Fields F → Fields F → Type 0
  Covers want have =
      (p : List String) (v : Value F) → LeafAt want p v → leaf_ok v (value_at p have) ≡ true

  diff_leaf-nil :
      (s path : String) (w : Value F) (h : Option (Value F))
      → diff_leaf s path w h ≡ []
      → leaf_ok w h ≡ true
  unfolding diff_leaf
  diff_leaf-nil s path w h e = elim (Bool-cases (leaf_ok w h)) [
    | inl y ↦ y
    | inr y ↦ cc (rw y at e)
  ]

  diff_leaf-nil_of :
      (s path : String) (w : Value F) (h : Option (Value F))
      → leaf_ok w h ≡ true
      → diff_leaf s path w h ≡ []
  unfolding diff_leaf
  diff_leaf-nil_of s path w h e = rw e

  value_leaf-nil :
      (s path : String) (w : Value F) (h : Option (Value F))
      → IsLeaf w
      → diff_value s path w h ≡ []
      → leaf_ok w h ≡ true
  unfolding diff_value
  value_leaf-nil s path (obj fs) h l e = absurd l
  value_leaf-nil s path w h l e = diff_leaf-nil s path w h e

  entry-nil :
      (s prefix : String) (want have : Fields F) {k : String} {w : Value F}
      → IsQuiet (diff_entries s prefix want have)
      → Memᴰ (k, w) (entries want)
      → diff_value s (extend prefix k) w (get k have) ≡ []
  unfolding diff_entries
  entry-nil s prefix end have q m = elim m [ ]
  entry-nil s prefix (field j v rest) have q (Memᴰ.head e) =
      subst (λ (x : String × Value F). diff_value s (extend prefix x.0) x.1 (get x.0 have) ≡ [])
        (sym e) q.0
  entry-nil s prefix (field j v rest) have q (Memᴰ.tail m) = entry-nil s prefix rest have q.1 m

  quiet-Covers :
      (s prefix : String) (want have : Fields F) {p : List String} {v : Value F}
      → IsQuiet (diff_entries s prefix want have)
      → LeafAt want p v
      → leaf_ok v (value_at p have) ≡ true
  unfolding diff_value
  quiet-Covers s prefix want have q (here {k = k} {v = v} m l) =
      value_leaf-nil s (extend prefix k) v (get k have) l (entry-nil s prefix want have q m)
  quiet-Covers s prefix want have q (under {gs = gs} {k = k} m l) =
      quiet-Covers s (extend prefix k) gs (as_map (get k have))
        (by_key-IsQuiet _ (entry-nil s prefix want have q m)) l

  cover :
      (wm : Fields F) (h : Option (Value F))
      → ((j : String) (p : List String) (v : Value F)
          → LeafAt wm (j ∷ p) v
          → leaf_ok v (value_at (j ∷ p) (as_map h)) ≡ true)
      → Covers wm (as_map h)
  cover wm h d [] v l = elim l [ ]
  cover wm h d (j ∷ p) v l = d j p v l

  mutual
    unfolding diff_value

    Covers-IsQuiet :
        (s prefix : String) (want have : Fields F)
        → Covers want have
        → IsQuiet (diff_entries s prefix want have)
    Covers-IsQuiet s prefix end have c = tt
    Covers-IsQuiet s prefix (field k w rest) have c = (
      Covers-value s (extend prefix k) w (get k have) (λ l. c (k ∷ []) w (here (Memᴰ.head refl) l))
          (λ gs e j p v l. c (k ∷ j ∷ p) v (under (Memᴰ.head (ap (λ x. (k, x)) (sym e))) l)),
      Covers-IsQuiet s prefix rest have (λ p v l. c p v (LeafAt-later l)),
    )

    Covers-value :
        (s path : String) (w : Value F) (h : Option (Value F))
        → (IsLeaf w → leaf_ok w h ≡ true)
        → ((gs : Fields F)
            → w ≡ obj gs
            → (j : String) (p : List String) (v : Value F) → LeafAt gs (j ∷ p) v
            → leaf_ok v (value_at (j ∷ p) (as_map h)) ≡ true)
        → diff_value s path w h ≡ []
    Covers-value s path null h c d = diff_leaf-nil_of s path null h (c tt)
    Covers-value s path (bool b) h c d = diff_leaf-nil_of s path (bool b) h (c tt)
    Covers-value s path (num x) h c d = diff_leaf-nil_of s path (num x) h (c tt)
    Covers-value s path (str x) h c d = diff_leaf-nil_of s path (str x) h (c tt)
    Covers-value s path (arr x) h c d = diff_leaf-nil_of s path (arr x) h (c tt)
    Covers-value s path (obj wm) h c d =
        IsQuiet-by_key _ (Covers-IsQuiet s path wm (as_map h) (cover wm h (d wm refl)))

  -- diffMap returns no finding just when each leaf of the wanted map is found, equal, at its path in the
  -- map of the device.
  pub diff_map-Covers :
      (section prefix : String) (want have : Fields F)
      → (diff_map section prefix want have ≡ []) ↔ Covers want have
  unfolding diff_map
  diff_map-Covers section prefix want have = (
    λ e p v l. quiet-Covers section prefix want have (by_key-IsQuiet _ e) l,
    λ c. IsQuiet-by_key _ (Covers-IsQuiet section prefix want have c),
  )
