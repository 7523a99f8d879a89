-- ===== src/Base/Assoc.antt =====
-- Go's `map[string]V` as an association list. The order of the entries stands for the order in
-- which one `range` over the map meets them.
use mathlib.Core.Path.{◌≡◌, refl, sym, ap, subst}
use mathlib.Core.Logic.{inl, inr}
use mathlib.Core.List.{List, [], ◌∷◌, Memᴰ}
use mathlib.Core.Option.{Option, none, some}
use Prim.Native.String.{String}
use native.Mathlib.Omega.{arith}
use text.Mathlib.Text.{◌==◌}
use text.Mathlib.TextEquality.{eq_iff}
use shelly_operator.Base.Tests.{if◌then◌else◌, Bool-cases}
use shelly_operator.Base.Lists.{All}

abbrev pub Assoc {ℓ} : Type ℓ → Type ℓ
Assoc V = List (String × V)

module _ {ℓ} {V : Type ℓ} where
  -- m[k]
  unfoldable pub get : String → Assoc V → Option V
  get key [] = none
  get key ((other, x) ∷ rest) = if other == key then some x else get key rest

  -- m[k] = v
  unfoldable pub put : String → V → Assoc V → Assoc V
  put key x [] = (key, x) ∷ []
  put key x ((other, y) ∷ rest) =
      if other == key then (key, x) ∷ rest else (other, y) ∷ put key x rest

  -- delete(m, k)
  unfoldable pub delete : String → Assoc V → Assoc V
  delete k [] = []
  delete k ((j, v) ∷ m) = let rest = delete k m in if j == k then rest else (j, v) ∷ rest

  -- maps.Copy(dst, src)
  unfoldable pub copy : Assoc V → Assoc V → Assoc V
  copy dst [] = dst
  copy dst ((k, v) ∷ src) = copy (put k v dst) src

  abbrev pub keys : Assoc V → List String
  keys [] = []
  keys ((k, v) ∷ m) = k ∷ keys m

  -- m[k] = f(a) where the pointer is not nil
  unfoldable pub put_some {κ} : {A : Type κ} → String → (A → V) → Option A → Assoc V → Assoc V
  put_some k f none m = m
  put_some k f (some a) m = put k (f a) m

  -- A map holds each key once.
  abbrev pub NodupKeys : Assoc V → Type ℓ
  NodupKeys [] = Unit
  NodupKeys ((k, v) ∷ m) = (get k m ≡ none) × NodupKeys m

  pub get-put :
      (k j : String) (v : V) (m : Assoc V)
      → get j (put k v m) ≡ (if k == j then some v else get j m)
  unfolding get put
  get-put key asked x [] = refl
  get-put key asked x ((other, y) ∷ rest) =
      ground
        (get-put key asked x rest, eq_iff other asked, eq_iff other key, eq_iff key asked, arith)

  pub get-delete :
      (k j : String) (m : Assoc V) → get j (delete k m) ≡ (if k == j then none else get j m)
  unfolding get delete
  get-delete k j [] = ground arith
  get-delete k j ((i, w) ∷ m) = ground (arith, eq_iff k j, eq_iff i k, eq_iff i j, get-delete k j m)

  pub put-NodupKeys : (k : String) (v : V) (m : Assoc V) → NodupKeys m → NodupKeys (put k v m)
  unfolding put get
  put-NodupKeys k v [] h = (refl, tt)
  put-NodupKeys k v ((i, w) ∷ m) h = elim (Bool-cases (i == k)) [
    | inl e ↦ rw e (rw ((eq_iff i k).0 e) at h)
    | inr e ↦
        rw e
          ((ground (arith, get-put k i v m, eq_iff k i, eq_iff i k, h.0)), put-NodupKeys k v m h.1)
  ]

  pub put-All {κ} :
      (P : String × V → Type κ) (k : String) (v : V) (m : Assoc V)
      → P (k, v)
      → All P m
      → All P (put k v m)
  unfolding put
  put-All P k v [] p h = (p, tt)
  put-All P k v ((j, w) ∷ m) p h = elim (Bool-cases (j == k)) [
    | inl e ↦ rw e (p, h.1)
    | inr e ↦ rw e (h.0, put-All P k v m p h.1)
  ]

  pub mem-get : {k : String} {v : V} (m : Assoc V) → NodupKeys m → Memᴰ (k, v) m → get k m ≡ some v
  unfolding get
  mem-get [] n h = elim h [ ]
  mem-get {k} {v} ((j, x) ∷ m) n (Memᴰ.head e) =
      let ek : k ≡ j = ap (λ (y : String × V). y.0) e in
      let ev : v ≡ x = ap (λ (y : String × V). y.1) e in
      rw ((eq_iff j k).1 (sym ek)) (ap some (sym ev))
  mem-get {k} {v} ((j, x) ∷ m) n (Memᴰ.tail h) = elim (Bool-cases (j == k)) [
    | inl e ↦
        let there : get j m ≡ some v =
          subst (λ y. get y m ≡ some v) (sym ((eq_iff j k).0 e)) (mem-get m n.1 h) in
        cc (n.0)
    | inr e ↦ rw e (mem-get m n.1 h)
  ]

ruleset assoc_laws = (get-put, get-delete)
