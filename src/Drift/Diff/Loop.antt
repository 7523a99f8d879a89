-- ===== src/Drift/Diff/Loop.antt =====
-- internal/drift/diff.go: the loops along the sorted keys.
use mathlib.Core.List.{Permᴰ}
use mathlib.Core.List.Permᴰ as PermD
use shelly_operator.Base.{List, [], ◌∷◌, ◌++◌, ◌≡◌, refl, All, str_ltb_asymm, str_ltb_cotrans}
use shelly_operator.Base.Assoc.{Assoc}
use shelly_operator.Base.Sort.Laws.{sort-permᴰ, All-perm, StrictWeak}
use shelly_operator.Drift.Diff.{key_less, by_key, join}

pub append-eq-nil {ℓ} : {A : Type ℓ} (xs ys : List A) → xs ++ ys ≡ [] → (xs ≡ []) × (ys ≡ [])
append-eq-nil [] ys h = (refl, h)
append-eq-nil (x ∷ xs) ys h = cc

pub by_key-permᴰ {ℓ} : {V : Type ℓ} (m : Assoc V) → Permᴰ (by_key m) m
unfolding by_key
by_key-permᴰ m = sort-permᴰ key_less m

pub key_less-StrictWeak {ℓ} : (V : Type ℓ) → StrictWeak (key_less {V = V})
unfolding key_less
key_less-StrictWeak V = record {
  asymm = λ a b h. str_ltb_asymm a.0 b.0 h;
  cotrans = λ a b c h k. str_ltb_cotrans a.0 b.0 c.0 h k;
}

module _ {ℓ} {A : Type ℓ} where
  -- No round found anything.
  abbrev pub IsQuiet : Assoc (List A) → Type ℓ
  IsQuiet m = All (λ e. e.1 ≡ []) m

  join-IsQuiet : (m : Assoc (List A)) → join m ≡ [] → IsQuiet m
  unfolding join
  join-IsQuiet [] h = tt
  join-IsQuiet ((k, x) ∷ m) h = let (e, r) = append-eq-nil x (join m) h in (e, join-IsQuiet m r)

  IsQuiet-join : (m : Assoc (List A)) → IsQuiet m → join m ≡ []
  unfolding join
  IsQuiet-join [] h = refl
  IsQuiet-join ((k, x) ∷ m) h = rw (h.0, IsQuiet-join m h.1)

  pub by_key-IsQuiet : (m : Assoc (List A)) → join (by_key m) ≡ [] → IsQuiet m
  by_key-IsQuiet m h =
      All-perm (λ e. e.1 ≡ []) (by_key m) m (PermD.symm (by_key-permᴰ m))
        (join-IsQuiet (by_key m) h)

  pub IsQuiet-by_key : (m : Assoc (List A)) → IsQuiet m → join (by_key m) ≡ []
  IsQuiet-by_key m h =
      IsQuiet-join (by_key m) (All-perm (λ e. e.1 ≡ []) m (by_key m) (by_key-permᴰ m) h)
