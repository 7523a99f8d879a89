-- ===== src/Json/Wf.antt =====
-- Maps that hold each key once: lookups, and DeepEqual of a decoded value and itself.
use mathlib.Core.Path.{subst}
use shelly_operator.Base.{
  ℕ, Bool, true, String, none, some, ◌≡◌, refl, sym, ap, ◌∙◌, Memᴰ, arith, eqb, inl, inr, eq_refl,
  eq_iff, ◌==◌, if◌then◌else◌, Bool-cases,
}
use shelly_operator.Base.Assoc
use shelly_operator.Json.{
  Floats, Value, Items, Fields, null, bool, num, str, arr, obj, nil, cons, end, field, get, entries,
  IsWf, ItemsWf, FieldsWf, NumReflexive, deep_equal, deep_items, deep_fields, size,
}

module _ {F : Type 0} where
  pub get-field :
      (j k : String) (v : Value F) (fs : Fields F)
      → get j (field k v fs) ≡ (if k == j then some v else get j fs)
  unfolding get Assoc.get
  get-field j k v fs = refl

  pub get-end : (j : String) → get {F = F} j end ≡ none
  unfolding get Assoc.get
  get-end j = refl

  pub mem-get :
      {k : String} {v : Value F} (fs : Fields F)
      → FieldsWf fs
      → Memᴰ (k, v) (entries fs)
      → get k fs ≡ some v
  mem-get end w m = elim m [ ]
  mem-get {k} {v} (field j x fs) w (Memᴰ.head e) =
      let ek : k ≡ j = ap (λ (y : String × Value F). y.0) e in
      let ev : v ≡ x = ap (λ (y : String × Value F). y.1) e in
      get-field k j x fs ∙ rw ((eq_iff j k).1 (sym ek)) (ap some (sym ev))
  mem-get {k} {v} (field j x fs) w (Memᴰ.tail m) = elim (Bool-cases (j == k)) [
    | inl e ↦
        let same : j ≡ k = (eq_iff j k).0 e in
        let there : get j fs ≡ some v =
          subst (λ y. get y fs ≡ some v) (sym same) (mem-get fs w.2 m) in
        cc (w.0)
    | inr e ↦ get-field k j x fs ∙ rw e (mem-get fs w.2 m)
  ]

  pub mem-IsWf :
      {k : String} {v : Value F} (fs : Fields F) → FieldsWf fs → Memᴰ (k, v) (entries fs) → IsWf v
  mem-IsWf end w m = elim m [ ]
  mem-IsWf (field j x fs) w (Memᴰ.head e) = subst (λ (y : String × Value F). IsWf y.1) (sym e) w.1
  mem-IsWf (field j x fs) w (Memᴰ.tail m) = mem-IsWf fs w.2 m

eqb_refl : (a : ℕ) → eqb a a ≡ true
eqb_refl a = ground arith

module _ {F : Type 0} ⦃n : Floats F⦄ (reflexive : NumReflexive n) where
  mutual
    unfolding deep_equal

    deep_refl : (v : Value F) → IsWf v → deep_equal v v ≡ true
    deep_refl null w = refl
    deep_refl (bool Bool.false) w = refl
    deep_refl (bool true) w = refl
    deep_refl (num x) w = reflexive x
    deep_refl (str s) w = eq_refl s
    deep_refl (arr xs) w = deep_refl_items xs w
    deep_refl (obj fs) w =
        rw (eqb_refl (size fs)) (deep_refl_fields fs fs (λ k v m. mem-get fs w m) w)

    deep_refl_items : (xs : Items F) → ItemsWf xs → deep_items xs xs ≡ true
    deep_refl_items nil w = refl
    deep_refl_items (cons x xs) w = rw (deep_refl x w.0) (deep_refl_items xs w.1)

    deep_refl_fields :
        (fs gs : Fields F)
        → ((k : String) (v : Value F) → Memᴰ (k, v) (entries fs) → get k gs ≡ some v)
        → FieldsWf fs
        → deep_fields fs gs ≡ true
    deep_refl_fields end gs h w = refl
    deep_refl_fields (field k v fs) gs h w =
        rw (h k v (Memᴰ.head refl))
          (rw (deep_refl v w.1) (deep_refl_fields fs gs (λ j x m. h j x (Memᴰ.tail m)) w.2))

  pub deep_equal_refl : (v : Value F) → IsWf v → deep_equal v v ≡ true
  deep_equal_refl v w = deep_refl v w
