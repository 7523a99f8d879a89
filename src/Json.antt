-- ===== src/Json.antt =====
-- JSON values as encoding/json decodes them into `any`: nil, bool, float64, string, []any and
-- map[string]any. The type of the float64 numbers and what the code does with them is a parameter.
pub mod Wf
use shelly_operator.Base.{
  Bool, true, false, ◌&&◌, String, Option, none, some, List, [], ◌∷◌, ◌≡◌, refl, ◌==◌, iff_b, ℕ,
  suc, eqb, ap, ℤ, if◌then◌else◌,
}
use shelly_operator.Base.Assoc
use shelly_operator.Base.Assoc.{Assoc}

-- Go's float64, of which the code uses the conversion of an int32, `==` and strconv.ParseFloat.
pub record Floats (F : Type 0) : Type 0 where
  pub of_int : ℤ → F
  pub num_eq : F → F → Bool
  pub parse_float : String → Option F

mutual
  pub data Value (F : Type 0) : Type 0 where
    null : Value F
    bool : Bool → Value F
    num : F → Value F
    str : String → Value F
    arr : Items F → Value F
    obj : Fields F → Value F

  pub data Items (F : Type 0) : Type 0 where
    nil : Items F
    cons : Value F → Items F → Items F

  pub data Fields (F : Type 0) : Type 0 where
    end : Fields F
    field : String → Value F → Fields F → Fields F

module _ {F : Type 0} where
  abbrev pub entries : Fields F → Assoc (Value F)
  entries end = []
  entries (field k v fs) = (k, v) ∷ entries fs

  abbrev pub of_entries : Assoc (Value F) → Fields F
  of_entries [] = end
  of_entries ((k, v) ∷ m) = field k v (of_entries m)

  abbrev pub of_list : List (Value F) → Items F
  of_list [] = nil
  of_list (v ∷ vs) = cons v (of_list vs)

  abbrev pub count : Items F → ℕ
  count nil = 0
  count (cons v vs) = suc (count vs)

  abbrev pub size : Fields F → ℕ
  size end = 0
  size (field k v fs) = suc (size fs)

  -- fs[k]
  unfoldable pub get : String → Fields F → Option (Value F)
  unfolding Assoc.get
  get k fs = Assoc.get k (entries fs)

  -- `m, _ := v.(map[string]any)`, with an absent or other value read as the empty map
  abbrev pub as_map : Option (Value F) → Fields F
  as_map (some (obj fs)) = fs
  as_map (some _) = end
  as_map none = end

  pub entries-of_entries : (m : Assoc (Value F)) → entries (of_entries m) ≡ m
  entries-of_entries [] = refl
  entries-of_entries ((k, v) ∷ m) = ap (λ r. (k, v) ∷ r) (entries-of_entries m)

-- reflect.DeepEqual on decoded values. The maps' counts and the lookups compare the maps.
module _ {F : Type 0} ⦃n : Floats F⦄ where
  unfoldable mutual
    pub deep_equal : Value F → Value F → Bool
    deep_equal null null = true
    deep_equal (bool a) (bool b) = iff_b a b
    deep_equal (num a) (num b) = n.num_eq a b
    deep_equal (str a) (str b) = a == b
    deep_equal (arr xs) (arr ys) = deep_items xs ys
    deep_equal (obj fs) (obj gs) = eqb (size fs) (size gs) && deep_fields fs gs
    deep_equal _ _ = false

    pub deep_items : Items F → Items F → Bool
    deep_items nil nil = true
    deep_items (cons x xs) (cons y ys) = deep_equal x y && deep_items xs ys
    deep_items _ _ = false

    pub deep_fields : Fields F → Fields F → Bool
    deep_fields end gs = true
    deep_fields (field k v fs) gs =
        elim (get k gs) [ none ↦ false | some w ↦ deep_equal v w ] && deep_fields fs gs

-- `==` holds of a number and itself; NaN, which no JSON text denotes, is the float that breaks this.
abbrev pub NumReflexive : {F : Type 0} → Floats F → Type 0
NumReflexive n = (x : _) → n.num_eq x x ≡ true

module _ {F : Type 0} where
  -- fs[k] = v
  unfoldable pub put : String → Value F → Fields F → Fields F
  unfolding Assoc.put
  put k v fs = of_entries (Assoc.put k v (entries fs))

  pub get-put :
      (k j : String) (v : Value F) (fs : Fields F)
      → get j (put k v fs) ≡ (if k == j then some v else get j fs)
  unfolding get put
  get-put k j v fs =
      rw (entries-of_entries (Assoc.put k v (entries fs))) (Assoc.get-put k j v (entries fs))

  -- Every map in the value holds each key once, as Go maps do.
  abbrev mutual
    pub IsWf : Value F → Type 0
    IsWf (arr xs) = ItemsWf xs
    IsWf (obj fs) = FieldsWf fs
    IsWf _ = Unit

    pub ItemsWf : Items F → Type 0
    ItemsWf nil = Unit
    ItemsWf (cons v vs) = IsWf v × ItemsWf vs

    pub FieldsWf : Fields F → Type 0
    FieldsWf end = Unit
    FieldsWf (field k v fs) = (get k fs ≡ none) × IsWf v × FieldsWf fs
