-- ===== src/Drift/Diff.antt =====
-- internal/drift/diff.go: comparing the desired leaves with the device's configuration. A raw
-- section is the JSON value that it denotes.
pub mod Loop
pub mod Covers
pub mod Verdict
pub mod Sections
use Prim.Native.String.{◌++◌ as str_append}
use shelly_operator.Base.{
  Bool, true, false, String, Option, none, some, List, [], ◌∷◌, ◌++◌, ◌==◌, str_ltb, if◌then◌else◌,
  Result, ok, err, ◌>>=◌, not,
}
use shelly_operator.Base.Assoc
use shelly_operator.Base.Assoc.{Assoc}
use shelly_operator.Base.Sort.{sort}
use shelly_operator.Json.{
  Floats, Value, Fields, null, bool, num, str, arr, obj, end, field, get, as_map, deep_equal,
}

-- `want` and `have` are `any`; a nil `have` is `null`.
pub record Finding (F : Type 0) : Type 0 where
  pub section : String
  pub path : String
  pub want : Value F
  pub have : Value F

-- The error of Diff names the section that does not decode.
pub data DiffError : Type 0 where
  decode_section : String → DiffError

-- The order of sortedKeys on the entries of a map.
unfoldable pub key_less {ℓ} : {V : Type ℓ} → String × V → String × V → Bool
key_less a b = str_ltb a.0 b.0

-- Walking a map along its sorted keys.
unfoldable pub by_key {ℓ} : {V : Type ℓ} → Assoc V → Assoc V
unfolding key_less
by_key m = sort key_less m

module _ {ℓ} {A : Type ℓ} where
  -- The results of a walk, joined in its order.
  unfoldable pub join : Assoc (List A) → List A
  join [] = []
  join ((k, x) ∷ m) = x ++ join m

-- path := k; if prefix != "" { path = prefix + "." + k }
unfoldable pub extend : String → String → String
extend prefix k = if prefix == "" then k else str_append prefix (str_append "." k)

-- `have`, as a Go `any`: nil where the key is absent
abbrev pub or_nil : {F : Type 0} → Option (Value F) → Value F
or_nil none = null
or_nil (some h) = h

-- json.Unmarshal into a map[string]any: null leaves the map nil
unfoldable pub decode_map : {F : Type 0} → Value F → Option (Fields F)
decode_map (obj fs) = some fs
decode_map null = some end
decode_map _ = none

module _ {F : Type 0} ⦃n : Floats F⦄ where
  -- toFloat succeeds on float64 alone among decoded values; other leaves go to DeepEqual.
  unfoldable pub leaf_equal : Value F → Value F → Bool
  unfolding deep_equal
  leaf_equal (num a) (num b) = n.num_eq a b
  leaf_equal (num a) _ = false
  leaf_equal w h = deep_equal w h

  -- `ok && leafEqual(w, h)`
  unfoldable pub leaf_ok : Value F → Option (Value F) → Bool
  leaf_ok w none = false
  leaf_ok w (some h) = leaf_equal w h

  unfoldable pub diff_leaf : String → String → Value F → Option (Value F) → List (Finding F)
  diff_leaf section path w h =
      if not (leaf_ok w h)
      then record { section = section; path = path; want = w; have = or_nil h } ∷ []
      else []

  -- One round of diffMap's loop, and the rounds of a map before they are put in key order.
  unfoldable mutual
    pub diff_value : String → String → Value F → Option (Value F) → List (Finding F)
    diff_value section path (obj wm) h = join (by_key (diff_entries section path wm (as_map h)))
    diff_value section path null h = diff_leaf section path null h
    diff_value section path (bool b) h = diff_leaf section path (bool b) h
    diff_value section path (num x) h = diff_leaf section path (num x) h
    diff_value section path (str s) h = diff_leaf section path (str s) h
    diff_value section path (arr xs) h = diff_leaf section path (arr xs) h

    pub diff_entries : String → String → Fields F → Fields F → Assoc (List (Finding F))
    diff_entries section prefix end have = []
    diff_entries section prefix (field k w rest) have =
        (k, diff_value section (extend prefix k) w (get k have))
        ∷ diff_entries section prefix rest have

  unfoldable pub diff_map : String → String → Fields F → Fields F → List (Finding F)
  unfolding diff_value
  diff_map section prefix want have = join (by_key (diff_entries section prefix want have))

  -- One round of Diff's loop, once the section was decoded.
  unfoldable pub diff_decoded :
      String → Fields F → Option (Fields F) → Result DiffError (List (Finding F))
  diff_decoded section want none = err (decode_section section)
  diff_decoded section want (some have) = ok (diff_map section "" want have)

  -- One round of Diff's loop, once the section was looked up.
  unfoldable pub diff_section :
      String → Fields F → Option (Value F) → Result DiffError (List (Finding F))
  diff_section section end raw = ok []
  diff_section section (field k v fs) none =
      ok (record { section = section; path = ""; want = str "section present"; have = null } ∷ [])
  diff_section section (field k v fs) (some raw) =
      diff_decoded section (field k v fs) (decode_map raw)

  unfoldable pub diff_loop :
      Assoc (Fields F) → Assoc (Value F) → Result DiffError (List (Finding F))
  diff_loop [] actual = ok []
  diff_loop ((section, want) ∷ rest) actual = do
    here ← diff_section section want (Assoc.get section actual)
    later ← diff_loop rest actual
    ok (here ++ later)

  unfoldable pub diff : Assoc (Fields F) → Assoc (Value F) → Result DiffError (List (Finding F))
  diff desired actual = diff_loop (by_key desired) actual
