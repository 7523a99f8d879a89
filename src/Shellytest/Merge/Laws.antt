-- ===== src/Shellytest/Merge/Laws.antt =====
-- The values at the paths of a merged map.
use mathlib.Core.Path.{subst}
use shelly_operator.Base.{
  String, Option, none, some, List, [], ◌∷◌, ◌≡◌, ◌⊎◌, inl, inr, refl, ap, ◌∙◌, eq_iff, ◌==◌,
  Bool-cases,
}
use shelly_operator.Json.{Value, Fields, obj, end, field, get, put, as_map, get-put, FieldsWf}
use shelly_operator.Json.Wf.{get-field, get-end, mem-get, mem-IsWf}
use shelly_operator.Drift.Diff.Covers.{IsLeaf, LeafAt, here, under, value_at}
use shelly_operator.Shellytest.Merge.{merge_value, merge}

module _ {F : Type 0} where
  -- The value of a key after a merge, from what it was and what is written.
  abbrev pub merged : Option (Value F) → Option (Value F) → Option (Value F)
  merged none d = d
  merged (some v) d = some (merge_value d v)

  pub get-merge :
      (j : String) (dst src : Fields F)
      → FieldsWf src
      → get j (merge dst src) ≡ merged (get j src) (get j dst)
  unfolding merge
  get-merge j dst end w = rw get-end
  get-merge j dst (field k v rest) w =
      rw (get-merge j (put k (merge_value (get k dst) v) dst) rest w.2) (
        rw get-put (
          rw get-field (elim (Bool-cases (k == j)) [
            | inl e ↦
                let same : k ≡ j = (eq_iff k j).0 e in
                let fresh : get j rest ≡ none = subst (λ x. get x rest ≡ none) same w.0 in
                rw e (rw fresh (ap (λ x. some (merge_value (get x dst) v)) same))
            | inr e ↦ rw e refl
          ])))

  merge_value-leaf : (d : Option (Value F)) (v : Value F) → IsLeaf v → merge_value d v ≡ v
  unfolding merge_value
  merge_value-leaf d (obj fs) l = absurd l
  merge_value-leaf d v l = refl

  -- After a merge of a map that holds each key once, at every level, each of its leaves is found at its
  -- path.
  pub value_at-merge :
      (dst src : Fields F) {p : List String} {v : Value F}
      → FieldsWf src
      → LeafAt src p v
      → value_at p (merge dst src) ≡ some v
  unfolding merge
  value_at-merge dst src w (here {k = k} {v = v} m l) =
      get-merge k dst src w
      ∙ ap (λ x. merged x (get k dst)) (mem-get src w m)
      ∙ ap some (merge_value-leaf (get k dst) v l)
  value_at-merge dst src w (under {gs = gs} {k = k} {j = j} {p = p} m l) =
      let e = get-merge k dst src w ∙ ap (λ x. merged x (get k dst)) (mem-get src w m) in
      rw e (value_at-merge (as_map (get k dst)) gs (mem-IsWf src w m) l)

  -- The source declares nothing at the path, above it or below it.
  abbrev pub Undeclared : List String → Fields F → Type 0
  Undeclared [] src = ⊥
  Undeclared (k ∷ []) src = get k src ≡ none
  Undeclared (k ∷ j ∷ p) src =
      (get k src ≡ none)
      ⊎ ((gs : Fields F) × (get k src ≡ some (obj gs)) × FieldsWf gs × Undeclared (j ∷ p) gs)

  -- After a merge of a map that holds each key once, at every level, the value at a path is what it was,
  -- if the map declares nothing at the path, above it or below it.
  pub value_at-merge-Undeclared :
      (p : List String) (dst src : Fields F)
      → FieldsWf src
      → Undeclared p src
      → value_at p (merge dst src) ≡ value_at p dst
  unfolding merge
  value_at-merge-Undeclared [] dst src w u = refl
  value_at-merge-Undeclared (k ∷ []) dst src w u =
      get-merge k dst src w ∙ ap (λ x. merged x (get k dst)) u
  value_at-merge-Undeclared (k ∷ j ∷ p) dst src w (inl u) =
      rw (get-merge k dst src w ∙ ap (λ x. merged x (get k dst)) u) refl
  value_at-merge-Undeclared (k ∷ j ∷ p) dst src w (inr (gs, e, wg, u)) =
      rw (get-merge k dst src w ∙ ap (λ x. merged x (get k dst)) e)
        (value_at-merge-Undeclared (j ∷ p) (as_map (get k dst)) gs wg u)
