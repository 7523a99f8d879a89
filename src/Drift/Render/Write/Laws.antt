-- ===== src/Drift/Render/Write/Laws.antt =====
-- Writing into a map that holds each key once.
use shelly_operator.Base.{
  Bool, String, Option, none, some, ◌≡◌, refl, ap, ◌==◌, eq_iff, arith, if◌then◌else◌, Bool-cases,
  inl, inr,
}
use shelly_operator.Base.Assoc
use shelly_operator.Base.Assoc.{Assoc}
use shelly_operator.Json.{
  Value, Fields, bool, num, str, obj, end, field, get, put, entries, of_entries, get-put, IsWf,
  FieldsWf,
}
use shelly_operator.Json.Wf.{get-end}
use shelly_operator.Drift.Render.Write.{put_some, put_object, none_if_empty}

module _ {F : Type 0} where
  of_entries-entries : (fs : Fields F) → of_entries (entries fs) ≡ fs
  of_entries-entries end = refl
  of_entries-entries (field k v fs) = ap (λ r. field k v r) (of_entries-entries fs)

  put-field :
      (k j : String) (v w : Value F) (fs : Fields F)
      → put k v (field j w fs) ≡ (if j == k then field k v fs else field j w (put k v fs))
  unfolding put Assoc.put
  put-field k j v w fs = elim (Bool-cases (j == k)) [
    | inl e ↦ rw e (ap (λ r. field k v r) (of_entries-entries fs))
    | inr e ↦ rw e refl
  ]

  put-end : (k : String) (v : Value F) → put k v end ≡ field k v end
  unfolding put Assoc.put
  put-end k v = refl

  pub put-FieldsWf :
      (k : String) (v : Value F) (fs : Fields F) → IsWf v → FieldsWf fs → FieldsWf (put k v fs)
  put-FieldsWf k v end w h = rw put-end (get-end k, w, tt)
  put-FieldsWf k v (field j x fs) w h = elim (Bool-cases (j == k)) [
    | inl e ↦ rw (put-field k j v x fs) (rw e (ap_get ((eq_iff j k).0 e) h.0, w, h.2))
    | inr e ↦ rw (put-field k j v x fs) (
        rw e (
          ground (arith, get-put k j v fs, eq_iff k j, eq_iff j k, h.0),
          h.1,
          put-FieldsWf k v fs w h.2,
        ))
  ]
    where
      ap_get : j ≡ k → get j fs ≡ none → get k fs ≡ none
      ap_get e h = rw e at h

  put_some-FieldsWf :
      {A : Type 0} (k : String) (f : A → Value F) (o : Option A) (m : Fields F)
      → ((a : A) → o ≡ some a → IsWf (f a))
      → FieldsWf m
      → FieldsWf (put_some k f o m)
  unfolding put_some
  put_some-FieldsWf k f none m w h = h
  put_some-FieldsWf k f (some a) m w h = put-FieldsWf k (f a) m (w a refl) h

  pub put_object-FieldsWf :
      (k : String) (fs m : Fields F) → FieldsWf fs → FieldsWf m → FieldsWf (put_object k fs m)
  unfolding put_object
  put_object-FieldsWf k end m w h = h
  put_object-FieldsWf k (field j v fs) m w h = put-FieldsWf k (obj (field j v fs)) m w h

  -- A pointer to a Boolean, string or number.
  pub put_bool-FieldsWf :
      (k : String) (o : Option Bool) (m : Fields F) → FieldsWf m → FieldsWf (put_some k bool o m)
  put_bool-FieldsWf k o m h = put_some-FieldsWf k bool o m (λ a e. tt) h

  pub put_str-FieldsWf :
      (k : String) (o : Option String) (m : Fields F) → FieldsWf m → FieldsWf (put_some k str o m)
  put_str-FieldsWf k o m h = put_some-FieldsWf k str o m (λ a e. tt) h

  pub put_num-FieldsWf :
      {A : Type 0} (k : String) (f : A → F) (o : Option A) (m : Fields F)
      → FieldsWf m
      → FieldsWf (put_some k (λ a. num (f a)) o m)
  put_num-FieldsWf k f o m h = put_some-FieldsWf k (λ a. num (f a)) o m (λ a e. tt) h

  pub put_single-FieldsWf :
      {A : Type 0} (k j : String) (f : A → Value F) (o : Option A) (m : Fields F)
      → ((a : A) → IsWf (f a))
      → FieldsWf m
      → FieldsWf (put_some k (λ a. obj (field j (f a) end)) o m)
  put_single-FieldsWf k j f o m w h =
      put_some-FieldsWf k (λ a. obj (field j (f a) end)) o m (λ a e. (get-end j, w a, tt)) h

  -- A nested map that is left out where it is nil.
  abbrev pub MapWf : Option (Fields F) → Type 0
  MapWf none = Unit
  MapWf (some fs) = FieldsWf fs

  pub none_if_empty-MapWf : (fs : Fields F) → FieldsWf fs → MapWf (none_if_empty fs)
  unfolding none_if_empty
  none_if_empty-MapWf end h = tt
  none_if_empty-MapWf (field k v fs) h = h

  pub put_map-FieldsWf :
      (k : String) (o : Option (Fields F)) (m : Fields F)
      → MapWf o
      → FieldsWf m
      → FieldsWf (put_some k obj o m)
  unfolding put_some
  put_map-FieldsWf k none m w h = h
  put_map-FieldsWf k (some fs) m w h = put-FieldsWf k (obj fs) m w h
