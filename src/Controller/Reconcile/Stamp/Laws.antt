-- ===== src/Controller/Reconcile/Stamp/Laws.antt =====
-- The labels and annotations that stampRegistry leaves.
use mathlib.Core.Path.{subst}
use shelly_operator.Base.{
  Bool, true, false, String, Option, none, some, List, [], ◌∷◌, ◌≡◌, refl, ap, ◌∙◌, ◌==◌, ◌&&◌,
  ◌||◌, not, any, has_prefix, if◌then◌else◌, eq_iff, eq_refl, arith, Bool-cases, inl, inr, Memᴰ,
  All,
}
use shelly_operator.Base.Assoc
use shelly_operator.Base.Assoc.{Assoc, NodupKeys, get-put, get-delete, put-NodupKeys, mem-get}
use shelly_operator.Fleet.Registry.{RegistryEntry, or_empty_text}
use shelly_operator.Controller.Reconcile.Stamp.{
  LabelRules, label_room, label_appliance, label_registry_prefix, annotation_note, put_if,
  put_labels, wanted_labels, wanted_annotations, sanitized, is_present, differs, registry_keys,
  registry_owned_labels, is_stale, remove_unwanted, stamped_labels, stamped_annotations,
}

-- The wanted value, or else the other one.
abbrev pub over : Option String → Option String → Option String
over (some v) o = some v
over none o = o

-- The label keys that the registry owns.
abbrev pub is_owned : String → Bool
is_owned k = label_room == k || (label_appliance == k || has_prefix k label_registry_prefix)

copy-get :
    (k : String) (src dst : Assoc String)
    → NodupKeys src
    → Assoc.get k (Assoc.copy dst src) ≡ over (Assoc.get k src) (Assoc.get k dst)
unfolding Assoc.copy Assoc.get
copy-get k [] dst h = refl
copy-get k ((j, v) ∷ src) dst (fresh, h) = elim (Bool-cases (j == k)) [
  | inl e ↦
      let absent : Assoc.get k src ≡ none =
        subst (λ x. Assoc.get x src ≡ none) ((eq_iff j k).0 e) fresh in
      copy-get k src (Assoc.put j v dst) h ∙ rw (get-put j k v dst) (rw e (rw absent refl))
  | inr e ↦ copy-get k src (Assoc.put j v dst) h ∙ rw (get-put j k v dst) (rw e refl)
]

drop-get :
    (want : Assoc String) (k j : String) (m : Assoc String)
    → Assoc.get k (if not (is_present (Assoc.get j want)) then Assoc.delete j m else m)
      ≡ (if j == k && not (is_present (Assoc.get k want)) then none else Assoc.get k m)
drop-get want k j m = elim (Bool-cases (j == k)) [
  | inl e ↦
      let there : is_present (Assoc.get j want) ≡ is_present (Assoc.get k want) =
        ap (λ x. is_present (Assoc.get x want)) ((eq_iff j k).0 e) in
      ground (arith, get-delete j k m)
  | inr e ↦ ground (arith, get-delete j k m)
]

remove-get :
    (want : Assoc String) (k : String) (ks : List String) (m : Assoc String)
    → Assoc.get k (remove_unwanted want ks m) ≡ (
        if any (λ j. j == k) ks && not (is_present (Assoc.get k want)) then none else Assoc.get k m)
unfolding remove_unwanted
remove-get want k [] m = refl
remove-get want k (j ∷ ks) m =
    let next = if not (is_present (Assoc.get j want)) then Assoc.delete j m else m in
    ground (arith, remove-get want k ks next, drop-get want k j m)

keys-any :
    (k : String) (m : Assoc String)
    → any (λ j. j == k) (registry_keys m)
      ≡ (has_prefix k label_registry_prefix && is_present (Assoc.get k m))
unfolding registry_keys Assoc.get
keys-any k [] = ground arith
keys-any k ((j, v) ∷ m) = elim (Bool-cases (j == k)) [
  | inl e ↦
      let same : has_prefix j label_registry_prefix ≡ has_prefix k label_registry_prefix =
        ap (λ x. has_prefix x label_registry_prefix) ((eq_iff j k).0 e) in
      ground (arith, keys-any k m)
  | inr e ↦ ground (arith, keys-any k m)
]

owned-any :
    (k : String) (m : Assoc String)
    → any (λ j. j == k) (registry_owned_labels m) ≡ (
        label_room == k
        || (label_appliance == k
            || (has_prefix k label_registry_prefix && is_present (Assoc.get k m))))
unfolding registry_owned_labels
owned-any k m = ap (λ b. label_room == k || (label_appliance == k || b)) (keys-any k m)

-- What the stamp leaves under a key.
settled_label :
    (k : String) (room appliance prefixed : Bool) (wanted there : Option String)
    → (if (room || (appliance || (prefixed && is_present (over wanted there))))
          && not (is_present wanted)
        then none
        else over wanted there)
      ≡ over wanted (if room || (appliance || prefixed) then none else there)
settled_label k room appliance prefixed (some v) there = ground arith
settled_label k room appliance prefixed none (some v) = ground arith
settled_label k room appliance prefixed none none = ground arith

pub stamped_labels-get :
    (want labels : Assoc String) (k : String)
    → NodupKeys want
    → Assoc.get k (stamped_labels want labels)
      ≡ over (Assoc.get k want) (if is_owned k then none else Assoc.get k labels)
unfolding stamped_labels
stamped_labels-get want labels k h =
    let merged = Assoc.copy labels want in
    remove-get want k (registry_owned_labels merged) merged
    ∙ rw (owned-any k merged) (
        rw (copy-get k want labels h) (
          settled_label k (label_room == k) (label_appliance == k)
            (has_prefix k label_registry_prefix) (Assoc.get k want) (Assoc.get k labels)))

settled_note :
    (b : Bool) (wanted there : Option String)
    → (if (b || false) && not (is_present wanted) then none else over wanted there)
      ≡ over wanted (if b then none else there)
settled_note b (some v) there = ground arith
settled_note b none there = ground arith

pub stamped_annotations-get :
    (want annotations : Assoc String) (k : String)
    → NodupKeys want
    → Assoc.get k (stamped_annotations want annotations)
      ≡ over (Assoc.get k want) (if annotation_note == k then none else Assoc.get k annotations)
unfolding stamped_annotations
stamped_annotations-get want annotations k h =
    let merged = Assoc.copy annotations want in
    remove-get want k (annotation_note ∷ []) merged
    ∙ rw (copy-get k want annotations h)
        (settled_note (annotation_note == k) (Assoc.get k want) (Assoc.get k annotations))

-- What is wanted is there.
pub differs-false :
    (want have : Assoc String)
    → ((k v : String) → Memᴰ (k, v) want → Assoc.get k have ≡ some v)
    → differs want have ≡ false
unfolding differs
differs-false [] have h = refl
differs-false ((k, v) ∷ want) have h =
    let here : or_empty_text (Assoc.get k have) ≡ v = ap or_empty_text (h k v (Memᴰ.head refl)) in
    let later = differs-false want have (λ j u m. h j u (Memᴰ.tail m)) in
    rw (here, eq_refl v, later) refl

-- No key that fails a test is stale.
pub stale-false :
    (want labels : Assoc String) (ks : List String)
    → All (λ k. Assoc.get k labels ≡ over (Assoc.get k want) none) ks
    → any (is_stale want labels) ks ≡ false
unfolding is_stale
stale-false want labels [] h = refl
stale-false want labels (k ∷ ks) (e, h) =
    rw (e, stale-false want labels ks h) (gone (Assoc.get k want))
  where
    gone : (w : Option String) → (not (is_present w) && is_present (over w none)) || false ≡ false
    gone none = refl
    gone (some v) = refl

pub registry_keys-prefixed :
    (labels : Assoc String)
    → All (λ k. has_prefix k label_registry_prefix ≡ true) (registry_keys labels)
unfolding registry_keys
registry_keys-prefixed [] = tt
registry_keys-prefixed ((k, v) ∷ labels) = elim (Bool-cases (has_prefix k label_registry_prefix)) [
  | inl e ↦ rw e (e, registry_keys-prefixed labels)
  | inr e ↦ rw e (registry_keys-prefixed labels)
]

put_if-NodupKeys :
    (b : Bool) (k v : String) (m : Assoc String) → NodupKeys m → NodupKeys (put_if b k v m)
unfolding put_if
put_if-NodupKeys true k v m h = put-NodupKeys k v m h
put_if-NodupKeys false k v m h = h

module _ ⦃r : LabelRules⦄ where
  put_labels-NodupKeys :
      (labels want : Assoc String) → NodupKeys want → NodupKeys (put_labels labels want)
  unfolding put_labels
  put_labels-NodupKeys [] want h = h
  put_labels-NodupKeys ((k, v) ∷ labels) want h =
      put_labels-NodupKeys labels _ (put_if-NodupKeys _ _ _ want h)

  pub wanted_labels-NodupKeys : (entry : RegistryEntry) → NodupKeys (wanted_labels entry)
  unfolding wanted_labels
  wanted_labels-NodupKeys entry =
      let room = put_if (not (entry.room == "")) label_room (sanitized entry.room) [] in
      let appliance = put_if (not (entry.kind == "")) label_appliance (sanitized entry.kind) room in
      put_labels-NodupKeys entry.labels appliance (
        put_if-NodupKeys (not (entry.kind == "")) label_appliance (sanitized entry.kind) room
          (put_if-NodupKeys (not (entry.room == "")) label_room (sanitized entry.room) [] tt))

pub wanted_annotations-NodupKeys : (entry : RegistryEntry) → NodupKeys (wanted_annotations entry)
unfolding wanted_annotations
wanted_annotations-NodupKeys entry =
    put_if-NodupKeys (not (entry.note == "")) annotation_note entry.note [] tt
