-- ===== src/Controller/Reconcile/Stamp/Settled.antt =====
-- stampRegistry a second time.
use shelly_operator.Base.{
  true, false, String, none, List, [], ◌∷◌, ◌≡◌, refl, ◌∙◌, any, has_prefix, if◌then◌else◌, arith,
  All,
}
use shelly_operator.Base.Assoc
use shelly_operator.Base.Assoc.{Assoc, NodupKeys, mem-get}
use shelly_operator.Fleet.Registry.{RegistryEntry}
use shelly_operator.Api.Device.{ShellyDevice}
use shelly_operator.Controller.Reconcile.Stamp.{
  LabelRules, label_room, label_appliance, label_registry_prefix, annotation_note, wanted_labels,
  wanted_annotations, differs, registry_keys, registry_owned_labels, is_stale, stamped_labels,
  stamped_annotations, stamp_needed, stamped,
}
use shelly_operator.Controller.Reconcile.Stamp.Laws.{
  over, is_owned, stamped_labels-get, stamped_annotations-get, differs-false, stale-false,
  registry_keys-prefixed, wanted_labels-NodupKeys, wanted_annotations-NodupKeys,
}

module _ (want labels : Assoc String) (h : NodupKeys want) where
  owned_settled :
      (k : String)
      → is_owned k ≡ true
      → Assoc.get k (stamped_labels want labels) ≡ over (Assoc.get k want) none
  owned_settled k e = stamped_labels-get want labels k h ∙ rw e refl

  keys_settled :
      (ks : List String)
      → All (λ k. has_prefix k label_registry_prefix ≡ true) ks
      → All (λ k. Assoc.get k (stamped_labels want labels) ≡ over (Assoc.get k want) none) ks
  keys_settled [] p = tt
  keys_settled (k ∷ ks) (e, p) = (owned_settled k (ground arith), keys_settled ks p)

  labels_match : differs want (stamped_labels want labels) ≡ false
  labels_match =
      differs-false want (stamped_labels want labels)
        λ k v m. stamped_labels-get want labels k h ∙ rw (mem-get want h m) refl

  labels_fresh :
      any
        (is_stale want (stamped_labels want labels))
        (registry_owned_labels (stamped_labels want labels))
      ≡ false
  unfolding registry_owned_labels
  labels_fresh =
      let all = stamped_labels want labels in
      stale-false want all (label_room ∷ label_appliance ∷ registry_keys all) (
        owned_settled label_room refl,
        (
          owned_settled label_appliance refl,
          keys_settled (registry_keys all) (registry_keys-prefixed all),
        ),
      )

  annotations_match : differs want (stamped_annotations want labels) ≡ false
  annotations_match =
      differs-false want (stamped_annotations want labels)
        λ k v m. stamped_annotations-get want labels k h ∙ rw (mem-get want h m) refl

  note_fresh : any (is_stale want (stamped_annotations want labels)) (annotation_note ∷ []) ≡ false
  note_fresh =
      stale-false want (stamped_annotations want labels) (annotation_note ∷ [])
        (stamped_annotations-get want labels annotation_note h, tt)

module _ ⦃r : LabelRules⦄ where
  -- After the stamp of a registry entry, a label has the wanted value where one is wanted; where none is,
  -- it is gone if its key is room, appliance or under the registry's prefix, and else as it was. With the
  -- same entry nothing is left to stamp.
  pub stamped_lem :
      (entry : RegistryEntry) (dev : ShellyDevice)
      → let labels = wanted_labels entry in
        let annotations = wanted_annotations entry in
        let dev' = stamped labels annotations dev in
        ((k : String)
          → Assoc.get k dev'.labels
            ≡ over (Assoc.get k labels) (if is_owned k then none else Assoc.get k dev.labels))
        × (stamp_needed labels annotations dev' ≡ false)
  unfolding stamped stamp_needed
  stamped_lem entry dev =
      let nl = wanted_labels-NodupKeys entry in
      let na = wanted_annotations-NodupKeys entry in
      (
        λ k. stamped_labels-get (wanted_labels entry) dev.labels k nl,
        rw (labels_match (wanted_labels entry) dev.labels nl) (
            rw (labels_fresh (wanted_labels entry) dev.labels nl) (
              rw (annotations_match (wanted_annotations entry) dev.annotations na) (
                let note = note_fresh (wanted_annotations entry) dev.annotations na in
                ground arith))),
      )
