-- ===== src/Controller/Reconcile/Stamp.antt =====
-- stampRegistry of internal/controller/shellydevice_controller.go: the registry's labels and note on
-- the device object.
pub mod Logs
pub mod Laws
pub mod Settled
use Prim.Native.Char.{Char}
use Prim.Native.String.{◌++◌ as str_append, char_at}
use shelly_operator.Base.{
  ℕ, ◌-◌, Bool, true, false, String, Option, none, some, List, [], ◌∷◌, ◌==◌, ◌&&◌, ◌||◌, not, any,
  has_prefix, codes, Result, ok, err, if◌then◌else◌,
}
use shelly_operator.Base.Assoc
use shelly_operator.Base.Assoc.{Assoc}
use shelly_operator.Fleet.Sanitize.{sanitize_label}
use shelly_operator.Fleet.Registry.{RegistryEntry, Decoding, or_empty_text, resolve_registry}
use shelly_operator.Api.Device.{ShellyDevice}
use shelly_operator.Api.Server.{
  Act, done, ◌>>=◌, ◌>>◌, ApiError, not_found, conflict, other, Reader,
}

abbrev pub label_room : String
label_room = "shelly.thirdimpact.io/room"

abbrev pub label_appliance : String
label_appliance = "shelly.thirdimpact.io/appliance"

abbrev pub annotation_note : String
annotation_note = "shelly.thirdimpact.io/note"

abbrev pub label_registry_prefix : String
label_registry_prefix = "registry.shelly.thirdimpact.io/"

-- unicode.ToLower, and validation.IsQualifiedName of apimachinery: whether a label key is valid.
pub record LabelRules : Type 0 where
  pub lower : ℕ → ℕ
  pub is_qualified_name : String → Bool

abbrev printable : String
printable =
    " !\"#$%&'()*+,-./0123456789:;<=>?@ABCDEFGHIJKLMNOPQRSTUVWXYZ[\\]^_`abcdefghijklmnopqrstuvwxyz{|}~"

-- The text of code points; a sanitized label has printable ASCII ones only.
unfoldable pub text_of : List ℕ → String
text_of [] = ""
text_of (r ∷ rs) = String.◌∷◌ (char_at printable (r - 32)) (text_of rs)

-- The device's labels, and its annotations, as the registry wants them.
unfoldable pub put_if : Bool → String → String → Assoc String → Assoc String
put_if b k v m = if b then Assoc.put k v m else m

module _ ⦃r : LabelRules⦄ where
  unfoldable pub sanitized : String → String
  unfolding text_of sanitize_label
  sanitized s = text_of (sanitize_label r.lower (codes s))

  -- The loop over entry.Labels.
  unfoldable pub put_labels : Assoc String → Assoc String → Assoc String
  unfolding put_if sanitized
  put_labels [] want = want
  put_labels ((k, v) ∷ labels) want =
      let key = str_append label_registry_prefix k in
      put_labels labels (put_if (r.is_qualified_name key) key (sanitized v) want)

  unfoldable pub wanted_labels : RegistryEntry → Assoc String
  unfolding put_if sanitized put_labels
  wanted_labels entry =
      let room = put_if (not (entry.room == "")) label_room (sanitized entry.room) [] in
      let appliance = put_if (not (entry.kind == "")) label_appliance (sanitized entry.kind) room in
      put_labels entry.labels appliance

unfoldable pub wanted_annotations : RegistryEntry → Assoc String
unfolding put_if
wanted_annotations entry = put_if (not (entry.note == "")) annotation_note entry.note []

abbrev pub is_present : Option String → Bool
is_present none = false
is_present (some v) = true

-- dev.Labels[k] != v for a wanted entry
unfoldable pub differs : Assoc String → Assoc String → Bool
differs [] have = false
differs ((k, v) ∷ want) have = not (or_empty_text (Assoc.get k have) == v) || differs want have

unfoldable pub registry_keys : Assoc String → List String
registry_keys [] = []
registry_keys ((k, v) ∷ labels) =
    let rest = registry_keys labels in if has_prefix k label_registry_prefix then k ∷ rest else rest

unfoldable pub registry_owned_labels : Assoc String → List String
unfolding registry_keys
registry_owned_labels labels = label_room ∷ label_appliance ∷ registry_keys labels

-- A label that is no longer wanted is there.
unfoldable pub is_stale : Assoc String → Assoc String → String → Bool
is_stale want labels k = not (is_present (Assoc.get k want)) && is_present (Assoc.get k labels)

unfoldable pub remove_unwanted : Assoc String → List String → Assoc String → Assoc String
remove_unwanted want [] labels = labels
remove_unwanted want (k ∷ ks) labels =
    remove_unwanted want ks
      (if not (is_present (Assoc.get k want)) then Assoc.delete k labels else labels)

unfoldable pub stamped_labels : Assoc String → Assoc String → Assoc String
unfolding remove_unwanted registry_owned_labels
stamped_labels want labels =
    let merged = Assoc.copy labels want in
    remove_unwanted want (registry_owned_labels merged) merged

unfoldable pub stamped_annotations : Assoc String → Assoc String → Assoc String
unfolding remove_unwanted
stamped_annotations want annotations =
    remove_unwanted want (annotation_note ∷ []) (Assoc.copy annotations want)

-- The `changed` of stampRegistry.
unfoldable pub stamp_needed : (labels annotations : Assoc String) → ShellyDevice → Bool
unfolding differs is_stale registry_owned_labels
stamp_needed labels annotations dev =
    differs labels dev.labels
    || (any (is_stale labels dev.labels) (registry_owned_labels dev.labels)
        || (differs annotations dev.annotations
            || is_stale annotations dev.annotations annotation_note))

unfoldable pub stamped : (labels annotations : Assoc String) → ShellyDevice → ShellyDevice
unfolding stamped_labels stamped_annotations
stamped labels annotations dev = record dev {
  labels = stamped_labels labels dev.labels;
  annotations = stamped_annotations annotations dev.annotations;
}

-- The error of the patch, where it counts, and the device in memory; a conflict is left to the next
-- reconcile.
unfoldable pub stamp_answer :
    ShellyDevice → Result ApiError ShellyDevice → Option String × ShellyDevice
stamp_answer dev (ok server) = (none, server)
stamp_answer dev (err (conflict e)) = (none, dev)
stamp_answer dev (err (not_found e)) = (some (str_append "stamping registry labels: " e), dev)
stamp_answer dev (err (other e)) = (some (str_append "stamping registry labels: " e), dev)

module _ {W : Type 0}
    (patch : (base dev : ShellyDevice) → Act W (Result ApiError ShellyDevice)) where
  unfoldable pub stamp_patch : (base dev : ShellyDevice) → Act W (Option String × ShellyDevice)
  stamp_patch base dev = do answer ← patch base dev; done (stamp_answer dev answer)

  unfoldable pub stamp_entry :
      ⦃r : LabelRules⦄
      → ShellyDevice
      → Result String RegistryEntry
      → Act W (Option String × ShellyDevice)
  stamp_entry dev (err e) = done (some (str_append "reading registry: " e), dev)
  stamp_entry dev (ok entry) =
      let labels = wanted_labels entry in
      let annotations = wanted_annotations entry in
      if not (stamp_needed labels annotations dev)
      then done (none, dev)
      else stamp_patch dev (stamped labels annotations dev)

  unfoldable pub stamp_registry :
      ⦃r : LabelRules⦄
      → ⦃d : Decoding⦄ → Option (Reader W)
      → String
      → ShellyDevice
      → Act W (Option String × ShellyDevice)
  stamp_registry reader registry_name dev = do
    entry ← resolve_registry reader dev registry_name
    stamp_entry dev entry
