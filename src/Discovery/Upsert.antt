-- ===== src/Discovery/Upsert.antt =====
-- internal/discovery/upsert.go, and the names and labels of api/v1alpha1/device_helpers.go.
use Prim.Native.Char.{code}
use Prim.Native.String.{◌++◌ as str_append}
use shelly_operator.Base.{
  ℕ, pos, int32, Bool, true, false, String, Option, none, some, [], ◌∷◌, ◌==◌, ◌&&◌, ◌||◌, eqb,
  codes, Result, ok, err, if◌then◌else◌,
}
use shelly_operator.Base.Assoc
use shelly_operator.Base.Assoc.{Assoc}
use shelly_operator.Api.Device.{ShellyDevice}
use shelly_operator.Api.Server.{
  ApiError, not_found, conflict, other, api_error_text, Act, done, ◌>>=◌,
}
use shelly_operator.Fleet.Sanitize.{sanitize_label_value}
use shelly_operator.Fleet.Registry.{or_empty_text}
use shelly_operator.Controller.Reconcile.Stamp.{text_of}
use shelly_operator.Discovery.Store.{
  DeviceInfo, CreateError, already_exists, not_created, created, relabelled, status_written,
  Outside, Names, Sweep, ask, write,
}

-- The replacer of DeviceObjectName.
unfoldable pub strip_separators : String → String
strip_separators String.[] = ""
strip_separators (String.◌∷◌ c s) =
    let rest = strip_separators s in
    if eqb (code c) 58 || eqb (code c) 45 then rest else String.◌∷◌ c rest

module _ ⦃names : Names⦄ where
  unfoldable pub device_object_name : String → String
  unfolding strip_separators
  device_object_name mac = names.lower (strip_separators mac)

  unfoldable pub device_labels : DeviceInfo → Assoc String
  device_labels info =
      ("shelly.thirdimpact.io/model", text_of (sanitize_label_value (codes info.model)))
      ∷ ("shelly.thirdimpact.io/app", text_of (sanitize_label_value (codes info.app)))
      ∷ ("shelly.thirdimpact.io/gen", names.itoa (int32 info.gen))
      ∷ []

-- Found
pub record Found : Type 0 where
  pub host : String
  pub info : DeviceInfo

unfoldable pub has_labels : Assoc String → Assoc String → Bool
has_labels have [] = true
has_labels have ((k, v) ∷ want) = or_empty_text (Assoc.get k have) == v && has_labels have want

-- The object that is created: only named and labelled.
abbrev pub new_device : String → Assoc String → ShellyDevice
new_device name labels = record {
  name = name;
  labels = labels;
  annotations = [];
  spec = record { paused = false; display_name = ""; profile_ref = "" };
  status = record {
    address = "";
    mac = "";
    model = "";
    app = "";
    gen = pos 0;
    firmware = "";
    available_firmware = "";
    auth_enabled = false;
    restart_required = false;
    last_firmware_update = none;
    device_name = "";
    online = false;
    last_seen = none;
    matched_profile = "";
    drifted_sections = [];
    in_sync = none;
  };
}

-- The fields that a probe sets.
unfoldable pub refreshed : ℕ → Found → ShellyDevice → ShellyDevice
refreshed now f dev = record dev {
  status = record dev.status {
    address = f.host;
    mac = f.info.mac;
    model = f.info.model;
    app = f.info.app;
    gen = int32 f.info.gen;
    firmware = f.info.firmware;
    auth_enabled = f.info.auth_enabled;
    device_name = f.info.name;
    online = true;
    last_seen = some now;
  };
}

abbrev pub discovery_error : String → String → String → Option String
discovery_error what name text = some (str_append what (str_append name (str_append ": " text)))

unfoldable pub status_answer : String → Result ApiError ShellyDevice → Option String
status_answer name (ok server) = none
status_answer name (err (conflict text)) = none
status_answer name (err (not_found text)) = discovery_error "discovery: update status " name text
status_answer name (err (other text)) = discovery_error "discovery: update status " name text

module _ {S : Type 0} ⦃names : Names⦄ (out : Outside S) (now : ℕ) (f : Found) where
  -- The status update, of the object in memory.
  unfoldable pub write_status : String → ShellyDevice → Act (Sweep S) (Option String)
  unfolding refreshed
  write_status name dev = do
    answer ←
        write (status_written dev (refreshed now f dev)) (out.status_update (refreshed now f dev))
    done (status_answer name answer)

  unfoldable pub created_answer :
      String → Result CreateError ShellyDevice → Act (Sweep S) (Option String)
  created_answer name (ok dev) = write_status name dev
  created_answer name (err (already_exists text)) = done none
  created_answer name (err (not_created text)) =
      done (discovery_error "discovery: create " name text)

  unfoldable pub relabelled_answer :
      String → Result ApiError ShellyDevice → Act (Sweep S) (Option String)
  relabelled_answer name (ok dev) = write_status name dev
  relabelled_answer name (err e) =
      done (discovery_error "discovery: update labels " name (api_error_text e))

  abbrev pub with_labels : ShellyDevice → ShellyDevice
  with_labels dev = record dev { labels = Assoc.copy dev.labels (device_labels f.info) }

  unfoldable pub apply_found : String → Result ApiError ShellyDevice → Act (Sweep S) (Option String)
  apply_found name (err (not_found text)) = do
    answer ←
        write (created (new_device name (device_labels f.info)))
          (out.create (new_device name (device_labels f.info)))
    created_answer name answer
  apply_found name (err (conflict text)) = done (discovery_error "discovery: get " name text)
  apply_found name (err (other text)) = done (discovery_error "discovery: get " name text)
  apply_found name (ok dev) =
      if has_labels dev.labels (device_labels f.info) then write_status name dev else (do
        answer ← write (relabelled dev (with_labels dev)) (out.update (with_labels dev))
        relabelled_answer name answer)

  -- The error, where there is one.
  unfoldable pub apply_device : Act (Sweep S) (Option String)
  apply_device = do
    read ← ask (out.get (device_object_name f.info.mac))
    apply_found (device_object_name f.info.mac) read
