-- ===== src/Exporter.antt =====
-- internal/exporterfeed: the list of devices for shelly_exporter, kept in a ConfigMap.
pub mod Laws
use Prim.Native.String.{◌++◌ as str_append}
use shelly_operator.Base.{
  ℤ, Bool, true, false, String, Option, none, some, List, [], ◌∷◌, ◌==◌, ◌&&◌, ◌||◌, not, str_ltb,
  Result, ok, err, if◌then◌else◌,
}
use shelly_operator.Base.Assoc
use shelly_operator.Base.Assoc.{Assoc}
use shelly_operator.Base.Sort.{sort}
use shelly_operator.Api.Device.{ShellyDevice}
use shelly_operator.Api.Server.{
  ApiError, not_found, conflict, other, api_error_text, Act, done, ◌>>=◌, ◌>>◌,
}
use shelly_operator.Fleet.Registry.{or_empty_text}

pub record Options : Type 0 where
  pub listen_address : String
  pub debug : Bool
  pub device_update_interval : ℤ

-- exporterConfig; a device in it is its host.
pub record ExporterConfig : Type 0 where
  pub listen_address : String
  pub debug : Bool
  pub device_update_interval : ℤ
  pub devices : List String

abbrev pub is_listed : ShellyDevice → Bool
is_listed dev = dev.status.online && not (dev.status.address == "")

-- The addresses of the devices that are online.
unfoldable pub addresses : List ShellyDevice → List String
addresses [] = []
addresses (dev ∷ devs) =
    let rest = addresses devs in if is_listed dev then dev.status.address ∷ rest else rest

-- slices.Compact: of equal texts in a row only the first stays.
unfoldable pub compact_after : String → List String → List String
compact_after x [] = []
compact_after x (y ∷ ys) = let rest = compact_after y ys in if y == x then rest else y ∷ rest

unfoldable pub compact : List String → List String
unfolding compact_after
compact [] = []
compact (x ∷ xs) = x ∷ compact_after x xs

unfoldable pub hosts : List ShellyDevice → List String
unfolding addresses compact
hosts devs = compact (sort str_ltb (addresses devs))

unfoldable pub exporter_config : List ShellyDevice → Options → ExporterConfig
exporter_config devs opts = record {
  listen_address = opts.listen_address;
  debug = opts.debug;
  device_update_interval = opts.device_update_interval;
  devices = hosts devs;
}

-- UpdateFunc of SetupWithManager.
abbrev differ : Bool → Bool → Bool
differ a b = (a && not b) || (not a && b)

unfoldable pub is_relevant : ShellyDevice → ShellyDevice → Bool
is_relevant old new =
    differ old.status.online new.status.online || not (old.status.address == new.status.address)

pub record ConfigMap : Type 0 where
  pub labels : Assoc String
  pub items : Assoc String

-- sigs.k8s.io/yaml and the API server, for the namespace and the name of the ConfigMap.
pub record Feed (S : Type 0) : Type 0 where
  pub marshal : ExporterConfig → Result String String
  pub name : String
  pub options : Options
  pub list : Act S (Result ApiError (List ShellyDevice))
  pub get : Act S (Result ApiError ConfigMap)
  pub create : ConfigMap → Act S (Result ApiError (Unit {0}))
  pub update : ConfigMap → Act S (Result ApiError (Unit {0}))

abbrev pub data_key : String
data_key = "config.yaml"

unfoldable pub render_config :
    (ExporterConfig → Result String String) → List ShellyDevice → Options → Result String String
render_config marshal devs opts = marshal (exporter_config devs opts)

module _ {S : Type 0} (feed : Feed S) where
  -- The error of a write.
  unfoldable pub written : String → Result ApiError (Unit {0}) → Option String
  written what (ok u) = none
  written what (err e) = some (
      str_append "exporterfeed: " (
        str_append what
          (str_append " " (str_append feed.name (str_append ": " (api_error_text e))))))

  abbrev pub new_config_map : String → ConfigMap
  new_config_map rendered = record {
    labels = ("app.kubernetes.io/managed-by", "shelly-operator") ∷ [];
    items = (data_key, rendered) ∷ [];
  }

  unfoldable pub with_config_map : String → Result ApiError ConfigMap → Act S (Option String)
  with_config_map rendered (err (not_found text)) = do
    answer ← feed.create (new_config_map rendered)
    done (written "create" answer)
  with_config_map rendered (err (conflict text)) = done (written "get" (err (conflict text)))
  with_config_map rendered (err (other text)) = done (written "get" (err (other text)))
  with_config_map rendered (ok cm) =
      if or_empty_text (Assoc.get data_key cm.items) == rendered then done none else (do
        answer ← feed.update (record cm { items = Assoc.put data_key rendered cm.items })
        done (written "update" answer))

  unfoldable pub with_rendered : Result String String → Act S (Option String)
  with_rendered (err text) = done (some (str_append "exporterfeed: render: " text))
  with_rendered (ok rendered) = do cm ← feed.get; with_config_map rendered cm

  unfoldable pub with_devices : Result ApiError (List ShellyDevice) → Act S (Option String)
  with_devices (err e) = done (some (str_append "exporterfeed: list devices: " (api_error_text e)))
  with_devices (ok devs) = with_rendered (render_config feed.marshal devs feed.options)

  -- The error, where there is one.
  unfoldable pub reconcile_feed : Act S (Option String)
  reconcile_feed = do devs ← feed.list; with_devices devs
