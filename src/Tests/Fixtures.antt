-- ===== src/Tests/Fixtures.antt =====
-- Numbers, selectors and a device for the tests.
use shelly_operator.Base.{
  ℤ, pos, eqz, eqz_refl, true, false, String, Option, none, some, [], ◌∷◌, ◌==◌, if◌then◌else◌,
}
use shelly_operator.Base.Assoc
use shelly_operator.Base.Assoc.{Assoc}
use shelly_operator.Json.{Floats, Fields, NumReflexive, bool, str, obj, end, field}
use shelly_operator.Api.Profile.{ProfileConfig, ShellyProfile, WifiNetwork, mode_enforce}
use shelly_operator.Api.Device.{ShellyDevice}
use shelly_operator.Drift.Match.{Selectors, matches}
use shelly_operator.Shellytest.Config.{ConfigDevice}

-- Whole numbers for float64; of the texts only "0" and "1" denote one.
instance abbrev pub whole : Floats ℤ
whole = record {
  of_int = λ z. z;
  num_eq = eqz;
  parse_float = λ s. if s == "0" then some (pos 0) else if s == "1" then some (pos 1) else none;
}

pub whole-NumReflexive : NumReflexive whole
whole-NumReflexive = eqz_refl

-- A selector is the value that the label "room" must have.
instance abbrev pub by_room : Selectors String
by_room = record {
  compile = λ room.
      matches (λ labels. elim (Assoc.get "room" labels) [ none ↦ false | some r ↦ r == room ]);
}

abbrev pub empty_config : ProfileConfig ℤ
empty_config = record {
  system = none;
  name = none;
  mqtt = none;
  cloud = none;
  ble = none;
  ws = none;
  auth = none;
  switch = none;
  wifi = none;
  firmware = none;
  schedules = none;
  ui = none;
}

abbrev pub home : WifiNetwork
home = record { enable = some true; ssid = "home"; pass_secret_ref = none }

abbrev pub config : ProfileConfig ℤ
config = record empty_config {
  mqtt = some (record { enable = some true; server = "broker:1883" });
  wifi = some (record { sta = some home; sta1 = none; ap = none; roam = none });
}

abbrev pub plug_config : Assoc (Fields ℤ)
plug_config =
    ("mqtt", field "enable" (bool false) (field "server" (str "broker:1883") end))
    ∷ ("wifi", field "sta" (obj (field "ssid" (str "home") (field "enable" (bool true) end))) end)
    ∷ []

abbrev pub plug : ConfigDevice ℤ
plug = record {
  restart_on_set_config = false;
  set_config_error = "";
  ignore_set_config = false;
  get_config_error_after = 0;
  get_config_calls = 0;
  config = plug_config;
}

abbrev pub profile : String → ℤ → Option String → ShellyProfile ℤ String
profile name priority room = record {
  name = name;
  spec = record {
    selector = room;
    priority = priority;
    mode = mode_enforce;
    config = config;
    reboot_when_required = false;
    reboot_window = none;
    update_when_available = false;
    update_window = none;
  };
}

abbrev pub device : String → String → ShellyDevice
device room profile_ref = record {
  name = "plug-1";
  labels = ("room", room) ∷ [];
  annotations = [];
  spec = record { paused = false; display_name = ""; profile_ref = profile_ref };
  status = record {
    address = "10.0.0.7";
    mac = "";
    model = "";
    app = "";
    gen = pos 2;
    firmware = "1.0";
    available_firmware = "";
    auth_enabled = false;
    restart_required = false;
    last_firmware_update = none;
    device_name = "";
    online = true;
    last_seen = none;
    matched_profile = "";
    drifted_sections = [];
    in_sync = none;
  };
}
