-- ===== src/Tests/Reconcile.antt =====
-- Reconcile against an environment whose answers are fixed. The state counts nanoseconds.
use shelly_operator.Base.{
  ℕ, ◌+◌, ◌/◌, ◌%◌, ℤ, pos, true, false, String, none, some, List, [], ◌∷◌, ◌++◌, ◌≡◌, refl, inl,
  Result, ok, err, All, ◌==◌,
}
use mathlib.Core.Path.{subst}
use shelly_operator.Api.Server.{ApiError, ◌>>=◌}
use shelly_operator.Drift.Diff.{Finding}
use shelly_operator.Api.Profile.{ShellyProfile, is_enforce, mode_observe, RebootWindow}
use shelly_operator.Api.Device.{
  ShellyDevice, Condition, true_status, false_status, in_sync, drifted,
}
use shelly_operator.Fleet.Registry.{Decoding, no_entry}
use shelly_operator.Shelly.Methods.{Calls, Texts}
use shelly_operator.Shellytest.Config.{snapshot}
use shelly_operator.Controller.Schedule.{Codec}
use shelly_operator.Controller.Window.{Zones}
use shelly_operator.Controller.World.{
  Effect, World, Env, status_patched, event_recorded, patch_status, perform, ask, record_event,
  record_event_if,
}
use shelly_operator.Controller.Reconcile.Status.{
  finish, finished, finish_patched, finish_event, set_in_place, is_transition, same_status,
  reason_text, jitter,
}
use shelly_operator.Controller.Reconcile.Stamp.{LabelRules}
use shelly_operator.Controller.Reconcile.Findings.{Format, Settings}
use shelly_operator.Controller.Reconcile.Run.{reconcile}
use shelly_operator.Controller.Reconcile.Safety.{
  IsPassive, Prepared, IsModest, IsCluster, reconcile-observes, reconcile-Prepared,
  reconcile-IsModest, reconcile-idle,
}
use shelly_operator.Tests.Fixtures.{whole, by_room, device, profile, plug_config}

instance abbrev pub plain_codec : Codec ℤ
plain_codec = record {
  marshal = λ fs. "{}";
  equal_fold = λ a b. a == b;
  quote = λ s. s;
  type_error = λ v. "no map";
}

instance abbrev pub texts : Texts
texts = record { to_upper = λ s. s; sha256hex = λ s. s; atoi_error = λ cs. "invalid syntax" }

instance abbrev pub rules : LabelRules
rules = record { lower = λ r. r; is_qualified_name = λ s. true }

instance abbrev decoding : Decoding
decoding = record { unmarshal = λ s. ok no_entry; quote = λ s. s; namespace = "default" }

abbrev format : Format ℤ
format = record { show = λ v. "value"; quote = λ s. s; diff_error = λ e. "bad section" }

abbrev zones : Zones ℕ ℕ
zones = record {
  utc = 0;
  load_location = λ name. none;
  hour = λ t z. (t + z) / 60 % 24;
  minute = λ t z. (t + z) % 60;
}

abbrev settings : Settings
settings = record {
  name_map_name = "";
  registry_name = "";
  interval = pos 300;
  update_spacing = pos 60;
}

-- A device that takes every call, and has an update on offer.
abbrev pub calls : Calls ℤ ℕ
calls = record {
  call_config = λ c method params s. (ok (snapshot plug_config), s);
  call_set_config = λ c method params s. (ok false, s);
  call_sys_status =
      λ c method params s. (ok (record { stable = some "1.1"; restart_required = true }), s);
  call = λ c method params s. (ok tt, s);
  schedules = λ c. record {
    schedule_list = λ s. (ok [], s);
    schedule_create = λ enable timespec cs s. (ok (pos 1), s);
    schedule_update = λ job s. (ok tt, s);
    schedule_delete = λ id s. (ok tt, s);
  };
  probe = λ host s. (ok "plug-1", s);
}

abbrev env : ShellyDevice → ShellyProfile ℤ String → Env ℤ String ℕ
env dev p = record {
  calls = calls;
  now = λ s. (s, s + 1);
  spread = λ d s. (d, s);
  get_device = λ name s. (ok dev, s);
  list_devices = λ s. (ok (dev ∷ []), s);
  list_profiles = λ s. (ok (p ∷ []), s);
  get_config_map = λ name s. (ok [], s);
  get_secret = λ name s. (ok [], s);
  patch_status = λ base new s. (ok new, s);
  patch_object = λ base new s. (ok new, s);
  recorder = true;
}

abbrev night : RebootWindow
night = record { start = "23:00"; end_time = "01:30"; time_zone = "" }

abbrev pub enforcing : ShellyProfile ℤ String
enforcing =
    let p = profile "halls" (pos 1) (some "hall") in
    record p {
      spec = record p.spec {
        reboot_when_required = true;
        update_when_available = true;
        update_window = some night;
      };
    }

abbrev observing : ShellyProfile ℤ String
observing = record enforcing { spec = record enforcing.spec { mode = mode_observe } }

abbrev pub plug : ShellyDevice
plug = device "hall" ""

abbrev start : World ℕ
start = record { outside = 5; log = []; last_update_start = 0; clients = [] }

abbrev AllObserve : Result ApiError (List (ShellyProfile ℤ String)) → Type 0
AllObserve (ok profiles) = All (λ (p : ShellyProfile ℤ String). is_enforce p ≡ false) profiles
AllObserve (err e) = Unit

reconcile-observes_example :
    (new : List Effect) × ((reconcile format
        (env plug observing)
        zones
        settings
        "plug-1"
        start).1.log
      ≡ new ++ [])
    × All IsPassive new
reconcile-observes_example =
    reconcile-observes format (env plug observing) zones settings
      (λ s profiles e. subst AllObserve e (refl, tt)) "plug-1" start

reconcile-Prepared_example :
    (new : List Effect) × ((reconcile format
        (env plug enforcing)
        zones
        settings
        "plug-1"
        start).1.log
      ≡ new ++ [])
    × Prepared new
reconcile-Prepared_example =
    reconcile-Prepared format (env plug enforcing) zones settings "plug-1" start

reconcile-IsModest_example :
    (new : List Effect) × ((reconcile format
        (env plug enforcing)
        zones
        settings
        "plug-1"
        start).1.log
      ≡ new ++ [])
    × All IsModest new
reconcile-IsModest_example =
    reconcile-IsModest format (env plug enforcing) zones settings "plug-1" start

abbrev paused_plug : ShellyDevice
paused_plug = record plug { spec = record plug.spec { paused = true } }

reconcile-idle_example :
    (new : List Effect) × ((reconcile format
        (env paused_plug enforcing)
        zones
        settings
        "plug-1"
        start).1.log
      ≡ new ++ [])
    × All IsCluster new
reconcile-idle_example =
    reconcile-idle format (env paused_plug enforcing) zones settings "plug-1" start paused_plug refl
      (inl refl)

-- The condition of a device that was in sync changes to drifted, and no event is recorded; without an
-- earlier condition one is.
abbrev now_drifted : Condition
now_drifted = record { status = false_status; reason = drifted; message = "drift" }

abbrev was_in_sync : ShellyDevice
was_in_sync = record plug {
  status = record plug.status {
    in_sync = some (record { status = true_status; reason = in_sync; message = "" });
  };
}

abbrev none_found : List (Finding ℤ)
none_found = []

silent :
    (finish (env plug observing) (pos 300) was_in_sync now_drifted none_found "lights" start).1.log
    ≡ status_patched was_in_sync (finished was_in_sync now_drifted none_found "lights") true ∷ []
unfolding finish ◌>>=◌ patch_status perform finish_patched set_in_place finish_event is_transition
    jitter ask same_status reason_text
silent = refl

announced :
    (finish (env plug observing) (pos 300) plug now_drifted none_found "lights" start).1.log
    ≡ event_recorded true "Drifted"
      ∷ status_patched plug (finished plug now_drifted none_found "lights") true
      ∷ []
unfolding finish ◌>>=◌ patch_status perform finish_patched set_in_place finish_event is_transition
    jitter ask record_event record_event_if same_status reason_text
announced = refl
