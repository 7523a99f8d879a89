-- ===== src/Controller/World.antt =====
-- What the reconciler of internal/controller does outside its own memory: the calls on devices and on
-- the Kubernetes API, each logged. A step takes the world and returns a result and the new world.
pub mod Logs
pub mod Policy
use shelly_operator.Base.{
  ℕ, Bool, true, false, String, Option, none, some, List, [], ◌∷◌, Result, ok, err,
}
use shelly_operator.Base.Assoc.{Assoc}
use shelly_operator.Json.{Value, Fields}
use shelly_operator.Api.Profile.{ShellyProfile}
use shelly_operator.Api.Device.{ShellyDevice}
use shelly_operator.Api.Server.{ApiError, Act}
use shelly_operator.Shelly.Rpc.{Rpc, DeviceRpc, ScheduleCall, ScheduleJob}
use shelly_operator.Shelly.Methods.{Client, Calls, SysStatus}

-- Of an event, the type (whether it is a warning) and the reason; its message is left out.
pub data Effect : Type 0 where
  -- GET /shelly of a host
  probed : String → Effect
  -- an RPC method
  called : Client → String → Effect
  -- a patch of a device's status, or of the object, from one state to another, and whether it succeeded
  status_patched : (base dev : ShellyDevice) → Bool → Effect
  object_patched : (base dev : ShellyDevice) → Bool → Effect
  event_recorded : Bool → String → Effect

-- Everything outside the process: the devices, the API server, the clock and the random numbers.
-- The API calls are those for the device's namespace. `recorder` is whether r.Recorder is set.
pub record Env (F Sel S : Type 0) : Type 0 where
  pub calls : Calls F S
  pub now : Act S ℕ
  -- d * (0.9 + 0.2 * rand.Float64())
  pub spread : ℕ → Act S ℕ
  pub get_device : String → Act S (Result ApiError ShellyDevice)
  pub list_devices : Act S (Result ApiError (List ShellyDevice))
  pub list_profiles : Act S (Result ApiError (List (ShellyProfile F Sel)))
  pub get_config_map : String → Act S (Result ApiError (Assoc String))
  pub get_secret : String → Act S (Result ApiError (Assoc String))
  -- Patch(ctx, dev, client.MergeFrom(base)), of the status and of the object: the server gets what
  -- differs between the two, and answers with its object.
  pub patch_status : (base dev : ShellyDevice) → Act S (Result ApiError ShellyDevice)
  pub patch_object : (base dev : ShellyDevice) → Act S (Result ApiError ShellyDevice)
  pub recorder : Bool

-- The process beside its surroundings: what it has done, the newest first, r.lastUpdateStart and
-- r.clients.
pub record World (S : Type 0) : Type 0 where
  pub outside : S
  pub log : List Effect
  pub last_update_start : ℕ
  pub clients : Assoc Client

abbrev pub is_success : {E A : Type 0} → Result E A → Bool
is_success (ok a) = true
is_success (err e) = false

module _ {S A : Type 0} where
  -- A step outside that is not logged: a read of the API, the clock.
  unfoldable pub ask : Act S A → Act (World S) A
  ask op w = let (a, s) = op w.outside in (a, record w { outside = s })

  -- A step outside, logged with its result.
  unfoldable pub perform : (A → Effect) → Act S A → Act (World S) A
  perform e op w = let (a, s) = op w.outside in (a, record w { outside = s; log = e a ∷ w.log })

module _ {F S : Type 0} where
  unfoldable pub logged_schedules : Client → DeviceRpc F S → DeviceRpc F (World S)
  logged_schedules c rpc = record {
    schedule_list = perform (λ a. called c "Schedule.List") rpc.schedule_list;
    schedule_create = λ enable timespec calls.
        perform (λ a. called c "Schedule.Create") (rpc.schedule_create enable timespec calls);
    schedule_update = λ job. perform (λ a. called c "Schedule.Update") (rpc.schedule_update job);
    schedule_delete = λ id. perform (λ a. called c "Schedule.Delete") (rpc.schedule_delete id);
  }

  unfoldable pub logged : Calls F S → Calls F (World S)
  logged calls = record {
    call_config =
        λ c method params. perform (λ a. called c method) (calls.call_config c method params);
    call_set_config =
        λ c method params. perform (λ a. called c method) (calls.call_set_config c method params);
    call_sys_status =
        λ c method params. perform (λ a. called c method) (calls.call_sys_status c method params);
    call = λ c method params. perform (λ a. called c method) (calls.call c method params);
    schedules = λ c. logged_schedules c (calls.schedules c);
    probe = λ host. perform (λ a. probed host) (calls.probe host);
  }

module _ {S : Type 0} where
  -- if r.Recorder != nil { r.Recorder.Event(...) }
  unfoldable pub record_event_if : Bool → Bool → String → Act (World S) (Unit {0})
  record_event_if false warning reason w = (tt, w)
  record_event_if true warning reason w =
      (tt, record w { log = event_recorded warning reason ∷ w.log })

module _ {F Sel S : Type 0} (env : Env F Sel S) where
  unfoldable pub record_event : Bool → String → Act (World S) (Unit {0})
  record_event = record_event_if env.recorder

  -- r.Status().Patch and r.Patch
  unfoldable pub patch_status :
      (base dev : ShellyDevice) → Act (World S) (Result ApiError ShellyDevice)
  patch_status base dev =
      perform (λ a. status_patched base dev (is_success a)) (env.patch_status base dev)

  unfoldable pub patch_object :
      (base dev : ShellyDevice) → Act (World S) (Result ApiError ShellyDevice)
  patch_object base dev =
      perform (λ a. object_patched base dev (is_success a)) (env.patch_object base dev)
