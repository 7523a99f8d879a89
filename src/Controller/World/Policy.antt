-- ===== src/Controller/World/Policy.antt =====
-- What a reconcile may add to the log, as the assumptions of a property of logs. `May` stands for
-- leave to write to the device.
use Prim.Native.Char.{code}
use Prim.Native.String.{◌++◌ as str_append}
use Prim.Native.String.append
use shelly_operator.Base.{
  ℕ, ℤ, eqb, Bool, true, false, not, ◌&&◌, String, Option, some, List, [], ◌∷◌, ◌≡◌, ◌≢◌, refl, ◌∙◌,
  ap,
}
use shelly_operator.Json.{Fields}
use shelly_operator.Api.Device.{ShellyDevice, FirmwareUpdateAttempt}
use shelly_operator.Shelly.Methods.{
  Client, Calls, Texts, set_config_method, or_upper, component_methods,
}
use shelly_operator.Base.Assoc
use shelly_operator.Shelly.Rpc.{DeviceRpc}
use shelly_operator.Api.Server.{Act, ◌>>=◌}
use shelly_operator.Controller.World.{
  Effect, probed, called, status_patched, object_patched, event_recorded, World, Env, logged,
  logged_schedules, patch_status, patch_object, ask, is_success,
}
use shelly_operator.Controller.World.Logs.{LogLaw, Logs, Logs-perform}

-- The status holds an attempt that no answer has changed.
abbrev pub IsAttempt : ShellyDevice → Type 0
IsAttempt dev =
    (a : FirmwareUpdateAttempt) × (dev.status.last_firmware_update ≡ some a)
    × (a.refused ≡ false)
    × (a.error ≡ "")

-- The status fields that discovery writes.
abbrev pub discovered :
    ShellyDevice → String × String × String × String × ℤ × String × Bool × String × Bool × Option ℕ
discovered dev =
    let st = dev.status in
    (
      st.address, st.mac, st.model, st.app, st.gen, st.firmware, st.auth_enabled, st.device_name,
      st.online, st.last_seen,
    )

-- What holds of the patches and the events.
pub record Notes (Q : List Effect → Type 0) : Type 0 where
  pub law : LogLaw Q
  pub event : (warning : Bool) (reason : String) → Q (event_recorded warning reason ∷ [])
  pub status :
      (base dev : ShellyDevice) (b : Bool)
      → discovered base ≡ discovered dev
      → Q (status_patched base dev b ∷ [])

abbrev pub update_method : String
update_method = "Shelly.Update"

pub record Policy (Q : List Effect → Type 0) (May : Type 0) : Type 0 where
  pub law : LogLaw Q
  pub config_read : (c : Client) → Q (called c "Shelly.GetConfig" ∷ [])
  pub status_read : (c : Client) → Q (called c "Sys.GetStatus" ∷ [])
  pub jobs_read : (c : Client) → Q (called c "Schedule.List" ∷ [])
  pub event : (warning : Bool) (reason : String) → Q (event_recorded warning reason ∷ [])
  pub object : (base dev : ShellyDevice) (b : Bool) → Q (object_patched base dev b ∷ [])
  pub status :
      (base dev : ShellyDevice) (b : Bool)
      → discovered base ≡ discovered dev
      → Q (status_patched base dev b ∷ [])
  pub probe : May → (host : String) → Q (probed host ∷ [])
  pub write :
      May → (c : Client) (method : String) → method ≢ update_method → Q (called c method ∷ [])
  pub update :
      May
      → (c : Client) (base dev : ShellyDevice) → discovered base ≡ discovered dev
      → IsAttempt dev
      → Q (called c update_method ∷ status_patched base dev true ∷ [])

abbrev pub notes_of : {Q : List Effect → Type 0} {May : Type 0} → Policy Q May → Notes Q
notes_of p = record { law = p.law; event = p.event; status = p.status }

abbrev last_code : ℕ → String → ℕ
last_code n String.[] = n
last_code n (String.◌∷◌ c s) = last_code (code c) s

last_code-append :
    (n : ℕ) (s t : String) → last_code n (str_append s t) ≡ last_code (last_code n s) t
last_code-append n String.[] t = ap (last_code n) (append.nil t)
last_code-append n (String.◌∷◌ c s) t =
    ap (last_code n) (append.cons c s t) ∙ last_code-append (code c) s t

-- A method that does not end in the last letter of the update method is another one.
pub last-not_update :
    (method : String) → eqb (last_code 0 method) 101 ≡ false → method ≢ update_method
last-not_update method h e = cc (rw e at h)

-- A method that sets configuration is not the update method.
pub set_config-not_update :
    ⦃t : Texts⦄ (component : String) → set_config_method component ≢ update_method
unfolding set_config_method
set_config-not_update component =
    let namespace = or_upper component (Assoc.get component component_methods) in
    last-not_update _ (ap (λ n. eqb n 101) (last_code-append 0 namespace ".SetConfig"))

module _ {S : Type 0} {Q : List Effect → Type 0} where
  -- A read outside whose result is known to be one that the step can return.
  pub Logs-answer :
      {A B : Type 0} (op : Act S A) (f : A → Act (World S) B)
      → ((s : S) → Logs Q (f (op s).0))
      → Logs Q (ask op >>= f)
  unfolding ask ◌>>=◌
  Logs-answer op f h w = h w.outside _

module _ {F Sel S : Type 0} {Q : List Effect → Type 0} (p : Notes Q) where
  pub Logs-status :
      (env : Env F Sel S) (base dev : ShellyDevice)
      → discovered base ≡ discovered dev
      → Logs Q (patch_status env base dev)
  unfolding patch_status
  Logs-status env base dev h =
      Logs-perform p.law _ (env.patch_status base dev) (λ a. p.status base dev (is_success a) h)

module _ {F Sel S : Type 0} {Q : List Effect → Type 0} {May : Type 0} (p : Policy Q May) where
  pub Logs-object :
      (env : Env F Sel S) (base dev : ShellyDevice) → Logs Q (patch_object env base dev)
  unfolding patch_object
  Logs-object env base dev =
      Logs-perform p.law _ (env.patch_object base dev) (λ a. p.object base dev (is_success a))

-- The calls on a device, in a world that logs them.
module _ {F S : Type 0} {Q : List Effect → Type 0} {May : Type 0} (p : Policy Q May) where
  pub Logs-call :
      May
      → (calls : Calls F S) (c : Client) (method : String) (params : Fields F)
      → method ≢ update_method
      → Logs Q ((logged calls).call c method params)
  unfolding logged
  Logs-call may calls c method params h =
      Logs-perform p.law _ (calls.call c method params) (λ a. p.write may c method h)

  pub Logs-set_config :
      May
      → (calls : Calls F S) (c : Client) (method : String) (params : Fields F)
      → method ≢ update_method
      → Logs Q ((logged calls).call_set_config c method params)
  unfolding logged
  Logs-set_config may calls c method params h =
      Logs-perform p.law _ (calls.call_set_config c method params) (λ a. p.write may c method h)

  pub Logs-probe : May → (calls : Calls F S) (host : String) → Logs Q ((logged calls).probe host)
  unfolding logged
  Logs-probe may calls host = Logs-perform p.law _ (calls.probe host) (λ a. p.probe may host)

-- The schedule calls of a client; those that write only with leave.
pub record JobLogs {F S : Type 0} (Q : List Effect → Type 0) (May : Type 0)
    (rpc : DeviceRpc F (World S)) : Type 0 where
  pub law : LogLaw Q
  pub list : Logs Q rpc.schedule_list
  pub create :
      May
      → (enable : _) (timespec : _) (calls : _) → Logs Q (rpc.schedule_create enable timespec calls)
  pub update : May → (job : _) → Logs Q (rpc.schedule_update job)
  pub delete : May → (id : _) → Logs Q (rpc.schedule_delete id)

create-not_update : "Schedule.Create" ≢ update_method
create-not_update e = cc e

update-not_update : "Schedule.Update" ≢ update_method
update-not_update e = cc e

delete-not_update : "Schedule.Delete" ≢ update_method
delete-not_update e = cc e

pub logged-JobLogs :
    {F S : Type 0} {Q : List Effect → Type 0} {May : Type 0} (p : Policy Q May) (calls : Calls F S)
    (c : Client)
    → JobLogs Q May ((logged calls).schedules c)
unfolding logged logged_schedules
logged-JobLogs p calls c = record {
  law = p.law;
  list = Logs-perform p.law _ (calls.schedules c).schedule_list (λ a. p.jobs_read c);
  create = λ may enable timespec cs.
      Logs-perform p.law _ ((calls.schedules c).schedule_create enable timespec cs)
        (λ a. p.write may c "Schedule.Create" create-not_update);
  update = λ may job.
      Logs-perform p.law _ ((calls.schedules c).schedule_update job)
        (λ a. p.write may c "Schedule.Update" update-not_update);
  delete = λ may id.
      Logs-perform p.law _ ((calls.schedules c).schedule_delete id)
        (λ a. p.write may c "Schedule.Delete" delete-not_update);
}

-- What is not left undone has the second of two conditions.
pub opted_in : (a b : Bool) → not (a && b) ≡ false → b ≡ true
opted_in true true h = refl
opted_in true false h = cc
opted_in false b h = cc

pub both_first : (a b : Bool) → a && b ≡ true → a ≡ true
both_first true b h = refl
both_first false b h = cc
