-- ===== src/Controller/Reconcile/Status.antt =====
-- internal/controller/shellydevice_controller.go: finish, the device's own status, and the reboot it
-- asks for.
pub mod Logs
use Prim.Native.String.{◌++◌ as str_append}
use shelly_operator.Base.{
  ℕ, zero, suc, ◌*◌, ℤ, pos, negsuc, Bool, true, false, String, Option, none, some, List, [], ◌∷◌,
  ◌==◌, ◌&&◌, ◌||◌, not, iff_b, Result, ok, err, if◌then◌else◌,
}
use shelly_operator.Json.{Fields}
use shelly_operator.Api.Profile.{ShellyProfile, is_enforce}
use shelly_operator.Api.Device.{
  ShellyDevice, Condition, ConditionStatus, true_status, false_status, unknown_status, Reason,
  in_sync, drifted, no_profile, profile_not_found, offline, paused, config_fetch_failed,
  auth_required, apply_failed, credentials_error, not_converging, wifi_applied,
}
use shelly_operator.Api.Server.{ApiError, Act, done, ◌>>=◌, ◌>>◌}
use shelly_operator.Drift.Diff.{Finding}
use shelly_operator.Drift.Report.{sections, join_strings}
use shelly_operator.Shelly.Errors.{CallError}
use shelly_operator.Shelly.Methods as Methods
use shelly_operator.Shelly.Methods.{Client, SysStatus}
use shelly_operator.Controller.World.{Env, World, ask, logged, patch_status, record_event}
use shelly_operator.Controller.Window.{Zones, WindowError, within_reboot_window}
use shelly_operator.Controller.Update.{minute_ns}
use shelly_operator.Controller.Update.Attempt.{SysRead}

-- What Reconcile returns: nothing more to do, a requeue after a time, or an error.
pub data Outcome : Type 0 where
  forget : Outcome
  requeue_after : ℕ → Outcome
  failed : ApiError → Outcome

unfoldable pub reason_text : Reason → String
reason_text in_sync = "InSync"
reason_text drifted = "Drifted"
reason_text no_profile = "NoProfile"
reason_text profile_not_found = "ProfileNotFound"
reason_text offline = "Offline"
reason_text paused = "Paused"
reason_text config_fetch_failed = "ConfigFetchFailed"
reason_text auth_required = "AuthRequired"
reason_text apply_failed = "ApplyFailed"
reason_text credentials_error = "CredentialsError"
reason_text not_converging = "NotConverging"
reason_text wifi_applied = "WifiApplied"

unfoldable pub with_warnings : String → List String → String
with_warnings msg [] = msg
with_warnings msg (w ∷ ws) =
    str_append msg (str_append " (warnings: " (str_append (join_strings "; " (w ∷ ws)) ")"))

-- The interval before it is spread: the configured one, or five minutes.
unfoldable pub interval_of : ℤ → ℕ
interval_of (pos zero) = 5 * minute_ns
interval_of (pos (suc d)) = suc d
interval_of (negsuc d) = 5 * minute_ns

unfoldable pub same_status : ConditionStatus → ConditionStatus → Bool
same_status true_status true_status = true
same_status false_status false_status = true
same_status unknown_status unknown_status = true
same_status _ _ = false

-- What FindStatusCondition's pointer leads to after SetStatusCondition, which changes a condition that is
-- there in place and appends one that is not. That the patch's answer is decoded into the object is taken
-- to leave it.
unfoldable pub set_in_place : Option Condition → Condition → Option Condition
set_in_place none now = none
set_in_place (some earlier) now = some now

-- prev == nil || prev.Status != status || prev.Reason != reason
unfoldable pub is_transition : Option Condition → ConditionStatus → Reason → Bool
is_transition none status reason = true
is_transition (some prev) status reason =
    not (same_status prev.status status) || not (reason_text prev.reason == reason_text reason)

abbrev pub is_false : ConditionStatus → Bool
is_false status = same_status status false_status

-- The status that finish writes.
unfoldable pub finished :
    {F : Type 0} → ShellyDevice → Condition → List (Finding F) → String → ShellyDevice
finished dev condition findings matched_profile = record dev {
  status = record dev.status {
    matched_profile = matched_profile;
    drifted_sections = sections findings;
    in_sync = some condition;
  };
}

abbrev pub with_sys : Bool → String → ShellyDevice → ShellyDevice
with_sys restart firmware dev = record dev {
  status = record dev.status { available_firmware = firmware; restart_required = restart };
}

abbrev pub stable_version : Option String → String
stable_version none = ""
stable_version (some version) = version

abbrev pub unread : SysRead
unread = record { restart_required = false; available_firmware = ""; fresh = false }

-- After a failed patch the changed fields get their values back.
abbrev pub kept_on_failure : ShellyDevice → Result ApiError ShellyDevice → ShellyDevice
kept_on_failure base (ok server) = server
kept_on_failure base (err e) = base

module _ {F Sel S : Type 0} (env : Env F Sel S) where
  unfoldable pub jitter : ℤ → Act (World S) ℕ
  jitter interval = ask (env.spread (interval_of interval))

  unfoldable pub finish_event : Option Condition → Condition → Act (World S) (Unit {0})
  finish_event prev now =
      if is_transition prev now.status now.reason
      then record_event env (is_false now.status) (reason_text now.reason)
      else done tt

  unfoldable pub finish_patched :
      ℤ → Option Condition → Condition → Result ApiError ShellyDevice → Act (World S) Outcome
  finish_patched interval prev now (err e) = done (failed e)
  finish_patched interval prev now (ok server) = do
    finish_event prev now
    delay ← jitter interval
    done (requeue_after delay)

  unfoldable pub finish :
      ℤ → ShellyDevice → Condition → List (Finding F) → String → Act (World S) Outcome
  finish interval dev condition findings matched_profile = do
    answer ← patch_status env dev (finished dev condition findings matched_profile)
    finish_patched interval (set_in_place dev.status.in_sync condition) condition answer

  unfoldable pub stamp_if_changed : ShellyDevice → Bool → String → Act (World S) ShellyDevice
  stamp_if_changed dev restart firmware =
      if dev.status.available_firmware == firmware && iff_b dev.status.restart_required restart
      then done dev
      else (do
        answer ← patch_status env dev (with_sys restart firmware dev)
        done (kept_on_failure dev answer))

  unfoldable pub stamp_read :
      ShellyDevice → Result CallError SysStatus → Act (World S) (SysRead × ShellyDevice)
  stamp_read dev (err e) = done (unread, dev)
  stamp_read dev (ok st) = do
    dev' ← stamp_if_changed dev st.restart_required (stable_version st.stable)
    done (
      record {
        restart_required = st.restart_required;
        available_firmware = stable_version st.stable;
        fresh = true;
      },
      dev',
    )

  unfoldable pub stamp_sys_status : Client → ShellyDevice → Act (World S) (SysRead × ShellyDevice)
  stamp_sys_status c dev = do st ← Methods.get_sys_status (logged env.calls) c; stamp_read dev st

  unfoldable pub rebooted : ShellyDevice → Result CallError (Unit {0}) → Act (World S) ShellyDevice
  rebooted dev (err e) = do record_event env true "RebootFailed"; done dev
  rebooted dev (ok u) =
      let cleared = with_sys false dev.status.available_firmware dev in
      do
        record_event env false "Rebooted"
        answer ← patch_status env dev cleared
        done (kept_on_failure dev answer)

  unfoldable pub reboot_when_open :
      Client → ShellyDevice → Result WindowError Bool → Act (World S) ShellyDevice
  reboot_when_open c dev (err e) = do record_event env true "RebootWindowInvalid"; done dev
  reboot_when_open c dev (ok false) = done dev
  reboot_when_open c dev (ok true) = do
    answer ← Methods.reboot (logged env.calls) c
    rebooted dev answer

  unfoldable pub reboot_if_requested :
      {Z : Type 0}
      → Zones ℕ Z
      → Client
      → ShellyDevice
      → ShellyProfile F Sel
      → SysRead
      → Act (World S) ShellyDevice
  reboot_if_requested zones c dev profile sys =
      if not (profile.spec.reboot_when_required && is_enforce profile)
      then done dev
      else if not (sys.fresh && sys.restart_required)
      then done dev
      else (do
        now ← ask env.now
        reboot_when_open c dev (within_reboot_window zones now profile.spec.reboot_window))
