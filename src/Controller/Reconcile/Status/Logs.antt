-- ===== src/Controller/Reconcile/Status/Logs.antt =====
-- What finish, stampSysStatus and rebootIfRequested add to the log.
use shelly_operator.Base.{
  ℕ, ℤ, Bool, true, false, String, Option, List, ◌≡◌, refl, ◌&&◌, not, ◌==◌, iff_b, Result, ok, err,
}
use shelly_operator.Json.{end}
use shelly_operator.Api.Profile.{ShellyProfile, is_enforce}
use shelly_operator.Api.Device.{ShellyDevice, Condition}
use shelly_operator.Api.Server.{ApiError}
use shelly_operator.Drift.Diff.{Finding}
use shelly_operator.Shelly.Errors.{CallError}
use shelly_operator.Shelly.Methods as Methods
use shelly_operator.Shelly.Methods.{Client, SysStatus}
use shelly_operator.Controller.Window.{Zones, WindowError}
use shelly_operator.Controller.World.{Effect, Env, logged}
use shelly_operator.Controller.World.Logs.{
  Logs, Logs-still, Logs-bind, Logs-ask, Logs-event, Logs-if, Logs-when, Logs-perform,
}
use shelly_operator.Controller.World.Policy.{
  Policy, Notes, notes_of, Logs-status, Logs-call, last-not_update, opted_in,
}
use shelly_operator.Controller.Update.Attempt.{SysRead}
use shelly_operator.Controller.Reconcile.Status.{
  jitter, is_transition, finish_event, finish_patched, finish, finished, stamp_if_changed,
  stamp_read, stamp_sys_status, rebooted, reboot_when_open, reboot_if_requested,
}

module _ {F Sel S : Type 0} {Q : List Effect → Type 0} (p : Notes Q) (env : Env F Sel S) where
  finish_event-Logs :
      (prev : Option Condition) (now : Condition) → Logs Q (finish_event env prev now)
  unfolding finish_event
  finish_event-Logs prev now =
      Logs-if _ _ (is_transition prev now.status now.reason)
        (Logs-event p.law env _ _ (p.event _ _)) (Logs-still p.law)

  finish_patched-Logs :
      (interval : ℤ) (prev : Option Condition) (now : Condition) (a : Result ApiError ShellyDevice)
      → Logs Q (finish_patched env interval prev now a)
  unfolding finish_patched jitter
  finish_patched-Logs interval prev now (err e) = Logs-still p.law
  finish_patched-Logs interval prev now (ok server) =
      Logs-bind p.law _ _ (finish_event-Logs prev now)
        λ _. Logs-bind p.law _ _ (Logs-ask p.law _) (λ delay. Logs-still p.law)

  pub finish-Logs :
      (interval : ℤ) (dev : ShellyDevice) (condition : Condition) (findings : List (Finding F))
      (matched_profile : String)
      → Logs Q (finish env interval dev condition findings matched_profile)
  unfolding finish finished
  finish-Logs interval dev condition findings matched_profile =
      Logs-bind p.law _ _ (Logs-status p env dev _ refl) (finish_patched-Logs interval _ condition)

module _ {F Sel S : Type 0} {Q : List Effect → Type 0} {May : Type 0} (p : Policy Q May)
    (env : Env F Sel S) where
  stamp_if_changed-Logs :
      (dev : ShellyDevice) (restart : Bool) (firmware : String)
      → Logs Q (stamp_if_changed env dev restart firmware)
  unfolding stamp_if_changed
  stamp_if_changed-Logs dev restart firmware =
      Logs-if _ _
        (dev.status.available_firmware == firmware && iff_b dev.status.restart_required restart)
        (Logs-still p.law)
        (Logs-bind p.law _ _ (Logs-status (notes_of p) env dev _ refl) (λ a. Logs-still p.law))

  stamp_read-Logs :
      (dev : ShellyDevice) (r : Result CallError SysStatus) → Logs Q (stamp_read env dev r)
  unfolding stamp_read
  stamp_read-Logs dev (err e) = Logs-still p.law
  stamp_read-Logs dev (ok st) =
      Logs-bind p.law _ _ (stamp_if_changed-Logs dev _ _) (λ d. Logs-still p.law)

  get_sys_status-Logs : (c : Client) → Logs Q (Methods.get_sys_status (logged env.calls) c)
  unfolding Methods.get_sys_status logged
  get_sys_status-Logs c =
      Logs-perform p.law _ (env.calls.call_sys_status c "Sys.GetStatus" end) (λ a. p.status_read c)

  pub stamp_sys_status-Logs :
      (c : Client) (dev : ShellyDevice) → Logs Q (stamp_sys_status env c dev)
  unfolding stamp_sys_status
  stamp_sys_status-Logs c dev = Logs-bind p.law _ _ (get_sys_status-Logs c) (stamp_read-Logs dev)

  rebooted-Logs :
      (dev : ShellyDevice) (r : Result CallError (Unit {0})) → Logs Q (rebooted env dev r)
  unfolding rebooted
  rebooted-Logs dev (err e) =
      Logs-bind p.law _ _ (Logs-event p.law env _ _ (p.event _ _)) (λ _. Logs-still p.law)
  rebooted-Logs dev (ok u) =
      Logs-bind p.law _ _ (Logs-event p.law env _ _ (p.event _ _))
        λ _. Logs-bind p.law _ _ (Logs-status (notes_of p) env dev _ refl) (λ a. Logs-still p.law)

  reboot-Logs : May → (c : Client) → Logs Q (Methods.reboot (logged env.calls) c)
  unfolding Methods.reboot
  reboot-Logs may c = Logs-call p may env.calls c "Shelly.Reboot" end (last-not_update _ refl)

  reboot_when_open-Logs :
      May
      → (c : Client) (dev : ShellyDevice) (r : Result WindowError Bool)
      → Logs Q (reboot_when_open env c dev r)
  unfolding reboot_when_open
  reboot_when_open-Logs may c dev (err e) =
      Logs-bind p.law _ _ (Logs-event p.law env _ _ (p.event _ _)) (λ _. Logs-still p.law)
  reboot_when_open-Logs may c dev (ok false) = Logs-still p.law
  reboot_when_open-Logs may c dev (ok true) =
      Logs-bind p.law _ _ (reboot-Logs may c) (rebooted-Logs dev)

  pub reboot_if_requested-Logs :
      {Z : Type 0} (zones : Zones ℕ Z) (c : Client) (dev : ShellyDevice)
      (profile : ShellyProfile F Sel) (sys : SysRead)
      → (is_enforce profile ≡ true → May)
      → Logs Q (reboot_if_requested env zones c dev profile sys)
  unfolding reboot_if_requested
  reboot_if_requested-Logs zones c dev profile sys may =
      Logs-when _ _ (not (profile.spec.reboot_when_required && is_enforce profile))
        (λ e. Logs-still p.law)
        (λ e. Logs-if _ _ (not (sys.fresh && sys.restart_required)) (Logs-still p.law) (
          Logs-bind p.law _ _ (Logs-ask p.law _)
            λ now. reboot_when_open-Logs (may (opted_in _ _ e)) c dev _))
