-- ===== src/Controller/Reconcile/Run/Logs.antt =====
-- What Reconcile adds to the log.
use shelly_operator.Base.{
  ℕ, Bool, true, false, String, Option, none, some, List, [], ◌∷◌, ◌≡◌, refl, not, ◌&&◌, Result, ok,
  err,
}
use shelly_operator.Base.Assoc.{Assoc}
use shelly_operator.Json.{Floats, Value}
use shelly_operator.Api.Profile.{ShellyProfile, is_enforce}
use shelly_operator.Api.Device.{ShellyDevice}
use shelly_operator.Api.Server.{ApiError, not_found, conflict, other}
use shelly_operator.Fleet.Registry.{Decoding}
use shelly_operator.Drift.Match.{Selectors, Warning, match_profile}
use shelly_operator.Drift.Diff.{Finding}
use shelly_operator.Shelly.Errors.{CallError}
use shelly_operator.Shelly.Methods.{Client, Texts}
use shelly_operator.Controller.Schedule.{Codec}
use shelly_operator.Controller.Window.{Zones}
use shelly_operator.Controller.World.{Effect, Env, ask}
use shelly_operator.Controller.World.Logs.{
  Logs, Logs-still, Logs-bind, Logs-ask, Logs-if, Logs-when,
}
use shelly_operator.Controller.World.Policy.{Policy, notes_of, Logs-answer, both_first}
use shelly_operator.Controller.Update.Attempt.{SysRead}
use shelly_operator.Controller.Update.Attempt.Logs.{update_if_available-Logs}
use shelly_operator.Controller.Reconcile.Status.Logs.{
  finish-Logs, stamp_sys_status-Logs, reboot_if_requested-Logs,
}
use shelly_operator.Controller.Reconcile.Stamp.{LabelRules}
use shelly_operator.Controller.Reconcile.Stamp.Logs.{
  ReaderLogs, resolve_name-Logs, resolve_password-Logs, resolve_wifi_passwords-Logs,
  stamp_registry-Logs,
}
use shelly_operator.Controller.Reconcile.Findings.{Format, Settings}
use shelly_operator.Controller.Reconcile.Enforce.{Plan, Enforcement, ended, go_on}
use shelly_operator.Controller.Reconcile.Enforce.Logs.{
  device_client-Logs, get_config-Logs, check-Logs, run_enforce-Logs,
}
use shelly_operator.Controller.Reconcile.Run.{
  report, settle, enforce_if_drifted, with_findings, unless_updating, with_config, after_stamp,
  with_name, with_wifi, with_password, with_profile, with_profiles, unless_in_flight, with_device,
  reconcile,
}

module _ {F Sel S Z : Type 0} {Q : List Effect → Type 0} {May : Type 0} (p : Policy Q May)
    ⦃n : Floats F⦄ ⦃t : Texts⦄ ⦃codec : Codec F⦄ ⦃sel : Selectors Sel⦄ ⦃rules : LabelRules⦄
    ⦃dec : Decoding⦄ (fmt : Format F) (env : Env F Sel S) (zones : Zones ℕ Z)
    (settings : Settings) where
  the_reader : ReaderLogs Q (record {
    config_map = λ name. ask (env.get_config_map name);
    secret = λ name. ask (env.get_secret name);
  })
  the_reader = record { maps = λ name. Logs-ask p.law _; secrets = λ name. Logs-ask p.law _ }

  report-Logs :
      (plan : Plan F Sel) (dev : ShellyDevice) (findings : List (Finding F))
      → Logs Q (report fmt env zones settings plan dev findings)
  unfolding report
  report-Logs plan dev [] = finish-Logs (notes_of p) env _ dev _ [] _
  report-Logs plan dev (f ∷ fs) = finish-Logs (notes_of p) env _ dev _ (f ∷ fs) _

  settle-Logs :
      (c : Client) (plan : Plan F Sel) (sys : SysRead) (e : Enforcement F)
      → (is_enforce plan.profile ≡ true → May)
      → Logs Q (settle fmt env zones settings c plan sys e)
  unfolding settle
  settle-Logs c plan sys (ended outcome) may = Logs-still p.law
  settle-Logs c plan sys (go_on findings dev) may =
      Logs-bind p.law _ _ (reboot_if_requested-Logs p env zones c dev plan.profile sys may)
        λ d. report-Logs plan d findings

  enforce_if_drifted-Logs :
      (c : Client) (dev : ShellyDevice) (plan : Plan F Sel) (findings : List (Finding F))
      → (is_enforce plan.profile ≡ true → May)
      → Logs Q (enforce_if_drifted fmt env zones settings c dev plan findings)
  unfolding enforce_if_drifted
  enforce_if_drifted-Logs c dev plan [] may = Logs-still p.law
  enforce_if_drifted-Logs c dev plan (f ∷ fs) may =
      Logs-when _ _ (is_enforce plan.profile && not dev.spec.paused)
        (λ e. run_enforce-Logs p fmt env (may (both_first _ _ e)) _ c dev plan (f ∷ fs))
        (λ e. Logs-still p.law)

  with_findings-Logs :
      (c : Client) (dev : ShellyDevice) (plan : Plan F Sel) (sys : SysRead)
      (r : Result String (List (Finding F)))
      → (is_enforce plan.profile ≡ true → May)
      → Logs Q (with_findings fmt env zones settings c dev plan sys r)
  unfolding with_findings
  with_findings-Logs c dev plan sys (err text) may = finish-Logs (notes_of p) env _ dev _ [] _
  with_findings-Logs c dev plan sys (ok findings) may =
      Logs-bind p.law _ _ (enforce_if_drifted-Logs c dev plan findings may)
        λ e. settle-Logs c plan sys e may

  unless_updating-Logs :
      (c : Client) (plan : Plan F Sel) (actual : Assoc (Value F)) (sys : SysRead) (b : Bool)
      (dev : ShellyDevice)
      → (is_enforce plan.profile ≡ true → May)
      → Logs Q (unless_updating fmt env zones settings c plan actual sys (b, dev))
  unfolding unless_updating
  unless_updating-Logs c plan actual sys true dev may = Logs-still p.law
  unless_updating-Logs c plan actual sys false dev may =
      Logs-bind p.law _ _ (check-Logs p env.calls fmt _ c plan.profile _ _ actual)
        λ r. with_findings-Logs c dev plan sys r may

  with_config-Logs :
      (c : Client) (dev : ShellyDevice) (profile : ShellyProfile F Sel) (password : String)
      (wifi_pw : String × String) (desired_name : String) (warns : List String)
      (r : Result CallError (Assoc (Value F)))
      → (is_enforce profile ≡ true → May)
      → Logs Q
          (with_config fmt env zones settings c dev profile password wifi_pw desired_name warns r)
  unfolding with_config
  with_config-Logs c dev profile password wifi_pw desired_name warns (err e) may =
      finish-Logs (notes_of p) env _ dev _ [] _
  with_config-Logs c dev profile password wifi_pw desired_name warns (ok actual) may =
      Logs-bind p.law _ _ (stamp_sys_status-Logs p env c dev) λ (sys, d).
        Logs-bind p.law _ _ (update_if_available-Logs p env zones _ c d profile sys may)
          λ (b, e). unless_updating-Logs c _ actual sys b e may

  after_stamp-Logs :
      (profile : ShellyProfile F Sel) (password : String) (wifi_pw : String × String)
      (desired_name : String) (warns : List String) (e : Option String) (dev : ShellyDevice)
      → (is_enforce profile ≡ true → May)
      → Logs Q
          (after_stamp fmt env zones settings profile password wifi_pw desired_name warns (e, dev))
  unfolding after_stamp
  after_stamp-Logs profile password wifi_pw desired_name warns (some text) dev may =
      finish-Logs (notes_of p) env _ dev _ [] _
  after_stamp-Logs profile password wifi_pw desired_name warns none dev may =
      Logs-bind p.law _ _ (device_client-Logs p _ password) λ c.
        Logs-bind p.law _ _ (get_config-Logs p env.calls c)
          λ r. with_config-Logs c dev profile password wifi_pw desired_name warns r may

  with_name-Logs :
      (dev : ShellyDevice) (profile : ShellyProfile F Sel) (warns : List String) (password : String)
      (wifi_pw : String × String) (r : Result String String)
      → (is_enforce profile ≡ true → May)
      → Logs Q (with_name fmt env zones settings dev profile warns password wifi_pw r)
  unfolding with_name
  with_name-Logs dev profile warns password wifi_pw (err text) may =
      finish-Logs (notes_of p) env _ dev _ [] _
  with_name-Logs dev profile warns password wifi_pw (ok desired_name) may =
      Logs-bind p.law _ _ (stamp_registry-Logs p _ the_reader env _ dev)
        λ (e, d). after_stamp-Logs profile password wifi_pw desired_name _ e d may

  with_wifi-Logs :
      (dev : ShellyDevice) (profile : ShellyProfile F Sel) (warns : List String) (password : String)
      (r : Result String (String × String))
      → (is_enforce profile ≡ true → May)
      → Logs Q (with_wifi fmt env zones settings dev profile warns password r)
  unfolding with_wifi
  with_wifi-Logs dev profile warns password (err text) may =
      finish-Logs (notes_of p) env _ dev _ [] _
  with_wifi-Logs dev profile warns password (ok wifi_pw) may =
      Logs-bind p.law _ _ (resolve_name-Logs p _ the_reader dev _ _)
        λ r. with_name-Logs dev profile warns password wifi_pw r may

  with_password-Logs :
      (dev : ShellyDevice) (profile : ShellyProfile F Sel) (warns : List String)
      (r : Result String String)
      → (is_enforce profile ≡ true → May)
      → Logs Q (with_password fmt env zones settings dev profile warns r)
  unfolding with_password
  with_password-Logs dev profile warns (err text) may = finish-Logs (notes_of p) env _ dev _ [] _
  with_password-Logs dev profile warns (ok password) may =
      Logs-bind p.law _ _ (resolve_wifi_passwords-Logs p _ the_reader _)
        λ r. with_wifi-Logs dev profile warns password r may

  -- Leave to write is needed where the profile that governs the device enforces.
  abbrev pub Leave : Option (ShellyProfile F Sel) → Type 0
  Leave none = Unit
  Leave (some profile) = is_enforce profile ≡ true → May

  with_profile-Logs :
      (dev : ShellyDevice) (profile : Option (ShellyProfile F Sel)) (warns : List Warning)
      → Leave profile
      → Logs Q (with_profile fmt env zones settings dev (profile, warns))
  unfolding with_profile
  with_profile-Logs dev none warns may = finish-Logs (notes_of p) env _ dev _ [] _
  with_profile-Logs dev (some profile) warns may =
      Logs-bind p.law _ _ (resolve_password-Logs p _ the_reader _)
        λ r. with_password-Logs dev profile _ r may

  with_profiles-Logs :
      (dev : ShellyDevice) (r : Result ApiError (List (ShellyProfile F Sel)))
      → ((profiles : List (ShellyProfile F Sel))
          → r ≡ ok profiles
          → Leave (match_profile dev profiles).0)
      → Logs Q (with_profiles fmt env zones settings dev r)
  unfolding with_profiles
  with_profiles-Logs dev (err e) may = Logs-still p.law
  with_profiles-Logs dev (ok profiles) may = with_profile-Logs dev _ _ (may profiles refl)

  -- The profiles that a list of the namespace can return give leave.
  abbrev pub ListedLeave : Type 0
  ListedLeave =
      (dev : ShellyDevice) (s : S) (profiles : List (ShellyProfile F Sel))
      → (env.list_profiles s).0 ≡ ok profiles
      → Leave (match_profile dev profiles).0

  unless_in_flight-Logs :
      (dev : ShellyDevice) (b : Bool) (wait : ℕ)
      → ListedLeave
      → Logs Q (unless_in_flight fmt env zones settings dev (b, wait))
  unfolding unless_in_flight
  unless_in_flight-Logs dev true wait may = Logs-still p.law
  unless_in_flight-Logs dev false wait may =
      Logs-answer env.list_profiles _ λ s. with_profiles-Logs dev _ (may dev s)

  with_device-Logs :
      (r : Result ApiError ShellyDevice)
      → ListedLeave
      → Logs Q (with_device fmt env zones settings r)
  unfolding with_device
  with_device-Logs (err (not_found e)) may = Logs-still p.law
  with_device-Logs (err (conflict e)) may = Logs-still p.law
  with_device-Logs (err (other e)) may = Logs-still p.law
  with_device-Logs (ok dev) may =
      Logs-if _ _ dev.spec.paused (finish-Logs (notes_of p) env _ dev _ [] _) (
        Logs-if _ _ (not dev.status.online) (finish-Logs (notes_of p) env _ dev _ [] _)
          (Logs-bind p.law _ _ (Logs-ask p.law _) λ now. unless_in_flight-Logs dev _ _ may))

  pub reconcile-Logs :
      (name : String) → ListedLeave → Logs Q (reconcile fmt env zones settings name)
  unfolding reconcile
  reconcile-Logs name may = Logs-bind p.law _ _ (Logs-ask p.law _) λ r. with_device-Logs r may
