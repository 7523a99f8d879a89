-- ===== src/Controller/Reconcile/Run.antt =====
-- Reconcile of internal/controller/shellydevice_controller.go: one check of one device, from its read to
-- the outcome. `reader` is the reader that NewManager wires.
pub mod Logs
use Prim.Native.String.{◌++◌ as str_append}
use shelly_operator.Base.{
  ℕ, ℤ, Bool, true, false, String, Option, none, some, List, [], ◌∷◌, ◌++◌, ◌==◌, ◌&&◌, not, Result,
  ok, err, if◌then◌else◌,
}
use shelly_operator.Base.Assoc.{Assoc}
use shelly_operator.Json.{Floats, Value, Fields}
use shelly_operator.Api.Profile.{
  ShellyProfile, ProfileConfig, NameSection, WifiSection, WifiNetwork, is_enforce,
}
use shelly_operator.Api.Device.{
  ShellyDevice, Condition, true_status, false_status, unknown_status, Reason, in_sync, drifted,
  no_profile, profile_not_found, offline, paused, config_fetch_failed, auth_required,
  credentials_error,
}
use shelly_operator.Api.Server.{
  ApiError, not_found, conflict, other, Act, done, ◌>>=◌, ◌>>◌, Reader,
}
use shelly_operator.Fleet.Registry.{
  Decoding, resolve_name, resolve_password, resolve_wifi_passwords,
}
use shelly_operator.Drift.Match.{Selectors, Warning, ref_not_found, invalid_selector, match_profile}
use shelly_operator.Drift.Diff.{Finding}
use shelly_operator.Drift.Render.{render}
use shelly_operator.Drift.Report.{join_strings, summarize}
use shelly_operator.Shelly.Errors.{CallError, error_text, is_auth_error}
use shelly_operator.Shelly.Methods as Methods
use shelly_operator.Shelly.Methods.{Client, Texts}
use shelly_operator.Controller.Schedule.{Codec}
use shelly_operator.Controller.World.{Env, World, ask, logged, patch_object}
use shelly_operator.Controller.Window.{Zones}
use shelly_operator.Controller.Update.{update_settle, update_in_flight}
use shelly_operator.Controller.Update.Attempt.{SysRead, update_if_available}
use shelly_operator.Controller.Reconcile.Status.{
  Outcome, forget, requeue_after, failed, with_warnings, finish, stamp_sys_status,
  reboot_if_requested,
}
use shelly_operator.Controller.Reconcile.Stamp.{LabelRules, stamp_registry}
use shelly_operator.Controller.Reconcile.Findings.{
  Format, Settings, device_client, first_check, check,
}
use shelly_operator.Controller.Reconcile.Enforce.{
  Plan, Enforcement, ended, go_on, condition, run_enforce,
}
use shelly_operator.Controller.Reconcile.Messages.{
  append_profile_warnings, warning_texts, unmatched_condition, unread_condition,
}

module _ {F Sel S Z : Type 0} ⦃n : Floats F⦄ ⦃t : Texts⦄ ⦃codec : Codec F⦄ ⦃sel : Selectors Sel⦄
    ⦃rules : LabelRules⦄ ⦃dec : Decoding⦄ (fmt : Format F) (env : Env F Sel S) (zones : Zones ℕ Z)
    (settings : Settings) where
  abbrev pub reader : Option (Reader (World S))
  reader = some (record {
    config_map = λ name. ask (env.get_config_map name);
    secret = λ name. ask (env.get_secret name);
  })

  abbrev end_check : ShellyDevice → Condition → List (Finding F) → String → Act (World S) Outcome
  end_check = finish env settings.interval

  -- The last condition of a check.
  unfoldable pub report : Plan F Sel → ShellyDevice → List (Finding F) → Act (World S) Outcome
  report plan dev [] =
      end_check dev
        (condition true_status in_sync (
          with_warnings (str_append "configuration matches profile " plan.profile.name) plan.warns))
        [] plan.profile.name
  report plan dev (f ∷ fs) =
      end_check dev
        (condition false_status drifted (with_warnings (summarize fmt.show (f ∷ fs)) plan.warns))
        (f ∷ fs) plan.profile.name

  unfoldable pub settle : Client → Plan F Sel → SysRead → Enforcement F → Act (World S) Outcome
  settle c plan sys (ended outcome) = done outcome
  settle c plan sys (go_on findings dev) = do
    dev' ← reboot_if_requested env zones c dev plan.profile sys
    report plan dev' findings

  -- profile.Spec.Mode == ModeEnforce && len(findings) > 0 && !dev.Spec.Paused
  unfoldable pub enforce_if_drifted :
      Client → ShellyDevice → Plan F Sel → List (Finding F) → Act (World S) (Enforcement F)
  enforce_if_drifted c dev plan [] = done (go_on [] dev)
  enforce_if_drifted c dev plan (f ∷ fs) =
      if is_enforce plan.profile && not dev.spec.paused
      then run_enforce fmt env settings.interval c dev plan (f ∷ fs)
      else done (go_on (f ∷ fs) dev)

  unfoldable pub with_findings :
      Client
      → ShellyDevice
      → Plan F Sel
      → SysRead
      → Result String (List (Finding F))
      → Act (World S) Outcome
  with_findings c dev plan sys (err text) =
      end_check dev (condition unknown_status config_fetch_failed text) [] plan.profile.name
  with_findings c dev plan sys (ok findings) = do
    enforced ← enforce_if_drifted c dev plan findings
    settle c plan sys enforced

  unfoldable pub unless_updating :
      Client → Plan F Sel → Assoc (Value F) → SysRead → Bool × ShellyDevice → Act (World S) Outcome
  unless_updating c plan actual sys (true, dev) = done (requeue_after update_settle)
  unless_updating c plan actual sys (false, dev) = do
    findings ←
        check fmt (logged env.calls) first_check c plan.profile plan.desired_name
          dev.status.auth_enabled actual
    with_findings c dev plan sys findings

  -- The plan without what is rendered from the device's configuration.
  abbrev pub plan_for :
      ShellyProfile F Sel
      → (password : String) → String × String
      → String
      → List String
      → Assoc (Value F)
      → Plan F Sel
  plan_for profile password wifi_pw desired_name warns actual = record {
    profile = profile;
    desired = render profile.spec.config desired_name actual;
    desired_name = desired_name;
    password = password;
    wifi_pw = wifi_pw;
    warns = warns;
  }

  unfoldable pub with_config :
      Client
      → ShellyDevice
      → ShellyProfile F Sel
      → (password : String) → String × String
      → String
      → List String
      → Result CallError (Assoc (Value F))
      → Act (World S) Outcome
  with_config c dev profile password wifi_pw desired_name warns (err e) =
      end_check dev (unread_condition password e) [] profile.name
  with_config c dev profile password wifi_pw desired_name warns (ok actual) = do
    (sys, dev₁) ← stamp_sys_status env c dev
    updating ← update_if_available env zones settings.update_spacing c dev₁ profile sys
    unless_updating c (plan_for profile password wifi_pw desired_name warns actual) actual sys
        updating

  unfoldable pub after_stamp :
      ShellyProfile F Sel
      → (password : String) → String × String
      → String
      → List String
      → Option String × ShellyDevice
      → Act (World S) Outcome
  after_stamp profile password wifi_pw desired_name warns (some text, dev) =
      end_check dev (condition unknown_status config_fetch_failed text) [] profile.name
  after_stamp profile password wifi_pw desired_name warns (none, dev) = do
    c ← device_client dev.status.address password
    actual ← Methods.get_config (logged env.calls) c
    with_config c dev profile password wifi_pw desired_name warns actual

  unfoldable pub with_name :
      ShellyDevice
      → ShellyProfile F Sel
      → List String
      → (password : String) → String × String
      → Result String String
      → Act (World S) Outcome
  with_name dev profile warns password wifi_pw (err text) =
      end_check dev (condition unknown_status config_fetch_failed text) [] profile.name
  with_name dev profile warns password wifi_pw (ok desired_name) = do
    stamp ← stamp_registry (patch_object env) reader settings.registry_name dev
    after_stamp profile password wifi_pw desired_name
        (append_profile_warnings profile.spec.config desired_name warns) stamp

  unfoldable pub with_wifi :
      ShellyDevice
      → ShellyProfile F Sel
      → List String
      → (password : String) → Result String (String × String)
      → Act (World S) Outcome
  with_wifi dev profile warns password (err text) =
      end_check dev (condition unknown_status credentials_error text) [] profile.name
  with_wifi dev profile warns password (ok wifi_pw) = do
    name ← resolve_name reader dev settings.name_map_name settings.registry_name
    with_name dev profile warns password wifi_pw name

  unfoldable pub with_password :
      ShellyDevice
      → ShellyProfile F Sel
      → List String
      → Result String String
      → Act (World S) Outcome
  with_password dev profile warns (err text) =
      end_check dev (condition unknown_status credentials_error text) [] profile.name
  with_password dev profile warns (ok password) = do
    wifi_pw ← resolve_wifi_passwords reader profile.spec.config.wifi
    with_wifi dev profile warns password wifi_pw

  unfoldable pub with_profile :
      ShellyDevice → Option (ShellyProfile F Sel) × List Warning → Act (World S) Outcome
  with_profile dev (none, warns) = end_check dev (unmatched_condition fmt dev warns) [] ""
  with_profile dev (some profile, warns) = do
    password ← resolve_password reader profile.spec.config.auth
    with_password dev profile (warning_texts fmt warns) password

  unfoldable pub with_profiles :
      ShellyDevice → Result ApiError (List (ShellyProfile F Sel)) → Act (World S) Outcome
  with_profiles dev (err e) = done (failed e)
  with_profiles dev (ok profiles) = with_profile dev (match_profile dev profiles)

  unfoldable pub unless_in_flight : ShellyDevice → Bool × ℕ → Act (World S) Outcome
  unless_in_flight dev (true, wait) = done (requeue_after wait)
  unless_in_flight dev (false, wait) = do
    profiles ← ask env.list_profiles
    with_profiles dev profiles

  unfoldable pub with_device : Result ApiError ShellyDevice → Act (World S) Outcome
  with_device (err (not_found e)) = done forget
  with_device (err (conflict e)) = done (failed (conflict e))
  with_device (err (other e)) = done (failed (other e))
  with_device (ok dev) =
      if dev.spec.paused
      then end_check dev (condition unknown_status paused "reconciliation paused via spec.paused")
          [] dev.status.matched_profile
      else if not dev.status.online
      then end_check dev (condition unknown_status offline "device offline; skipping drift check")
          [] dev.status.matched_profile
      else (do now ← ask env.now; unless_in_flight dev (update_in_flight dev now))

  unfoldable pub reconcile : String → Act (World S) Outcome
  reconcile name = do dev ← ask (env.get_device name); with_device dev
