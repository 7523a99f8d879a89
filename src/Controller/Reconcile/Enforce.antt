-- ===== src/Controller/Reconcile/Enforce.antt =====
-- enforceAndRecheck and runEnforce of internal/controller/shellydevice_controller.go.
pub mod Logs
use Prim.Native.String.{◌++◌ as str_append}
use shelly_operator.Base.{
  ℕ, ℤ, Bool, true, false, String, Option, none, some, List, [], ◌∷◌, ◌==◌, ◌&&◌, not, any, Result,
  ok, err, if◌then◌else◌,
}
use shelly_operator.Base.Assoc.{Assoc}
use shelly_operator.Json.{Floats, Value, Fields}
use shelly_operator.Api.Profile.{ShellyProfile}
use shelly_operator.Api.Device.{
  ShellyDevice, Condition, ConditionStatus, false_status, unknown_status, Reason, wifi_applied,
  config_fetch_failed, apply_failed, not_converging,
}
use shelly_operator.Api.Server.{Act, done, ◌>>=◌, ◌>>◌}
use shelly_operator.Drift.Diff.{Finding}
use shelly_operator.Drift.Report.{summarize}
use shelly_operator.Shelly.Errors.{CallError, error_text}
use shelly_operator.Shelly.Methods as Methods
use shelly_operator.Shelly.Methods.{Client, Texts}
use shelly_operator.Controller.Schedule.{Codec}
use shelly_operator.Controller.World.{Env, World, logged, record_event}
use shelly_operator.Controller.Reconcile.Status.{Outcome, reason_text, with_warnings, finish}
use shelly_operator.Controller.Reconcile.Apply.{
  ApplyResult, apply_findings, section_auth, section_wifi,
}
use shelly_operator.Controller.Reconcile.Findings.{
  Format, EnforceError, apply_error, recheck_error, device_client, auth_enable_of,
  firmware_enable_of, recheck, check,
}

-- What enforceAndRecheck returns: findings, the applied sections, the state of authentication, and an
-- error.
pub record Enforced (F : Type 0) : Type 0 where
  pub findings : List (Finding F)
  pub applied : List String
  pub auth_now : Bool
  pub error : Option EnforceError

-- What runEnforce returns: Reconcile is to return the outcome, or to go on with the findings and the
-- device.
pub data Enforcement (F : Type 0) : Type 0 where
  ended : Outcome → Enforcement F
  go_on : List (Finding F) → ShellyDevice → Enforcement F

-- Where the authentication was written, its declared state.
unfoldable pub auth_after : List String → Option Bool → Bool → Bool
auth_after applied none now = now
auth_after applied (some want) now = if any (λ s. s == section_auth) applied then want else now

abbrev pub with_auth : Bool → ShellyDevice → ShellyDevice
with_auth b dev = record dev { status = record dev.status { auth_enabled = b } }

-- A finding's section was written.
unfoldable pub is_reverted : {F : Type 0} → List String → Finding F → Bool
is_reverted applied f = any (λ s. s == f.section) applied

-- prev.Reason == NotConverging && prev.Message == message
unfoldable pub is_damped : Option Condition → String → Bool
is_damped none message = false
is_damped (some prev) message =
    reason_text prev.reason == reason_text not_converging && prev.message == message

abbrev pub condition : ConditionStatus → Reason → String → Condition
condition status reason message = record { status = status; reason = reason; message = message }

abbrev wifi_text : String → String
wifi_text address = str_append "wifi configuration applied; device no longer reachable at " (
    str_append address
      " -- it may have moved networks; discovery will update the address when it reappears (ensure --discovery-cidrs covers the new subnet)")

-- What a reconcile knows of the device it enforces: the profile, the desired maps, the name, the
-- passwords and the warnings.
pub record Plan (F Sel : Type 0) : Type 0 where
  pub profile : ShellyProfile F Sel
  pub desired : Assoc (Fields F)
  pub desired_name : String
  pub password : String
  pub wifi_pw : String × String
  pub warns : List String

module _ {F Sel S : Type 0} ⦃n : Floats F⦄ ⦃t : Texts⦄ ⦃codec : Codec F⦄ (fmt : Format F)
    (env : Env F Sel S) where
  abbrev stopped : ApplyResult → List (Finding F) → Bool → EnforceError → Enforced F
  stopped res findings auth_now e = record {
    findings = findings;
    applied = res.applied;
    auth_now = auth_now;
    error = some e;
  }

  abbrev pub rechecked : ApplyResult → Bool → Result String (List (Finding F)) → Enforced F
  rechecked res auth_now (err text) = stopped res [] auth_now (recheck_error text)
  rechecked res auth_now (ok findings) = record {
    findings = findings;
    applied = res.applied;
    auth_now = auth_now;
    error = none;
  }

  unfoldable pub check_again :
      Client
      → Plan F Sel
      → ApplyResult
      → Bool
      → Result CallError (Assoc (Value F))
      → Act (World S) (Enforced F)
  check_again c plan res auth_now (err e) = done (
      stopped res [] auth_now
        (recheck_error (str_append "re-checking after enforcement: " (error_text e))))
  check_again c plan res auth_now (ok actual) = do
    findings ← check fmt (logged env.calls) recheck c plan.profile plan.desired_name auth_now actual
    done (rechecked res auth_now findings)

  unfoldable pub after_apply :
      ShellyDevice
      → Plan F Sel
      → List (Finding F)
      → ApplyResult
      → Option CallError
      → Act (World S) (Enforced F)
  after_apply dev plan findings res (some e) =
      done (stopped res findings dev.status.auth_enabled (apply_error e))
  after_apply dev plan findings res none = do
    c ← device_client dev.status.address plan.password
    actual ← Methods.get_config (logged env.calls) c
    check_again c plan res
        (auth_after res.applied (auth_enable_of plan.profile) dev.status.auth_enabled) actual

  unfoldable pub applied_event : List String → Act (World S) (Unit {0})
  applied_event [] = done tt
  applied_event (s ∷ ss) = record_event env false "DriftCorrected"

  unfoldable pub enforce_and_recheck :
      Client → ShellyDevice → Plan F Sel → List (Finding F) → Act (World S) (Enforced F)
  enforce_and_recheck c dev plan findings = do
    (res, failed) ←
        apply_findings (logged env.calls) c dev plan.desired findings (auth_enable_of plan.profile)
          (firmware_enable_of plan.profile) plan.password plan.wifi_pw plan.profile
    applied_event res.applied
    (if res.restart_required then record_event env false "RestartRequired" else done tt)
    after_apply dev plan findings res failed

  abbrev pub end_with :
      ℤ → ShellyDevice → Plan F Sel → Condition → List (Finding F) → Act (World S) (Enforcement F)
  end_with interval dev plan now findings = do
    outcome ← finish env interval dev now findings plan.profile.name
    done (ended outcome)

  -- The condition after an error.
  unfoldable pub failure : ShellyDevice → Plan F Sel → List String → EnforceError → Condition
  failure dev plan applied (recheck_error text) =
      if any (λ s. s == section_wifi) applied
      then condition unknown_status wifi_applied
          (with_warnings (wifi_text dev.status.address) plan.warns)
      else condition unknown_status config_fetch_failed (with_warnings text plan.warns)
  failure dev plan applied (apply_error e) =
      condition false_status apply_failed
        (with_warnings (str_append "enforcing drifted config: " (error_text e)) plan.warns)

  -- The findings that go with it.
  abbrev pub failure_findings : EnforceError → List (Finding F) → List (Finding F)
  failure_findings (recheck_error text) findings = []
  failure_findings (apply_error e) findings = findings

  unfoldable pub still_drifted : Plan F Sel → List (Finding F) → Condition
  still_drifted plan findings =
      condition false_status not_converging (with_warnings (summarize fmt.show findings) plan.warns)

  unfoldable pub judge :
      ℤ
      → ShellyDevice
      → Plan F Sel
      → List (Finding F)
      → List String
      → Option EnforceError
      → Bool
      → Act (World S) (Enforcement F)
  judge interval dev plan findings applied (some e) auth_now =
      end_with interval dev plan (failure dev plan applied e) (failure_findings e findings)
  judge interval dev plan findings applied none auth_now =
      let dev' = with_auth auth_now dev in
      if any (is_reverted applied) findings
      then (do
        record_event env true "EnforcementNotConverging"
        end_with interval dev' plan (still_drifted plan findings) findings)
      else done (go_on findings dev')

  unfoldable pub run_enforce :
      ℤ → Client → ShellyDevice → Plan F Sel → List (Finding F) → Act (World S) (Enforcement F)
  run_enforce interval c dev plan findings =
      if is_damped dev.status.in_sync (still_drifted plan findings).message
      then end_with interval dev plan (still_drifted plan findings) findings
      else (do
        r ← enforce_and_recheck c dev plan findings
        judge interval dev plan r.findings r.applied r.error r.auth_now)
