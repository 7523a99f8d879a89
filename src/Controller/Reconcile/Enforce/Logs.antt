-- ===== src/Controller/Reconcile/Enforce/Logs.antt =====
-- What the checks and runEnforce add to the log.
use shelly_operator.Base.{
  ℤ, Bool, String, Option, none, some, List, [], ◌∷◌, refl, any, Result, ok, err,
}
use shelly_operator.Base.Assoc.{Assoc}
use shelly_operator.Json.{Floats, Value, end}
use shelly_operator.Api.Profile.{ShellyProfile, ScheduleSection}
use shelly_operator.Api.Device.{ShellyDevice, Condition}
use shelly_operator.Drift.Diff.{Finding, DiffError}
use shelly_operator.Shelly.Errors.{CallError}
use shelly_operator.Shelly.Schedules.{list_schedules}
use shelly_operator.Shelly.Methods as Methods
use shelly_operator.Shelly.Methods.{Client, Calls, Texts}
use shelly_operator.Controller.Schedule.{Codec}
use shelly_operator.Controller.World.{Effect, Env, logged}
use shelly_operator.Controller.World.Logs.{
  Logs, Logs-still, Logs-bind, Logs-event, Logs-if, Logs-perform,
}
use shelly_operator.Controller.World.Policy.{Policy, notes_of, logged-JobLogs}
use shelly_operator.Controller.Reconcile.Status.Logs.{finish-Logs}
use shelly_operator.Controller.Reconcile.Apply.{ApplyResult}
use shelly_operator.Controller.Reconcile.Apply.Sections.{apply_findings-Logs}
use shelly_operator.Controller.Reconcile.Findings.{
  Format, EnforceError, device_client, append_firmware_findings, append_schedule_findings, Steps,
  section_findings, all_findings, check,
}
use shelly_operator.Controller.Reconcile.Enforce.{
  Plan, check_again, after_apply, applied_event, enforce_and_recheck, end_with, judge, run_enforce,
  is_reverted, is_damped, still_drifted,
}

module _ {S : Type 0} {Q : List Effect → Type 0} {May : Type 0} (p : Policy Q May) where
  pub device_client-Logs : (addr password : String) → Logs Q (device_client {S = S} addr password)
  unfolding device_client
  device_client-Logs addr password w = ([], refl, p.law.none_done)

module _ {F S : Type 0} {Q : List Effect → Type 0} {May : Type 0} (p : Policy Q May)
    (calls : Calls F S) where
  pub get_config-Logs : (c : Client) → Logs Q (Methods.get_config (logged calls) c)
  unfolding Methods.get_config logged
  get_config-Logs c =
      Logs-perform p.law _ (calls.call_config c "Shelly.GetConfig" end) (λ a. p.config_read c)

  list_schedules-Logs : (c : Client) → Logs Q (list_schedules ((logged calls).schedules c))
  unfolding list_schedules
  list_schedules-Logs c = (logged-JobLogs p calls c).list

  firmware-Logs :
      (c : Client) (want : Option Bool) (findings : List (Finding F))
      → Logs Q (append_firmware_findings (logged calls) c want findings)
  unfolding append_firmware_findings
  firmware-Logs c none findings = Logs-still p.law
  firmware-Logs c (some want) findings =
      Logs-bind p.law _ _ (list_schedules-Logs c) (λ jobs. Logs-still p.law)

  schedule-Logs :
      ⦃codec : Codec F⦄ (c : Client) (section : Option (ScheduleSection F))
      (findings : List (Finding F))
      → Logs Q (append_schedule_findings (logged calls) c section findings)
  unfolding append_schedule_findings
  schedule-Logs c none findings = Logs-still p.law
  schedule-Logs c (some section) findings =
      Logs-bind p.law _ _ (list_schedules-Logs c) (λ jobs. Logs-still p.law)

  module _ {Sel : Type 0} ⦃n : Floats F⦄ ⦃codec : Codec F⦄ (fmt : Format F) where
    section_findings-Logs :
        (steps : Steps) (c : Client) (profile : ShellyProfile F Sel)
        (r : Result CallError (List (Finding F)))
        → Logs Q (section_findings fmt (logged calls) steps c profile r)
    unfolding section_findings
    section_findings-Logs steps c profile (err e) = Logs-still p.law
    section_findings-Logs steps c profile (ok findings) =
        Logs-bind p.law _ _ (schedule-Logs c _ findings) (λ all. Logs-still p.law)

    all_findings-Logs :
        (steps : Steps) (c : Client) (profile : ShellyProfile F Sel) (auth_now : Bool)
        (r : Result DiffError (List (Finding F)))
        → Logs Q (all_findings fmt (logged calls) steps c profile auth_now r)
    unfolding all_findings
    all_findings-Logs steps c profile auth_now (err e) = Logs-still p.law
    all_findings-Logs steps c profile auth_now (ok findings) =
        Logs-bind p.law _ _ (firmware-Logs c _ _) (section_findings-Logs steps c profile)

    pub check-Logs :
        (steps : Steps) (c : Client) (profile : ShellyProfile F Sel) (desired_name : String)
        (auth_now : Bool) (actual : Assoc (Value F))
        → Logs Q (check fmt (logged calls) steps c profile desired_name auth_now actual)
    unfolding check
    check-Logs steps c profile desired_name auth_now actual =
        all_findings-Logs steps c profile auth_now _

module _ {F Sel S : Type 0} {Q : List Effect → Type 0} {May : Type 0} (p : Policy Q May)
    ⦃n : Floats F⦄ ⦃t : Texts⦄ ⦃codec : Codec F⦄ (fmt : Format F) (env : Env F Sel S) where
  check_again-Logs :
      (c : Client) (plan : Plan F Sel) (res : ApplyResult) (auth_now : Bool)
      (r : Result CallError (Assoc (Value F)))
      → Logs Q (check_again fmt env c plan res auth_now r)
  unfolding check_again
  check_again-Logs c plan res auth_now (err e) = Logs-still p.law
  check_again-Logs c plan res auth_now (ok actual) =
      Logs-bind p.law _ _ (check-Logs p env.calls fmt _ c plan.profile _ auth_now actual)
        (λ r. Logs-still p.law)

  after_apply-Logs :
      (dev : ShellyDevice) (plan : Plan F Sel) (findings : List (Finding F)) (res : ApplyResult)
      (e : Option CallError)
      → Logs Q (after_apply fmt env dev plan findings res e)
  unfolding after_apply
  after_apply-Logs dev plan findings res (some e) = Logs-still p.law
  after_apply-Logs dev plan findings res none =
      Logs-bind p.law _ _ (device_client-Logs p _ _)
        λ c. Logs-bind p.law _ _ (get_config-Logs p env.calls c) (check_again-Logs c plan res _)

  applied_event-Logs : (applied : List String) → Logs Q (applied_event fmt env applied)
  unfolding applied_event
  applied_event-Logs [] = Logs-still p.law
  applied_event-Logs (s ∷ ss) = Logs-event p.law env _ _ (p.event _ _)

  enforce_and_recheck-Logs :
      May
      → (c : Client) (dev : ShellyDevice) (plan : Plan F Sel) (findings : List (Finding F))
      → Logs Q (enforce_and_recheck fmt env c dev plan findings)
  unfolding enforce_and_recheck
  enforce_and_recheck-Logs may c dev plan findings =
      Logs-bind p.law _ _
        (apply_findings-Logs p may env.calls c dev _ findings _ _ _ _ plan.profile)
        λ (res, e). Logs-bind p.law _ _ (applied_event-Logs res.applied) λ _.
          Logs-bind p.law _ _
            (Logs-if _ _ res.restart_required (Logs-event p.law env _ _ (p.event _ _))
              (Logs-still p.law))
            (λ _. after_apply-Logs dev plan findings res e)

  end_with-Logs :
      (interval : ℤ) (dev : ShellyDevice) (plan : Plan F Sel) (now : Condition)
      (findings : List (Finding F))
      → Logs Q (end_with fmt env interval dev plan now findings)
  end_with-Logs interval dev plan now findings =
      Logs-bind p.law _ _ (finish-Logs (notes_of p) env interval dev now findings _)
        (λ o. Logs-still p.law)

  judge-Logs :
      (interval : ℤ) (dev : ShellyDevice) (plan : Plan F Sel) (findings : List (Finding F))
      (applied : List String) (e : Option EnforceError) (auth_now : Bool)
      → Logs Q (judge fmt env interval dev plan findings applied e auth_now)
  unfolding judge
  judge-Logs interval dev plan findings applied (some e) auth_now =
      end_with-Logs interval dev plan _ _
  judge-Logs interval dev plan findings applied none auth_now =
      Logs-if _ _ (any (is_reverted applied) findings)
        (Logs-bind p.law _ _ (Logs-event p.law env _ _ (p.event _ _))
          (λ _. end_with-Logs interval _ plan _ findings))
        (Logs-still p.law)

  pub run_enforce-Logs :
      May
      → (interval : ℤ) (c : Client) (dev : ShellyDevice) (plan : Plan F Sel)
        (findings : List (Finding F))
      → Logs Q (run_enforce fmt env interval c dev plan findings)
  unfolding run_enforce
  run_enforce-Logs may interval c dev plan findings =
      Logs-if _ _ (is_damped dev.status.in_sync (still_drifted fmt env plan findings).message)
        (end_with-Logs interval dev plan _ findings)
        (Logs-bind p.law _ _ (enforce_and_recheck-Logs may c dev plan findings)
          λ r. judge-Logs interval dev plan r.findings r.applied r.error r.auth_now)
