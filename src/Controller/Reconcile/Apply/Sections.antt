-- ===== src/Controller/Reconcile/Apply/Sections.antt =====
-- What applyFindings adds to the log.
use shelly_operator.Base.{
  ℤ, Bool, false, String, Option, none, some, List, [], ◌∷◌, refl, ◌&&◌, ◌==◌, has_prefix, Result,
  ok, err,
}
use shelly_operator.Base.Assoc.{Assoc}
use shelly_operator.Json.{Floats, Fields}
use shelly_operator.Api.Profile.{ShellyProfile, ScheduleSection}
use shelly_operator.Api.Device.{ShellyDevice}
use shelly_operator.Drift.Diff.{Finding}
use shelly_operator.Drift.Order.{apply_order}
use shelly_operator.Drift.Report.{sections}
use shelly_operator.Shelly.Errors.{CallError}
use shelly_operator.Shelly.Rpc.{Rpc, wrap, pure}
use shelly_operator.Shelly.Methods as Methods
use shelly_operator.Shelly.Methods.{Client, Calls, Texts, set_config_method}
use shelly_operator.Controller.Firmware.{section_firmware, apply_firmware}
use shelly_operator.Controller.Schedule.{Codec, section_schedule}
use shelly_operator.Controller.Schedule.Apply.{apply_schedule}
use shelly_operator.Controller.World.{Effect, World, logged}
use shelly_operator.Controller.World.Logs.{Logs, Logs-still, Logs-if, Logs-rpc, Adds-run}
use shelly_operator.Controller.World.Policy.{
  Policy, logged-JobLogs, Logs-call, Logs-set_config, Logs-probe, set_config-not_update,
  last-not_update,
}
use shelly_operator.Controller.Reconcile.Apply.{
  section_auth, section_wifi, ApplyResult, Applying, is_some_true, apply_auth, apply_update_jobs,
  apply_jobs, apply_switch, apply_section, after_write, apply_sections, nothing_applied,
  apply_findings,
}
use shelly_operator.Controller.Reconcile.Apply.Logs.{apply_firmware-Logs, apply_schedule-Logs}

module _ {S : Type 0} {Q : List Effect → Type 0} {May : Type 0} (p : Policy Q May) where
  after_write-Logs :
      (next : ApplyResult → Applying (World S))
      → ((res : ApplyResult) → Logs Q (next res))
      → (section : String) (res : ApplyResult) (r : Result CallError Bool)
      → Logs Q (after_write next section res r)
  unfolding after_write
  after_write-Logs next h section res (err e) = Logs-still p.law
  after_write-Logs next h section res (ok b) = h _

  apply_sections-Logs :
      (write : String → Rpc (World S) Bool) (ss : List String)
      → ((s : String) → Logs Q (write s))
      → (res : ApplyResult) → Logs Q (apply_sections write ss res)
  unfolding apply_sections
  apply_sections-Logs write [] h res = Logs-still p.law
  apply_sections-Logs write (s ∷ ss) h res = λ w.
      Adds-run p.law (after_write (apply_sections write ss) s res (write s w).0) w (write s w).1
        (h s w)
        (after_write-Logs (apply_sections write ss) (apply_sections-Logs write ss h) s res
          (write s w).0)

module _ {F S : Type 0} {Q : List Effect → Type 0} {May : Type 0} (p : Policy Q May) (may : May)
    ⦃n : Floats F⦄ ⦃t : Texts⦄ ⦃codec : Codec F⦄ (calls : Calls F S) where
  set_config-Logs :
      (c : Client) (section : String) (config : Fields F)
      → Logs Q (Methods.set_config (logged calls) c section config)
  unfolding Methods.set_config
  set_config-Logs c section config =
      Logs-set_config p may calls c _ _ (set_config-not_update section)

  set_auth-Logs :
      (c : Client) (id password : String) → Logs Q (Methods.set_auth (logged calls) c id password)
  unfolding Methods.set_auth
  set_auth-Logs c id password = Logs-call p may calls c _ _ (last-not_update "Shelly.SetAuth" refl)

  apply_auth-Logs :
      (c : Client) (dev : ShellyDevice) (auth_enable : Option Bool) (password : String)
      → Logs Q (apply_auth (logged calls) c dev auth_enable password)
  unfolding apply_auth
  apply_auth-Logs c dev auth_enable password =
      Logs-if _ _ (is_some_true auth_enable && password == "") (Logs-still p.law) (
        Logs-rpc p.law
          (wrap "auth: probing for device id" ((logged calls).probe dev.status.address)) _
          (Logs-probe p may calls dev.status.address)
          λ id.
            Logs-rpc p.law (wrap "auth" (Methods.set_auth (logged calls) c id _)) (λ _. pure false)
              (set_auth-Logs c id _) (λ _. Logs-still p.law))

  apply_update_jobs-Logs :
      (c : Client) (want : Option Bool) → Logs Q (apply_update_jobs (logged calls) c want)
  unfolding apply_update_jobs
  apply_update_jobs-Logs c none = Logs-still p.law
  apply_update_jobs-Logs c (some want) =
      Logs-rpc p.law (wrap "firmware" (apply_firmware ((logged calls).schedules c) want))
        (λ _. pure false) (apply_firmware-Logs _ (logged-JobLogs p calls c) may want)
        (λ _. Logs-still p.law)

  apply_jobs-Logs :
      (c : Client) (section : Option (ScheduleSection F))
      → Logs Q (apply_jobs (logged calls) c section)
  unfolding apply_jobs
  apply_jobs-Logs c none = Logs-still p.law
  apply_jobs-Logs c (some section) =
      Logs-rpc p.law (wrap "schedule" (apply_schedule ((logged calls).schedules c) (some section)))
        (λ _. pure false) (apply_schedule-Logs _ (logged-JobLogs p calls c) may (some section))
        (λ _. Logs-still p.law)

  apply_switch-Logs :
      (c : Client) (section : String) (id : Option ℤ) (config : Fields F)
      → Logs Q (apply_switch (logged calls) c section id config)
  unfolding apply_switch Methods.set_switch_config
  apply_switch-Logs c section none config = Logs-still p.law
  apply_switch-Logs c section (some id) config =
      Logs-set_config p may calls c _ _ (last-not_update "Switch.SetConfig" refl)

  apply_section-Logs :
      {Sel : Type 0} (c : Client) (dev : ShellyDevice) (desired : Assoc (Fields F))
      (auth_enable fw_enable : Option Bool) (password : String) (wifi_pw : String × String)
      (profile : ShellyProfile F Sel) (section : String)
      → Logs Q (
          apply_section
            (logged calls)
            c
            dev
            desired
            auth_enable
            fw_enable
            password
            wifi_pw
            profile
            section)
  unfolding apply_section
  apply_section-Logs c dev desired auth_enable fw_enable password wifi_pw profile section =
      Logs-if _ _ (section == section_auth) (apply_auth-Logs c dev auth_enable password) (
        Logs-if _ _ (section == section_firmware) (apply_update_jobs-Logs c fw_enable) (
          Logs-if _ _ (section == section_schedule)
            (apply_jobs-Logs c profile.spec.config.schedules)
            (Logs-if _ _ (section == section_wifi) (set_config-Logs c section _) (
              Logs-if _ _ (has_prefix section "switch:") (apply_switch-Logs c section _ _)
                (set_config-Logs c section _)))))

  pub apply_findings-Logs :
      {Sel : Type 0} (c : Client) (dev : ShellyDevice) (desired : Assoc (Fields F))
      (findings : List (Finding F)) (auth_enable fw_enable : Option Bool) (password : String)
      (wifi_pw : String × String) (profile : ShellyProfile F Sel)
      → Logs Q (
          apply_findings
            (logged calls)
            c
            dev
            desired
            findings
            auth_enable
            fw_enable
            password
            wifi_pw
            profile)
  unfolding apply_findings
  apply_findings-Logs c dev desired findings auth_enable fw_enable password wifi_pw profile =
      apply_sections-Logs p _ (apply_order (sections findings))
        (apply_section-Logs c dev desired auth_enable fw_enable password wifi_pw profile)
        nothing_applied
