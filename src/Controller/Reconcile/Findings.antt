-- ===== src/Controller/Reconcile/Findings.antt =====
-- internal/controller/shellydevice_controller.go: the findings of a device and
-- the client that reads them.
use Prim.Native.String.{◌++◌ as str_append}
use shelly_operator.Base.{
  ℤ, Bool, String, Option, none, some, List, [], ◌∷◌, ◌++◌, ◌==◌, not, iff_b, Result, ok, err,
  if◌then◌else◌,
}
use shelly_operator.Base.Assoc
use shelly_operator.Base.Assoc.{Assoc}
use shelly_operator.Json.{Floats, Value, bool}
use shelly_operator.Api.Profile.{ShellyProfile, AuthSection, FirmwareSection, ScheduleSection}
use shelly_operator.Api.Server.{Act, done, ◌>>=◌}
use shelly_operator.Drift.Diff.{Finding, DiffError, diff}
use shelly_operator.Drift.Render.{render}
use shelly_operator.Drift.Render.Write.{and_then}
use shelly_operator.Shelly.Errors.{CallError, error_text}
use shelly_operator.Shelly.Rpc.{Rpc, ScheduleJob}
use shelly_operator.Shelly.Schedules.{list_schedules}
use shelly_operator.Shelly.Methods.{Client, Calls}
use shelly_operator.Controller.Firmware.{firmware_findings}
use shelly_operator.Controller.Schedule.{Codec}
use shelly_operator.Controller.Schedule.Plan.{schedule_actions, ScheduleAction}
use shelly_operator.Controller.World.{World}
use shelly_operator.Controller.Reconcile.Apply.{section_auth}

-- The verb %v of fmt on JSON values and %q on texts, and the text of Diff's error.
pub record Format (F : Type 0) : Type 0 where
  pub show : Value F → String
  pub quote : String → String
  pub diff_error : DiffError → String

-- The settings of the reconciler.
pub record Settings : Type 0 where
  pub name_map_name : String
  pub registry_name : String
  pub interval : ℤ
  pub update_spacing : ℤ

-- An error of the application, or the text of a recheckError.
pub data EnforceError : Type 0 where
  apply_error : CallError → EnforceError
  recheck_error : String → EnforceError

-- r.clients[addr], where it was built with the password
unfoldable pub cached : String → String → Option Client → Client
cached addr password none = record { host = addr; password = password }
cached addr password (some c) =
    if c.password == password then c else record { host = addr; password = password }

unfoldable pub device_client : {S : Type 0} → String → String → Act (World S) Client
device_client addr password w =
    let c = cached addr password (Assoc.get addr w.clients) in
    (c, record w { clients = Assoc.put addr c w.clients })

module _ {F Sel : Type 0} where
  unfoldable pub auth_enable_of : ShellyProfile F Sel → Option Bool
  auth_enable_of profile = and_then (λ (a : AuthSection). a.enable) profile.spec.config.auth

  unfoldable pub firmware_enable_of : ShellyProfile F Sel → Option Bool
  firmware_enable_of profile =
      and_then (λ (f : FirmwareSection). f.auto_update) profile.spec.config.firmware

module _ {F : Type 0} where
  unfoldable pub auth_findings : Option Bool → Bool → List (Finding F)
  auth_findings none now = []
  auth_findings (some want) now =
      if not (iff_b want now)
      then record { section = section_auth; path = "enable"; want = bool want; have = bool now }
        ∷ []
      else []

  unfoldable pub append_auth_finding : Option Bool → List (Finding F) → Bool → List (Finding F)
  unfolding auth_findings
  append_auth_finding want findings now = findings ++ auth_findings want now

  abbrev pub action_findings : List (ScheduleAction F) → List (Finding F)
  action_findings [] = []
  action_findings (a ∷ actions) = a.finding ∷ action_findings actions

  -- What was appended where the read of the jobs succeeded.
  abbrev pub appended :
      List (Finding F)
      → (List (ScheduleJob F) → List (Finding F))
      → Result CallError (List (ScheduleJob F))
      → Result CallError (List (Finding F))
  appended findings more (ok jobs) = ok (findings ++ more jobs)
  appended findings more (err e) = err e

module _ {F W : Type 0} (calls : Calls F W) where
  -- No RPC is sent for a section that the profile does not manage.
  unfoldable pub append_firmware_findings :
      Client → Option Bool → List (Finding F) → Rpc W (List (Finding F))
  append_firmware_findings c none findings = done (ok findings)
  append_firmware_findings c (some want) findings = do
    jobs ← list_schedules (calls.schedules c)
    done (appended findings (firmware_findings want) jobs)

  unfoldable pub append_schedule_findings :
      ⦃codec : Codec F⦄
      → Client
      → Option (ScheduleSection F)
      → List (Finding F)
      → Rpc W (List (Finding F))
  append_schedule_findings c none findings = done (ok findings)
  append_schedule_findings c (some section) findings = do
    jobs ← list_schedules (calls.schedules c)
    done (appended findings (λ js. action_findings (schedule_actions (some section) js)) jobs)

-- The texts under which the steps of a check report their errors.
pub record Steps : Type 0 where
  pub parsing : String
  pub firmware_jobs : String
  pub section_jobs : String

abbrev pub first_check : Steps
first_check = record {
  parsing = "parsing device config: ";
  firmware_jobs = "fetching schedule jobs: ";
  section_jobs = "fetching schedule jobs for schedule section: ";
}

abbrev pub recheck : Steps
recheck = record {
  parsing = "parsing device config after enforcement: ";
  firmware_jobs = "re-checking schedule jobs after enforcement: ";
  section_jobs = "re-checking schedule section jobs after enforcement: ";
}

module _ {F Sel S : Type 0} ⦃n : Floats F⦄ ⦃codec : Codec F⦄ (fmt : Format F)
    (calls : Calls F S) where
  unfoldable pub section_findings :
      Steps
      → Client
      → ShellyProfile F Sel
      → Result CallError (List (Finding F))
      → Act S (Result String (List (Finding F)))
  section_findings steps c profile (err e) =
      done (err (str_append steps.firmware_jobs (error_text e)))
  section_findings steps c profile (ok findings) = do
    all ← append_schedule_findings calls c profile.spec.config.schedules findings
    done (elim all [ ok fs ↦ ok fs | err e ↦ err (str_append steps.section_jobs (error_text e)) ])

  unfoldable pub all_findings :
      Steps
      → Client
      → ShellyProfile F Sel
      → Bool
      → Result DiffError (List (Finding F))
      → Act S (Result String (List (Finding F)))
  all_findings steps c profile auth_now (err e) =
      done (err (str_append steps.parsing (fmt.diff_error e)))
  all_findings steps c profile auth_now (ok findings) = do
    more ←
        append_firmware_findings calls c (firmware_enable_of profile)
          (append_auth_finding (auth_enable_of profile) findings auth_now)
    section_findings steps c profile more

  -- Render, Diff, and the findings of the pseudo-sections.
  unfoldable pub check :
      Steps
      → Client
      → ShellyProfile F Sel
      → String
      → Bool
      → Assoc (Value F)
      → Act S (Result String (List (Finding F)))
  check steps c profile desired_name auth_now actual =
      all_findings steps c profile auth_now
        (diff (render profile.spec.config desired_name actual) actual)
