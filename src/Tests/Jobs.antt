-- ===== src/Tests/Jobs.antt =====
-- Schedule jobs: the firmware section's and the declared ones.
use shelly_operator.Base.{
  eq_refl, ℤ, pos, eqz, Bool, true, false, String, none, some, List, [], ◌∷◌, ◌++◌, ◌≡◌, ◌↔◌, refl,
  All, select, map, ok, ◌==◌, if◌then◌else◌,
}
use Prim.Native.String.{◌++◌ as str_append}
use shelly_operator.Base.Sort.{IsSorted}
use shelly_operator.Json.{Fields, str, end, field}
use shelly_operator.Api.Profile.{ScheduleJobSpec, ScheduleSection}
use shelly_operator.Shelly.Rpc.{ScheduleJob}
use shelly_operator.Shellytest.Schedules.{ScheduleDevice, fake_rpc}
use shelly_operator.Controller.Firmware.{
  is_update_job, firmware_offenders, firmware_findings, apply_firmware, job_path,
}
use shelly_operator.Controller.Firmware.Agree.{paths, missing, firmware_findings-agree}
use shelly_operator.Controller.Firmware.Apply.{kept_job, created, apply_firmware_converges}
use shelly_operator.Controller.Schedule
use shelly_operator.Controller.Schedule.{Codec, job_spec_matches_device}
use shelly_operator.Controller.Schedule.Plan.{schedule_actions}
use shelly_operator.Controller.Schedule.Laws.{OwnJob, IsLicensed, schedule_actions-IsLicensed}
use shelly_operator.Controller.Schedule.Apply.{apply_schedule}
use shelly_operator.Controller.Schedule.Apply.Keeps.{FoldReflexive, apply_schedule-update_jobs}
use shelly_operator.Controller.Schedule.Apply.UpdateJobs.{update_jobs}
use shelly_operator.Controller.Schedule.Laws.Phases.{earlier, schedule_actions-IsSorted}
use shelly_operator.Controller.Schedule.Laws.Settled.{IsServed, IsDeclared, schedule_actions-nil}

-- A map as the text of its keys and its string values; method names without folding.
abbrev text : Fields ℤ → String
text end = "}"
text (field k (str s) fs) = str_append k (str_append ":" (str_append s (str_append "," (text fs))))
text (field k v fs) = str_append k (str_append "," (text fs))

instance abbrev plain : Codec ℤ
plain = record {
  marshal = text;
  equal_fold = λ a b. a == b;
  quote = λ s. s;
  type_error = λ v. "no map";
}

abbrev job : ℤ → Bool → String → String → ScheduleJob ℤ
job id enable timespec method = record {
  id = id;
  enable = enable;
  timespec = timespec;
  calls = record { method = method; params = end } ∷ [];
}

abbrev spec : String → String → ScheduleJobSpec ℤ
spec timespec method = record {
  enable = none;
  timespec = timespec;
  calls = record { method = method; params = none } ∷ [];
}

abbrev jobs : List (ScheduleJob ℤ)
jobs =
    job (pos 1) false "0 0 6 * * *" "Switch.Set"
    ∷ job (pos 2) true "0 0 0 * * *" "Shelly.Update"
    ∷ job (pos 3) true "0 0 9 * * *" "Light.Set"
    ∷ []

abbrev section : ScheduleSection ℤ
section = record { jobs = spec "0 0 6 * * *" "Switch.Set" ∷ spec "0 0 7 * * *" "Switch.Set" ∷ [] }

schedule_actions-IsLicensed_example :
    All (IsLicensed section.jobs jobs) (schedule_actions (some section) jobs)
schedule_actions-IsLicensed_example = schedule_actions-IsLicensed section jobs

schedule_actions-IsSorted_example : IsSorted earlier (schedule_actions (some section) jobs)
schedule_actions-IsSorted_example = schedule_actions-IsSorted (some section) jobs

abbrev settled_jobs : List (ScheduleJob ℤ)
settled_jobs =
    job (pos 1) true "0 0 6 * * *" "Switch.Set"
    ∷ job (pos 2) true "0 0 0 * * *" "Shelly.Update"
    ∷ []

abbrev settled_section : ScheduleSection ℤ
settled_section = record { jobs = spec "0 0 6 * * *" "Switch.Set" ∷ [] }

nothing_to_do : schedule_actions (some settled_section) settled_jobs ≡ []
unfolding schedule_actions Schedule.spec_is_update_job is_update_job job_spec_matches_device
nothing_to_do = refl

schedule_actions-nil_example :
    All (IsServed settled_jobs) settled_section.jobs
    × ((dj : ScheduleJob ℤ) → OwnJob settled_jobs dj → IsDeclared settled_section.jobs dj)
schedule_actions-nil_example = schedule_actions-nil settled_section settled_jobs nothing_to_do

firmware_findings-agree_example :
    (paths (firmware_findings true jobs)
      ≡ map job_path (firmware_offenders true jobs).0
        ++ (if missing true jobs then "autoUpdate" ∷ [] else []))
    × ((firmware_findings true jobs ≡ [])
        ↔ (((firmware_offenders true jobs).0 ≡ []) × (missing true jobs ≡ false)))
firmware_findings-agree_example = firmware_findings-agree true jobs

abbrev clock : ScheduleDevice ℤ
clock = record { schedules = jobs; schedule_rev = 0; next_sched_id = 4 }

apply_firmware_converges_example :
    (d' : ScheduleDevice ℤ) × (apply_firmware fake_rpc false clock ≡ (ok tt, d'))
    × (d'.schedules ≡ select (kept_job false) clock.schedules ++ created false clock)
    × (firmware_findings false d'.schedules ≡ [])
unfolding eqz
apply_firmware_converges_example =
    apply_firmware_converges false clock ((refl, (refl, tt)), ((refl, tt), (tt, tt)))

plain-FoldReflexive : FoldReflexive plain
plain-FoldReflexive = eq_refl

apply_schedule-update_jobs_example :
    update_jobs (apply_schedule fake_rpc (some section) clock).1.schedules
    ≡ update_jobs clock.schedules
unfolding eqz
apply_schedule-update_jobs_example =
    apply_schedule-update_jobs plain-FoldReflexive (some section) clock
      ((refl, (refl, tt)), ((refl, tt), (tt, tt)))
