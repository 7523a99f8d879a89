-- ===== src/Controller/Firmware.antt =====
-- internal/controller/firmware.go: the schedule job that keeps a device's firmware current.
pub mod Agree
pub mod Apply
use Prim.Native.String.{◌++◌ as str_append}
use shelly_operator.Base.{
  ℤ, pos, Bool, true, false, String, Option, none, some, List, [], ◌∷◌, ◌++◌, ◌&&◌, not, ◌==◌, any,
  itoa_int, if◌then◌else◌,
}
use shelly_operator.Json.{Value, Fields, str, bool, end, field, get}
use shelly_operator.Drift.Diff.{Finding}
use shelly_operator.Shelly.Rpc.{Rpc, pure, wrap, ◌>>=◌, ◌>>◌, ScheduleCall, ScheduleJob, DeviceRpc}
use shelly_operator.Shelly.Schedules.{list_schedules, create_schedule, delete_schedule}

abbrev pub section_firmware : String
section_firmware = "firmware"

abbrev pub auto_update_timespec : String
auto_update_timespec = "0 0 0 * * SUN,MON,TUE,WED,THU,FRI,SAT"

abbrev pub shelly_update_method : String
shelly_update_method = "Shelly.Update"

-- s, _ := stage.(string); s != "stable"
abbrev pub not_stable : {F : Type 0} → Value F → Bool
not_stable (str s) = not (s == "stable")
not_stable _ = true

abbrev pub stage_not_stable : {F : Type 0} → Option (Value F) → Bool
stage_not_stable none = false
stage_not_stable (some stage) = not_stable stage

-- fmt.Sprintf("job:%d", id)
unfoldable pub job_path : ℤ → String
job_path id = str_append "job:" (itoa_int id)

module _ {F : Type 0} where
  unfoldable pub is_update_call : ScheduleCall F → Bool
  is_update_call c = c.method == shelly_update_method

  unfoldable pub is_update_job : ScheduleJob F → Bool
  unfolding is_update_call
  is_update_job j = any is_update_call j.calls

  unfoldable pub is_non_stable_call : ScheduleCall F → Bool
  unfolding is_update_call
  is_non_stable_call c = is_update_call c && stage_not_stable (get "stage" c.params)

  unfoldable pub has_non_stable_update_call : ScheduleJob F → Bool
  unfolding is_non_stable_call
  has_non_stable_update_call j = any is_non_stable_call j.calls

  -- The job is an update job that satisfies the desired state.
  abbrev pub is_compliant : Bool → ScheduleJob F → Bool
  is_compliant want j = want && (j.enable && not (has_non_stable_update_call j))

  -- The ids of the offending jobs, and whether a compliant job exists.
  unfoldable pub firmware_offenders : Bool → List (ScheduleJob F) → List ℤ × Bool
  firmware_offenders want [] = ([], false)
  firmware_offenders want (j ∷ jobs) =
      let (offenders, compliant) = firmware_offenders want jobs in
      if not (is_update_job j)
      then (offenders, compliant)
      else if is_compliant want j
      then (offenders, true)
      else (j.id ∷ offenders, compliant)

  abbrev finding : String → Value F → Value F → Finding F
  finding path want have = record {
    section = section_firmware;
    path = path;
    want = want;
    have = have;
  }

  -- The switch in the loop of firmwareFindings.
  unfoldable pub job_findings : Bool → ScheduleJob F → List (Finding F)
  job_findings want j =
      if not (is_update_job j)
      then []
      else if has_non_stable_update_call j
      then finding (job_path j.id) (str "no non-stable Shelly.Update job") (str "non-stable stage")
        ∷ []
      else if not want
      then finding (job_path j.id) (str "no Shelly.Update job") (str "present") ∷ []
      else if not j.enable
      then finding (job_path j.id) (str "enabled") (str "disabled") ∷ []
      else []

  unfoldable pub jobs_findings : Bool → List (ScheduleJob F) → List (Finding F)
  unfolding job_findings
  jobs_findings want [] = []
  jobs_findings want (j ∷ jobs) = job_findings want j ++ jobs_findings want jobs

  unfoldable pub firmware_findings : Bool → List (ScheduleJob F) → List (Finding F)
  unfolding jobs_findings firmware_offenders
  firmware_findings want jobs =
      jobs_findings want jobs
      ++ (if want && not (firmware_offenders want jobs).1
          then finding "autoUpdate" (bool true) (bool false) ∷ []
          else [])

  -- The job that is created where auto-update is wanted.
  unfoldable pub auto_update_job : ScheduleJob F
  auto_update_job = record {
    id = pos 0;
    enable = true;
    timespec = auto_update_timespec;
    calls =
        record { method = shelly_update_method; params = field "stage" (str "stable") end } ∷ [];
  }

module _ {F W : Type 0} (rpc : DeviceRpc F W) where
  -- The deletions, in order, up to the first that fails.
  unfoldable pub delete_jobs : List ℤ → Rpc W (Unit {0})
  unfolding delete_schedule
  delete_jobs [] = pure tt
  delete_jobs (id ∷ ids) = do
    wrap (str_append "deleting schedule job " (itoa_int id)) (delete_schedule rpc id)
    delete_jobs ids

  unfoldable pub ensure_job : Bool → Rpc W (Unit {0})
  unfolding create_schedule auto_update_job
  ensure_job false = pure tt
  ensure_job true = do
    wrap "creating auto-update job" (create_schedule rpc auto_update_job)
    pure tt

  unfoldable pub apply_firmware : Bool → Rpc W (Unit {0})
  unfolding list_schedules delete_jobs ensure_job firmware_offenders
  apply_firmware want = do
    jobs ← wrap "listing schedule jobs" (list_schedules rpc)
    delete_jobs (firmware_offenders want jobs).0
    ensure_job (want && not (firmware_offenders want jobs).1)
