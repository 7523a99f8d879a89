-- ===== src/Controller/Schedule/Plan.antt =====
-- internal/controller/schedule.go: scheduleActions.
use Prim.Native.String.{◌++◌ as str_append}
use shelly_operator.Base.{
  ℤ, pos, negsuc, ℕ, suc, Bool, true, false, String, Option, none, some, List, [], ◌∷◌, ◌++◌, not,
  iff_b, itoa, select, if◌then◌else◌,
}
use shelly_operator.Json.{Value, str, bool}
use shelly_operator.Drift.Diff.{Finding}
use shelly_operator.Api.Profile.{ScheduleJobSpec, ScheduleSection}
use shelly_operator.Shelly.Rpc.{ScheduleJob}
use shelly_operator.Controller.Firmware.{is_update_job, job_path}
use shelly_operator.Controller.Schedule.{
  Codec, section_schedule, enable_of, spec_is_update_job, job_spec_matches_device,
}

pub data Kind : Type 0 where
  create delete update : Kind

pub record ScheduleAction (F : Type 0) : Type 0 where
  pub kind : Kind
  pub id : ℤ
  pub job : ScheduleJob F
  pub finding : Finding F

-- An owned device job, and whether a declared job was matched to it: ownedJobs and deviceMatched.
abbrev pub Owned : Type 0 → Type 0
Owned F = List (ScheduleJob F × Bool)

module _ {F : Type 0} where
  abbrev finding : String → Value F → Value F → Finding F
  finding path want have = record {
    section = section_schedule;
    path = path;
    want = want;
    have = have;
  }

  abbrev pub unmatched : List (ScheduleJob F) → Owned F
  unmatched [] = []
  unmatched (j ∷ js) = (j, false) ∷ unmatched js

  -- The update of a matched job whose enable value is wrong.
  unfoldable pub update_action :
      ScheduleJobSpec F → Option (ScheduleJob F) → List (ScheduleAction F)
  update_action spec none = []
  update_action spec (some dj) =
      if not (iff_b dj.enable (enable_of spec))
      then record {
        kind = update;
        id = dj.id;
        job = record dj { enable = enable_of spec };
        finding =
            finding (str_append (job_path dj.id) ":enable") (bool (enable_of spec))
              (bool dj.enable);
      }
        ∷ []
      else []

  abbrev pub is_found : Option (ScheduleJob F) → Bool
  is_found none = false
  is_found (some j) = true

  -- The job's id is the sentinel -1 - si, by which applySchedule finds the declared job.
  unfoldable pub create_action : ℕ → ScheduleJobSpec F → ScheduleAction F
  create_action si spec = record {
    kind = create;
    id = pos 0;
    job = record { id = negsuc si; enable = enable_of spec; timespec = spec.timespec; calls = [] };
    finding =
        finding (str_append "spec:" (str_append (itoa si) (str_append ":timespec=" spec.timespec)))
          (str "present") (str "absent");
  }

  unfoldable pub delete_action : ScheduleJob F → ScheduleAction F
  delete_action dj = record {
    kind = delete;
    id = dj.id;
    job = dj;
    finding = finding (job_path dj.id) (str "absent") (str "present");
  }

  -- The third pass: device jobs that nothing declares.
  unfoldable pub delete_pass : Owned F → List (ScheduleAction F)
  unfolding delete_action
  delete_pass [] = []
  delete_pass ((dj, matched) ∷ owned) =
      let rest = delete_pass owned in if matched then rest else delete_action dj ∷ rest

module _ {F : Type 0} ⦃c : Codec F⦄ where
  -- The inner loop of the first pass: the first unmatched job of the same content.
  unfoldable pub claim : ScheduleJobSpec F → Owned F → Option (ScheduleJob F) × Owned F
  claim spec [] = (none, [])
  claim spec ((dj, true) ∷ owned) =
      let (found, owned') = claim spec owned in (found, (dj, true) ∷ owned')
  claim spec ((dj, false) ∷ owned) =
      let (found, owned') = claim spec owned in
      if job_spec_matches_device dj spec
      then (some dj, (dj, true) ∷ owned)
      else (found, (dj, false) ∷ owned')

  -- A declared update job belongs to the firmware section.
  unfoldable pub claim_owned : ScheduleJobSpec F → Owned F → Option (ScheduleJob F) × Owned F
  unfolding claim
  claim_owned spec owned = if spec_is_update_job spec then (none, owned) else claim spec owned

  -- The first pass: which declared jobs were matched, the updates, and the device jobs.
  unfoldable pub match_pass :
      List (ScheduleJobSpec F) → Owned F → List Bool × List (ScheduleAction F) × Owned F
  unfolding claim_owned update_action
  match_pass [] owned = ([], [], owned)
  match_pass (spec ∷ specs) owned =
      let (found, owned') = claim_owned spec owned in
      let (matched, updates, owned'') = match_pass specs owned' in
      (is_found found ∷ matched, update_action spec found ++ updates, owned'')

  -- The second pass, from index `si`: declared jobs that no device job was matched to.
  unfoldable pub create_pass : ℕ → List (ScheduleJobSpec F) → List Bool → List (ScheduleAction F)
  unfolding create_action
  create_pass si [] matched = []
  create_pass si (spec ∷ specs) [] = []
  create_pass si (spec ∷ specs) (m ∷ matched) =
      let rest = create_pass (suc si) specs matched in
      if m then rest else if spec_is_update_job spec then rest else create_action si spec ∷ rest

  unfoldable pub plan : List (ScheduleJobSpec F) → List (ScheduleJob F) → List (ScheduleAction F)
  unfolding match_pass create_pass delete_pass
  plan specs jobs =
      let (matched, updates, owned) =
        match_pass specs (unmatched (select (λ j. not (is_update_job j)) jobs)) in
      updates ++ (create_pass 0 specs matched ++ delete_pass owned)

  unfoldable pub schedule_actions :
      Option (ScheduleSection F) → List (ScheduleJob F) → List (ScheduleAction F)
  unfolding plan
  schedule_actions none jobs = []
  schedule_actions (some section) jobs = plan section.jobs jobs
