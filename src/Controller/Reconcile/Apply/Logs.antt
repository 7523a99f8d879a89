-- ===== src/Controller/Reconcile/Apply/Logs.antt =====
-- What applyFirmware, applySchedule and applyFindings add to the log.
use shelly_operator.Base.{
  ℤ, Bool, true, false, String, Option, none, some, List, [], ◌∷◌, ◌&&◌, not, itoa_int, Result, ok,
  err,
}
use Prim.Native.String.{◌++◌ as str_append}
use shelly_operator.Api.Profile.{ScheduleJobSpec, ScheduleSection}
use shelly_operator.Shelly.Errors.{CallError}
use shelly_operator.Shelly.Rpc.{wrap, pure, DeviceRpc, ScheduleCall, ScheduleJob}
use shelly_operator.Shelly.Schedules.{create_schedule, create_calls, update_calls}
use shelly_operator.Controller.Firmware.{
  apply_firmware, delete_jobs, ensure_job, auto_update_job, firmware_offenders,
}
use shelly_operator.Controller.Schedule.{Codec, enable_of}
use shelly_operator.Controller.Schedule.Plan.{Kind, create, delete, update, ScheduleAction}
use shelly_operator.Controller.Schedule.Apply.{
  apply_schedule, apply_actions, perform_kind, create_declared, create_with, declared_job,
}
use shelly_operator.Controller.World.{Effect, World}
use shelly_operator.Controller.World.Logs.{Logs, Logs-still, Logs-rpc}
use shelly_operator.Controller.World.Policy.{JobLogs}

module _ {F S : Type 0} {Q : List Effect → Type 0} {May : Type 0} (rpc : DeviceRpc F (World S))
    (j : JobLogs Q May rpc) (may : May) where
  create_calls-Logs :
      (enable : Bool) (timespec : String) (cs : List (ScheduleCall F))
      → Logs Q (create_calls rpc enable timespec cs)
  unfolding create_calls
  create_calls-Logs enable timespec [] = Logs-still j.law
  create_calls-Logs enable timespec (c ∷ cs) = j.create may enable timespec (c ∷ cs)

  create_schedule-Logs : (job : ScheduleJob F) → Logs Q (create_schedule rpc job)
  unfolding create_schedule
  create_schedule-Logs job = create_calls-Logs job.enable job.timespec job.calls

  update_calls-Logs :
      (job : ScheduleJob F) (cs : List (ScheduleCall F)) → Logs Q (update_calls rpc job cs)
  unfolding update_calls
  update_calls-Logs job [] = Logs-still j.law
  update_calls-Logs job (c ∷ cs) = j.update may job

  delete_jobs-Logs : (ids : List ℤ) → Logs Q (delete_jobs rpc ids)
  unfolding delete_jobs
  delete_jobs-Logs [] = Logs-still j.law
  delete_jobs-Logs (id ∷ ids) =
      Logs-rpc j.law
        (wrap (str_append "deleting schedule job " (itoa_int id)) (rpc.schedule_delete id))
        (λ _. delete_jobs rpc ids) (j.delete may id) (λ _. delete_jobs-Logs ids)

  ensure_job-Logs : (b : Bool) → Logs Q (ensure_job rpc b)
  unfolding ensure_job
  ensure_job-Logs false = Logs-still j.law
  ensure_job-Logs true =
      Logs-rpc j.law (wrap "creating auto-update job" (create_schedule rpc auto_update_job))
        (λ _. pure tt) (create_schedule-Logs auto_update_job) (λ _. Logs-still j.law)

  pub apply_firmware-Logs : (want : Bool) → Logs Q (apply_firmware rpc want)
  unfolding apply_firmware
  apply_firmware-Logs want =
      Logs-rpc j.law (wrap "listing schedule jobs" rpc.schedule_list) _ j.list λ jobs.
        Logs-rpc j.law (delete_jobs rpc (firmware_offenders want jobs).0)
          (λ _. ensure_job rpc (want && not (firmware_offenders want jobs).1)) (delete_jobs-Logs _)
          (λ _. ensure_job-Logs _)

  create_with-Logs :
      ⦃codec : Codec F⦄ (spec : ScheduleJobSpec F) (r : Result CallError (List (ScheduleCall F)))
      → Logs Q (create_with rpc spec r)
  unfolding create_with create_schedule
  create_with-Logs spec (err e) = Logs-still j.law
  create_with-Logs ⦃codec⦄ spec (ok cs) =
      Logs-rpc j.law
        (wrap (str_append "creating schedule job " (codec.quote spec.timespec))
          (create_calls rpc _ _ cs))
        (λ _. pure tt) (create_calls-Logs (enable_of spec) spec.timespec cs) (λ _. Logs-still j.law)

  create_declared-Logs :
      ⦃codec : Codec F⦄ (id : ℤ) (spec : Option (ScheduleJobSpec F))
      → Logs Q (create_declared rpc id spec)
  unfolding create_declared
  create_declared-Logs id none = Logs-still j.law
  create_declared-Logs id (some spec) = create_with-Logs spec _

  perform_kind-Logs :
      ⦃codec : Codec F⦄ (k : Kind) (specs : List (ScheduleJobSpec F)) (a : ScheduleAction F)
      → Logs Q (perform_kind rpc k specs a)
  unfolding perform_kind
  perform_kind-Logs create specs a = create_declared-Logs a.job.id (declared_job a.job.id specs)
  perform_kind-Logs update specs a = update_calls-Logs a.job a.job.calls
  perform_kind-Logs delete specs a = j.delete may a.id

  apply_actions-Logs :
      ⦃codec : Codec F⦄ (specs : List (ScheduleJobSpec F)) (actions : List (ScheduleAction F))
      → Logs Q (apply_actions rpc specs actions)
  unfolding apply_actions
  apply_actions-Logs specs [] = Logs-still j.law
  apply_actions-Logs specs (a ∷ actions) =
      Logs-rpc j.law (perform_kind rpc a.kind specs a) (λ _. apply_actions rpc specs actions)
        (perform_kind-Logs a.kind specs a) (λ _. apply_actions-Logs specs actions)

  pub apply_schedule-Logs :
      ⦃codec : Codec F⦄ (section : Option (ScheduleSection F)) → Logs Q (apply_schedule rpc section)
  unfolding apply_schedule
  apply_schedule-Logs none = Logs-still j.law
  apply_schedule-Logs (some section) =
      Logs-rpc j.law (wrap "listing schedule jobs" rpc.schedule_list) _ j.list
        (λ jobs. apply_actions-Logs section.jobs _)
