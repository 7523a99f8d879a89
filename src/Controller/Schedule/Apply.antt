-- ===== src/Controller/Schedule/Apply.antt =====
-- applySchedule: carrying out the planned actions on the device.
pub mod UpdateJobs
pub mod Keeps
use Prim.Native.String.{◌++◌ as str_append}
use shelly_operator.Base.{
  ℤ, pos, negsuc, ℕ, String, Option, none, some, List, [], ◌∷◌, get_elem?, itoa_int, Result, ok,
  err,
}
use shelly_operator.Json.{Value, Fields, end}
use shelly_operator.Drift.Diff.{decode_map}
use shelly_operator.Api.Profile.{ScheduleCallSpec, ScheduleJobSpec, ScheduleSection}
use shelly_operator.Shelly.Errors.{CallError, invalid, wrapped}
use shelly_operator.Shelly.Rpc.{
  Rpc, pure, fail, wrap, ◌>>=◌, ◌>>◌, ScheduleCall, ScheduleJob, DeviceRpc,
}
use shelly_operator.Shelly.Schedules.{
  list_schedules, create_schedule, delete_schedule, update_schedule,
}
use shelly_operator.Controller.Schedule.{Codec, enable_of}
use shelly_operator.Controller.Schedule.Plan.{
  Kind, create, delete, update, ScheduleAction, schedule_actions,
}

-- si of the sentinel -1 - si.
abbrev spec_index : ℤ → ℤ
spec_index (pos n) = negsuc n
spec_index (negsuc si) = pos si

module _ {F : Type 0} ⦃codec : Codec F⦄ where
  -- The parameters of a call, or the error where they do not decode to a map.
  abbrev pub call_params : Option (Value F) → Result String (Fields F)
  call_params none = ok end
  call_params (some raw) = elim (decode_map raw) [
    | none ↦ err (codec.type_error raw)
    | some params ↦ ok params
  ]

  -- One round of specCalls, after the rounds that follow it.
  unfoldable pub add_call :
      String
      → Result String (Fields F)
      → Result CallError (List (ScheduleCall F))
      → Result CallError (List (ScheduleCall F))
  add_call method (err e) rest =
      err (wrapped (str_append "schedule: unmarshalling params for " method) (invalid e))
  add_call method (ok params) (err e) = err e
  add_call method (ok params) (ok calls) = ok (record { method = method; params = params } ∷ calls)

  unfoldable pub spec_calls : List (ScheduleCallSpec F) → Result CallError (List (ScheduleCall F))
  unfolding add_call decode_map
  spec_calls [] = ok []
  spec_calls (k ∷ ks) = add_call k.method (call_params k.params) (spec_calls ks)

module _ {F : Type 0} where
  -- The declared job of the sentinel -1 - si.
  unfoldable pub declared_job : ℤ → List (ScheduleJobSpec F) → Option (ScheduleJobSpec F)
  declared_job (pos n) specs = none
  declared_job (negsuc si) specs = get_elem? specs si

module _ {F W : Type 0} ⦃codec : Codec F⦄ (rpc : DeviceRpc F W) where
  unfoldable pub create_with :
      ScheduleJobSpec F → Result CallError (List (ScheduleCall F)) → Rpc W (Unit {0})
  unfolding create_schedule
  create_with spec (err e) = fail e
  create_with spec (ok calls) = do
    wrap (str_append "creating schedule job " (codec.quote spec.timespec)) (
        create_schedule rpc
          (record { id = pos 0; enable = enable_of spec; timespec = spec.timespec; calls = calls }))
    pure tt

  unfoldable pub create_declared : ℤ → Option (ScheduleJobSpec F) → Rpc W (Unit {0})
  unfolding create_with spec_calls
  create_declared id none =
      fail
        (invalid (str_append "schedule: internal: invalid spec index " (itoa_int (spec_index id))))
  create_declared id (some spec) = create_with spec (spec_calls spec.calls)

  -- The switch in applySchedule's loop.
  unfoldable pub perform_kind :
      Kind → List (ScheduleJobSpec F) → ScheduleAction F → Rpc W (Unit {0})
  unfolding create_declared declared_job update_schedule delete_schedule
  perform_kind create specs a = create_declared a.job.id (declared_job a.job.id specs)
  perform_kind update specs a =
      wrap (str_append "updating schedule job " (itoa_int a.id)) (update_schedule rpc a.job)
  perform_kind delete specs a =
      wrap (str_append "deleting schedule job " (itoa_int a.id)) (delete_schedule rpc a.id)

  unfoldable pub apply_actions :
      List (ScheduleJobSpec F) → List (ScheduleAction F) → Rpc W (Unit {0})
  unfolding perform_kind
  apply_actions specs [] = pure tt
  apply_actions specs (a ∷ actions) = do perform_kind a.kind specs a; apply_actions specs actions

  unfoldable pub apply_schedule : Option (ScheduleSection F) → Rpc W (Unit {0})
  unfolding list_schedules apply_actions schedule_actions
  apply_schedule none = pure tt
  apply_schedule (some section) = do
    jobs ← wrap "listing schedule jobs" (list_schedules rpc)
    apply_actions section.jobs (schedule_actions (some section) jobs)
