-- ===== src/Shelly/Schedules.antt =====
-- The schedule calls of shelly/schedule.go.
use shelly_operator.Base.{ℤ, String, List, [], ◌∷◌, Bool}
use shelly_operator.Shelly.Errors.{invalid}
use shelly_operator.Shelly.Rpc.{Rpc, fail, ScheduleCall, ScheduleJob, DeviceRpc}

module _ {F W : Type 0} (r : DeviceRpc F W) where
  unfoldable pub list_schedules : Rpc W (List (ScheduleJob F))
  list_schedules = r.schedule_list

  unfoldable pub create_calls : Bool → String → List (ScheduleCall F) → Rpc W ℤ
  create_calls enable timespec [] =
      fail (invalid "shelly: CreateSchedule requires at least one call")
  create_calls enable timespec (c ∷ cs) = r.schedule_create enable timespec (c ∷ cs)

  -- The job's id is ignored; the device assigns one.
  unfoldable pub create_schedule : ScheduleJob F → Rpc W ℤ
  unfolding create_calls
  create_schedule job = create_calls job.enable job.timespec job.calls

  unfoldable pub delete_schedule : ℤ → Rpc W (Unit {0})
  delete_schedule id = r.schedule_delete id

  unfoldable pub update_calls : ScheduleJob F → List (ScheduleCall F) → Rpc W (Unit {0})
  update_calls job [] = fail (invalid "shelly: UpdateSchedule requires at least one call")
  update_calls job (c ∷ cs) = r.schedule_update job

  unfoldable pub update_schedule : ScheduleJob F → Rpc W (Unit {0})
  unfolding update_calls
  update_schedule job = update_calls job job.calls
