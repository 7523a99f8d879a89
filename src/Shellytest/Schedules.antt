-- ===== src/Shellytest/Schedules.antt =====
-- The schedule jobs of the fake device of shellytest/server.go. A stored job holds what
-- Schedule.Create was sent and its id, which is what the client decodes.
pub mod Laws
use Prim.Native.String.{◌++◌ as str_append}
use shelly_operator.Base.{
  ℤ, pos, negsuc, eqz, itoa_int, ℕ, suc, Bool, true, false, String, Option, none, some, List, [],
  ◌∷◌, ◌++◌, any, if◌then◌else◌, ok, err,
}
use shelly_operator.Shelly.Errors.{CallError, rpc_error}
use shelly_operator.Shelly.Rpc.{Rpc, ScheduleCall, ScheduleJob, DeviceRpc}

pub record ScheduleDevice (F : Type 0) : Type 0 where
  pub schedules : List (ScheduleJob F)
  pub schedule_rev : ℕ
  pub next_sched_id : ℕ

abbrev pub not_found : ℤ → CallError
not_found id =
    rpc_error (negsuc 102) (str_append "schedule job " (str_append (itoa_int id) " not found"))

module _ {F : Type 0} where
  abbrev pub has_id : ℤ → ScheduleJob F → Bool
  has_id id j = eqz j.id id

  -- The first job with the id is replaced, or removed.
  unfoldable pub replace_first : ScheduleJob F → List (ScheduleJob F) → List (ScheduleJob F)
  replace_first job [] = []
  replace_first job (j ∷ js) = if has_id job.id j then job ∷ js else j ∷ replace_first job js

  unfoldable pub remove_first : ℤ → List (ScheduleJob F) → List (ScheduleJob F)
  remove_first id [] = []
  remove_first id (j ∷ js) = if has_id id j then js else j ∷ remove_first id js

  unfoldable pub handle_schedule_list : Rpc (ScheduleDevice F) (List (ScheduleJob F))
  handle_schedule_list d = (ok d.schedules, d)

  unfoldable pub handle_schedule_create :
      Bool → String → List (ScheduleCall F) → Rpc (ScheduleDevice F) ℤ
  handle_schedule_create enable timespec calls d =
      let job : ScheduleJob F = record {
        id = pos d.next_sched_id;
        enable = enable;
        timespec = timespec;
        calls = calls;
      } in
      (
        ok job.id,
        record {
          schedules = d.schedules ++ job ∷ [];
          schedule_rev = suc d.schedule_rev;
          next_sched_id = suc d.next_sched_id;
        },
      )

  unfoldable pub handle_schedule_update : ScheduleJob F → Rpc (ScheduleDevice F) (Unit {0})
  unfolding replace_first
  handle_schedule_update job d =
      if any (has_id job.id) d.schedules
      then (
        ok tt,
        record d { schedules = replace_first job d.schedules; schedule_rev = suc d.schedule_rev },
      )
      else (err (not_found job.id), d)

  unfoldable pub handle_schedule_delete : ℤ → Rpc (ScheduleDevice F) (Unit {0})
  unfolding remove_first
  handle_schedule_delete id d =
      if any (has_id id) d.schedules
      then (
        ok tt,
        record d { schedules = remove_first id d.schedules; schedule_rev = suc d.schedule_rev },
      )
      else (err (not_found id), d)

  -- The dispatch of handleRPC on the schedule methods.
  unfoldable pub fake_rpc : DeviceRpc F (ScheduleDevice F)
  unfolding handle_schedule_list handle_schedule_create handle_schedule_update
      handle_schedule_delete
  fake_rpc = record {
    schedule_list = handle_schedule_list;
    schedule_create = handle_schedule_create;
    schedule_update = handle_schedule_update;
    schedule_delete = handle_schedule_delete;
  }
