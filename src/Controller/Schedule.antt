-- ===== src/Controller/Schedule.antt =====
-- internal/controller/schedule.go: declared schedule jobs, matched to a device's by content.
pub mod Plan
pub mod Laws
pub mod Apply
use Prim.Native.String.{◌++◌ as str_append}
use shelly_operator.Base.{
  ℤ, ℕ, Bool, true, false, String, Option, none, some, List, [], ◌∷◌, ◌&&◌, not, ◌==◌, iff_b, any,
  map, if◌then◌else◌,
}
use shelly_operator.Json.{entries, of_entries, Value, Fields, end, field}
use shelly_operator.Drift.Diff.{decode_map, by_key}
use shelly_operator.Api.Profile.{ScheduleCallSpec, ScheduleJobSpec}
use shelly_operator.Shelly.Rpc.{ScheduleCall, ScheduleJob}
use shelly_operator.Controller.Firmware.{shelly_update_method}

abbrev pub section_schedule : String
section_schedule = "schedule"

-- encoding/json's Marshal of a map, strings.EqualFold, fmt's verb %q, and the error
-- of Unmarshal into a map of a value that is none.
pub record Codec (F : Type 0) : Type 0 where
  pub marshal : Fields F → String
  pub equal_fold : String → String → Bool
  pub quote : String → String
  pub type_error : Value F → String

-- What Unmarshal leaves in a nil map: the decoded map, or nil where the value is no map.
abbrev pub or_nil_map : {F : Type 0} → Option (Fields F) → Fields F
or_nil_map none = end
or_nil_map (some fs) = fs

abbrev pub decode_params : {F : Type 0} → Option (Value F) → Fields F
decode_params none = end
decode_params (some raw) = or_nil_map (decode_map raw)

-- The effective enable value of a declared job.
abbrev pub enable_of : {F : Type 0} → ScheduleJobSpec F → Bool
enable_of spec = elim spec.enable [ none ↦ true | some b ↦ b ]

module _ {F : Type 0} ⦃c : Codec F⦄ where
  unfoldable pub spec_is_update_job : ScheduleJobSpec F → Bool
  spec_is_update_job spec =
      any (λ (k : ScheduleCallSpec F). c.equal_fold k.method shelly_update_method) spec.calls

  -- The map is rebuilt along its sorted keys.
  unfoldable pub normalise_params : Fields F → String
  normalise_params end = "{}"
  normalise_params (field k v fs) = c.marshal (of_entries (by_key (entries (field k v fs))))

  unfoldable pub calls_match : ScheduleCall F → ScheduleCallSpec F → Bool
  unfolding normalise_params
  calls_match device spec =
      if not (device.method == spec.method)
      then false
      else normalise_params device.params == normalise_params (decode_params spec.params)

  -- The lists have the same length and match call by call.
  unfoldable pub all_calls_match : List (ScheduleCall F) → List (ScheduleCallSpec F) → Bool
  unfolding calls_match
  all_calls_match [] [] = true
  all_calls_match [] (k ∷ ks) = false
  all_calls_match (d ∷ ds) [] = false
  all_calls_match (d ∷ ds) (k ∷ ks) = calls_match d k && all_calls_match ds ks

  unfoldable pub job_spec_matches_device : ScheduleJob F → ScheduleJobSpec F → Bool
  unfolding all_calls_match
  job_spec_matches_device job spec =
      if not (job.timespec == spec.timespec) then false else all_calls_match job.calls spec.calls
