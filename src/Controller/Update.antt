-- ===== src/Controller/Update.antt =====
-- internal/controller/firmwareupdate.go: the wait for a device that installs, and the fleet-wide slot
-- for starting an update. Times count nanoseconds from Go's zero time, durations nanoseconds.
pub mod Slot
pub mod Attempt
use shelly_operator.Base.{
  ℕ, zero, suc, ◌+◌, ◌-◌, ◌*◌, ℤ, pos, negsuc, Bool, true, false, Option, none, some, List, [], ◌∷◌,
  ◌==◌, not, ltb, leb, eqb, ◌&&◌, if◌then◌else◌,
}
use shelly_operator.Api.Device.{ShellyDevice, FirmwareUpdateAttempt}

abbrev pub minute_ns : ℕ
minute_ns = 60000000000

-- updateSettle
abbrev pub update_settle : ℕ
update_settle = 20 * minute_ns

-- The remaining wait is settle + last - now, which may be negative in Go.
unfoldable pub attempt_in_flight : ShellyDevice → ℕ → Option FirmwareUpdateAttempt → Bool × ℕ
attempt_in_flight dev now none = (false, 0)
attempt_in_flight dev now (some last) =
    if last.refused
    then (false, 0)
    else if not (dev.status.firmware == last.from)
    then (false, 0)
    else if leb (last.time + update_settle) now
    then (false, 0)
    else (true, last.time + update_settle - now)

unfoldable pub update_in_flight : ShellyDevice → ℕ → Bool × ℕ
unfolding attempt_in_flight
update_in_flight dev now = attempt_in_flight dev now dev.status.last_firmware_update

-- The configured spacing, or two minutes.
unfoldable pub spacing_of : ℤ → ℕ
spacing_of (pos zero) = 2 * minute_ns
spacing_of (pos (suc d)) = suc d
spacing_of (negsuc d) = 2 * minute_ns

-- The start of a device's last attempt, where there is one.
abbrev pub later : ℕ → Option FirmwareUpdateAttempt → ℕ
later latest none = latest
later latest (some a) = if ltb latest a.time then a.time else latest

-- The loop of claimUpdateSlot over the listed devices.
unfoldable pub latest_start : ℕ → List ShellyDevice → ℕ
latest_start latest [] = latest
latest_start latest (d ∷ devs) = latest_start (later latest d.status.last_firmware_update) devs

-- !latest.IsZero() && now.Sub(latest) < spacing
unfoldable pub is_busy : ℤ → ℕ → ℕ → Bool
unfolding spacing_of
is_busy update_spacing now latest =
    not (eqb latest 0) && ltb now (latest + spacing_of update_spacing)

-- From r.lastUpdateStart: whether the slot was claimed, and the new r.lastUpdateStart. The devices
-- are what the list of the namespace returned, none where it failed.
unfoldable pub claim_update_slot : ℤ → ℕ → Option (List ShellyDevice) → ℕ → Bool × ℕ
unfolding latest_start is_busy
claim_update_slot update_spacing now none last = (false, last)
claim_update_slot update_spacing now (some devs) last =
    let latest = latest_start last devs in
    if is_busy update_spacing now latest then (false, last) else (true, now)

-- The instants at which a process's workers claimed the slot. The lock of claimUpdateSlot puts the
-- calls in one order; each comes with its instant and its listed devices.
unfoldable pub claims : ℤ → ℕ → List (ℕ × Option (List ShellyDevice)) → List ℕ
unfolding claim_update_slot
claims update_spacing last [] = []
claims update_spacing last ((now, devs) ∷ calls) =
    let (claimed, last') = claim_update_slot update_spacing now devs last in
    let rest = claims update_spacing last' calls in if claimed then now ∷ rest else rest
