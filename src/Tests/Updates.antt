-- ===== src/Tests/Updates.antt =====
-- Update windows and the update slot.
use shelly_operator.Base.{
  ℕ, ◌+◌, ◌<◌, ◌/◌, ◌%◌, pos, true, false, Option, none, some, List, [], ◌∷◌, ◌≡◌, ◌↔◌, refl, ok,
  arith, ◌==◌, if◌then◌else◌,
}
use shelly_operator.Api.Profile.{RebootWindow}
use shelly_operator.Api.Device.{ShellyDevice}
use shelly_operator.Controller.Window.{Zones, within_reboot_window}
use shelly_operator.Controller.Window.Laws.{IsClock, Denotes, elapsed, within_reboot_window_lem}
use shelly_operator.Controller.Update.{spacing_of, claim_update_slot, claims}
use shelly_operator.Controller.Update.Slot.{
  FleetQuiet, IsSpaced, claim_update_slot_lem, claims-IsSpaced,
}
use shelly_operator.Tests.Fixtures.{device}

-- An instant is a minute since the epoch, a zone is its offset in minutes.
abbrev zones : Zones ℕ ℕ
zones = record {
  utc = 0;
  load_location = λ name. if name == "Europe/Paris" then some 60 else none;
  hour = λ t z. (t + z) / 60 % 24;
  minute = λ t z. (t + z) % 60;
}

zones-IsClock : IsClock zones
zones-IsClock = record { hour_bound = λ t z. omega arith; minute_bound = λ t z. omega arith }

abbrev night : RebootWindow
night = record { start = "23:00"; end_time = "01:30"; time_zone = "Europe/Paris" }

within_reboot_window_lem_example :
    (within_reboot_window zones 1400 (some night) ≡ ok true)
    ↔ ((s e m : ℕ) × Denotes zones 1400 night s e m × (elapsed s m < elapsed s e))
within_reboot_window_lem_example = within_reboot_window_lem zones zones-IsClock 1400 night

open_at_night : within_reboot_window zones 1400 (some night) ≡ ok true
unfolding within_reboot_window
open_at_night = refl

abbrev updated : ℕ → ShellyDevice
updated t =
    let dev = device "hall" "" in
    record dev {
      status = record dev.status {
        last_firmware_update =
            some (record { time = t; from = "1.0"; target = "1.1"; error = ""; refused = false });
      };
    }

claim_update_slot_lem_example :
    ((claim_update_slot (pos 0) 500 (some (updated 100 ∷ [])) 0).0 ≡ true) ↔ (
      (devs : List ShellyDevice) × (some (updated 100 ∷ []) ≡ some devs)
      × FleetQuiet (pos 0) 500 devs 0)
claim_update_slot_lem_example = claim_update_slot_lem (pos 0) 500 (some (updated 100 ∷ [])) 0

abbrev calls : List (ℕ × Option (List ShellyDevice))
calls = (100, some []) ∷ (150, some (updated 100 ∷ [])) ∷ (170, none) ∷ (200, some []) ∷ []

claims-IsSpaced_example : IsSpaced (spacing_of (pos 60)) (claims (pos 60) 0 calls)
claims-IsSpaced_example =
    claims-IsSpaced (pos 60) 0 calls (omega arith, (omega arith, (omega arith, (omega arith, tt))))
