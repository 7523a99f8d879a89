-- ===== src/Controller/Update/Slot.antt =====
-- When the slot is claimed, and the distance between two claims.
use mathlib.Core.Path.{subst}
use shelly_operator.Base.{
  ℕ, ◌+◌, ◌≤◌, ◌<◌, ℤ, true, false, Option, none, some, List, [], ◌∷◌, ◌≡◌, ◌↔◌, ◌⊎◌, inl, inr,
  refl, arith, All, Bool-cases, some_inj, sym,
}
use shelly_operator.Api.Device.{ShellyDevice, FirmwareUpdateAttempt}
use shelly_operator.Controller.Update.{
  spacing_of, is_busy, later, latest_start, claim_update_slot, claims,
}

-- No update started at an instant, or it started long enough before now.
abbrev pub Quiet : ℤ → ℕ → ℕ → Type 0
Quiet update_spacing now start = (start ≡ 0) ⊎ (start + spacing_of update_spacing ≤ now)

abbrev pub AttemptQuiet : ℤ → ℕ → Option FirmwareUpdateAttempt → Type 0
AttemptQuiet update_spacing now none = Unit
AttemptQuiet update_spacing now (some a) = Quiet update_spacing now a.time

-- Every start that is known, of the process or of the listed devices, is quiet.
abbrev pub FleetQuiet : ℤ → ℕ → List ShellyDevice → ℕ → Type 0
FleetQuiet update_spacing now devs last =
    Quiet update_spacing now last
    × All (λ d. AttemptQuiet update_spacing now d.status.last_firmware_update) devs

later-Quiet :
    (gap : ℤ) (now latest : ℕ) (a : Option FirmwareUpdateAttempt)
    → Quiet gap now (later latest a) ↔ (Quiet gap now latest × AttemptQuiet gap now a)
later-Quiet gap now latest none = (λ h. (h, tt), λ h. h.0)
later-Quiet gap now latest (some a) = ground arith

latest_start-Quiet :
    (gap : ℤ) (now latest : ℕ) (devs : List ShellyDevice)
    → Quiet gap now (latest_start latest devs) ↔ FleetQuiet gap now devs latest
unfolding latest_start
latest_start-Quiet gap now latest [] = (λ h. (h, tt), λ h. h.0)
latest_start-Quiet gap now latest (d ∷ devs) =
    let a = d.status.last_firmware_update in
    let ih = latest_start-Quiet gap now (later latest a) devs in
    let here = later-Quiet gap now latest a in
    (
      λ h. let (q, r) = ih.0 h in ((here.0 q).0, ((here.0 q).1, r)),
      λ (q, (a, r)). ih.1 (here.1 (q, a), r),
    )

free_iff : (gap : ℤ) (now latest : ℕ) → (is_busy gap now latest ≡ false) ↔ Quiet gap now latest
unfolding is_busy
free_iff gap now latest = ground arith

-- claimUpdateSlot grants the slot just when the devices could be listed and each known start of an
-- update, the process's own or one recorded in a listed device's status, is the zero time or lies at
-- least the spacing before now.
pub claim_update_slot_lem :
    (update_spacing : ℤ) (now : ℕ) (listed : Option (List ShellyDevice)) (last : ℕ)
    → ((claim_update_slot update_spacing now listed last).0 ≡ true) ↔ (
        (devs : List ShellyDevice) × (listed ≡ some devs) × FleetQuiet update_spacing now devs last)
unfolding claim_update_slot
claim_update_slot_lem gap now none last = (λ h. cc, λ (devs, e, q). cc)
claim_update_slot_lem gap now (some devs) last =
    let known = latest_start-Quiet gap now last devs in
    let free = free_iff gap now (latest_start last devs) in
    (
      λ h. (devs, refl, known.0 (free.0 (ground (arith, h)))),
      λ (ds, e, q).
          rw (free.1 (known.1 (subst (λ l. FleetQuiet gap now l last) (sym (some_inj e)) q))) refl,
    )

-- Each instant lies at least the gap after every earlier one.
abbrev pub IsSpaced : ℕ → List ℕ → Type 0
IsSpaced gap [] = Unit
IsSpaced gap (t ∷ ts) = All (λ u. t + gap ≤ u) ts × IsSpaced gap ts

-- What a claim at an instant leaves for the later ones.
abbrev pub Follows : ℤ → ℕ → ℕ → Type 0
Follows update_spacing last now = Quiet update_spacing now last

Follows-after :
    (gap : ℤ) (last now : ℕ) (ts : List ℕ)
    → Quiet gap now last
    → All (λ u. now + spacing_of gap ≤ u) ts
    → All (Follows gap last) ts
Follows-after gap last now [] q h = tt
Follows-after gap last now (u ∷ ts) q h = (ground arith, Follows-after gap last now ts q h.1)

from_nonzero :
    (gap : ℤ) (now : ℕ) (ts : List ℕ)
    → 0 < now
    → All (Follows gap now) ts
    → All (λ u. now + spacing_of gap ≤ u) ts
from_nonzero gap now [] p h = tt
from_nonzero gap now (u ∷ ts) p h = (ground arith, from_nonzero gap now ts p h.1)

abbrev Call : Type 0
Call = ℕ × Option (List ShellyDevice)

denied :
    (gap : ℤ) (now : ℕ) (devs : Option (List ShellyDevice)) (last : ℕ)
    → (claim_update_slot gap now devs last).0 ≡ false
    → (claim_update_slot gap now devs last).1 ≡ last
unfolding claim_update_slot
denied gap now none last h = refl
denied gap now (some devs) last h = ground arith

granted :
    (gap : ℤ) (now : ℕ) (devs : Option (List ShellyDevice)) (last : ℕ)
    → (claim_update_slot gap now devs last).0 ≡ true
    → (claim_update_slot gap now devs last).1 ≡ now
unfolding claim_update_slot
granted gap now none last h = cc
granted gap now (some devs) last h = ground arith

claims_from :
    (gap : ℤ) (last : ℕ) (calls : List Call)
    → All (λ c. 0 < c.0) calls
    → All (Follows gap last) (claims gap last calls)
      × IsSpaced (spacing_of gap) (claims gap last calls)
unfolding claims
claims_from gap last [] h = (tt, tt)
claims_from gap last ((now, devs) ∷ calls) h =
    elim (Bool-cases (claim_update_slot gap now devs last).0) [
      | inl e ↦
          let (ds, k, q) = (claim_update_slot_lem gap now devs last).0 e in
          let (fol, spaced) = claims_from gap now calls h.1 in
          let apart = from_nonzero gap now (claims gap now calls) h.0 fol in
          rw (e, granted gap now devs last e)
            ((q.0, Follows-after gap last now (claims gap now calls) q.0 apart), (apart, spaced))
      | inr e ↦ rw (e, denied gap now devs last e) (claims_from gap last calls h.1)
    ]

-- In any sequence of calls of claimUpdateSlot in one process, whatever devices each call lists, and
-- if none is made at the zero time, each claim lies at least the spacing after every earlier one.
pub claims-IsSpaced :
    (update_spacing : ℤ) (last : ℕ) (calls : List (ℕ × Option (List ShellyDevice)))
    → All (λ c. 0 < c.0) calls
    → IsSpaced (spacing_of update_spacing) (claims update_spacing last calls)
claims-IsSpaced gap last calls h = (claims_from gap last calls h).1
