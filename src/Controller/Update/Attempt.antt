-- ===== src/Controller/Update/Attempt.antt =====
-- internal/controller/firmwareupdate.go: asking a device to install the available firmware.
pub mod Logs
use shelly_operator.Base.{
  ℕ, ◌+◌, ℤ, Bool, true, false, String, Option, none, some, List, [], ◌∷◌, ◌==◌, ◌&&◌, not, ltb,
  Result, ok, err, if◌then◌else◌,
}
use shelly_operator.Json.{Fields}
use shelly_operator.Api.Profile.{ShellyProfile, RebootWindow, is_enforce}
use shelly_operator.Api.Device.{ShellyDevice, FirmwareUpdateAttempt}
use shelly_operator.Api.Server.{ApiError, Act, done, ◌>>=◌, ◌>>◌}
use shelly_operator.Shelly.Errors.{CallError, error_text, is_refusal}
use shelly_operator.Shelly.Methods as Methods
use shelly_operator.Shelly.Methods.{Client}
use shelly_operator.Controller.World.{Env, World, ask, logged, patch_status, record_event}
use shelly_operator.Controller.Window.{Zones, WindowError, within_reboot_window}
use shelly_operator.Controller.Update.{update_settle, claim_update_slot}

-- The result of one Sys.GetStatus, of which nothing is to be used unless it is fresh.
pub record SysRead : Type 0 where
  pub restart_required : Bool
  pub available_firmware : String
  pub fresh : Bool

abbrev pub with_attempt : Option FirmwareUpdateAttempt → ShellyDevice → ShellyDevice
with_attempt attempt dev = record dev {
  status = record dev.status { last_firmware_update = attempt };
}

module _ {F Sel S : Type 0} (env : Env F Sel S) where
  -- Where nothing could be persisted, the device keeps its earlier attempt.
  unfoldable pub not_recorded : ShellyDevice → Act (World S) (Bool × ShellyDevice)
  not_recorded dev = do record_event env true "FirmwareUpdateNotRecorded"; done (false, dev)

  unfoldable pub recorded_fresh :
      ShellyDevice
      → FirmwareUpdateAttempt
      → Result ApiError ShellyDevice
      → Act (World S) (Bool × ShellyDevice)
  recorded_fresh dev attempt (ok server) = done (true, with_attempt (some attempt) dev)
  recorded_fresh dev attempt (err e) = not_recorded dev

  unfoldable pub record_on_fresh :
      ShellyDevice
      → FirmwareUpdateAttempt
      → Result ApiError ShellyDevice
      → Act (World S) (Bool × ShellyDevice)
  record_on_fresh dev attempt (err e) = not_recorded dev
  record_on_fresh dev attempt (ok fresh) = do
    answer ← patch_status env fresh (with_attempt (some attempt) fresh)
    recorded_fresh dev attempt answer

  unfoldable pub recorded_first :
      ShellyDevice
      → FirmwareUpdateAttempt
      → Result ApiError ShellyDevice
      → Act (World S) (Bool × ShellyDevice)
  recorded_first dev attempt (ok server) = done (true, server)
  recorded_first dev attempt (err e) = do
    fresh ← ask (env.get_device dev.name)
    record_on_fresh dev attempt fresh

  unfoldable pub record_update_attempt :
      ShellyDevice → FirmwareUpdateAttempt → Act (World S) (Bool × ShellyDevice)
  record_update_attempt dev attempt = do
    answer ← patch_status env dev (with_attempt (some attempt) dev)
    recorded_first dev attempt answer

  -- The claim, on r.lastUpdateStart.
  unfoldable pub take_slot : ℤ → List ShellyDevice → ℕ → Act (World S) Bool
  take_slot spacing devs now w =
      let (claimed, start) = claim_update_slot spacing now (some devs) w.last_update_start in
      (claimed, record w { last_update_start = start })

  unfoldable pub claim_among : ℤ → Result ApiError (List ShellyDevice) → Act (World S) Bool
  claim_among spacing (err e) = done false
  claim_among spacing (ok devs) = do now ← ask env.now; take_slot spacing devs now

  unfoldable pub claim_slot : ℤ → Act (World S) Bool
  claim_slot spacing = do devs ← ask env.list_devices; claim_among spacing devs

  -- The last attempt, not refused, was for the same version, and less than the settle time ago.
  unfoldable pub attempted_lately : Option FirmwareUpdateAttempt → String → Act (World S) Bool
  attempted_lately none target = done false
  attempted_lately (some last) target =
      if not (not last.refused && last.target == target)
      then done false
      else (do now ← ask env.now; done (ltb now (last.time + update_settle)))

  -- The device's answer; after an error the attempt is recorded again, with the error.
  unfoldable pub update_answered :
      ShellyDevice
      → FirmwareUpdateAttempt
      → Result CallError (Unit {0})
      → Act (World S) (Bool × ShellyDevice)
  update_answered dev attempt (ok u) = do
    record_event env false "FirmwareUpdateStarted"
    done (true, dev)
  update_answered dev attempt (err e) = do
    record_event env true "FirmwareUpdateFailed"
    (recorded, dev') ←
        record_update_attempt dev (record attempt { error = error_text e; refused = is_refusal e })
    done (not (is_refusal e), dev')

  unfoldable pub send_update :
      Client → FirmwareUpdateAttempt → Bool × ShellyDevice → Act (World S) (Bool × ShellyDevice)
  send_update c attempt (false, dev) = done (false, dev)
  send_update c attempt (true, dev) = do
    answer ← Methods.update (logged env.calls) c "stable"
    update_answered dev attempt answer

  abbrev pub new_attempt : ShellyDevice → String → ℕ → FirmwareUpdateAttempt
  new_attempt dev target now = record {
    time = now;
    from = dev.status.firmware;
    target = target;
    error = "";
    refused = false;
  }

  unfoldable pub start_update :
      Client → ShellyDevice → String → Bool → Act (World S) (Bool × ShellyDevice)
  start_update c dev target false = done (false, dev)
  start_update c dev target true = do
    now ← ask env.now
    recorded ← record_update_attempt dev (new_attempt dev target now)
    send_update c (new_attempt dev target now) recorded

  unfoldable pub update_unless :
      ℤ → Client → ShellyDevice → String → Bool → Act (World S) (Bool × ShellyDevice)
  update_unless spacing c dev target true = done (false, dev)
  update_unless spacing c dev target false = do
    claimed ← claim_slot spacing
    start_update c dev target claimed

  unfoldable pub update_when_open :
      ℤ
      → Client
      → ShellyDevice
      → String
      → Result WindowError Bool
      → Act (World S) (Bool × ShellyDevice)
  update_when_open spacing c dev target (err e) = do
    record_event env true "UpdateWindowInvalid"
    done (false, dev)
  update_when_open spacing c dev target (ok false) = done (false, dev)
  update_when_open spacing c dev target (ok true) = do
    lately ← attempted_lately dev.status.last_firmware_update target
    update_unless spacing c dev target lately

  module _ {Z : Type 0} (zones : Zones ℕ Z) (spacing : ℤ) where
    -- No window never means any time.
    unfoldable pub update_in_window :
        Client → ShellyDevice → String → Option RebootWindow → Act (World S) (Bool × ShellyDevice)
    update_in_window c dev target none = done (false, dev)
    update_in_window c dev target (some window) = do
      now ← ask env.now
      update_when_open spacing c dev target (within_reboot_window zones now (some window))

    -- Whether an update was sent that the device may be installing, and the device in memory.
    unfoldable pub update_if_available :
        Client → ShellyDevice → ShellyProfile F Sel → SysRead → Act (World S) (Bool × ShellyDevice)
    update_if_available c dev profile sys =
        if not (profile.spec.update_when_available && is_enforce profile)
        then done (false, dev)
        else if not (sys.fresh && not (sys.available_firmware == ""))
        then done (false, dev)
        else update_in_window c dev sys.available_firmware profile.spec.update_window
