-- ===== src/Controller/Reconcile/Apply.antt =====
-- internal/controller/apply.go: writing the drifted sections to a device.
pub mod Logs
pub mod Sections
pub mod Progress
pub mod Switches
pub mod Passwords
use Prim.Native.String.{◌++◌ as str_append}
use shelly_operator.Base.{
  ℕ, Bool, true, false, String, Option, none, some, List, [], ◌∷◌, ◌++◌, ◌==◌, ◌&&◌, ◌||◌, not, ℤ,
  has_prefix, codes, atoi, Result, ok, err, if◌then◌else◌,
}
use shelly_operator.Base.Assoc
use shelly_operator.Base.Assoc.{Assoc}
use shelly_operator.Json as Json
use shelly_operator.Json.{Floats, Value, Fields, obj, str, end}
use shelly_operator.Api.Profile.{ShellyProfile, ScheduleSection}
use shelly_operator.Api.Device.{ShellyDevice}
use shelly_operator.Api.Server.{Act}
use shelly_operator.Drift.Diff.{Finding}
use shelly_operator.Drift.Order.{apply_order}
use shelly_operator.Drift.Report.{sections}
use shelly_operator.Shelly.Errors.{CallError, invalid, wrapped}
use shelly_operator.Shelly.Rpc.{Rpc, fail, pure, wrap, ◌>>=◌, ◌>>◌}
use shelly_operator.Shelly.Methods.{Client, Calls, Texts, set_config, set_switch_config, set_auth}
use shelly_operator.Controller.Firmware.{section_firmware, apply_firmware}
use shelly_operator.Controller.Schedule.{Codec, section_schedule}
use shelly_operator.Controller.Schedule.Apply.{apply_schedule}

abbrev pub section_auth : String
section_auth = "auth"

abbrev pub section_wifi : String
section_wifi = "wifi"

-- The sections written, in apply order, and whether a restart is required.
pub record ApplyResult : Type 0 where
  pub applied : List String
  pub restart_required : Bool

abbrev pub is_some_true : Option Bool → Bool
is_some_true none = false
is_some_true (some b) = b

-- The instance of "switch:<n>".
abbrev pub after_prefix : List ℕ → List ℕ
after_prefix (a ∷ b ∷ c ∷ d ∷ e ∷ f ∷ g ∷ id) = id
after_prefix _ = []

unfoldable pub switch_id : String → Option ℤ
switch_id section = atoi (after_prefix (codes section))

module _ {F : Type 0} where
  -- desired[section]
  abbrev pub desired_of : String → Assoc (Fields F) → Fields F
  desired_of section desired = elim (Assoc.get section desired) [ none ↦ end | some fs ↦ fs ]

  -- out[key] with its password, where it is a map
  unfoldable pub inject_into : String → String → Option (Value F) → Fields F → Fields F
  inject_into key pass (some (obj m)) out = Json.put key (obj (Json.put "pass" (str pass) m)) out
  inject_into key pass _ out = out

  unfoldable pub inject : String → String → Fields F → Fields F
  inject key pass out = if pass == "" then out else inject_into key pass (Json.get key out) out

  -- The copy that wifiPayload makes of the rendered map is the map.
  unfoldable pub wifi_payload : Fields F → String × String → Fields F
  wifi_payload rendered (sta, sta1) = inject "sta1" sta1 (inject "sta" sta rendered)

module _ {F W : Type 0} ⦃n : Floats F⦄ ⦃t : Texts⦄ ⦃codec : Codec F⦄ (calls : Calls F W) where
  unfoldable pub apply_auth : Client → ShellyDevice → Option Bool → String → Rpc W Bool
  apply_auth c dev auth_enable password =
      let on = is_some_true auth_enable in
      if on && password == ""
      then fail (invalid "auth: no password available (set spec.config.auth.passwordSecretRef)")
      else (do
        id ← wrap "auth: probing for device id" (calls.probe dev.status.address)
        wrap "auth" (set_auth calls c id (if not on then "" else password))
        pure false)

  unfoldable pub apply_update_jobs : Client → Option Bool → Rpc W Bool
  apply_update_jobs c none =
      fail (invalid "firmware: section drifted but profile does not manage it")
  apply_update_jobs c (some want) = do
    wrap "firmware" (apply_firmware (calls.schedules c) want)
    pure false

  unfoldable pub apply_jobs : Client → Option (ScheduleSection F) → Rpc W Bool
  apply_jobs c none = fail (invalid "schedule: section drifted but profile does not manage it")
  apply_jobs c (some section) = do
    wrap "schedule" (apply_schedule (calls.schedules c) (some section))
    pure false

  unfoldable pub apply_switch : Client → String → Option ℤ → Fields F → Rpc W Bool
  apply_switch c section none config = fail (
      wrapped (str_append section ": bad component id")
        (invalid (t.atoi_error (after_prefix (codes section)))))
  apply_switch c section (some id) config = wrap section (set_switch_config calls c id config)

  -- The switch of applyFindings' loop: whether the write asks for a restart.
  unfoldable pub apply_section :
      {Sel : Type 0}
      → Client
      → ShellyDevice
      → Assoc (Fields F)
      → (auth_enable fw_enable : Option Bool) → String
      → String × String
      → ShellyProfile F Sel
      → String
      → Rpc W Bool
  apply_section c dev desired auth_enable fw_enable password wifi_pw profile section =
      if section == section_auth
      then apply_auth c dev auth_enable password
      else if section == section_firmware
      then apply_update_jobs c fw_enable
      else if section == section_schedule
      then apply_jobs c profile.spec.config.schedules
      else if section == section_wifi
      then wrap section
          (set_config calls c section (wifi_payload (desired_of section desired) wifi_pw))
      else if has_prefix section "switch:"
      then apply_switch c section (switch_id section) (desired_of section desired)
      else wrap section (set_config calls c section (desired_of section desired))

abbrev pub Applying : Type 0 → Type 0
Applying W = Act W (ApplyResult × Option CallError)

-- The loop over the sections: what was written, and the first error.
module _ {W : Type 0} where
  unfoldable pub after_write :
      (ApplyResult → Applying W) → String → ApplyResult → Result CallError Bool → Applying W
  after_write next section res (err e) w = ((res, some e), w)
  after_write next section res (ok restart) w =
      next
        (record {
          applied = res.applied ++ section ∷ [];
          restart_required = res.restart_required || restart;
        })
        w

  unfoldable pub apply_sections : (String → Rpc W Bool) → List String → ApplyResult → Applying W
  apply_sections write [] res w = ((res, none), w)
  apply_sections write (section ∷ rest) res w =
      let (answer, w') = write section w in
      after_write (apply_sections write rest) section res answer w'

abbrev pub nothing_applied : ApplyResult
nothing_applied = record { applied = []; restart_required = false }

module _ {F Sel W : Type 0} ⦃n : Floats F⦄ ⦃t : Texts⦄ ⦃codec : Codec F⦄ (calls : Calls F W) where
  unfoldable pub apply_findings :
      Client
      → ShellyDevice
      → Assoc (Fields F)
      → List (Finding F)
      → (auth_enable fw_enable : Option Bool) → String
      → String × String
      → ShellyProfile F Sel
      → Applying W
  apply_findings c dev desired findings auth_enable fw_enable password wifi_pw profile =
      apply_sections
        (apply_section calls c dev desired auth_enable fw_enable password wifi_pw profile)
        (apply_order (sections findings)) nothing_applied
