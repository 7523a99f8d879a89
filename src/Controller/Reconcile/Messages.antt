-- ===== src/Controller/Reconcile/Messages.antt =====
-- internal/controller/shellydevice_controller.go: the warnings and the messages of Reconcile.
use Prim.Native.String.{◌++◌ as str_append}
use shelly_operator.Base.{
  Bool, true, false, String, Option, none, some, List, [], ◌∷◌, ◌++◌, ◌==◌, ◌&&◌, not,
  if◌then◌else◌,
}
use shelly_operator.Api.Profile.{ProfileConfig, NameSection, WifiSection, WifiNetwork}
use shelly_operator.Api.Device.{
  ShellyDevice, Condition, unknown_status, no_profile, profile_not_found, config_fetch_failed,
  auth_required,
}
use shelly_operator.Drift.Match.{Warning, ref_not_found, invalid_selector}
use shelly_operator.Drift.Report.{join_strings}
use shelly_operator.Shelly.Errors.{CallError, error_text, is_auth_error}
use shelly_operator.Controller.Reconcile.Findings.{Format}
use shelly_operator.Controller.Reconcile.Enforce.{condition}

-- n != nil && n.Managed
abbrev pub is_managed : Option NameSection → Bool
is_managed none = false
is_managed (some name) = name.managed

abbrev pub no_fallback : WifiSection → Option WifiNetwork → Bool
no_fallback wifi none = false
no_fallback wifi (some sta) =
    not (sta.ssid == "") && elim wifi.sta1 [ none ↦ true | some s ↦ false ]

abbrev pub is_disabled : Option WifiNetwork → Bool
is_disabled none = false
is_disabled (some sta) = elim sta.enable [ none ↦ false | some b ↦ not b ]

abbrev warn_if : Bool → String → List String
warn_if b text = if b then text ∷ [] else []

unfoldable pub wifi_warnings : Option WifiSection → List String
wifi_warnings none = []
wifi_warnings (some wifi) =
    warn_if (no_fallback wifi wifi.sta)
      "wifi.sta is managed without a wifi.sta1 fallback; a wrong network can strand devices"
    ++ warn_if (is_disabled wifi.sta)
        "wifi.sta is declared disabled; a device without another enabled network will be stranded"

unfoldable pub append_profile_warnings :
    {F : Type 0} → ProfileConfig F → String → List String → List String
unfolding wifi_warnings
append_profile_warnings cfg desired_name warns =
    warns
    ++ (warn_if (is_managed cfg.name && desired_name == "")
          "name managed but unresolvable (no displayName or name-map entry)"
        ++ wifi_warnings cfg.wifi)

abbrev in_parentheses : List String → String
in_parentheses [] = ""
in_parentheses (w ∷ ws) = str_append " (" (str_append (join_strings "; " (w ∷ ws)) ")")

module _ {F : Type 0} (fmt : Format F) where
  unfoldable pub warning_text : Warning → String
  warning_text (ref_not_found ref) =
      str_append "profileRef " (str_append (fmt.quote ref) " not found")
  warning_text (invalid_selector profile reason) =
      str_append "profile " (str_append profile (str_append ": invalid selector: " reason))

  unfoldable pub warning_texts : List Warning → List String
  unfolding warning_text
  warning_texts [] = []
  warning_texts (w ∷ ws) = warning_text w ∷ warning_texts ws

  -- The condition of a device that no profile governs.
  unfoldable pub unmatched_condition : ShellyDevice → List Warning → Condition
  unfolding warning_texts join_strings
  unmatched_condition dev warns =
      let pinned = not (dev.spec.profile_ref == "") in
      let reason = if pinned then profile_not_found else no_profile in
      let msg =
        if pinned
        then str_append "spec.profileRef "
            (str_append (fmt.quote dev.spec.profile_ref) " not found")
        else "no ShellyProfile matches this device" in
      condition unknown_status reason (str_append msg (in_parentheses (warning_texts warns)))

-- The condition where the device's configuration could not be read.
unfoldable pub unread_condition : String → CallError → Condition
unfolding error_text is_auth_error
unread_condition password e =
    if is_auth_error e
    then condition unknown_status auth_required (
        if password == ""
        then "device requires auth and no password is configured (set spec.config.auth.passwordSecretRef)"
        else "configured password rejected by device; restore the previous password in the Secret or factory-reset the device")
    else condition unknown_status config_fetch_failed
        (str_append "fetching device config: " (error_text e))
