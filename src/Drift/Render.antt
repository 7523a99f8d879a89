-- ===== src/Drift/Render.antt =====
-- internal/drift/desired.go: a profile's declared configuration as the desired map of each of the
-- device's components. A nil map is `none`.
pub mod Ui
pub mod Write
pub mod Wf
pub mod Laws
pub mod Secrets
use Prim.Native.Char.{Char, code}
use Prim.Native.String.{◌++◌ as str_append}
use shelly_operator.Base.{
  Bool, true, false, String, Option, none, some, List, [], ◌∷◌, ◌&&◌, ◌==◌, not, has_prefix,
  if◌then◌else◌,
}
use shelly_operator.Base.Assoc
use shelly_operator.Base.Assoc.{Assoc}
use shelly_operator.Json.{Floats, Value, Fields, bool, num, str, obj, end, field, put}
use shelly_operator.Api.Profile.{
  ProfileConfig, SystemSection, NameSection, MqttSection, CloudSection, BleSection, WsSection,
  WifiSection, WifiNetwork, WifiAp, WifiRoam, SwitchSection, UiSection,
}
use shelly_operator.Drift.Render.Write.{put_some, put_object, put_map, none_if_empty, and_then}
use shelly_operator.Drift.Render.Ui.{discover_ui_key, render_ui}

abbrev pub switch_prefix : String
switch_prefix = "switch:"

-- `desiredName` where the name is managed and not empty.
abbrev pub managed_name : Option NameSection → String → Option String
managed_name none desired = none
managed_name (some name) desired =
    if name.managed then (if not (desired == "") then some desired else none) else none

-- A string field that "" leaves unmanaged.
abbrev pub non_empty : String → Option String
non_empty s = if not (s == "") then some s else none

module _ {F : Type 0} where
  -- The loop over the device's components.
  unfoldable pub put_switches : Fields F → Assoc (Value F) → Assoc (Fields F) → Assoc (Fields F)
  unfolding put_map
  put_switches m [] out = out
  put_switches m ((comp, raw) ∷ actual) out =
      put_switches m actual (if has_prefix comp switch_prefix then put_map comp m out else out)

  unfoldable pub render_enable : String → Option Bool → Assoc (Fields F) → Assoc (Fields F)
  render_enable section none out = out
  render_enable section (some b) out = Assoc.put section (field "enable" (bool b) end) out

module _ {F : Type 0} ⦃n : Floats F⦄ where
  -- A latitude or longitude that does not parse is skipped.
  unfoldable pub render_sys_location : SystemSection → Fields F
  unfolding put_some
  render_sys_location sys = put_some "lon" num (and_then n.parse_float sys.longitude) (
      put_some "lat" num (and_then n.parse_float sys.latitude) (put_some "tz" str sys.timezone end))

  unfoldable pub render_sys_device : Option SystemSection → Option NameSection → String → Fields F
  unfolding put_some
  render_sys_device sys name desired = put_some "name" str (managed_name name desired) (
      put_some "discoverable" bool (and_then (λ s. s.discoverable) sys)
        (put_some "eco_mode" bool (and_then (λ s. s.eco_mode) sys) end))

  unfoldable pub render_sys_rest : Option SystemSection → Fields F → Fields F
  unfolding put_some put_object render_sys_location
  render_sys_rest none out = out
  render_sys_rest (some sys) out =
      put_some "debug" (λ z. obj (field "level" (num (n.of_int z)) end)) sys.debug_level
        (put_some "sntp" (λ s. obj (field "server" (str s) end)) sys.sntp_server
          (put_object "location" (render_sys_location sys) out))

  unfoldable pub render_sys : Option SystemSection → Option NameSection → String → Fields F
  unfolding render_sys_rest render_sys_device put_object
  render_sys sys name desired =
      render_sys_rest sys (put_object "device" (render_sys_device sys name desired) end)

  unfoldable pub render_mqtt : Option MqttSection → Fields F
  unfolding put_some
  render_mqtt none = end
  render_mqtt (some mqtt) =
      put_some "server" str (non_empty mqtt.server) (put_some "enable" bool mqtt.enable end)

  unfoldable pub render_wifi_network : Option WifiNetwork → Option (Fields F)
  unfolding put_some none_if_empty
  render_wifi_network none = none
  render_wifi_network (some w) =
      none_if_empty (put_some "ssid" str (non_empty w.ssid) (put_some "enable" bool w.enable end))

  unfoldable pub render_wifi_ap : Option WifiAp → Option (Fields F)
  unfolding put_some none_if_empty
  render_wifi_ap none = none
  render_wifi_ap (some ap) = none_if_empty (
      put_some "range_extender" (λ b. obj (field "enable" (bool b) end)) ap.range_extender
        (put_some "enable" bool ap.enable end))

  unfoldable pub render_wifi_roam : Option WifiRoam → Option (Fields F)
  unfolding put_some none_if_empty
  render_wifi_roam none = none
  render_wifi_roam (some roam) = none_if_empty (
      put_some "interval" (λ z. num (n.of_int z)) roam.interval
        (put_some "rssi_thr" (λ z. num (n.of_int z)) roam.rssi_threshold end))

  -- The `cfg.Wifi != nil` block of Render, up to the map `w`.
  unfoldable pub render_wifi : Option WifiSection → Fields F
  unfolding put_some render_wifi_network render_wifi_ap render_wifi_roam
  render_wifi none = end
  render_wifi (some wifi) = put_some "roam" obj (render_wifi_roam wifi.roam) (
      put_some "ap" obj (render_wifi_ap wifi.ap) (
        put_some "sta1" obj (render_wifi_network wifi.sta1)
          (put_some "sta" obj (render_wifi_network wifi.sta) end)))

  -- The map that every switch component gets.
  unfoldable pub render_switch : SwitchSection → Fields F
  unfolding put_some
  render_switch sw = put_some "autorecover_voltage_errors" bool sw.autorecover_voltage_errors (
      put_some "current_limit" (λ z. num (n.of_int z)) sw.current_limit
        (put_some "voltage_limit" (λ z. num (n.of_int z)) sw.voltage_limit
          (put_some "power_limit" (λ z. num (n.of_int z)) sw.power_limit
            (put_some "auto_off_delay" (λ z. num (n.of_int z)) sw.auto_off_delay
              (put_some "auto_off" bool sw.auto_off (
                put_some "auto_on_delay" (λ z. num (n.of_int z)) sw.auto_on_delay
                  (put_some "auto_on" bool sw.auto_on
                    (put_some "initial_state" str sw.initial_state end))))))))

  unfoldable pub render_switch_components :
      Option SwitchSection → Assoc (Value F) → Assoc (Fields F) → Assoc (Fields F)
  unfolding render_switch put_switches
  render_switch_components none actual out = out
  render_switch_components (some sw) actual out = put_switches (render_switch sw) actual out

  -- The `cfg.UI != nil` block of Render.
  unfoldable pub render_ui_component :
      Option UiSection → Assoc (Value F) → Assoc (Fields F) → Assoc (Fields F)
  unfolding put_map
  render_ui_component none actual out = out
  render_ui_component (some ui) actual out =
      let key = discover_ui_key actual in
      if not (key == "") then put_map key (render_ui ui (Assoc.get key actual)) out else out

  unfoldable pub render : ProfileConfig F → String → Assoc (Value F) → Assoc (Fields F)
  unfolding render_ui_component render_switch_components render_enable put_map
  render cfg desired_name actual =
      let sys = put_map "sys" (render_sys cfg.system cfg.name desired_name) [] in
      let mqtt = put_map "mqtt" (render_mqtt cfg.mqtt) sys in
      let cloud = render_enable "cloud" (and_then (λ c. c.enable) cfg.cloud) mqtt in
      let ble = render_enable "ble" (and_then (λ c. c.enable) cfg.ble) cloud in
      let ws = render_enable "ws" (and_then (λ c. c.enable) cfg.ws) ble in
      let wifi = put_map "wifi" (render_wifi cfg.wifi) ws in
      render_ui_component cfg.ui actual (render_switch_components cfg.switch actual wifi)
