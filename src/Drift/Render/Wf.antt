-- ===== src/Drift/Render/Wf.antt =====
-- internal/drift/desired.go: the keys of the maps that Render builds.
use shelly_operator.Base.{String, Option, none, some, List, [], ◌∷◌}
use shelly_operator.Json.{Floats, Value, Fields, bool, num, str, end, of_list, FieldsWf, ItemsWf}
use shelly_operator.Json.Wf.{get-end}
use shelly_operator.Api.Profile.{
  SystemSection, NameSection, MqttSection, WifiSection, WifiNetwork, WifiAp, WifiRoam,
  SwitchSection, UiSection, NightMode,
}
use shelly_operator.Drift.Render.Write.{and_then}
use shelly_operator.Drift.Render.Write.Laws.{
  put-FieldsWf, put_object-FieldsWf, put_bool-FieldsWf, put_str-FieldsWf, put_num-FieldsWf,
  put_single-FieldsWf, MapWf, none_if_empty-MapWf, put_map-FieldsWf,
}
use shelly_operator.Drift.Render.Ui.{
  strings, render_active_between, put_controls, render_ui_controls, put_ui_controls,
  render_night_mode, put_night_mode, render_ui_leds, render_ui, or_switch_0, ui_control_switch_keys,
}
use shelly_operator.Drift.Render.{
  managed_name, non_empty, render_sys_location, render_sys_device, render_sys_rest, render_sys,
  render_mqtt, render_wifi_network, render_wifi_ap, render_wifi_roam, render_wifi, render_switch,
}

strings-ItemsWf : (F : Type 0) (ss : List String) → ItemsWf {F = F} (of_list (strings ss))
strings-ItemsWf F [] = tt
strings-ItemsWf F (s ∷ ss) = (tt, strings-ItemsWf F ss)

module _ {F : Type 0} where
  render_active_between-FieldsWf :
      (ss : List String) (out : Fields F)
      → FieldsWf out
      → FieldsWf {F = F} (render_active_between ss out)
  unfolding render_active_between
  render_active_between-FieldsWf [] out h = h
  render_active_between-FieldsWf (s ∷ ss) out h =
      put-FieldsWf "active_between" _ out (strings-ItemsWf F (s ∷ ss)) h

  put_controls-FieldsWf :
      (in_mode : String) (ks : List String) (out : Fields F)
      → FieldsWf out
      → FieldsWf (put_controls in_mode ks out)
  unfolding put_controls
  put_controls-FieldsWf in_mode [] out h = h
  put_controls-FieldsWf in_mode (k ∷ ks) out h =
      put_controls-FieldsWf in_mode ks _ (put-FieldsWf k _ out (get-end "in_mode", tt, tt) h)

  put_ui_controls-FieldsWf :
      (in_mode : Option String) (raw : Option (Value F)) (out : Fields F)
      → FieldsWf out
      → FieldsWf (put_ui_controls in_mode raw out)
  unfolding put_ui_controls render_ui_controls
  put_ui_controls-FieldsWf none raw out h = h
  put_ui_controls-FieldsWf (some m) raw out h =
      put_object-FieldsWf "controls" (render_ui_controls m raw) out
        (put_controls-FieldsWf m (or_switch_0 (ui_control_switch_keys raw)) end tt) h

module _ (F : Type 0) ⦃n : Floats F⦄ where
  render_night_mode-FieldsWf : (nm : NightMode) → FieldsWf {F = F} (render_night_mode nm)
  unfolding render_night_mode
  render_night_mode-FieldsWf nm = render_active_between-FieldsWf nm.active_between _ (
      put_num-FieldsWf "brightness" n.of_int nm.brightness _
        (put_bool-FieldsWf "enable" nm.enable end tt))

  put_night_mode-FieldsWf :
      (o : Option NightMode) (leds : Fields F) → FieldsWf leds → FieldsWf (put_night_mode o leds)
  unfolding put_night_mode
  put_night_mode-FieldsWf none leds h = h
  put_night_mode-FieldsWf (some nm) leds h =
      put_object-FieldsWf "night_mode" (render_night_mode nm) leds (render_night_mode-FieldsWf nm) h

  pub render_ui-FieldsWf :
      (ui : UiSection) (raw : Option (Value F)) → FieldsWf {F = F} (render_ui ui raw)
  unfolding render_ui render_ui_leds
  render_ui-FieldsWf ui raw = put_ui_controls-FieldsWf ui.button_in_mode raw _ (
      put_object-FieldsWf "leds" (render_ui_leds ui) end
        (put_night_mode-FieldsWf ui.night_mode _ (put_str-FieldsWf "mode" ui.led_mode end tt)) tt)

  render_sys_location-FieldsWf : (sys : SystemSection) → FieldsWf {F = F} (render_sys_location sys)
  unfolding render_sys_location
  render_sys_location-FieldsWf sys =
      put_num-FieldsWf "lon" (λ x. x) (and_then n.parse_float sys.longitude) _
        (put_num-FieldsWf "lat" (λ x. x) (and_then n.parse_float sys.latitude) _
          (put_str-FieldsWf "tz" sys.timezone end tt))

  render_sys_rest-FieldsWf :
      (sys : Option SystemSection) (out : Fields F)
      → FieldsWf out
      → FieldsWf {F = F} (render_sys_rest sys out)
  unfolding render_sys_rest
  render_sys_rest-FieldsWf none out h = h
  render_sys_rest-FieldsWf (some sys) out h =
      put_single-FieldsWf "debug" "level" (λ z. num (n.of_int z)) sys.debug_level _ (λ a. tt)
        (put_single-FieldsWf "sntp" "server" str sys.sntp_server _ (λ a. tt)
          (put_object-FieldsWf "location" (render_sys_location sys) out
            (render_sys_location-FieldsWf sys) h))

  pub render_sys-FieldsWf :
      (sys : Option SystemSection) (name : Option NameSection) (desired : String)
      → FieldsWf {F = F} (render_sys sys name desired)
  unfolding render_sys render_sys_device
  render_sys-FieldsWf sys name desired = render_sys_rest-FieldsWf sys _ (
      put_object-FieldsWf "device" _ end
        (put_str-FieldsWf "name" (managed_name name desired) _ (
          put_bool-FieldsWf "discoverable" (and_then (λ s. s.discoverable) sys) _
            (put_bool-FieldsWf "eco_mode" (and_then (λ s. s.eco_mode) sys) end tt)))
        tt)

  pub render_mqtt-FieldsWf : (mqtt : Option MqttSection) → FieldsWf {F = F} (render_mqtt mqtt)
  unfolding render_mqtt
  render_mqtt-FieldsWf none = tt
  render_mqtt-FieldsWf (some mqtt) =
      put_str-FieldsWf "server" (non_empty mqtt.server) _
        (put_bool-FieldsWf "enable" mqtt.enable end tt)

  render_wifi_network-MapWf : (w : Option WifiNetwork) → MapWf {F = F} (render_wifi_network w)
  unfolding render_wifi_network
  render_wifi_network-MapWf none = tt
  render_wifi_network-MapWf (some w) =
      none_if_empty-MapWf _
        (put_str-FieldsWf "ssid" (non_empty w.ssid) _ (put_bool-FieldsWf "enable" w.enable end tt))

  render_wifi_ap-MapWf : (ap : Option WifiAp) → MapWf {F = F} (render_wifi_ap ap)
  unfolding render_wifi_ap
  render_wifi_ap-MapWf none = tt
  render_wifi_ap-MapWf (some ap) = none_if_empty-MapWf _ (
      put_single-FieldsWf "range_extender" "enable" bool ap.range_extender _ (λ b. tt)
        (put_bool-FieldsWf "enable" ap.enable end tt))

  render_wifi_roam-MapWf : (roam : Option WifiRoam) → MapWf {F = F} (render_wifi_roam roam)
  unfolding render_wifi_roam
  render_wifi_roam-MapWf none = tt
  render_wifi_roam-MapWf (some roam) = none_if_empty-MapWf _ (
      put_num-FieldsWf "interval" n.of_int roam.interval _
        (put_num-FieldsWf "rssi_thr" n.of_int roam.rssi_threshold end tt))

  pub render_wifi-FieldsWf : (wifi : Option WifiSection) → FieldsWf {F = F} (render_wifi wifi)
  unfolding render_wifi
  render_wifi-FieldsWf none = tt
  render_wifi-FieldsWf (some wifi) =
      put_map-FieldsWf "roam" (render_wifi_roam wifi.roam) _ (render_wifi_roam-MapWf wifi.roam) (
        put_map-FieldsWf "ap" (render_wifi_ap wifi.ap) _ (render_wifi_ap-MapWf wifi.ap) (
          put_map-FieldsWf "sta1" (render_wifi_network wifi.sta1) _
            (render_wifi_network-MapWf wifi.sta1)
            (put_map-FieldsWf "sta" (render_wifi_network wifi.sta) end
              (render_wifi_network-MapWf wifi.sta) tt)))

  pub render_switch-FieldsWf : (sw : SwitchSection) → FieldsWf {F = F} (render_switch sw)
  unfolding render_switch
  render_switch-FieldsWf sw =
      put_bool-FieldsWf "autorecover_voltage_errors" sw.autorecover_voltage_errors _ (
        put_num-FieldsWf "current_limit" n.of_int sw.current_limit _ (
          put_num-FieldsWf "voltage_limit" n.of_int sw.voltage_limit _ (
            put_num-FieldsWf "power_limit" n.of_int sw.power_limit _ (
              put_num-FieldsWf "auto_off_delay" n.of_int sw.auto_off_delay _ (
                put_bool-FieldsWf "auto_off" sw.auto_off _ (
                  put_num-FieldsWf "auto_on_delay" n.of_int sw.auto_on_delay _ (
                    put_bool-FieldsWf "auto_on" sw.auto_on _
                      (put_str-FieldsWf "initial_state" sw.initial_state end tt))))))))
