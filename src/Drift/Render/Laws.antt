-- ===== src/Drift/Render/Laws.antt =====
-- internal/drift/desired.go: the components in Render's output, and their maps.
pub mod Converges
use shelly_operator.Base.{
  Bool, true, false, String, Option, none, some, List, [], ◌∷◌, ◌≡◌, ◌≢◌, refl, ◌==◌, not, arith,
  All, Memᴰ, if◌then◌else◌, Bool-cases, inl, inr, has_prefix, eq_iff,
}
use shelly_operator.Base.Assoc
use shelly_operator.Base.Assoc.{Assoc, NodupKeys, put-NodupKeys, put-All}
use shelly_operator.Json.{Floats, Value, Fields, bool, end, field, FieldsWf}
use shelly_operator.Json.Wf.{get-end}
use shelly_operator.Api.Profile.{ProfileConfig, SwitchSection, UiSection, WifiSection, WifiNetwork}
use shelly_operator.Drift.Render.Write.{put_map, and_then}
use shelly_operator.Drift.Render.Ui.{discover_ui_key, is_ui_key, render_ui}
use shelly_operator.Drift.Render.Wf.{
  render_ui-FieldsWf, render_sys-FieldsWf, render_mqtt-FieldsWf, render_wifi-FieldsWf,
  render_switch-FieldsWf,
}
use shelly_operator.Drift.Render.{
  switch_prefix, render_sys, render_mqtt, render_wifi, render_wifi_network, render_switch,
  put_switches, render_switch_components, render_enable, render_ui_component, render,
}

module _ {F : Type 0} where
  -- A component that Render may write: a fixed one, or a switch or UI component of the device.
  pub data IsComponent (actual : Assoc (Value F)) : String → Type 0 where
    sys : IsComponent actual "sys"
    mqtt : IsComponent actual "mqtt"
    cloud : IsComponent actual "cloud"
    ble : IsComponent actual "ble"
    ws : IsComponent actual "ws"
    wifi : IsComponent actual "wifi"
    switch_of :
        (k : String) (v : Value F)
        → Memᴰ (k, v) actual
        → has_prefix k switch_prefix ≡ true
        → IsComponent actual k
    ui_of :
        (k : String) (v : Value F) → Memᴰ (k, v) actual → is_ui_key k ≡ true → IsComponent actual k

  -- What holds of every entry of the output.
  abbrev pub EntryOk : Assoc (Value F) → String × Fields F → Type 0
  EntryOk actual e = IsComponent actual e.0 × FieldsWf e.1 × (e.1 ≢ end)

  abbrev pub OutputOk : Assoc (Value F) → Assoc (Fields F) → Type 0
  OutputOk actual out = NodupKeys out × All (EntryOk actual) out

  put_map-OutputOk :
      (actual : Assoc (Value F)) (k : String) (fs : Fields F) (out : Assoc (Fields F))
      → IsComponent actual k
      → FieldsWf fs
      → OutputOk actual out
      → OutputOk actual (put_map k fs out)
  unfolding put_map
  put_map-OutputOk actual k end out c w h = h
  put_map-OutputOk actual k (field j v fs) out c w h = (
    put-NodupKeys k (field j v fs) out h.0,
    put-All (EntryOk actual) k (field j v fs) out (c, w, λ e. cc) h.1,
  )

  put_switches-OutputOk :
      (all actual : Assoc (Value F)) (m : Fields F) (out : Assoc (Fields F))
      → ((e : String × Value F) → Memᴰ e actual → Memᴰ e all)
      → FieldsWf m
      → OutputOk all out
      → OutputOk all (put_switches m actual out)
  unfolding put_switches
  put_switches-OutputOk all [] m out sub w h = h
  put_switches-OutputOk all ((comp, raw) ∷ actual) m out sub w h =
      elim (Bool-cases (has_prefix comp switch_prefix)) [
        | inl e ↦ rw e (
            put_switches-OutputOk all actual m (put_map comp m out) (λ x k. sub x (Memᴰ.tail k)) w
              (put_map-OutputOk all comp m out
                (switch_of comp raw (sub (comp, raw) (Memᴰ.head refl)) e) w h))
        | inr e ↦ rw e (put_switches-OutputOk all actual m out (λ x k. sub x (Memᴰ.tail k)) w h)
      ]

  -- The key that was found is one of the device's.
  discover_ui_key_lem :
      (actual : Assoc (Value F))
      → (discover_ui_key actual == "") ≡ false
      → (v : Value F) × Memᴰ (discover_ui_key actual, v) actual
        × (is_ui_key (discover_ui_key actual) ≡ true)
  unfolding discover_ui_key
  discover_ui_key_lem [] h = cc
  discover_ui_key_lem ((k, v) ∷ actual) h = elim (Bool-cases (is_ui_key k)) [
    | inl e ↦ rw e (v, Memᴰ.head refl, e)
    | inr e ↦ let (w, m, u) = discover_ui_key_lem actual (rw e at h) in rw e (w, Memᴰ.tail m, u)
  ]

module _ {F : Type 0} ⦃n : Floats F⦄ where
  render_switch_components-OutputOk :
      (sw : Option SwitchSection) (actual : Assoc (Value F)) (out : Assoc (Fields F))
      → OutputOk actual out
      → OutputOk actual (render_switch_components sw actual out)
  unfolding render_switch_components
  render_switch_components-OutputOk none actual out h = h
  render_switch_components-OutputOk (some sw) actual out h =
      put_switches-OutputOk actual actual (render_switch sw) out (λ e m. m)
        (render_switch-FieldsWf F sw) h

  render_enable-OutputOk :
      (actual : Assoc (Value F)) (k : String) (o : Option Bool) (out : Assoc (Fields F))
      → IsComponent actual k
      → OutputOk actual out
      → OutputOk actual (render_enable k o out)
  unfolding render_enable
  render_enable-OutputOk actual k none out c h = h
  render_enable-OutputOk actual k (some b) out c h = (
    put-NodupKeys k (field "enable" (bool b) end) out h.0,
    put-All (EntryOk actual) k (field "enable" (bool b) end) out
        (c, (get-end "enable", tt, tt), λ e. cc) h.1,
  )

  render_ui_component-OutputOk :
      (ui : Option UiSection) (actual : Assoc (Value F)) (out : Assoc (Fields F))
      → OutputOk actual out
      → OutputOk actual (render_ui_component ui actual out)
  unfolding render_ui_component
  render_ui_component-OutputOk none actual out h = h
  render_ui_component-OutputOk (some ui) actual out h =
      elim (Bool-cases (discover_ui_key actual == "")) [
        | inl e ↦ rw e h
        | inr e ↦
            let key = discover_ui_key actual in
            let (v, m, u) = discover_ui_key_lem actual e in
            rw e (
              put_map-OutputOk actual key (render_ui ui (Assoc.get key actual)) out
                (ui_of key v m u) (render_ui-FieldsWf F ui (Assoc.get key actual)) h)
      ]

  -- Whatever a profile declares, Render's output holds each component once; each component in it is
  -- sys, mqtt, cloud, ble, ws, wifi, or a switch or UI component that the device reports; and the
  -- map of each is not empty and holds each key once, at every level.
  pub render-OutputOk :
      (cfg : ProfileConfig F) (desired_name : String) (actual : Assoc (Value F))
      → OutputOk actual (render cfg desired_name actual)
  unfolding render
  render-OutputOk cfg desired_name actual =
      let m =
        put_map "mqtt" (render_mqtt cfg.mqtt)
          (put_map "sys" (render_sys cfg.system cfg.name desired_name) []) in
      let c = and_then (λ c. c.enable) cfg.cloud in
      let b = and_then (λ c. c.enable) cfg.ble in
      let w = and_then (λ c. c.enable) cfg.ws in
      render_ui_component-OutputOk cfg.ui actual _ (
        render_switch_components-OutputOk cfg.switch actual _ (
          put_map-OutputOk actual "wifi" _ _ wifi (render_wifi-FieldsWf F cfg.wifi) (
            render_enable-OutputOk actual "ws" w (render_enable "ble" b (render_enable "cloud" c m))
              ws
              (render_enable-OutputOk actual "ble" b (render_enable "cloud" c m) ble (
                render_enable-OutputOk actual "cloud" c m cloud (
                  put_map-OutputOk actual "mqtt" _ _ mqtt (render_mqtt-FieldsWf F cfg.mqtt) (
                    put_map-OutputOk actual "sys" _ [] sys
                      (render_sys-FieldsWf F cfg.system cfg.name desired_name) (tt, tt))))))))
