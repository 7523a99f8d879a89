-- ===== src/Drift/Render/Ui.antt =====
-- The plug UI component of a device, and what Render writes to it.
use Prim.Native.Char.{code}
use shelly_operator.Base.{
  ℕ, Bool, false, String, Option, none, some, List, [], ◌∷◌, ◌&&◌, ◌||◌, ◌==◌, leb, has_prefix,
  select, if◌then◌else◌,
}
use shelly_operator.Base.Assoc.{Assoc, keys}
use shelly_operator.Json.{
  Floats, Value, Fields, bool, num, str, arr, obj, end, field, get, put, as_map, entries, of_list,
}
use shelly_operator.Drift.Diff.{decode_map}
use shelly_operator.Api.Profile.{UiSection, NightMode}
use shelly_operator.Drift.Render.Write.{put_some, put_object}

-- [a-z0-9]
abbrev pub is_lower_alnum : ℕ → Bool
is_lower_alnum c = (leb 97 c && leb c 122) || (leb 48 c && leb c 57)

-- What follows a non-empty run of [a-z0-9] in uiKeyRe, ^[a-z0-9]+_ui$. The underscore is in no such
-- run, so a run is left only at the suffix.
unfoldable pub after_run : String → Bool
after_run String.[] = false
after_run (String.◌∷◌ c s) =
    let rest = after_run s in if is_lower_alnum (code c) then rest else String.◌∷◌ c s == "_ui"

-- uiKeyRe.MatchString
unfoldable pub is_ui_key : String → Bool
unfolding after_run
is_ui_key String.[] = false
is_ui_key (String.◌∷◌ c s) = is_lower_alnum (code c) && after_run s

-- The default of renderUIControls.
abbrev pub or_switch_0 : List String → List String
or_switch_0 [] = "switch:0" ∷ []
or_switch_0 (k ∷ ks) = k ∷ ks

module _ {F : Type 0} where
  -- Go meets the keys in any order; here it is the order of the entries.
  unfoldable pub discover_ui_key : Assoc (Value F) → String
  unfolding is_ui_key
  discover_ui_key [] = ""
  discover_ui_key ((k, v) ∷ actual) =
      let rest = discover_ui_key actual in if is_ui_key k then k else rest

  abbrev pub strings : List String → List (Value F)
  strings [] = []
  strings (s ∷ ss) = str s ∷ strings ss

  unfoldable pub render_active_between : List String → Fields F → Fields F
  render_active_between [] out = out
  render_active_between (s ∷ ss) out = put "active_between" (arr (of_list (strings (s ∷ ss)))) out

  unfoldable pub ui_control_switch_keys : Option (Value F) → List String
  ui_control_switch_keys none = []
  ui_control_switch_keys (some raw) = elim (decode_map raw) [
    | none ↦ []
    | some v ↦ select (λ k. has_prefix k "switch:") (keys (entries (as_map (get "controls" v))))
  ]

  unfoldable pub put_controls : String → List String → Fields F → Fields F
  put_controls in_mode [] controls = controls
  put_controls in_mode (k ∷ ks) controls =
      put_controls in_mode ks (put k (obj (field "in_mode" (str in_mode) end)) controls)

  unfoldable pub render_ui_controls : String → Option (Value F) → Fields F
  unfolding ui_control_switch_keys put_controls
  render_ui_controls in_mode raw =
      put_controls in_mode (or_switch_0 (ui_control_switch_keys raw)) end

  unfoldable pub put_ui_controls : Option String → Option (Value F) → Fields F → Fields F
  unfolding render_ui_controls put_object
  put_ui_controls none raw out = out
  put_ui_controls (some in_mode) raw out =
      put_object "controls" (render_ui_controls in_mode raw) out

module _ {F : Type 0} ⦃n : Floats F⦄ where
  unfoldable pub render_night_mode : NightMode → Fields F
  unfolding put_some render_active_between
  render_night_mode nm = render_active_between nm.active_between (
      put_some "brightness" (λ z. num (n.of_int z)) nm.brightness
        (put_some "enable" bool nm.enable end))

  unfoldable pub put_night_mode : Option NightMode → Fields F → Fields F
  unfolding put_object render_night_mode
  put_night_mode none leds = leds
  put_night_mode (some nm) leds = put_object "night_mode" (render_night_mode nm) leds

  unfoldable pub render_ui_leds : UiSection → Fields F
  unfolding put_night_mode put_some
  render_ui_leds ui = put_night_mode ui.night_mode (put_some "mode" str ui.led_mode end)

  unfoldable pub render_ui : UiSection → Option (Value F) → Fields F
  unfolding put_ui_controls put_object render_ui_leds
  render_ui ui raw =
      put_ui_controls ui.button_in_mode raw (put_object "leds" (render_ui_leds ui) end)
