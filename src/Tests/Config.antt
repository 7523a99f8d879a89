-- ===== src/Tests/Config.antt =====
-- Rendering, comparing, writing and merging a configuration.
use shelly_operator.Base.{
  ◌≤◌, ℤ, Bool, true, false, String, none, some, List, [], ◌∷◌, ◌++◌, ◌≡◌, ◌↔◌, ◌⊎◌, refl, Memᴰ,
  All, length, take, ok, err, str_ltb,
}
use shelly_operator.Base.Assoc
use shelly_operator.Base.Sort
use shelly_operator.Json
use shelly_operator.Drift.Diff
use shelly_operator.Drift.Render
use shelly_operator.Drift.Render.Write
use shelly_operator.Base.Assoc.{Assoc}
use shelly_operator.Json.{Value, Fields, FieldsWf, null, bool, num, str, obj, arr, end, field}
use shelly_operator.Api.Profile.{SecretKeyRef}
use shelly_operator.Drift.Diff.{Finding, DiffError, decode_section, diff, diff_map}
use shelly_operator.Drift.Diff.Covers.{Covers, diff_map-Covers, value_at}
use shelly_operator.Drift.Diff.Verdict.{IsInSync, diff-nil_iff}
use shelly_operator.Drift.Diff.Sections.{Undecodable, diff-err}
use shelly_operator.Drift.Order.{rank, apply_order}
use shelly_operator.Drift.Order.Laws.{apply_order-wifi_last}
use shelly_operator.Drift.Report.{sections, summarize, parts, max_summarized}
use shelly_operator.Drift.Report.Laws.{IsAscending, sections_lem, summarize_capped}
use shelly_operator.Drift.Render.{render}
use shelly_operator.Drift.Render.Laws.{OutputOk, render-OutputOk}
use shelly_operator.Drift.Render.Laws.Converges.{render_converges}
use shelly_operator.Drift.Render.Secrets.{with_secrets, render-with_secrets}
use shelly_operator.Shellytest.Merge.{merge}
use shelly_operator.Shellytest.Merge.Laws.{value_at-merge-Undeclared}
use shelly_operator.Shellytest.Config.{snapshot}
use shelly_operator.Shellytest.Config.Converge.{Accepts, write_sections}
use shelly_operator.Shellytest.Config.Enforce.{enforce_converges}
use shelly_operator.Tests.Fixtures.{whole, whole-NumReflexive, config, plug, plug_config}

abbrev actual : Assoc (Value ℤ)
actual = snapshot plug_config

abbrev mqtt_off : Finding ℤ
mqtt_off = record { section = "mqtt"; path = "enable"; want = bool true; have = bool false }

plug-Accepts : Accepts plug
plug-Accepts = record { no_error = refl; no_ignore = refl }

drift : diff (render config "" actual) actual ≡ ok (mqtt_off ∷ [])
unfolding Diff.diff Diff.diff_loop Diff.by_key Sort.sort Sort.insert Diff.key_less Diff.diff_section
    Assoc.get Diff.diff_decoded Diff.decode_map Diff.diff_map Diff.diff_value Diff.join
    Diff.diff_leaf Diff.leaf_ok Json.get Diff.leaf_equal Diff.extend Json.deep_equal str_ltb
    Render.render Render.render_sys Render.render_mqtt Render.render_wifi Render.render_wifi_network
    Render.render_wifi_ap Render.render_wifi_roam Render.render_enable
    Render.render_switch_components Render.render_ui_component Render.render_sys_rest
    Render.render_sys_device Write.put_some Write.put_object Write.put_map Write.none_if_empty
    Json.put Assoc.put
drift = refl

render_converges_example :
    diff (render config "" actual) (
      snapshot
        (write_sections plug
          (render config "" actual)
          (apply_order (sections (mqtt_off ∷ [])))).config)
    ≡ ok []
render_converges_example =
    render_converges whole-NumReflexive config "" plug (mqtt_off ∷ []) plug-Accepts drift

abbrev wanted : Assoc (Fields ℤ)
wanted = ("mqtt", field "enable" (bool true) end) ∷ []

wanted_drift : diff wanted actual ≡ ok (mqtt_off ∷ [])
unfolding Diff.diff Diff.diff_loop Diff.by_key Sort.sort Sort.insert Diff.key_less Diff.diff_section
    Assoc.get Diff.diff_decoded Diff.decode_map Diff.diff_map Diff.diff_value Diff.join
    Diff.diff_leaf Diff.leaf_ok Json.get Diff.leaf_equal Diff.extend Json.deep_equal str_ltb
wanted_drift = refl

enforce_converges_example :
    diff wanted
      (snapshot (write_sections plug wanted (apply_order (sections (mqtt_off ∷ [])))).config)
    ≡ ok []
unfolding Assoc.get Json.get
enforce_converges_example =
    enforce_converges whole-NumReflexive plug wanted (mqtt_off ∷ []) plug-Accepts
      (((refl, tt, tt), refl), tt) wanted_drift

diff-nil_iff_example : (diff wanted actual ≡ ok []) ↔ IsInSync wanted actual
diff-nil_iff_example = diff-nil_iff wanted actual

abbrev enable : Bool → Fields ℤ
enable b = field "enable" (bool b) end

diff_map-Covers_example :
    (diff_map "mqtt" "" (enable true) (enable false) ≡ []) ↔ Covers (enable true) (enable false)
diff_map-Covers_example = diff_map-Covers "mqtt" "" (enable true) (enable false)

abbrev broken : Assoc (Value ℤ)
broken = ("mqtt", str "no map") ∷ []

broken_fails : diff wanted broken ≡ err (decode_section "mqtt")
unfolding Diff.diff Diff.diff_loop Diff.by_key Sort.sort Sort.insert Diff.key_less Diff.diff_section
    Assoc.get Diff.diff_decoded Diff.decode_map Diff.diff_map Diff.diff_value Diff.join
    Diff.diff_leaf Diff.leaf_ok Json.get Diff.leaf_equal Diff.extend Json.deep_equal str_ltb
broken_fails = refl

diff-err_example : Undecodable "mqtt" wanted broken
diff-err_example = diff-err wanted broken "mqtt" broken_fails

render-OutputOk_example : OutputOk actual (render config "plug" actual)
render-OutputOk_example = render-OutputOk config "plug" actual

abbrev secret : SecretKeyRef
secret = record { name = "wifi"; key = "password" }

render-with_secrets_example :
    render (with_secrets none (some secret) none config) "plug" actual ≡ render config "plug" actual
render-with_secrets_example = render-with_secrets none (some secret) none config "plug" actual

abbrev drifted : List String
drifted = "wifi" ∷ "mqtt" ∷ "sys" ∷ []

abbrev after_sys : List String
after_sys = "mqtt" ∷ "wifi" ∷ []

apply_order-wifi_last_example :
    ((s : String)
      → apply_order drifted ≡ [] ++ s ∷ after_sys
      → All (λ z. rank s ≤ rank z) after_sys)
    × (apply_order drifted ≡ [] ++ "wifi" ∷ after_sys → All (λ (z : String). z ≡ "wifi") after_sys)
    × (apply_order drifted ≡ [] ++ "auth" ∷ after_sys
        → All (λ (z : String). (z ≡ "auth") ⊎ (z ≡ "wifi")) after_sys)
apply_order-wifi_last_example = apply_order-wifi_last drifted [] after_sys

abbrev patch : Fields ℤ
patch = field "sta" (obj (field "enable" (bool false) end)) end

abbrev stored : Fields ℤ
stored = field "sta" (obj (field "ssid" (str "home") (field "enable" (bool true) end))) end

patch-FieldsWf : FieldsWf patch
unfolding Json.get Assoc.get
patch-FieldsWf = (refl, (refl, tt, tt), tt)

value_at-merge-Undeclared_example :
    value_at ("ap" ∷ []) (merge stored patch) ≡ value_at ("ap" ∷ []) stored
unfolding Json.get Assoc.get
value_at-merge-Undeclared_example =
    value_at-merge-Undeclared ("ap" ∷ []) stored patch patch-FieldsWf refl

sections_lem_example :
    ((s : String)
      → Memᴰ s (sections (mqtt_off ∷ []))
      → (f : Finding ℤ) × Memᴰ f (mqtt_off ∷ []) × (f.section ≡ s))
    × ((f : Finding ℤ) → Memᴰ f (mqtt_off ∷ []) → Memᴰ f.section (sections (mqtt_off ∷ [])))
    × IsAscending (sections (mqtt_off ∷ []))
sections_lem_example = sections_lem (mqtt_off ∷ [])

abbrev six : List (Finding ℤ)
six = mqtt_off ∷ mqtt_off ∷ mqtt_off ∷ mqtt_off ∷ mqtt_off ∷ mqtt_off ∷ []

abbrev show : Value ℤ → String
show (bool true) = "true"
show (bool false) = "false"
show _ = "?"

summarize_capped_example :
    (length (parts show (length six) 0 six) ≤ 6)
    × (length six ≡ length six
        → take max_summarized six ≡ take max_summarized six
        → summarize show six ≡ summarize show six)
summarize_capped_example = summarize_capped show six six
