-- ===== src/Tests/Writes.antt =====
-- What is written to a device and to its object.
use Prim.Native.String.{◌++◌ as str_append}
use shelly_operator.Base.{
  ℤ, pos, true, false, String, none, some, List, [], ◌∷◌, ◌≡◌, arith, itoa, if◌then◌else◌,
}
use shelly_operator.Base.Assoc
use shelly_operator.Json as Json
use shelly_operator.Json.{Fields, obj, str, bool, end, field}
use shelly_operator.Drift.Diff.{Finding}
use shelly_operator.Drift.Order.{apply_order}
use shelly_operator.Drift.Report.{sections}
use shelly_operator.Fleet.Registry.{RegistryEntry}
use shelly_operator.Controller.Reconcile.Apply.{
  switch_id, wifi_payload, apply_section, apply_findings,
}
use shelly_operator.Controller.Reconcile.Apply.Progress.{Progress, apply_findings-Progress}
use shelly_operator.Controller.Reconcile.Apply.Switches.{switch_id-itoa}
use shelly_operator.Controller.Reconcile.Apply.Passwords.{with_pass, wifi_payload-get}
use shelly_operator.Controller.Reconcile.Stamp.{
  wanted_labels, wanted_annotations, stamped, stamp_needed,
}
use shelly_operator.Controller.Reconcile.Stamp.Laws.{over, is_owned}
use shelly_operator.Controller.Reconcile.Stamp.Settled.{stamped_lem}
use shelly_operator.Tests.Fixtures.{whole}
use shelly_operator.Tests.Reconcile.{plain_codec, texts, rules, calls, enforcing, plug}

abbrev drift : List (Finding ℤ)
drift =
    record { section = "sys"; path = "device.name"; want = str "hall"; have = str "" }
    ∷ record { section = "auth"; path = "enable"; want = bool true; have = bool false }
    ∷ []

abbrev wifi : Fields ℤ
wifi = field "sta" (obj (field "ssid" (str "home") end)) end

abbrev hall : RegistryEntry
hall = record {
  name = "";
  room = "Hall";
  kind = "";
  note = "behind the door";
  labels = ("power", "on") ∷ [];
}

-- The name of a plug drifted, and its auth section, for which there is no password.
apply_findings-Progress_example :
    Progress
      (apply_section calls
        (record { host = "10.0.0.7"; password = "" })
        plug
        []
        (some true)
        none
        ""
        ("", "")
        enforcing)
      (apply_order (sections drift))
      (apply_findings calls
        (record { host = "10.0.0.7"; password = "" })
        plug
        []
        drift
        (some true)
        none
        ""
        ("", "")
        enforcing
        5)
apply_findings-Progress_example =
    apply_findings-Progress calls (record { host = "10.0.0.7"; password = "" }) plug [] drift
      (some true) none "" ("", "") enforcing 5

switch_id-itoa_example : switch_id (str_append "switch:" (itoa 3)) ≡ some (pos 3)
switch_id-itoa_example = switch_id-itoa 3 (omega arith)

wifi_payload-get_example :
    Json.get "sta" (wifi_payload wifi ("secret", "")) ≡ with_pass "secret" (Json.get "sta" wifi)
wifi_payload-get_example = wifi_payload-get wifi "secret" "" "sta"

stamped_lem_example :
    let labels = wanted_labels hall in
    let annotations = wanted_annotations hall in
    let dev = stamped labels annotations plug in
    ((k : String)
      → Assoc.get k dev.labels
        ≡ over (Assoc.get k labels) (if is_owned k then none else Assoc.get k plug.labels))
    × (stamp_needed labels annotations dev ≡ false)
stamped_lem_example = stamped_lem hall plug
