-- ===== src/Tests/Feeds.antt =====
-- The exporter's list for two devices, one of them offline.
use mathlib.Core.List.{Memᴰ}
use shelly_operator.Base.{pos, true, false, String, some, List, [], ◌∷◌, ◌++◌, ◌≡◌, refl}
use shelly_operator.Api.Device.{ShellyDevice}
use shelly_operator.Discovery.Upsert.{new_device}
use shelly_operator.Drift.Report.Laws.{IsAscending}
use shelly_operator.Exporter.{Options, exporter_config, hosts, is_listed, is_relevant}
use shelly_operator.Exporter.Laws.{hosts_lem, exporter_config-dropped}

abbrev at_address : String → ShellyDevice
at_address address =
    let dev = new_device "plug" [] in
    record dev { status = record dev.status { online = true; address = address } }

abbrev seen_later : ShellyDevice → ShellyDevice
seen_later dev = record dev { status = record dev.status { last_seen = some 7 } }

abbrev fleet : List ShellyDevice
fleet =
    at_address "10.0.0.8" ∷ new_device "off" [] ∷ at_address "10.0.0.7" ∷ at_address "10.0.0.8" ∷ []

abbrev options : Options
options = record { listen_address = ":8080"; debug = false; device_update_interval = pos 30 }

hosts_lem_example :
    ((s : String)
      → Memᴰ s (hosts fleet)
      → (dev : ShellyDevice) × Memᴰ dev fleet × (is_listed dev ≡ true) × (dev.status.address ≡ s))
    × ((dev : ShellyDevice)
        → Memᴰ dev fleet
        → is_listed dev ≡ true
        → Memᴰ dev.status.address (hosts fleet))
    × IsAscending (hosts fleet)
hosts_lem_example = hosts_lem fleet

not_relevant : is_relevant (at_address "10.0.0.8") (seen_later (at_address "10.0.0.8")) ≡ false
unfolding is_relevant
not_relevant = refl

exporter_config-dropped_example :
    exporter_config ([] ++ at_address "10.0.0.8" ∷ fleet) options
    ≡ exporter_config ([] ++ seen_later (at_address "10.0.0.8") ∷ fleet) options
exporter_config-dropped_example =
    exporter_config-dropped [] fleet (at_address "10.0.0.8") (seen_later (at_address "10.0.0.8"))
      options not_relevant
