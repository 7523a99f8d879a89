-- ===== src/Drift/Render/Secrets.antt =====
-- internal/drift/desired.go: Render and the references to secrets.
use shelly_operator.Base.{String, Option, none, some, ◌≡◌, refl}
use shelly_operator.Base.Assoc.{Assoc}
use shelly_operator.Json.{Floats, Value}
use shelly_operator.Api.Profile.{ProfileConfig, WifiSection, WifiNetwork, AuthSection, SecretKeyRef}
use shelly_operator.Drift.Render.{render, render_wifi, render_wifi_network}

-- A network with another reference to its password.
abbrev pub with_pass_ref : Option SecretKeyRef → Option WifiNetwork → Option WifiNetwork
with_pass_ref r none = none
with_pass_ref r (some w) = some (record w { pass_secret_ref = r })

abbrev pub with_wifi_refs :
    Option SecretKeyRef → Option SecretKeyRef → Option WifiSection → Option WifiSection
with_wifi_refs r r1 none = none
with_wifi_refs r r1 (some wifi) =
    some (record wifi { sta = with_pass_ref r wifi.sta; sta1 = with_pass_ref r1 wifi.sta1 })

-- A profile that differs in its secrets: the auth section, and the references of both networks.
abbrev pub with_secrets :
    {F : Type 0}
    → Option AuthSection
    → Option SecretKeyRef
    → Option SecretKeyRef
    → ProfileConfig F
    → ProfileConfig F
with_secrets auth r r1 cfg = record cfg { auth = auth; wifi = with_wifi_refs r r1 cfg.wifi }

module _ (F : Type 0) ⦃n : Floats F⦄ where
  network_lem :
      (r : Option SecretKeyRef) (w : Option WifiNetwork)
      → render_wifi_network {F = F} (with_pass_ref r w) ≡ render_wifi_network w
  unfolding render_wifi_network
  network_lem r none = refl
  network_lem r (some w) = refl

  wifi_lem :
      (r r1 : Option SecretKeyRef) (w : Option WifiSection)
      → render_wifi {F = F} (with_wifi_refs r r1 w) ≡ render_wifi w
  unfolding render_wifi
  wifi_lem r r1 none = refl
  wifi_lem r r1 (some w) = rw (network_lem r w.sta, network_lem r1 w.sta1) refl

module _ {F : Type 0} ⦃n : Floats F⦄ where
  -- Render's output, which the dashboard shows, is the same for two profiles that differ only in
  -- their auth section and in the password references of their WiFi networks.
  pub render-with_secrets :
      (auth : Option AuthSection) (r r1 : Option SecretKeyRef) (cfg : ProfileConfig F)
      (desired_name : String) (actual : Assoc (Value F))
      → render (with_secrets auth r r1 cfg) desired_name actual ≡ render cfg desired_name actual
  unfolding render
  render-with_secrets auth r r1 cfg desired_name actual = rw (wifi_lem F r r1 cfg.wifi) refl
