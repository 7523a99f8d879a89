-- ===== src/Controller/Reconcile/Stamp/Logs.antt =====
-- What the registry's reads and stampRegistry add to the log.
use shelly_operator.Base.{String, Option, none, some, List, not, ◌==◌, Result, ok, err}
use shelly_operator.Api.Device.{ShellyDevice}
use shelly_operator.Api.Profile.{AuthSection, WifiSection, SecretKeyRef}
use shelly_operator.Api.Server.{Reader}
use shelly_operator.Fleet.Registry.{
  RegistryEntry, Decoding, resolve_registry, resolve_mapped, registry_or_mapped, resolve_name,
  secret_value, secret_or_none, resolve_password, resolve_sta1, resolve_wifi_passwords,
}
use shelly_operator.Controller.World.{Effect, World, Env, patch_object}
use shelly_operator.Controller.World.Logs.{Logs, Logs-still, Logs-bind, Logs-if}
use shelly_operator.Controller.World.Policy.{Policy, Logs-object}
use shelly_operator.Controller.Reconcile.Stamp.{
  LabelRules, stamp_needed, wanted_labels, wanted_annotations, stamp_patch, stamp_entry,
  stamp_registry,
}

-- The reader's reads add what Q allows.
pub record ReaderLogs {S : Type 0} (Q : List Effect → Type 0) (reader : Reader (World S))
    : Type 0 where
  pub maps : (name : String) → Logs Q (reader.config_map name)
  pub secrets : (name : String) → Logs Q (reader.secret name)

module _ {S : Type 0} {Q : List Effect → Type 0} {May : Type 0} (p : Policy Q May) ⦃d : Decoding⦄
    (reader : Reader (World S)) (r : ReaderLogs Q reader) where
  resolve_registry-Logs :
      (dev : ShellyDevice) (name : String) → Logs Q (resolve_registry (some reader) dev name)
  unfolding resolve_registry
  resolve_registry-Logs dev name =
      Logs-if _ _ (name == "") (Logs-still p.law)
        (Logs-bind p.law _ _ (r.maps name) (λ items. Logs-still p.law))

  resolve_mapped-Logs :
      (dev : ShellyDevice) (name : String) → Logs Q (resolve_mapped (some reader) dev name)
  unfolding resolve_mapped
  resolve_mapped-Logs dev name =
      Logs-if _ _ (name == "") (Logs-still p.law)
        (Logs-bind p.law _ _ (r.maps name) (λ items. Logs-still p.law))

  registry_or_mapped-Logs :
      (dev : ShellyDevice) (name : String) (e : Result String RegistryEntry)
      → Logs Q (registry_or_mapped (some reader) dev name e)
  unfolding registry_or_mapped
  registry_or_mapped-Logs dev name (err e) = Logs-still p.law
  registry_or_mapped-Logs dev name (ok entry) =
      Logs-if _ _ (not (entry.name == "")) (Logs-still p.law) (resolve_mapped-Logs dev name)

  pub resolve_name-Logs :
      (dev : ShellyDevice) (name_map_name registry_name : String)
      → Logs Q (resolve_name (some reader) dev name_map_name registry_name)
  unfolding resolve_name
  resolve_name-Logs dev name_map_name registry_name =
      Logs-if _ _ (not (dev.spec.display_name == "")) (Logs-still p.law) (
        Logs-bind p.law _ _ (resolve_registry-Logs dev registry_name)
          (registry_or_mapped-Logs dev name_map_name))

  secret_or_none-Logs :
      (ref : Option SecretKeyRef) (what : String) → Logs Q (secret_or_none (some reader) ref what)
  unfolding secret_or_none secret_value
  secret_or_none-Logs none what = Logs-still p.law
  secret_or_none-Logs (some ref) what =
      Logs-bind p.law _ _ (r.secrets ref.name) (λ items. Logs-still p.law)

  pub resolve_password-Logs :
      (auth : Option AuthSection) → Logs Q (resolve_password (some reader) auth)
  unfolding resolve_password
  resolve_password-Logs none = Logs-still p.law
  resolve_password-Logs (some auth) = secret_or_none-Logs auth.password_secret_ref "password"

  resolve_sta1-Logs :
      (wifi : WifiSection) (sta : Result String String)
      → Logs Q (resolve_sta1 (some reader) wifi sta)
  unfolding resolve_sta1
  resolve_sta1-Logs wifi (err e) = Logs-still p.law
  resolve_sta1-Logs wifi (ok sta) =
      Logs-bind p.law _ _ (secret_or_none-Logs _ _) (λ sta1. Logs-still p.law)

  pub resolve_wifi_passwords-Logs :
      (wifi : Option WifiSection) → Logs Q (resolve_wifi_passwords (some reader) wifi)
  unfolding resolve_wifi_passwords
  resolve_wifi_passwords-Logs none = Logs-still p.law
  resolve_wifi_passwords-Logs (some wifi) =
      Logs-bind p.law _ _ (secret_or_none-Logs _ _) (resolve_sta1-Logs wifi)

  module _ {F Sel : Type 0} ⦃rules : LabelRules⦄ (env : Env F Sel S) where
    stamp_entry-Logs :
        (dev : ShellyDevice) (e : Result String RegistryEntry)
        → Logs Q (stamp_entry (patch_object env) dev e)
    unfolding stamp_entry stamp_patch
    stamp_entry-Logs dev (err e) = Logs-still p.law
    stamp_entry-Logs dev (ok entry) =
        Logs-if _ _ (not (stamp_needed (wanted_labels entry) (wanted_annotations entry) dev))
          (Logs-still p.law) (Logs-bind p.law _ _ (Logs-object p env dev _) (λ a. Logs-still p.law))

    pub stamp_registry-Logs :
        (name : String) (dev : ShellyDevice)
        → Logs Q (stamp_registry (patch_object env) (some reader) name dev)
    unfolding stamp_registry
    stamp_registry-Logs name dev =
        Logs-bind p.law _ _ (resolve_registry-Logs dev name) (stamp_entry-Logs dev)
