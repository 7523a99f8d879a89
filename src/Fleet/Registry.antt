-- ===== src/Fleet/Registry.antt =====
-- internal/fleet/registry.go and resolve.go: the metadata, the name and the passwords of a device,
-- read from the ConfigMaps and Secrets of its namespace. An error is its text.
use Prim.Native.String.{◌++◌ as str_append}
use shelly_operator.Base.{String, Option, none, some, [], ◌==◌, not, Result, ok, err, if◌then◌else◌}
use shelly_operator.Base.Assoc
use shelly_operator.Base.Assoc.{Assoc}
use shelly_operator.Api.Device.{ShellyDevice}
use shelly_operator.Api.Profile.{AuthSection, WifiSection, WifiNetwork, SecretKeyRef}
use shelly_operator.Api.Server.{
  Act, done, ◌>>=◌, ApiError, not_found, conflict, other, api_error_text, Reader,
}

pub record RegistryEntry : Type 0 where
  pub name : String
  pub room : String
  pub kind : String
  pub note : String
  pub labels : Assoc String

abbrev pub no_entry : RegistryEntry
no_entry = record { name = ""; room = ""; kind = ""; note = ""; labels = [] }

-- encoding/json's Unmarshal into an entry, with the text of its error, and the verb %q of fmt. The
-- texts of the wrapping messages name the namespace, which is one for all objects.
pub record Decoding : Type 0 where
  pub unmarshal : String → Result String RegistryEntry
  pub quote : String → String
  pub namespace : String

-- data[key] of a nil or missing entry is ""
abbrev pub or_empty_text : Option String → String
or_empty_text none = ""
or_empty_text (some s) = s

abbrev pub pass_ref : Option WifiNetwork → Option SecretKeyRef
pass_ref none = none
pass_ref (some network) = network.pass_secret_ref

module _ ⦃d : Decoding⦄ where
  abbrev located : String → String → String
  located what name = str_append what (str_append d.namespace (str_append "/" name))

  unfoldable pub parse_entry : ShellyDevice → String → Result String RegistryEntry
  parse_entry dev raw = elim (d.unmarshal raw) [
    | ok entry ↦ ok entry
    | err e ↦
        err (str_append "parsing registry entry for " (str_append dev.name (str_append ": " e)))
  ]

  unfoldable pub entry_of :
      ShellyDevice → String → Result ApiError (Assoc String) → Result String RegistryEntry
  unfolding parse_entry
  entry_of dev name (err (not_found e)) = ok no_entry
  entry_of dev name (err (conflict e)) =
      err (str_append (located "reading registry " name) (str_append ": " e))
  entry_of dev name (err (other e)) =
      err (str_append (located "reading registry " name) (str_append ": " e))
  entry_of dev name (ok items) =
      let raw = or_empty_text (Assoc.get dev.name items) in
      if raw == "" then ok no_entry else parse_entry dev raw

  unfoldable pub mapped_name :
      ShellyDevice → String → Result ApiError (Assoc String) → Result String String
  mapped_name dev name (err (not_found e)) = ok ""
  mapped_name dev name (err (conflict e)) =
      err (str_append (located "reading name map " name) (str_append ": " e))
  mapped_name dev name (err (other e)) =
      err (str_append (located "reading name map " name) (str_append ": " e))
  mapped_name dev name (ok items) = ok (or_empty_text (Assoc.get dev.name items))

  -- The value of a key of a Secret's data.
  unfoldable pub value_of :
      SecretKeyRef → String → Result ApiError (Assoc String) → Result String String
  value_of ref what (err e) = err (
      str_append (located (str_append "reading " (str_append what " secret ")) ref.name)
        (str_append ": " (api_error_text e)))
  value_of ref what (ok items) = elim (Assoc.get ref.key items) [
    | none ↦ err (
        str_append (located (str_append what " secret ") ref.name)
          (str_append " has no key " (d.quote ref.key)))
    | some v ↦ ok v
  ]

  module _ {W : Type 0} where
    unfoldable pub resolve_registry :
        Option (Reader W) → ShellyDevice → String → Act W (Result String RegistryEntry)
    resolve_registry none dev registry_name = done (ok no_entry)
    resolve_registry (some reader) dev registry_name =
        if registry_name == ""
        then done (ok no_entry)
        else (do items ← reader.config_map registry_name; done (entry_of dev registry_name items))

    unfoldable pub resolve_mapped :
        Option (Reader W) → ShellyDevice → String → Act W (Result String String)
    resolve_mapped none dev name_map_name = done (ok "")
    resolve_mapped (some reader) dev name_map_name =
        if name_map_name == "" then done (ok "") else (do
          items ← reader.config_map name_map_name
          done (mapped_name dev name_map_name items))

    -- The registry's name, or what the name map says.
    unfoldable pub registry_or_mapped :
        Option (Reader W)
        → ShellyDevice
        → String
        → Result String RegistryEntry
        → Act W (Result String String)
    registry_or_mapped reader dev name_map_name (err e) = done (err e)
    registry_or_mapped reader dev name_map_name (ok entry) =
        if not (entry.name == "")
        then done (ok entry.name)
        else resolve_mapped reader dev name_map_name

    unfoldable pub resolve_name :
        Option (Reader W)
        → ShellyDevice
        → (name_map_name registry_name : String) → Act W (Result String String)
    resolve_name reader dev name_map_name registry_name =
        if not (dev.spec.display_name == "") then done (ok dev.spec.display_name) else (do
          entry ← resolve_registry reader dev registry_name
          registry_or_mapped reader dev name_map_name entry)

    unfoldable pub secret_value : Reader W → SecretKeyRef → String → Act W (Result String String)
    secret_value reader ref what = do items ← reader.secret ref.name; done (value_of ref what items)

    -- The secret behind a reference, "" without one.
    unfoldable pub secret_or_none :
        Option (Reader W) → Option SecretKeyRef → String → Act W (Result String String)
    secret_or_none none ref what = done (ok "")
    secret_or_none (some reader) none what = done (ok "")
    secret_or_none (some reader) (some ref) what = secret_value reader ref what

    unfoldable pub resolve_password :
        Option (Reader W) → Option AuthSection → Act W (Result String String)
    resolve_password reader none = done (ok "")
    resolve_password reader (some auth) = secret_or_none reader auth.password_secret_ref "password"

    -- WifiPasswords is the pair of the passwords of sta and sta1.
    unfoldable pub resolve_sta1 :
        Option (Reader W)
        → WifiSection
        → Result String String
        → Act W (Result String (String × String))
    resolve_sta1 reader wifi (err e) = done (err e)
    resolve_sta1 reader wifi (ok sta) = do
      sta1 ← secret_or_none reader (pass_ref wifi.sta1) "wifi sta1 password"
      done (elim sta1 [ ok pw ↦ ok (sta, pw) | err e ↦ err e ])

    unfoldable pub resolve_wifi_passwords :
        Option (Reader W) → Option WifiSection → Act W (Result String (String × String))
    resolve_wifi_passwords reader none = done (ok ("", ""))
    resolve_wifi_passwords reader (some wifi) = do
      sta ← secret_or_none reader (pass_ref wifi.sta) "wifi sta password"
      resolve_sta1 reader wifi sta
