-- ===== src/Shelly/Methods.antt =====
-- shelly/config.go, sysstatus.go, setauth.go, reboot.go, update.go and probe.go: the RPC methods of
-- the client, over its Call. The RPC namespace of a component is canonical where it is known.
use Prim.Native.String.{◌++◌ as str_append}
use shelly_operator.Base.{
  ℕ, List, ℤ, Bool, String, Option, none, some, [], ◌∷◌, ◌==◌, if◌then◌else◌,
}
use shelly_operator.Base.Assoc
use shelly_operator.Base.Assoc.{Assoc}
use shelly_operator.Json.{Value, Fields, null, num, str, obj, end, field, Floats}
use shelly_operator.Shelly.Rpc.{Rpc, DeviceRpc}

-- The client of a device: its address, and its password, "" where it has none.
pub record Client : Type 0 where
  pub host : String
  pub password : String

-- SysStatus: the version that is available as stable, and the standing restart flag.
pub record SysStatus : Type 0 where
  pub stable : Option String
  pub restart_required : Bool

-- Client.Call by the type of its result: a method, its parameters, and the decoded result. The
-- schedule methods of a client are those of DeviceRpc.
pub record Calls (F W : Type 0) : Type 0 where
  pub call_config : Client → String → Fields F → Rpc W (Assoc (Value F))
  pub call_set_config : Client → String → Fields F → Rpc W Bool
  pub call_sys_status : Client → String → Fields F → Rpc W SysStatus
  pub call : Client → String → Fields F → Rpc W (Unit {0})
  pub schedules : Client → DeviceRpc F W
  -- GET /shelly: the device's id
  pub probe : String → Rpc W String

abbrev pub component_methods : Assoc String
component_methods =
    ("sys", "Sys")
    ∷ ("wifi", "Wifi")
    ∷ ("mqtt", "MQTT")
    ∷ ("cloud", "Cloud")
    ∷ ("ble", "BLE")
    ∷ ("ws", "WS")
    ∷ []

-- Packages strings, crypto/sha256 and strconv: ToUpper, the hexadecimal digest of a text, and the error
-- of Atoi on the text of some code points.
pub record Texts : Type 0 where
  pub to_upper : String → String
  pub sha256hex : String → String
  pub atoi_error : List ℕ → String

module _ ⦃t : Texts⦄ where
  abbrev pub or_upper : String → Option String → String
  or_upper component none = t.to_upper component
  or_upper component (some ns) = ns

  unfoldable pub set_config_method : String → String
  set_config_method component =
      str_append (or_upper component (Assoc.get component component_methods)) ".SetConfig"

module _ {F W : Type 0} (calls : Calls F W) where
  unfoldable pub get_config : Client → Rpc W (Assoc (Value F))
  get_config c = calls.call_config c "Shelly.GetConfig" end

  unfoldable pub set_config : ⦃t : Texts⦄ → Client → String → Fields F → Rpc W Bool
  unfolding set_config_method
  set_config c component config =
      calls.call_set_config c (set_config_method component) (field "config" (obj config) end)

  unfoldable pub set_switch_config : ⦃n : Floats F⦄ → Client → ℤ → Fields F → Rpc W Bool
  set_switch_config ⦃n⦄ c id config =
      calls.call_set_config c "Switch.SetConfig"
        (field "id" (num (n.of_int id)) (field "config" (obj config) end))

  unfoldable pub get_sys_status : Client → Rpc W SysStatus
  get_sys_status c = calls.call_sys_status c "Sys.GetStatus" end

  -- ha1 is nil where the password is empty, which disables authentication.
  unfoldable pub set_auth : ⦃t : Texts⦄ → Client → String → String → Rpc W (Unit {0})
  set_auth ⦃t⦄ c device_id password =
      let ha1 =
        if password == ""
        then null
        else str
            (t.sha256hex (str_append "admin:" (str_append device_id (str_append ":" password)))) in
      calls.call c "Shelly.SetAuth"
        (field "user" (str "admin") (field "realm" (str device_id) (field "ha1" ha1 end)))

  unfoldable pub update : Client → String → Rpc W (Unit {0})
  update c stage = calls.call c "Shelly.Update" (field "stage" (str stage) end)

  unfoldable pub reboot : Client → Rpc W (Unit {0})
  reboot c = calls.call c "Shelly.Reboot" end
