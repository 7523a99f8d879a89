-- ===== src/Api/Profile.antt =====
-- api/v1alpha1/shellyprofile_types.go. `F` is the type of JSON numbers, which a schedule call's
-- raw parameters hold, and `Sel` is metav1.LabelSelector.
use shelly_operator.Base.{Bool, String, Option, List, ℤ, ◌==◌}
use shelly_operator.Json.{Value}

-- The `mode` string: "observe" or "enforce"; the CRD's default for "" is observe.
abbrev pub mode_observe : String
mode_observe = "observe"

abbrev pub mode_enforce : String
mode_enforce = "enforce"

pub record RebootWindow : Type 0 where
  pub start : String
  pub end_time : String
  pub time_zone : String

pub record SecretKeyRef : Type 0 where
  pub name : String
  pub key : String

pub record NightMode : Type 0 where
  pub enable : Option Bool
  pub brightness : Option ℤ
  pub active_between : List String

pub record UiSection : Type 0 where
  pub led_mode : Option String
  pub night_mode : Option NightMode
  pub button_in_mode : Option String

pub record SystemSection : Type 0 where
  pub eco_mode : Option Bool
  pub discoverable : Option Bool
  pub timezone : Option String
  pub latitude : Option String
  pub longitude : Option String
  pub sntp_server : Option String
  pub debug_level : Option ℤ

pub record NameSection : Type 0 where
  pub managed : Bool

pub record MqttSection : Type 0 where
  pub enable : Option Bool
  pub server : String

pub record CloudSection : Type 0 where
  pub enable : Option Bool

pub record BleSection : Type 0 where
  pub enable : Option Bool

pub record WsSection : Type 0 where
  pub enable : Option Bool

pub record AuthSection : Type 0 where
  pub enable : Option Bool
  pub password_secret_ref : Option SecretKeyRef

pub record SwitchSection : Type 0 where
  pub initial_state : Option String
  pub auto_on : Option Bool
  pub auto_on_delay : Option ℤ
  pub auto_off : Option Bool
  pub auto_off_delay : Option ℤ
  pub power_limit : Option ℤ
  pub voltage_limit : Option ℤ
  pub current_limit : Option ℤ
  pub autorecover_voltage_errors : Option Bool

pub record WifiAp : Type 0 where
  pub enable : Option Bool
  pub range_extender : Option Bool

pub record WifiRoam : Type 0 where
  pub rssi_threshold : Option ℤ
  pub interval : Option ℤ

pub record WifiNetwork : Type 0 where
  pub enable : Option Bool
  pub ssid : String
  pub pass_secret_ref : Option SecretKeyRef

pub record WifiSection : Type 0 where
  pub sta : Option WifiNetwork
  pub sta1 : Option WifiNetwork
  pub ap : Option WifiAp
  pub roam : Option WifiRoam

-- `params` is the decoded raw JSON; `none` stands for a nil pointer or empty bytes.
pub record ScheduleCallSpec (F : Type 0) : Type 0 where
  pub method : String
  pub params : Option (Value F)

pub record ScheduleJobSpec (F : Type 0) : Type 0 where
  pub enable : Option Bool
  pub timespec : String
  pub calls : List (ScheduleCallSpec F)

pub record ScheduleSection (F : Type 0) : Type 0 where
  pub jobs : List (ScheduleJobSpec F)

pub record FirmwareSection : Type 0 where
  pub auto_update : Option Bool

pub record ProfileConfig (F : Type 0) : Type 0 where
  pub system : Option SystemSection
  pub name : Option NameSection
  pub mqtt : Option MqttSection
  pub cloud : Option CloudSection
  pub ble : Option BleSection
  pub ws : Option WsSection
  pub auth : Option AuthSection
  pub switch : Option SwitchSection
  pub wifi : Option WifiSection
  pub firmware : Option FirmwareSection
  pub schedules : Option (ScheduleSection F)
  pub ui : Option UiSection

pub record ShellyProfileSpec (F Sel : Type 0) : Type 0 where
  pub selector : Option Sel
  pub priority : ℤ
  pub mode : String
  pub config : ProfileConfig F
  pub reboot_when_required : Bool
  pub reboot_window : Option RebootWindow
  pub update_when_available : Bool
  pub update_window : Option RebootWindow

-- Of the object's metadata the code reads the name.
pub record ShellyProfile (F Sel : Type 0) : Type 0 where
  pub name : String
  pub spec : ShellyProfileSpec F Sel

-- profile.Spec.Mode == ModeEnforce
abbrev pub is_enforce : {F Sel : Type 0} → ShellyProfile F Sel → Bool
is_enforce p = p.spec.mode == mode_enforce
