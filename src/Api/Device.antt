-- ===== src/Api/Device.antt =====
-- api/v1alpha1/shellydevice_types.go and conditions.go. A time is in nanoseconds.
use shelly_operator.Base.{Bool, String, Option, List, ℤ, ℕ}
use shelly_operator.Base.Assoc.{Assoc}

pub record ShellyDeviceSpec : Type 0 where
  pub paused : Bool
  pub display_name : String
  pub profile_ref : String

pub record FirmwareUpdateAttempt : Type 0 where
  pub time : ℕ
  pub from : String
  pub target : String
  pub error : String
  pub refused : Bool

-- metav1.ConditionStatus
pub data ConditionStatus : Type 0 where
  true_status false_status unknown_status : ConditionStatus

-- The reasons of the InSync condition.
pub data Reason : Type 0 where
  in_sync drifted no_profile profile_not_found offline paused : Reason
  config_fetch_failed auth_required apply_failed credentials_error : Reason
  not_converging wifi_applied : Reason

-- Of a condition the code writes and reads the status, the reason and the message.
pub record Condition : Type 0 where
  pub status : ConditionStatus
  pub reason : Reason
  pub message : String

-- Of the conditions the code handles the one of type InSync.
pub record ShellyDeviceStatus : Type 0 where
  pub address : String
  pub mac : String
  pub model : String
  pub app : String
  pub gen : ℤ
  pub firmware : String
  pub available_firmware : String
  pub auth_enabled : Bool
  pub restart_required : Bool
  pub last_firmware_update : Option FirmwareUpdateAttempt
  pub device_name : String
  pub online : Bool
  pub last_seen : Option ℕ
  pub matched_profile : String
  pub drifted_sections : List String
  pub in_sync : Option Condition

-- Of the object's metadata the code reads and writes the name, the labels and the annotations.
pub record ShellyDevice : Type 0 where
  pub name : String
  pub labels : Assoc String
  pub annotations : Assoc String
  pub spec : ShellyDeviceSpec
  pub status : ShellyDeviceStatus
