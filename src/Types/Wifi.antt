-- ===== src/Types/Wifi.antt =====
-- types/wifi.go: Wi-Fi of an ONU. `T` is the type of times.
use nano_southbound.Prelude.{Bool, Option, List, ℤ}
use nano_southbound.Go.Text.{Text, codes}

pub record WifiTarget : Type 0 where
  pub onu_serial : Text
  pub pon_port : Text
  pub onu_id : ℤ

pub record WifiConfig : Type 0 where
  pub ssid : Text
  pub password : Text
  pub enabled : Bool

abbrev pub source_omci_readback : Text
source_omci_readback = codes "OMCI_READBACK"

-- The codes of `WifiErrorCode` that the adapter uses, and the empty one of a success
pub data WifiErrorCode : Type 0 where
  no_error : WifiErrorCode
  profile_not_omci_ready : WifiErrorCode
  onu_offline : WifiErrorCode
  onu_not_found : WifiErrorCode
  unsupported_operation : WifiErrorCode
  partial_apply : WifiErrorCode
  command_timeout : WifiErrorCode
  readback_unavailable : WifiErrorCode
  invalid_value : WifiErrorCode
  permission_denied : WifiErrorCode
  internal_error : WifiErrorCode
  pri_unsupported : WifiErrorCode

pub record WifiActionEvent (T : Type 0) : Type 0 where
  pub step : Text
  pub ok : Bool
  pub timestamp : T
  pub detail : Text

pub record WifiActionResult (T : Type 0) : Type 0 where
  pub ok : Bool
  pub error_code : WifiErrorCode
  pub reason : Text
  pub raw_output : Text
  pub observed_config : Option WifiConfig
  pub observed_source : Option Text
  pub observed_at : Option T
  pub failed_step : Text
  pub events : List (WifiActionEvent T)

pub record WifiProbeResult : Type 0 where
  pub ok : Bool
  pub supports_omci_wifi : Bool
  pub profile_omci_ready : Bool
  pub command_profile : Text
  pub probe_method : Text
  pub error_code : WifiErrorCode
  pub reason : Text
  pub raw_output : Text
