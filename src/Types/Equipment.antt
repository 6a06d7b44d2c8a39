-- ===== src/Types/Equipment.antt =====
-- types/types.go: protocols, vendors and the configuration of a device. Go's names of protocols and
-- vendors are texts. A map may be nil, and is none then.
use nano_southbound.Prelude.{Bool, Option, ℤ}
use nano_southbound.Go.Text.{Text, codes}
use nano_southbound.Go.Map.{Map}

abbrev pub protocol_netconf : Text
protocol_netconf = codes "netconf"

abbrev pub protocol_gnmi : Text
protocol_gnmi = codes "gnmi"

abbrev pub protocol_cli : Text
protocol_cli = codes "cli"

abbrev pub protocol_snmp : Text
protocol_snmp = codes "snmp"

abbrev pub protocol_rest : Text
protocol_rest = codes "rest"

abbrev pub vendor_nokia : Text
vendor_nokia = codes "nokia"

abbrev pub vendor_huawei : Text
vendor_huawei = codes "huawei"

abbrev pub vendor_zte : Text
vendor_zte = codes "zte"

abbrev pub vendor_cisco : Text
vendor_cisco = codes "cisco"

abbrev pub vendor_juniper : Text
vendor_juniper = codes "juniper"

abbrev pub vendor_adtran : Text
vendor_adtran = codes "adtran"

abbrev pub vendor_calix : Text
vendor_calix = codes "calix"

abbrev pub vendor_dzs : Text
vendor_dzs = codes "dzs"

abbrev pub vendor_fiberhome : Text
vendor_fiberhome = codes "fiberhome"

abbrev pub vendor_ericsson : Text
vendor_ericsson = codes "ericsson"

abbrev pub vendor_vsol : Text
vendor_vsol = codes "vsol"

abbrev pub vendor_cdata : Text
vendor_cdata = codes "cdata"

abbrev pub vendor_mock : Text
vendor_mock = codes "mock"

-- `timeout` is a duration in nanoseconds.
pub record EquipmentConfig : Type 0 where
  pub name : Text
  pub type : Text
  pub vendor : Text
  pub address : Text
  pub port : ℤ
  pub protocol : Text
  pub username : Text
  pub password : Text
  pub tls_enabled : Bool
  pub tls_skip_verify : Bool
  pub timeout : ℤ
  pub metadata : Option (Map Text)
  pub secondary_port : ℤ
  pub snmp_community : Text
  pub snmp_version : Text
  pub password_auth_only : Bool
