-- ===== src/Factory.antt =====
-- factory.go: what each vendor supports, and the choice of a driver and an adapter.
pub mod Choice
use nano_southbound.Prelude.{
  Bool, true, false, not, ◌||◌, Option, none, some, List, [], ◌∷◌, ◌++◌, map, if◌then◌else◌,
  is_empty, exists,
}
use nano_southbound.Go.Text.{Text, codes, text_eq}
use nano_southbound.Go.Map.{Map, lookup}
use nano_southbound.Go.Result.{Result, ok, err, reject_if, ◌>>◌, ◌>>=◌}
use nano_southbound.Types.Equipment.{
  protocol_netconf, protocol_gnmi, protocol_cli, protocol_snmp, protocol_rest, vendor_nokia,
  vendor_huawei, vendor_zte, vendor_cisco, vendor_juniper, vendor_adtran, vendor_calix, vendor_dzs,
  vendor_fiberhome, vendor_ericsson, vendor_vsol, vendor_cdata, vendor_mock, EquipmentConfig,
}

pub record VendorCapabilities : Type 0 where
  pub primary_protocol : Text
  pub supported_protocols : List Text
  pub config_method : Text
  pub telemetry_method : Text
  pub supports_streaming : Bool

abbrev capabilities : Text → List Text → Text → Text → Bool → VendorCapabilities
capabilities primary supported config telemetry streaming = record {
  primary_protocol = primary;
  supported_protocols = supported;
  config_method = config;
  telemetry_method = telemetry;
  supports_streaming = streaming;
}

unfoldable pub capability_matrix : Map VendorCapabilities
capability_matrix =
    (
      vendor_nokia,
      capabilities protocol_netconf (protocol_netconf ∷ protocol_gnmi ∷ protocol_cli ∷ [])
          protocol_netconf protocol_gnmi true,
    )
    ∷ (
      vendor_huawei,
      capabilities protocol_cli (protocol_cli ∷ protocol_snmp ∷ protocol_netconf ∷ []) protocol_cli
          protocol_snmp false,
    )
    ∷ (
      vendor_zte,
      capabilities protocol_cli (protocol_cli ∷ protocol_snmp ∷ []) protocol_cli protocol_snmp
          false,
    )
    ∷ (
      vendor_cisco,
      capabilities protocol_netconf
          (protocol_netconf ∷ protocol_gnmi ∷ protocol_rest ∷ protocol_cli ∷ []) protocol_netconf
          protocol_gnmi true,
    )
    ∷ (
      vendor_juniper,
      capabilities protocol_netconf (protocol_netconf ∷ protocol_gnmi ∷ protocol_cli ∷ [])
          protocol_netconf protocol_gnmi true,
    )
    ∷ (
      vendor_adtran,
      capabilities protocol_netconf (protocol_netconf ∷ protocol_rest ∷ []) protocol_netconf
          protocol_netconf false,
    )
    ∷ (
      vendor_calix,
      capabilities protocol_netconf (protocol_netconf ∷ protocol_rest ∷ protocol_cli ∷ [])
          protocol_netconf protocol_netconf false,
    )
    ∷ (
      vendor_dzs,
      capabilities protocol_cli (protocol_cli ∷ protocol_snmp ∷ []) protocol_cli protocol_snmp
          false,
    )
    ∷ (
      vendor_fiberhome,
      capabilities protocol_snmp (protocol_snmp ∷ protocol_cli ∷ []) protocol_cli protocol_snmp
          false,
    )
    ∷ (
      vendor_ericsson,
      capabilities protocol_netconf (protocol_netconf ∷ protocol_cli ∷ []) protocol_netconf
          protocol_netconf false,
    )
    ∷ (
      vendor_vsol,
      capabilities protocol_cli (protocol_cli ∷ protocol_snmp ∷ protocol_rest ∷ []) protocol_cli
          protocol_snmp false,
    )
    ∷ (
      vendor_cdata,
      capabilities protocol_cli (protocol_cli ∷ protocol_snmp ∷ []) protocol_cli protocol_snmp
          false,
    )
    ∷ (
      vendor_mock,
      capabilities protocol_cli
          (protocol_cli ∷ protocol_snmp ∷ protocol_netconf ∷ protocol_gnmi ∷ []) protocol_cli
          protocol_cli false,
    )
    ∷ []

-- The constructors of the protocols' drivers and of the vendors' adapters: `B` is `types.Driver`.
pub record Constructors (B : Type 0) : Type 0 where
  pub mock_driver : Option EquipmentConfig → Result Text B
  pub netconf_driver : Option EquipmentConfig → Result Text B
  pub gnmi_driver : Option EquipmentConfig → Result Text B
  pub cli_driver : Option EquipmentConfig → Result Text B
  pub snmp_driver : Option EquipmentConfig → Result Text B
  pub nokia_adapter : B → Option EquipmentConfig → B
  pub huawei_adapter : B → Option EquipmentConfig → B
  pub zte_adapter : B → Option EquipmentConfig → B
  pub cisco_adapter : B → Option EquipmentConfig → B
  pub juniper_adapter : B → Option EquipmentConfig → B
  pub adtran_adapter : B → Option EquipmentConfig → B
  pub calix_adapter : B → Option EquipmentConfig → B
  pub dzs_adapter : B → Option EquipmentConfig → B
  pub fiberhome_adapter : B → Option EquipmentConfig → B
  pub ericsson_adapter : B → Option EquipmentConfig → B
  pub vsol_adapter : B → Option EquipmentConfig → B
  pub cdata_adapter : B → Option EquipmentConfig → B

abbrev pub names : Text → List Text → Bool
names x = exists (λ y. text_eq y x)

abbrev pub protocol_or_primary : VendorCapabilities → Text → Text
protocol_or_primary caps protocol = if is_empty protocol then caps.primary_protocol else protocol

module _ {B : Type 0} (make : Constructors B) (config : Option EquipmentConfig) where
  -- The switch on the protocol, with none for its default
  unfoldable pub base_driver : Text → Option (Result Text B)
  base_driver protocol =
      if text_eq protocol protocol_netconf
      then some (make.netconf_driver config)
      else if text_eq protocol protocol_gnmi
      then some (make.gnmi_driver config)
      else if text_eq protocol protocol_cli
      then some (make.cli_driver config)
      else if text_eq protocol protocol_snmp
      then some (make.snmp_driver config)
      else none

  abbrev pub created : Text → Option (Result Text B) → Result Text B
  created protocol none = err (codes "unsupported protocol: " ++ protocol)
  created protocol (some (ok base)) = ok base
  created protocol (some (err m)) =
      err (codes "failed to create " ++ (protocol ++ (codes " driver: " ++ m)))

  -- The switch on the vendor
  unfoldable pub adapter : Text → B → Result Text B
  adapter vendor base =
      if text_eq vendor vendor_nokia
      then ok (make.nokia_adapter base config)
      else if text_eq vendor vendor_huawei
      then ok (make.huawei_adapter base config)
      else if text_eq vendor vendor_zte
      then ok (make.zte_adapter base config)
      else if text_eq vendor vendor_cisco
      then ok (make.cisco_adapter base config)
      else if text_eq vendor vendor_juniper
      then ok (make.juniper_adapter base config)
      else if text_eq vendor vendor_adtran
      then ok (make.adtran_adapter base config)
      else if text_eq vendor vendor_calix
      then ok (make.calix_adapter base config)
      else if text_eq vendor vendor_dzs
      then ok (make.dzs_adapter base config)
      else if text_eq vendor vendor_fiberhome
      then ok (make.fiberhome_adapter base config)
      else if text_eq vendor vendor_ericsson
      then ok (make.ericsson_adapter base config)
      else if text_eq vendor vendor_vsol
      then ok (make.vsol_adapter base config)
      else if text_eq vendor vendor_cdata
      then ok (make.cdata_adapter base config)
      else err (codes "vendor adapter not implemented: " ++ vendor)

  abbrev pub driver_for : Text → Text → Result Text B
  driver_for vendor protocol =
      if text_eq vendor vendor_mock
      then make.mock_driver config
      else (do base ← created protocol (base_driver protocol); adapter vendor base)

  unfoldable pub new_driver : Text → Text → Result Text B
  unfolding base_driver adapter
  new_driver vendor asked = elim (lookup vendor capability_matrix) [
    | none ↦ err (codes "unsupported vendor: " ++ vendor)
    | some caps ↦
        let protocol = protocol_or_primary caps asked in
        do
          reject_if (not (names protocol caps.supported_protocols))
              (codes "vendor " ++ (vendor ++ (codes " does not support protocol " ++ protocol)))
          driver_for vendor protocol
  ]

-- `range` is the order in which Go ranges over the map.
unfoldable pub get_supported_vendors : (Map VendorCapabilities → Map VendorCapabilities) → List Text
get_supported_vendors range = map (λ e. e.0) (range capability_matrix)

unfoldable pub get_vendor_capabilities : Text → Option VendorCapabilities
get_vendor_capabilities vendor = lookup vendor capability_matrix
