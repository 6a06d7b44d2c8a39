-- ===== src/Cdata/ErrorPatterns.antt =====
-- vendors/cdata/errors.go: the table of what errors mean. Codes are texts as in Go.
use nano_southbound.Prelude.{Bool, true, false, [], ◌∷◌}
use nano_southbound.Go.Text.{Text, codes}
use nano_southbound.Go.Map.{Map}

abbrev pub err_onu_exists : Text
err_onu_exists = codes "ONU_EXISTS"

abbrev pub err_onu_not_found : Text
err_onu_not_found = codes "ONU_NOT_FOUND"

abbrev pub err_invalid_serial : Text
err_invalid_serial = codes "INVALID_SERIAL"

abbrev pub err_config_locked : Text
err_config_locked = codes "CONFIG_LOCKED"

abbrev pub err_port_not_found : Text
err_port_not_found = codes "PORT_NOT_FOUND"

abbrev pub err_onu_full : Text
err_onu_full = codes "ONU_FULL"

abbrev pub err_profile_missing : Text
err_profile_missing = codes "PROFILE_MISSING"

abbrev pub err_vlan_invalid : Text
err_vlan_invalid = codes "VLAN_INVALID"

abbrev pub err_unknown_command : Text
err_unknown_command = codes "UNKNOWN_CMD"

abbrev pub err_timeout : Text
err_timeout = codes "TIMEOUT"

abbrev pub err_conn_reset : Text
err_conn_reset = codes "CONN_RESET"

abbrev pub err_conn_refuse : Text
err_conn_refuse = codes "CONN_REFUSED"

abbrev pub err_auth_failed : Text
err_auth_failed = codes "AUTH_FAILED"

abbrev pub err_hardware_fault : Text
err_hardware_fault = codes "HARDWARE_FAULT"

abbrev pub err_memory_full : Text
err_memory_full = codes "MEMORY_FULL"

abbrev pub err_unknown : Text
err_unknown = codes "UNKNOWN"

pub record ErrorMapping : Type 0 where
  pub code : Text
  pub human : Text
  pub action : Text
  pub recoverable : Bool

abbrev pub mapping : Text → Text → Text → Bool → ErrorMapping
mapping code human action recoverable = record {
  code = code;
  human = human;
  action = action;
  recoverable = recoverable;
}

-- The entries in the order of the source. Go ranges over a map in any order.
unfoldable pub cdata_error_patterns : Map ErrorMapping
cdata_error_patterns =
    (
      codes "onu already exist",
      mapping err_onu_exists (codes "ONU is already registered on this OLT")
          (codes "Delete existing ONU first or use update operation") false,
    )
    ∷ (
      codes "onu not found",
      mapping err_onu_not_found (codes "ONU is not registered")
          (codes "Verify ONU serial and PON port") false,
    )
    ∷ (
      codes "no onu",
      mapping err_onu_not_found (codes "ONU does not exist at this location")
          (codes "Check PON port and ONU ID") false,
    )
    ∷ (
      codes "invalid serial",
      mapping err_invalid_serial (codes "Serial number format is invalid")
          (codes "Check format: CDAT + 8 hex characters (e.g., CDAT12345678)") false,
    )
    ∷ (
      codes "bad serial",
      mapping err_invalid_serial (codes "Serial number is malformed")
          (codes "Verify serial number matches ONU label") false,
    )
    ∷ (
      codes "configuration is locked",
      mapping err_config_locked (codes "Another session has the configuration lock")
          (codes "Will retry automatically when lock is released") true,
    )
    ∷ (
      codes "config lock",
      mapping err_config_locked (codes "Configuration is locked by another user")
          (codes "Wait for other session to complete or force unlock") true,
    )
    ∷ (
      codes "exclusive lock",
      mapping err_config_locked (codes "Exclusive configuration lock is held")
          (codes "Will retry in a few seconds") true,
    )
    ∷ (
      codes "port not exist",
      mapping err_port_not_found (codes "PON port does not exist")
          (codes "Verify PON port number (format: slot/frame/port)") false,
    )
    ∷ (
      codes "invalid port",
      mapping err_port_not_found (codes "Invalid PON port specified")
          (codes "Check port exists on this OLT model") false,
    )
    ∷ (
      codes "interface not found",
      mapping err_port_not_found (codes "Interface does not exist")
          (codes "Verify interface name matches OLT configuration") false,
    )
    ∷ (
      codes "onu id is full",
      mapping err_onu_full (codes "Maximum ONUs reached on this PON port")
          (codes "Delete unused ONUs to free slots (max 128 per port)") false,
    )
    ∷ (
      codes "no available onu-id",
      mapping err_onu_full (codes "No free ONU IDs available on this port")
          (codes "Remove inactive ONUs or use a different port") false,
    )
    ∷ (
      codes "max onu",
      mapping err_onu_full (codes "Maximum ONU limit reached")
          (codes "Check OLT license for ONU limits") false,
    )
    ∷ (
      codes "profile not found",
      mapping err_profile_missing (codes "Line or service profile does not exist")
          (codes "Create the profile first or use an existing profile name") false,
    )
    ∷ (
      codes "line profile not exist",
      mapping err_profile_missing (codes "Line profile is not configured on this OLT")
          (codes "Configure line profile before provisioning ONUs") false,
    )
    ∷ (
      codes "service profile not exist",
      mapping err_profile_missing (codes "Service profile is not configured")
          (codes "Create service profile with required parameters") false,
    )
    ∷ (
      codes "invalid vlan",
      mapping err_vlan_invalid (codes "VLAN ID is out of range")
          (codes "Use VLAN ID between 1 and 4094") false,
    )
    ∷ (
      codes "vlan not exist",
      mapping err_vlan_invalid (codes "VLAN is not configured on uplink")
          (codes "Configure VLAN on upstream port first") false,
    )
    ∷ (
      codes "% unknown command",
      mapping err_unknown_command (codes "Command not supported by this firmware")
          (codes "Check OLT firmware version - may need upgrade") false,
    )
    ∷ (
      codes "incomplete command",
      mapping err_unknown_command (codes "Command is incomplete")
          (codes "Internal error - contact support") false,
    )
    ∷ (
      codes "invalid input",
      mapping err_unknown_command (codes "Invalid command syntax")
          (codes "Check command parameters") false,
    )
    ∷ (
      codes "timeout",
      mapping err_timeout (codes "Command timed out") (codes "Will retry with longer timeout") true,
    )
    ∷ (
      codes "connection reset",
      mapping err_conn_reset (codes "Lost connection to OLT") (codes "Will reconnect and retry")
          true,
    )
    ∷ (
      codes "connection refused",
      mapping err_conn_refuse (codes "Connection to OLT refused")
          (codes "Check OLT is reachable and SSH/Telnet is enabled") true,
    )
    ∷ (
      codes "authentication failed",
      mapping err_auth_failed (codes "Authentication failed") (codes "Check username and password")
          false,
    )
    ∷ (
      codes "access denied",
      mapping err_auth_failed (codes "Access denied") (codes "Verify user has admin privileges")
          false,
    )
    ∷ (
      codes "hardware fault",
      mapping err_hardware_fault (codes "OLT hardware fault detected")
          (codes "Check OLT hardware status and logs") false,
    )
    ∷ (
      codes "memory full",
      mapping err_memory_full (codes "OLT memory is full")
          (codes "Reboot OLT or clear old configurations") false,
    )
    ∷ []
