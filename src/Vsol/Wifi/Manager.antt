-- ===== src/Vsol/Wifi/Manager.antt =====
-- vendors/vsol/wifi.go: `SetWifiConfig`, `SetWifiEnabled` and `ProbeWifiCapabilities`, which are refused
-- where there is no CLI executor.
use nano_southbound.Prelude.{
  Bool, true, false, Option, none, some, List, [], ◌∷◌, ◌++◌, if◌then◌else◌, ℤ,
}
use nano_southbound.Go.Text.{Text, codes, to_lower, contains, join}
use nano_southbound.Go.Map.{Map}
use nano_southbound.Go.Number.{itoa}
use nano_southbound.Go.Result.{ok, err}
use nano_southbound.Types.Wifi.{
  WifiTarget, WifiConfig, no_error, pri_unsupported, WifiActionResult, WifiProbeResult,
}
use nano_southbound.Vsol.Wifi.Outputs.{classify_wifi_err_code}
use nano_southbound.Vsol.Wifi.Commands.{
  WifiStep, WifiCommandProfile, legacy, pri, pri_defaults, wifi_config_steps, wifi_enable_command,
  plain_step,
}
use nano_southbound.Vsol.Wifi.Device.{Device}
use nano_southbound.Vsol.Wifi.Profiles.{
  Refusal, resolve_wifi_target, is_omci_profile_ready, resolve_wifi_command_profile,
}
use nano_southbound.Vsol.Wifi.Methods.{cli_missing, refusal_of, check_config, set_wifi}

abbrev probe_result : Bool → Text → Text → Refusal → Text → WifiProbeResult
probe_result ready command_profile method (code, reason) raw = record {
  ok = false;
  supports_omci_wifi = false;
  profile_omci_ready = ready;
  command_profile = command_profile;
  probe_method = method;
  error_code = code;
  reason = reason;
  raw_output = raw;
}

abbrev supported : Bool → Text → Text → Text → WifiProbeResult
supported ready command_profile method raw =
    record (probe_result ready command_profile method (no_error, []) raw) {
      ok = ready;
      supports_omci_wifi = ready;
    }

-- Whether the ONU understands the private protocol, the output, and an error
unfoldable pub probe_pri_wifi_onu_support :
    {S : Type 0} → Device S → Text → ℤ → S → (Bool × Text × Option Text) × S
probe_pri_wifi_onu_support device pon_port onu_id s =
    let r =
      device.exec_commands
        (codes "configure terminal"
          ∷ (codes "interface gpon " ++ pon_port)
          ∷ (codes "onu " ++ (itoa onu_id ++ codes " pri wifi_switch 1 disable"))
          ∷ codes "exit"
          ∷ codes "end"
          ∷ [])
        s in
    let joined = join r.0.0 (codes "\n") in
    (
      elim r.0.1 [
        | some m ↦ (false, joined, some m)
        | none ↦
            if contains (to_lower joined) (codes "unsupport private protocol")
            then (false, joined, none)
            else if contains (to_lower joined) (codes "not found")
            then (false, joined, some (codes "ONU not found on OLT"))
            else (true, joined, none)
      ],
      r.1,
    )

abbrev pri_result : Bool → Bool × Text × Option Text → WifiProbeResult
pri_result ready (understood, raw, some m) =
    probe_result ready (codes "pri") (codes "pri_cli_probe")
      (classify_wifi_err_code (some m) raw, m) raw
pri_result ready (false, raw, none) =
    probe_result ready (codes "pri") (codes "pri_cli_probe")
      (pri_unsupported, codes "ONU firmware does not support PRI private protocol") raw
pri_result ready (true, raw, none) = supported ready (codes "pri") (codes "pri_cli_probe") raw

module _ {S T : Type 0} (cli : Option (Device S)) (metadata : Map Text) (now : S → T) where
  abbrev set_steps : WifiConfig → WifiCommandProfile → ℤ → List WifiStep
  set_steps cfg p onu_id = wifi_config_steps p onu_id cfg (pri_defaults metadata)

  unfoldable pub set_wifi_config :
      WifiTarget → WifiConfig → S × Map Text → WifiActionResult T × (S × Map Text)
  unfolding set_wifi check_config
  set_wifi_config target cfg s = elim cli [
    | none ↦ (refusal_of cli_missing, s)
    | some device ↦ elim (check_config cfg) [
      | some refusal ↦ (refusal_of refusal, s)
      | none ↦ set_wifi device metadata now target cfg (set_steps cfg) s
    ]
  ]

  abbrev enable_steps : Bool → WifiCommandProfile → ℤ → List WifiStep
  enable_steps enabled p onu_id =
      plain_step (codes "ENABLE_WIFI")
        (wifi_enable_command p onu_id enabled (pri_defaults metadata))
      ∷ []

  unfoldable pub set_wifi_enabled :
      WifiTarget → Bool → S × Map Text → WifiActionResult T × (S × Map Text)
  unfolding set_wifi
  set_wifi_enabled target enabled s = elim cli [
    | none ↦ (refusal_of cli_missing, s)
    | some device ↦
        set_wifi device metadata now target (record { ssid = []; password = []; enabled = enabled })
          (enable_steps enabled) s
  ]

  unfoldable pub probe_wifi_capabilities :
      WifiTarget → S × Map Text → WifiProbeResult × (S × Map Text)
  unfolding probe_pri_wifi_onu_support
  probe_wifi_capabilities target (s, cache) = elim cli [
    | none ↦ (probe_result false [] [] cli_missing [], (s, cache))
    | some device ↦
        let at = resolve_wifi_target device metadata target s in
        elim at.0 [
          | err refusal ↦ (probe_result false [] [] refusal [], (at.1, cache))
          | ok (pon_port, onu_id) ↦
              let ready = is_omci_profile_ready device metadata pon_port onu_id at.1 in
              let profile =
                resolve_wifi_command_profile device metadata pon_port onu_id target.onu_serial
                  (ready.1, cache) in
              elim profile.0 [
                | err m ↦ (
                  probe_result ready.0 [] (codes "profile_resolve")
                      (classify_wifi_err_code (some m) [], m) [],
                  profile.1,
                )
                | ok legacy ↦
                    (supported ready.0 (codes "legacy") (codes "profile_check") [], profile.1)
                | ok pri ↦
                    let r = probe_pri_wifi_onu_support device pon_port onu_id profile.1.0 in
                    (pri_result ready.0 r.0, (r.1, profile.1.1))
              ]
        ]
  ]
