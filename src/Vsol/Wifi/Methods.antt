-- ===== src/Vsol/Wifi/Methods.antt =====
-- vendors/vsol/wifi.go: the methods of `types.WifiManager`. `GetWifiConfig` is given where there is a CLI
-- executor.
use nano_southbound.Prelude.{
  Bool, true, false, not, ◌&&◌, Option, none, some, List, [], ◌∷◌, ◌++◌, if◌then◌else◌, is_empty, ℤ,
  length, ltb,
}
use nano_southbound.Go.Text.{Text, codes, trim_space, equal_fold, text_eq}
use nano_southbound.Go.Map.{Map, lookup}
use nano_southbound.Go.Quote.{quote}
use nano_southbound.Go.Result.{ok, err}
use nano_southbound.Types.Wifi.{
  WifiTarget, WifiConfig, WifiErrorCode, no_error, profile_not_omci_ready, partial_apply,
  readback_unavailable, invalid_value, internal_error, WifiActionResult, source_omci_readback,
}
use nano_southbound.Vsol.Wifi.Outputs.{classify_wifi_err_code, redact_password}
use nano_southbound.Vsol.Wifi.Readback.{parse_wifi_readback_from_running_config}
use nano_southbound.Vsol.Wifi.Commands.{WifiStep, WifiCommandProfile, in_interface, onu}
use nano_southbound.Vsol.Wifi.Running.{run_wifi_steps}
use nano_southbound.Vsol.Wifi.Device.{Device, get_onu_running_config}
use nano_southbound.Vsol.Wifi.Profiles.{
  Refusal, resolve_wifi_target, is_omci_profile_ready, resolve_wifi_command_profile,
}

module _ {T : Type 0} where
  -- A result with no events and nothing observed
  abbrev pub refusal_of : Refusal → WifiActionResult T
  refusal_of (code, reason) = record {
    ok = false;
    error_code = code;
    reason = reason;
    raw_output = [];
    observed_config = none;
    observed_source = none;
    observed_at = none;
    failed_step = [];
    events = [];
  }

  -- The same with the step that it stands for
  abbrev pub failed_at : Text → T → Text → Refusal → WifiActionResult T
  failed_at step now detail refusal = record (refusal_of refusal) {
    failed_step = step;
    events = record { step = step; ok = false; timestamp = now; detail = detail } ∷ [];
  }

  -- `applyReadbackFailure`
  unfoldable pub apply_readback_failure :
      T → WifiActionResult T → WifiErrorCode → Text → WifiActionResult T
  apply_readback_failure now result code reason = record result {
    ok = false;
    error_code = code;
    failed_step = codes "READBACK_VERIFY";
    reason = redact_password reason;
    events =
        result.events
        ++ record {
          step = codes "READBACK_VERIFY";
          ok = false;
          timestamp = now;
          detail = redact_password reason;
        }
          ∷ [];
  }

abbrev pub cli_missing : Refusal
cli_missing = (internal_error, codes "CLI executor not available")

abbrev bool_text : Bool → Text
bool_text true = codes "true"
bool_text false = codes "false"

-- The SSID and the password are looked at before the target.
unfoldable pub check_config : WifiConfig → Option Refusal
check_config cfg =
    if is_empty (trim_space cfg.ssid)
    then some (invalid_value, codes "SSID is required")
    else if ltb 0 (length cfg.password) && ltb (length cfg.password) 8
    then some (invalid_value, codes "password must be at least 8 characters")
    else none

module _ {S T : Type 0} (device : Device S) (metadata : Map Text) (now : S → T) where
  abbrev pub State : Type 0
  State = S × Map Text

  unfoldable pub omci_wifi_readback_enabled : Bool
  omci_wifi_readback_enabled =
      equal_fold (elim (lookup (codes "omci_wifi_readback") metadata) [ none ↦ [] | some v ↦ v ])
        (codes "true")

  abbrev observed_in : Text → S → WifiActionResult T
  observed_in raw s = elim (parse_wifi_readback_from_running_config raw) [
    | some cfg ↦ record (refusal_of (no_error, [])) {
      ok = true;
      observed_config = some cfg;
      observed_source = some source_omci_readback;
      observed_at = some (now s);
      raw_output = raw;
    }
    | none ↦
        record (failed_at (codes "READBACK") (now s) (codes "parser unavailable") (
          readback_unavailable,
          codes "running config captured but Wi-Fi readback parser not yet enabled",
        )) { raw_output = raw }
  ]

  abbrev read_config : Text × ℤ → S → WifiActionResult T × S
  read_config (pon_port, onu_id) s =
      let r = get_onu_running_config device pon_port onu_id s in
      if omci_wifi_readback_enabled
      then (
        elim r.0 [
          | err m ↦ refusal_of (classify_wifi_err_code (some m) [], redact_password m)
          | ok raw ↦ observed_in (redact_password raw) r.1
        ],
        r.1,
      )
      else (
        failed_at (codes "READBACK") (now s) (codes "readback not supported") (
          readback_unavailable,
          codes "OMCI readback unavailable for this ONU model or environment",
        ),
        s,
      )

  unfoldable pub get_wifi_config : WifiTarget → S → WifiActionResult T × S
  get_wifi_config target s =
      let at = resolve_wifi_target device metadata target s in
      elim at.0 [ err refusal ↦ (refusal_of refusal, at.1) | ok onu ↦ read_config onu at.1 ]

  -- What is wrong with what was read back
  abbrev pub mismatch : WifiConfig → WifiConfig → Option Text
  mismatch expected got =
      if not (is_empty (trim_space expected.ssid)) && not (text_eq got.ssid expected.ssid)
      then some (
          codes "Wi-Fi readback mismatch (expected ssid="
          ++ (quote expected.ssid ++ (codes " got=" ++ (quote got.ssid ++ codes ")"))))
      else elim got.enabled [
        | true ↦ elim expected.enabled [
          | true ↦ none
          | false ↦ some (codes "Wi-Fi readback mismatch (expected enabled=false got=true)")
        ]
        | false ↦ elim expected.enabled [
          | true ↦ some (codes "Wi-Fi readback mismatch (expected enabled=true got=false)")
          | false ↦ none
        ]
      ]

  abbrev readback_reason : Text → Text
  readback_reason reason =
      if is_empty (trim_space reason)
      then codes "Wi-Fi apply sent but readback unavailable"
      else reason

  unfoldable pub verify_wifi_apply :
      WifiTarget → WifiConfig → WifiActionResult T → S → WifiActionResult T × S
  unfolding get_wifi_config apply_readback_failure
  verify_wifi_apply target expected result s =
      let readback = (get_wifi_config target s).0 in
      let t = (get_wifi_config target s).1 in
      (
        elim (if readback.ok then readback.observed_config else none) [
          | none ↦
              apply_readback_failure (now t) result readback_unavailable
                (readback_reason readback.reason)
          | some got ↦ elim (mismatch expected got) [
            | some reason ↦ apply_readback_failure (now t) result partial_apply reason
            | none ↦ record result {
              observed_config = some got;
              observed_source = readback.observed_source;
              observed_at = readback.observed_at;
              events =
                  result.events
                  ++ record {
                    step = codes "READBACK_VERIFY";
                    ok = true;
                    timestamp = now t;
                    detail = [];
                  }
                    ∷ [];
            }
          ]
        ],
        t,
      )

  -- The steps, and then the readback where it is enabled
  abbrev pub apply_steps :
      WifiTarget → WifiConfig → List WifiStep → State → WifiActionResult T × State
  apply_steps target expected steps (s, cache) =
      let applied = run_wifi_steps device.exec_command now steps true s in
      let verified = verify_wifi_apply target expected applied.0 applied.1 in
      if applied.0.ok && omci_wifi_readback_enabled
      then (verified.0, (verified.1, cache))
      else (applied.0, (applied.1, cache))

  -- What `SetWifiConfig` and `SetWifiEnabled` have in common
  unfoldable pub set_wifi :
      WifiTarget
      → WifiConfig
      → (WifiCommandProfile → ℤ → List WifiStep)
      → State
      → WifiActionResult T × State
  unfolding verify_wifi_apply
  set_wifi target expected steps (s, cache) =
      let at = resolve_wifi_target device metadata target s in
      elim at.0 [
        | err refusal ↦ (refusal_of refusal, (at.1, cache))
        | ok (pon_port, onu_id) ↦
            let ready = is_omci_profile_ready device metadata pon_port onu_id at.1 in
            let profile =
              resolve_wifi_command_profile device metadata pon_port onu_id target.onu_serial
                (ready.1, cache) in
            if ready.0
            then elim profile.0 [
              | err m ↦ (refusal_of (classify_wifi_err_code (some m) [], m), profile.1)
              | ok p ↦
                  apply_steps target expected (in_interface pon_port (steps p onu_id)) profile.1
            ]
            else (
              failed_at (codes "PROFILE_OMCI_PRECHECK") (now ready.1) []
                  (profile_not_omci_ready, codes "profile not configured for OMCI Wi-Fi"),
              (ready.1, cache),
            )
      ]
