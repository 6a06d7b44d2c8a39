-- ===== src/Tests/Wifi.antt =====
-- The theorems about the Wi-Fi and the bandwidths of V-SOL at concrete inputs.
use nano_southbound.Prelude.{
  ℕ, suc, ◌≡◌, ◌==◌, ◌⊎◌, refl, true, Option, none, some, List, [], ◌∷◌, ◌++◌, pos, if◌then◌else◌,
}
use nano_southbound.Go.Text.{
  Text, codes, text_eq, contains, to_lower, join, trim_space, trim_left, trim_right, equal_fold,
}
use nano_southbound.Go.Map.{Map, lookup, insert}
use nano_southbound.Go.Number.{itoa}
use nano_southbound.Go.Result.{ok}
use nano_southbound.Types.Wifi.{WifiTarget, WifiConfig, WifiActionResult}
use nano_southbound.Vsol.Session.{Executor}
use nano_southbound.Vsol.TrafficProfile.{create_traffic_profile}
use nano_southbound.Vsol.ProfileText.{validate_profile_name, detect_profile_cli_errors}
use nano_southbound.Vsol.Wifi.Manager.{set_wifi_config}
use nano_southbound.Vsol.Wifi.Methods.{omci_wifi_readback_enabled}
use nano_southbound.Vsol.Wifi.Verified.{Confirmed, set_wifi_config-Observed}
use nano_southbound.Vsol.Bandwidth.{
  ProfileCache, traffic_profile, find_or_create_bandwidth_profiles_cached,
}
use nano_southbound.Vsol.Bandwidth.Warm.{
  Kept, RacedDba, RacedTraffic, names_of, find_or_create_bandwidth_profiles_cached_again,
}
use nano_southbound.Vsol.Wifi.Commands.{
  WifiStep, normalize_wifi_command_profile, wifi_config_steps, plain_step, pri, onu, quote_arg,
  in_interface,
}
use nano_southbound.Vsol.Wifi.Outputs.{redact_password}
use nano_southbound.Vsol.Wifi.Running.{Sender, run_wifi_steps}
use nano_southbound.Vsol.Wifi.Applying.{Completes, BreaksOff, precheck_names, run_wifi_steps-cases}
use nano_southbound.Vsol.Wifi.Redaction.{redact_password-echo}
use nano_southbound.Vsol.Wifi.Device.{Device, get_onu_running_config}
use nano_southbound.Vsol.Wifi.Readback.{parse_wifi_readback_from_running_config}
use nano_southbound.Vsol.Wifi.Profiles.{
  resolve_wifi_target, is_omci_profile_ready, resolve_wifi_command_profile,
  wifi_command_profile_cache_key,
}
use nano_southbound.Vsol.Wifi.Remembered.{resolve_wifi_command_profile_again}

-- The device fails at the third command; its state is the number of commands.
abbrev answer_of : ℕ → Text × Option Text
answer_of n = if n == 2 then (codes "% Unknown command", none) else ([], none)

abbrev sender : Sender ℕ
sender command n = (answer_of n, suc n)

abbrev steps : List WifiStep
steps =
    in_interface (codes "0/1") (plain_step (codes "ENABLE_WIFI") (codes "onu 1 wifi enable") ∷ [])

abbrev clock : ℕ → ℕ
clock n = n

run_wifi_steps-cases_example :
    Completes sender clock steps
      (precheck_names sender clock true)
      0
      (run_wifi_steps sender clock steps true 0).0
      (run_wifi_steps sender clock steps true 0).1
    ⊎ BreaksOff sender clock steps 0
        (precheck_names sender clock true)
        0
        (run_wifi_steps sender clock steps true 0).0
        (run_wifi_steps sender clock steps true 0).1
run_wifi_steps-cases_example =
    run_wifi_steps-cases sender clock steps true 0 (run_wifi_steps sender clock steps true 0).1
      (run_wifi_steps sender clock steps true 0).0 refl

redact_password-echo_example :
    redact_password
      (onu (pos 7) (codes " wifi password " ++ quote_arg (codes " s3cret word ")) ++ [])
    ≡ onu (pos 7) (codes " wifi password <redacted>") ++ redact_password []
unfolding trim_space trim_left trim_right
redact_password-echo_example = redact_password-echo 7 (codes " s3cret word ") [] refl

-- A device that counts its batches
abbrev counting : Device ℕ
counting = record {
  exec_commands = λ commands n. ((commands, none), suc n);
  exec_command = λ command n. (([], none), suc n);
  list_by_serial = λ serial n. (ok [], suc n);
  get_by_serial = λ serial n. (ok none, suc n);
}

abbrev metadata : Map Text
metadata = (codes "model", codes "V1600G1") ∷ []

resolve_wifi_command_profile_again_example :
    resolve_wifi_command_profile counting metadata
      (codes "0/1")
      (pos 3)
      (codes "ABCD")
      (5, insert (codes "vsol|v1600g1||abcd") (codes "pri") [])
    ≡ (ok pri, (5, insert (codes "vsol|v1600g1||abcd") (codes "pri") []))
unfolding resolve_wifi_command_profile lookup text_eq contains to_lower trim_space
    wifi_command_profile_cache_key join
resolve_wifi_command_profile_again_example =
    resolve_wifi_command_profile_again counting metadata (codes "0/1") (pos 3) (codes "ABCD") pri 0
      0 5 [] (insert (codes "vsol|v1600g1||abcd") (codes "pri") []) refl

-- A device that knows no profile and answers every batch with nothing
abbrev silent : Executor ℕ
silent commands n = (ok [], suc n)

abbrev cache : ProfileCache
cache = record { dba_profiles = []; traffic_profiles = [] }

abbrev cache_after : ProfileCache
cache_after = record {
  dba_profiles = [];
  traffic_profiles = traffic_profile (codes "nano_traffic_512") (pos 512) ∷ [];
}

find_or_create_bandwidth_profiles_cached_again_example :
    (d : ProfileCache) × (some cache_after ≡ some d)
    × (names_of (pos 0) (pos 512) ≡ names_of (pos 0) (pos 512))
    × Kept cache d
    × (((u : ℕ)
          → find_or_create_bandwidth_profiles_cached (some silent) (pos 0) (pos 512) (u, some d)
            ≡ (ok (names_of (pos 0) (pos 512)), (u, some d)))
        ⊎ (RacedDba (some silent) (pos 0)
            ⊎ (RacedTraffic (some silent) (pos 0) ⊎ RacedTraffic (some silent) (pos 512))))
unfolding find_or_create_bandwidth_profiles_cached create_traffic_profile validate_profile_name itoa
    detect_profile_cli_errors
find_or_create_bandwidth_profiles_cached_again_example =
    find_or_create_bandwidth_profiles_cached_again (some silent) (pos 0) (pos 512) 0 2 cache
      (some cache_after) (names_of (pos 0) (pos 512)) refl

-- A device with an ONU whose Wi-Fi is as asked for
abbrev running : Device ℕ
running = record {
  exec_commands = λ commands n.
      ((codes "onu 3 wifi ssid \"home\"\nonu 3 wifi enabled enable" ∷ [], none), suc n);
  exec_command = λ command n. (([], none), suc n);
  list_by_serial = λ serial n. (ok [], suc n);
  get_by_serial = λ serial n. (ok none, suc n);
}

abbrev read_back : Map Text
read_back =
    (codes "omci_wifi_readback", codes "true")
    ∷ (codes "skip_omci_profile_check", codes "TRUE")
    ∷ (codes "wifi_command_profile", codes "legacy")
    ∷ []

abbrev home : WifiConfig
home = record { ssid = codes "home"; password = []; enabled = true }

abbrev onu_three : WifiTarget
onu_three = record { onu_serial = []; pon_port = codes "0/1"; onu_id = pos 3 }

abbrev applied : WifiActionResult ℕ × (ℕ × Map Text)
applied = set_wifi_config (some running) read_back clock onu_three home (0, [])

set_wifi_config-Observed_example :
    Confirmed running read_back clock onu_three home 0 applied.1.0 applied.0
unfolding set_wifi_config omci_wifi_readback_enabled equal_fold lookup trim_space
    resolve_wifi_target is_omci_profile_ready resolve_wifi_command_profile
    normalize_wifi_command_profile run_wifi_steps in_interface contains wifi_config_steps
    get_onu_running_config parse_wifi_readback_from_running_config join
set_wifi_config-Observed_example =
    set_wifi_config-Observed running read_back clock onu_three home 0 applied.1.0 [] applied.1.1
      applied.0 refl refl refl
