-- ===== src/Vsol/Wifi/Verified.antt =====
-- What a success of `SetWifiConfig` says where the readback is enabled.
use nano_southbound.Prelude.{
  ◌≡◌, refl, inl, inr, true, false, none, some, ℤ, arith, Option-cases, Bool-cases, if◌then◌else◌,
  is_empty, List,
}
use nano_southbound.Go.Text.{Text, text_eq_iff, trim_space}
use nano_southbound.Go.Result.{ok, Result-cases}
use nano_southbound.Vsol.Wifi.Running.{run_wifi_steps}
use nano_southbound.Vsol.Wifi.Commands.{
  WifiStep, WifiCommandProfile, in_interface, wifi_config_steps, pri_defaults,
}
use nano_southbound.Vsol.Wifi.Profiles.{
  resolve_wifi_target, is_omci_profile_ready, resolve_wifi_command_profile,
}
use nano_southbound.Types.Wifi.{WifiTarget, WifiConfig, WifiActionResult}
use nano_southbound.Go.Map.{Map}
use nano_southbound.Vsol.Wifi.Device.{Device}
use nano_southbound.Vsol.Wifi.Manager.{set_wifi_config}
use nano_southbound.Vsol.Wifi.Methods.{
  check_config, set_wifi, apply_steps, omci_wifi_readback_enabled, verify_wifi_apply,
  get_wifi_config, mismatch, apply_readback_failure,
}

module _ {S T : Type 0} (device : Device S) (metadata : Map Text) (now : S → T) where
  -- From the state `u` GetWifiConfig has asked the device, with success, and left the state `t`; the
  -- result shows the configuration that was read, and when.
  abbrev pub ReadBack : WifiTarget → WifiConfig → WifiActionResult T → S → S → Type 0
  ReadBack target got r u t =
      let readback = get_wifi_config device metadata now target u in
      (readback.1 ≡ t)
      × (readback.0.ok ≡ true)
      × (readback.0.observed_config ≡ some got)
      × (r.observed_config ≡ some got)
      × (r.observed_at ≡ readback.0.observed_at)

  -- What was read back is what was asked for.
  abbrev pub Observed : WifiTarget → WifiConfig → WifiActionResult T → S → S → Type 0
  Observed target expected r u t =
      (got : WifiConfig) × ReadBack target got r u t
      × (got.enabled ≡ expected.enabled)
      × (is_empty (trim_space expected.ssid) ≡ false → got.ssid ≡ expected.ssid)

  -- All the steps have been run, up to the state `u`.
  abbrev pub Applied : List WifiStep → S → S → Type 0
  Applied steps v u =
      ((run_wifi_steps device.exec_command now steps true v).0.ok ≡ true)
      × ((run_wifi_steps device.exec_command now steps true v).1 ≡ u)

  no_mismatch :
      (expected got : WifiConfig)
      → mismatch device metadata now expected got ≡ none
      → (got.enabled ≡ expected.enabled)
        × (is_empty (trim_space expected.ssid) ≡ false → got.ssid ≡ expected.ssid)
  no_mismatch expected got h =
      (ground arith, λ given. ground (arith, text_eq_iff got.ssid expected.ssid))

  verify_wifi_apply-Observed :
      (target : WifiTarget) (expected : WifiConfig) (result r : WifiActionResult T) (s t : S)
      → verify_wifi_apply device metadata now target expected result s ≡ (r, t)
      → r.ok ≡ true
      → Observed target expected r s t
  unfolding verify_wifi_apply apply_readback_failure
  verify_wifi_apply-Observed target expected result r s t h fine =
      let readback = (get_wifi_config device metadata now target s).0 in
      elim (Option-cases (if readback.ok then readback.observed_config else none)) [
        | inl missing ↦ absurd (ground arith)
        | inr (got, shown) ↦ elim (Option-cases (mismatch device metadata now expected got)) [
          | inr (reason, different) ↦ absurd (ground arith)
          | inl same ↦
              let (enabled, ssid) = no_mismatch expected got same in
              (
                got,
                (ground arith, ground arith, ground arith, ground arith, ground arith),
                enabled,
                ssid,
              )
        ]
      ]

  apply_steps-Observed :
      (target : WifiTarget) (expected : WifiConfig) (steps : List WifiStep) (s t : S)
      (cache left : Map Text) (r : WifiActionResult T)
      → omci_wifi_readback_enabled device metadata now ≡ true
      → apply_steps device metadata now target expected steps (s, cache) ≡ (r, (t, left))
      → r.ok ≡ true
      → (u : S) × Applied steps s u × Observed target expected r u t
  apply_steps-Observed target expected steps s t cache left r enabled h fine =
      let applied = run_wifi_steps device.exec_command now steps true s in
      elim (Bool-cases applied.0.ok) [
        | inr broken ↦ absurd (ground arith)
        | inl complete ↦ (
          applied.1,
          (complete, refl),
          verify_wifi_apply-Observed target expected applied.0 r applied.1 t (ground arith) fine,
        )
      ]

  set_wifi-Observed :
      (target : WifiTarget) (expected : WifiConfig) (steps : WifiCommandProfile → ℤ → List WifiStep)
      (s t : S) (cache left : Map Text) (r : WifiActionResult T)
      → omci_wifi_readback_enabled device metadata now ≡ true
      → set_wifi device metadata now target expected steps (s, cache) ≡ (r, (t, left))
      → r.ok ≡ true
      → (pon_port : Text) × (onu_id : ℤ) × (p : WifiCommandProfile) × (v : S) × (u : S)
        × ((resolve_wifi_target device metadata target s).0 ≡ ok (pon_port, onu_id))
        × Applied (in_interface pon_port (steps p onu_id)) v u
        × Observed target expected r u t
  unfolding set_wifi
  set_wifi-Observed target expected steps s t cache left r enabled h fine =
      let at = resolve_wifi_target device metadata target s in
      elim (Result-cases at.0) [
        | inr (refusal, bad) ↦ absurd (ground arith)
        | inl ((pon_port, onu_id), there) ↦
            let ready = is_omci_profile_ready device metadata pon_port onu_id at.1 in
            let profile =
              resolve_wifi_command_profile device metadata pon_port onu_id target.onu_serial
                (ready.1, cache) in
            elim (Bool-cases ready.0) [
              | inr unready ↦ absurd (ground arith)
              | inl omci ↦ elim (Result-cases profile.0) [
                | inr (m, unknown) ↦ absurd (ground arith)
                | inl (p, found) ↦
                    let (u, applied, observed) =
                      apply_steps-Observed target expected (in_interface pon_port (steps p onu_id))
                        profile.1.0 t profile.1.1 left r enabled (ground arith) fine in
                    (pon_port, onu_id, p, profile.1.0, u, there, applied, observed)
              ]
            ]
      ]

  -- The configuration has been applied from a call in the state `s` on, and read back.
  abbrev pub Confirmed : WifiTarget → WifiConfig → S → S → WifiActionResult T → Type 0
  Confirmed target cfg s t r =
      (pon_port : Text) × (onu_id : ℤ) × (p : WifiCommandProfile) × (v : S) × (u : S)
      × ((resolve_wifi_target device metadata target s).0 ≡ ok (pon_port, onu_id))
      × Applied (in_interface pon_port (wifi_config_steps p onu_id cfg (pri_defaults metadata))) v u
      × ((got : WifiConfig) × ReadBack target got r u t
          × (got.enabled ≡ cfg.enabled)
          × (got.ssid ≡ cfg.ssid))

  -- With the readback enabled, a configuration that succeeds has been applied, by the steps for it
  -- with some command profile on the ONU that the target resolves to, all of which succeeded. In the state that they left,
  -- GetWifiConfig has asked for the same target and succeeded, and it left the state that remains. What it
  -- read is what the result shows: a configuration whose switch is as asked for, and whose
  -- SSID is the one asked for, exactly as it was given.
  pub set_wifi_config-Observed :
      (target : WifiTarget) (cfg : WifiConfig) (s t : S) (cache left : Map Text)
      (r : WifiActionResult T)
      → omci_wifi_readback_enabled device metadata now ≡ true
      → set_wifi_config (some device) metadata now target cfg (s, cache) ≡ (r, (t, left))
      → r.ok ≡ true
      → Confirmed target cfg s t r
  unfolding set_wifi_config check_config
  set_wifi_config-Observed target cfg s t cache left r enabled h fine =
      elim (Option-cases (check_config cfg)) [
        | inr (refusal, bad) ↦ absurd (ground arith)
        | inl good ↦
            let (pon_port, onu_id, p, v, u, there, applied, (got, shown, switched, named)) =
              set_wifi-Observed target cfg
                (λ p onu_id. wifi_config_steps p onu_id cfg (pri_defaults metadata)) s t cache left
                r enabled (ground arith) fine in
            (
              pon_port,
              onu_id,
              p,
              v,
              u,
              there,
              applied,
              (got, shown, switched, named (ground arith)),
            )
      ]
