-- ===== src/Vsol/Wifi/Profiles.antt =====
-- vendors/vsol/wifi.go: the ONU that is meant, whether its profile is ready, and which commands it
-- understands, which is remembered. `metadata` is that of the adapter's configuration, which is given.
use nano_southbound.Prelude.{
  Bool, true, false, not, ◌&&◌, ◌||◌, Option, none, some, List, [], ◌∷◌, ◌++◌, if◌then◌else◌,
  is_empty, ℤ, pos, ltb_ℤ,
}
use nano_southbound.Go.Text.{Text, codes, trim_space, to_lower, contains, equal_fold, join}
use nano_southbound.Go.Map.{Map, lookup, insert}
use nano_southbound.Go.Number.{itoa}
use nano_southbound.Go.Quote.{quote}
use nano_southbound.Go.Result.{Result, ok, err}
use nano_southbound.Types.Wifi.{
  WifiTarget, WifiErrorCode, invalid_value, onu_not_found, onu_offline, internal_error,
}
use nano_southbound.Vsol.Wifi.Outputs.{
  classify_wifi_err_code, is_offline_state, parse_profile_omci_readiness,
}
use nano_southbound.Vsol.Wifi.Readback.{parse_onu_profile_name}
use nano_southbound.Vsol.Wifi.Commands.{
  WifiCommandProfile, legacy, pri, profile_text, normalize_wifi_command_profile, setting,
}
use nano_southbound.Vsol.Wifi.Device.{OnuInfo, Act, Device, get_onu_running_config}

-- An error before a step: its code and its reason
abbrev pub Refusal : Type 0
Refusal = WifiErrorCode × Text

abbrev refused : Text → Refusal
refused message = (classify_wifi_err_code (some message) [], message)

-- The first of the ONUs that has the serial number
unfoldable pub find_serial : Text → List OnuInfo → Option OnuInfo
find_serial serial [] = none
find_serial serial (onu ∷ onus) =
    let later = find_serial serial onus in
    if equal_fold (trim_space onu.serial) (trim_space serial) then some onu else later

unfoldable pub located : Option OnuInfo → Result Refusal (Text × ℤ)
located none = err (onu_not_found, codes "ONU not found in OLT inventory")
located (some onu) =
    if not onu.is_online || is_offline_state onu.oper_state
    then err (onu_offline, codes "ONU exists but is offline on OLT")
    else if is_empty onu.pon_port || not (ltb_ℤ (pos 0) onu.onu_id)
    then err (internal_error, codes "unable to resolve ONU coordinates from inventory")
    else ok (onu.pon_port, onu.onu_id)

-- outputs[1] of the listing of the profiles
abbrev second : List Text → Option Text
second (first ∷ wanted ∷ rest) = some wanted
second _ = none

module _ {S : Type 0} (device : Device S) (metadata : Map Text) where
  unfoldable pub resolve_wifi_target : WifiTarget → Act S Refusal (Text × ℤ)
  unfolding find_serial located
  resolve_wifi_target target s =
      let serial = trim_space target.onu_serial in
      let found = device.list_by_serial serial s in
      if not (is_empty target.pon_port) && ltb_ℤ (pos 0) target.onu_id
      then (ok (target.pon_port, target.onu_id), s)
      else if is_empty serial
      then (
        err (invalid_value, codes "onuSerial is required when ponPort/onuId are not provided"),
        s,
      )
      else (
        elim found.0 [ err m ↦ err (refused m) | ok onus ↦ located (find_serial serial onus) ],
        found.1,
      )

  unfoldable pub is_onu_profile_omci_ready : Text → S → Bool × S
  is_onu_profile_omci_ready profile_name s =
      let r =
        device.exec_commands
          (codes "configure terminal" ∷ codes "show profile onu" ∷ codes "end" ∷ []) s in
      if is_empty (trim_space profile_name) then (false, s) else (
        elim r.0.1 [
          | some m ↦ false
          | none ↦ elim (second r.0.0) [
            | none ↦ false
            | some output ↦ parse_profile_omci_readiness output profile_name
          ]
        ],
        r.1,
      )

  unfoldable pub is_omci_profile_ready : Text → ℤ → S → Bool × S
  unfolding is_onu_profile_omci_ready
  is_omci_profile_ready pon_port onu_id s =
      let r = get_onu_running_config device pon_port onu_id s in
      if equal_fold
        (elim (lookup (codes "skip_omci_profile_check") metadata) [ none ↦ [] | some v ↦ v ])
        (codes "true")
      then (true, s)
      else elim r.0 [
        | err m ↦ (false, r.1)
        | ok raw ↦
            if contains (to_lower raw) (codes "wifi-mng-via-non-omci disable")
              || contains (to_lower raw) (codes "wifi management omci")
            then (true, r.1)
            else elim (parse_onu_profile_name raw) [
              | none ↦ (false, r.1)
              | some name ↦ is_onu_profile_omci_ready (trim_space name) r.1
            ]
      ]

  -- `wifi_command_profile` of the metadata: an error where it names no profile
  unfoldable pub forced_wifi_command_profile : Result Text (Option WifiCommandProfile)
  forced_wifi_command_profile =
      let raw = setting (codes "wifi_command_profile") metadata in
      if is_empty raw then ok none else elim (normalize_wifi_command_profile raw) [
        | none ↦ err (codes "unsupported operation: invalid wifi_command_profile " ++ quote raw)
        | some p ↦ ok (some p)
      ]

  abbrev model_setting : Text
  model_setting = to_lower (setting (codes "model") metadata)

  abbrev firmware_setting : Text
  firmware_setting = to_lower (setting (codes "firmware") metadata)

  -- The model of an ONU that the device lists, or nothing
  abbrev listed_model : Result Text (Option OnuInfo) → Text
  listed_model (err m) = []
  listed_model (ok none) = []
  listed_model (ok (some onu)) = to_lower (trim_space onu.model)

  unfoldable pub hint_wifi_command_profile : Text → S → Option WifiCommandProfile × S
  hint_wifi_command_profile serial s =
      let r = device.get_by_serial serial s in
      let asks = is_empty model_setting && not (is_empty (trim_space serial)) in
      let model = if asks then listed_model r.0 else model_setting in
      (
        if contains model (codes "v1600g") || contains firmware_setting (codes "v2.1.6r")
            then some pri
            else none,
        if asks then r.1 else s,
      )

  -- `detectModel`
  abbrev detected_model : Text
  detected_model = elim (lookup (codes "model") metadata) [ none ↦ codes "v1600g" | some m ↦ m ]

  unfoldable pub wifi_command_profile_cache_key : Text → Text → ℤ → Text
  wifi_command_profile_cache_key serial pon_port onu_id =
      let model =
        if is_empty model_setting then to_lower (trim_space detected_model) else model_setting in
      let own = to_lower (trim_space serial) in
      let onu_key = if is_empty own then pon_port ++ (codes ":" ++ itoa onu_id) else own in
      join (codes "vsol" ∷ model ∷ firmware_setting ∷ onu_key ∷ []) (codes "|")

  abbrev probe_commands : Text → ℤ → Text → List Text
  probe_commands pon_port onu_id command =
      codes "configure terminal"
      ∷ (codes "interface gpon " ++ pon_port)
      ∷ (codes "onu " ++ (itoa onu_id ++ command))
      ∷ codes "exit"
      ∷ codes "end"
      ∷ []

  abbrev answered : (Text → Bool) → List Text × Option Text → Bool
  answered test (outputs, some m) = false
  answered test (outputs, none) = test (to_lower (join outputs (codes "\n")))

  abbrev knows_pri : Text → Bool
  knows_pri joined = contains joined (codes "wifi_ssid") && contains joined (codes "wifi_switch")

  abbrev knows_legacy : Text → Bool
  knows_legacy joined =
      contains joined (codes "ssid")
      && not (contains joined (codes "unknown command"))
      && not (contains joined (codes "no matched command"))

  unfoldable pub probe_wifi_command_profile : Text → ℤ → S → Option WifiCommandProfile × S
  probe_wifi_command_profile pon_port onu_id s =
      let r = device.exec_commands (probe_commands pon_port onu_id (codes " pri ?")) s in
      let q = device.exec_commands (probe_commands pon_port onu_id (codes " wifi ?")) r.1 in
      if answered knows_pri r.0
      then (some pri, r.1)
      else (if answered knows_legacy q.0 then some legacy else none, q.1)

  -- The cache, whose texts are names of profiles
  abbrev pub cached : Text → Map Text → Option WifiCommandProfile
  cached key cache = elim (lookup key cache) [
    | none ↦ none
    | some raw ↦ normalize_wifi_command_profile raw
  ]

  abbrev remember :
      Text → WifiCommandProfile → S × Map Text → Result Text WifiCommandProfile × (S × Map Text)
  remember key p (s, cache) = (ok p, (s, insert key (profile_text p) cache))

  abbrev unresolved : Text → ℤ → Text
  unresolved pon_port onu_id =
      codes "unsupported operation: unresolved Wi-Fi command profile for onu "
      ++ (itoa onu_id
          ++ (codes " on gpon " ++ (pon_port ++ codes " (set metadata wifi_command_profile)")))

  unfoldable pub resolve_wifi_command_profile :
      Text → ℤ → Text → Act (S × Map Text) Text WifiCommandProfile
  unfolding hint_wifi_command_profile probe_wifi_command_profile forced_wifi_command_profile
  resolve_wifi_command_profile pon_port onu_id serial (s, cache) =
      let key = wifi_command_profile_cache_key serial pon_port onu_id in
      let hinted = hint_wifi_command_profile serial s in
      let probed = probe_wifi_command_profile pon_port onu_id hinted.1 in
      elim forced_wifi_command_profile [
        | err m ↦ (err m, (s, cache))
        | ok (some p) ↦ (ok p, (s, cache))
        | ok none ↦ elim (cached key cache) [
          | some p ↦ (ok p, (s, cache))
          | none ↦ elim hinted.0 [
            | some p ↦ remember key p (hinted.1, cache)
            | none ↦ elim probed.0 [
              | some p ↦ remember key p (probed.1, cache)
              | none ↦ (err (unresolved pon_port onu_id), (probed.1, cache))
            ]
          ]
        ]
      ]
