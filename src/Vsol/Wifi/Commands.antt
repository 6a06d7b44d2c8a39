-- ===== src/Vsol/Wifi/Commands.antt =====
-- vendors/vsol/wifi.go: the steps of a configuration and their commands.
use nano_southbound.Prelude.{
  Bool, true, false, not, ◌&&◌, Option, none, some, List, [], ◌∷◌, ◌++◌, if◌then◌else◌, is_empty, ℤ,
  pos, ltb_ℤ,
}
use nano_southbound.Go.Text.{Text, codes, trim_space, to_lower, text_eq}
use nano_southbound.Go.Map.{Map, lookup}
use nano_southbound.Go.Number.{itoa, atoi, success}
use nano_southbound.Go.Quote.{quote}
use nano_southbound.Types.Wifi.{WifiConfig}

pub record WifiStep : Type 0 where
  pub name : Text
  pub command : Text
  pub sensitive : Bool

pub data WifiCommandProfile : Type 0 where
  legacy : WifiCommandProfile
  pri : WifiCommandProfile

-- `string(profile)`
abbrev pub profile_text : WifiCommandProfile → Text
profile_text legacy = codes "legacy"
profile_text pri = codes "pri"

-- None is the empty profile.
unfoldable pub normalize_wifi_command_profile : Text → Option WifiCommandProfile
normalize_wifi_command_profile v =
    let low = to_lower (trim_space v) in
    if text_eq low (codes "legacy")
    then some legacy
    else if text_eq low (codes "pri")
    then some pri
    else none

pub record PriWifiDefaults : Type 0 where
  pub country : Text
  pub channel : Text
  pub standard : Text
  pub power : ℤ
  pub width : Text

-- metadata[key] without blanks; a key that is missing reads as the empty text.
abbrev pub setting : Text → Map Text → Text
setting key m = elim (lookup key m) [ none ↦ [] | some v ↦ trim_space v ]

abbrev or_keep : Text → Text → Text
or_keep v kept = if is_empty v then kept else v

abbrev power_of : Option ℤ → ℤ
power_of none = pos 10
power_of (some p) = if not (ltb_ℤ p (pos 0)) && not (ltb_ℤ (pos 20) p) then p else pos 10

-- `metadata` is empty where the configuration or its metadata is nil.
unfoldable pub pri_defaults : Map Text → PriWifiDefaults
pri_defaults metadata = record {
  country = or_keep (setting (codes "wifi_pri_country") metadata) (codes "global");
  channel = or_keep (setting (codes "wifi_pri_channel") metadata) (codes "auto");
  standard = or_keep (setting (codes "wifi_pri_standard") metadata) (codes "80211acanac");
  power = power_of (success (atoi (setting (codes "wifi_pri_power") metadata)));
  width = setting (codes "wifi_pri_width") metadata;
}

unfoldable pub quote_arg : Text → Text
quote_arg v = quote (trim_space v)

abbrev pub onu : ℤ → Text → Text
onu onu_id rest = codes "onu " ++ (itoa onu_id ++ rest)

unfoldable pub wifi_enable_command : WifiCommandProfile → ℤ → Bool → PriWifiDefaults → Text
wifi_enable_command pri onu_id true d = onu onu_id (
    codes " pri wifi_switch 1 enable "
    ++ (d.country
        ++ (codes " "
            ++ (d.channel
                ++ (codes " "
                    ++ (d.standard
                        ++ (codes " "
                            ++ (itoa d.power
                                ++ (if is_empty (trim_space d.width)
                                    then []
                                    else codes " " ++ d.width)))))))))
wifi_enable_command pri onu_id false d = onu onu_id (codes " pri wifi_switch 1 disable")
wifi_enable_command legacy onu_id true d = onu onu_id (codes " wifi enable")
wifi_enable_command legacy onu_id false d = onu onu_id (codes " wifi disable")

unfoldable pub pri_ssid_command : ℤ → WifiConfig → Text
unfolding quote_arg
pri_ssid_command onu_id cfg =
    let ssid = quote_arg (trim_space cfg.ssid) in
    let password = trim_space cfg.password in
    onu onu_id (
      codes " pri wifi_ssid 1 name "
      ++ (ssid
          ++ (if is_empty password
              then codes " hide disable auth_mode open encrypt_type none"
              else codes " hide disable auth_mode wpa2psk encrypt_type aes shared_key "
                ++ (quote_arg password ++ codes " rekey_interval 3600"))))

abbrev pub plain_step : Text → Text → WifiStep
plain_step name command = record { name = name; command = command; sensitive = false }

abbrev password_steps : ℤ → Text → List WifiStep
password_steps onu_id password =
    if is_empty (trim_space password)
    then []
    else record {
      name = codes "SET_PASSWORD";
      command = onu onu_id (codes " wifi password " ++ quote_arg password);
      sensitive = true;
    }
      ∷ []

unfoldable pub wifi_config_steps :
    WifiCommandProfile → ℤ → WifiConfig → PriWifiDefaults → List WifiStep
unfolding wifi_enable_command pri_ssid_command
wifi_config_steps pri onu_id cfg d =
    record {
      name = codes "SET_SSID";
      command = pri_ssid_command onu_id cfg;
      sensitive = not (is_empty (trim_space cfg.password));
    }
    ∷ plain_step (codes "ENABLE_WIFI") (wifi_enable_command pri onu_id cfg.enabled d)
    ∷ []
wifi_config_steps legacy onu_id cfg d =
    plain_step (codes "SET_SSID") (onu onu_id (codes " wifi ssid " ++ quote_arg cfg.ssid))
    ∷ (password_steps onu_id cfg.password
        ++ plain_step (codes "ENABLE_WIFI") (wifi_enable_command legacy onu_id cfg.enabled d) ∷ [])

-- The steps around those of a configuration
unfoldable pub in_interface : Text → List WifiStep → List WifiStep
in_interface pon_port steps =
    plain_step (codes "ENTER_CONFIG") (codes "configure terminal")
    ∷ plain_step (codes "ENTER_PON_INTERFACE") (codes "interface gpon " ++ pon_port)
    ∷ (steps
        ++ plain_step (codes "EXIT_INTERFACE") (codes "exit")
          ∷ plain_step (codes "COMMIT") (codes "end")
          ∷ [])
