-- ===== src/Types/OnuProfile.antt =====
-- types/onu_profile.go: ONU hardware profiles and their validation.
pub mod Validity
use nano_southbound.Prelude.{
  ℕ, Bool, true, false, not, ◌&&◌, Option, none, some, List, [], ◌∷◌, ltb, length, if◌then◌else◌,
  is_empty, is_some, ℤ, pos,
}
use nano_southbound.Go.Text.{Text, codes}
use nano_southbound.Go.Result.{ok, err, ◌>>=◌, ◌>>◌, Check, reject_if, if_present}
use nano_southbound.Types.Check.{Error, missing, description_too_long, requires, validate_range_ptr}

pub record OnuProfilePorts : Type 0 where
  pub eth : Option ℤ
  pub pots : Option ℤ
  pub iphost : Option ℤ
  pub ipv6host : Option ℤ
  pub veip : Option ℤ

pub record OnuHardwareProfile : Type 0 where
  pub name : Text
  pub id : Option ℤ
  pub description : Option Text
  pub ports : Option OnuProfilePorts
  pub tcont_num : Option ℤ
  pub gemport_num : Option ℤ
  pub switch_num : Option ℤ
  pub service_ability : Option Text
  pub omci_send_mode : Option Text
  pub ex_omci : Option Bool
  pub wifi_mng_via_non_omci : Option Bool
  pub default_multicast_range : Option Text
  pub committed : Option Bool

abbrev is_long : Option Text → Bool
is_long none = false
is_long (some d) = ltb 64 (length d)

pub validate_ports : OnuProfilePorts → Check Error
validate_ports p = do
  validate_range_ptr (codes "port-num eth") p.eth (pos 1) (pos 255)
  validate_range_ptr (codes "port-num pots") p.pots (pos 1) (pos 255)
  validate_range_ptr (codes "port-num iphost") p.iphost (pos 1) (pos 255)
  validate_range_ptr (codes "port-num ipv6host") p.ipv6host (pos 1) (pos 255)
  validate_range_ptr (codes "port-num veip") p.veip (pos 1) (pos 255)

-- `(p *ONUHardwareProfile) Validate`
unfoldable pub validate : Option OnuHardwareProfile → Check Error
unfolding validate_ports
validate none = err (missing (codes "profile"))
validate (some p) = do
  reject_if (is_empty p.name) (missing (codes "profile name"))
  reject_if (is_long p.description) description_too_long
  if_present validate_ports p.ports
  validate_range_ptr (codes "tcont-num") p.tcont_num (pos 1) (pos 255)
  validate_range_ptr (codes "gemport-num") p.gemport_num (pos 1) (pos 255)
  validate_range_ptr (codes "switch-num") p.switch_num (pos 1) (pos 255)
  reject_if (is_some p.tcont_num && not (is_some p.gemport_num))
      (requires (codes "tcont-num") (codes "gemport-num"))
  reject_if (is_some p.gemport_num && not (is_some p.tcont_num))
      (requires (codes "gemport-num") (codes "tcont-num"))
