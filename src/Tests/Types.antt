-- ===== src/Tests/Types.antt =====
-- The theorems about the package `types` at concrete inputs.
use nano_southbound.Prelude.{◌≡◌, ◌↔◌, refl, none, some, [], ◌∷◌, map, ℤ, pos, arith}
use nano_southbound.Go.Text.{codes, join}
use nano_southbound.Go.Number.{format_nat}
use nano_southbound.Go.Result.{ok, err, if_present}
use nano_southbound.Types.Check.{out_of_bounds, validate_range_ptr}
use nano_southbound.Types.VlanList.{parse_vlan_list, validate_mvlan}
use nano_southbound.Types.VlanList.RoundTrip.{
  single, range, print_item, all_members, parse_vlan_list-print, mvlan_raw_unchecked,
}
use nano_southbound.Types.LineProfile.{
  LineProfile, LineProfileTcont, LineProfileGemport, LineProfileService, LineProfileServicePort,
}
use nano_southbound.Types.LineProfile
use nano_southbound.Types.LineProfile.Validity.{IsValidLineProfile, validate-IsValidLineProfile}
use nano_southbound.Types.OnuProfile
use nano_southbound.Types.OnuProfile.{OnuHardwareProfile}
use nano_southbound.Types.OnuProfile.Validity.{IsValidOnuProfile, validate-IsValidOnuProfile}

abbrev service : LineProfileService
service = record { name = codes "hsi"; gemport_id = pos 1; vlan = pos 100; cos = codes "0-7" }

abbrev gemport : ℤ → LineProfileGemport
gemport tcont = record {
  id = pos 1;
  name = [];
  tcont_id = tcont;
  traffic_limit_up = [];
  traffic_limit_dn = [];
  encrypt = none;
  state = [];
  down_queue_map_id = none;
  services = some service ∷ none ∷ [];
  service_ports = [];
}

abbrev profile : ℤ → LineProfile
profile tcont = record {
  name = codes "home";
  id = none;
  tconts =
      some
        (record { id = pos 7; name = []; dba = codes "d1"; gemports = some (gemport tcont) ∷ [] })
      ∷ [];
  mvlan = none;
  committed = none;
}

validate-IsValidLineProfile_example :
    (LineProfile.validate (some (profile (pos 7))) ≡ ok (profile (pos 7)))
    ↔ IsValidLineProfile (profile (pos 7)) (profile (pos 7))
validate-IsValidLineProfile_example =
    validate-IsValidLineProfile (profile (pos 7)) (profile (pos 7))

parse_vlan_list-print_example :
    parse_vlan_list (join (map print_item (single 10 ∷ range 20 22 ∷ [])) (codes ";"))
    ≡ ok (all_members (single 10 ∷ range 20 22 ∷ []))
parse_vlan_list-print_example =
    parse_vlan_list-print b';' (single 10) (range 20 22 ∷ []) refl (omega arith)

mvlan_raw_unchecked_example :
    (validate_mvlan (record { vlans = []; raw = format_nat 5000 })
      ≡ ok (record { vlans = pos 5000 ∷ []; raw = format_nat 5000 }))
    × (validate_mvlan (record { vlans = pos 5000 ∷ []; raw = format_nat 5000 })
        ≡ err (out_of_bounds (codes "mvlan") (pos 1) (pos 4094)))
mvlan_raw_unchecked_example = mvlan_raw_unchecked 5000 (omega arith) (omega arith)

abbrev hardware : OnuHardwareProfile
hardware = record {
  name = codes "V2802";
  id = none;
  description = some (codes "bridge");
  ports = some (record {
    eth = some (pos 4);
    pots = some (pos 1);
    iphost = none;
    ipv6host = none;
    veip = some (pos 1);
  });
  tcont_num = some (pos 8);
  gemport_num = some (pos 32);
  switch_num = none;
  service_ability = some (codes "n:1");
  omci_send_mode = none;
  ex_omci = none;
  wifi_mng_via_non_omci = none;
  default_multicast_range = none;
  committed = none;
}

validate-IsValidOnuProfile_example :
    (OnuProfile.validate (some hardware) ≡ ok tt) ↔ IsValidOnuProfile hardware
validate-IsValidOnuProfile_example = validate-IsValidOnuProfile hardware

hardware_accepted : OnuProfile.validate (some hardware) ≡ ok tt
unfolding OnuProfile.validate if_present validate_range_ptr
hardware_accepted = refl
