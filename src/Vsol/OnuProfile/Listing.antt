-- ===== src/Vsol/OnuProfile/Listing.antt =====
-- vendors/vsol/onu_profile.go: `parseONUProfiles`, the parser of a listing.
pub mod Members
pub mod Reading
use nano_southbound.Prelude.{
  Bool, not, ◌&&◌, Option, none, some, List, [], ◌∷◌, ◌++◌, if◌then◌else◌, is_empty, is_some, ℤ,
}
use nano_southbound.Go.Text.{Text, codes, contains, split, trim_space, equal_fold, text_eq}
use nano_southbound.Go.Number.{Parsed, parsed, out_of_range, bad_syntax, atoi, value_of}
use nano_southbound.Go.Quote.{quote}
use nano_southbound.Go.Result.{Result, ok, err, ◌>>=◌}
use nano_southbound.Types.OnuProfile.{OnuProfilePorts, OnuHardwareProfile}
use nano_southbound.Vsol.Session.{Error, failed}
use nano_southbound.Vsol.ProfileText.{
  sanitize_profile_output, capture_id, capture_rest, capture_value, on_match,
}

abbrev no_ports : OnuProfilePorts
no_ports = record { eth = none; pots = none; iphost = none; ipv6host = none; veip = none }

abbrev pub new_profile : ℤ → OnuHardwareProfile
new_profile id = record {
  name = [];
  id = some id;
  description = none;
  ports = none;
  tcont_num = none;
  gemport_num = none;
  switch_num = none;
  service_ability = none;
  omci_send_mode = none;
  ex_omci = none;
  wifi_mng_via_non_omci = none;
  default_multicast_range = none;
  committed = none;
}

-- The text of an error of `strconv.Atoi`
abbrev atoi_error : Text → Text → Text
atoi_error value why = codes "strconv.Atoi: parsing " ++ (quote value ++ (codes ": " ++ why))

abbrev parsed_int : Text → Text → Parsed → Result Error ℤ
parsed_int field value (parsed v) = ok v
parsed_int field value (out_of_range v) = err (
    failed (
      codes "invalid "
      ++ (field
          ++ (codes " value "
              ++ (quote value
                  ++ (codes ": " ++ atoi_error (trim_space value) (codes "value out of range")))))))
parsed_int field value bad_syntax = err (
    failed (
      codes "invalid "
      ++ (field
          ++ (codes " value "
              ++ (quote value
                  ++ (codes ": " ++ atoi_error (trim_space value) (codes "invalid syntax")))))))

pub parse_profile_int : Text → Text → Result Error ℤ
parse_profile_int field value = parsed_int field value (atoi (trim_space value))

-- `ensurePorts`: the ports of the profile, none given if there are none yet
pub ensure_ports : OnuHardwareProfile → OnuProfilePorts
ensure_ports p = elim p.ports [ none ↦ no_ports | some ports ↦ ports ]

-- A line with a number
abbrev on_count :
    Text
    → Text
    → Text
    → (ℤ → OnuHardwareProfile)
    → Result Error OnuHardwareProfile
    → Result Error OnuHardwareProfile
on_count label field line set otherwise =
    on_match (capture_id label line) (λ m. do v ← parse_profile_int field m; ok (set v)) otherwise

-- A line with a word
abbrev on_word :
    Text
    → Text
    → (Text → OnuHardwareProfile)
    → Result Error OnuHardwareProfile
    → Result Error OnuHardwareProfile
on_word label line set otherwise =
    on_match (capture_value label line) (λ m. ok (set (trim_space m))) otherwise

abbrev is_enable : Text → Bool
is_enable v = equal_fold v (codes "enable")

-- The cases behind the numbers
pub read_switches : OnuHardwareProfile → Text → Result Error OnuHardwareProfile
read_switches p line =
    on_match (capture_id (codes "Service ability N:1:") line)
      (λ m. ok (
        if text_eq (trim_space m) (codes "1")
        then record p { service_ability = some (codes "n:1") }
        else p))
      (on_word (codes "Ex-OMCI:") line (λ v. record p { ex_omci = some (is_enable v) })
        (on_word (codes "Wifi mgmt via non OMCI:") line
          (λ v. record p { wifi_mng_via_non_omci = some (is_enable v) })
          (on_word (codes "Omci send mode:") line (λ v. record p { omci_send_mode = some v })
            (on_word (codes "Default multicast range:") line
              (λ v. record p { default_multicast_range = some v })
              (on_word (codes "commit:") line
                (λ v. record p { committed = some (equal_fold v (codes "yes")) }) (ok p))))))

-- The numbers of ports, with what follows them
pub read_ports : OnuHardwareProfile → Text → Result Error OnuHardwareProfile
unfolding parse_profile_int ensure_ports read_switches
read_ports p line =
    on_count (codes "Max eth:") (codes "max eth") line
      (λ v. record p { ports = some (record (ensure_ports p) { eth = some v }) })
      (on_count (codes "Max pots:") (codes "max pots") line
        (λ v. record p { ports = some (record (ensure_ports p) { pots = some v }) })
        (on_count (codes "Max iphost:") (codes "max iphost") line
          (λ v. record p { ports = some (record (ensure_ports p) { iphost = some v }) })
          (on_count (codes "Max ipv6host:") (codes "max ipv6host") line
            (λ v. record p { ports = some (record (ensure_ports p) { ipv6host = some v }) })
            (on_count (codes "Max veip:") (codes "max veip") line
              (λ v. record p { ports = some (record (ensure_ports p) { veip = some v }) })
              (read_switches p line)))))

-- A line of the profile `p` that is being read: the `switch`
pub read_member : OnuHardwareProfile → Text → Result Error OnuHardwareProfile
unfolding read_ports
read_member p line =
    on_match (capture_rest (codes "Name:") line) (λ m. ok (record p { name = trim_space m }))
      (on_match (capture_rest (codes "Description:") line)
        (λ m. ok (record p { description = some (trim_space m) }))
        (on_count (codes "Max tcont:") (codes "max tcont") line
          (λ v. record p { tcont_num = some v })
          (on_count (codes "Max gemport:") (codes "max gemport") line
            (λ v. record p { gemport_num = some v })
            (on_count (codes "Max switch per slot:") (codes "max switch") line
              (λ v. record p { switch_num = some v }) (read_ports p line)))))

-- The profiles that the closure `flush` has collected, and `current`
pub record Reader : Type 0 where
  pub profiles : List OnuHardwareProfile
  pub current : Option OnuHardwareProfile

abbrev pub flushed : List OnuHardwareProfile → Option OnuHardwareProfile → List OnuHardwareProfile
flushed ps none = ps
flushed ps (some p) = if is_empty p.name && not (is_some p.id) then ps else ps ++ p ∷ []

abbrev read_detail :
    List OnuHardwareProfile → Option OnuHardwareProfile → Text → Result Error Reader
read_detail ps none line = ok (record { profiles = ps; current = none })
read_detail ps (some p) line = do
  p' ← read_member p line
  ok (record { profiles = ps; current = some p' })

-- One round of the loop
pub read_line : Reader → Text → Result Error Reader
unfolding read_member
read_line r raw =
    let line = trim_space raw in
    if is_empty line
    then ok r
    else on_match (capture_id (codes "Id:") line)
        (λ m. ok (record {
          profiles = flushed r.profiles r.current;
          current = some (new_profile (value_of (atoi m)));
        }))
        (read_detail r.profiles r.current line)

pub read_lines : Reader → List Text → Result Error Reader
unfolding read_line
read_lines r [] = ok r
read_lines r (raw ∷ rest) = do r' ← read_line r raw; read_lines r' rest

abbrev pub start : Reader
start = record { profiles = []; current = none }

unfoldable pub parse_onu_profiles : Text → Result Error (List OnuHardwareProfile)
unfolding read_lines
parse_onu_profiles output =
    let clean = sanitize_profile_output output in
    if contains clean (codes "not found")
    then ok []
    else (do r ← read_lines start (split clean 10); ok (flushed r.profiles r.current))
