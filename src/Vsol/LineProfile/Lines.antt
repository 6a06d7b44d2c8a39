-- ===== src/Vsol/LineProfile/Lines.antt =====
-- vendors/vsol/line_profile.go: the parsers of the lines of a line profile. A loop over the tokens from
-- an index on is a recursion on the tokens that are left.
use nano_southbound.Prelude.{
  Bool, true, false, none, some, List, [], ◌∷◌, ◌++◌, if◌then◌else◌, ℤ, pos,
}
use nano_southbound.Go.Text.{Text, codes, text_eq, fields, join, equal_fold}
use nano_southbound.Go.Number.{atoi, success}
use nano_southbound.Go.Quote.{quote}
use nano_southbound.Go.Result.{Result, ok, err}
use nano_southbound.Types.LineProfile.{
  LineProfileService, LineProfileServicePort, LineProfileGemport, LineProfileTcont,
}
use nano_southbound.Types.VlanList.{LineProfileMvlan, validate_mvlan}
use nano_southbound.Vsol.Session.{Error, failed, invalid}

abbrev pub new_tcont : ℤ → LineProfileTcont
new_tcont id = record { id = id; name = []; dba = []; gemports = [] }

abbrev pub new_gemport : ℤ → LineProfileGemport
new_gemport id = record {
  id = id;
  name = [];
  tcont_id = pos 0;
  traffic_limit_up = [];
  traffic_limit_dn = [];
  encrypt = none;
  state = [];
  down_queue_map_id = none;
  services = [];
  service_ports = [];
}

abbrev pub new_service : Text → LineProfileService
new_service name = record { name = name; gemport_id = pos 0; vlan = pos 0; cos = [] }

abbrev pub new_service_port : ℤ → LineProfileServicePort
new_service_port id = record {
  id = id;
  gemport_id = pos 0;
  user_vlan = pos 0;
  vlan = pos 0;
  admin_status = [];
  description = [];
}

-- `val, err := strconv.Atoi(token); if err == nil { field = val }`
abbrev pub number_or : ℤ → Text → ℤ
number_or old token = elim (success (atoi token)) [ some v ↦ v | none ↦ old ]

-- The id in the second token, for a parser that needs one.
abbrev pub with_id : {A : Type 0} → Text → Text → List Text → (ℤ → List Text → A) → Result Error A
with_id kind line (a ∷ id ∷ rest) f = elim (success (atoi id)) [
  | some v ↦ ok (f v rest)
  | none ↦ err (failed (codes "invalid " ++ (kind ++ (codes " id " ++ quote id))))
]
with_id kind line _ f = err (failed (codes "invalid " ++ (kind ++ (codes " line: " ++ line))))

unfoldable pub tcont_options : LineProfileTcont → List Text → LineProfileTcont
tcont_options t [] = t
tcont_options t (k ∷ []) = t
tcont_options t (k ∷ v ∷ rest) =
    let named = tcont_options (record t { name = v }) rest in
    let with_dba = tcont_options (record t { dba = v }) rest in
    let passed = tcont_options t (v ∷ rest) in
    if text_eq k (codes "name") then named else if text_eq k (codes "dba") then with_dba else passed

unfoldable pub parse_line_profile_tcont : Text → Result Error LineProfileTcont
unfolding tcont_options
parse_line_profile_tcont line =
    with_id (codes "tcont") line (fields line) (λ id rest. tcont_options (new_tcont id) rest)

-- The limits behind `traffic-limit`. `true`: one token was left over, and the outer loop goes on
-- from the first token behind `traffic-limit`; else it is at its end.
unfoldable pub traffic_limits : LineProfileGemport → List Text → LineProfileGemport × Bool
traffic_limits g [] = (g, false)
traffic_limits g (k ∷ []) = (g, true)
traffic_limits g (k ∷ v ∷ rest) =
    let up = traffic_limits (record g { traffic_limit_up = v }) rest in
    let down = traffic_limits (record g { traffic_limit_dn = v }) rest in
    if text_eq k (codes "up-stream")
    then up
    else if text_eq k (codes "down-stream")
    then down
    else (g, false)

unfoldable pub gemport_options : LineProfileGemport → List Text → LineProfileGemport
unfolding traffic_limits
gemport_options g [] = g
gemport_options g (k ∷ []) = g
gemport_options g (k ∷ v ∷ rest) =
    let limited = traffic_limits g (v ∷ rest) in
    let again = gemport_options limited.0 (v ∷ rest) in
    let named = gemport_options (record g { name = v }) rest in
    let in_tcont = gemport_options (record g { tcont_id = number_or g.tcont_id v }) rest in
    let encrypted =
      gemport_options (record g { encrypt = some (equal_fold v (codes "enable")) }) rest in
    let with_state = gemport_options (record g { state = v }) rest in
    let mapped =
      gemport_options
        (record g {
          down_queue_map_id = elim (success (atoi v)) [
            | some n ↦ some n
            | none ↦ g.down_queue_map_id
          ];
        })
        rest in
    let passed = gemport_options g (v ∷ rest) in
    if text_eq k (codes "name")
    then named
    else if text_eq k (codes "tcont")
    then in_tcont
    else if text_eq k (codes "traffic-limit")
    then (if limited.1 then again else limited.0)
    else if text_eq k (codes "encrypt")
    then encrypted
    else if text_eq k (codes "state")
    then with_state
    else if text_eq k (codes "down-queue-map-id")
    then mapped
    else passed

unfoldable pub parse_line_profile_gemport : Text → Result Error LineProfileGemport
unfolding gemport_options
parse_line_profile_gemport line =
    with_id (codes "gemport") line (fields line) (λ id rest. gemport_options (new_gemport id) rest)

unfoldable pub service_options : LineProfileService → List Text → LineProfileService
service_options s [] = s
service_options s (k ∷ []) = s
service_options s (k ∷ v ∷ rest) =
    let on_gemport = service_options (record s { gemport_id = number_or s.gemport_id v }) rest in
    let on_vlan = service_options (record s { vlan = number_or s.vlan v }) rest in
    let with_cos = service_options (record s { cos = v }) rest in
    let passed = service_options s (v ∷ rest) in
    if text_eq k (codes "gemport")
    then on_gemport
    else if text_eq k (codes "vlan")
    then on_vlan
    else if text_eq k (codes "cos")
    then with_cos
    else passed

abbrev pub service_of : Text → List Text → Result Error LineProfileService
service_of line (a ∷ name ∷ rest) = ok (service_options (new_service name) rest)
service_of line _ = err (failed (codes "invalid service line: " ++ line))

unfoldable pub parse_line_profile_service : Text → Result Error LineProfileService
unfolding service_options
parse_line_profile_service line = service_of line (fields line)

unfoldable pub service_port_options : LineProfileServicePort → List Text → LineProfileServicePort
service_port_options s [] = s
service_port_options s (k ∷ []) = s
service_port_options s (k ∷ v ∷ rest) =
    let on_gemport =
      service_port_options (record s { gemport_id = number_or s.gemport_id v }) rest in
    let on_user_vlan =
      service_port_options (record s { user_vlan = number_or s.user_vlan v }) rest in
    let on_vlan = service_port_options (record s { vlan = number_or s.vlan v }) rest in
    let with_status = service_port_options (record s { admin_status = v }) rest in
    let passed = service_port_options s (v ∷ rest) in
    if text_eq k (codes "gemport")
    then on_gemport
    else if text_eq k (codes "uservlan")
    then on_user_vlan
    else if text_eq k (codes "vlan")
    then on_vlan
    else if text_eq k (codes "admin-status")
    then with_status
    else if text_eq k (codes "description")
    then record s { description = join (v ∷ rest) (codes " ") }
    else passed

unfoldable pub parse_line_profile_service_port : Text → Result Error LineProfileServicePort
unfolding service_port_options
parse_line_profile_service_port line =
    with_id (codes "service-port") line (fields line)
      (λ id rest. service_port_options (new_service_port id) rest)

abbrev mvlan_of : Text → List Text → Result Error LineProfileMvlan
mvlan_of line (a ∷ b ∷ rest) =
    elim (validate_mvlan (record { vlans = []; raw = join (b ∷ rest) (codes " ") })) [
      | ok m ↦ ok m
      | err e ↦ err (invalid e)
    ]
mvlan_of line _ = err (failed (codes "invalid mvlan line: " ++ line))

unfoldable pub parse_line_profile_mvlan : Text → Result Error LineProfileMvlan
parse_line_profile_mvlan line = mvlan_of line (fields line)
