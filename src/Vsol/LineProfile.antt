-- ===== src/Vsol/LineProfile.antt =====
-- vendors/vsol/line_profile.go: line profiles. The parsers of the lines are in the child `Lines`, that
-- of whole listings is in `Listing`, and the methods are in `Manager`.
pub mod Lines
pub mod Listing
pub mod Manager
pub mod Tokens
pub mod Services
use nano_southbound.Prelude.{
  ℕ, ◌==◌, Bool, true, false, not, ◌&&◌, ◌||◌, Option, none, some, List, [], ◌∷◌, ◌++◌, map,
  if◌then◌else◌, is_empty, ℤ, pos, eqb_ℤ,
}
use nano_southbound.Go.Text.{text_eq, Text, codes, join, to_lower, contains, trim_space}
use nano_southbound.Go.Number.{itoa}
use nano_southbound.Go.Quote.{quote}
use nano_southbound.Go.Result.{Result, ok, err, Check}
use nano_southbound.Types.LineProfile.{
  LineProfileService, LineProfileServicePort, LineProfileGemport, LineProfileTcont, LineProfile,
  validate,
}
use nano_southbound.Types.VlanList.{LineProfileMvlan}
use nano_southbound.Types.Check.{Error as ProfileError}
use nano_southbound.Vsol.Session.{Error, failed, invalid}

-- ` LABEL %d` and ` LABEL %s`, left out at the zero value
abbrev pub number_option : Text → ℤ → Text
number_option label v = if eqb_ℤ v (pos 0) then [] else label ++ itoa v

abbrev pub text_option : Text → Text → Text
text_option label v = if is_empty v then [] else label ++ v

-- The id of its own, or that of what it stands in
abbrev pub own_or : ℤ → ℤ → ℤ
own_or own outer = if eqb_ℤ own (pos 0) then outer else own

unfoldable pub tcont_command : LineProfileTcont → Text
tcont_command t =
    codes "tcont "
    ++ (itoa t.id ++ (text_option (codes " name ") t.name ++ text_option (codes " dba ") t.dba))

unfoldable pub gemport_command : ℤ → LineProfileGemport → Text
gemport_command tcont_id g =
    codes "gemport " ++ (itoa g.id ++ (codes " tcont " ++ itoa (own_or g.tcont_id tcont_id)))

abbrev pub or_default : Text → Text
or_default v = if is_empty v then codes "default" else v

-- The limits are a command of their own.
unfoldable pub traffic_limit_commands : LineProfileGemport → List Text
traffic_limit_commands g =
    if not (is_empty g.traffic_limit_up) || not (is_empty g.traffic_limit_dn)
    then (codes "gemport "
        ++ (itoa g.id
            ++ (codes " traffic-limit upstream "
                ++ (or_default g.traffic_limit_up
                    ++ (codes " downstream " ++ or_default g.traffic_limit_dn)))))
      ∷ []
    else []

unfoldable pub service_command : ℤ → LineProfileService → Text
service_command gemport_id s =
    codes "service "
    ++ (s.name
        ++ (codes " gemport "
            ++ (itoa (own_or s.gemport_id gemport_id)
                ++ (number_option (codes " vlan ") s.vlan ++ text_option (codes " cos ") s.cos))))

unfoldable pub service_port_command : ℤ → LineProfileServicePort → Text
service_port_command gemport_id s =
    codes "service-port "
    ++ (itoa s.id
        ++ (codes " gemport "
            ++ (itoa (own_or s.gemport_id gemport_id)
                ++ (number_option (codes " uservlan ") s.user_vlan
                    ++ number_option (codes " vlan ") s.vlan))))

-- `for _, x := range xs { if x == nil { continue } … }`
abbrev pub for_present {ℓ} : {A : Type ℓ} → (A → List Text) → List (Option A) → List Text
for_present f [] = []
for_present f (none ∷ xs) = for_present f xs
for_present f (some x ∷ xs) = f x ++ for_present f xs

unfoldable pub gemport_commands : ℤ → LineProfileGemport → List Text
unfolding gemport_command traffic_limit_commands service_command service_port_command
gemport_commands tcont_id g =
    gemport_command tcont_id g
    ∷ (traffic_limit_commands g
        ++ (for_present (λ s. service_command g.id s ∷ []) g.services
            ++ for_present (λ s. service_port_command g.id s ∷ []) g.service_ports))

unfoldable pub tcont_commands : LineProfileTcont → List Text
unfolding tcont_command gemport_commands
tcont_commands t = tcont_command t ∷ for_present (gemport_commands t.id) t.gemports

unfoldable pub build_mvlan_command : LineProfileMvlan → Text
build_mvlan_command m =
    if not (is_empty m.raw)
    then codes "mvlan " ++ m.raw
    else if is_empty m.vlans
    then []
    else codes "mvlan " ++ join (map itoa m.vlans) (codes ",")

abbrev mvlan_commands : Option LineProfileMvlan → List Text
mvlan_commands none = []
mvlan_commands (some m) =
    let command = build_mvlan_command m in if is_empty command then [] else command ∷ []

unfoldable pub build_line_profile_create_commands : LineProfile → List Text
unfolding tcont_commands build_mvlan_command
build_line_profile_create_commands p =
    codes "configure terminal"
    ∷ (codes "profile line name " ++ p.name)
    ∷ (for_present tcont_commands p.tconts
        ++ (mvlan_commands p.mvlan ++ codes "commit" ∷ codes "exit" ∷ codes "exit" ∷ []))

abbrev error_patterns : List Text
error_patterns =
    codes "unknown command"
    ∷ codes "unknown gemport"
    ∷ codes "error:"
    ∷ codes "fail"
    ∷ codes "invalid"
    ∷ codes "command incomplete"
    ∷ codes "not found"
    ∷ codes "already existed"
    ∷ codes "isn't existed"
    ∷ codes "is not exist"
    ∷ []

abbrev first_pattern : Text → List Text → Option Text
first_pattern low [] = none
first_pattern low (p ∷ ps) = if contains low p then some p else first_pattern low ps

abbrev head_or_empty : List Text → Text
head_or_empty [] = []
head_or_empty (c ∷ cs) = c

abbrev rest_of : List Text → List Text
rest_of [] = []
rest_of (c ∷ cs) = cs

-- The message for an output that shows a pattern
abbrev rejection : Text → Text → Text → Text
rejection pattern command output =
    (if text_eq pattern (codes "unknown gemport")
      then codes "OLT rejected gemport reference for "
      else codes "OLT rejected command ")
    ++ (quote command ++ (codes ": " ++ trim_space output))

-- The outputs are told with the command at the same index, if there is one.
unfoldable pub detect_line_profile_cli_errors : List Text → List Text → Check Error
detect_line_profile_cli_errors commands [] = ok tt
detect_line_profile_cli_errors commands (output ∷ outputs) =
    let later = detect_line_profile_cli_errors (rest_of commands) outputs in
    elim (first_pattern (to_lower output) error_patterns) [
      | some p ↦ err (failed (rejection p (head_or_empty commands) output))
      | none ↦ later
    ]
