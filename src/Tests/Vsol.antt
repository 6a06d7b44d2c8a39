-- ===== src/Tests/Vsol.antt =====
-- The theorems about the package `vendors/vsol` at concrete inputs.
use nano_southbound.Common.Ansi.{strip_ansi}
use nano_southbound.Prelude.{
  ◌↔◌, ◌≡◌, ◌↔◌, ◌<ℤ◌, ◌≤ℤ◌, inl, inr, refl, true, none, some, List, [], ◌∷◌, All, every, pos,
  arith,
}
use nano_southbound.Go.Text.{
  Text, codes, is_space, join, split, contains, trim_space, text_eq, to_lower,
}
use nano_southbound.Go.Text.Words.{IsWord}
use nano_southbound.Go.Number.{itoa, atoi}
use nano_southbound.Go.Result.{ok}
use nano_southbound.Types.LineProfile.{
  DbaProfile, TrafficProfile, LineProfileTcont, LineProfileService,
}
use nano_southbound.Common.Sanitize.{is_plain}
use nano_southbound.Vsol.Session.{Executor}
use nano_southbound.Vsol.ProfileText.{
  validate_profile_name, sanitize_profile_output, cli_output_at, capture_digits, capture_word,
  detect_profile_cli_errors,
}
use nano_southbound.Vsol.ProfileText.Names.{validate_profile_name_safe}
use nano_southbound.Vsol.NextId.{next_id, next_id-Fresh}
use nano_southbound.Vsol.SnmpIndex.{parse_onu_index, parse_onu_vlan_index}
use nano_southbound.Vsol.SnmpIndex.RoundTrip.{index_of, parse_index-index_of}
use nano_southbound.Vsol.DbaProfile.{
  build_dba_profile_create_commands, list_commands, create_dba_profile,
}
use nano_southbound.Vsol.DbaProfile.Creation
use nano_southbound.Vsol.DbaProfile.Creation.{create_dba_profile_sends, create_dba_profile_refused}
use nano_southbound.Vsol.TrafficProfile as Traffic
use nano_southbound.Vsol.TrafficProfile.{
  build_traffic_profile_create_commands, create_traffic_profile, delete_traffic_profile,
}
use nano_southbound.Vsol.TrafficProfile.Effects as TrafficEffects
use nano_southbound.Vsol.TrafficProfile.Effects.{
  create_traffic_profile_sends, delete_traffic_profile_sends,
}
use nano_southbound.Vsol.LineProfile.{own_or, tcont_command, service_command}
use nano_southbound.Vsol.LineProfile.Lines.{
  new_gemport, parse_line_profile_tcont, parse_line_profile_gemport, parse_line_profile_service,
}
use nano_southbound.Vsol.LineProfile.Tokens.{parse-tcont_command, gemport_options_lost}
use nano_southbound.Vsol.LineProfile.Services.{parse-service_command}

validate_profile_name_safe_example :
    IsWord is_space (codes "prof-1.a") × (every is_plain (codes "prof-1.a") ≡ true)
unfolding validate_profile_name
validate_profile_name_safe_example = validate_profile_name_safe (codes "prof-1.a") refl

next_id-Fresh_example :
    (pos 2 ≤ℤ next_id (pos 1 ∷ pos 511 ∷ pos 4 ∷ []))
    × All (λ id. id <ℤ next_id (pos 1 ∷ pos 511 ∷ pos 4 ∷ [])) (pos 1 ∷ pos 511 ∷ pos 4 ∷ [])
next_id-Fresh_example = next_id-Fresh (pos 1 ∷ pos 511 ∷ pos 4 ∷ []) (omega arith)

parse_index-index_of_example :
    (parse_onu_index (index_of (pos 1 ∷ pos 12 ∷ [])) ≡ ok (pos 1, pos 12))
    × (parse_onu_index (b'.' ∷ index_of (pos 1 ∷ pos 12 ∷ [])) ≡ ok (pos 1, pos 12))
    × (parse_onu_vlan_index (index_of (pos 1 ∷ pos 12 ∷ pos 3 ∷ [])) ≡ ok (pos 1, pos 12, pos 3))
    × (parse_onu_vlan_index (b'.' ∷ index_of (pos 1 ∷ pos 12 ∷ pos 3 ∷ []))
        ≡ ok (pos 1, pos 12, pos 3))
parse_index-index_of_example =
    parse_index-index_of (pos 1) (pos 12) (pos 3) (omega arith) (omega arith) (omega arith)

-- A device that keeps the batches it receives, the latest first, and answers all of them alike
abbrev Log : Type 0
Log = List (List Text)

abbrev device : List Text → Executor Log
device answer commands log = (ok answer, commands ∷ log)

abbrev dba : DbaProfile
dba = record {
  id = pos 0;
  name = codes "gold";
  type = pos 4;
  fixed_bw = pos 0;
  assured_bw = pos 0;
  max_bw = pos 512000;
}

-- What the device has received at the end, the latest batch first
abbrev received : Log
received = build_dba_profile_create_commands (pos 2) dba ∷ list_commands ∷ []

create_dba_profile_sends_example :
    (create_dba_profile (some (device [])) dba [] ≡ (ok tt, received))
    ↔ Creation.Created (device []) dba [] received
create_dba_profile_sends_example = create_dba_profile_sends (device []) dba [] received

abbrev odd_type : DbaProfile
odd_type = record dba { type = pos 9 }

abbrev tcont : LineProfileTcont
tcont = record { id = pos 1; name = codes "t1"; dba = codes "gold"; gemports = none ∷ [] }

parse-tcont_command_example :
    parse_line_profile_tcont (tcont_command tcont) ≡ ok (record tcont { gemports = [] })
parse-tcont_command_example =
    parse-tcont_command tcont (omega arith) (inr ((λ e. cc), refl)) (inr ((λ e. cc), refl))

gemport_options_lost_example :
    parse_line_profile_gemport (
      join
        (codes "gemport"
          ∷ itoa (pos 1)
          ∷ codes "traffic-limit"
          ∷ codes "up-stream"
          ∷ codes "a"
          ∷ codes "down-stream"
          ∷ codes "b"
          ∷ codes "encrypt"
          ∷ codes "enable"
          ∷ [])
        (codes " "))
    ≡ ok (record (new_gemport (pos 1)) {
      traffic_limit_up = codes "a";
      traffic_limit_dn = codes "b";
    })
gemport_options_lost_example =
    gemport_options_lost (pos 1) (codes "a") (codes "b") (codes "encrypt") (codes "enable") []
      (omega arith)
      (((λ e. cc), refl), (((λ e. cc), refl), (((λ e. cc), refl), (((λ e. cc), refl), tt))))
      (λ e. cc) (λ e. cc)

abbrev service : LineProfileService
service = record { name = codes "hsi"; gemport_id = pos 0; vlan = pos 100; cos = [] }

parse-service_command_example :
    parse_line_profile_service (service_command (pos 7) service)
    ≡ ok (record service { gemport_id = own_or service.gemport_id (pos 7) })
parse-service_command_example =
    parse-service_command (pos 7) service ((λ e. cc), refl) (omega arith) (omega arith) (inl refl)

abbrev traffic : TrafficProfile
traffic = record { id = pos 0; name = codes "fast"; sir = pos 1000; pir = pos 2000 }

abbrev traffic_received : Log
traffic_received =
    build_traffic_profile_create_commands (pos 2) traffic ∷ Traffic.list_commands ∷ []

create_traffic_profile_runs :
    create_traffic_profile (some (device [])) traffic [] ≡ (ok tt, traffic_received)
unfolding create_traffic_profile validate_profile_name detect_profile_cli_errors next_id
    Traffic.parse_traffic_profiles split sanitize_profile_output join strip_ansi cli_output_at
    contains trim_space
create_traffic_profile_runs = refl

create_traffic_profile_sends_example :
    TrafficEffects.Created (device []) traffic [] traffic_received
create_traffic_profile_sends_example =
    (create_traffic_profile_sends (device []) traffic [] traffic_received).0
      create_traffic_profile_runs

abbrev traffic_listing : List Text
traffic_listing = [] ∷ codes "*****\nId: 1\nName: slow\n*****\nId: 4\nName: fast\n" ∷ []

abbrev deleted : Log
deleted = Traffic.delete_commands (pos 4) ∷ Traffic.list_commands ∷ []

delete_traffic_profile_runs :
    delete_traffic_profile (some (device traffic_listing)) (codes "fast") [] ≡ (ok tt, deleted)
unfolding delete_traffic_profile validate_profile_name Traffic.parse_traffic_profiles split
    sanitize_profile_output join strip_ansi cli_output_at contains trim_space capture_digits
    capture_word text_eq detect_profile_cli_errors atoi to_lower
delete_traffic_profile_runs = refl

delete_traffic_profile_sends_example :
    TrafficEffects.Deleted (device traffic_listing) (codes "fast") [] deleted
delete_traffic_profile_sends_example =
    (delete_traffic_profile_sends (device traffic_listing) (codes "fast") [] deleted).0
      delete_traffic_profile_runs
