-- ===== src/Tests/Managers.antt =====
-- The theorems about line profiles and ONU profiles of the package `vendors/vsol` at concrete inputs.
use nano_southbound.Prelude.{◌↔◌, ◌≡◌, true, refl, none, some, List, [], ◌∷◌, All, pos}
use nano_southbound.Go.Text.{
  Text, codes, contains, to_lower, join, split, trim_space, fields, text_eq, equal_fold,
}
use nano_southbound.Go.Number.{atoi}
use nano_southbound.Common.Ansi.{strip_ansi}
use nano_southbound.Go.Result.{ok}
use nano_southbound.Types.LineProfile.{LineProfile}
use nano_southbound.Types.OnuProfile.{OnuHardwareProfile}
use nano_southbound.Vsol.Session.{Executor}
use nano_southbound.Vsol.ProfileText.{
  sanitize_profile_output, capture_id, capture_rest, capture_value,
}
use nano_southbound.Vsol.LineProfile.{build_line_profile_create_commands}
use nano_southbound.Vsol.OnuProfile.{build_onu_profile_create_commands}
use nano_southbound.Vsol.LineProfile.Lines.{
  new_gemport, parse_line_profile_tcont, parse_line_profile_gemport,
}
use nano_southbound.Vsol.LineProfile.Listing.{parse_line_profiles}
use nano_southbound.Vsol.LineProfile.Listing.Linked.{IsLinkedProfile}
use nano_southbound.Vsol.LineProfile.Listing.Reading.{parse_line_profiles-IsLinkedProfile}
use nano_southbound.Vsol.LineProfile.Manager.{create_line_profile}
use nano_southbound.Vsol.LineProfile.Manager.Effects as LineEffects
use nano_southbound.Vsol.LineProfile.Manager.Effects.{
  create_line_profile_sends, create_line_profile_refused,
}
use nano_southbound.Vsol.OnuProfile.Listing.{new_profile}
use nano_southbound.Vsol.OnuProfile.Manager.{show_commands, create_onu_profile}
use nano_southbound.Vsol.OnuProfile.Manager.Effects as OnuEffects
use nano_southbound.Vsol.OnuProfile.Manager.Effects.{
  create_onu_profile_sends, create_onu_profile_refused,
}

abbrev listing : Text
listing = codes "Id: 3\nName: home\n tcont 1 dba gold\n gemport 2\ncommit: yes\n"

abbrev listed : List LineProfile
listed =
    record {
      name = codes "home";
      id = some (pos 3);
      tconts =
          some (record {
            id = pos 1;
            name = [];
            dba = codes "gold";
            gemports = some (record (new_gemport (pos 2)) { tcont_id = pos 1 }) ∷ [];
          })
          ∷ [];
      mvlan = none;
      committed = some true;
    }
    ∷ []

parse_line_profiles-IsLinkedProfile_example : All IsLinkedProfile listed
unfolding parse_line_profiles contains to_lower sanitize_profile_output join split strip_ansi
    trim_space capture_id capture_rest capture_value parse_line_profile_tcont fields atoi
    parse_line_profile_gemport text_eq equal_fold
parse_line_profiles-IsLinkedProfile_example =
    parse_line_profiles-IsLinkedProfile listing listed refl

-- A device that keeps the batches it receives, the latest first, and answers all of them alike
abbrev Log : Type 0
Log = List (List Text)

abbrev device : List Text → Executor Log
device answer commands log = (ok answer, commands ∷ log)

abbrev profile : LineProfile
profile = record { name = codes "home"; id = none; tconts = []; mvlan = none; committed = none }

create_line_profile_sends_example :
    (create_line_profile (some (device [])) (some profile) []
      ≡ (ok tt, build_line_profile_create_commands profile ∷ []))
    ↔ LineEffects.Created (device []) profile [] (build_line_profile_create_commands profile ∷ [])
create_line_profile_sends_example =
    create_line_profile_sends (device []) profile []
      (build_line_profile_create_commands profile ∷ [])

abbrev nameless : LineProfile
nameless = record profile { name = [] }

abbrev hardware : OnuHardwareProfile
hardware = record (new_profile (pos 1)) { name = codes "V2802" }

abbrev hardware_listing : Text
hardware_listing =
    codes "Id: 1\nName: V2802\nMax tcont: 8\nMax eth: 2\ncommit: yes\n***\nId: 7\nName: x\n"

abbrev hardware_listed : List OnuHardwareProfile
hardware_listed =
    record (new_profile (pos 1)) {
      name = codes "V2802";
      ports =
          some (record {
            eth = some (pos 2);
            pots = none;
            iphost = none;
            ipv6host = none;
            veip = none;
          });
      tcont_num = some (pos 8);
      committed = some true;
    }
    ∷ record (new_profile (pos 7)) { name = codes "x" }
    ∷ []

create_onu_profile_sends_example :
    (create_onu_profile (some (device [])) (some hardware) []
      ≡ (ok tt, build_onu_profile_create_commands hardware ∷ show_commands hardware.name ∷ []))
    ↔ OnuEffects.Created
        (device [])
        hardware
        []
        (build_onu_profile_create_commands hardware ∷ show_commands hardware.name ∷ [])
create_onu_profile_sends_example =
    create_onu_profile_sends (device []) hardware []
      (build_onu_profile_create_commands hardware ∷ show_commands hardware.name ∷ [])

abbrev unnamed : OnuHardwareProfile
unnamed = new_profile (pos 1)

abbrev showing : List Text
showing = [] ∷ hardware_listing ∷ []
