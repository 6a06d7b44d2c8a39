-- ===== src/Tests/Provisioning.antt =====
-- Runs of `ApplyProfile` and `BulkProvision`, and their theorems at concrete inputs.
use nano_southbound.Prelude.{
  ℕ, suc, ◌≡◌, refl, true, false, Option, none, some, List, [], ◌∷◌, pos, ◌==◌, if◌then◌else◌,
}
use nano_southbound.Go.Text.{Text, codes, contains, text_eq, to_lower, trim_space}
use nano_southbound.Go.Map.{Map, lookup}
use nano_southbound.Go.Number.{itoa}
use nano_southbound.Go.Result.{Result, ok}
use nano_southbound.Types.DriverV2.{OnuProfile, BulkProvisionOp}
use nano_southbound.Common.Sanitize.{sanitize_cli_param, is_metacharacter}
use nano_southbound.Vsol.Provisioning.{
  CommandLine, gpon_profile_commands, epon_profile_commands, bulk_provision, detect_pon_type, judge,
  prefetched,
}
use nano_southbound.Vsol.Provisioning.Epon.{all_done, bulk_provision-epon}

-- A device that counts what it is sent, and refuses the batch that comes second
abbrev batch : List Text → ℕ → Result Text (List Text) × ℕ
batch [] n = (ok [], n)
batch (command ∷ commands) n =
    if n == 1 then (ok (codes "ok" ∷ codes "% Invalid input" ∷ []), suc n) else (ok [], suc n)

abbrev counting : CommandLine ℕ
counting = record { exec_command = λ command n. (ok [], suc n); exec_commands = batch }

abbrev internet : OnuProfile
internet = record {
  line_profile = codes "gold; reboot";
  service_profile = [];
  bandwidth_up = pos 0;
  bandwidth_down = pos 0;
  vlan = pos 100;
  priority = pos 5;
}

abbrev op : Text → Option OnuProfile → BulkProvisionOp
op serial profile = record {
  serial = serial;
  pon_port = codes "0/1";
  onu_id = pos 7;
  profile = profile;
}

abbrev ops : List BulkProvisionOp
ops = op (codes "A1") (some internet) ∷ op (codes "A2") none ∷ []

abbrev epon_network : Option (Map Text)
epon_network = some ((codes "pon_type", codes "epon") ∷ [])

gpon_profile_commands_runs : gpon_profile_commands (codes "0/1") (pos 7) internet [] ≡ (
    codes "configure terminal"
    ∷ codes "interface gpon 0/1"
    ∷ codes "onu profile 7 line-profile gold; reboot service-profile service-internet"
    ∷ codes "onu vlan 7 user-vlan 100 priority 5"
    ∷ codes "exit"
    ∷ codes "commit"
    ∷ codes "end"
    ∷ [])
unfolding gpon_profile_commands itoa
gpon_profile_commands_runs = refl

epon_profile_commands_runs : epon_profile_commands (codes "0/1") (pos 7) internet ≡ (
    codes "configure terminal"
    ∷ codes "interface epon 0/1"
    ∷ codes "llid profile 7 line-profile gold reboot service-profile service-internet"
    ∷ codes "llid vlan 7 user-vlan 100"
    ∷ codes "exit"
    ∷ codes "commit"
    ∷ codes "end"
    ∷ [])
unfolding epon_profile_commands itoa sanitize_cli_param trim_space is_metacharacter
epon_profile_commands_runs = refl

bulk_provision_runs : bulk_provision (some counting) none ops 0 ≡ (
  ok (record {
    succeeded = 1;
    failed = 1;
    results =
        record {
          serial = codes "A1";
          success = false;
          error = codes "% Invalid input";
          onu_id = pos 7;
          pon_port = codes "0/1";
        }
        ∷ record {
          serial = codes "A2";
          success = true;
          error = [];
          onu_id = pos 7;
          pon_port = codes "0/1";
        }
        ∷ [];
  }),
  5,
)
unfolding bulk_provision judge contains to_lower text_eq
bulk_provision_runs = refl

bulk_provision-epon_example :
    bulk_provision (some counting) epon_network ops 0
    ≡ (ok (record { succeeded = 2; failed = 0; results = all_done counting epon_network ops }), 3)
unfolding prefetched detect_pon_type lookup text_eq
bulk_provision-epon_example =
    bulk_provision-epon counting epon_network ops 0 1 ([], refl) (λ s. refl) refl
