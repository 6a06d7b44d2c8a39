-- ===== src/Vsol/DbaProfile/Creation.antt =====
-- What `CreateDBAProfile` sends to the device.
use nano_southbound.Prelude.{◌≡◌, ◌≢◌, ◌⊎◌, ◌↔◌, true, ◌||◌, some, List, map, arith, pos, ltb_ℤ}
use nano_southbound.Go.Text.{Text}
use nano_southbound.Go.Result.{ok}
use nano_southbound.Types.LineProfile.{DbaProfile}
use nano_southbound.Types.Check.{InBounds}
use nano_southbound.Vsol.NextId.{next_id}
use nano_southbound.Vsol.Session.{outputs_of, Executor}
use nano_southbound.Vsol.ProfileText.{
  validate_profile_name, cli_output_at, detect_profile_cli_errors,
}
use nano_southbound.Vsol.DbaProfile.{
  parse_dba_profiles, build_dba_profile_create_commands, list_commands, create_dba_profile,
}

-- A profile whose name or type is refused is not created, and nothing is sent to the device.
pub create_dba_profile_refused :
    {S : Type 0} (exec : Executor S) (p : DbaProfile) (s : S)
    → (validate_profile_name p.name ≢ ok tt)
      ⊎ ((ltb_ℤ p.type (pos 1) || ltb_ℤ (pos 5) p.type) ≡ true)
    → ((create_dba_profile (some exec) p s).1 ≡ s)
      × ((create_dba_profile (some exec) p s).0 ≢ ok tt)
unfolding create_dba_profile
create_dba_profile_refused exec p s h = (ground arith, ground arith)

-- A creation that succeeds has sent two batches: the listing, and the commands of the profile under
-- an id made from the ids that the listing shows. Nothing else reached the device, and no output
-- of the second batch reports an error.
abbrev pub Created : {S : Type 0} → Executor S → DbaProfile → S → S → Type 0
Created {S} exec p s t =
    (shown : List Text) × (outputs : List Text) × (mid : S) × (exec list_commands s
      ≡ (ok shown, mid))
    × (exec
          (build_dba_profile_create_commands
            (next_id (map (λ q. q.id) (parse_dba_profiles (cli_output_at shown 1)))) p)
          mid
        ≡ (ok outputs, t))
    × (detect_profile_cli_errors outputs ≡ ok tt)
    × (validate_profile_name p.name ≡ ok tt)
    × InBounds (pos 1) (pos 5) p.type

abbrev sent : {S : Type 0} → Executor S → DbaProfile → S → List Text
sent exec p s =
    let shown = outputs_of (exec list_commands s).0 in
    build_dba_profile_create_commands
      (next_id (map (λ q. q.id) (parse_dba_profiles (cli_output_at shown 1)))) p

create_sends :
    {S : Type 0} (exec : Executor S) (p : DbaProfile) (s t : S)
    → create_dba_profile (some exec) p s ≡ (ok tt, t)
    → Created exec p s t
unfolding create_dba_profile
create_sends {S} exec p s t h = (
  outputs_of (exec list_commands s).0,
  outputs_of (exec (sent exec p s) (exec list_commands s).1).0,
  (exec list_commands s).1,
  ground arith,
  ground arith,
  ground arith,
  ground arith,
  (ground arith, ground arith),
)

sends_create :
    {S : Type 0} (exec : Executor S) (p : DbaProfile) (s t : S)
    → Created exec p s t
    → create_dba_profile (some exec) p s ≡ (ok tt, t)
unfolding create_dba_profile
sends_create exec p s t (shown, outputs, mid, e, f, d, n, (lo, hi)) = ground arith

-- A creation succeeds and leaves the device in the state `t` exactly if the name and the type are
-- valid, the device has received the listing and then the commands of the profile under the next id
-- after those listed, answered both, and no output of the commands reports an error.
pub create_dba_profile_sends :
    {S : Type 0} (exec : Executor S) (p : DbaProfile) (s t : S)
    → (create_dba_profile (some exec) p s ≡ (ok tt, t)) ↔ Created exec p s t
create_dba_profile_sends exec p s t = (create_sends exec p s t, sends_create exec p s t)
