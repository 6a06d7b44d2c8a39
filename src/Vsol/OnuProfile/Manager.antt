-- ===== src/Vsol/OnuProfile/Manager.antt =====
-- vendors/vsol/onu_profile.go: the methods of `types.ONUProfileManager`.
pub mod Effects
use nano_southbound.Prelude.{Bool, not, Option, none, some, List, [], ◌∷◌, ◌++◌, if◌then◌else◌}
use nano_southbound.Go.Text.{Text, codes, contains}
use nano_southbound.Go.Result.{Result, ok, err, Check}
use nano_southbound.Types.Check.{Error as ProfileError}
use nano_southbound.Types.OnuProfile.{OnuHardwareProfile, validate}
use nano_southbound.Vsol.Session.{
  Error, invalid, failed, error_text, Executor, Run, ◌>>=◌, ◌>>◌, pure, fail, from_result,
  require_cli, exec_or,
}
use nano_southbound.Vsol.ProfileText.{cli_output_at, validate_profile_name}
use nano_southbound.Vsol.OnuProfile.{build_onu_profile_create_commands}
use nano_southbound.Vsol.OnuProfile.Listing.{parse_onu_profiles}

abbrev pub list_commands : List Text
list_commands = codes "configure terminal" ∷ codes "show profile onu" ∷ codes "exit" ∷ []

abbrev pub show_commands : Text → List Text
show_commands name =
    codes "configure terminal" ∷ (codes "show profile onu name " ++ name) ∷ codes "exit" ∷ []

abbrev pub delete_commands : Text → List Text
delete_commands name =
    codes "configure terminal" ∷ (codes "no profile onu name " ++ name) ∷ codes "exit" ∷ []

-- An error of the package `types` is passed on as it is.
abbrev pub lift_validation : Check ProfileError → Check Error
lift_validation (ok u) = ok u
lift_validation (err e) = err (invalid e)

-- The two tests on what the lookup before a creation returned: a profile means that the name is
-- taken, and an error must say that there is none.
abbrev pub require_absent : Text → Result Error OnuHardwareProfile → Check Error
require_absent name (ok p) =
    err (failed (codes "profile name " ++ (name ++ codes " already exists")))
require_absent name (err e) =
    if not (contains (error_text e) (codes "not found"))
    then err (failed (codes "failed to check existing ONU profile: " ++ error_text e))
    else ok tt

-- A method whose error does not end the caller
abbrev pub attempt : {S A : Type 0} → Run S A → Run S (Result Error A)
attempt m s = (ok (m s).0, (m s).1)

module _ {S : Type 0} (cli : Option (Executor S)) where
  unfoldable pub list_onu_profiles : Run S (List OnuHardwareProfile)
  list_onu_profiles = require_cli cli λ exec. do
    outputs ← exec_or exec (codes "failed to list ONU profiles: ") list_commands
    from_result (parse_onu_profiles (cli_output_at outputs 1))

  abbrev first_or_not_found : Text → List OnuHardwareProfile → Result Error OnuHardwareProfile
  first_or_not_found name [] = err (failed (codes "profile name " ++ (name ++ codes " not found")))
  first_or_not_found name (p ∷ ps) = ok p

  unfoldable pub get_onu_profile : Text → Run S OnuHardwareProfile
  get_onu_profile name = require_cli cli λ exec. do
    from_result (validate_profile_name name)
    outputs ← exec_or exec (codes "failed to get ONU profile: ") (show_commands name)
    profiles ← from_result (parse_onu_profiles (cli_output_at outputs 1))
    from_result (first_or_not_found name profiles)

  unfoldable pub create_onu_profile : Option OnuHardwareProfile → Run S (Unit {0})
  unfolding get_onu_profile
  create_onu_profile none = require_cli cli λ exec. from_result (lift_validation (validate none))
  create_onu_profile (some p) = require_cli cli λ exec. do
    from_result (lift_validation (validate (some p)))
    from_result (validate_profile_name p.name)
    existing ← attempt (get_onu_profile p.name)
    from_result (require_absent p.name existing)
    outputs ←
        exec_or exec (codes "failed to create ONU profile: ") (build_onu_profile_create_commands p)
    pure tt

  unfoldable pub delete_onu_profile : Text → Run S (Unit {0})
  delete_onu_profile name = require_cli cli λ exec. do
    from_result (validate_profile_name name)
    outputs ← exec_or exec (codes "failed to delete ONU profile: ") (delete_commands name)
    pure tt
