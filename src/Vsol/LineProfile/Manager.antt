-- ===== src/Vsol/LineProfile/Manager.antt =====
-- vendors/vsol/line_profile.go: the methods of `types.LineProfileManager`.
pub mod Effects
use nano_southbound.Prelude.{Option, none, some, List, [], ◌∷◌, ◌++◌, is_empty, if◌then◌else◌}
use nano_southbound.Go.Text.{Text, codes}
use nano_southbound.Go.Result.{Result, ok, err, Check, reject_if}
use nano_southbound.Types.Check.{Error as ProfileError}
use nano_southbound.Types.LineProfile.{LineProfile, validate}
use nano_southbound.Vsol.Session.{
  Error, invalid, failed, Executor, Run, ◌>>=◌, ◌>>◌, pure, fail, from_result, require_cli, exec_or,
}
use nano_southbound.Vsol.ProfileText.{cli_output_at, validate_profile_name}
use nano_southbound.Vsol.LineProfile.{
  build_line_profile_create_commands, detect_line_profile_cli_errors,
}
use nano_southbound.Vsol.LineProfile.Listing.{parse_line_profiles}

abbrev pub list_commands : List Text
list_commands = codes "configure terminal" ∷ codes "show profile line" ∷ codes "exit" ∷ []

abbrev pub show_commands : Text → List Text
show_commands name =
    codes "configure terminal" ∷ (codes "show profile line name " ++ name) ∷ codes "exit" ∷ []

abbrev pub delete_commands : Text → List Text
delete_commands name =
    codes "configure terminal" ∷ (codes "no profile line name " ++ name) ∷ codes "exit" ∷ []

-- An error of the package `types` is passed on as it is.
abbrev pub lift_validation : {A : Type 0} → Result ProfileError A → Result Error A
lift_validation (ok a) = ok a
lift_validation (err e) = err (invalid e)

abbrev pub name_given : Text → Check Error
name_given name = reject_if (is_empty name) (failed (codes "profile name is required"))

module _ {S : Type 0} (cli : Option (Executor S)) where
  unfoldable pub list_line_profiles : Run S (List LineProfile)
  list_line_profiles = require_cli cli λ exec. do
    outputs ← exec_or exec (codes "failed to list line profiles: ") list_commands
    from_result (parse_line_profiles (cli_output_at outputs 1))

  abbrev first_or_not_found : Text → List LineProfile → Run S LineProfile
  first_or_not_found name [] = fail (failed (codes "profile name " ++ (name ++ codes " not found")))
  first_or_not_found name (p ∷ ps) = pure p

  unfoldable pub get_line_profile : Text → Run S LineProfile
  get_line_profile name = require_cli cli λ exec. do
    from_result (name_given name)
    outputs ← exec_or exec (codes "failed to get line profile: ") (show_commands name)
    profiles ← from_result (parse_line_profiles (cli_output_at outputs 1))
    first_or_not_found name profiles

  -- Validation may change the profile: its multicast VLANs.
  unfoldable pub create_line_profile : Option LineProfile → Run S (Unit {0})
  create_line_profile profile = require_cli cli λ exec. do
    p ← from_result (lift_validation (validate profile))
    from_result (validate_profile_name p.name)
    outputs ←
        exec_or exec (codes "failed to create line profile: ")
          (build_line_profile_create_commands p)
    from_result (detect_line_profile_cli_errors (build_line_profile_create_commands p) outputs)

  unfoldable pub delete_line_profile : Text → Run S (Unit {0})
  delete_line_profile name = require_cli cli λ exec. do
    from_result (name_given name)
    outputs ← exec_or exec (codes "failed to delete line profile: ") (delete_commands name)
    pure tt
