-- ===== src/Vsol/DbaProfile.antt =====
-- vendors/vsol/dba_profile.go: DBA profiles.
pub mod Creation
use nano_southbound.Prelude.{
  ℕ, ◌==◌, Bool, true, false, not, ◌&&◌, ◌||◌, Option, none, some, List, [], ◌∷◌, ◌++◌, map,
  if◌then◌else◌, is_empty, ℤ, pos, ltb_ℤ, eqb_ℤ,
}
use nano_southbound.Go.Text.{Text, codes, has_prefix, split, trim_space, text_eq}
use nano_southbound.Go.Number.{atoi, value_of, itoa}
use nano_southbound.Go.Quote.{quote}
use nano_southbound.Go.Result.{Result, ok, err, reject_if}
use nano_southbound.Types.LineProfile.{DbaProfile}
use nano_southbound.Vsol.NextId.{next_id}
use nano_southbound.Vsol.Session.{
  Error, failed, Executor, Run, ◌>>=◌, ◌>>◌, pure, fail, from_result, require_cli, exec_or, wrap,
  wrap_run,
}
use nano_southbound.Vsol.ProfileText.{
  sanitize_profile_output, cli_output_at, validate_profile_name, capture_digits, capture_word,
  on_match, detect_profile_cli_errors,
}

abbrev pub empty_profile : DbaProfile
empty_profile = record {
  id = pos 0;
  name = [];
  type = pos 0;
  fixed_bw = pos 0;
  assured_bw = pos 0;
  max_bw = pos 0;
}

-- `n, _ = strconv.Atoi(m[1])`
abbrev number : Text → ℤ
number m = value_of (atoi m)

-- A line of a profile
unfoldable pub read_line : DbaProfile → Text → DbaProfile
read_line p line =
    on_match (capture_digits (codes "id:") line) (λ m. record p { id = number m })
      (on_match (capture_word (codes "name:") line) (λ m. record p { name = m })
        (on_match (capture_digits (codes "type:") line) (λ m. record p { type = number m })
          (on_match (capture_digits (codes "fixed:") line) (λ m. record p { fixed_bw = number m })
            (on_match (capture_digits (codes "assured:") line)
              (λ m. record p { assured_bw = number m })
              (on_match (capture_digits (codes "maximum:") line)
                (λ m. record p { max_bw = number m }) p)))))

-- `if current != nil && current.Name != "" { profiles = append(profiles, *current) }`
abbrev pub emit : Option DbaProfile → List DbaProfile
emit none = []
emit (some p) = if is_empty p.name then [] else p ∷ []

-- The loop over the lines, with the profile that is being read.
unfoldable pub read_lines : Option DbaProfile → List Text → List DbaProfile
unfolding read_line
read_lines current [] = emit current
read_lines current (raw ∷ rest) =
    let line = trim_space raw in
    let after_separator = read_lines (some empty_profile) rest in
    let after_line =
      read_lines (elim current [ none ↦ none | some p ↦ some (read_line p line) ]) rest in
    if has_prefix line (codes "*****") then emit current ++ after_separator else after_line

unfoldable pub parse_dba_profiles : Text → List DbaProfile
unfolding read_lines
parse_dba_profiles output = read_lines none (split (sanitize_profile_output output) 10)

abbrev pub type_command : DbaProfile → List Text
type_command p =
    if eqb_ℤ p.type (pos 1)
    then (codes "type 1 fixed " ++ itoa p.fixed_bw) ∷ []
    else if eqb_ℤ p.type (pos 2)
    then (codes "type 2 assured " ++ itoa p.assured_bw) ∷ []
    else if eqb_ℤ p.type (pos 3)
    then (codes "type 3 assured " ++ (itoa p.assured_bw ++ (codes " maximum " ++ itoa p.max_bw)))
      ∷ []
    else if eqb_ℤ p.type (pos 4)
    then (codes "type 4 maximum " ++ itoa p.max_bw) ∷ []
    else if eqb_ℤ p.type (pos 5)
    then (codes "type 5 fixed "
        ++ (itoa p.fixed_bw
            ++ (codes " assured " ++ (itoa p.assured_bw ++ (codes " maximum " ++ itoa p.max_bw)))))
      ∷ []
    else []

unfoldable pub build_dba_profile_create_commands : ℤ → DbaProfile → List Text
build_dba_profile_create_commands id p =
    codes "configure terminal"
    ∷ (codes "profile dba id " ++ (itoa id ++ (codes " name " ++ p.name)))
    ∷ (type_command p ++ codes "commit" ∷ codes "exit" ∷ codes "exit" ∷ [])

abbrev pub list_commands : List Text
list_commands = codes "configure terminal" ∷ codes "show profile dba" ∷ codes "exit" ∷ []

abbrev pub delete_commands : ℤ → List Text
delete_commands id =
    codes "configure terminal" ∷ (codes "no profile dba id " ++ itoa id) ∷ codes "exit" ∷ []

abbrev find_name : Text → List DbaProfile → Option DbaProfile
find_name name [] = none
find_name name (p ∷ ps) = if text_eq p.name name then some p else find_name name ps

module _ {S : Type 0} (cli : Option (Executor S)) where
  unfoldable pub list_dba_profiles : Run S (List DbaProfile)
  list_dba_profiles = require_cli cli λ exec. do
    outputs ← exec_or exec (codes "failed to list DBA profiles: ") list_commands
    pure (parse_dba_profiles (cli_output_at outputs 1))

  unfoldable pub get_dba_profile : Text → Run S DbaProfile
  unfolding list_dba_profiles
  get_dba_profile name = require_cli cli λ exec. do
    from_result (validate_profile_name name)
    profiles ← list_dba_profiles
    elim (find_name name profiles) [
      | some p ↦ pure p
      | none ↦ fail (failed (codes "DBA profile " ++ (quote name ++ codes " not found")))
    ]

  unfoldable pub create_dba_profile : DbaProfile → Run S (Unit {0})
  unfolding list_dba_profiles
  create_dba_profile p = require_cli cli λ exec. do
    from_result (validate_profile_name p.name)
    from_result (
        reject_if (ltb_ℤ p.type (pos 1) || ltb_ℤ (pos 5) p.type)
          (failed (codes "profile type must be between 1 and 5")))
    existing ← wrap_run (codes "failed to list existing profiles: ") list_dba_profiles
    outputs ←
        exec_or exec (codes "failed to create DBA profile: ")
          (build_dba_profile_create_commands (next_id (map (λ q. q.id) existing)) p)
    from_result (wrap (codes "failed to create DBA profile: ") (detect_profile_cli_errors outputs))

  unfoldable pub delete_dba_profile : Text → Run S (Unit {0})
  unfolding get_dba_profile
  delete_dba_profile name = require_cli cli λ exec. do
    from_result (validate_profile_name name)
    profile ← get_dba_profile name
    outputs ← exec_or exec (codes "failed to delete DBA profile: ") (delete_commands profile.id)
    from_result (wrap (codes "failed to delete DBA profile: ") (detect_profile_cli_errors outputs))
