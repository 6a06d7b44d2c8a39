-- ===== src/Vsol/TrafficProfile.antt =====
-- vendors/vsol/traffic_profile.go: traffic profiles.
pub mod Effects
use nano_southbound.Prelude.{
  not, Option, none, some, List, [], ◌∷◌, ◌++◌, map, if◌then◌else◌, is_empty, ℤ, pos, ltb_ℤ,
}
use nano_southbound.Go.Text.{Text, codes, has_prefix, split, trim_space, text_eq}
use nano_southbound.Go.Number.{atoi, value_of, itoa}
use nano_southbound.Go.Quote.{quote}
use nano_southbound.Go.Result.{reject_if}
use nano_southbound.Types.LineProfile.{TrafficProfile}
use nano_southbound.Vsol.NextId.{next_id}
use nano_southbound.Vsol.Session.{
  failed, Executor, Run, ◌>>=◌, ◌>>◌, pure, fail, from_result, require_cli, exec_or, wrap, wrap_run,
}
use nano_southbound.Vsol.ProfileText.{
  sanitize_profile_output, cli_output_at, validate_profile_name, capture_digits, capture_word,
  on_match, detect_profile_cli_errors,
}

abbrev pub empty_profile : TrafficProfile
empty_profile = record { id = pos 0; name = []; sir = pos 0; pir = pos 0 }

-- `n, _ = strconv.Atoi(m[1])`
abbrev number : Text → ℤ
number m = value_of (atoi m)

-- A line of a profile
unfoldable pub read_line : TrafficProfile → Text → TrafficProfile
read_line p line =
    on_match (capture_digits (codes "id:") line) (λ m. record p { id = number m })
      (on_match (capture_word (codes "name:") line) (λ m. record p { name = m })
        (on_match (capture_digits (codes "sir:") line) (λ m. record p { sir = number m })
          (on_match (capture_digits (codes "pir:") line) (λ m. record p { pir = number m }) p)))

abbrev pub emit : Option TrafficProfile → List TrafficProfile
emit none = []
emit (some p) = if is_empty p.name then [] else p ∷ []

-- The loop over the lines, with the profile that is being read.
unfoldable pub read_lines : Option TrafficProfile → List Text → List TrafficProfile
unfolding read_line
read_lines current [] = emit current
read_lines current (raw ∷ rest) =
    let line = trim_space raw in
    let after_separator = read_lines (some empty_profile) rest in
    let after_line =
      read_lines (elim current [ none ↦ none | some p ↦ some (read_line p line) ]) rest in
    if has_prefix line (codes "*****") then emit current ++ after_separator else after_line

unfoldable pub parse_traffic_profiles : Text → List TrafficProfile
unfolding read_lines
parse_traffic_profiles output = read_lines none (split (sanitize_profile_output output) 10)

unfoldable pub build_traffic_profile_create_commands : ℤ → TrafficProfile → List Text
build_traffic_profile_create_commands id p =
    codes "configure terminal"
    ∷ (codes "profile traffic id " ++ (itoa id ++ (codes " name " ++ p.name)))
    ∷ (codes "sir " ++ (itoa p.sir ++ (codes " pir " ++ itoa p.pir)))
    ∷ codes "commit"
    ∷ codes "exit"
    ∷ codes "exit"
    ∷ []

abbrev pub list_commands : List Text
list_commands = codes "configure terminal" ∷ codes "show profile traffic" ∷ codes "exit" ∷ []

abbrev pub delete_commands : ℤ → List Text
delete_commands id =
    codes "configure terminal" ∷ (codes "no profile traffic id " ++ itoa id) ∷ codes "exit" ∷ []

abbrev pub find_name : Text → List TrafficProfile → Option TrafficProfile
find_name name [] = none
find_name name (p ∷ ps) = if text_eq p.name name then some p else find_name name ps

module _ {S : Type 0} (cli : Option (Executor S)) where
  unfoldable pub list_traffic_profiles : Run S (List TrafficProfile)
  list_traffic_profiles = require_cli cli λ exec. do
    outputs ← exec_or exec (codes "failed to list traffic profiles: ") list_commands
    pure (parse_traffic_profiles (cli_output_at outputs 1))

  unfoldable pub get_traffic_profile : Text → Run S TrafficProfile
  unfolding list_traffic_profiles
  get_traffic_profile name = require_cli cli λ exec. do
    from_result (validate_profile_name name)
    profiles ← list_traffic_profiles
    elim (find_name name profiles) [
      | some p ↦ pure p
      | none ↦ fail (failed (codes "traffic profile " ++ (quote name ++ codes " not found")))
    ]

  unfoldable pub create_traffic_profile : TrafficProfile → Run S (Unit {0})
  unfolding list_traffic_profiles
  create_traffic_profile p = require_cli cli λ exec. do
    from_result (validate_profile_name p.name)
    from_result
        (reject_if (not (ltb_ℤ (pos 0) p.pir)) (failed (codes "PIR must be greater than 0")))
    existing ← wrap_run (codes "failed to list existing profiles: ") list_traffic_profiles
    outputs ←
        exec_or exec (codes "failed to create traffic profile: ")
          (build_traffic_profile_create_commands (next_id (map (λ q. q.id) existing)) p)
    from_result
        (wrap (codes "failed to create traffic profile: ") (detect_profile_cli_errors outputs))

  unfoldable pub delete_traffic_profile : Text → Run S (Unit {0})
  unfolding get_traffic_profile
  delete_traffic_profile name = require_cli cli λ exec. do
    from_result (validate_profile_name name)
    profile ← get_traffic_profile name
    outputs ← exec_or exec (codes "failed to delete traffic profile: ") (delete_commands profile.id)
    from_result
        (wrap (codes "failed to delete traffic profile: ") (detect_profile_cli_errors outputs))
