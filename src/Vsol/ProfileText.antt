-- ===== src/Vsol/ProfileText.antt =====
-- What the profile files of the adapter share: vendors/vsol/onu_profile.go (`sanitizeProfileOutput`,
-- `cliOutputAt`, `validateProfileName` and the regular expressions) and vendors/vsol/dba_profile.go
-- (`detectProfileCLIErrors`).
pub mod Names
use nano_southbound.Prelude.{
  ℕ, zero, suc, ◌+◌, Bool, true, false, not, ◌&&◌, ◌||◌, Option, none, some, List, [], ◌∷◌, ◌++◌,
  map, ltb, ◌==◌, if◌then◌else◌, is_empty, keep, every, length,
}
use nano_southbound.Go.Text.{
  Text, codes, is_digit, is_lower, is_upper, to_lower, contains, split, join, trim_space, lower,
}
use nano_southbound.Go.Quote.{quote}
use nano_southbound.Go.Result.{Result, ok, err, Check, reject_if, ◌>>◌}
use nano_southbound.Common.Ansi.{strip_ansi}
use nano_southbound.Vsol.Session.{Error, failed}

unfoldable pub sanitize_profile_output : Text → Text
sanitize_profile_output output =
    let shown = strip_ansi (keep (λ c. not (c == 8)) (keep (λ c. not (c == 13)) output)) in
    join (keep (λ line. not (contains line (codes "--More--"))) (split shown 10)) (codes "\n")

unfoldable pub cli_output_at : List Text → ℕ → Text
cli_output_at [] i = []
cli_output_at (o ∷ os) zero = o
cli_output_at (o ∷ os) (suc i) = cli_output_at os i

-- The expression `^[a-zA-Z0-9_.\-]+$`, byte by byte
abbrev pub is_name_byte : ℕ → Bool
is_name_byte c = is_lower c || is_upper c || is_digit c || c == b'_' || c == b'.' || c == b'-'

unfoldable pub validate_profile_name : Text → Check Error
validate_profile_name name = do
  reject_if (is_empty name) (failed (codes "profile name is required"))
  reject_if (ltb 64 (length name)) (failed (codes "profile name too long (max 64 characters)"))
  reject_if (not (every is_name_byte name)) (
      failed (
        codes "profile name "
        ++ quote name
        ++ codes
            " contains invalid characters (only alphanumeric, underscore, hyphen, dot allowed)"))

-- The class `\s`
abbrev is_re_space : ℕ → Bool
is_re_space c = c == 9 || c == 10 || c == 12 || c == 13 || c == 32

unfoldable pub skip_spaces : Text → Text
skip_spaces [] = []
skip_spaces (c ∷ s) = if is_re_space c then skip_spaces s else c ∷ s

-- The text behind a label; `norm` is applied to the bytes that are compared.
unfoldable pub after_label : (ℕ → ℕ) → Text → Text → Option Text
after_label norm [] s = some s
after_label norm (l ∷ ls) [] = none
after_label norm (l ∷ ls) (c ∷ s) = if norm c == norm l then after_label norm ls s else none

unfoldable pub take_run : (ℕ → Bool) → Text → Text
take_run p [] = []
take_run p (c ∷ s) = let rest = take_run p s in if p c then c ∷ rest else []

abbrev not_empty : Text → Option Text
not_empty [] = none
not_empty (c ∷ s) = some (c ∷ s)

-- The group of `^\s*LABEL\s*(CLASS+)`, where no blank that is passed over is of the class
unfoldable pub capture : (ℕ → ℕ) → (ℕ → Bool) → Text → Text → Option Text
unfolding skip_spaces after_label take_run
capture norm class label line = elim (after_label norm label (skip_spaces line)) [
  | none ↦ none
  | some rest ↦ not_empty (take_run class (skip_spaces rest))
]

-- With the flag `(?i)`, for ASCII text
unfoldable pub capture_digits : Text → Text → Option Text
unfolding capture
capture_digits = capture lower is_digit

unfoldable pub capture_word : Text → Text → Option Text
unfolding capture
capture_word = capture lower (λ c. not (is_re_space c))

-- Without it: `(\d+)`, `(\S+)`, and `(.+)$` on a line that ends in no blank
abbrev same_case : ℕ → ℕ
same_case c = c

unfoldable pub capture_id : Text → Text → Option Text
unfolding capture
capture_id = capture same_case is_digit

unfoldable pub capture_value : Text → Text → Option Text
unfolding capture
capture_value = capture same_case (λ c. not (is_re_space c))

unfoldable pub capture_rest : Text → Text → Option Text
unfolding capture
capture_rest = capture same_case (λ c. not (c == 10))

-- `if m := re.FindStringSubmatch(line); len(m) == 2 { … } else …`
abbrev pub on_match {ℓ} : {A : Type ℓ} → Option Text → (Text → A) → A → A
on_match none f otherwise = otherwise
on_match (some m) f otherwise = f m

unfoldable pub detect_profile_cli_errors : List Text → Check Error
detect_profile_cli_errors [] = ok tt
detect_profile_cli_errors (output ∷ rest) =
    let later = detect_profile_cli_errors rest in
    let low = to_lower output in
    if contains low (codes "can't delete profile")
    then err (failed (codes "profile is in use: " ++ trim_space output))
    else if contains low (codes "already existed")
    then err (failed (codes "profile already exists: " ++ trim_space output))
    else if contains low (codes "isn't existed") || contains low (codes "is not exist")
    then err (failed (codes "profile does not exist: " ++ trim_space output))
    else later
