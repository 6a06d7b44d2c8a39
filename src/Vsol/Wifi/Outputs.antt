-- ===== src/Vsol/Wifi/Outputs.antt =====
-- vendors/vsol/wifi.go: what is read from outputs and errors, and what is kept out of them.
use nano_southbound.Prelude.{
  ℕ, zero, suc, ◌+◌, ◌-◌, ◌==◌, Bool, false, ◌&&◌, ◌||◌, Option, none, some, List, [], ◌∷◌, ◌++◌,
  if◌then◌else◌, is_empty, exists,
}
use nano_southbound.Go.Text.{
  Text, codes, to_lower, contains, has_prefix, trim_prefix, trim_space, split, text_eq, equal_fold,
  lower,
}
use nano_southbound.Types.Wifi.{
  WifiErrorCode, onu_offline, onu_not_found, unsupported_operation, command_timeout, invalid_value,
  permission_denied, internal_error, pri_unsupported,
}

abbrev with_error : Text → Option Text → Text
with_error combined none = combined
with_error combined (some message) =
    if is_empty combined then to_lower message else combined ++ (codes " " ++ to_lower message)

-- `err` is the text of the error, if there is one.
unfoldable pub classify_wifi_err_code : Option Text → Text → WifiErrorCode
classify_wifi_err_code err output =
    let combined = with_error (to_lower (trim_space output)) err in
    if contains combined (codes "unsupport private protocol")
    then pri_unsupported
    else if contains combined (codes "unsupported operation")
    then unsupported_operation
    else if contains combined (codes "timeout")
    then command_timeout
    else if contains combined (codes "permission denied")
        || contains combined (codes "not authorized")
    then permission_denied
    else if contains combined (codes "not found") || contains combined (codes "no onu")
    then onu_not_found
    else if contains combined (codes "offline") || contains combined (codes "los")
    then onu_offline
    else if contains combined (codes "invalid") || contains combined (codes "out of range")
    then invalid_value
    else internal_error

abbrev markers : List Text
markers =
    codes "unknown command"
    ∷ codes "no matched command"
    ∷ codes "% error"
    ∷ codes "error:"
    ∷ codes "invalid input"
    ∷ codes "failed"
    ∷ codes "permission denied"
    ∷ codes "unsupport private protocol"
    ∷ []

unfoldable pub has_cli_error_marker : Text → Bool
has_cli_error_marker output = exists (λ marker. contains (to_lower output) marker) markers

unfoldable pub is_offline_state : Text → Bool
is_offline_state state =
    exists (λ s. text_eq (to_lower (trim_space state)) s)
      (codes "offline" ∷ codes "los" ∷ codes "dying_gasp" ∷ codes "down" ∷ [])

unfoldable pub first_line : Text → Text
first_line v = elim (split (trim_space v) 10) [ [] ↦ [] | line ∷ rest ↦ trim_space line ]

unfoldable pub normalize_reason : Option Text → Text → Text
unfolding first_line
normalize_reason (some message) output = message
normalize_reason none output =
    let line = first_line output in if is_empty line then codes "CLI command failed" else line

-- The class `\s`
abbrev is_re_space : ℕ → Bool
is_re_space c = c == 9 || c == 10 || c == 12 || c == 13 || c == 32

-- How long a match is: of a word whatever its case, of `\s*`, of `\S+`, and of `.*?"`
unfoldable pub word_length : Text → Text → Option ℕ
word_length [] s = some 0
word_length (w ∷ ws) [] = none
word_length (w ∷ ws) (c ∷ s) =
    let rest = word_length ws s in
    if lower c == w then elim rest [ none ↦ none | some n ↦ some (suc n) ] else none

unfoldable pub spaces_length : Text → ℕ
spaces_length [] = 0
spaces_length (c ∷ s) = let rest = spaces_length s in if is_re_space c then suc rest else 0

unfoldable pub solid_length : Text → ℕ
solid_length [] = 0
solid_length (c ∷ s) = let rest = solid_length s in if is_re_space c then 0 else suc rest

unfoldable pub quoted_length : Text → Option ℕ
quoted_length [] = none
quoted_length (c ∷ s) =
    let rest = quoted_length s in
    if c == b'"'
    then some 1
    else if c == 10
    then none
    else elim rest [ none ↦ none | some n ↦ some (suc n) ]

unfoldable pub drop : ℕ → Text → Text
drop zero s = s
drop (suc n) [] = []
drop (suc n) (c ∷ s) = drop n s

unfoldable pub take : ℕ → Text → Text
take zero s = []
take (suc n) [] = []
take (suc n) (c ∷ s) = c ∷ take n s

abbrev pub some_spaces : ℕ → Option ℕ
some_spaces zero = none
some_spaces (suc n) = some (suc n)

-- `(".*?"|\S+)`
unfoldable pub secret_length : Text → Option ℕ
unfolding quoted_length solid_length
secret_length [] = none
secret_length (c ∷ s) =
    let solid = some_spaces (solid_length (c ∷ s)) in
    if c == b'"' then elim (quoted_length s) [ none ↦ solid | some n ↦ some (suc n) ] else solid

-- The words with `\s+` behind each
unfoldable pub label_length : List Text → Text → Option ℕ
unfolding word_length spaces_length drop
label_length [] s = some 0
label_length (w ∷ ws) s = elim (word_length w s) [
  | none ↦ none
  | some n ↦ elim (some_spaces (spaces_length (drop n s))) [
    | none ↦ none
    | some k ↦ elim (label_length ws (drop k (drop n s))) [
      | none ↦ none
      | some r ↦ some (n + (k + r))
    ]
  ]
]

-- A match at the beginning: the lengths of the label and of the secret
unfoldable pub match_at : List Text → Text → Option (ℕ × ℕ)
unfolding label_length secret_length
match_at label s = elim (label_length label s) [
  | none ↦ none
  | some n ↦ elim (secret_length (drop n s)) [ none ↦ none | some k ↦ some (n, k) ]
]

-- `ReplaceAllString`: so many bytes are passed over, which a match has used up.
unfoldable pub replace_secrets : List Text → ℕ → Text → Text
unfolding match_at take
replace_secrets label skip [] = []
replace_secrets label (suc skip) (c ∷ s) = replace_secrets label skip s
replace_secrets label zero (c ∷ s) = elim (match_at label (c ∷ s)) [
  | none ↦ c ∷ replace_secrets label zero s
  | some (n, k) ↦ take n (c ∷ s) ++ (codes "<redacted>" ++ replace_secrets label (n + k - 1) s)
]

abbrev pub wifi_password_label : List Text
wifi_password_label = codes "wifi" ∷ codes "password" ∷ []

abbrev pub shared_key_label : List Text
shared_key_label = codes "shared_key" ∷ []

unfoldable pub redact_password : Text → Text
unfolding replace_secrets
redact_password text =
    replace_secrets shared_key_label 0 (replace_secrets wifi_password_label 0 text)

abbrev in_profile : Text → Text → Bool
in_profile target low = text_eq (trim_space (trim_prefix low (codes "name:"))) target

-- The loop over the lines, with whether they are of the profile
unfoldable pub read_readiness : Text → Bool → List Text → Bool
read_readiness target inside [] = false
read_readiness target inside (line ∷ lines) =
    let low = to_lower (trim_space line) in
    let label = codes "wifi mgmt via non omci:" in
    let named = read_readiness target (in_profile target low) lines in
    let further = read_readiness target inside lines in
    if has_prefix low (codes "name:")
    then named
    else if inside && has_prefix low label
    then equal_fold (trim_space (trim_prefix low label)) (codes "disable")
    else further

unfoldable pub parse_profile_omci_readiness : Text → Text → Bool
unfolding read_readiness
parse_profile_omci_readiness output profile_name =
    read_readiness (to_lower (trim_space profile_name)) false (split output 10)
