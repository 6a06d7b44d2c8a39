-- ===== src/Vsol/Wifi/Readback.antt =====
-- vendors/vsol/wifi.go: what is read from a running configuration by regular expressions.
use nano_southbound.Prelude.{
  ℕ, suc, Bool, true, false, Option, none, some, List, [], ◌∷◌, if◌then◌else◌, is_empty, ◌==◌,
}
use nano_southbound.Go.Text.{Text, codes, is_digit, trim_space}
use nano_southbound.Types.Wifi.{WifiConfig}
use nano_southbound.Vsol.Wifi.Outputs.{
  word_length, spaces_length, solid_length, drop, take, some_spaces,
}

-- A word whatever its case, or `\d+`
pub data Token : Type 0 where
  word : Text → Token
  number : Token

unfoldable pub digits_length : Text → ℕ
digits_length [] = 0
digits_length (c ∷ s) = let rest = digits_length s in if is_digit c then suc rest else 0

unfoldable pub token_length : Token → Text → Option ℕ
unfolding word_length digits_length
token_length (word w) s = word_length w s
token_length number s = some_spaces (digits_length s)

-- What is behind the tokens, with `\s+` behind each
unfoldable pub after_tokens : List Token → Text → Option Text
unfolding token_length spaces_length drop
after_tokens [] s = some s
after_tokens (t ∷ ts) s = elim (token_length t s) [
  | none ↦ none
  | some n ↦ elim (some_spaces (spaces_length (drop n s))) [
    | none ↦ none
    | some k ↦ after_tokens ts (drop k (drop n s))
  ]
]

-- The match that begins first
unfoldable pub first_match : (Text → Option Text) → Text → Option Text
first_match match [] = match []
first_match match (c ∷ s) =
    let later = first_match match s in elim (match (c ∷ s)) [ none ↦ later | some m ↦ some m ]

abbrev not_empty : Text → Option Text
not_empty [] = none
not_empty (c ∷ s) = some (c ∷ s)

-- `[^"]+` up to the quote that ends it, which may stand on another line
unfoldable pub up_to_quote : Text → Option Text
up_to_quote [] = none
up_to_quote (c ∷ s) =
    let rest = up_to_quote s in
    if c == b'"' then some [] else elim rest [ none ↦ none | some m ↦ some (c ∷ m) ]

unfoldable pub quoted : Text → Option Text
unfolding up_to_quote
quoted [] = none
quoted (c ∷ s) =
    if c == b'"' then elim (up_to_quote s) [ none ↦ none | some m ↦ not_empty m ] else none

unfoldable pub solid : Text → Option Text
unfolding solid_length take
solid s = not_empty (take (solid_length s) s)

-- `(enable|disable)`, of which it matters which
unfoldable pub switch : Text → Option Text
unfolding word_length
switch s = elim (word_length (codes "enable") s) [
  | some n ↦ some (codes "enable")
  | none ↦ elim (word_length (codes "disable") s) [ none ↦ none | some n ↦ some (codes "disable") ]
]

abbrev behind : List Token → (Text → Option Text) → Text → Option Text
behind tokens capture s = elim (after_tokens tokens s) [ none ↦ none | some rest ↦ capture rest ]

abbrev onu_tokens : List Token → List Token
onu_tokens tokens = word (codes "onu") ∷ number ∷ tokens

unfoldable pub running_ssid : Text → Option Text
unfolding first_match after_tokens quoted
running_ssid =
    first_match (behind (onu_tokens (word (codes "wifi") ∷ word (codes "ssid") ∷ [])) quoted)

unfoldable pub running_enabled : Text → Option Text
unfolding first_match after_tokens switch
running_enabled =
    first_match (behind (onu_tokens (word (codes "wifi") ∷ word (codes "enabled") ∷ [])) switch)

abbrev is_enable : Text → Bool
is_enable m = elim (word_length (codes "enable") m) [ none ↦ false | some n ↦ true ]

unfoldable pub parse_wifi_readback_from_running_config : Text → Option WifiConfig
unfolding running_ssid running_enabled
parse_wifi_readback_from_running_config raw = elim (running_ssid raw) [
  | none ↦ none
  | some m ↦ elim (running_enabled raw) [
    | none ↦ none
    | some on ↦
        if is_empty (trim_space m)
        then none
        else some (record { ssid = trim_space m; password = []; enabled = is_enable on })
  ]
]

unfoldable pub parse_onu_profile_name : Text → Option Text
unfolding first_match after_tokens solid
parse_onu_profile_name =
    first_match (behind (onu_tokens (word (codes "profile") ∷ word (codes "onu") ∷ [])) solid)
