-- ===== src/Drivers/Cli/Prompt.antt =====
-- drivers/cli/expect.go: the regular expressions and `cleanOutput`. The expressions end in `\s*$`, and
-- are read from the end of the text. A line that is matched has no blanks at its ends.
use nano_southbound.Prelude.{
  ℕ, ◌==◌, Bool, false, not, ◌&&◌, ◌||◌, List, [], ◌∷◌, keep, if◌then◌else◌,
}
use nano_southbound.Go.Text.{
  Text, codes, is_digit, is_lower, is_upper, to_lower, contains, has_prefix, split, join, trim_left,
  trim_space, text_eq,
}

unfoldable pub reverse_onto : Text → Text → Text
reverse_onto out [] = out
reverse_onto out (c ∷ s) = reverse_onto (c ∷ out) s

unfoldable pub reverse : Text → Text
unfolding reverse_onto
reverse s = reverse_onto [] s

-- The classes `[\w\-]`, `[\w\-~]` and `[\w\-\[\]()]`
abbrev pub is_word : ℕ → Bool
is_word c = is_lower c || is_upper c || is_digit c || c == b'_' || c == b'-'

abbrev pub is_view : ℕ → Bool
is_view c = is_word c || c == b'~'

abbrev pub is_bracketed : ℕ → Bool
is_bracketed c = is_word c || c == b'[' || c == b']' || c == b'(' || c == b')'

abbrev head_is : (ℕ → Bool) → Text → Bool
head_is p [] = false
head_is p (c ∷ s) = p c

-- Behind a closing parenthesis, read backwards: `[\w\-]+\([^\)]+`
unfoldable pub opens_mode : Text → Bool
opens_mode [] = false
opens_mode (c ∷ s) =
    let further = opens_mode s in
    not (c == b')') && (elim s [ [] ↦ false | d ∷ t ↦ (d == b'(' && head_is is_word t) ] || further)

-- `CLASS+` and then the byte that opens
unfoldable pub opens_after : (ℕ → Bool) → ℕ → Text → Bool
opens_after class opener [] = false
opens_after class opener (c ∷ s) =
    let further = opens_after class opener s in class c && (head_is (λ d. d == opener) s || further)

-- The patterns of prompts: `DefaultPromptPattern`, that of V-SOL, C-Data and Cisco, and that of Huawei
-- and ZTE
pub data PromptPattern : Type 0 where
  default_prompt : PromptPattern
  mode_prompt : PromptPattern
  view_prompt : PromptPattern

abbrev is_end : ℕ → Bool
is_end c = c == b'#' || c == b'>'

unfoldable pub matches_backwards : PromptPattern → Text → Bool
unfolding opens_mode opens_after
matches_backwards p [] = false
matches_backwards default_prompt (c ∷ s) = is_end c && head_is is_bracketed s
matches_backwards mode_prompt (c ∷ s) =
    is_end c && (head_is is_word s || elim s [ [] ↦ false | d ∷ t ↦ d == b')' && opens_mode t ])
matches_backwards view_prompt (c ∷ s) =
    (c == b'>' && opens_after is_word b'<' s) || (c == b']' && opens_after is_view b'[' s)

-- promptRE.MatchString(line) where the line has no blanks at its ends
unfoldable pub matches_prompt : PromptPattern → Text → Bool
unfolding reverse matches_backwards
matches_prompt p line = matches_backwards p (reverse line)

-- VendorPrompts[strings.ToLower(vendor)], or the default
unfoldable pub vendor_prompt : Text → PromptPattern
unfolding to_lower
vendor_prompt vendor =
    let v = to_lower vendor in
    if text_eq v (codes "huawei") || text_eq v (codes "zte")
    then view_prompt
    else if text_eq v (codes "vsol") || text_eq v (codes "cdata") || text_eq v (codes "cisco")
    then mode_prompt
    else default_prompt

-- pagerMoreRE.MatchString(chunk)
unfoldable pub matches_pager : Text → Bool
unfolding contains
matches_pager chunk =
    contains chunk (codes "--More--")
    || contains chunk (codes "More:")
    || contains chunk (codes "Press any key to continue")

-- `(?i)LABEL\s*:\s*$`
unfoldable pub ends_label : Text → Text → Bool
unfolding reverse trim_left has_prefix to_lower
ends_label label output = elim (trim_left (reverse output)) [
  | [] ↦ false
  | c ∷ s ↦ c == b':' && has_prefix (trim_left s) (reverse label)
]

unfoldable pub asks_login : Text → Bool
unfolding ends_label
asks_login output =
    ends_label (codes "login") (to_lower output) || ends_label (codes "username") (to_lower output)

unfoldable pub asks_password : Text → Bool
unfolding ends_label
asks_password output = ends_label (codes "password") (to_lower output)

-- Line 0 is left out if it has the command.
abbrev pub drop_echo : Text → List Text → List Text
drop_echo command [] = []
drop_echo command (first ∷ rest) = if contains first command then rest else first ∷ rest

abbrev pub is_output : PromptPattern → Text → Bool
is_output p line = not (matches_prompt p (trim_space line))

unfoldable pub clean_output : PromptPattern → Text → Text → Text
clean_output p output command =
    trim_space (join (keep (is_output p) (drop_echo command (split output 10))) (codes "\n"))
