-- ===== src/Common/Sanitize.antt =====
-- vendors/common/text.go: `SanitizeCLIParam`.
use nano_southbound.Prelude.{ℕ, ◌≡◌, Bool, true, not, ◌==◌, every, exists, keep}
use nano_southbound.Go.Text.{Text, codes, trim_space}
use nano_southbound.Go.Text.Trim.{trim_space_idem, every-trim_space, every-keep, keep-eq_self}

-- The characters that are removed: ; | & ` $ newline return " ' \ ( ) < > ! ? ~ { }
abbrev pub metacharacters : Text
metacharacters = codes ";|&`$\n\r\"'\\()<>!?~{}"

unfoldable pub is_metacharacter : ℕ → Bool
is_metacharacter c = exists (λ m. m == c) metacharacters

abbrev pub is_plain : ℕ → Bool
is_plain c = not (is_metacharacter c)

unfoldable pub sanitize_cli_param : Text → Text
sanitize_cli_param s = trim_space (keep is_plain s)

every-sanitize_cli_param : (s : Text) → every is_plain (sanitize_cli_param s) ≡ true
unfolding sanitize_cli_param
every-sanitize_cli_param s = every-trim_space is_plain (keep is_plain s) (every-keep is_plain s)

sanitize_cli_param_idem :
    (s : Text) → sanitize_cli_param (sanitize_cli_param s) ≡ sanitize_cli_param s
sanitize_cli_param_idem s =
    unfold sanitize_cli_param in
    rw (keep-eq_self is_plain (trim_space (keep is_plain s)) (every-sanitize_cli_param s))
      (trim_space_idem (keep is_plain s))

-- Whatever the text, no metacharacter is left in what is sanitised, and that stays as it is when it
-- is sanitised again.
pub sanitize_cli_param-plain :
    (s : Text)
    → (every is_plain (sanitize_cli_param s) ≡ true)
      × (sanitize_cli_param (sanitize_cli_param s) ≡ sanitize_cli_param s)
sanitize_cli_param-plain s = (every-sanitize_cli_param s, sanitize_cli_param_idem s)
