-- ===== src/Vsol/Wifi/Redaction.antt =====
-- What `redactPassword` takes out of an echo.
use nano_southbound.Prelude.{
  ℕ, suc, ◌+◌, ◌-◌, ◌≡◌, refl, sym, ap, ◌∙◌, Bool, true, not, ◌&&◌, some, List, [], ◌∷◌, ◌++◌,
  length, length-append, arith, every, ◌==◌, ltb, leb, append_assoc, pos,
}
use nano_southbound.Go.Text.{Text, codes, lower, is_digit, trim_space}
use nano_southbound.Go.Number.{itoa, format_nat, every-format_nat}
use nano_southbound.Go.Quote.{quote, escape_all}
use nano_southbound.Vsol.Wifi.Outputs.{
  word_length, spaces_length, quoted_length, label_length, secret_length, match_at, replace_secrets,
  drop, take, wifi_password_label, shared_key_label, redact_password,
}
use nano_southbound.Vsol.Wifi.Commands.{onu, quote_arg}

-- A byte that a quotation shows as it is
abbrev pub is_shown : ℕ → Bool
is_shown c = leb 32 c && ltb c 127 && not (c == b'"') && not (c == b'\\')

escape_all-shown : (p : Text) → every is_shown p ≡ true → escape_all p ≡ p
escape_all-shown [] h = refl
escape_all-shown (c ∷ p) h = ground (arith, escape_all-shown p)

quoted_length-shown :
    (p rest : Text)
    → every is_shown p ≡ true
    → quoted_length (p ++ b'"' ∷ rest) ≡ some (suc (length p))
unfolding quoted_length
quoted_length-shown [] rest h = refl
quoted_length-shown (c ∷ p) rest h = ground (arith, quoted_length-shown p rest)

-- What has been used up is passed over.
replace_secrets-skip :
    (label : List Text) (p rest : Text)
    → replace_secrets label (length p) (p ++ rest) ≡ replace_secrets label 0 rest
unfolding replace_secrets
replace_secrets-skip label [] rest = refl
replace_secrets-skip label (c ∷ p) rest = replace_secrets-skip label p rest

-- A text that has no byte with which a match could begin stays.
replace_secrets-prefix :
    (w : ℕ) (word : Text) (words : List Text) (p rest : Text)
    → every (λ c. not (lower c == w)) p ≡ true
    → replace_secrets ((w ∷ word) ∷ words) 0 (p ++ rest)
      ≡ p ++ replace_secrets ((w ∷ word) ∷ words) 0 rest
unfolding replace_secrets match_at label_length word_length
replace_secrets-prefix w word words [] rest h = refl
replace_secrets-prefix w word words (c ∷ p) rest h =
    ground (arith, replace_secrets-prefix w word words p rest)

-- A match of a label and a secret at the beginning
replace_secrets-match :
    (label : List Text) (c : ℕ) (secret rest : Text) (n k : ℕ)
    → match_at label (c ∷ (secret ++ rest)) ≡ some (n, k)
    → n + k ≡ suc (length secret)
    → replace_secrets label 0 (c ∷ (secret ++ rest))
      ≡ take n (c ∷ (secret ++ rest)) ++ (codes "<redacted>" ++ replace_secrets label 0 rest)
unfolding replace_secrets
replace_secrets-match label c secret rest n k m e =
    let skip : n + k - 1 ≡ length secret = ground arith in
    rw (replace_secrets, m, skip, replace_secrets-skip label secret rest)

echo_matches :
    (p tail : Text)
    → every is_shown p ≡ true
    → match_at wifi_password_label (codes "wifi password \"" ++ (p ++ b'"' ∷ tail))
      ≡ some (14, suc (suc (length p)))
unfolding match_at label_length secret_length word_length spaces_length drop
echo_matches p tail h = rw (match_at, quoted_length-shown p tail h)

-- The echo of a password in quotes, and what stands behind it
first_pass :
    (p tail : Text)
    → every is_shown p ≡ true
    → replace_secrets wifi_password_label 0 (codes "wifi password " ++ (quote p ++ tail))
      ≡ codes "wifi password <redacted>" ++ replace_secrets wifi_password_label 0 tail
unfolding quote take
first_pass p tail h =
    let secret = codes "ifi password \"" ++ (p ++ b'"' ∷ []) in
    let whole : codes "wifi password " ++ (quote p ++ tail) ≡ b'w' ∷ (secret ++ tail) =
      rw (escape_all-shown p h) refl in
    let size : 14 + suc (suc (length p)) ≡ suc (length secret) =
      ground (arith, length-append p (b'"' ∷ [])) in
    let matched : match_at wifi_password_label (b'w' ∷ (secret ++ tail))
        ≡ some (14, suc (suc (length p))) =
      ap (λ x. match_at wifi_password_label (codes "wifi password \"" ++ x))
        (append_assoc p (b'"' ∷ []) tail)
      ∙ echo_matches p tail h in
    rw whole (
      replace_secrets-match wifi_password_label b'w' secret tail 14 (suc (suc (length p))) matched
        size)

second_pass :
    (rest : Text)
    → replace_secrets shared_key_label 0 (codes "wifi password <redacted>" ++ rest)
      ≡ codes "wifi password <redacted>" ++ replace_secrets shared_key_label 0 rest
unfolding replace_secrets match_at label_length word_length
second_pass rest = refl

-- No match begins in the digits of a number.
digits_free :
    (w : ℕ) (d : Text)
    → leb b'a' w ≡ true
    → every is_digit d ≡ true
    → every (λ c. not (lower c == w)) (d ++ codes " ") ≡ true
digits_free w [] letter h = ground arith
digits_free w (c ∷ d) letter h = ground (arith, digits_free w d)

abbrev onu_prefix : ℕ → Text
onu_prefix n = codes "onu " ++ (format_nat n ++ codes " ")

pass_prefix :
    (w : ℕ) (word : Text) (words : List Text) (n : ℕ) (rest : Text)
    → leb b'a' w ≡ true
    → every (λ c. not (lower c == w)) (codes "onu ") ≡ true
    → replace_secrets ((w ∷ word) ∷ words) 0 (onu_prefix n ++ rest)
      ≡ onu_prefix n ++ replace_secrets ((w ∷ word) ∷ words) 0 rest
pass_prefix w word words n rest letter free =
    replace_secrets-prefix w word words (onu_prefix n) rest
      (ground (arith, digits_free w (format_nat n) letter (every-format_nat n)))

redact_echo :
    (n : ℕ) (p tail : Text)
    → every is_shown p ≡ true
    → redact_password (onu_prefix n ++ (codes "wifi password " ++ (quote p ++ tail)))
      ≡ onu_prefix n ++ (codes "wifi password <redacted>" ++ redact_password tail)
unfolding redact_password
redact_echo n p tail h =
    ap (replace_secrets shared_key_label 0) (
      pass_prefix b'w' (codes "ifi") (codes "password" ∷ []) n
        (codes "wifi password " ++ (quote p ++ tail)) refl refl
      ∙ ap (λ x. onu_prefix n ++ x) (first_pass p tail h))
    ∙ pass_prefix b's' (codes "hared_key") [] n _ refl refl
    ∙ ap (λ x. onu_prefix n ++ x) (second_pass (replace_secrets wifi_password_label 0 tail))

onu-onu_prefix :
    (n : ℕ) (command tail : Text)
    → onu (pos n) (b' ' ∷ command) ++ tail ≡ onu_prefix n ++ (command ++ tail)
unfolding itoa
onu-onu_prefix n command tail =
    ap (λ x. codes "onu " ++ x)
      (append_assoc (format_nat n) (b' ' ∷ command) tail
        ∙ sym (append_assoc (format_nat n) (codes " ") (command ++ tail)))

-- The echo of the command that sets a password, as a device shows it with whatever follows, has the
-- password replaced, if the password without blanks at its ends consists of printable ASCII characters other
-- than quotation marks and backslashes: what is left is the same for all such passwords.
pub redact_password-echo :
    (n : ℕ) (password tail : Text)
    → every is_shown (trim_space password) ≡ true
    → redact_password (onu (pos n) (codes " wifi password " ++ quote_arg password) ++ tail)
      ≡ onu (pos n) (codes " wifi password <redacted>") ++ redact_password tail
unfolding quote_arg itoa
redact_password-echo n password tail h =
    ap redact_password
      (onu-onu_prefix n (codes "wifi password " ++ quote (trim_space password)) tail)
    ∙ redact_echo n (trim_space password) tail h
    ∙ sym (onu-onu_prefix n (codes "wifi password <redacted>") (redact_password tail))
