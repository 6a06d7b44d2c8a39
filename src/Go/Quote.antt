-- ===== src/Go/Quote.antt =====
-- Go's verb `%q` on ASCII text: `strconv.Quote`.
use nano_southbound.Prelude.{
  ℕ, ◌+◌, ◌-◌, ◌/◌, ◌%◌, ◌≡◌, refl, ◌||◌, [], ◌∷◌, ◌++◌, ltb, leb, ◌==◌, if◌then◌else◌,
}
use nano_southbound.Go.Text.{Text, codes}

abbrev hex_digit : ℕ → ℕ
hex_digit n = if ltb n 10 then b'0' + n else b'a' + n - 10

abbrev escape : ℕ → Text
escape c =
    if c == 34 || c == 92
    then 92 ∷ c ∷ []
    else if c == 7
    then codes "\\a"
    else if c == 8
    then codes "\\b"
    else if c == 9
    then codes "\\t"
    else if c == 10
    then codes "\\n"
    else if c == 11
    then codes "\\v"
    else if c == 12
    then codes "\\f"
    else if c == 13
    then codes "\\r"
    else if ltb c 32 || leb 127 c
    then codes "\\x" ++ hex_digit (c / 16) ∷ hex_digit (c % 16) ∷ []
    else c ∷ []

abbrev pub escape_all : Text → Text
escape_all [] = []
escape_all (c ∷ s) = escape c ++ escape_all s

unfoldable pub quote : Text → Text
quote s = 34 ∷ (escape_all s ++ 34 ∷ [])

quote_runs : quote (codes "a\"b\n") ≡ codes "\"a\\\"b\\n\""
unfolding quote
quote_runs = refl
