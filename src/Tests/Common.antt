-- ===== src/Tests/Common.antt =====
-- The theorems about the package `vendors/common` at concrete inputs.
use nano_southbound.Prelude.{
  ℕ, ◌≡◌, refl, true, some, List, [], ◌∷◌, ℤ, pos, every, pos_part, ltb_ℤ,
}
use nano_southbound.Go.Text.{Text, codes, trim_space, text_eq}
use nano_southbound.Go.Number.{atoi}
use nano_southbound.Go.Map.{Map, lookup}
use nano_southbound.Common.Ansi.{
  Piece, plain, sequence, render, visible, strip_ansi, strip_ansi-render,
}
use nano_southbound.Common.Sanitize.{
  is_plain, is_metacharacter, sanitize_cli_param, sanitize_cli_param-plain,
}
use nano_southbound.Common.Annotations.{
  FirstHit, int_at, get_annotation_string, get_annotation_int, annotation-FirstHit,
}
use nano_southbound.Common.Snmp.{Floats}

abbrev pieces : List Piece
pieces = plain (codes "olt ") ∷ sequence (codes "1;31") b'm' ∷ plain (codes "down") ∷ []

strip_ansi-render_example : strip_ansi (render pieces) ≡ visible pieces
strip_ansi-render_example = strip_ansi-render pieces (refl, ((refl, refl), (refl, tt)))

sanitize_cli_param-plain_example :
    (every is_plain (sanitize_cli_param (codes " a;b\nreboot ")) ≡ true)
    × (sanitize_cli_param (sanitize_cli_param (codes " a;b\nreboot "))
        ≡ sanitize_cli_param (codes " a;b\nreboot "))
sanitize_cli_param-plain_example = sanitize_cli_param-plain (codes " a;b\nreboot ")

sanitize_runs : sanitize_cli_param (codes " a;b\nreboot ") ≡ codes "abreboot"
unfolding sanitize_cli_param trim_space is_metacharacter
sanitize_runs = refl

abbrev annotations : Map Text
annotations = (codes "a", codes "x1") ∷ (codes "b", codes "42") ∷ []

abbrev keys : List Text
keys = codes "z" ∷ codes "a" ∷ codes "b" ∷ []

annotation-FirstHit_example :
    FirstHit (λ k. lookup k annotations) keys (some (codes "x1"))
    × FirstHit (int_at annotations) keys (some (pos 42))
unfolding get_annotation_string get_annotation_int int_at lookup text_eq atoi
annotation-FirstHit_example = annotation-FirstHit annotations keys

abbrev results : Map ℕ
results = (codes ".1.3", 7) ∷ []

-- Floating point numbers that are whole
abbrev whole : Floats ℤ
whole = record {
  of_int = λ z. z;
  to_int64 = λ z. z;
  to_uint64 = pos_part;
  is_negative = λ z. ltb_ℤ z (pos 0);
}
