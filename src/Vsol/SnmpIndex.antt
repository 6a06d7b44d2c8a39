-- ===== src/Vsol/SnmpIndex.antt =====
-- vendors/vsol/snmp_oids.go: indices of the SNMP tables, and PON ports.
pub mod RoundTrip
use nano_southbound.Prelude.{
  ℕ, ◌==◌, Bool, true, false, Option, none, some, List, [], ◌∷◌, ◌++◌, if◌then◌else◌, ℤ,
}
use nano_southbound.Go.Text.{Text, codes, has_prefix, trim_prefix, split}
use nano_southbound.Go.Number.{atoi, success, itoa}
use nano_southbound.Go.Result.{Result, ok, err, ◌>>=◌}

-- The messages of the errors; a parse error holds the part that is no number.
pub data Error : Type 0 where
  wrong_format : Text → Error
  invalid_pon : Text → Error
  invalid_onu : Text → Error
  invalid_gem : Text → Error
  invalid_port : Text → Error
  not_a_number : Text → Error

unfoldable pub strip_leading_dot : Text → Text
strip_leading_dot [] = []
strip_leading_dot (c ∷ s) = if c == b'.' then s else c ∷ s

abbrev pub number_or_fail : Error → Text → Result Error ℤ
number_or_fail e part = elim (success (atoi part)) [ some v ↦ ok v | none ↦ err e ]

abbrev pub two_numbers : Text → List Text → Result Error (ℤ × ℤ)
two_numbers index (a ∷ b ∷ []) = do
  pon ← number_or_fail (invalid_pon index) a
  onu ← number_or_fail (invalid_onu index) b
  ok (pon, onu)
two_numbers index _ = err (wrong_format index)

abbrev pub three_numbers : Text → List Text → Result Error (ℤ × ℤ × ℤ)
three_numbers index (a ∷ b ∷ c ∷ []) = do
  pon ← number_or_fail (invalid_pon index) a
  onu ← number_or_fail (invalid_onu index) b
  gem ← number_or_fail (invalid_gem index) c
  ok (pon, onu, gem)
three_numbers index _ = err (wrong_format index)

unfoldable pub parse_onu_index : Text → Result Error (ℤ × ℤ)
parse_onu_index index = let bare = strip_leading_dot index in two_numbers bare (split bare b'.')

unfoldable pub parse_onu_vlan_index : Text → Result Error (ℤ × ℤ × ℤ)
parse_onu_vlan_index index =
    let bare = strip_leading_dot index in three_numbers bare (split bare b'.')

unfoldable pub pon_index_to_port : ℤ → Text
pon_index_to_port pon = codes "0/" ++ itoa pon

unfoldable pub port_to_pon_index : Text → Result Error ℤ
port_to_pon_index port =
    if has_prefix port (codes "0/")
    then number_or_fail (invalid_port port) (trim_prefix port (codes "0/"))
    else number_or_fail (not_a_number port) port
