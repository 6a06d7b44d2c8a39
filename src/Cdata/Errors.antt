-- ===== src/Cdata/Errors.antt =====
-- vendors/cdata/errors.go: the translation of an error of the device.
pub mod Translation
use nano_southbound.Prelude.{
  Bool, true, false, Option, none, some, List, [], ◌∷◌, ◌++◌, if◌then◌else◌,
}
use nano_southbound.Go.Text.{Text, codes, to_lower, contains}
use nano_southbound.Go.Map.{Map}
use nano_southbound.Cdata.ErrorPatterns.{err_unknown, ErrorMapping, mapping}

-- A value of Go's type `error`: one of the type `TranslatedError`, with the error it is made of, or another one with its text
pub data Error : Type 0 where
  translated : Error → ErrorMapping → Error
  other_error : Text → Error

-- `err.Error()`
unfoldable pub error_text : Error → Text
error_text (translated original m) =
    codes "["
    ++ (m.code ++ (codes "] " ++ (m.human ++ (codes " (action: " ++ (m.action ++ codes ")")))))
error_text (other_error message) = message

-- The loop over the patterns, in the order in which they come
unfoldable pub find_pattern : Text → Map ErrorMapping → Option ErrorMapping
find_pattern text [] = none
find_pattern text ((pattern_text, m) ∷ rest) =
    let later = find_pattern text rest in if contains text pattern_text then some m else later

abbrev pub default_action : Text
default_action = codes "Check OLT logs for details"

unfoldable pub unknown_error : Error → ErrorMapping
unfolding error_text
unknown_error e = mapping err_unknown (error_text e) default_action false

abbrev mapping_or : ErrorMapping → Option ErrorMapping → ErrorMapping
mapping_or m none = m
mapping_or m (some found) = found

-- `patterns` are the entries of the map in the order of this range.
unfoldable pub translate_error : Map ErrorMapping → Option Error → Option Error
unfolding error_text find_pattern unknown_error
translate_error patterns none = none
translate_error patterns (some e) =
    some (
      translated e (mapping_or (unknown_error e) (find_pattern (to_lower (error_text e)) patterns)))

unfoldable pub is_recoverable : Option Error → Bool
is_recoverable (some (translated e m)) = m.recoverable
is_recoverable (some (other_error message)) = false
is_recoverable none = false

unfoldable pub get_error_code : Option Error → Text
get_error_code (some (translated e m)) = m.code
get_error_code (some (other_error message)) = err_unknown
get_error_code none = err_unknown

unfoldable pub get_suggested_action : Option Error → Text
get_suggested_action (some (translated e m)) = m.action
get_suggested_action (some (other_error message)) = default_action
get_suggested_action none = default_action
