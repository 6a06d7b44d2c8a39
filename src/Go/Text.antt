-- ===== src/Go/Text.antt =====
-- Go's package `strings`. A text is the list of its bytes; the functions that Go defines by Unicode
-- classes (`ToLower`, `TrimSpace`, `Fields`) are those of ASCII text.
pub mod Words
pub mod Trim
use Prim.Native.Char.{code}
use nano_southbound.Prelude.{
  ℕ, String, ◌≡◌, refl, ◌+◌, Bool, true, false, not, ◌&&◌, ◌||◌, List, [], ◌∷◌, ◌++◌, map, leb,
  ◌==◌, if◌then◌else◌, is_empty, keep, arith, ◌↔◌,
}

abbrev pub Text : Type 0
Text = List ℕ

-- The bytes of an ASCII literal.
abbrev pub codes : String → Text
codes String.[] = []
codes (String.◌∷◌ c s) = code c ∷ codes s

-- s == t
unfoldable pub text_eq : Text → Text → Bool
text_eq [] [] = true
text_eq [] (d ∷ t) = false
text_eq (c ∷ s) [] = false
text_eq (c ∷ s) (d ∷ t) = c == d && text_eq s t

pub text_eq_iff : (s t : Text) → (text_eq s t ≡ true) ↔ (s ≡ t)
unfolding text_eq
text_eq_iff [] [] = (λ h. refl, λ h. refl)
text_eq_iff [] (d ∷ t) = (λ h. cc, λ h. cc)
text_eq_iff (c ∷ s) [] = (λ h. cc, λ h. cc)
text_eq_iff (c ∷ s) (d ∷ t) =
    (λ h. ground (arith, text_eq_iff s t), λ h. ground (arith, text_eq_iff s t))

abbrev pub is_space : ℕ → Bool
is_space c = (leb 9 c && leb c 13) || c == 32

abbrev pub is_digit : ℕ → Bool
is_digit c = leb b'0' c && leb c b'9'

abbrev pub is_upper : ℕ → Bool
is_upper c = leb b'A' c && leb c b'Z'

abbrev pub is_lower : ℕ → Bool
is_lower c = leb b'a' c && leb c b'z'

abbrev pub lower : ℕ → ℕ
lower c = if is_upper c then c + 32 else c

-- strings.ToLower
unfoldable pub to_lower : Text → Text
to_lower = map lower

-- strings.HasPrefix
unfoldable pub has_prefix : Text → Text → Bool
has_prefix s [] = true
has_prefix [] (p ∷ ps) = false
has_prefix (c ∷ s) (p ∷ ps) = c == p && has_prefix s ps

-- What stands behind as many bytes as the second text has.
unfoldable pub cut_off : Text → Text → Text
cut_off s [] = s
cut_off [] (d ∷ p) = []
cut_off (c ∷ s) (d ∷ p) = cut_off s p

-- strings.TrimPrefix
unfoldable pub trim_prefix : Text → Text → Text
unfolding has_prefix cut_off
trim_prefix s p = if has_prefix s p then cut_off s p else s

-- strings.Contains
unfoldable pub contains : Text → Text → Bool
unfolding has_prefix
contains [] sub = has_prefix [] sub
contains (c ∷ s) sub = has_prefix (c ∷ s) sub || contains s sub

-- strings.TrimSpace
unfoldable pub trim_left : Text → Text
trim_left [] = []
trim_left (c ∷ s) = if is_space c then trim_left s else c ∷ s

unfoldable pub trim_right : Text → Text
trim_right [] = []
trim_right (c ∷ s) = let rest = trim_right s in if is_empty rest && is_space c then [] else c ∷ rest

unfoldable pub trim_space : Text → Text
unfolding trim_left trim_right
trim_space s = trim_right (trim_left s)

abbrev pub cons_head : ℕ → List Text → List Text
cons_head c [] = (c ∷ []) ∷ []
cons_head c (p ∷ ps) = (c ∷ p) ∷ ps

-- The parts of a text between the bytes that pass a test.
unfoldable pub split_on : (ℕ → Bool) → Text → List Text
split_on sep [] = [] ∷ []
split_on sep (c ∷ s) = let rest = split_on sep s in if sep c then [] ∷ rest else cons_head c rest

-- strings.Split at a separator of one byte
unfoldable pub split : Text → ℕ → List Text
unfolding split_on
split s sep = split_on (λ c. c == sep) s

-- strings.FieldsFunc and strings.Fields
unfoldable pub fields_func : (ℕ → Bool) → Text → List Text
unfolding split_on
fields_func sep s = keep (λ p. not (is_empty p)) (split_on sep s)

unfoldable pub fields : Text → List Text
unfolding fields_func
fields = fields_func is_space

-- strings.SplitN(s, sep, 2): the text as a whole, or what is before and after the first separator.
unfoldable pub split_two : Text → ℕ → List Text
split_two [] sep = [] ∷ []
split_two (c ∷ s) sep =
    let rest = split_two s sep in if c == sep then [] ∷ s ∷ [] else cons_head c rest

-- strings.Join
unfoldable pub join : List Text → Text → Text
join [] sep = []
join (p ∷ []) sep = p
join (p ∷ q ∷ ps) sep = p ++ (sep ++ join (q ∷ ps) sep)

-- strings.EqualFold on ASCII text
unfoldable pub equal_fold : Text → Text → Bool
unfolding to_lower text_eq
equal_fold s t = text_eq (to_lower s) (to_lower t)
