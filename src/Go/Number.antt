-- ===== src/Go/Number.antt =====
-- Go's package `strconv`: decimal numbers.
use nano_southbound.Prelude.{
  true, every, ℕ, zero, suc, ◌+◌, ◌-◌, ◌*◌, ◌/◌, ◌%◌, ◌^◌, ◌<◌, ◌≡◌, refl, Option, none, some, [],
  ◌∷◌, arith, ltb, ◌==◌, if◌then◌else◌, ℤ, pos, negsuc, max_int, min_int, ltb_ℤ, ◌≤ℤ◌, ◌≢◌,
}
use nano_southbound.Go.Text.{Text, codes, is_digit}

-- The value of a run of digits behind `n`; `none` at any other byte.
unfoldable pub scan_digits : Text → ℕ → Option ℕ
scan_digits [] n = some n
scan_digits (c ∷ s) n = if is_digit c then scan_digits s (n * 10 + (c - b'0')) else none

-- One or more digits.
unfoldable pub magnitude : Text → Option ℕ
unfolding scan_digits
magnitude [] = none
magnitude (c ∷ s) = scan_digits (c ∷ s) 0

-- What `strconv.Atoi` returns: a number, or an error with the value that comes beside it.
pub data Parsed : Type 0 where
  parsed : ℤ → Parsed
  out_of_range : ℤ → Parsed
  bad_syntax : Parsed

-- A value beyond 64 bits is an error, and the nearest bound comes beside it.
abbrev pub clamp : ℤ → Parsed
clamp v =
    if ltb_ℤ max_int v
    then out_of_range max_int
    else if ltb_ℤ v min_int
    then out_of_range min_int
    else parsed v

abbrev pub negate : ℕ → ℤ
negate zero = pos 0
negate (suc n) = negsuc n

abbrev pub signed : (ℕ → ℤ) → Option ℕ → Parsed
signed sign none = bad_syntax
signed sign (some n) = clamp (sign n)

unfoldable pub atoi : Text → Parsed
unfolding magnitude
atoi [] = bad_syntax
atoi (c ∷ s) =
    if c == b'-'
    then signed negate (magnitude s)
    else if c == b'+'
    then signed pos (magnitude s)
    else signed pos (magnitude (c ∷ s))

-- `v, err := strconv.Atoi(s)` where an error ends the use of `v`
abbrev pub success : Parsed → Option ℤ
success (parsed v) = some v
success (out_of_range v) = none
success bad_syntax = none

-- `v, _ := strconv.Atoi(s)`
abbrev pub value_of : Parsed → ℤ
value_of (parsed v) = v
value_of (out_of_range v) = v
value_of bad_syntax = pos 0

-- The decimal digits of `n` before `out`; each round divides by ten, so `n + 1` rounds are enough.
unfoldable pub digits : ℕ → ℕ → Text → Text
digits zero n out = out
digits (suc f) n out =
    let shown = (b'0' + n % 10) ∷ out in
    let rest = digits f (n / 10) shown in if ltb n 10 then shown else rest

unfoldable pub format_nat : ℕ → Text
unfolding digits
format_nat n = digits (suc n) n []

-- strconv.Itoa, and `%d`
unfoldable pub itoa : ℤ → Text
unfolding format_nat
itoa (pos n) = format_nat n
itoa (negsuc n) = b'-' ∷ format_nat (suc n)

itoa_runs : itoa (pos 4094) ≡ codes "4094"
unfolding itoa
itoa_runs = refl

atoi_runs : atoi (codes "-12") ≡ parsed (negsuc 11)
unfolding atoi
atoi_runs = refl

-- Reading the digits of `n` and then `out` is reading `out` behind `n`.
scan_digits-digits :
    (f n : ℕ) (out : Text) → n < f → scan_digits (digits f n out) 0 ≡ scan_digits out n
unfolding scan_digits digits
scan_digits-digits zero n out h = elim h [ ]
scan_digits-digits (suc f) n out h =
    ground (arith, scan_digits-digits f (n / 10) ((b'0' + n % 10) ∷ out))

every-digits :
    (f n : ℕ) (out : Text) → every is_digit out ≡ true → every is_digit (digits f n out) ≡ true
unfolding digits
every-digits zero n out h = h
every-digits (suc f) n out h = ground (arith, every-digits f (n / 10) ((b'0' + n % 10) ∷ out))

digits-ne-nil : (f n : ℕ) (out : Text) → out ≢ [] → digits f n out ≢ []
unfolding digits
digits-ne-nil zero n out h = h
digits-ne-nil (suc f) n out h = ground (arith, digits-ne-nil f (n / 10) ((b'0' + n % 10) ∷ out))

pub format_nat-ne-nil : (n : ℕ) → format_nat n ≢ []
unfolding format_nat
format_nat-ne-nil n = ground (arith, digits-ne-nil n (n / 10) ((b'0' + n % 10) ∷ []))

-- The decimal print of a number is digits only.
pub every-format_nat : (n : ℕ) → every is_digit (format_nat n) ≡ true
unfolding format_nat
every-format_nat n = every-digits (suc n) n [] refl

magnitude-scan : (s : Text) → s ≢ [] → magnitude s ≡ scan_digits s 0
unfolding magnitude
magnitude-scan [] h = absurd (h refl)
magnitude-scan (c ∷ s) h = refl

scan_digits-format : (n : ℕ) → scan_digits (format_nat n) 0 ≡ some n
unfolding format_nat scan_digits
scan_digits-format n = scan_digits-digits (suc n) n [] (omega arith)

magnitude-format_nat : (n : ℕ) → magnitude (format_nat n) ≡ some n
unfolding magnitude
magnitude-format_nat n =
    rw (magnitude-scan (format_nat n) (format_nat-ne-nil n)) (scan_digits-format n)

-- A run of digits is read with no sign.
atoi_unsigned : (s : Text) → every is_digit s ≡ true → atoi s ≡ signed pos (magnitude s)
unfolding atoi
atoi_unsigned [] h = refl
atoi_unsigned (c ∷ s) h = ground arith

abbrev pub InRange : ℤ → Type 0
InRange z = (min_int ≤ℤ z) × (z ≤ℤ max_int)

pub atoi-format_nat : (n : ℕ) → n < 2 ^ 63 → atoi (format_nat n) ≡ parsed (pos n)
atoi-format_nat n h =
    rw (atoi_unsigned (format_nat n) (every-format_nat n), magnitude-format_nat n) (ground arith)

atoi_minus : (s : Text) → atoi (b'-' ∷ s) ≡ signed negate (magnitude s)
unfolding atoi
atoi_minus s = refl

-- Every `int` is read back from its decimal print.
pub atoi-itoa : (z : ℤ) → InRange z → atoi (itoa z) ≡ parsed z
unfolding itoa
atoi-itoa (pos n) h = atoi-format_nat n (omega arith)
atoi-itoa (negsuc n) h =
    rw (atoi_minus (format_nat (suc n)), magnitude-format_nat (suc n)) (ground arith)
