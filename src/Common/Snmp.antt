-- ===== src/Common/Snmp.antt =====
-- vendors/common/snmp.go: values of SNMP results.
use nano_southbound.Prelude.{
  ◌≤ℤ◌, ℕ, ◌-◌, ◌^◌, ◌<◌, ◌≡◌, Bool, false, not, ◌&&◌, Option, none, some, ◌++◌, arith, ltb,
  if◌then◌else◌, ℤ, pos, negsuc, eqb_ℤ,
}
use nano_southbound.Go.Text.{Text, codes, has_prefix, trim_prefix}
use nano_southbound.Go.Map.{Map, lookup}
use nano_southbound.Go.Number.{InRange}

-- A value of Go's `interface{}` by its dynamic type. `F` is the type of both floating point types.
pub data SnmpValue (F : Type 0) : Type 0 where
  nil : SnmpValue F
  int int8 int16 int32 int64 : ℤ → SnmpValue F
  uint uint8 uint16 uint32 uint64 : ℕ → SnmpValue F
  float32 float64 : F → SnmpValue F
  string bytes : Text → SnmpValue F
  other : SnmpValue F

-- Conversions to and from Go's floating point numbers.
pub record Floats (F : Type 0) : Type 0 where
  pub of_int : ℤ → F
  pub to_int64 : F → ℤ
  pub to_uint64 : F → ℕ
  pub is_negative : F → Bool

abbrev pub snmp_invalid_value : ℤ
snmp_invalid_value = pos 2147483647

abbrev pub or_else {ℓ} : {A : Type ℓ} → Option A → Option A → Option A
or_else (some a) b = some a
or_else none b = b

unfoldable pub get_snmp_result {ℓ} : {V : Type ℓ} → Map V → Text → Option V
unfolding has_prefix trim_prefix
get_snmp_result m oid =
    let dot = codes "." in
    or_else (if has_prefix oid dot then none else lookup (dot ++ oid) m)
      (or_else (lookup oid m) (if has_prefix oid dot then lookup (trim_prefix oid dot) m else none))

-- int64(v) of an unsigned value of 64 bits
abbrev pub wrap_int64 : ℕ → ℤ
wrap_int64 n = if ltb n (2 ^ 63) then pos n else negsuc (2 ^ 64 - 1 - n)

module _ {F : Type 0} (fs : Floats F) where
  unfoldable pub parse_numeric_snmp_value : SnmpValue F → Option F
  parse_numeric_snmp_value (int v) = some (fs.of_int v)
  parse_numeric_snmp_value (int8 v) = some (fs.of_int v)
  parse_numeric_snmp_value (int16 v) = some (fs.of_int v)
  parse_numeric_snmp_value (int32 v) = some (fs.of_int v)
  parse_numeric_snmp_value (int64 v) = some (fs.of_int v)
  parse_numeric_snmp_value (uint v) = some (fs.of_int (pos v))
  parse_numeric_snmp_value (uint8 v) = some (fs.of_int (pos v))
  parse_numeric_snmp_value (uint16 v) = some (fs.of_int (pos v))
  parse_numeric_snmp_value (uint32 v) = some (fs.of_int (pos v))
  parse_numeric_snmp_value (uint64 v) = some (fs.of_int (pos v))
  parse_numeric_snmp_value (float32 v) = some v
  parse_numeric_snmp_value (float64 v) = some v
  parse_numeric_snmp_value _ = none

  unfoldable pub parse_int_snmp_value : SnmpValue F → Option ℤ
  parse_int_snmp_value (int v) = some v
  parse_int_snmp_value (int8 v) = some v
  parse_int_snmp_value (int16 v) = some v
  parse_int_snmp_value (int32 v) = some v
  parse_int_snmp_value (int64 v) = some v
  parse_int_snmp_value (uint v) = some (wrap_int64 v)
  parse_int_snmp_value (uint8 v) = some (pos v)
  parse_int_snmp_value (uint16 v) = some (pos v)
  parse_int_snmp_value (uint32 v) = some (pos v)
  parse_int_snmp_value (uint64 v) = some (wrap_int64 v)
  parse_int_snmp_value (float32 v) = some (fs.to_int64 v)
  parse_int_snmp_value (float64 v) = some (fs.to_int64 v)
  parse_int_snmp_value _ = none

  abbrev unsigned : ℤ → Option ℕ
  unsigned (pos n) = some n
  unsigned (negsuc n) = none

  unfoldable pub parse_uint64_snmp_value : SnmpValue F → Option ℕ
  parse_uint64_snmp_value (int v) = unsigned v
  parse_uint64_snmp_value (int8 v) = unsigned v
  parse_uint64_snmp_value (int16 v) = unsigned v
  parse_uint64_snmp_value (int32 v) = unsigned v
  parse_uint64_snmp_value (int64 v) = unsigned v
  parse_uint64_snmp_value (uint v) = some v
  parse_uint64_snmp_value (uint8 v) = some v
  parse_uint64_snmp_value (uint16 v) = some v
  parse_uint64_snmp_value (uint32 v) = some v
  parse_uint64_snmp_value (uint64 v) = some v
  parse_uint64_snmp_value (float32 v) = if fs.is_negative v then none else some (fs.to_uint64 v)
  parse_uint64_snmp_value (float64 v) = if fs.is_negative v then none else some (fs.to_uint64 v)
  parse_uint64_snmp_value _ = none

unfoldable pub parse_string_snmp_value : {F : Type 0} → SnmpValue F → Option Text
parse_string_snmp_value (string s) = some s
parse_string_snmp_value (bytes s) = some s
parse_string_snmp_value _ = none

unfoldable pub is_valid_snmp_value : ℤ → Bool
is_valid_snmp_value v = not (eqb_ℤ v snmp_invalid_value) && not (eqb_ℤ v (pos 0))

-- A result is found with and without the leading dot alike: both ways give the entry with the dot,
-- and the one without where there is none.
pub get_snmp_result_dot {ℓ} :
    {V : Type ℓ} (m : Map V) (oid : Text)
    → has_prefix oid (codes ".") ≡ false
    → (get_snmp_result m oid ≡ or_else (lookup (codes "." ++ oid) m) (lookup oid m))
      × (get_snmp_result m (codes "." ++ oid)
          ≡ or_else (lookup (codes "." ++ oid) m) (lookup oid m))
unfolding get_snmp_result
get_snmp_result_dot m oid h = ground arith

-- The values of Go's integer types, in their ranges of 64 bits.
abbrev pub IsInteger : {F : Type 0} → SnmpValue F → Type 0
IsInteger (uint v) = v < 2 ^ 64
IsInteger (uint8 v) = v < 2 ^ 8
IsInteger (uint16 v) = v < 2 ^ 16
IsInteger (uint32 v) = v < 2 ^ 32
IsInteger (uint64 v) = v < 2 ^ 64
IsInteger (float32 v) = ⊥
IsInteger (float64 v) = ⊥
IsInteger (int v) = InRange v
IsInteger (int8 v) = (negsuc 127 ≤ℤ v) × (v ≤ℤ pos 127)
IsInteger (int16 v) = (negsuc 32767 ≤ℤ v) × (v ≤ℤ pos 32767)
IsInteger (int32 v) = (negsuc 2147483647 ≤ℤ v) × (v ≤ℤ pos 2147483647)
IsInteger (int64 v) = InRange v
IsInteger _ = Unit

-- A value that is read as a counter is read as the same signed number below 2^63, and as that number
-- less 2^64 from there on.
pub parse_int-parse_uint64 :
    {F : Type 0} (fs : Floats F) (v : SnmpValue F) (n : ℕ)
    → IsInteger v
    → parse_uint64_snmp_value fs v ≡ some n
    → parse_int_snmp_value fs v ≡ some (wrap_int64 n)
unfolding parse_uint64_snmp_value parse_int_snmp_value
parse_int-parse_uint64 fs (int (pos m)) n h e = ground arith
parse_int-parse_uint64 fs (int8 (pos m)) n h e = ground arith
parse_int-parse_uint64 fs (int16 (pos m)) n h e = ground arith
parse_int-parse_uint64 fs (int32 (pos m)) n h e = ground arith
parse_int-parse_uint64 fs (int64 (pos m)) n h e = ground arith
parse_int-parse_uint64 fs (float32 v) n h e = absurd h
parse_int-parse_uint64 fs (float64 v) n h e = absurd h
parse_int-parse_uint64 fs _ n h e = ground arith
