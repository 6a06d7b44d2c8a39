-- ===== src/Types/Check.antt =====
-- The checks that the profiles of the package `types` share, with their errors.
use nano_southbound.Prelude.{
  ℕ, ◌≡◌, ◌⊎◌, inl, inr, refl, Bool, true, false, ◌&&◌, ◌||◌, not, Option, none, some, [], ◌∷◌,
  ◌++◌, arith, ==_iff, ◌==◌, if◌then◌else◌, is_empty, ℤ, pos, ◌≤ℤ◌, ltb_ℤ, eqb_ℤ, eqb_ℤ_iff,
}
use nano_southbound.Go.Text.{Text, is_digit, codes}
use nano_southbound.Go.Number.{itoa, format_nat}
use nano_southbound.Go.Quote.{quote}
use nano_southbound.Go.Result.{ok, Check, reject_if, Decides}

-- The messages of the package's errors. `endless` stands for a loop that does not return.
pub data Error : Type 0 where
  missing : Text → Error
  nil_tcont : ℕ → Error
  out_of_bounds : Text → ℤ → ℤ → Error
  unknown_tcont : ℤ → Error
  bad_cos : Error
  empty_mvlan : Error
  invalid_mvlan : Text → Error
  invalid_mvlan_range : Text → Error
  endless : Error
  description_too_long : Error
  requires : Text → Text → Error

-- `err.Error()`
unfoldable pub message : Error → Text
message (missing what) = what ++ codes " is required"
message (nil_tcont idx) = codes "tcont entry at index " ++ (format_nat idx ++ codes " is nil")
message (out_of_bounds field low high) =
    field ++ (codes " must be between " ++ (itoa low ++ (codes " and " ++ itoa high)))
message (unknown_tcont id) = codes "gemport tcont id " ++ (itoa id ++ codes " not found in profile")
message bad_cos = codes "cos must be a number or range (e.g., 0-7)"
message empty_mvlan = codes "mvlan list is empty"
message (invalid_mvlan item) = codes "invalid mvlan " ++ quote item
message (invalid_mvlan_range item) = codes "invalid mvlan range " ++ quote item
message endless = []
message description_too_long = codes "description exceeds 64 characters"
message (requires a b) = a ++ (codes " requires " ++ b)

abbrev pub InBounds : ℤ → ℤ → ℤ → Type 0
InBounds low high v = (low ≤ℤ v) × (v ≤ℤ high)

-- types/line_profile.go
unfoldable pub validate_range : Text → ℤ → ℤ → ℤ → Check Error
validate_range field value low high =
    reject_if (ltb_ℤ value low || ltb_ℤ high value) (out_of_bounds field low high)

-- `if v != 0 { validateRange(…) }`
unfoldable pub validate_optional : Text → ℤ → ℤ → ℤ → Check Error
unfolding validate_range
validate_optional field value low high =
    if eqb_ℤ value (pos 0) then ok tt else validate_range field value low high

-- types/onu_profile.go
unfoldable pub validate_range_ptr : Text → Option ℤ → ℤ → ℤ → Check Error
validate_range_ptr field none low high = ok tt
validate_range_ptr field (some value) low high =
    reject_if (ltb_ℤ value low || ltb_ℤ high value) (out_of_bounds field low high)

-- The expression `^\d(-\d)?$`
unfoldable pub cos_matches : Text → Bool
cos_matches (a ∷ []) = is_digit a
cos_matches (a ∷ b ∷ c ∷ []) = is_digit a && b == b'-' && is_digit c
cos_matches _ = false

unfoldable pub validate_cos : Text → Check Error
unfolding cos_matches
validate_cos cos = if is_empty cos then ok tt else reject_if (not (cos_matches cos)) bad_cos

pub validate_range-Decides :
    (field : Text) (v low high : ℤ)
    → Decides (validate_range field v low high) (InBounds low high v)
unfolding validate_range
validate_range-Decides field v low high = (λ h. ground arith, λ h. ground arith)

pub validate_optional-Decides :
    (field : Text) (v low high : ℤ)
    → Decides (validate_optional field v low high) ((v ≡ pos 0) ⊎ InBounds low high v)
unfolding validate_optional
validate_optional-Decides field v low high =
    (λ h. ground (arith, eqb_ℤ_iff v (pos 0)), λ h. ground (arith, eqb_ℤ_iff v (pos 0)))

abbrev pub InBoundsPtr : ℤ → ℤ → Option ℤ → Type 0
InBoundsPtr low high none = Unit
InBoundsPtr low high (some v) = InBounds low high v

pub validate_range_ptr-Decides :
    (field : Text) (v : Option ℤ) (low high : ℤ)
    → Decides (validate_range_ptr field v low high) (InBoundsPtr low high v)
unfolding validate_range_ptr
validate_range_ptr-Decides field none low high = (λ h. tt, λ h. refl)
validate_range_ptr-Decides field (some v) low high = (λ h. ground arith, λ h. ground arith)

-- No class of service, one digit, or two digits with a dash between them.
abbrev pub IsCos : Text → Type 0
IsCos cos =
    (cos ≡ [])
    ⊎ ((a : ℕ) × (is_digit a ≡ true) × (cos ≡ a ∷ []))
    ⊎ ((a : ℕ) × (c : ℕ) × (is_digit a ≡ true) × (is_digit c ≡ true) × (cos ≡ a ∷ b'-' ∷ c ∷ []))

IsCos→ok : (cos : Text) → IsCos cos → validate_cos cos ≡ ok tt
unfolding validate_cos
IsCos→ok cos h = ground arith

ok→IsCos : (cos : Text) → validate_cos cos ≡ ok tt → IsCos cos
unfolding validate_cos
ok→IsCos [] h = inl refl
ok→IsCos (a ∷ []) h = inr (inl (a, ground arith, refl))
ok→IsCos (a ∷ b ∷ []) h = cc
ok→IsCos (a ∷ b ∷ c ∷ []) h =
    inr (inr (a, c, ground arith, ground arith, ground (arith, ==_iff b b'-')))
ok→IsCos (a ∷ b ∷ c ∷ d ∷ rest) h = cc

pub validate_cos-Decides : (cos : Text) → Decides (validate_cos cos) (IsCos cos)
validate_cos-Decides cos = (ok→IsCos cos, IsCos→ok cos)
