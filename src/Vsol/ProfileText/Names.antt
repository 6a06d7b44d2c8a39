-- ===== src/Vsol/ProfileText/Names.antt =====
-- vendors/vsol/onu_profile.go: profile names, and commands that hold them.
use nano_southbound.Prelude.{
  ℕ, ◌≤◌, ◌≡◌, ◌≢◌, ◌↔◌, refl, Bool, true, not, [], ◌∷◌, arith, every, length, ltb,
}
use nano_southbound.Go.Text.{Text, is_space}
use nano_southbound.Go.Text.Words.{IsWord}
use nano_southbound.Go.Result.{
  ok, Decides-then, Decides-reject_if, Decides-reject_empty, Decides-as,
}
use nano_southbound.Common.Sanitize.{is_metacharacter, is_plain}
use nano_southbound.Vsol.ProfileText.{is_name_byte, validate_profile_name}

-- A name of 1 to 64 letters, digits, underscores, dots and dashes.
abbrev pub IsProfileName : Text → Type 0
IsProfileName name = (name ≢ []) × ((length name ≤ 64) × (every is_name_byte name ≡ true))

-- Validation passes exactly the names of 1 to 64 letters, digits, underscores, dots and dashes.
pub validate_profile_name-IsProfileName :
    (name : Text) → (validate_profile_name name ≡ ok tt) ↔ IsProfileName name
unfolding validate_profile_name
validate_profile_name-IsProfileName name = Decides-then _ _ (Decides-reject_empty name _) (
    Decides-then _ _
      (Decides-as _ (Decides-reject_if (ltb 64 (length name)) _) (λ h. ground arith)
        (λ h. ground arith))
      (Decides-as _ (Decides-reject_if (not (every is_name_byte name)) _) (λ h. ground arith)
        (λ h. ground arith)))

name_byte-plain : (c : ℕ) → is_name_byte c ≡ true → is_plain c ≡ true
unfolding is_metacharacter
name_byte-plain c h = ground arith

name_byte-not_space : (c : ℕ) → is_name_byte c ≡ true → not (is_space c) ≡ true
name_byte-not_space c h = ground arith

every_mono :
    (p q : ℕ → Bool) (s : Text)
    → ((c : ℕ) → p c ≡ true → q c ≡ true)
    → every p s ≡ true
    → every q s ≡ true
every_mono p q [] f h = refl
every_mono p q (c ∷ s) f h = ground (arith, f c, every_mono p q s f)

-- A name that passes validation is a single word of a command line and has none of the
-- metacharacters that `SanitizeCLIParam` removes.
pub validate_profile_name_safe :
    (name : Text)
    → validate_profile_name name ≡ ok tt
    → IsWord is_space name × (every is_plain name ≡ true)
validate_profile_name_safe name h =
    let (given, (short, good)) = (validate_profile_name-IsProfileName name).0 h in
    (
      (given, every_mono is_name_byte (λ c. not (is_space c)) name name_byte-not_space good),
      every_mono is_name_byte is_plain name name_byte-plain good,
    )
