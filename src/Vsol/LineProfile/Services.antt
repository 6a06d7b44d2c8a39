-- ===== src/Vsol/LineProfile/Services.antt =====
-- vendors/vsol/line_profile.go: the commands of services, and the parser of their lines.
use nano_southbound.Prelude.{
  ap, if◌then◌else◌, ◌≡◌, inl, inr, refl, List, [], ◌∷◌, ◌++◌, append-nil, arith, All, ℤ, pos,
  eqb_ℤ, eqb_ℤ_iff, Bool-cases, ◌∙◌,
}
use nano_southbound.Go.Text.{Text, codes, text_eq, is_space}
use nano_southbound.Go.Text.Words.{IsWord}
use nano_southbound.Go.Number.{itoa, atoi-itoa, InRange}
use nano_southbound.Go.Decimal.{itoa-IsWord}
use nano_southbound.Go.Result.{ok}
use nano_southbound.Types.LineProfile.{LineProfileService}
use nano_southbound.Vsol.LineProfile.{service_command, own_or}
use nano_southbound.Vsol.LineProfile.Lines.{
  parse_line_profile_service, service_options, new_service,
}
use nano_southbound.Vsol.LineProfile.Tokens.{IsOption, words, fields-words, option-IsWord}

-- The tokens of an option with a number, and of one with a text
abbrev number_tokens : Text → ℤ → List Text
number_tokens key v = if eqb_ℤ v (pos 0) then [] else key ∷ itoa v ∷ []

abbrev text_tokens : Text → Text → List Text
text_tokens key [] = []
text_tokens key (c ∷ s) = key ∷ (c ∷ s) ∷ []

service_line :
    (name : Text) (ts : List Text)
    → IsWord is_space name
    → All (IsWord is_space) ts
    → parse_line_profile_service (words (codes "service" ∷ name ∷ ts))
      ≡ ok (service_options (new_service name) ts)
unfolding parse_line_profile_service
service_line name ts n w = rw (fields-words (codes "service" ∷ name ∷ ts) ((λ e. cc, refl), (n, w)))

service_tokens : ℤ → ℤ → Text → List Text
service_tokens gem vlan cos =
    codes "gemport"
    ∷ itoa gem
    ∷ (number_tokens (codes "vlan") vlan ++ text_tokens (codes "cos") cos)

service_tokens-words :
    (gem vlan : ℤ) (cos : Text) → IsOption cos → All (IsWord is_space) (service_tokens gem vlan cos)
unfolding service_tokens
service_tokens-words gem vlan [] c = elim (Bool-cases (eqb_ℤ vlan (pos 0))) [
  | inl e ↦ rw e ((λ e. cc, refl), (itoa-IsWord gem, tt))
  | inr e ↦ rw e ((λ e. cc, refl), (itoa-IsWord gem, ((λ e. cc, refl), (itoa-IsWord vlan, tt))))
]
service_tokens-words gem vlan (x ∷ cos) c = elim (Bool-cases (eqb_ℤ vlan (pos 0))) [
  | inl e ↦
      rw e ((λ e. cc, refl), (itoa-IsWord gem, ((λ e. cc, refl), (option-IsWord x cos c, tt))))
  | inr e ↦ rw e (
    (λ e. cc, refl),
    (
      itoa-IsWord gem,
      ((λ e. cc, refl), (itoa-IsWord vlan, ((λ e. cc, refl), (option-IsWord x cos c, tt)))),
    ),
  )
]

service_text :
    (name cos : Text) (outer gem vlan : ℤ)
    → service_command outer (record { name = name; gemport_id = gem; vlan = vlan; cos = cos })
      ≡ words (codes "service" ∷ name ∷ service_tokens (own_or gem outer) vlan cos)
unfolding service_command service_tokens words
service_text name [] outer gem vlan = elim (Bool-cases (eqb_ℤ vlan (pos 0))) [
  | inl e ↦ rw e (simp append-nil)
  | inr e ↦ rw e (simp append-nil)
]
service_text name (x ∷ cos) outer gem vlan = elim (Bool-cases (eqb_ℤ vlan (pos 0))) [
  | inl e ↦ rw e
  | inr e ↦ rw e
]

service_read :
    (name cos : Text) (gem vlan : ℤ)
    → InRange gem
    → InRange vlan
    → service_options (new_service name) (service_tokens gem vlan cos)
      ≡ record { name = name; gemport_id = gem; vlan = vlan; cos = cos }
unfolding service_options service_tokens text_eq
service_read name [] gem vlan g v =
    ground (arith, atoi-itoa gem g, atoi-itoa vlan v, eqb_ℤ_iff vlan (pos 0))
service_read name (x ∷ cos) gem vlan g v =
    ground (arith, atoi-itoa gem g, atoi-itoa vlan v, eqb_ℤ_iff vlan (pos 0))

-- If the name of a service is one word without blanks, its class of service is empty or one such word,
-- and its GEM port and VLAN are ints of 64 bits, its command is read back as that service, on its
-- own GEM port or, where it has none, the one it stands in.
pub parse-service_command :
    (outer : ℤ) (s : LineProfileService)
    → IsWord is_space s.name
    → InRange (own_or s.gemport_id outer)
    → InRange s.vlan
    → IsOption s.cos
    → parse_line_profile_service (service_command outer s)
      ≡ ok (record s { gemport_id = own_or s.gemport_id outer })
parse-service_command outer s n g v c = rw (service_text s.name s.cos outer s.gemport_id s.vlan) (
    service_line s.name (service_tokens (own_or s.gemport_id outer) s.vlan s.cos) n
      (service_tokens-words (own_or s.gemport_id outer) s.vlan s.cos c)
    ∙ ap ok (service_read s.name s.cos (own_or s.gemport_id outer) s.vlan g v))
