-- ===== src/Vsol/LineProfile/Listing/Parts.antt =====
-- vendors/vsol/line_profile.go: the parts that the parsers of lines make, before they hold others.
use mathlib.Core.Path.{subst}
use nano_southbound.Prelude.{
  ◌≡◌, refl, Bool, true, false, if◌then◌else◌, List, [], ◌∷◌, ◌++◌, arith, ℤ, Option, some, none,
  ◌∙◌,
}
use nano_southbound.Go.Text.{Text, fields, codes, equal_fold, text_eq}
use nano_southbound.Go.Quote.{quote}
use nano_southbound.Vsol.Session.{Error, failed}
use nano_southbound.Go.Number.{atoi, success}
use nano_southbound.Go.Result.{Result, ok, err, ok-injective}
use nano_southbound.Types.LineProfile.{LineProfileGemport, LineProfileTcont}
use nano_southbound.Vsol.LineProfile.Lines.{
  with_id, parse_line_profile_tcont, parse_line_profile_gemport, tcont_options, gemport_options,
  traffic_limits, new_tcont, new_gemport, number_or,
}

gemports-tcont_options :
    (t : LineProfileTcont) (ts : List Text) → (tcont_options t ts).gemports ≡ t.gemports
unfolding tcont_options
gemports-tcont_options t [] = refl
gemports-tcont_options t (k ∷ []) = refl
gemports-tcont_options t (k ∷ v ∷ rest) = ground (
  arith,
  gemports-tcont_options (record t { name = v }) rest,
  gemports-tcont_options (record t { dba = v }) rest,
  gemports-tcont_options t (v ∷ rest),
)

record SameParts (g h : LineProfileGemport) : Type 0 where
  services : g.services ≡ h.services
  service_ports : g.service_ports ≡ h.service_ports

SameParts-refl : (g : LineProfileGemport) → SameParts g g
SameParts-refl g = record { services = refl; service_ports = refl }

traffic_limits-SameParts :
    (g : LineProfileGemport) (ts : List Text) → SameParts (traffic_limits g ts).0 g
unfolding traffic_limits
traffic_limits-SameParts g [] = SameParts-refl g
traffic_limits-SameParts g (k ∷ []) = SameParts-refl g
traffic_limits-SameParts g (k ∷ v ∷ rest) =
    let up = traffic_limits-SameParts (record g { traffic_limit_up = v }) rest in
    let down = traffic_limits-SameParts (record g { traffic_limit_dn = v }) rest in
    ground (arith, up.services, up.service_ports, down.services, down.service_ports)

if-SameParts :
    (b : Bool) (x y g : LineProfileGemport)
    → SameParts x g
    → SameParts y g
    → SameParts (if b then x else y) g
if-SameParts true x y g h k = h
if-SameParts false x y g h k = k

SameParts-trans : (x y z : LineProfileGemport) → SameParts x y → SameParts y z → SameParts x z
SameParts-trans x y z h k = record {
  services = h.services ∙ k.services;
  service_ports = h.service_ports ∙ k.service_ports;
}

-- The same where the options start from a GEM port with the same parts.
SameParts-from :
    (x h g : LineProfileGemport)
    → SameParts x h
    → h.services ≡ g.services
    → h.service_ports ≡ g.service_ports
    → SameParts x g
SameParts-from x h g k e f = SameParts-trans x h g k (record { services = e; service_ports = f })

gemport_options-SameParts :
    (g : LineProfileGemport) (ts : List Text) → SameParts (gemport_options g ts) g
unfolding gemport_options
gemport_options-SameParts g [] = SameParts-refl g
gemport_options-SameParts g (k ∷ []) = SameParts-refl g
gemport_options-SameParts g (k ∷ v ∷ rest) =
    let limited = (traffic_limits g (v ∷ rest)).0 in
    let kept = traffic_limits-SameParts g (v ∷ rest) in
    let named : LineProfileGemport = record g { name = v } in
    let in_tcont : LineProfileGemport = record g { tcont_id = number_or g.tcont_id v } in
    let encrypted : LineProfileGemport = record g {
      encrypt = some (equal_fold v (codes "enable"));
    } in
    let with_state : LineProfileGemport = record g { state = v } in
    let mapped : LineProfileGemport = record g {
      down_queue_map_id = elim (success (atoi v)) [ some n ↦ some n | none ↦ g.down_queue_map_id ];
    } in
    if-SameParts (text_eq k (codes "name")) _ _ g
      (SameParts-from _ named g (gemport_options-SameParts named rest) refl refl)
      (if-SameParts (text_eq k (codes "tcont")) _ _ g
        (SameParts-from _ in_tcont g (gemport_options-SameParts in_tcont rest) refl refl)
        (if-SameParts (text_eq k (codes "traffic-limit")) _ _ g
          (if-SameParts (traffic_limits g (v ∷ rest)).1 _ _ g
            (SameParts-trans (gemport_options limited (v ∷ rest)) limited g
              (gemport_options-SameParts limited (v ∷ rest)) kept)
            kept)
          (if-SameParts (text_eq k (codes "encrypt")) _ _ g
            (SameParts-from _ encrypted g (gemport_options-SameParts encrypted rest) refl refl)
            (if-SameParts (text_eq k (codes "state")) _ _ g
              (SameParts-from _ with_state g (gemport_options-SameParts with_state rest) refl refl)
              (if-SameParts (text_eq k (codes "down-queue-map-id")) _ _ g
                (SameParts-from _ mapped g (gemport_options-SameParts mapped rest) refl refl)
                (gemport_options-SameParts g (v ∷ rest)))))))

with_id-made :
    {A : Type 0} (P : A → Type 0) (kind line : Text) (ts : List Text) (f : ℤ → List Text → A)
    {a : A}
    → ((id : ℤ) (rest : List Text) → P (f id rest))
    → with_id kind line ts f ≡ ok a
    → P a
with_id-made P kind line [] f keep h = cc
with_id-made P kind line (x ∷ []) f keep h = cc
with_id-made {A} P kind line (x ∷ id ∷ rest) f {a} keep h = by_id (success (atoi id)) h
  where
    by_id :
        (o : Option ℤ)
        → ◌≡◌ {A = Result Error A}
            (elim o [
              | some v ↦ ok (f v rest)
              | none ↦ err (failed (codes "invalid " ++ (kind ++ (codes " id " ++ quote id))))
            ])
            (ok a)
        → P a
    by_id none e = cc
    by_id (some v) e = subst P (ok-injective _ _ e) (keep v rest)

-- A T-CONT that a line gives has no GEM ports.
pub parse_line_profile_tcont-empty :
    (line : Text) {t : LineProfileTcont} → parse_line_profile_tcont line ≡ ok t → t.gemports ≡ []
unfolding parse_line_profile_tcont
parse_line_profile_tcont-empty line h =
    with_id-made (λ t. t.gemports ≡ []) (codes "tcont") line (fields line) _
      (λ id rest. gemports-tcont_options (new_tcont id) rest) h

-- A GEM port that a line gives has no services and no service ports.
abbrev IsEmptyGemport : LineProfileGemport → Type 0
IsEmptyGemport g = (g.services ≡ []) × (g.service_ports ≡ [])

new_gemport-IsEmptyGemport :
    (id : ℤ) (ts : List Text) → IsEmptyGemport (gemport_options (new_gemport id) ts)
new_gemport-IsEmptyGemport id ts =
    let same = gemport_options-SameParts (new_gemport id) ts in (same.services, same.service_ports)

pub parse_line_profile_gemport-empty :
    (line : Text) {g : LineProfileGemport}
    → parse_line_profile_gemport line ≡ ok g
    → (g.services ≡ []) × (g.service_ports ≡ [])
unfolding parse_line_profile_gemport
parse_line_profile_gemport-empty line h =
    with_id-made IsEmptyGemport (codes "gemport") line (fields line) _ new_gemport-IsEmptyGemport h
