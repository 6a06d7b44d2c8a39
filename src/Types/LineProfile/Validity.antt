-- ===== src/Types/LineProfile/Validity.antt =====
-- types/line_profile.go: the valid line profiles, and what `Validate` makes of them.
use nano_southbound.Prelude.{
  sym, ap, ◌↔◌, ℕ, suc, ◌≡◌, ◌≢◌, ◌⊎◌, refl, true, false, not, ◌&&◌, Option, none, some, List, [],
  ◌∷◌, arith, All, is_empty, ℤ, pos, eqb_ℤ, eqb_ℤ_iff,
}
use nano_southbound.Go.Result.{
  >>=-eq-ok, then-eq-ok, Result, ok, reject_if, Present, Decides, Decides-then, Decides-reject_if,
  Decides-reject_empty, Decides-each, Decides-if_present, Decides-as,
}
use nano_southbound.Types.Check.{
  Error, InBounds, IsCos, validate_range-Decides, validate_optional-Decides, validate_cos-Decides,
}
use nano_southbound.Types.VlanList.{LineProfileMvlan}
use nano_southbound.Types.LineProfile.{
  validate_mvlan_ptr, LineProfile, validate, LineProfileService, LineProfileServicePort,
  LineProfileGemport, LineProfileTcont, among, validate_service, validate_service_port,
  validate_gemport, validate_tconts,
}

abbrev pub IsVlan : ℤ → Type 0
IsVlan v = InBounds (pos 1) (pos 4094) v

abbrev pub IsId : ℤ → Type 0
IsId v = InBounds (pos 1) (pos 255) v

abbrev pub IsValidService : LineProfileService → Type 0
IsValidService s =
    (s.name ≢ []) × (IsId s.gemport_id × (((s.vlan ≡ pos 0) ⊎ IsVlan s.vlan) × IsCos s.cos))

abbrev pub IsValidServicePort : LineProfileServicePort → Type 0
IsValidServicePort s =
    InBounds (pos 1) (pos 128) s.id
    × (IsId s.gemport_id
        × (((s.user_vlan ≡ pos 0) ⊎ IsVlan s.user_vlan) × ((s.vlan ≡ pos 0) ⊎ IsVlan s.vlan)))

-- The id is one of the list.
abbrev pub Among : List ℤ → ℤ → Type 0
Among [] v = ⊥
Among (i ∷ is) v = (i ≡ v) ⊎ Among is v

-- The GEM port names a T-CONT that is declared at or before its own.
abbrev pub IsValidGemport : List ℤ → LineProfileGemport → Type 0
IsValidGemport ids g =
    IsId g.id
    × (IsId g.tcont_id
        × (Among ids g.tcont_id
            × (All (Present IsValidService) g.services
                × All (Present IsValidServicePort) g.service_ports)))

-- The T-CONTs after those of the ids: none is nil.
abbrev pub AreValidTconts : List ℤ → List (Option LineProfileTcont) → Type 0
AreValidTconts ids [] = Unit
AreValidTconts ids (none ∷ rest) = ⊥
AreValidTconts ids (some t ∷ rest) =
    IsId t.id
    × (All (Present (IsValidGemport (t.id ∷ ids))) t.gemports × AreValidTconts (t.id ∷ ids) rest)

service-Decides : (s : LineProfileService) → Decides (validate_service s) (IsValidService s)
unfolding validate_service
service-Decides s = Decides-then _ _ (Decides-reject_empty s.name _) (
    Decides-then _ _ (validate_range-Decides _ s.gemport_id _ _)
      (Decides-then _ _ (validate_optional-Decides _ s.vlan _ _) (validate_cos-Decides s.cos)))

service_port-Decides :
    (s : LineProfileServicePort) → Decides (validate_service_port s) (IsValidServicePort s)
unfolding validate_service_port
service_port-Decides s = Decides-then _ _ (validate_range-Decides _ s.id _ _) (
    Decides-then _ _ (validate_range-Decides _ s.gemport_id _ _) (
      Decides-then _ _ (validate_optional-Decides _ s.user_vlan _ _)
        (validate_optional-Decides _ s.vlan _ _)))

among→Among : (ids : List ℤ) (v : ℤ) → among ids v ≡ true → Among ids v
among→Among [] v h = cc
among→Among (i ∷ ids) v h = ground (arith, eqb_ℤ_iff i v, among→Among ids v)

Among→among : (ids : List ℤ) (v : ℤ) → Among ids v → among ids v ≡ true
Among→among [] v h = absurd h
Among→among (i ∷ ids) v h = ground (arith, eqb_ℤ_iff i v, Among→among ids v)

-- The two tests on the T-CONT id, where the set of ids is not empty.
known-Decides :
    (i : ℤ) (ids : List ℤ) (v : ℤ) (e : Error)
    → Decides
        (reject_if (not (is_empty (i ∷ ids)) && not (among (i ∷ ids) v)) e)
        (Among (i ∷ ids) v)
known-Decides i ids v e =
    Decides-as _ (Decides-reject_if _ e) (λ h. among→Among (i ∷ ids) v (ground arith))
      (λ h. ground (arith, Among→among (i ∷ ids) v h))

gemport-Decides :
    (i : ℤ) (ids : List ℤ) (g : LineProfileGemport)
    → Decides (validate_gemport (i ∷ ids) g) (IsValidGemport (i ∷ ids) g)
unfolding validate_gemport
gemport-Decides i ids g =
    Decides-as _
      (Decides-then _ _ (validate_range-Decides _ g.id _ _) (
        Decides-then _ _ (Decides-reject_if (eqb_ℤ g.tcont_id (pos 0)) _) (
          Decides-then _ _ (validate_range-Decides _ g.tcont_id _ _) (
            Decides-then _ _ (known-Decides i ids g.tcont_id _) (
              Decides-then _ _
                (Decides-each _ g.services (λ o. Decides-if_present _ o service-Decides))
                (Decides-each _ g.service_ports
                  (λ o. Decides-if_present _ o service_port-Decides)))))))
      (λ (a, (b, c)). (a, c)) (λ (a, c). (a, (nonzero g.tcont_id c.0, c)))
  where
    nonzero : (v : ℤ) → IsId v → eqb_ℤ v (pos 0) ≡ false
    nonzero v h = ground arith

tconts-Decides :
    (idx : ℕ) (ids : List ℤ) (ts : List (Option LineProfileTcont))
    → Decides (validate_tconts idx ids ts) (AreValidTconts ids ts)
unfolding validate_tconts
tconts-Decides idx ids [] = (λ h. tt, λ h. refl)
tconts-Decides idx ids (none ∷ rest) = (λ h. cc, λ h. absurd h)
tconts-Decides idx ids (some t ∷ rest) = Decides-then _ _ (validate_range-Decides _ t.id _ _) (
    Decides-then _ _
      (Decides-each _ t.gemports (λ o. Decides-if_present _ o (gemport-Decides t.id ids)))
      (tconts-Decides (suc idx) (t.id ∷ ids) rest))

-- What a valid profile is, and the profile that validation leaves: only its multicast VLANs may
-- have changed, to those of `(m *LineProfileMvlan) Validate`.
abbrev pub IsValidLineProfile : LineProfile → LineProfile → Type 0
IsValidLineProfile p q =
    (p.name ≢ [])
    × AreValidTconts [] p.tconts
    × ((m : Option LineProfileMvlan) × (validate_mvlan_ptr p.mvlan ≡ ok m)
        × (q ≡ record p { mvlan = m }))

-- Validation returns the profile `q` exactly if the name of `p` is given, no T-CONT is nil, every id,
-- VLAN and class of service is in its range, every GEM port names a T-CONT that is declared at or
-- before its own, and the multicast VLANs are accepted; `q` is `p` with those that were parsed.
pub validate-IsValidLineProfile :
    (p q : LineProfile) → (validate (some p) ≡ ok q) ↔ IsValidLineProfile p q
unfolding validate
validate-IsValidLineProfile p q = (sound, complete)
  where
    with_mvlan : Option LineProfileMvlan → Result Error LineProfile
    with_mvlan m = ok (record p { mvlan = m })

    sound : validate (some p) ≡ ok q → IsValidLineProfile p q
    sound h =
        let (named, h') = (then-eq-ok _ _ q).0 h in
        let (tconts, h'') = (then-eq-ok _ _ q).0 h' in
        let (m, e, f) = >>=-eq-ok (validate_mvlan_ptr p.mvlan) with_mvlan h'' in
        (
          (Decides-reject_empty p.name _).0 named,
          (tconts-Decides 0 [] p.tconts).0 tconts,
          (m, e, cc),
        )

    complete : IsValidLineProfile p q → validate (some p) ≡ ok q
    complete (named, tconts, (m, e, f)) = (then-eq-ok _ _ q).1 (
      (Decides-reject_empty p.name _).1 named,
      (then-eq-ok _ _ q).1 ((tconts-Decides 0 [] p.tconts).1 tconts, rw e (ap ok (sym f))),
    )
