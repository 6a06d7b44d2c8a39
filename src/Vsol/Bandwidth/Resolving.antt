-- ===== src/Vsol/Bandwidth/Resolving.antt =====
-- What `ensureDBAProfile` and `ensureTrafficProfile` do with a cache, and how the cache grows.
use nano_southbound.Prelude.{
  ◌≡◌, ◌⊎◌, inl, inr, refl, true, false, Option, some, [], ◌∷◌, ◌++◌, ℤ, arith, Bool-cases,
}
use nano_southbound.Go.Text.{Text, codes, contains}
use nano_southbound.Go.Result.{ok, err, Result-cases}
use nano_southbound.Vsol.Session.{Error, error_text, Executor}
use nano_southbound.Vsol.DbaProfile.{create_dba_profile}
use nano_southbound.Vsol.TrafficProfile.{create_traffic_profile}
use nano_southbound.Vsol.Bandwidth.{
  ProfileCache, named_dba, named_traffic, dba_profile, traffic_profile, ensure_dba_profile,
  ensure_traffic_profile,
}

-- An error that says that what should be created exists already
abbrev pub ExistsAlready : Error → Type 0
ExistsAlready e = contains (error_text e) (codes "already exists") ≡ true

module _ {S : Type 0} (cli : Option (Executor S)) (name : Text) (kbps : ℤ) where
  -- The three ways in which a profile is ensured: it was listed and nothing is sent; it was created and
  -- is listed then; the device said that it exists.
  abbrev pub EnsuredDba : S → ProfileCache → S → ProfileCache → Type 0
  EnsuredDba s c t d =
      ((named_dba name c.dba_profiles ≡ true) × (t ≡ s) × (d ≡ c))
      ⊎ (((named_dba name c.dba_profiles ≡ false)
            × (create_dba_profile cli (dba_profile name kbps) s ≡ (ok tt, t))
            × (d ≡ record c { dba_profiles = c.dba_profiles ++ dba_profile name kbps ∷ [] }))
          ⊎ ((named_dba name c.dba_profiles ≡ false)
              × ((e : Error) × (create_dba_profile cli (dba_profile name kbps) s ≡ (err e, t))
                  × ExistsAlready e)
              × (d ≡ c)))

  abbrev pub EnsuredTraffic : S → ProfileCache → S → ProfileCache → Type 0
  EnsuredTraffic s c t d =
      ((named_traffic name c.traffic_profiles ≡ true) × (t ≡ s) × (d ≡ c))
      ⊎ (((named_traffic name c.traffic_profiles ≡ false)
            × (create_traffic_profile cli (traffic_profile name kbps) s ≡ (ok tt, t))
            × (d ≡ record c {
              traffic_profiles = c.traffic_profiles ++ traffic_profile name kbps ∷ [];
            }))
          ⊎ ((named_traffic name c.traffic_profiles ≡ false)
              × ((e : Error) × (create_traffic_profile cli (traffic_profile name kbps) s
                    ≡ (err e, t))
                  × ExistsAlready e)
              × (d ≡ c)))

  pub ensure_dba_profile-EnsuredDba :
      (s t : S) (c : ProfileCache) (left : Option ProfileCache)
      → ensure_dba_profile cli name kbps (s, some c) ≡ (ok tt, (t, left))
      → (d : ProfileCache) × (left ≡ some d) × EnsuredDba s c t d
  unfolding ensure_dba_profile
  ensure_dba_profile-EnsuredDba s t c left h = elim (Bool-cases (named_dba name c.dba_profiles)) [
    | inl listed ↦ (c, ground arith, inl (listed, ground arith, refl))
    | inr fresh ↦ elim (Result-cases (create_dba_profile cli (dba_profile name kbps) s).0) [
      | inl (u, made) ↦ (
        record c { dba_profiles = c.dba_profiles ++ dba_profile name kbps ∷ [] },
        ground arith,
        inr (inl (fresh, ground arith, refl)),
      )
      | inr (e, refused) ↦
          (c, ground arith, inr (inr (fresh, (e, ground arith, ground arith), refl)))
    ]
  ]

  pub ensure_traffic_profile-EnsuredTraffic :
      (s t : S) (c : ProfileCache) (left : Option ProfileCache)
      → ensure_traffic_profile cli name kbps (s, some c) ≡ (ok tt, (t, left))
      → (d : ProfileCache) × (left ≡ some d) × EnsuredTraffic s c t d
  unfolding ensure_traffic_profile
  ensure_traffic_profile-EnsuredTraffic s t c left h =
      elim (Bool-cases (named_traffic name c.traffic_profiles)) [
        | inl listed ↦ (c, ground arith, inl (listed, ground arith, refl))
        | inr fresh ↦
            elim (Result-cases (create_traffic_profile cli (traffic_profile name kbps) s).0) [
              | inl (u, made) ↦ (
                record c {
                  traffic_profiles = c.traffic_profiles ++ traffic_profile name kbps ∷ [];
                },
                ground arith,
                inr (inl (fresh, ground arith, refl)),
              )
              | inr (e, refused) ↦
                  (c, ground arith, inr (inr (fresh, (e, ground arith, ground arith), refl)))
            ]
      ]

  -- A profile that is listed is not looked for, nor made.
  pub ensure_dba_profile-listed :
      (s : S) (c : ProfileCache)
      → named_dba name c.dba_profiles ≡ true
      → ensure_dba_profile cli name kbps (s, some c) ≡ (ok tt, (s, some c))
  unfolding ensure_dba_profile
  ensure_dba_profile-listed s c h = rw h

  pub ensure_traffic_profile-listed :
      (s : S) (c : ProfileCache)
      → named_traffic name c.traffic_profiles ≡ true
      → ensure_traffic_profile cli name kbps (s, some c) ≡ (ok tt, (s, some c))
  unfolding ensure_traffic_profile
  ensure_traffic_profile-listed s c h = rw h
