-- ===== src/Vsol/Bandwidth/Warm.antt =====
-- The cache of profiles during a bulk operation: what it lists stays, and no name comes in twice.
use nano_southbound.Prelude.{
  ◌≡◌, ◌⊎◌, inl, inr, refl, sym, ap, ◌∙◌, true, false, ◌||◌, Option, none, some, List, [], ◌∷◌,
  ◌++◌, ℤ, arith, exists, Bool-cases, pos, ltb_ℤ, Bool, if◌then◌else◌,
}
use nano_southbound.Go.Text.{Text, text_eq, text_eq_iff}
use nano_southbound.Go.Result.{ok, err, Result-cases}
use nano_southbound.Vsol.Session.{Error, Executor, Run}
use nano_southbound.Vsol.Session.Inversion.{>>=-eq_ok_run}
use nano_southbound.Types.LineProfile.{DbaProfile, TrafficProfile}
use nano_southbound.Vsol.DbaProfile.{create_dba_profile}
use nano_southbound.Vsol.TrafficProfile.{create_traffic_profile}
use nano_southbound.Vsol.Bandwidth.{
  BandwidthProfiles, ProfileCache, Caching, named_dba, named_traffic, dba_profile, traffic_profile,
  ensure_dba_profile, ensure_traffic_profile, find_or_create_bandwidth_profiles_cached, resolve,
  dba_name_of, traffic_name_of,
}
use nano_southbound.Vsol.Bandwidth.Resolving.{
  EnsuredDba, EnsuredTraffic, ensure_dba_profile-EnsuredDba, ensure_traffic_profile-EnsuredTraffic,
  ensure_dba_profile-listed, ensure_traffic_profile-listed, ExistsAlready,
}

module _ {A : Type 0} (key : A → Text) where
  abbrev named : Text → List A → Bool
  named name = exists (λ p. text_eq (key p) name)

  -- No two elements have the same name.
  abbrev pub Distinct : List A → Type 0
  Distinct [] = Unit
  Distinct (p ∷ ps) = (named (key p) ps ≡ false) × Distinct ps

  named-append :
      (name : Text) (ps qs : List A) → named name (ps ++ qs) ≡ (named name ps || named name qs)
  named-append name [] qs = refl
  named-append name (p ∷ ps) qs = ground (arith, named-append name ps qs)

  Distinct-append :
      (ps : List A) (q : A) → Distinct ps → named (key q) ps ≡ false → Distinct (ps ++ q ∷ [])
  Distinct-append [] q d h = (refl, tt)
  Distinct-append (p ∷ ps) q (apart, d) h = (
    ground (
      arith,
      named-append (key p) ps (q ∷ []),
      text_eq_iff (key q) (key p),
      text_eq_iff (key p) (key q),
    ),
    Distinct-append ps q d (ground arith),
  )

-- Whatever was listed still is, and if no name was listed twice none is.
abbrev pub DistinctNames : ProfileCache → Type 0
DistinctNames c = Distinct (λ p. p.name) c.dba_profiles × Distinct (λ p. p.name) c.traffic_profiles

abbrev pub Kept : ProfileCache → ProfileCache → Type 0
Kept c d =
    (DistinctNames c → DistinctNames d)
    × ((name : Text) → named_dba name c.dba_profiles ≡ true → named_dba name d.dba_profiles ≡ true)
    × ((name : Text)
        → named_traffic name c.traffic_profiles ≡ true
        → named_traffic name d.traffic_profiles ≡ true)

Kept-refl : (c : ProfileCache) → Kept c c
Kept-refl c = (λ h. h, λ n h. h, λ n h. h)

Kept-trans : (b c d : ProfileCache) → Kept b c → Kept c d → Kept b d
Kept-trans b c d (p, q, r) (x, y, z) = (λ h. x (p h), λ n h. y n (q n h), λ n h. z n (r n h))

module _ {S : Type 0} (cli : Option (Executor S)) (name : Text) (kbps : ℤ) where
  EnsuredDba-Kept : (s t : S) (c d : ProfileCache) → EnsuredDba cli name kbps s c t d → Kept c d
  EnsuredDba-Kept s t c d (inl (listed, same, unchanged)) = rw unchanged (Kept-refl c)
  EnsuredDba-Kept s t c d (inr (inl (fresh, made, grown))) = rw grown (
    λ (a, b). (Distinct-append (λ p. p.name) c.dba_profiles (dba_profile name kbps) a fresh, b),
    λ n h. rw (named-append (λ p. p.name) n c.dba_profiles (dba_profile name kbps ∷ []), h),
    λ n h. h,
  )
  EnsuredDba-Kept s t c d (inr (inr (fresh, raced, unchanged))) = rw unchanged (Kept-refl c)

  EnsuredTraffic-Kept :
      (s t : S) (c d : ProfileCache) → EnsuredTraffic cli name kbps s c t d → Kept c d
  EnsuredTraffic-Kept s t c d (inl (listed, same, unchanged)) = rw unchanged (Kept-refl c)
  EnsuredTraffic-Kept s t c d (inr (inl (fresh, made, grown))) = rw grown (
    λ (a, b).
        (a, Distinct-append (λ p. p.name) c.traffic_profiles (traffic_profile name kbps) b fresh),
    λ n h. h,
    λ n h. rw (named-append (λ p. p.name) n c.traffic_profiles (traffic_profile name kbps ∷ []), h),
  )
  EnsuredTraffic-Kept s t c d (inr (inr (fresh, raced, unchanged))) = rw unchanged (Kept-refl c)

-- A step that may be left out because its bandwidth is not positive.
resolve-eq_ok :
    {S : Type 0} (name_of : ℤ → Text) (ensure : Text → ℤ → Run (Caching S) (Unit {0})) (kbps : ℤ)
    (sc td : Caching S) (n : Text)
    → resolve name_of ensure kbps sc ≡ (ok n, td)
    → ((ltb_ℤ (pos 0) kbps ≡ false) × (n ≡ []) × (td ≡ sc))
      ⊎ ((ltb_ℤ (pos 0) kbps ≡ true)
          × (n ≡ name_of kbps)
          × (ensure (name_of kbps) kbps sc ≡ (ok tt, td)))
resolve-eq_ok name_of ensure kbps sc td n h = elim (Bool-cases (ltb_ℤ (pos 0) kbps)) [
  | inl up ↦ elim (Result-cases (ensure (name_of kbps) kbps sc).0) [
    | inl (u, e) ↦ inr (up, ground arith, ground arith)
    | inr (m, e) ↦ absurd (ground arith)
  ]
  | inr down ↦ inl (down, ground arith, ground arith)
]

-- The names for two bandwidths
abbrev pub name_when : (ℤ → Text) → ℤ → Text
name_when name_of kbps = if ltb_ℤ (pos 0) kbps then name_of kbps else []

resolve-ready :
    {S : Type 0} (name_of : ℤ → Text) (ensure : Text → ℤ → Run (Caching S) (Unit {0})) (kbps : ℤ)
    (sc : Caching S)
    → (ltb_ℤ (pos 0) kbps ≡ true → ensure (name_of kbps) kbps sc ≡ (ok tt, sc))
    → resolve name_of ensure kbps sc ≡ (ok (name_when name_of kbps), sc)
resolve-ready name_of ensure kbps sc h = elim (Bool-cases (ltb_ℤ (pos 0) kbps)) [
  | inl up ↦ rw (up, h up)
  | inr down ↦ rw down
]

abbrev pub names_of : ℤ → ℤ → Option BandwidthProfiles
names_of up down =
    if ltb_ℤ (pos 0) up || ltb_ℤ (pos 0) down
    then some (record {
      dba_name = name_when dba_name_of up;
      traffic_up_name = name_when traffic_name_of up;
      traffic_dn_name = name_when traffic_name_of down;
    })
    else none

module _ {S : Type 0} (cli : Option (Executor S)) where
  -- Somewhere the device said of a profile that should be created that it exists.
  abbrev pub RacedDba : ℤ → Type 0
  RacedDba kbps =
      (m : S) × (n : S) × (e : Error) × (create_dba_profile cli
          (dba_profile (dba_name_of kbps) kbps) m
        ≡ (err e, n))
      × ExistsAlready e

  abbrev pub RacedTraffic : ℤ → Type 0
  RacedTraffic kbps =
      (m : S) × (n : S) × (e : Error) × (create_traffic_profile cli
          (traffic_profile (traffic_name_of kbps) kbps) m
        ≡ (err e, n))
      × ExistsAlready e

  -- A profile that a bandwidth needs is listed.
  abbrev pub DbaReady : ℤ → ProfileCache → Type 0
  DbaReady kbps c = ltb_ℤ (pos 0) kbps ≡ true → named_dba (dba_name_of kbps) c.dba_profiles ≡ true

  abbrev pub TrafficReady : ℤ → ProfileCache → Type 0
  TrafficReady kbps c =
      ltb_ℤ (pos 0) kbps ≡ true → named_traffic (traffic_name_of kbps) c.traffic_profiles ≡ true

  named-added :
      (name : Text) (kbps : ℤ) (ps : List DbaProfile)
      → named_dba name (ps ++ dba_profile name kbps ∷ []) ≡ true
  named-added name kbps ps = ground (
    arith,
    named-append (λ p. p.name) name ps (dba_profile name kbps ∷ []),
    text_eq_iff name name,
  )

  named-added_traffic :
      (name : Text) (kbps : ℤ) (ps : List TrafficProfile)
      → named_traffic name (ps ++ traffic_profile name kbps ∷ []) ≡ true
  named-added_traffic name kbps ps = ground (
    arith,
    named-append (λ p. p.name) name ps (traffic_profile name kbps ∷ []),
    text_eq_iff name name,
  )

  dba_step :
      (kbps : ℤ) (sc : Caching S) (c : ProfileCache) (td : Caching S) (n : Text)
      → sc.1 ≡ some c
      → resolve dba_name_of (ensure_dba_profile cli) kbps sc ≡ (ok n, td)
      → (d : ProfileCache) × (td.1 ≡ some d)
        × (n ≡ name_when dba_name_of kbps)
        × Kept c d
        × (DbaReady kbps d ⊎ RacedDba kbps)
  dba_step kbps sc c td n cached h =
      elim (resolve-eq_ok dba_name_of (ensure_dba_profile cli) kbps sc td n h) [
        | inl (down, e, same) ↦ (
          c,
          ap (λ x. x.1) same ∙ cached,
          rw (down, e),
          Kept-refl c,
          inl (λ up. absurd (ground arith)),
        )
        | inr (up, e, ran) ↦
            let (d, left, how) =
              ensure_dba_profile-EnsuredDba cli (dba_name_of kbps) kbps sc.0 td.0 c td.1 (
                ap (λ x. ensure_dba_profile cli (dba_name_of kbps) kbps (sc.0, x)) (sym cached)
                ∙ ran) in
            (
              d,
              left,
              rw (up, e),
              EnsuredDba-Kept cli (dba_name_of kbps) kbps sc.0 td.0 c d how,
              elim how [
                | inl (listed, same, unchanged) ↦ inl (λ up2. rw (unchanged, listed))
                | inr (inl (fresh, made, grown)) ↦
                    inl (λ up2. rw (grown) (named-added (dba_name_of kbps) kbps c.dba_profiles))
                | inr (inr (fresh, (m, refused, exists_already), unchanged)) ↦
                    inr (sc.0, td.0, m, refused, exists_already)
              ],
            )
      ]

  traffic_step :
      (kbps : ℤ) (sc : Caching S) (c : ProfileCache) (td : Caching S) (n : Text)
      → sc.1 ≡ some c
      → resolve traffic_name_of (ensure_traffic_profile cli) kbps sc ≡ (ok n, td)
      → (d : ProfileCache) × (td.1 ≡ some d)
        × (n ≡ name_when traffic_name_of kbps)
        × Kept c d
        × (TrafficReady kbps d ⊎ RacedTraffic kbps)
  traffic_step kbps sc c td n cached h =
      elim (resolve-eq_ok traffic_name_of (ensure_traffic_profile cli) kbps sc td n h) [
        | inl (down, e, same) ↦ (
          c,
          ap (λ x. x.1) same ∙ cached,
          rw (down, e),
          Kept-refl c,
          inl (λ up. absurd (ground arith)),
        )
        | inr (up, e, ran) ↦
            let (d, left, how) =
              ensure_traffic_profile-EnsuredTraffic cli (traffic_name_of kbps) kbps sc.0 td.0 c td.1
                (ap (λ x. ensure_traffic_profile cli (traffic_name_of kbps) kbps (sc.0, x))
                    (sym cached)
                  ∙ ran) in
            (
              d,
              left,
              rw (up, e),
              EnsuredTraffic-Kept cli (traffic_name_of kbps) kbps sc.0 td.0 c d how,
              elim how [
                | inl (listed, same, unchanged) ↦ inl (λ up2. rw (unchanged, listed))
                | inr (inl (fresh, made, grown)) ↦ inl (λ up2.
                    rw (grown) (named-added_traffic (traffic_name_of kbps) kbps c.traffic_profiles))
                | inr (inr (fresh, (m, refused, exists_already), unchanged)) ↦
                    inr (sc.0, td.0, m, refused, exists_already)
              ],
            )
      ]

  -- With the profiles that are needed listed, a call answers at once.
  ready_again :
      (up down : ℤ) (u : S) (d : ProfileCache)
      → DbaReady up d
      → TrafficReady up d
      → TrafficReady down d
      → find_or_create_bandwidth_profiles_cached cli up down (u, some d)
        ≡ (ok (names_of up down), (u, some d))
  unfolding find_or_create_bandwidth_profiles_cached
  ready_again up down u d a b c = elim (Bool-cases (ltb_ℤ (pos 0) up || ltb_ℤ (pos 0) down)) [
    | inl some_rate ↦ rw (
      some_rate,
      resolve-ready dba_name_of (ensure_dba_profile cli) up (u, some d)
          (λ h. ensure_dba_profile-listed cli (dba_name_of up) up u d (a h)),
      resolve-ready traffic_name_of (ensure_traffic_profile cli) up (u, some d)
          (λ h. ensure_traffic_profile-listed cli (traffic_name_of up) up u d (b h)),
      resolve-ready traffic_name_of (ensure_traffic_profile cli) down (u, some d)
          (λ h. ensure_traffic_profile-listed cli (traffic_name_of down) down u d (c h)),
    )
    | inr no_rate ↦ rw no_rate
  ]

  -- What each step leaves ready is ready at the end.
  all_ready :
      (up down : ℤ) (c1 c2 c3 : ProfileCache)
      → Kept c1 c2
      → Kept c2 c3
      → DbaReady up c1 ⊎ RacedDba up
      → TrafficReady up c2 ⊎ RacedTraffic up
      → TrafficReady down c3 ⊎ RacedTraffic down
      → ((DbaReady up c3 × TrafficReady up c3) × TrafficReady down c3)
        ⊎ (RacedDba up ⊎ (RacedTraffic up ⊎ RacedTraffic down))
  all_ready up down c1 c2 c3 k2 k3 (inr raced) w2 w3 = inr (inl raced)
  all_ready up down c1 c2 c3 k2 k3 (inl a) (inr raced) w3 = inr (inr (inl raced))
  all_ready up down c1 c2 c3 k2 k3 (inl a) (inl b) (inr raced) = inr (inr (inr raced))
  all_ready up down c1 c2 c3 (p, q, x) (p3, q3, x3) (inl a) (inl b) (inl c) =
      inl ((λ h. q3 _ (q _ (a h)), λ h. x3 _ (b h)), c)

  -- The three steps of a call that succeeds, for some positive bandwidth
  three_steps :
      (up down : ℤ) (s : S) (c : ProfileCache) (td : Caching S) (r : Option BandwidthProfiles)
      → (ltb_ℤ (pos 0) up || ltb_ℤ (pos 0) down) ≡ true
      → find_or_create_bandwidth_profiles_cached cli up down (s, some c) ≡ (ok r, td)
      → (d : ProfileCache) × (td.1 ≡ some d)
        × (r ≡ names_of up down)
        × Kept c d
        × (((DbaReady up d × TrafficReady up d) × TrafficReady down d)
            ⊎ (RacedDba up ⊎ (RacedTraffic up ⊎ RacedTraffic down)))
  unfolding find_or_create_bandwidth_profiles_cached
  three_steps up down s c td r rate h =
      let (n1, u1, e1, h1) =
        >>=-eq_ok_run (resolve dba_name_of (ensure_dba_profile cli) up) _ (s, some c) td r
          (rw rate at h) in
      let (c1, l1, q1, k1, w1) = dba_step up (s, some c) c u1 n1 refl e1 in
      let (n2, u2, e2, h2) =
        >>=-eq_ok_run (resolve traffic_name_of (ensure_traffic_profile cli) up) _ u1 td r h1 in
      let (c2, l2, q2, k2, w2) = traffic_step up u1 c1 u2 n2 l1 e2 in
      let (n3, u3, e3, h3) =
        >>=-eq_ok_run (resolve traffic_name_of (ensure_traffic_profile cli) down) _ u2 td r h2 in
      let (c3, l3, q3, k3, w3) = traffic_step down u2 c2 u3 n3 l2 e3 in
      (
        c3,
        ground arith,
        ground arith,
        Kept-trans c c2 c3 (Kept-trans c c1 c2 k1 k2) k3,
        all_ready up down c1 c2 c3 k2 k3 w1 w2 w3,
      )

  no_rate_again :
      (up down : ℤ) (sc td : Caching S) (r : Option BandwidthProfiles)
      → (ltb_ℤ (pos 0) up || ltb_ℤ (pos 0) down) ≡ false
      → find_or_create_bandwidth_profiles_cached cli up down sc ≡ (ok r, td)
      → (td ≡ sc)
        × (r ≡ names_of up down)
        × ((u : Caching S) → find_or_create_bandwidth_profiles_cached cli up down u ≡ (ok r, u))
  unfolding find_or_create_bandwidth_profiles_cached
  no_rate_again up down sc td r h ran = (ground arith, ground arith, λ u. ground arith)

  -- A call with a cache that succeeds returns the names `nano_dba_<up>`, `nano_traffic_<up>` and
  -- `nano_traffic_<down>`, each for a positive rate, or nothing if there is none. The cache it leaves
  -- still lists what it listed, and lists no name twice if it did not before. Either the same call
  -- then returns the same with nothing sent, whatever the state of the device, or the
  -- device could refuse a creation with an error that says that the profile already exists.
  pub find_or_create_bandwidth_profiles_cached_again :
      (up down : ℤ) (s t : S) (c : ProfileCache) (left : Option ProfileCache)
      (r : Option BandwidthProfiles)
      → find_or_create_bandwidth_profiles_cached cli up down (s, some c) ≡ (ok r, (t, left))
      → (d : ProfileCache) × (left ≡ some d)
        × (r ≡ names_of up down)
        × Kept c d
        × (((u : S)
              → find_or_create_bandwidth_profiles_cached cli up down (u, some d)
                ≡ (ok r, (u, some d)))
            ⊎ (RacedDba up ⊎ (RacedTraffic up ⊎ RacedTraffic down)))
  find_or_create_bandwidth_profiles_cached_again up down s t c left r h =
      elim (Bool-cases (ltb_ℤ (pos 0) up || ltb_ℤ (pos 0) down)) [
        | inl rate ↦
            let (d, l, names, kept, ready) = three_steps up down s c (t, left) r rate h in
            (
              d,
              l,
              names,
              kept,
              elim ready [
                | inl ((a, b), e) ↦ inl (λ u. rw names (ready_again up down u d a b e))
                | inr raced ↦ inr raced
              ],
            )
        | inr none_positive ↦
            let (same, names, again) =
              no_rate_again up down (s, some c) (t, left) r none_positive h in
            (c, ap (λ x. x.1) same, names, Kept-refl c, inl (λ u. again (u, some c)))
      ]
