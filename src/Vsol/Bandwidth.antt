-- ===== src/Vsol/Bandwidth.antt =====
-- vendors/vsol/adapter.go: how bandwidths in kbps become DBA and traffic profiles of the device
-- (`findOrCreateBandwidthProfiles` and what it calls).
pub mod Resolving
pub mod Warm
use nano_southbound.Prelude.{
  Bool, ◌||◌, Option, none, some, List, [], ◌∷◌, ◌++◌, if◌then◌else◌, is_empty, exists, ℤ, pos,
  ltb_ℤ,
}
use nano_southbound.Go.Text.{Text, codes, text_eq, contains}
use nano_southbound.Go.Number.{itoa}
use nano_southbound.Go.Result.{Result, ok, err}
use nano_southbound.Types.LineProfile.{DbaProfile, TrafficProfile}
use nano_southbound.Vsol.Session.{
  Error, failed, error_text, Executor, Run, ◌>>=◌, ◌>>◌, pure, wrap_run,
}
use nano_southbound.Vsol.DbaProfile.{list_dba_profiles, create_dba_profile}
use nano_southbound.Vsol.TrafficProfile.{list_traffic_profiles, create_traffic_profile}

pub record BandwidthProfiles : Type 0 where
  pub dba_name : Text
  pub traffic_up_name : Text
  pub traffic_dn_name : Text

abbrev or_default : Text → Text
or_default name = if is_empty name then codes "default" else name

unfoldable pub build_bandwidth_onu_commands : ℤ → BandwidthProfiles → List Text
build_bandwidth_onu_commands onu_id bw =
    let onu = codes "onu " ++ itoa onu_id in
    (if is_empty bw.dba_name then [] else (onu ++ (codes " tcont 1 dba " ++ bw.dba_name)) ∷ [])
    ++ (onu
        ++ (codes " gemport 1 traffic-limit upstream "
            ++ (or_default bw.traffic_up_name
                ++ (codes " downstream " ++ or_default bw.traffic_dn_name))))
      ∷ []

unfoldable pub build_bandwidth_commands : Text → ℤ → BandwidthProfiles → List Text
unfolding build_bandwidth_onu_commands
build_bandwidth_commands pon_port onu_id bw =
    codes "configure terminal"
    ∷ (codes "interface gpon " ++ pon_port)
    ∷ (build_bandwidth_onu_commands onu_id bw ++ codes "exit" ∷ codes "end" ∷ [])

pub record ProfileCache : Type 0 where
  pub dba_profiles : List DbaProfile
  pub traffic_profiles : List TrafficProfile

-- The methods take the cache as a pointer, which may be nil, and append to it: it is a part of the
-- state beside the device.
abbrev pub Caching : Type 0 → Type 0
Caching S = S × Option ProfileCache

-- A method that does not touch the cache
abbrev pub on_device : {S A : Type 0} → Run S A → Run (Caching S) A
on_device m (s, cache) = ((m s).0, ((m s).1, cache))

abbrev pub named_dba : Text → List DbaProfile → Bool
named_dba name = exists (λ p. text_eq p.name name)

abbrev pub named_traffic : Text → List TrafficProfile → Bool
named_traffic name = exists (λ p. text_eq p.name name)

abbrev pub dba_profile : Text → ℤ → DbaProfile
dba_profile name max_bw = record {
  id = pos 0;
  name = name;
  type = pos 4;
  fixed_bw = pos 0;
  assured_bw = pos 0;
  max_bw = max_bw;
}

abbrev pub traffic_profile : Text → ℤ → TrafficProfile
traffic_profile name pir = record { id = pos 0; name = name; sir = pos 0; pir = pir }

-- if cache != nil { cache.dbaProfiles = append(cache.dbaProfiles, profile) }
abbrev pub add_dba : DbaProfile → Option ProfileCache → Option ProfileCache
add_dba p none = none
add_dba p (some c) = some (record c { dba_profiles = c.dba_profiles ++ p ∷ [] })

abbrev pub add_traffic : TrafficProfile → Option ProfileCache → Option ProfileCache
add_traffic p none = none
add_traffic p (some c) = some (record c { traffic_profiles = c.traffic_profiles ++ p ∷ [] })

-- What follows a creation: an error that says that the profile exists already is a success.
abbrev pub settle :
    {S : Type 0}
    → Text
    → (Option ProfileCache → Option ProfileCache)
    → Result Error (Unit {0})
    → Run (Caching S) (Unit {0})
settle context grow (ok u) (s, cache) = (ok tt, (s, grow cache))
settle context grow (err e) sc =
    if contains (error_text e) (codes "already exists")
    then (ok tt, sc)
    else (err (failed (context ++ error_text e)), sc)

abbrev pub dba_name_of : ℤ → Text
dba_name_of kbps = codes "nano_dba_" ++ itoa kbps

abbrev pub traffic_name_of : ℤ → Text
traffic_name_of kbps = codes "nano_traffic_" ++ itoa kbps

-- if kbps > 0 { … }: the name of the profile, which is empty where there is none
abbrev pub resolve :
    {S : Type 0} → (ℤ → Text) → (Text → ℤ → Run (Caching S) (Unit {0})) → ℤ → Run (Caching S) Text
resolve name_of ensure kbps =
    if ltb_ℤ (pos 0) kbps then (do ensure (name_of kbps) kbps; pure (name_of kbps)) else pure []

module _ {S : Type 0} (cli : Option (Executor S)) where
  unfoldable pub new_profile_cache : Run S ProfileCache
  new_profile_cache = do
    dba ← wrap_run (codes "failed to list DBA profiles: ") (list_dba_profiles cli)
    traffic ← wrap_run (codes "failed to list traffic profiles: ") (list_traffic_profiles cli)
    pure (record { dba_profiles = dba; traffic_profiles = traffic })

  -- The lists that are searched: the cache's, or the device's
  abbrev pub known_dba : Run (Caching S) (List DbaProfile)
  known_dba (s, some c) = (ok c.dba_profiles, (s, some c))
  known_dba (s, none) =
      on_device (wrap_run (codes "failed to list DBA profiles: ") (list_dba_profiles cli)) (s, none)

  abbrev pub known_traffic : Run (Caching S) (List TrafficProfile)
  known_traffic (s, some c) = (ok c.traffic_profiles, (s, some c))
  known_traffic (s, none) =
      on_device (wrap_run (codes "failed to list traffic profiles: ") (list_traffic_profiles cli))
        (s, none)

  -- The creation of a profile that is not listed
  abbrev pub make_dba : Text → ℤ → Run (Caching S) (Unit {0})
  make_dba name max_bw (s, cache) =
      let made = create_dba_profile cli (dba_profile name max_bw) s in
      settle (codes "failed to create DBA profile " ++ (name ++ codes ": "))
        (add_dba (dba_profile name max_bw)) made.0 (made.1, cache)

  abbrev pub make_traffic : Text → ℤ → Run (Caching S) (Unit {0})
  make_traffic name pir (s, cache) =
      let made = create_traffic_profile cli (traffic_profile name pir) s in
      settle (codes "failed to create traffic profile " ++ (name ++ codes ": "))
        (add_traffic (traffic_profile name pir)) made.0 (made.1, cache)

  unfoldable pub ensure_dba_profile : Text → ℤ → Run (Caching S) (Unit {0})
  ensure_dba_profile name max_bw = do
    profiles ← known_dba
    if named_dba name profiles then pure tt else make_dba name max_bw

  unfoldable pub ensure_traffic_profile : Text → ℤ → Run (Caching S) (Unit {0})
  ensure_traffic_profile name pir = do
    profiles ← known_traffic
    if named_traffic name profiles then pure tt else make_traffic name pir

  unfoldable pub find_or_create_bandwidth_profiles_cached :
      ℤ → ℤ → Run (Caching S) (Option BandwidthProfiles)
  unfolding ensure_dba_profile ensure_traffic_profile
  find_or_create_bandwidth_profiles_cached up down =
      if ltb_ℤ (pos 0) up || ltb_ℤ (pos 0) down
      then (do
        dba ← resolve dba_name_of ensure_dba_profile up
        traffic_up ← resolve traffic_name_of ensure_traffic_profile up
        traffic_dn ← resolve traffic_name_of ensure_traffic_profile down
        pure (
            some (record {
              dba_name = dba;
              traffic_up_name = traffic_up;
              traffic_dn_name = traffic_dn;
            })))
      else pure none

  -- Without a cache
  unfoldable pub find_or_create_bandwidth_profiles : ℤ → ℤ → Run S (Option BandwidthProfiles)
  unfolding find_or_create_bandwidth_profiles_cached
  find_or_create_bandwidth_profiles up down s =
      let r = find_or_create_bandwidth_profiles_cached up down (s, none) in (r.0, r.1.0)
