-- ===== src/Vsol/Wifi/Remembered.antt =====
-- The Wi-Fi command profile of an ONU is found out once.
use nano_southbound.Prelude.{◌≡◌, ◌⊎◌, inl, inr, refl, none, some, ℤ, arith, Option-cases}
use nano_southbound.Go.Text.{Text, text_eq, text_eq_iff, to_lower, trim_space}
use nano_southbound.Go.Map.{Map, insert, lookup-insert}
use nano_southbound.Go.Result.{Result, ok, Result-cases}
use nano_southbound.Vsol.Wifi.Commands.{
  WifiCommandProfile, legacy, pri, profile_text, normalize_wifi_command_profile,
}
use nano_southbound.Vsol.Wifi.Device.{Device}
use nano_southbound.Vsol.Wifi.Profiles.{
  forced_wifi_command_profile, resolve_wifi_command_profile, wifi_command_profile_cache_key, cached,
  hint_wifi_command_profile, probe_wifi_command_profile,
}

normalize-profile_text :
    (p : WifiCommandProfile) → normalize_wifi_command_profile (profile_text p) ≡ some p
unfolding normalize_wifi_command_profile text_eq to_lower trim_space
normalize-profile_text legacy = refl
normalize-profile_text pri = refl

module _ {S : Type 0} (device : Device S) (metadata : Map Text) where
  cached-insert :
      (key : Text) (p : WifiCommandProfile) (cache : Map Text)
      → cached device metadata key (insert key (profile_text p) cache) ≡ some p
  cached-insert key p cache = ground (
    arith,
    lookup-insert key key (profile_text p) cache,
    text_eq_iff key key,
    normalize-profile_text p,
  )

  module _ (pon_port : Text) (onu_id : ℤ) (serial : Text) where
    abbrev key : Text
    key = wifi_command_profile_cache_key device metadata serial pon_port onu_id

    abbrev resolved : S × Map Text → Result Text WifiCommandProfile × (S × Map Text)
    resolved = resolve_wifi_command_profile device metadata pon_port onu_id serial

    -- A profile that is forced or cached is found with nothing sent.
    Known : WifiCommandProfile → Map Text → Type 0
    Known p cache =
        (forced_wifi_command_profile device metadata ≡ ok (some p))
        ⊎ ((forced_wifi_command_profile device metadata ≡ ok none)
            × (cached device metadata key cache ≡ some p))

    Known-resolved :
        (p : WifiCommandProfile) (u : S) (cache : Map Text)
        → Known p cache
        → resolved (u, cache) ≡ (ok p, (u, cache))
    unfolding resolve_wifi_command_profile Known
    Known-resolved p u cache (inl forced) = ground arith
    Known-resolved p u cache (inr (free, known)) = ground arith

    learned :
        (p : WifiCommandProfile) (s t : S) (cache left : Map Text)
        → forced_wifi_command_profile device metadata ≡ ok none
        → cached device metadata key cache ≡ none
        → resolved (s, cache) ≡ (ok p, (t, left))
        → left ≡ insert key (profile_text p) cache
    unfolding resolve_wifi_command_profile
    learned p s t cache left free missing h =
        let hinted = hint_wifi_command_profile device metadata serial s in
        elim (Option-cases hinted.0) [
          | inr (q, hint) ↦ ground arith
          | inl no_hint ↦
              elim (Option-cases
                (probe_wifi_command_profile device metadata pon_port onu_id hinted.1).0) [
                  | inr (q, probed) ↦ ground arith
                  | inl nothing ↦ absurd (ground arith)
                ]
        ]

    resolved-Known :
        (p : WifiCommandProfile) (s t : S) (cache left : Map Text)
        → resolved (s, cache) ≡ (ok p, (t, left))
        → Known p left
    unfolding resolve_wifi_command_profile Known
    resolved-Known p s t cache left h =
        elim (Result-cases (forced_wifi_command_profile device metadata)) [
          | inr (m, bad) ↦ absurd (ground arith)
          | inl (some q, forced) ↦ inl (ground arith)
          | inl (none, free) ↦ inr (
            free,
            elim (Option-cases (cached device metadata key cache)) [
              | inr (q, known) ↦ ground arith
              | inl missing ↦
                  let kept : left ≡ insert key (profile_text p) cache =
                    learned p s t cache left free missing h in
                  rw kept (cached-insert key p cache)
            ],
          )
        ]

    -- A profile that was found once is found again, whatever has become of the device, with nothing sent to it
    -- and the cache as it was.
    pub resolve_wifi_command_profile_again :
        (p : WifiCommandProfile) (s t u : S) (cache left : Map Text)
        → resolve_wifi_command_profile device metadata pon_port onu_id serial (s, cache)
          ≡ (ok p, (t, left))
        → resolve_wifi_command_profile device metadata pon_port onu_id serial (u, left)
          ≡ (ok p, (u, left))
    resolve_wifi_command_profile_again p s t u cache left h =
        Known-resolved p u left (resolved-Known p s t cache left h)
