-- ===== src/Vsol/OnuProfile/Manager/Effects.antt =====
-- What `CreateONUProfile` sends to the device.
use nano_southbound.Prelude.{◌≡◌, ◌≢◌, inl, inr, ◌↔◌, true, some, List, arith}
use nano_southbound.Go.Text.{Text, codes, contains}
use nano_southbound.Go.Result.{ok, err, Result-cases}
use nano_southbound.Types.OnuProfile.{OnuHardwareProfile, validate}
use nano_southbound.Vsol.Session.{Error, Executor, error_text, outputs_of}
use nano_southbound.Vsol.ProfileText.{validate_profile_name}
use nano_southbound.Vsol.OnuProfile.{build_onu_profile_create_commands}
use nano_southbound.Vsol.OnuProfile.Manager.{show_commands, get_onu_profile, create_onu_profile}

-- The profile and its name are valid.
abbrev pub IsAccepted : OnuHardwareProfile → Type 0
IsAccepted p = (validate (some p) ≡ ok tt) × (validate_profile_name p.name ≡ ok tt)

-- The device has received the lookup, which failed with an error that says "not found", and then the
-- commands of the profile.
abbrev pub Created : {S : Type 0} → Executor S → OnuHardwareProfile → S → S → Type 0
Created exec p s t =
    (outputs : List Text) × IsAccepted p
    × ((why : Error) × ((get_onu_profile (some exec) p.name s).0 ≡ err why)
        × (contains (error_text why) (codes "not found") ≡ true))
    × (exec (build_onu_profile_create_commands p) (exec (show_commands p.name) s).1
        ≡ (ok outputs, t))

module _ {S : Type 0} (exec : Executor S) (p : OnuHardwareProfile) (s : S) where
  -- A profile that is refused, or whose name is, is not created, and nothing is sent to the device.
  pub create_onu_profile_refused :
      ¬ IsAccepted p
      → ((create_onu_profile (some exec) (some p) s).1 ≡ s)
        × ((create_onu_profile (some exec) (some p) s).0 ≢ ok tt)
  unfolding create_onu_profile
  create_onu_profile_refused h = elim (Result-cases (validate (some p))) [
    | inr (e, v) ↦ (ground arith, ground arith)
    | inl (u, v) ↦ elim (Result-cases (validate_profile_name p.name)) [
      | inl (w, n) ↦ absurd (h (v, n))
      | inr (e, n) ↦ (ground arith, ground arith)
    ]
  ]

  create_sends :
      (t : S) → create_onu_profile (some exec) (some p) s ≡ (ok tt, t) → Created exec p s t
  unfolding create_onu_profile
  create_sends t h = elim (Result-cases (get_onu_profile (some exec) p.name s).0) [
    | inl (q, e) ↦ absurd (ground arith)
    | inr (why, e) ↦ (
      outputs_of (exec (build_onu_profile_create_commands p) (exec (show_commands p.name) s).1).0,
      (ground arith, ground arith),
      (why, e, ground arith),
      ground arith,
    )
  ]

  sends_create :
      (t : S) → Created exec p s t → create_onu_profile (some exec) (some p) s ≡ (ok tt, t)
  unfolding create_onu_profile
  sends_create t (outputs, (v, n), (why, e, d), f) = ground arith

  -- A creation succeeds and leaves the device in the state `t` exactly if the profile and its name are
  -- valid, the device has received the lookup, which failed with an error that says "not found", and
  -- then the commands of the profile, and answered those; what it answers is not looked at.
  pub create_onu_profile_sends :
      (t : S) → (create_onu_profile (some exec) (some p) s ≡ (ok tt, t)) ↔ Created exec p s t
  create_onu_profile_sends t = (create_sends t, sends_create t)
