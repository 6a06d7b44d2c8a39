-- ===== src/Vsol/LineProfile/Manager/Effects.antt =====
-- What creating a line profile sends to the device.
use nano_southbound.Prelude.{◌≡◌, ◌≢◌, inl, inr, ◌↔◌, some, List, arith}
use nano_southbound.Go.Text.{Text}
use nano_southbound.Go.Result.{ok, Result-cases}
use nano_southbound.Types.LineProfile.{LineProfile, validate}
use nano_southbound.Vsol.Session.{Executor, outputs_of}
use nano_southbound.Vsol.ProfileText.{validate_profile_name}
use nano_southbound.Vsol.LineProfile.{
  build_line_profile_create_commands, detect_line_profile_cli_errors,
}
use nano_southbound.Vsol.LineProfile.Manager.{create_line_profile}

-- `q` is what validation makes of the profile, and its name is valid.
abbrev pub IsAccepted : LineProfile → LineProfile → Type 0
IsAccepted p q = (validate (some p) ≡ ok q) × (validate_profile_name q.name ≡ ok tt)

-- One batch has been sent, the commands of the accepted profile, and no output reports an error.
abbrev pub Created : {S : Type 0} → Executor S → LineProfile → S → S → Type 0
Created exec p s t =
    (q : LineProfile) × (outputs : List Text) × IsAccepted p q
    × (exec (build_line_profile_create_commands q) s ≡ (ok outputs, t))
    × (detect_line_profile_cli_errors (build_line_profile_create_commands q) outputs ≡ ok tt)

module _ {S : Type 0} (exec : Executor S) where
  -- A profile that validation refuses, or whose name is refused, is not created, and nothing is sent
  -- to the device.
  pub create_line_profile_refused :
      (p : LineProfile) (s : S)
      → ((q : LineProfile) → ¬ IsAccepted p q)
      → ((create_line_profile (some exec) (some p) s).1 ≡ s)
        × ((create_line_profile (some exec) (some p) s).0 ≢ ok tt)
  unfolding create_line_profile
  create_line_profile_refused p s h = elim (Result-cases (validate (some p))) [
    | inr (e, v) ↦ (ground arith, ground arith)
    | inl (q, v) ↦ elim (Result-cases (validate_profile_name q.name)) [
      | inl (u, n) ↦ absurd (h q (v, n))
      | inr (e, n) ↦ (ground arith, ground arith)
    ]
  ]

  create_sends :
      (p : LineProfile) (s t : S)
      → create_line_profile (some exec) (some p) s ≡ (ok tt, t)
      → Created exec p s t
  unfolding create_line_profile
  create_sends p s t h = elim (Result-cases (validate (some p))) [
    | inr (e, v) ↦ absurd (ground arith)
    | inl (q, v) ↦ (
      q,
      outputs_of (exec (build_line_profile_create_commands q) s).0,
      (v, ground arith),
      ground arith,
      ground arith,
    )
  ]

  sends_create :
      (p : LineProfile) (s t : S)
      → Created exec p s t
      → create_line_profile (some exec) (some p) s ≡ (ok tt, t)
  unfolding create_line_profile
  sends_create p s t (q, outputs, (v, n), e, d) = ground arith

  -- A creation succeeds and leaves the device in the state `t` exactly if the profile and its name are
  -- valid, the device has received one batch, the commands of the validated profile, and answered it,
  -- and no output reports an error.
  pub create_line_profile_sends :
      (p : LineProfile) (s t : S)
      → (create_line_profile (some exec) (some p) s ≡ (ok tt, t)) ↔ Created exec p s t
  create_line_profile_sends p s t = (create_sends p s t, sends_create p s t)
