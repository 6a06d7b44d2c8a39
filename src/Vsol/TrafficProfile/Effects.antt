-- ===== src/Vsol/TrafficProfile/Effects.antt =====
-- What `CreateTrafficProfile` and `DeleteTrafficProfile` send to the device.
use mathlib.Core.Option.{some-injective}
use nano_southbound.Prelude.{
  ◌≡◌, ◌≢◌, ◌↔◌, inl, inr, refl, ap, sym, ◌∙◌, ◌⊎◌, true, Option, none, some, List, [], ◌∷◌, ◌++◌,
  map, arith, All, pos, ltb_ℤ, Bool-cases,
}
use nano_southbound.Go.Text.{Text, text_eq, text_eq_iff}
use nano_southbound.Go.Result.{ok}
use nano_southbound.Types.LineProfile.{TrafficProfile}
use nano_southbound.Vsol.NextId.{next_id}
use nano_southbound.Vsol.Session.{outputs_of, Executor}
use nano_southbound.Vsol.ProfileText.{
  validate_profile_name, cli_output_at, detect_profile_cli_errors,
}
use nano_southbound.Vsol.TrafficProfile.{
  parse_traffic_profiles, build_traffic_profile_create_commands, list_commands, delete_commands,
  find_name, create_traffic_profile, delete_traffic_profile,
}

Option-cases : {A : Type 0} (o : Option A) → (o ≡ none) ⊎ ((a : A) × (o ≡ some a))
Option-cases none = inl refl
Option-cases (some a) = inr (a, refl)

-- The profiles that a listing shows
abbrev pub shown_profiles : List Text → List TrafficProfile
shown_profiles shown = parse_traffic_profiles (cli_output_at shown 1)

-- The device has received the listing and then the commands under the next id.
abbrev pub Created : {S : Type 0} → Executor S → TrafficProfile → S → S → Type 0
Created {S} exec p s t =
    (shown : List Text) × (outputs : List Text) × (mid : S) × (exec list_commands s
      ≡ (ok shown, mid))
    × (exec
          (build_traffic_profile_create_commands (next_id (map (λ q. q.id) (shown_profiles shown)))
            p)
          mid
        ≡ (ok outputs, t))
    × (detect_profile_cli_errors outputs ≡ ok tt)
    × (validate_profile_name p.name ≡ ok tt)
    × (ltb_ℤ (pos 0) p.pir ≡ true)

abbrev sent : {S : Type 0} → Executor S → TrafficProfile → S → List Text
sent exec p s =
    build_traffic_profile_create_commands
      (next_id (map (λ q. q.id) (shown_profiles (outputs_of (exec list_commands s).0)))) p

create_sends :
    {S : Type 0} (exec : Executor S) (p : TrafficProfile) (s t : S)
    → create_traffic_profile (some exec) p s ≡ (ok tt, t)
    → Created exec p s t
unfolding create_traffic_profile
create_sends exec p s t h = (
  outputs_of (exec list_commands s).0,
  outputs_of (exec (sent exec p s) (exec list_commands s).1).0,
  (exec list_commands s).1,
  ground arith,
  ground arith,
  ground arith,
  ground arith,
  ground arith,
)

sends_create :
    {S : Type 0} (exec : Executor S) (p : TrafficProfile) (s t : S)
    → Created exec p s t
    → create_traffic_profile (some exec) p s ≡ (ok tt, t)
unfolding create_traffic_profile
sends_create exec p s t (shown, outputs, mid, e, f, d, n, r) = ground arith

-- A creation succeeds and leaves the device in the state `t` exactly if the name is valid, the peak
-- rate is positive, the device has received the listing and then the commands of the profile under
-- the next id after those listed, answered both, and no output of the commands reports an error.
pub create_traffic_profile_sends :
    {S : Type 0} (exec : Executor S) (p : TrafficProfile) (s t : S)
    → (create_traffic_profile (some exec) p s ≡ (ok tt, t)) ↔ Created exec p s t
create_traffic_profile_sends exec p s t = (create_sends exec p s t, sends_create exec p s t)

-- `p` is the first of the profiles that has the name.
abbrev pub IsFirstNamed : Text → List TrafficProfile → TrafficProfile → Type 0
IsFirstNamed name ps p =
    (before : List TrafficProfile) × (after : List TrafficProfile) × (ps ≡ before ++ p ∷ after)
    × All (λ q. q.name ≢ name) before
    × (p.name ≡ name)

find_name-IsFirstNamed :
    (name : Text) (ps : List TrafficProfile) (p : TrafficProfile)
    → find_name name ps ≡ some p
    → IsFirstNamed name ps p
find_name-IsFirstNamed name [] p h = cc
find_name-IsFirstNamed name (q ∷ ps) p h = elim (Bool-cases (text_eq q.name name)) [
  | inl e ↦
      let found = some-injective q p (rw e at h) in
      (
        [],
        ps,
        ap (λ x. x ∷ ps) found,
        tt,
        ap (λ x. x.name) (sym found) ∙ (text_eq_iff q.name name).0 e,
      )
  | inr e ↦
      let (before, after, split, others, same) = find_name-IsFirstNamed name ps p (rw e at h) in
      (
        q ∷ before,
        after,
        ap (λ l. q ∷ l) split,
        ((λ w. cc ((text_eq_iff q.name name).1 w, e)), others),
        same,
      )
]

find_name-append :
    (name : Text) (before after : List TrafficProfile) (p : TrafficProfile)
    → All (λ q. q.name ≢ name) before
    → p.name ≡ name
    → find_name name (before ++ p ∷ after) ≡ some p
find_name-append name [] after p others same = rw ((text_eq_iff p.name name).1 same)
find_name-append name (q ∷ before) after p (other, others) same =
    elim (Bool-cases (text_eq q.name name)) [
      | inl e ↦ absurd (other ((text_eq_iff q.name name).0 e))
      | inr e ↦ rw e (find_name-append name before after p others same)
    ]

IsFirstNamed-find_name :
    (name : Text) (ps : List TrafficProfile) (p : TrafficProfile)
    → IsFirstNamed name ps p
    → find_name name ps ≡ some p
IsFirstNamed-find_name name ps p (before, after, split, others, same) =
    ap (find_name name) split ∙ find_name-append name before after p others same

-- The device has received the listing, which shows a profile of that name, and then the commands that
-- delete the first such profile by its id.
abbrev pub Deleted : {S : Type 0} → Executor S → Text → S → S → Type 0
Deleted {S} exec name s t =
    (shown : List Text) × (p : TrafficProfile) × (outputs : List Text) × (mid : S) × (exec
        list_commands s
      ≡ (ok shown, mid))
    × IsFirstNamed name (shown_profiles shown) p
    × (exec (delete_commands p.id) mid ≡ (ok outputs, t))
    × (detect_profile_cli_errors outputs ≡ ok tt)
    × (validate_profile_name name ≡ ok tt)

module _ {S : Type 0} (exec : Executor S) (name : Text) (s : S) where
  abbrev listed : List TrafficProfile
  listed = shown_profiles (outputs_of (exec list_commands s).0)

  delete_missing :
      (t : S)
      → find_name name listed ≡ none
      → delete_traffic_profile (some exec) name s ≢ (ok tt, t)
  unfolding delete_traffic_profile
  delete_missing t missing h = ground arith

  delete_sends :
      (t : S) → delete_traffic_profile (some exec) name s ≡ (ok tt, t) → Deleted exec name s t
  unfolding delete_traffic_profile
  delete_sends t h = elim (Option-cases (find_name name listed)) [
    | inl missing ↦ absurd (delete_missing t missing h)
    | inr (p, found) ↦ (
      outputs_of (exec list_commands s).0,
      p,
      outputs_of (exec (delete_commands p.id) (exec list_commands s).1).0,
      (exec list_commands s).1,
      ground arith,
      find_name-IsFirstNamed name listed p found,
      ground arith,
      ground arith,
      ground arith,
    )
  ]

  sends_delete :
      (t : S) → Deleted exec name s t → delete_traffic_profile (some exec) name s ≡ (ok tt, t)
  unfolding delete_traffic_profile
  sends_delete t (shown, p, outputs, mid, e, first, f, d, n) =
      ground (arith, IsFirstNamed-find_name name (shown_profiles shown) p first)

  -- A deletion succeeds and leaves the device in the state `t` exactly if the name is valid, the device
  -- has received the listing, which shows a profile of that name, and then the commands that delete
  -- the first such profile by its id, answered both, and no output of those reports an error.
  pub delete_traffic_profile_sends :
      (t : S) → (delete_traffic_profile (some exec) name s ≡ (ok tt, t)) ↔ Deleted exec name s t
  delete_traffic_profile_sends t = (delete_sends t, sends_delete t)
