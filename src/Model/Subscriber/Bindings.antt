-- ===== src/Model/Subscriber/Bindings.antt =====
-- What the lookups of a subscriber's ONU bindings return, and what adding and removing change.
use nano_southbound.Prelude.{
  ◌≡◌, ◌≢◌, ◌⊎◌, ◌↔◌, not, inl, inr, refl, Bool, true, false, Option, none, some, List, [], ◌∷◌,
  ◌++◌, arith, if◌then◌else◌, is_empty, is_some, All, Bool-cases, Option-cases, ap,
}
use nano_southbound.Go.Text.{Text, text_eq, text_eq_iff}
use nano_southbound.Model.Subscriber.{
  OnuBinding, Subscriber, role_primary, legacy_binding, first_with, get_primary_onu,
  get_onu_by_serial, with_bindings, add_onu, put_back, or_legacy, remove_first, remove_onu,
}

first_with-append :
    (p : OnuBinding → Bool) (bs : List OnuBinding) (b : OnuBinding)
    → first_with p (bs ++ b ∷ [])
      ≡ (if is_some (first_with p bs) then first_with p bs else if p b then some b else none)
unfolding first_with
first_with-append p [] b = refl
first_with-append p (c ∷ bs) b = ground (arith, first_with-append p bs b)

-- `b` is the first binding of serial `k`, and `rest` is the list without it.
abbrev pub FirstOf : Text → List OnuBinding → List OnuBinding → Type 0
FirstOf k bs rest =
    (before : List OnuBinding) × (b : OnuBinding) × (after : List OnuBinding) × (bs
      ≡ before ++ b ∷ after)
    × All (λ c. c.serial ≢ k) before
    × (b.serial ≡ k)
    × (rest ≡ before ++ after)

abbrev Removal : Text → List OnuBinding → Option (List OnuBinding) → Type 0
Removal k bs none = All (λ b. b.serial ≢ k) bs
Removal k bs (some rest) = FirstOf k bs rest

Removal-put_back :
    (k : Text) (b : OnuBinding) (bs : List OnuBinding) (r : Option (List OnuBinding))
    → b.serial ≢ k
    → Removal k bs r
    → Removal k (b ∷ bs) (put_back b r)
Removal-put_back k b bs none h m = (h, m)
Removal-put_back k b bs (some rest) h (before, c, after, e, clear, found, left) =
    (b ∷ before, c, after, ap (λ l. b ∷ l) e, (h, clear), found, ap (λ l. b ∷ l) left)

remove_first_lem : (k : Text) (bs : List OnuBinding) → Removal k bs (remove_first k bs)
unfolding remove_first
remove_first_lem k [] = tt
remove_first_lem k (b ∷ bs) = elim (Bool-cases (text_eq b.serial k)) [
  | inl e ↦ rw e ([], b, bs, refl, tt, (text_eq_iff b.serial k).0 e, refl)
  | inr e ↦ rw e (
      Removal-put_back k b bs (remove_first k bs) (λ p. cc ((text_eq_iff b.serial k).1 p, e))
        (remove_first_lem k bs))
]

-- The result of removing by the serial `k`, from the list of bindings that is left.
abbrev pub Removed : Subscriber → Text → Subscriber × Bool → Type 0
Removed s k r =
    (All (λ b. b.serial ≢ k) s.spec.onu_bindings × (r ≡ (s, false)))
    ⊎ ((rest : List OnuBinding) × FirstOf k s.spec.onu_bindings rest
        × (r ≡ (with_bindings s rest, true)))

-- Removing by a serial takes out exactly the first binding of that serial and reports `true`; if no
-- binding has it the subscriber is unchanged and the report is `false`. All else of the subscriber
-- stays, the legacy serial too.
pub remove_onu-Removed : (s : Subscriber) (k : Text) → Removed s k (remove_onu s k)
unfolding remove_onu
remove_onu-Removed s k = elim (Option-cases (remove_first k s.spec.onu_bindings)) [
  | inl e ↦ inl (let h = remove_first_lem k s.spec.onu_bindings in rw e at h, rw (e, remove_onu))
  | inr (rest, e) ↦
      inr (rest, let h = remove_first_lem k s.spec.onu_bindings in rw e at h, rw (e, remove_onu))
]

-- A binding that is added is found under its serial, unless an earlier binding has the same one; the
-- other bindings are found as before.
pub get_onu_by_serial-add_onu :
    (s : Subscriber) (b : OnuBinding) (k : Text)
    → s.spec.onu_bindings ≢ []
    → get_onu_by_serial (add_onu s b) k ≡ (
        if is_some (get_onu_by_serial s k)
        then get_onu_by_serial s k
        else if text_eq b.serial k
        then some b
        else none)
unfolding get_onu_by_serial add_onu
get_onu_by_serial-add_onu s b k h =
    ground (arith, first_with-append (λ c. text_eq c.serial k) s.spec.onu_bindings b)

-- A subscriber with only the legacy serial is found under it. Once a binding of another serial and
-- role is added it is not found any more, though it is still the primary ONU.
pub legacy_hidden :
    (s : Subscriber) (b : OnuBinding)
    → s.spec.onu_bindings ≡ []
    → s.spec.onu_serial ≢ []
    → b.serial ≢ s.spec.onu_serial
    → b.role ≢ role_primary
    → (get_onu_by_serial s s.spec.onu_serial ≡ some (legacy_binding s.spec.onu_serial))
      × (get_onu_by_serial (add_onu s b) s.spec.onu_serial ≡ none)
      × (get_primary_onu (add_onu s b) ≡ some (legacy_binding s.spec.onu_serial))
unfolding get_onu_by_serial get_primary_onu add_onu
legacy_hidden s b e l h r = ground (
  arith,
  text_eq_iff b.serial s.spec.onu_serial,
  text_eq_iff s.spec.onu_serial s.spec.onu_serial,
  text_eq_iff b.role role_primary,
)

-- `b` is the first binding that passes the test.
abbrev pub IsFirst : (OnuBinding → Type 0) → List OnuBinding → OnuBinding → Type 0
IsFirst P bs b =
    (before : List OnuBinding) × (after : List OnuBinding) × (bs ≡ before ++ b ∷ after)
    × All (λ c. ¬ P c) before
    × P b

abbrev Search : (OnuBinding → Type 0) → List OnuBinding → Option OnuBinding → Type 0
Search P bs none = All (λ c. ¬ P c) bs
Search P bs (some b) = IsFirst P bs b

module _ (P : OnuBinding → Type 0) (p : OnuBinding → Bool)
    (decides : (b : OnuBinding) → (p b ≡ true) ↔ P b) where
  Search-cons :
      (b : OnuBinding) (bs : List OnuBinding) (r : Option OnuBinding)
      → ¬ P b
      → Search P bs r
      → Search P (b ∷ bs) r
  Search-cons b bs none h m = (h, m)
  Search-cons b bs (some c) h (before, after, e, clear, found) =
      (b ∷ before, after, ap (λ l. b ∷ l) e, (h, clear), found)

  first_with-Search : (bs : List OnuBinding) → Search P bs (first_with p bs)
  unfolding first_with
  first_with-Search [] = tt
  first_with-Search (b ∷ bs) = elim (Bool-cases (p b)) [
    | inl e ↦ rw e ([], bs, refl, tt, (decides b).0 e)
    | inr e ↦
        rw e
          (Search-cons b bs (first_with p bs) (λ q. cc ((decides b).1 q, e)) (first_with-Search bs))
  ]

abbrev pub PrimaryOf : Subscriber → Option OnuBinding → Type 0
PrimaryOf s none = All (λ c. c.role ≢ role_primary) s.spec.onu_bindings × (s.spec.onu_serial ≡ [])
PrimaryOf s (some b) =
    IsFirst (λ c. c.role ≡ role_primary) s.spec.onu_bindings b
    ⊎ (All (λ c. c.role ≢ role_primary) s.spec.onu_bindings
        × (s.spec.onu_serial ≢ [])
        × (b ≡ legacy_binding s.spec.onu_serial))

PrimaryOf-or_legacy :
    (s : Subscriber) (r : Option OnuBinding)
    → Search (λ c. c.role ≡ role_primary) s.spec.onu_bindings r
    → PrimaryOf s (or_legacy r (not (is_empty s.spec.onu_serial)) s.spec.onu_serial)
PrimaryOf-or_legacy s (some b) h = inl h
PrimaryOf-or_legacy s none h = by_serial s.spec.onu_serial refl
  where
    by_serial :
        (t : Text)
        → s.spec.onu_serial ≡ t
        → PrimaryOf s (or_legacy none (not (is_empty s.spec.onu_serial)) s.spec.onu_serial)
    by_serial [] e = rw (e, PrimaryOf) (h, e)
    by_serial (c ∷ t) e = rw e (inr (h, (λ q. cc), refl))

-- The primary ONU is the first binding with the primary role; if no binding has it, it is made from
-- the legacy serial; and there is none exactly if that serial is empty too.
pub get_primary_onu-PrimaryOf : (s : Subscriber) → PrimaryOf s (get_primary_onu s)
unfolding get_primary_onu
get_primary_onu-PrimaryOf s =
    PrimaryOf-or_legacy s (first_with (λ c. text_eq c.role role_primary) s.spec.onu_bindings) (
      first_with-Search (λ c. c.role ≡ role_primary) (λ c. text_eq c.role role_primary)
        (λ c. text_eq_iff c.role role_primary) s.spec.onu_bindings)
