-- ===== src/Drivers/Mock/Status.antt =====
-- drivers/mock/driver.go: the status that is reported of each subscriber, and a change of one of them.
use mathlib.Core.Option.{some-injective}
use nano_southbound.Prelude.{
  ◌≡◌, ◌∙◌, ap, sym, refl, Bool, true, false, Option, none, some, if◌then◌else◌,
}
use nano_southbound.Go.Text.{Text, text_eq}
use nano_southbound.Go.Map.{lookup, lookup-insert}
use nano_southbound.Go.Result.{Result, ok, err}
use nano_southbound.Drivers.Mock.State.{
  MockSubscriber, Driver, World, SubscriberStatus, not_found, status_of,
}
use nano_southbound.Drivers.Mock.Calls.{
  get_subscriber_status, guarded, on_found, report, store, record_command, if_exists, if_connected,
  Call,
}

pub if_twice :
    {A : Type 0} (b : Bool) (x y z : A)
    → (if b then x else (if b then y else z)) ≡ (if b then x else z)
if_twice true x y z = refl
if_twice false x y z = refl

module _ {C T F A : Type 0} where
  pub guarded-true :
      (b : Bool) (m : Result Text A × Driver C T F) (d : Driver C T F)
      → b ≡ true
      → guarded b m d ≡ m
  guarded-true true m d h = refl
  guarded-true false m d h = cc

  on_found-some :
      {V : Type 0} (id : Text) (o : Option V) (m : V → Call (Driver C T F) A) (d : Driver C T F)
      (v : V)
      → o ≡ some v
      → on_found id o m d ≡ m v d
  on_found-some id none m d v h = cc
  on_found-some id (some x) m d v h = ap (λ y. m y d) (some-injective x v h)

  pub if_exists-some :
      (id : Text) (m : MockSubscriber T → Call (Driver C T F) A) (d : Driver C T F)
      (sub : MockSubscriber T)
      → d.connected ≡ true
      → lookup id d.subscribers ≡ some sub
      → if_connected (if_exists id m) d ≡ m sub d
  if_exists-some id m d sub c found =
      guarded-true d.connected (if_exists id m d) d c
      ∙ on_found-some id (lookup id d.subscribers) m d sub found

-- The status that is reported for `k`
abbrev pub status :
    {C T F : Type 0} → World T → Text → Driver C T F → Result Text (SubscriberStatus T)
status w k e = (get_subscriber_status w k e).0

abbrev pub reported :
    {T : Type 0} → World T → Text → Option (MockSubscriber T) → Result Text (SubscriberStatus T)
reported w k none = err (not_found k)
reported w k (some sub) = ok (status_of w k sub)

module _ {C T F : Type 0} (w : World T) where
  status-connected :
      (e : Driver C T F) (k : Text)
      → e.connected ≡ true
      → status w k e ≡ reported w k (lookup k e.subscribers)
  unfolding get_subscriber_status
  status-connected e k c =
      ap (λ x. x.0) (guarded-true e.connected (if_exists k (report w k) e) e c)
      ∙ on_lookup (lookup k e.subscribers)
    where
      on_lookup : (o : Option (MockSubscriber T)) → (on_found k o (report w k) e).0 ≡ reported w k o
      on_lookup none = refl
      on_lookup (some sub) = refl

  -- Where one entry of the map is changed and nothing else, so is the status.
  pub changed-status :
      (b : Bool) (o : Option (MockSubscriber T)) (k : Text) (e e' : Driver C T F)
      → e.connected ≡ true
      → e'.connected ≡ true
      → lookup k e'.subscribers ≡ (if b then o else lookup k e.subscribers)
      → status w k e' ≡ (if b then reported w k o else status w k e)
  changed-status true o k e e' c c' h = status-connected e' k c' ∙ ap (reported w k) h
  changed-status false o k e e' c c' h =
      status-connected e' k c' ∙ ap (reported w k) h ∙ sym (status-connected e k c)

  pub store-status :
      (id k cmd : Text) (sub : MockSubscriber T) (e : Driver C T F)
      → e.connected ≡ true
      → status w k (record_command cmd (store id sub e))
        ≡ (if text_eq id k then ok (status_of w k sub) else status w k e)
  store-status id k cmd sub e c =
      changed-status (text_eq id k) (some sub) k e (record_command cmd (store id sub e)) c c
        (lookup-insert id k sub e.subscribers)
