-- ===== src/Drivers/Mock/Reachable.antt =====
-- drivers/mock/driver.go: the states that the driver reaches by calls.
use mathlib.Core.Path.{subst}
use nano_southbound.Prelude.{
  ℕ, ◌≡◌, inl, inr, refl, Bool, true, false, Option, none, some, List, is_some,
}
use nano_southbound.Go.Text.{Text, codes}
use nano_southbound.Go.Map.{lookup}
use nano_southbound.Go.Result.{Result, ok, ok-injective}
use nano_southbound.Model.Subscriber.{Subscriber}
use nano_southbound.Model.ServiceTier.{ServiceTier}
use nano_southbound.Drivers.Mock.State.{
  MockSubscriber, MockOnu, Driver, World, online, suspended, new_subscriber, new_stats, grown,
}
use nano_southbound.Drivers.Mock.Calls.{
  connect_unless, guarded, on_found, create_unless, update, remove, set_state, report, grow, store,
  if_connected, if_exists, with_config, record_command, next_onu_id, Call, new_driver, connect,
  disconnect, create_subscriber, update_subscriber, delete_subscriber, suspend_subscriber,
  resume_subscriber, get_subscriber_status, get_subscriber_stats, health_check,
}
use nano_southbound.Drivers.Mock.Outputs.{exec_command}
use nano_southbound.Drivers.Mock.Matching.{
  IsStored, Match, Match-put, Match-delete, Entry-some, Match-store, Match-stats,
}

-- A call on the driver
pub data Request (C T F : Type 0) : Type 0 where
  connecting : World T → Option C → Request C T F
  disconnecting : Request C T F
  creating : World T → Subscriber → ServiceTier → Request C T F
  updating : Subscriber → ServiceTier → Request C T F
  deleting suspending resuming : Text → Request C T F
  asking_status asking_stats : World T → Text → Request C T F
  checking : Request C T F
  executing : (F → Text) → (ℕ → ℕ) → Text → Request C T F

abbrev pub perform : {C T F : Type 0} → Request C T F → Driver C T F → Driver C T F
perform (connecting w config) d = (connect w config d).1
perform disconnecting d = (disconnect d).1
perform (creating w s tier) d = (create_subscriber w s tier d).1
perform (updating s tier) d = (update_subscriber s tier d).1
perform (deleting id) d = (delete_subscriber id d).1
perform (suspending id) d = (suspend_subscriber id d).1
perform (resuming id) d = (resume_subscriber id d).1
perform (asking_status w id) d = (get_subscriber_status w id d).1
perform (asking_stats w id) d = (get_subscriber_stats w id d).1
perform checking d = (health_check d).1
perform (executing one_decimal uint64 command) d = (exec_command one_decimal uint64 command d).1

-- The drivers that a new one becomes by calls, whatever their order
pub data Reachable {C T F : Type 0} : Driver C T F → Type 0 where
  fresh :
      (config : C) (onus : List (MockOnu F)) (d : Driver C T F)
      → new_driver (some config) onus ≡ ok d
      → Reachable d
  after : (request : Request C T F) (d : Driver C T F) → Reachable d → Reachable (perform request d)

-- Subscribers and statistics match.
pub record Consistent {C T F : Type 0} (d : Driver C T F) : Type 0 where
  pub matched : Match d.subscribers d.stats

module _ {C T F : Type 0} where
  guarded-Consistent :
      {A : Type 0} (b : Bool) (m : Result Text A × Driver C T F) (d : Driver C T F)
      → Consistent d
      → Consistent m.1
      → Consistent (guarded b m d).1
  guarded-Consistent true m d h k = k
  guarded-Consistent false m d h k = h

  on_found-Consistent :
      {A V : Type 0} (id : Text) (o : Option V) (m : V → Call (Driver C T F) A) (d : Driver C T F)
      → Consistent d
      → ((v : V) → o ≡ some v → Consistent (m v d).1)
      → Consistent (on_found id o m d).1
  on_found-Consistent id none m d h k = h
  on_found-Consistent id (some v) m d h k = k v refl

  if_exists-Consistent :
      {A : Type 0} (id : Text) (m : MockSubscriber T → Call (Driver C T F) A) (d : Driver C T F)
      → Consistent d
      → ((sub : MockSubscriber T) → lookup id d.subscribers ≡ some sub → Consistent (m sub d).1)
      → Consistent (if_connected (if_exists id m) d).1
  if_exists-Consistent id m d h k =
      guarded-Consistent d.connected (if_exists id m d) d h
        (on_found-Consistent id (lookup id d.subscribers) m d h k)

  connect-Consistent :
      (o : Option Text) (c : Option C) (d : Driver C T F)
      → Consistent d
      → Consistent (connect_unless o (with_config c d)).1
  connect-Consistent (some e) (some c) d h = record { matched = h.matched }
  connect-Consistent (some e) none d h = h
  connect-Consistent none (some c) d h = record { matched = h.matched }
  connect-Consistent none none d h = record { matched = h.matched }

  create-Consistent :
      (b : Bool) (o : Option Text) (w : World T) (s : Subscriber) (tier : ServiceTier)
      (d : Driver C T F)
      → Consistent d
      → Consistent (create_unless b o w s tier d).1
  unfolding new_subscriber
  create-Consistent true o w s tier d h = h
  create-Consistent false (some e) w s tier d h = h
  create-Consistent false none w s tier d h = record {
    matched =
        Match-put s.name (new_subscriber w (next_onu_id d) s) (new_stats w) d.subscribers d.stats
          (refl, inl refl) h.matched;
  }

  store-Consistent :
      (id : Text) (old sub : MockSubscriber T) (cmd : Text) (d : Driver C T F)
      → Consistent d
      → lookup id d.subscribers ≡ some old
      → (IsStored id old → IsStored id sub)
      → Consistent (record_command cmd (store id sub d))
  store-Consistent id old sub cmd d h found keeps = record {
    matched =
        Match-store id old sub d.subscribers d.stats found
          (keeps (Entry-some id old (lookup id d.stats) (rw found at (h.matched id)))) h.matched;
  }

  perform-Consistent :
      (q : Request C T F) (d : Driver C T F) → Consistent d → Consistent (perform q d)
  unfolding connect create_subscriber update_subscriber delete_subscriber suspend_subscriber
      exec_command resume_subscriber get_subscriber_status get_subscriber_stats health_check
      disconnect
  perform-Consistent (connecting w config) d h = connect-Consistent w.done config d h
  perform-Consistent disconnecting d h = record { matched = h.matched }
  perform-Consistent (creating w s tier) d h =
      guarded-Consistent d.connected
        (create_unless (is_some (lookup s.name d.subscribers)) w.done w s tier d) d h
        (create-Consistent (is_some (lookup s.name d.subscribers)) w.done w s tier d h)
  perform-Consistent (updating s tier) d h =
      if_exists-Consistent s.name (update s tier) d h
        λ sub e. store-Consistent s.name sub (record sub { vlan = s.spec.vlan }) _ d h e λ k. k
  perform-Consistent (deleting id) d h =
      if_exists-Consistent id (remove id) d h
        λ sub e. record { matched = Match-delete id d.subscribers d.stats h.matched }
  perform-Consistent (suspending id) d h =
      if_exists-Consistent id (set_state suspended (codes "onu disable ") id) d h λ sub e.
        store-Consistent id sub (record sub { state = suspended }) _ d h e λ k. (k.0, inr refl)
  perform-Consistent (resuming id) d h =
      if_exists-Consistent id (set_state online (codes "no onu disable ") id) d h λ sub e.
        store-Consistent id sub (record sub { state = online }) _ d h e λ k. (k.0, inl refl)
  perform-Consistent (asking_status w id) d h = if_exists-Consistent id (report w id) d h λ sub e. h
  perform-Consistent (asking_stats w id) d h =
      guarded-Consistent d.connected (on_found id (lookup id d.stats) (grow w id) d) d h (
        on_found-Consistent id (lookup id d.stats) (grow w id) d h λ s e. record {
          matched = Match-stats id s (grown w s) d.subscribers d.stats e h.matched;
        })
  perform-Consistent (executing one_decimal uint64 command) d h =
      guarded-Consistent d.connected (_, record_command command d) d h
        (record { matched = h.matched })
  perform-Consistent checking d h =
      guarded-Consistent d.connected _ d h (record { matched = h.matched })

  Reachable-Consistent : (d : Driver C T F) → Reachable d → Consistent d
  unfolding new_driver lookup
  Reachable-Consistent d (fresh config onus e' e) =
      subst Consistent (ok-injective _ d e) (record { matched = λ k. tt })
  Reachable-Consistent d (after q e h) = perform-Consistent q e (Reachable-Consistent e h)

  -- Whatever calls are made on a new driver, in whatever order: it has a subscriber and its statistics
  -- under the same names, and every subscriber is stored under its own name and is online or suspended.
  pub Reachable-Match : (d : Driver C T F) → Reachable d → Match d.subscribers d.stats
  Reachable-Match d h = (Reachable-Consistent d h).matched
