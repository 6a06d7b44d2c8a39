-- ===== src/Drivers/Mock/Calls.antt =====
-- drivers/mock/driver.go: the methods of the driver. A call takes what it reads from outside in a
-- `World`, and returns its result and the driver that it leaves. The mutex makes each call one step, but for
-- `HealthCheck`, which writes the history under the lock for readers.
use nano_southbound.Prelude.{
  ◌+◌, Bool, true, false, Option, none, some, List, [], ◌∷◌, ◌++◌, is_some, length, ℤ, pos,
}
use nano_southbound.Go.Text.{Text, codes}
use nano_southbound.Go.Number.{itoa}
use nano_southbound.Go.Map.{lookup, insert, delete}
use nano_southbound.Go.Result.{Result, ok, err}
use nano_southbound.Model.Subscriber.{Subscriber}
use nano_southbound.Model.ServiceTier.{ServiceTier}
use nano_southbound.Drivers.Mock.State.{
  MockSubscriber, MockOnu, SubscriberStats, Driver, World, SubscriberResult, SubscriberStatus,
  online, suspended, not_connected, not_found, remove_from_autofind, new_subscriber, new_stats,
  profile_command, create_commands, result_of, status_of, grown,
}

-- What a method does to the driver: its result, and the driver that it leaves
abbrev pub Call : Type 0 → Type 0 → Type 0
Call D A = D → Result Text A × D

module _ {C T F : Type 0} where
  abbrev pub record_command : Text → Driver C T F → Driver C T F
  record_command cmd d = record d { cmd_history = d.cmd_history ++ cmd ∷ [] }

  -- Without the ONUs, which are random
  unfoldable pub new_driver : Option C → List (MockOnu F) → Result Text (Driver C T F)
  new_driver none onus = err (codes "config is required")
  new_driver (some config) onus = ok (record {
    config = config;
    connected = false;
    subscribers = [];
    onus = onus;
    stats = [];
    cmd_history = [];
  })

  abbrev pub with_config : Option C → Driver C T F → Driver C T F
  with_config none d = d
  with_config (some config) d = record d { config = config }

  abbrev pub connect_unless : Option Text → Call (Driver C T F) (Unit {0})
  connect_unless (some e) d = (err e, d)
  connect_unless none d = (ok tt, record_command (codes "connect") (record d { connected = true }))

  unfoldable pub connect : World T → Option C → Call (Driver C T F) (Unit {0})
  connect w config d = connect_unless w.done (with_config config d)

  unfoldable pub disconnect : Call (Driver C T F) (Unit {0})
  disconnect d = (ok tt, record_command (codes "disconnect") (record d { connected = false }))

  -- `if !d.connected { return … }`
  abbrev pub guarded : {A : Type 0} → Bool → Result Text A × Driver C T F → Call (Driver C T F) A
  guarded true m d = m
  guarded false m d = (err not_connected, d)

  abbrev pub if_connected : {A : Type 0} → Call (Driver C T F) A → Call (Driver C T F) A
  if_connected m d = guarded d.connected (m d) d

  -- `value, exists := m[id]`, with the error if there is none
  abbrev pub on_found :
      {A V : Type 0} → Text → Option V → (V → Call (Driver C T F) A) → Call (Driver C T F) A
  on_found id none m d = (err (not_found id), d)
  on_found id (some v) m d = m v d

  abbrev pub if_exists :
      {A : Type 0} → Text → (MockSubscriber T → Call (Driver C T F) A) → Call (Driver C T F) A
  if_exists id m d = on_found id (lookup id d.subscribers) m d

  abbrev pub next_onu_id : Driver C T F → ℤ
  next_onu_id d = pos (length d.subscribers + 1)

  -- The driver with the new subscriber
  abbrev pub provisioned : World T → Subscriber → ServiceTier → Driver C T F → Driver C T F
  provisioned w s tier d = record d {
    subscribers = insert s.name (new_subscriber w (next_onu_id d) s) d.subscribers;
    onus = remove_from_autofind s.spec.onu_serial d.onus;
    stats = insert s.name (new_stats w) d.stats;
    cmd_history = d.cmd_history ++ create_commands (next_onu_id d) s tier;
  }

  -- The rest of `CreateSubscriber`, where a subscriber of that name exists or not, and where the
  -- context ends the wait or not
  abbrev pub create_unless :
      Bool → Option Text → World T → Subscriber → ServiceTier → Call (Driver C T F) SubscriberResult
  create_unless true o w s tier d =
      (err (codes "subscriber " ++ (s.name ++ codes " already exists")), d)
  create_unless false (some e) w s tier d = (err e, d)
  create_unless false none w s tier d = (
    ok (result_of w (next_onu_id d) s (new_subscriber w (next_onu_id d) s)),
    provisioned w s tier d,
  )

  unfoldable pub create_subscriber :
      World T → Subscriber → ServiceTier → Call (Driver C T F) SubscriberResult
  create_subscriber w s tier =
      if_connected λ d. create_unless (is_some (lookup s.name d.subscribers)) w.done w s tier d

  -- `mockSub` is a pointer into the map: what is assigned to it is in the map.
  abbrev pub store : Text → MockSubscriber T → Driver C T F → Driver C T F
  store id sub d = record d { subscribers = insert id sub d.subscribers }

  abbrev pub update : Subscriber → ServiceTier → MockSubscriber T → Call (Driver C T F) (Unit {0})
  update s tier sub d = (
    ok tt,
    record_command (profile_command sub.onu_id tier)
        (store s.name (record sub { vlan = s.spec.vlan }) d),
  )

  unfoldable pub update_subscriber : Subscriber → ServiceTier → Call (Driver C T F) (Unit {0})
  update_subscriber s tier = if_connected (if_exists s.name (update s tier))

  abbrev pub remove : Text → MockSubscriber T → Call (Driver C T F) (Unit {0})
  remove id sub d = (
    ok tt,
    record (record_command (codes "no onu " ++ itoa sub.onu_id) d) {
      subscribers = delete id d.subscribers;
      stats = delete id d.stats;
    },
  )

  unfoldable pub delete_subscriber : Text → Call (Driver C T F) (Unit {0})
  delete_subscriber id = if_connected (if_exists id (remove id))

  -- Sets the state, and records the command with the ONU id.
  abbrev pub set_state : Text → Text → Text → MockSubscriber T → Call (Driver C T F) (Unit {0})
  set_state state cmd id sub d =
      (ok tt, record_command (cmd ++ itoa sub.onu_id) (store id (record sub { state = state }) d))

  unfoldable pub suspend_subscriber : Text → Call (Driver C T F) (Unit {0})
  suspend_subscriber id =
      if_connected (if_exists id (set_state suspended (codes "onu disable ") id))

  unfoldable pub resume_subscriber : Text → Call (Driver C T F) (Unit {0})
  resume_subscriber id = if_connected (if_exists id (set_state online (codes "no onu disable ") id))

  abbrev pub report : World T → Text → MockSubscriber T → Call (Driver C T F) (SubscriberStatus T)
  report w id sub d = (ok (status_of w id sub), d)

  unfoldable pub get_subscriber_status : World T → Text → Call (Driver C T F) (SubscriberStatus T)
  get_subscriber_status w id = if_connected (if_exists id (report w id))

  -- The growth is kept: the map holds a pointer to the statistics.
  abbrev pub grow : World T → Text → SubscriberStats T → Call (Driver C T F) (SubscriberStats T)
  grow w id s d = (ok (grown w s), record d { stats = insert id (grown w s) d.stats })

  unfoldable pub get_subscriber_stats : World T → Text → Call (Driver C T F) (SubscriberStats T)
  get_subscriber_stats w id = if_connected λ d. on_found id (lookup id d.stats) (grow w id) d

  unfoldable pub health_check : Call (Driver C T F) (Unit {0})
  health_check = if_connected λ d. (ok tt, record_command (codes "show system") d)
