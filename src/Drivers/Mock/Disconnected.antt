-- ===== src/Drivers/Mock/Disconnected.antt =====
-- drivers/mock/driver.go: the calls on a driver that is not connected.
use nano_southbound.Prelude.{◌≡◌, refl, Bool, true, false}
use nano_southbound.Go.Result.{Result}
use nano_southbound.Go.Text.{Text}
use nano_southbound.Drivers.Mock.State.{Driver}
use nano_southbound.Drivers.Mock.Calls.{
  guarded, create_subscriber, update_subscriber, delete_subscriber, suspend_subscriber,
  resume_subscriber, get_subscriber_status, get_subscriber_stats, health_check,
}
use nano_southbound.Drivers.Mock.Outputs.{exec_command}
use nano_southbound.Drivers.Mock.Reachable.{
  Request, connecting, disconnecting, creating, updating, deleting, suspending, resuming,
  asking_status, asking_stats, checking, executing, perform,
}

-- All calls but those that connect and disconnect
abbrev pub NeedsConnection : {C T F : Type 0} → Request C T F → Type 0
NeedsConnection (connecting w config) = ⊥
NeedsConnection disconnecting = ⊥
NeedsConnection (creating w s tier) = Unit
NeedsConnection (updating s tier) = Unit
NeedsConnection (deleting id) = Unit
NeedsConnection (suspending id) = Unit
NeedsConnection (resuming id) = Unit
NeedsConnection (asking_status w id) = Unit
NeedsConnection (asking_stats w id) = Unit
NeedsConnection checking = Unit
NeedsConnection (executing one_decimal uint64 command) = Unit

module _ {C T F : Type 0} where
  guarded-keeps :
      {A : Type 0} (b : Bool) (m : Result Text A × Driver C T F) (d : Driver C T F)
      → b ≡ false
      → (guarded b m d).1 ≡ d
  guarded-keeps true m d h = cc
  guarded-keeps false m d h = refl

  -- A call that needs a connection leaves a driver that has none as it was, the command history too.
  pub perform_disconnected :
      (q : Request C T F) (d : Driver C T F)
      → NeedsConnection q
      → d.connected ≡ false
      → perform q d ≡ d
  unfolding create_subscriber update_subscriber delete_subscriber suspend_subscriber exec_command
      resume_subscriber get_subscriber_status get_subscriber_stats health_check
  perform_disconnected (connecting w config) d h c = absurd h
  perform_disconnected disconnecting d h c = absurd h
  perform_disconnected (creating w s tier) d h c = guarded-keeps d.connected _ d c
  perform_disconnected (updating s tier) d h c = guarded-keeps d.connected _ d c
  perform_disconnected (deleting id) d h c = guarded-keeps d.connected _ d c
  perform_disconnected (suspending id) d h c = guarded-keeps d.connected _ d c
  perform_disconnected (resuming id) d h c = guarded-keeps d.connected _ d c
  perform_disconnected (asking_status w id) d h c = guarded-keeps d.connected _ d c
  perform_disconnected (asking_stats w id) d h c = guarded-keeps d.connected _ d c
  perform_disconnected (executing one_decimal uint64 command) d h c =
      guarded-keeps d.connected _ d c
  perform_disconnected checking d h c = guarded-keeps d.connected _ d c
