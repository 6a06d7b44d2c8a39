-- ===== src/Tests/Mock.antt =====
-- The theorems about the simulated device at concrete inputs.
use nano_southbound.Prelude.{ℕ, ◌≡◌, refl, true, false, none, [], ◌∷◌, if◌then◌else◌, pos}
use nano_southbound.Go.Text.{codes, text_eq, contains, to_lower, has_prefix}
use nano_southbound.Go.Map.{lookup}
use nano_southbound.Go.Result.{ok}
use nano_southbound.Model.ServiceTier.{ServiceTier}
use nano_southbound.Tests.Model.{subscriber}
use nano_southbound.Drivers.Mock.State.{MockSubscriber, Driver, World, online, suspended, status_of}
use nano_southbound.Drivers.Mock.Calls.{new_driver, suspend_subscriber, resume_subscriber}
use nano_southbound.Drivers.Mock.Outputs.{onu_info_output, exec_command, exec_commands}
use nano_southbound.Drivers.Mock.Matching.{Match}
use nano_southbound.Drivers.Mock.Reachable.{
  connecting, creating, suspending, perform, fresh, after, Reachable-Match,
}
use nano_southbound.Drivers.Mock.Status.{status}
use nano_southbound.Drivers.Mock.Lifecycle.{suspend-resume}
use nano_southbound.Drivers.Mock.Disconnected.{perform_disconnected}

-- Configurations, times and floating point numbers are numbers here.
abbrev Device : Type 0
Device = Driver ℕ ℕ ℕ

abbrev world : World ℕ
world = record {
  done = none;
  now = λ n. n;
  intn = λ n bound. n;
  unix = λ t. pos t;
  seconds_since = λ t. pos t;
}

abbrev gold : ServiceTier
gold = record {
  name = codes "gold";
  annotations = [];
  spec = record {
    bandwidth_up = pos 100;
    bandwidth_down = pos 300;
    qos_class = [];
    burst_up = none;
    burst_down = none;
    priority = none;
    description = [];
    ipv6_enabled = none;
    static_ip_pool = [];
  };
}

abbrev new_device : Device
new_device = record {
  config = 0;
  connected = false;
  subscribers = [];
  onus = [];
  stats = [];
  cmd_history = [];
}

abbrev used : Device
used =
    perform (suspending (codes "s"))
      (perform (creating world (subscriber []) gold) (perform (connecting world none) new_device))

Reachable-Match_example : Match used.subscribers used.stats
unfolding new_driver
Reachable-Match_example = Reachable-Match used (
    after (suspending (codes "s")) _ (
      after (creating world (subscriber []) gold) _
        (after (connecting world none) _ (fresh 0 [] new_device refl))))

abbrev sub : MockSubscriber ℕ
sub = record {
  id = codes "s";
  onu_serial = codes "VSOL1";
  vlan = pos 100;
  pon_port = codes "0/1";
  onu_id = pos 1;
  state = online;
  ip_address = codes "100.64.0.1";
  ipv6_address = [];
  created_at = 0;
}

abbrev running : Device
running = record new_device { connected = true; subscribers = (codes "s", sub) ∷ [] }

suspend-resume_example :
    let paused = (suspend_subscriber (codes "s") running).1 in
    let resumed = (resume_subscriber (codes "s") paused).1 in
    ((suspend_subscriber (codes "s") running).0 ≡ ok tt)
    × ((resume_subscriber (codes "s") paused).0 ≡ ok tt)
    × (status world (codes "s") paused ≡ (
        if text_eq (codes "s") (codes "s")
        then ok (status_of world (codes "s") (record sub { state = suspended }))
        else status world (codes "s") running))
    × (status world (codes "s") resumed ≡ (
        if text_eq (codes "s") (codes "s")
        then ok (status_of world (codes "s") (record sub { state = online }))
        else status world (codes "s") running))
unfolding lookup text_eq
suspend-resume_example = suspend-resume world running (codes "s") (codes "s") sub refl refl

abbrev connected_device : Device
connected_device = record new_device { connected = true }

perform_disconnected_example : perform (creating world (subscriber []) gold) new_device ≡ new_device
perform_disconnected_example =
    perform_disconnected (creating world (subscriber []) gold) new_device tt refl

-- One command with an output of its own, and one with the default output
exec_commands_runs :
    (exec_commands
      (λ f. [])
      (λ i n. 0)
      0
      (codes "show ont info" ∷ codes "exit" ∷ [])
      connected_device).0
    ≡ (onu_info_output ∷ codes "OK: exit" ∷ [], none)
unfolding exec_commands exec_command contains to_lower has_prefix
exec_commands_runs = refl
