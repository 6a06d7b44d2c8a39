-- ===== src/Drivers/Cli/Subscribers.antt =====
-- drivers/cli/driver.go: what the driver does for a subscriber by generic commands. The commands of a
-- call are one text, with a newline between them, that the session sends as one command.
use nano_southbound.Prelude.{ℕ, Option, none, some, List, [], ◌∷◌, ◌++◌, pos, if◌then◌else◌}
use nano_southbound.Go.Text.{Text, codes, join, contains}
use nano_southbound.Go.Number.{itoa}
use nano_southbound.Go.Map.{Map}
use nano_southbound.Go.Result.{ok, err}
use nano_southbound.Model.Subscriber.{Subscriber}
use nano_southbound.Model.ServiceTier.{ServiceTier}
use nano_southbound.Drivers.Mock.State.{
  SubscriberResult, SubscriberStatus, Metadata, text as metadata_text,
}
use nano_southbound.Drivers.Cli.Session.{Failure, newline}
use nano_southbound.Drivers.Cli.Driver.{Network, Call, exec_command, is_connected}

abbrev pub interface_of : Text → Text
interface_of name = codes "interface sub-" ++ name

unfoldable pub create_commands : Subscriber → ServiceTier → List Text
create_commands s tier =
    codes "configure terminal"
    ∷ interface_of s.spec.onu_serial
    ∷ (codes "  description " ++ s.spec.description)
    ∷ (codes "  encapsulation dot1q " ++ itoa s.spec.vlan)
    ∷ codes "  no shutdown"
    ∷ (codes "  service-policy output rate-limit-" ++ itoa tier.spec.bandwidth_down)
    ∷ (codes "  service-policy input rate-limit-" ++ itoa tier.spec.bandwidth_up)
    ∷ codes "exit"
    ∷ codes "commit"
    ∷ []

unfoldable pub update_commands : Subscriber → ServiceTier → List Text
update_commands s tier =
    codes "configure terminal"
    ∷ interface_of s.spec.onu_serial
    ∷ (codes "  service-policy output rate-limit-" ++ itoa tier.spec.bandwidth_down)
    ∷ (codes "  service-policy input rate-limit-" ++ itoa tier.spec.bandwidth_up)
    ∷ codes "exit"
    ∷ codes "commit"
    ∷ []

unfoldable pub delete_commands : Text → List Text
delete_commands id =
    codes "configure terminal" ∷ (codes "no " ++ interface_of id) ∷ codes "commit" ∷ []

unfoldable pub suspend_commands : Text → List Text
suspend_commands id =
    codes "configure terminal"
    ∷ interface_of id
    ∷ codes "  shutdown"
    ∷ codes "exit"
    ∷ codes "commit"
    ∷ []

unfoldable pub resume_commands : Text → List Text
resume_commands id =
    codes "configure terminal"
    ∷ interface_of id
    ∷ codes "  no shutdown"
    ∷ codes "exit"
    ∷ codes "commit"
    ∷ []

abbrev metadata_of : Text → Map Metadata
metadata_of output = (codes "cli_output", metadata_text output) ∷ []

unfoldable pub result_of : Subscriber → Text → SubscriberResult
result_of s output = record {
  subscriber_id = s.name;
  session_id = codes "sess-" ++ s.spec.onu_serial;
  assigned_ip = s.spec.ip_address;
  assigned_ipv6 = s.spec.ipv6_address;
  assigned_prefix = s.spec.delegated_prefix;
  interface_name = codes "sub-" ++ s.spec.onu_serial;
  vlan = s.spec.vlan;
  metadata = metadata_of output;
}

unfoldable pub status_of : {T : Type 0} → T → Text → Text → SubscriberStatus T
status_of now id output = record {
  subscriber_id = id;
  state = codes "active";
  session_id = [];
  ipv4_address = [];
  ipv6_address = [];
  uptime_seconds = pos 0;
  last_activity = now;
  is_online = contains output (codes "up");
  metadata = metadata_of output;
}

module _ {D : Type 0} (net : Network D) (fuel : ℕ) (ctx : D → Option Text) where
  -- A command with what is made of its output and of its error
  abbrev pub run : {A : Type 0} → Text → (Text → A) → (Failure → Text) → Call D A
  run command answer problem s = elim (exec_command net fuel ctx command s) [
    | none ↦ none
    | some (ok output, t) ↦ some (ok (answer output), t)
    | some (err f, t) ↦ some (err (problem f), t)
  ]

  abbrev message_of : Failure → Text
  message_of f = f.message

  abbrev pub nothing : Text → Unit {0}
  nothing output = tt

  -- if !d.IsConnected() { return … }
  abbrev pub if_connected : {A : Type 0} → Call D A → Call D A
  if_connected call s =
      if is_connected s.0 then call s else some (err (codes "not connected to device"), s)

  abbrev pub batch : List Text → Text
  batch commands = join commands newline

  unfoldable pub create_subscriber : Subscriber → ServiceTier → Call D SubscriberResult
  create_subscriber sub tier = run (batch (create_commands sub tier)) (result_of sub) λ f.
      codes "CLI provisioning failed: "
      ++ (f.message ++ (codes " (output: " ++ (f.output ++ codes ")")))

  unfoldable pub update_subscriber : Subscriber → ServiceTier → Call D (Unit {0})
  update_subscriber sub tier = run (batch (update_commands sub tier)) nothing message_of

  unfoldable pub delete_subscriber : Text → Call D (Unit {0})
  delete_subscriber id = if_connected (run (batch (delete_commands id)) nothing message_of)

  unfoldable pub suspend_subscriber : Text → Call D (Unit {0})
  suspend_subscriber id = if_connected (run (batch (suspend_commands id)) nothing message_of)

  unfoldable pub resume_subscriber : Text → Call D (Unit {0})
  resume_subscriber id = if_connected (run (batch (resume_commands id)) nothing message_of)

  -- `now` is the clock when the output is there.
  unfoldable pub get_subscriber_status : {T : Type 0} → T → Text → Call D (SubscriberStatus T)
  get_subscriber_status now id = if_connected (
      run (codes "show " ++ interface_of id) (status_of now id)
        λ f. codes "failed to get status: " ++ f.message)

  -- The statistics are the output and the time: no counter is read.
  unfoldable pub get_subscriber_stats : {T : Type 0} → T → Text → Call D (Text × T)
  get_subscriber_stats now id = if_connected (
      run (codes "show " ++ (interface_of id ++ codes " statistics")) (λ output. (output, now))
        λ f. codes "failed to get stats: " ++ f.message)

  unfoldable pub health_check : Call D (Unit {0})
  health_check = if_connected (run (codes "show version") nothing message_of)
