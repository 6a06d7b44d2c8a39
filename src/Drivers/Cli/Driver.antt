-- ===== src/Drivers/Cli/Driver.antt =====
-- drivers/cli/driver.go: the connection, and the commands that it carries. `D` is the state of the
-- device, of the network and of the SSH library.
use nano_southbound.Prelude.{
  ℕ, Bool, true, false, not, ◌&&◌, ◌||◌, Option, none, some, List, [], ◌∷◌, ◌++◌, if◌then◌else◌,
  is_empty, is_some, pos, eqb_ℤ,
}
use nano_southbound.Go.Text.{Text, codes, text_eq, to_lower, equal_fold}
use nano_southbound.Go.Number.{itoa}
use nano_southbound.Go.Quote.{quote}
use nano_southbound.Go.Map.{lookup}
use nano_southbound.Go.Result.{Result, ok, err, Check}
use nano_southbound.Types.Equipment.{EquipmentConfig}
use nano_southbound.Drivers.Cli.Prompt.{PromptPattern}
use nano_southbound.Drivers.Cli.Session.{Expecter, Failure, execute, new_session}

-- The pointers of the driver: whether there is a client, and the pattern of the session
pub record Driver : Type 0 where
  pub config : Option EquipmentConfig
  pub ssh_client : Bool
  pub expect_session : Option PromptPattern

-- The defaults are written into the caller's configuration.
unfoldable pub new_driver : Option EquipmentConfig → Result Text Driver
new_driver none = err (codes "config is required")
new_driver (some c) =
    if is_empty c.address
    then err (codes "address is required")
    else ok (record {
      config = some (record c {
        port = if eqb_ℤ c.port (pos 0) then pos 22 else c.port;
        timeout = if eqb_ℤ c.timeout (pos 0) then pos 30000000000 else c.timeout;
      });
      ssh_client = false;
      expect_session = none;
    })

abbrev pub is_false : Option Text → Bool
is_false none = false
is_false (some v) = text_eq (to_lower v) (codes "false")

unfoldable pub should_disable_pager : Driver → Bool
should_disable_pager driver = elim driver.config [
  | none ↦ true
  | some c ↦ elim c.metadata [
    | none ↦ true
    | some m ↦ not (
        text_eq c.address (codes "127.0.0.1")
        || equal_fold c.address (codes "localhost")
        || is_false (lookup (codes "disable_pager") m))
  ]
]

unfoldable pub is_connected : Driver → Bool
is_connected driver = driver.ssh_client && is_some driver.expect_session

-- The library ssh: `Dial` with its target, user and password, which may also be asked for unless the
-- flag is set, `SpawnSSH` on the client, and the client's `Close`
pub record Network (D : Type 0) : Type 0 where
  pub expecter : Expecter D
  pub dial : Text → Text → Text → Bool → D → Check Text × D
  pub spawn : D → Check Text × D
  pub close_client : D → Check Text × D

abbrev pub State : Type 0 → Type 0
State D = Driver × D

-- What a call returns and leaves; none where it does not return: a pager does not end within `fuel`
-- chunks, or there is no configuration, which panics
abbrev pub Call : Type 0 → Type 0 → Type 0
Call D A = State D → Option (Result Text A × State D)

abbrev pub no_driver : EquipmentConfig → Driver
no_driver c = record { config = some c; ssh_client = false; expect_session = none }

module _ {D : Type 0} (net : Network D) where
  -- if d.expectSession != nil { _ = d.expectSession.Close() }
  abbrev session_closed : Option PromptPattern → D → D
  session_closed none d = d
  session_closed (some p) d = (net.expecter.close d).1

  unfoldable pub disconnect : State D → Check Text × State D
  disconnect (driver, d) =
      let left = session_closed driver.expect_session d in
      let closed = net.close_client left in
      let gone = record driver { ssh_client = false; expect_session = none } in
      if driver.ssh_client then (closed.0, (gone, closed.1)) else (ok tt, (gone, left))

module _ {D : Type 0} (net : Network D) (fuel : ℕ) where
  abbrev pub spawned : EquipmentConfig → Bool → D → Option (Result Text PromptPattern × D)
  spawned c disable_pager d =
      let session = net.spawn d in
      let reached =
        new_session net.expecter fuel c.vendor disable_pager c.username c.password session.1 in
      elim session.0 [
        | err m ↦ some (err (codes "failed to spawn SSH expect session: " ++ m), session.1)
        | ok u ↦ reached
      ]

  -- The session, with the client that stays only if there is a session
  abbrev pub opened : EquipmentConfig → Driver → D → Option (Check Text × State D)
  opened c driver d = elim (spawned c (should_disable_pager driver) d) [
    | none ↦ none
    | some (ok p, d) ↦ some (ok tt, (record driver { expect_session = some p }, d))
    | some (err m, d) ↦ some (
      err (codes "failed to create expect session: " ++ m),
      (record driver { ssh_client = false }, (net.close_client d).1),
    )
  ]

  abbrev pub connect_with : EquipmentConfig → Driver → D → Option (Check Text × State D)
  connect_with c driver d =
      let dialled =
        net.dial (c.address ++ (codes ":" ++ itoa c.port)) c.username c.password
          c.password_auth_only d in
      let open_session = opened c (record driver { ssh_client = true }) dialled.1 in
      elim dialled.0 [
        | err m ↦ some (err (codes "failed to dial SSH: " ++ m), (driver, dialled.1))
        | ok u ↦ open_session
      ]

  unfoldable pub connect : Option EquipmentConfig → Call D (Unit {0})
  connect (some c) (driver, d) = connect_with c (record driver { config = some c }) d
  connect none (driver, d) = elim driver.config [ none ↦ none | some c ↦ connect_with c driver d ]

  -- `ctx` is the error of the context, if it has ended.
  module _ (ctx : D → Option Text) where
    abbrev pub failing : {A : Type 0} → Text → State D → Option (Result Failure A × State D)
    failing m s = some (err (record { output = []; message = m }), s)

    abbrev ran : Driver → Result Failure Text × D → Result Failure Text × State D
    ran driver (ok output, d) = (ok output, (driver, d))
    ran driver (err f, d) =
        (err (record f { message = codes "command failed: " ++ f.message }), (driver, d))

    -- The output comes with an error too.
    unfoldable pub exec_command : Text → State D → Option (Result Failure Text × State D)
    unfolding execute
    exec_command command (driver, d) = elim (ctx d) [
      | some m ↦ failing m (driver, d)
      | none ↦
          if driver.ssh_client
          then elim driver.expect_session [
            | none ↦ failing (codes "not connected to device") (driver, d)
            | some p ↦ elim (execute net.expecter p fuel command d) [
              | none ↦ none
              | some r ↦ some (ran driver r)
            ]
          ]
          else failing (codes "not connected to device") (driver, d)
    ]

    abbrev before : Text → List Text × Check Text → List Text × Check Text
    before output (outputs, e) = (output ∷ outputs, e)

    -- The outputs up to the first error, and that error
    unfoldable pub exec_commands : List Text → State D → Option ((List Text × Check Text) × State D)
    unfolding exec_command
    exec_commands [] s = some (([], ok tt), s)
    exec_commands (command ∷ commands) s = elim (exec_command command s) [
      | none ↦ none
      | some (err f, t) ↦
          some
            (([], err (codes "command " ++ (quote command ++ (codes " failed: " ++ f.message)))), t)
      | some (ok output, t) ↦ elim (exec_commands commands t) [
        | none ↦ none
        | some (r, u) ↦ some (before output r, u)
      ]
    ]
