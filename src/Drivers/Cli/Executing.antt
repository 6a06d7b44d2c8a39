-- ===== src/Drivers/Cli/Executing.antt =====
-- The driver as the executor of the adapters: against a device that is described by its answers.
use nano_southbound.Prelude.{
  ℕ, ◌<◌, ◌≡◌, refl, true, Option, none, some, List, [], ◌∷◌, ◌++◌, arith, All,
}
use nano_southbound.Go.Text.{Text, join, trim_space}
use nano_southbound.Go.Result.{Result, ok, err, Check}
use nano_southbound.Vsol.Session.{Executor}
use nano_southbound.Drivers.Cli.Prompt.{PromptPattern, clean_output}
use nano_southbound.Drivers.Cli.Session.{newline, execute, read_pages}
use nano_southbound.Drivers.Cli.Driver.{Network, Driver, State, exec_command, exec_commands}
use nano_southbound.Drivers.Cli.Paging.{Pages, read_pages-ends}
use nano_southbound.Drivers.Cli.Stopping.{step_ok}
use nano_southbound.Drivers.Cli.Screens.{screen, IsScreen, clean_output-screen}

-- `types.CLIExecutor` of the driver: the outputs, or the error. A call that does not return has no outcome; here it is
-- an error that the code never gives.
abbrev executor_result :
    {D : Type 0}
    → State D
    → Option ((List Text × Check Text) × State D)
    → Result Text (List Text) × State D
executor_result s none = (err [], s)
executor_result s (some ((outputs, ok u), t)) = (ok outputs, t)
executor_result s (some ((outputs, err m), t)) = (err m, t)

unfoldable pub executor : {D : Type 0} → Network D → ℕ → (D → Option Text) → Executor (State D)
executor net fuel ctx commands s = executor_result s (exec_commands net fuel ctx commands s)

-- A device by its answers: `M` is its state.
pub record Terminal (M : Type 0) : Type 0 where
  pub echo : Text → Text
  pub answer : Text → M → List Text
  pub after : Text → M → M
  pub next_prompt : M → Text

module _ {M : Type 0} (terminal : Terminal M) where
  abbrev pub output_of : Text → M → Text
  output_of command m = trim_space (join (terminal.answer command m) newline)

  -- The outputs of a batch, one for each command, and the state behind it
  unfoldable pub outputs_of : List Text → M → List Text
  outputs_of [] m = []
  outputs_of (command ∷ commands) m =
      output_of command m ∷ outputs_of commands (terminal.after command m)

  pub state_after : List Text → M → M
  state_after [] m = m
  state_after (command ∷ commands) m = state_after commands (terminal.after command m)

module _ {D : Type 0} (net : Network D) (p : PromptPattern) (fuel : ℕ) (ctx : D → Option Text) where
  -- The driver has a connection with a session, and the context does not end.
  abbrev pub Ready : Driver → Type 0
  Ready driver =
      (driver.ssh_client ≡ true) × (driver.expect_session ≡ some p) × ((d : D) → ctx d ≡ none)

  execute_read :
      (command shown output : Text) (d sent next : D)
      → net.expecter.send (command ++ newline) d ≡ (ok tt, sent)
      → read_pages net.expecter p fuel command [] sent ≡ some (ok shown, next)
      → clean_output p shown command ≡ output
      → execute net.expecter p fuel command d ≡ some (ok output, next)
  unfolding execute
  execute_read command shown output d sent next send read clean = ground arith

  exec_command_executed :
      (driver : Driver) (command output : Text) (d next : D)
      → Ready driver
      → execute net.expecter p fuel command d ≡ some (ok output, next)
      → exec_command net fuel ctx command (driver, d) ≡ some (ok output, (driver, next))
  unfolding exec_command
  exec_command_executed driver command output d next (client, session, alive) run =
      ground (arith, alive d)

module _ {D M : Type 0} (net : Network D) (terminal : Terminal M) (p : PromptPattern) (fuel : ℕ)
    (ctx : D → Option Text) (Agrees : D → M → Type 0) (Usual : Text → Type 0) where
  -- The session shows of each usual command what the terminal answers, with fewer pagers than the
  -- driver's loop may pass, and agrees with the terminal again.
  abbrev pub Shows : Type 0
  Shows =
      (command : Text) (d : D) (m : M)
      → Usual command
      → Agrees d m
      → (sent next : D) × (n : ℕ) × (net.expecter.send (command ++ newline) d ≡ (ok tt, sent))
        × Pages net.expecter p sent
            (screen (terminal.echo command) (terminal.answer command m)
              (terminal.next_prompt (terminal.after command m)))
            n next
        × (n < fuel)
        × IsScreen p command (terminal.echo command) (terminal.answer command m)
            (terminal.next_prompt (terminal.after command m))
        × Agrees next (terminal.after command m)

  exec_command-answer :
      (driver : Driver) (command : Text) (d : D) (m : M)
      → Shows
      → Ready net p fuel ctx driver
      → Usual command
      → Agrees d m
      → (next : D) × (exec_command net fuel ctx command (driver, d)
          ≡ some (ok (output_of terminal command m), (driver, next)))
        × Agrees next (terminal.after command m)
  exec_command-answer driver command d m shows ready usual agrees =
      let (sent, next, n, send, pages, bound, is_screen, agrees_next) =
        shows command d m usual agrees in
      let read = (read_pages-ends net.expecter p command sent next _).1 n pages fuel bound in
      let clean =
        clean_output-screen p command (terminal.echo command) (terminal.answer command m)
          (terminal.next_prompt (terminal.after command m)) is_screen in
      (
        next,
        exec_command_executed net p fuel ctx driver command (output_of terminal command m) d next
            ready
            (execute_read net p fuel ctx command _ (output_of terminal command m) d sent next send
              read clean),
        agrees_next,
      )

  exec_commands-answers :
      (driver : Driver) (commands : List Text) (d : D) (m : M)
      → Shows
      → Ready net p fuel ctx driver
      → All Usual commands
      → Agrees d m
      → (next : D) × (exec_commands net fuel ctx commands (driver, d)
          ≡ some ((outputs_of terminal commands m, ok tt), (driver, next)))
        × Agrees next (state_after terminal commands m)
  unfolding exec_commands outputs_of state_after
  exec_commands-answers driver [] d m shows ready usual agrees = (d, refl, agrees)
  exec_commands-answers driver (command ∷ commands) d m shows ready (usual, rest) agrees =
      let (mid, ran, agrees_mid) =
        exec_command-answer driver command d m shows ready usual agrees in
      let (next, ran_rest, agrees_next) =
        exec_commands-answers driver commands mid (terminal.after command m) shows ready rest
          agrees_mid in
      (next, step_ok net fuel ctx command commands (driver, d) ran ran_rest, agrees_next)

  -- A connected driver implements the executor that the adapters ask for. Let a terminal describe the
  -- device: for each usual command, in states that agree, the session shows the echo, the answer and
  -- a prompt, none of the answer's lines looking like a prompt, in pages that the fuel is
  -- enough for, and then agrees again. Then a batch of usual commands succeeds with one output for each, the terminal's answer
  -- in its order without blanks at the ends, and the states agree after it.
  pub executor-refines_terminal :
      (driver : Driver) (commands : List Text) (d : D) (m : M)
      → Shows
      → Ready net p fuel ctx driver
      → All Usual commands
      → Agrees d m
      → (next : D) × (executor net fuel ctx commands (driver, d)
          ≡ (ok (outputs_of terminal commands m), (driver, next)))
        × Agrees next (state_after terminal commands m)
  unfolding executor
  executor-refines_terminal driver commands d m shows ready usual agrees =
      let (next, ran, agrees_next) =
        exec_commands-answers driver commands d m shows ready usual agrees in
      (next, rw ran, agrees_next)
