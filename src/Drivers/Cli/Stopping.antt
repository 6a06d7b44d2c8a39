-- ===== src/Drivers/Cli/Stopping.antt =====
-- Where a batch of commands stops.
use nano_southbound.Prelude.{
  ℕ, ◌≡◌, refl, ap, ◌↔◌, Option, some, List, [], ◌∷◌, ◌++◌, arith, ◌⊎◌, inl, inr, Option-cases,
}
use nano_southbound.Go.Text.{Text, codes}
use nano_southbound.Go.Quote.{quote}
use nano_southbound.Go.Result.{ok, err, Check}
use nano_southbound.Drivers.Cli.Session.{Failure}
use nano_southbound.Drivers.Cli.Driver.{Network, State, exec_command, exec_commands}

module _ {D : Type 0} (net : Network D) (fuel : ℕ) (ctx : D → Option Text) where
  -- The commands succeed one after the other, with these outputs.
  pub data Runs : List Text → State D → List Text → State D → Type 0 where
    none_left : {s : State D} → Runs [] s [] s
    step :
        {s t u : State D} {command output : Text} {commands outputs : List Text}
        → exec_command net fuel ctx command s ≡ some (ok output, t)
        → Runs commands t outputs u
        → Runs (command ∷ commands) s (output ∷ outputs) u

  -- The commands before one succeed, and that one fails; those behind it are not executed.
  abbrev pub StopsAt : List Text → State D → List Text → Text → State D → Type 0
  StopsAt commands s outputs message t =
      (earlier : List Text) × (command : Text) × (later : List Text) × (mid : State D)
      × (f : Failure) × (commands ≡ earlier ++ command ∷ later)
      × Runs earlier s outputs mid
      × (exec_command net fuel ctx command mid ≡ some (err f, t))
      × (message ≡ codes "command " ++ (quote command ++ (codes " failed: " ++ f.message)))

  pub step_ok :
      (command : Text) (commands : List Text) (s : State D) {t u : State D} {output : Text}
      {outputs : List Text} {e : Check Text}
      → exec_command net fuel ctx command s ≡ some (ok output, t)
      → exec_commands net fuel ctx commands t ≡ some ((outputs, e), u)
      → exec_commands net fuel ctx (command ∷ commands) s ≡ some ((output ∷ outputs, e), u)
  unfolding exec_commands
  step_ok command commands s ran rest = ground arith

  step_err :
      (command : Text) (commands : List Text) (s : State D) {t : State D} {f : Failure}
      → exec_command net fuel ctx command s ≡ some (err f, t)
      → exec_commands net fuel ctx (command ∷ commands) s
        ≡ some
            (([], err (codes "command " ++ (quote command ++ (codes " failed: " ++ f.message)))), t)
  unfolding exec_commands
  step_err command commands s ran = ground arith

  step_cases :
      (command : Text) (commands : List Text) (s : State D) {u : State D} {outputs : List Text}
      {e : Check Text}
      → exec_commands net fuel ctx (command ∷ commands) s ≡ some ((outputs, e), u)
      → ((output : Text) × (t : State D) × (rest : List Text) × (exec_command net fuel ctx command s
            ≡ some (ok output, t))
          × (exec_commands net fuel ctx commands t ≡ some ((rest, e), u))
          × (outputs ≡ output ∷ rest))
        ⊎ ((f : Failure) × (exec_command net fuel ctx command s ≡ some (err f, u))
            × (outputs ≡ [])
            × (e ≡ err (codes "command " ++ (quote command ++ (codes " failed: " ++ f.message)))))
  unfolding exec_commands
  step_cases command commands s h = elim (Option-cases (exec_command net fuel ctx command s)) [
    | inl stuck ↦ absurd (ground arith)
    | inr ((err f, t), ran) ↦ inr (f, ground arith, ground arith, ground arith)
    | inr ((ok output, t), ran) ↦ elim (Option-cases (exec_commands net fuel ctx commands t)) [
      | inl stuck ↦ absurd (ground arith)
      | inr (((rest, e2), v), ran_rest) ↦ inl (output, t, rest, ran, ground arith, ground arith)
    ]
  ]

  pub Runs-exec_commands :
      {commands : List Text} {s : State D} {outputs : List Text} {t : State D}
      → Runs commands s outputs t
      → exec_commands net fuel ctx commands s ≡ some ((outputs, ok tt), t)
  Runs-exec_commands none_left = unfold exec_commands in refl
  Runs-exec_commands (step {s = s} {command = command} {commands = commands} ran rest) =
      step_ok command commands s ran (Runs-exec_commands rest)

  nil_cases :
      (s : State D) (outputs : List Text) (t : State D) {e : Check Text}
      → exec_commands net fuel ctx [] s ≡ some ((outputs, e), t)
      → (outputs ≡ []) × (t ≡ s) × (e ≡ ok tt)
  unfolding exec_commands
  nil_cases s outputs t h = (ground arith, ground arith, ground arith)

  exec_commands-Runs :
      (commands : List Text) (s : State D) {outputs : List Text} {t : State D}
      → exec_commands net fuel ctx commands s ≡ some ((outputs, ok tt), t)
      → Runs commands s outputs t
  exec_commands-Runs [] s {outputs} {t} h =
      let (none_shown, same, no_error) = nil_cases s outputs t h in rw (none_shown, same) none_left
  exec_commands-Runs (command ∷ commands) s h = elim (step_cases command commands s h) [
    | inl (output, t, rest, ran, ran_rest, split) ↦
        rw split (step ran (exec_commands-Runs commands t ran_rest))
    | inr (f, ran, nothing, failure) ↦ cc
  ]

  StopsAt-exec_commands :
      (earlier : List Text) (command : Text) (later : List Text) {s mid t : State D}
      {outputs : List Text} {f : Failure}
      → Runs earlier s outputs mid
      → exec_command net fuel ctx command mid ≡ some (err f, t)
      → exec_commands net fuel ctx (earlier ++ command ∷ later) s
        ≡ some (
          (outputs, err (codes "command " ++ (quote command ++ (codes " failed: " ++ f.message)))),
          t,
        )
  StopsAt-exec_commands [] command later {s = s} none_left failure =
      step_err command later s failure
  StopsAt-exec_commands (first ∷ earlier) command later {s = s} (step ran rest) failure =
      step_ok first (earlier ++ command ∷ later) s ran
        (StopsAt-exec_commands earlier command later rest failure)

  exec_commands-StopsAt :
      (commands : List Text) (s : State D) {outputs : List Text} {m : Text} {t : State D}
      → exec_commands net fuel ctx commands s ≡ some ((outputs, err m), t)
      → StopsAt commands s outputs m t
  exec_commands-StopsAt [] s {outputs} {m} {t} h = cc ((nil_cases s outputs t h).2)
  exec_commands-StopsAt (command ∷ commands) s {outputs} {m} {t} h =
      elim (step_cases command commands s h) [
        | inl (output, mid, rest, ran, ran_rest, split) ↦
            let (earlier, failing, later, before_failure, f, where_failed, runs, failure, message) =
              exec_commands-StopsAt commands mid ran_rest in
            (
              command ∷ earlier,
              failing,
              later,
              before_failure,
              f,
              ap (λ l. command ∷ l) where_failed,
              rw split (step ran runs),
              failure,
              message,
            )
        | inr (f, failure, nothing, message) ↦
            ([], command, commands, s, f, refl, rw nothing none_left, failure, cc message)
      ]

  -- A batch returns the outputs with no error exactly if every command succeeds in its turn. It returns
  -- outputs and an error exactly if some command fails, those before it having succeeded with these
  -- outputs, and the error names that command; the commands behind it do not reach the device,
  -- whose state is what the failure left.
  pub exec_commands-stops :
      (commands : List Text) (s : State D) (outputs : List Text) (m : Text) (t : State D)
      → ((exec_commands net fuel ctx commands s ≡ some ((outputs, ok tt), t))
          ↔ Runs commands s outputs t)
        × ((exec_commands net fuel ctx commands s ≡ some ((outputs, err m), t))
            ↔ StopsAt commands s outputs m t)
  exec_commands-stops commands s outputs m t = (
    (exec_commands-Runs commands s, Runs-exec_commands),
    (
      exec_commands-StopsAt commands s,
      λ (earlier, command, later, mid, f, split, runs, failure, message).
          rw (split, message) (StopsAt-exec_commands earlier command later runs failure),
    ),
  )
