-- ===== src/Vsol/Session.antt =====
-- The adapter's view of a device: commands are sent through `types.CLIExecutor`, which is nil where
-- the base driver has no command line. `S` is the state of the device and of the session.
pub mod Inversion
use nano_southbound.Prelude.{[], Option, none, some, List, ◌++◌}
use nano_southbound.Go.Text.{Text, codes}
use nano_southbound.Go.Result.{Result, ok, err}
use nano_southbound.Types.Check.{Error as ProfileError, message}

-- An error of the adapter: one that validation of the package `types` returned, or a message.
pub data Error : Type 0 where
  invalid : ProfileError → Error
  failed : Text → Error

-- `err.Error()`
unfoldable pub error_text : Error → Text
error_text (invalid e) = message e
error_text (failed m) = m

-- `ExecCommands`: the outputs or the message of the error, and the state that is left
abbrev pub Executor : Type 0 → Type 0
Executor S = List Text → S → Result Text (List Text) × S

-- What a method of the adapter does: its result, and the state that it leaves, also where it fails.
abbrev pub Run : Type 0 → Type 0 → Type 0
Run S A = S → Result Error A × S

module _ {S A B : Type 0} where
  abbrev pub continue : Result Error A → (A → Run S B) → Run S B
  continue (ok a) f s = f a s
  continue (err e) f s = (err e, s)

  infixl 5 ◌>>=◌
  abbrev pub ◌>>=◌ : Run S A → (A → Run S B) → Run S B
  ◌>>=◌ m f s = continue (m s).0 f (m s).1

module _ {S B : Type 0} where
  infixl 5 ◌>>◌
  abbrev pub ◌>>◌ : Run S (Unit {0}) → Run S B → Run S B
  ◌>>◌ m k s = continue (m s).0 (λ u. k) (m s).1

module _ {S A : Type 0} where
  abbrev pub pure : A → Run S A
  pure a s = (ok a, s)

  abbrev pub fail : Error → Run S A
  fail e s = (err e, s)

  abbrev pub from_result : Result Error A → Run S A
  from_result r s = (r, s)

  -- `if a.cliExecutor == nil { return … }`
  abbrev pub require_cli : Option (Executor S) → (Executor S → Run S A) → Run S A
  require_cli none f =
      fail (failed (codes "CLI executor not available - V-SOL requires CLI driver"))
  require_cli (some exec) f = f exec

abbrev pub wrapped : Text → Result Text (List Text) → Result Error (List Text)
wrapped context (ok outputs) = ok outputs
wrapped context (err message) = err (failed (context ++ message))

-- `outputs, err := a.cliExecutor.ExecCommands(…)`, with the context that an error is wrapped in
abbrev pub exec_or : {S : Type 0} → Executor S → Text → List Text → Run S (List Text)
exec_or exec context commands s = (wrapped context (exec commands s).0, (exec commands s).1)

-- `if err != nil { return fmt.Errorf("context: %w", err) }`
abbrev pub wrap : {A : Type 0} → Text → Result Error A → Result Error A
wrap context (ok a) = ok a
wrap context (err (failed m)) = err (failed (context ++ m))
wrap context (err (invalid e)) = err (invalid e)

-- The same of a method
abbrev pub wrap_run : {S A : Type 0} → Text → Run S A → Run S A
wrap_run context m s = (wrap context (m s).0, (m s).1)

-- The outputs of a batch, where it succeeds
abbrev pub outputs_of : Result Text (List Text) → List Text
outputs_of (ok outputs) = outputs
outputs_of (err message) = []
