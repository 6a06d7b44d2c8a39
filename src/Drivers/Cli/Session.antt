-- ===== src/Drivers/Cli/Session.antt =====
-- drivers/cli/expect.go: the session that waits for prompts. The library goexpect and the device behind
-- it are an `Expecter`: `D` is their state. One caller at a time holds the lock of a session, so
-- that a call is one function of that state.
use nano_southbound.Prelude.{
  ℕ, zero, suc, Bool, Option, none, some, [], ◌++◌, if◌then◌else◌, is_empty, ◌||◌,
}
use nano_southbound.Go.Text.{Text, codes, to_lower, text_eq}
use nano_southbound.Go.Quote.{quote}
use nano_southbound.Go.Result.{Result, ok, err, Check}
use nano_southbound.Drivers.Cli.Prompt.{
  PromptPattern, vendor_prompt, matches_pager, asks_login, asks_password, clean_output,
}

-- What is waited for: the prompt, it or a request to log in, one for the password, the prompt or a
-- request for the password, the prompt or a pager
pub data Pattern : Type 0 where
  prompt : PromptPattern → Pattern
  prompt_or_login : PromptPattern → Pattern
  password_request : Pattern
  prompt_or_password : PromptPattern → Pattern
  prompt_or_pager : PromptPattern → Pattern

-- `Send`, `Expect` with the text up to the match, and `Close`
pub record Expecter (D : Type 0) : Type 0 where
  pub send : Text → D → Check Text × D
  pub expect : Pattern → D → Result Text Text × D
  pub close : D → Check Text × D

-- An error that comes with the output so far
pub record Failure : Type 0 where
  pub output : Text
  pub message : Text

abbrev pub newline : Text
newline = codes "\n"

-- if err != nil { return fmt.Errorf("context: %w", err) }
abbrev pub context : {A : Type 0} → Text → Result Text A → Result Text A
context text (ok a) = ok a
context text (err m) = err (text ++ m)

abbrev text_of : Result Text Text → Text
text_of (ok c) = c
text_of (err m) = []

abbrev pub Step : Type 0 → Type 0 → Type 0
Step D A = D → Result Text A × D

module _ {D A B : Type 0} where
  abbrev continue : Result Text A → (A → Step D B) → Step D B
  continue (ok a) f d = f a d
  continue (err m) f d = (err m, d)

  infixl 5 ◌>>=◌ ◌>>◌
  abbrev pub ◌>>=◌ : Step D A → (A → Step D B) → Step D B
  ◌>>=◌ m f d = continue (m d).0 f (m d).1

  abbrev pub ◌>>◌ : Step D A → Step D B → Step D B
  ◌>>◌ m k d = continue (m d).0 (λ a. k) (m d).1

abbrev pub succeed : {D A : Type 0} → A → Step D A
succeed a d = (ok a, d)

module _ {D : Type 0} (e : Expecter D) where
  -- The loop of `Execute`: none where `fuel` chunks do not end it
  unfoldable pub read_pages : PromptPattern → ℕ → Text → Text → D → Option (Result Failure Text × D)
  read_pages p zero command out d = none
  read_pages p (suc fuel) command out d =
      let chunk = e.expect (prompt_or_pager p) d in
      let text = text_of chunk.0 in
      let advanced = e.send (codes " ") chunk.1 in
      let rest = read_pages p fuel command (out ++ text) advanced.1 in
      elim chunk.0 [
        | err m ↦ some (
          err (record {
            output = out;
            message =
                codes "timeout waiting for prompt after command "
                ++ (quote command ++ (codes ": " ++ m));
          }),
          chunk.1,
        )
        | ok c ↦
            if matches_pager c
            then elim advanced.0 [
              | err m ↦ some (
                err (record {
                  output = out ++ c;
                  message = codes "failed to advance pager: " ++ m;
                }),
                advanced.1,
              )
              | ok u ↦ rest
            ]
            else some (ok (out ++ c), chunk.1)
      ]

  abbrev cleaned : PromptPattern → Text → Result Failure Text × D → Result Failure Text × D
  cleaned p command (ok output, d) = (ok (clean_output p output command), d)
  cleaned p command (err f, d) = (err f, d)

  unfoldable pub execute : PromptPattern → ℕ → Text → D → Option (Result Failure Text × D)
  unfolding read_pages
  execute p fuel command d =
      let sent = e.send (command ++ newline) d in
      let read = read_pages p fuel command [] sent.1 in
      elim sent.0 [
        | err m ↦
            some (
              err (record { output = []; message = codes "failed to send command: " ++ m }),
              sent.1,
            )
        | ok u ↦ elim read [ none ↦ none | some r ↦ some (cleaned p command r) ]
      ]

  -- PagerDisableCommands[strings.ToLower(s.vendor)], or the fallback
  unfoldable pub pager_command : Text → Text
  pager_command vendor =
      let v = to_lower vendor in
      if text_eq v (codes "huawei") || text_eq v (codes "zte")
      then codes "screen-length 0 temporary"
      else codes "terminal length 0"

  -- if err := exp.Send(line); err != nil { exp.Close(); return … }, and the same of `Expect`
  abbrev pub or_close : {A : Type 0} → Text → Step D A → Step D A
  or_close text m d = elim (m d).0 [
    | ok a ↦ (ok a, (m d).1)
    | err reason ↦ (err (text ++ reason), (e.close (m d).1).1)
  ]

  abbrev pub send_line : Text → Text → Step D (Unit {0})
  send_line text line = or_close text (e.send (line ++ newline))

  abbrev pub wait : Text → Pattern → Step D Text
  wait text pattern = or_close text (e.expect pattern)

  -- A login at the command line, where one is asked for
  unfoldable pub log_in : PromptPattern → Text → Text → Step D (Unit {0})
  log_in p username password d =
      let log_in_as_user : Step D (Unit {0}) = (do
        send_line (codes "failed to send username: ") username
        wait (codes "failed to detect password prompt: ") password_request
        send_line (codes "failed to send password: ") password
        wait (codes "failed to detect CLI prompt after login: ") (prompt p)
        succeed tt) in
      if is_empty username
      then (err (codes "CLI login required but no username provided"), (e.close d).1)
      else log_in_as_user d

  abbrev pub enable_password : PromptPattern → Text → Step D (Unit {0})
  enable_password p password = do
    send_line (codes "failed to send enable password: ") password
    wait (codes "failed to detect privileged prompt after enable: ") (prompt p)
    succeed tt

  -- The privileged mode and the configuration mode of a V-SOL device
  unfoldable pub enter_config : PromptPattern → Text → Step D (Unit {0})
  enter_config p password = do
    send_line (codes "failed to send enable command: ") (codes "enable")
    answer ← wait (codes "failed after enable command: ") (prompt_or_password p)
    if asks_password answer then enable_password p password else succeed tt
    send_line (codes "failed to send configure terminal: ") (codes "configure terminal")
    wait (codes "failed to detect config prompt: ") (prompt p)
    succeed tt

  -- `NewExpectSession` up to the pager
  unfoldable pub reach_prompt : Text → Text → Text → Step D (Unit {0})
  unfolding vendor_prompt log_in enter_config
  reach_prompt vendor username password =
      let p = vendor_prompt vendor in
      do
        output ← wait (codes "failed to detect initial prompt or login: ") (prompt_or_login p)
        if asks_login output then log_in p username password else succeed tt
        if text_eq (to_lower vendor) (codes "vsol") then enter_config p password else succeed tt

  -- `NewExpectSession` behind `SpawnSSH`, where the caller gives no prompt: the pattern of the session,
  -- or none where the pager does not end. What becomes of the command that turns off the pager
  -- does not matter.
  unfoldable pub new_session :
      ℕ → Text → Bool → Text → Text → D → Option (Result Text PromptPattern × D)
  unfolding reach_prompt execute pager_command
  new_session fuel vendor disable_pager username password d =
      let p = vendor_prompt vendor in
      let reached = reach_prompt vendor username password d in
      let paged = execute p fuel (pager_command vendor) reached.1 in
      elim reached.0 [
        | err m ↦ some (err m, reached.1)
        | ok u ↦
            if disable_pager
            then elim paged [ none ↦ none | some r ↦ some (ok p, r.1) ]
            else some (ok p, reached.1)
      ]
