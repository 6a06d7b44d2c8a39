-- ===== src/Vsol/Wifi/Running.antt =====
-- vendors/vsol/wifi.go: `runWifiSteps`.
use nano_southbound.Prelude.{
  true, false, none, List, [], ◌∷◌, ◌++◌, ℕ, zero, suc, Bool, not, ◌||◌, Option, [], ◌++◌,
  if◌then◌else◌, is_empty, is_some,
}
use nano_southbound.Go.Text.{Text, codes}
use nano_southbound.Types.Wifi.{
  WifiErrorCode, no_error, partial_apply, command_timeout, WifiActionEvent, WifiActionResult,
}
use nano_southbound.Vsol.Wifi.Outputs.{
  classify_wifi_err_code, has_cli_error_marker, first_line, normalize_reason, redact_password,
}
use nano_southbound.Vsol.Wifi.Commands.{WifiStep}

-- `ExecCommand`, within the time that a step has: the output and the error, and the state that is left
abbrev pub Sender : Type 0 → Type 0
Sender S = Text → S → (Text × Option Text) × S

unfoldable pub sanitize_output : WifiStep → Text → Text
unfolding redact_password
sanitize_output step output = if step.sensitive then redact_password output else output

abbrev pub add_output : Text → Text → Text
add_output raw output =
    if is_empty output then raw else if is_empty raw then output else raw ++ (codes "\n" ++ output)

-- The step has an error or its output has the marker of one.
unfoldable pub fails : Text × Option Text → Bool
unfolding has_cli_error_marker
fails (output, error) = is_some error || has_cli_error_marker output

module _ {T : Type 0} where
  unfoldable pub event_of : T → WifiStep → Text × Option Text → WifiActionEvent T
  unfolding fails sanitize_output first_line
  event_of now step answer = record {
    step = step.name;
    ok = not (fails answer);
    timestamp = now;
    detail = if fails answer then sanitize_output step (first_line answer.0) else [];
  }

abbrev is_timeout : WifiErrorCode → Bool
is_timeout command_timeout = true
is_timeout _ = false

unfoldable pub error_code_of : ℕ → Text × Option Text → WifiErrorCode
unfolding classify_wifi_err_code
error_code_of successful (output, error) =
    let code = classify_wifi_err_code error output in
    if is_timeout code
    then command_timeout
    else elim successful [ zero ↦ code | suc n ↦ partial_apply ]

module _ {S T : Type 0} (send : Sender S) (now : S → T) where
  abbrev success_of : Text → List (WifiActionEvent T) → WifiActionResult T
  success_of raw events = record {
    ok = true;
    error_code = no_error;
    reason = [];
    raw_output = raw;
    observed_config = none;
    observed_source = none;
    observed_at = none;
    failed_step = [];
    events = events;
  }

  abbrev failure_of :
      WifiStep → ℕ → Text × Option Text → Text → List (WifiActionEvent T) → WifiActionResult T
  failure_of step successful answer raw events = record {
    ok = false;
    error_code = error_code_of successful answer;
    reason = normalize_reason answer.1 (sanitize_output step answer.0);
    raw_output = raw;
    observed_config = none;
    observed_source = none;
    observed_at = none;
    failed_step = step.name;
    events = events;
  }

  -- The loop: how many steps were successful, the output and the events so far
  unfoldable pub run_steps :
      List WifiStep → ℕ → Text → List (WifiActionEvent T) → S → WifiActionResult T × S
  unfolding event_of fails
  run_steps [] successful raw events s = (success_of raw events, s)
  run_steps (step ∷ steps) successful raw events s =
      let answer = (send step.command s).0 in
      let t = (send step.command s).1 in
      let raw_next = add_output raw (sanitize_output step answer.0) in
      let events_next = events ++ event_of (now t) step answer ∷ [] in
      let rest = run_steps steps (suc successful) raw_next events_next t in
      if fails answer then (failure_of step successful answer raw_next events_next, t) else rest

  abbrev precheck : S → Bool → List (WifiActionEvent T)
  precheck s false = []
  precheck s true =
      record { step = codes "PROFILE_OMCI_PRECHECK"; ok = true; timestamp = now s; detail = [] }
      ∷ []

  unfoldable pub run_wifi_steps : List WifiStep → Bool → S → WifiActionResult T × S
  unfolding run_steps
  run_wifi_steps steps include_precheck_event s =
      run_steps steps 0 [] (precheck s include_precheck_event) s
