-- ===== src/Vsol/Wifi/Applying.antt =====
-- Which steps `runWifiSteps` has executed.
use nano_southbound.Prelude.{
  ℕ, suc, ◌+◌, ◌≡◌, ◌⊎◌, inl, inr, refl, sym, ap, ◌∙◌, Bool, true, false, List, [], ◌∷◌, ◌++◌, map,
  length, arith, Bool-cases, append-nil,
}
use nano_southbound.Go.Text.{Text, codes}
use nano_southbound.Types.Wifi.{no_error, WifiActionEvent, WifiActionResult}
use nano_southbound.Vsol.Wifi.Commands.{WifiStep}
use nano_southbound.Vsol.Wifi.Running.{
  Sender, fails, add_output, sanitize_output, event_of, error_code_of, run_steps, run_wifi_steps,
}

module _ {S T : Type 0} (send : Sender S) (now : S → T) where
  -- The steps are sent one after the other, and none fails.
  pub data Applied : List WifiStep → S → S → Type 0 where
    none_left : {s : S} → Applied [] s s
    next :
        {s t : S} {first : WifiStep} {steps : List WifiStep}
        → fails (send first.command s).0 ≡ false
        → Applied steps (send first.command s).1 t
        → Applied (first ∷ steps) s t

  abbrev names_of : List WifiStep → List Text
  names_of steps = map (λ step. step.name) steps

  abbrev steps_of : List (WifiActionEvent T) → List Text
  steps_of events = map (λ event. event.step) events

  -- All steps are applied; `before` are the steps of the events so far.
  abbrev pub Completes : List WifiStep → List Text → S → WifiActionResult T → S → Type 0
  Completes steps before s r t =
      Applied steps s t
      × (r.ok ≡ true)
      × (r.error_code ≡ no_error)
      × (map (λ event. event.step) r.events ≡ before ++ map (λ step. step.name) steps)

  -- The first step that fails ends the run; `successful` are the steps before.
  abbrev pub BreaksOff : List WifiStep → ℕ → List Text → S → WifiActionResult T → S → Type 0
  BreaksOff steps successful before s r t =
      (earlier : List WifiStep) × (failing : WifiStep) × (later : List WifiStep) × (mid : S)
      × (steps ≡ earlier ++ failing ∷ later)
      × Applied earlier s mid
      × (fails (send failing.command mid).0 ≡ true)
      × (t ≡ (send failing.command mid).1)
      × (r.ok ≡ false)
      × (r.failed_step ≡ failing.name)
      × (r.error_code ≡ error_code_of (successful + length earlier) (send failing.command mid).0)
      × (map (λ event. event.step) r.events
          ≡ before ++ map (λ step. step.name) (earlier ++ failing ∷ []))

  steps_of-append :
      (events : List (WifiActionEvent T)) (e : WifiActionEvent T) (names : List Text)
      → steps_of (events ++ e ∷ []) ++ names ≡ steps_of events ++ e.step ∷ names
  steps_of-append [] e names = refl
  steps_of-append (d ∷ events) e names = ap (λ l. d.step ∷ l) (steps_of-append events e names)

  run_steps-cases :
      (steps : List WifiStep) (successful : ℕ) (raw : Text) (events : List (WifiActionEvent T))
      (s t : S) (r : WifiActionResult T)
      → run_steps send now steps successful raw events s ≡ (r, t)
      → Completes steps (steps_of events) s r t ⊎ BreaksOff steps successful (steps_of events) s r t
  unfolding run_steps event_of
  run_steps-cases [] successful raw events s t r h =
      let same : t ≡ s = ground arith in
      let shown : r.events ≡ events = ground arith in
      inl (
        rw same none_left,
        ground arith,
        ground arith,
        rw shown (sym (append-nil (steps_of events))),
      )
  run_steps-cases (step ∷ steps) successful raw events s t r h =
      let answer = (send step.command s).0 in
      let mid = (send step.command s).1 in
      let e = event_of (now mid) step answer in
      elim (Bool-cases (fails answer)) [
        | inl failure ↦
            let shown : r.events ≡ events ++ e ∷ [] = ground arith in
            inr (
              [],
              step,
              steps,
              s,
              refl,
              none_left,
              failure,
              ground arith,
              ground arith,
              ground arith,
              ground arith,
              rw shown
                  (sym (append-nil (steps_of (events ++ e ∷ []))) ∙ steps_of-append events e []),
            )
        | inr success ↦
            elim (run_steps-cases steps (suc successful)
              (add_output raw (sanitize_output step answer.0)) (events ++ e ∷ []) mid t r
              (ground arith)) [
                | inl (applied, fine, no_code, shown) ↦ inl (
                  next success applied,
                  fine,
                  no_code,
                  shown ∙ steps_of-append events e (names_of steps),
                )
                | inr
                      (
                        earlier, failing, later, m, split, applied, failure, left, bad, at, code,
                        shown,
                      ) ↦
                    inr (
                      step ∷ earlier,
                      failing,
                      later,
                      m,
                      ap (λ l. step ∷ l) split,
                      next success applied,
                      failure,
                      left,
                      bad,
                      at,
                      ground arith,
                      shown ∙ steps_of-append events e (names_of (earlier ++ failing ∷ [])),
                    )
              ]
      ]

  -- The event that stands before the steps' own
  abbrev pub precheck_names : Bool → List Text
  precheck_names false = []
  precheck_names true = codes "PROFILE_OMCI_PRECHECK" ∷ []

  -- A run of steps either succeeds, having sent every step with no error and no error marker, or it breaks off at
  -- the first step that fails, with nothing of the later ones sent. It then names that step, with the
  -- code COMMAND_TIMEOUT if the failure is a timeout, else PARTIAL_APPLY if a step came before, else the code
  -- of the failure. The events name the steps that were sent, in order, the one that failed included,
  -- behind the precheck where it is asked for.
  pub run_wifi_steps-cases :
      (steps : List WifiStep) (include_precheck_event : Bool) (s t : S) (r : WifiActionResult T)
      → run_wifi_steps send now steps include_precheck_event s ≡ (r, t)
      → Completes steps (precheck_names include_precheck_event) s r t
        ⊎ BreaksOff steps 0 (precheck_names include_precheck_event) s r t
  unfolding run_wifi_steps
  run_wifi_steps-cases steps false s t r h = run_steps-cases steps 0 [] [] s t r h
  run_wifi_steps-cases steps true s t r h = run_steps-cases steps 0 [] _ s t r h
