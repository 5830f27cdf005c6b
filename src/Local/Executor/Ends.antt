-- ===== src/Local/Executor/Ends.antt =====
-- How the loop of `Run` ends: with no step ready, or with every step done.
use arkonis_operator.Prelude.{
  ℕ, suc, Option, some, List, [], ◌∷◌, ◌++◌, ◌≡◌, refl, ap, ◌∙◌, true, false, map, All,
}
use arkonis_operator.Api.Flow.{ArkFlow, ArkFlowStep, ArkFlowPhase}
use arkonis_operator.Flow.Dag.{build_status_by_name, is_terminal_phase}
use arkonis_operator.Flow.Library.{Library}
use arkonis_operator.Flow.Template.{build_template_data}
use arkonis_operator.Flow.Step.{parse_output_json}
use arkonis_operator.Flow.Phase.{update_flow_phase}
use arkonis_operator.Flow.Phase.Verdict.{
  Fits, IsLate, IsOverBudget, AnyFailed, IsDone, update_flow_phase-running,
  update_flow_phase-succeeded_iff,
}
use arkonis_operator.Local.Steps.{Backend}
use arkonis_operator.Local.Executor.{
  updating, Schedule, StepEvent, with_steps, prepare_round, execute_round, round_results,
  start_event, finish_event, conclude_round, run_rounds,
}

goes_on : (p : ArkFlowPhase) → p ≡ ArkFlowPhase.running → is_terminal_phase p ≡ false
unfolding is_terminal_phase
goes_on p run = ap is_terminal_phase run

is_over : (p : ArkFlowPhase) → p ≡ ArkFlowPhase.succeeded → is_terminal_phase p ≡ true
unfolding is_terminal_phase
is_over p won = ap is_terminal_phase won

module _ (lib : Library) (backend : Backend) (schedule : Schedule) where
  -- The flow as a round with no ready step leaves it to `UpdateFlowPhase`.
  abbrev pub idle : ℕ → ArkFlow → ArkFlow
  idle n f =
      with_steps f (prepare_round lib backend schedule n f (build_status_by_name f.status.steps)).0

  -- The loop ends with a flow that is still Running: no step was ready in the round, and afterwards the
  -- flow is in time, within its budget, has no failed step, and has a step that is not done. This
  -- happens after a round that only skipped steps, for a step listed before the skipped step that it
  -- depends on.
  pub run_rounds_stuck :
      (fuel n : ℕ) (f : ArkFlow) (events : List StepEvent)
      → f.status.phase ≡ ArkFlowPhase.running
      → (prepare_round lib backend schedule n f (build_status_by_name f.status.steps)).1 ≡ []
      → Fits (idle n f)
      → ¬ IsLate (idle n f) (schedule.clock n updating)
      → ¬ IsOverBudget (idle n f)
      → ¬ AnyFailed (idle n f).status.steps
      → ¬ All IsDone (idle n f).status.steps
      → (r : ArkFlow) × (run_rounds lib backend schedule (suc fuel) n f events ≡ some (r, events))
        × (r.status.phase ≡ ArkFlowPhase.running)
  unfolding run_rounds
  run_rounds_stuck fuel n f events run none_ready fits early within fine unfinished =
      let context = build_template_data lib f (build_status_by_name f.status.steps) in
      (
        update_flow_phase lib (idle n f) (schedule.clock n updating) context,
        rw (goes_on f.status.phase run, none_ready),
        update_flow_phase-running lib (schedule.clock n updating) context (idle n f) fits run early
            within fine unfinished,
      )

  run_rounds_over :
      (fuel n : ℕ) (f : ArkFlow) (events : List StepEvent)
      → is_terminal_phase f.status.phase ≡ true
      → run_rounds lib backend schedule (suc fuel) n f events ≡ some (f, events)
  unfolding run_rounds
  run_rounds_over fuel n f events over = rw over

  run_rounds_turn :
      (fuel n : ℕ) (f : ArkFlow) (events : List StepEvent) (step : ArkFlowStep)
      (rest : List ArkFlowStep)
      → is_terminal_phase f.status.phase ≡ false
      → (prepare_round lib backend schedule n f (build_status_by_name f.status.steps)).1
        ≡ step ∷ rest
      → (r : Option (ArkFlow × List StepEvent))
      → let m = build_status_by_name f.status.steps in
        let (steps, ready) = prepare_round lib backend schedule n f m in
        run_rounds lib backend schedule fuel
            (suc n)
            (conclude_round lib backend schedule n m
              (with_steps f (execute_round lib backend schedule n f m steps ready)))
            (events
              ++ (map start_event ready
                  ++ map finish_event (round_results lib backend schedule n f m ready)))
          ≡ r
        → run_rounds lib backend schedule (suc fuel) n f events ≡ r
  unfolding run_rounds
  run_rounds_turn fuel n f events step rest goes some_ready r h = rw (goes, some_ready) h

  -- The flow as a round that ran its ready steps leaves it to `UpdateFlowPhase`.
  abbrev pub executed : ℕ → ArkFlow → ArkFlow
  executed n f =
      let m = build_status_by_name f.status.steps in
      let (steps, ready) = prepare_round lib backend schedule n f m in
      parse_output_json lib (with_steps f (execute_round lib backend schedule n f m steps ready)) m

  executed-phase : (n : ℕ) (f : ArkFlow) → (executed n f).status.phase ≡ f.status.phase
  unfolding parse_output_json
  executed-phase n f = refl

  -- The loop ends with a Succeeded flow, whatever loops its steps declare: a round that had a ready
  -- step left every step done, in time and within the budget. No loop is evaluated after it, although
  -- a loop may have a true condition and repetitions left.
  pub run_rounds_succeeds :
      (fuel n : ℕ) (f : ArkFlow) (events : List StepEvent) (step : ArkFlowStep)
      (rest : List ArkFlowStep)
      → f.status.phase ≡ ArkFlowPhase.running
      → (prepare_round lib backend schedule n f (build_status_by_name f.status.steps)).1
        ≡ step ∷ rest
      → Fits (executed n f)
      → ¬ IsLate (executed n f) (schedule.clock n updating)
      → ¬ IsOverBudget (executed n f)
      → All IsDone (executed n f).status.steps
      → (r : ArkFlow × List StepEvent) × (run_rounds lib backend schedule
            (suc (suc fuel))
            n
            f
            events
          ≡ some r)
        × (r.0.status.phase ≡ ArkFlowPhase.succeeded)
  unfolding run_rounds conclude_round
  run_rounds_succeeds fuel n f events step rest run some_ready fits early within all_done =
      let m = build_status_by_name f.status.steps in
      let context = build_template_data lib (executed n f) m in
      let last = update_flow_phase lib (executed n f) (schedule.clock n updating) context in
      let (steps, ready) = prepare_round lib backend schedule n f m in
      let won : last.status.phase ≡ ArkFlowPhase.succeeded =
        (update_flow_phase-succeeded_iff lib (schedule.clock n updating) context (executed n f) fits
            (executed-phase n f ∙ run)).1
          (early, within, all_done) in
      (
        (
          last,
          events
              ++ (map start_event ready
                  ++ map finish_event (round_results lib backend schedule n f m ready)),
        ),
        run_rounds_turn (suc fuel) n f events step rest (goes_on f.status.phase run) some_ready _
            (run_rounds_over fuel (suc n) last _ (is_over last.status.phase won)),
        won,
      )
