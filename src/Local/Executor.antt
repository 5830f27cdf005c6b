-- ===== src/Local/Executor.antt =====
-- internal/ark/local/executor.go: `Run`, round by round. The steps of a round run at once, so the
-- order of their results is a parameter, as are the clock and the runs of the steps.
pub mod Potential
pub mod Progress
pub mod Termination
pub mod Ends
use arkonis_operator.Prelude.{
  ℕ, zero, suc, ◌+◌, String, Option, none, some, List, [], ◌∷◌, ◌++◌, Bool, true, false, set, map,
  ◌==◌, if◌then◌else◌,
}
use arkonis_operator.Prelude.Words.{Int64, add64}
use arkonis_operator.Api.Meta.{Time, Message, text, Result, ok, err}
use arkonis_operator.Api.Flow.{
  ArkFlow, ArkFlowStep, ArkFlowStepStatus, ArkFlowStepPhase, TokenUsage,
}
use arkonis_operator.Flow.Dag.{StatusByName, status_of, build_status_by_name, is_terminal_phase}
use arkonis_operator.Flow.Library.{Library, TemplateData}
use arkonis_operator.Flow.Template.{resolve_prompt, build_template_data}
use arkonis_operator.Flow.Step.{initialize_steps, evaluate_loops, parse_output_json}
use arkonis_operator.Flow.Phase.{update_flow_phase}
use arkonis_operator.Local.Steps.{collect_ready_steps, StepOutcome, Backend, run_step}

-- The readings of the clock in one round.
pub data Reading : Type 0 where
  skipping starting finishing : String → Reading
  updating : Reading

pub record StepResult : Type 0 where
  pub name : String
  pub outcome : StepOutcome

-- `StepEvent`, without the time that the step took.
pub record StepEvent : Type 0 where
  pub step : String
  pub phase : ArkFlowStepPhase
  pub outcome : Option StepOutcome

-- The clock by round, and the order in which the results of a round arrive.
pub record Schedule : Type 0 where
  pub began : Time
  pub clock : ℕ → Reading → Time
  pub arrive : ℕ → List StepResult → List StepResult

unfoldable pub start_status : Time → ArkFlowStepStatus → ArkFlowStepStatus
start_status now st = record st { phase = ArkFlowStepPhase.running; start_time = some now }

unfoldable pub finish_status : Time → StepOutcome → ArkFlowStepStatus → ArkFlowStepStatus
finish_status now r st = elim r.error [
  | some e ↦ record st { completion_time = some now; phase = ArkFlowStepPhase.failed; message = e }
  | none ↦ record st {
    completion_time = some now;
    phase = ArkFlowStepPhase.succeeded;
    output = r.output;
    token_usage = some (record {
      input_tokens = r.input_tokens;
      output_tokens = r.output_tokens;
      total_tokens = add64 r.input_tokens r.output_tokens;
    });
  }
]

-- A write through the pointer of a name.
unfoldable pub update_named :
    (ArkFlowStepStatus → ArkFlowStepStatus)
    → StatusByName
    → String
    → List ArkFlowStepStatus
    → List ArkFlowStepStatus
update_named change m name steps = elim (status_of m steps name) [
  | none ↦ steps
  | some (i, st) ↦ set steps i (change st)
]

-- The loop that marks the ready steps Running.
unfoldable pub start_steps :
    (String → Time)
    → List ArkFlowStep
    → StatusByName
    → List ArkFlowStepStatus
    → List ArkFlowStepStatus
start_steps now [] m steps = steps
start_steps now (step ∷ ready) m steps =
    start_steps now ready m (update_named (start_status (now step.name)) m step.name steps)

-- The loop that takes the results from the channel.
unfoldable pub finish_steps :
    (String → Time)
    → List StepResult
    → StatusByName
    → List ArkFlowStepStatus
    → List ArkFlowStepStatus
finish_steps now [] m steps = steps
finish_steps now (r ∷ results) m steps =
    finish_steps now results m (update_named (finish_status (now r.name) r.outcome) m r.name steps)

unfoldable pub start_event : ArkFlowStep → StepEvent
start_event step = record { step = step.name; phase = ArkFlowStepPhase.running; outcome = none }

unfoldable pub finish_event : StepResult → StepEvent
finish_event r = record {
  step = r.name;
  phase = elim r.outcome.error [
    | some _ ↦ ArkFlowStepPhase.failed
    | none ↦ ArkFlowStepPhase.succeeded
  ];
  outcome = some r.outcome;
}

abbrev pub with_steps : ArkFlow → List ArkFlowStepStatus → ArkFlow
with_steps f steps = record f { status = record (f.status) { steps = steps } }

module _ (lib : Library) (backend : Backend) (schedule : Schedule) where
  open lib use {Json}
  open schedule use {clock, arrive}

  -- `prompt, _ := ResolvePrompt(…)`, and the goroutine's run of the step.
  unfoldable pub step_result : TemplateData Json → ArkFlowStep → StepResult
  step_result context step = record {
    name = step.name;
    outcome =
        run_step backend step
          (elim (resolve_prompt lib step context) [ ok prompt ↦ prompt | err _ ↦ "" ]);
  }

  -- The statuses after the loops and the choice of the ready steps, and these steps.
  unfoldable pub prepare_round :
      ℕ → ArkFlow → StatusByName → List ArkFlowStepStatus × List ArkFlowStep
  prepare_round n f m =
      let context = build_template_data lib f m in
      collect_ready_steps lib (λ name. clock n (skipping name)) f.spec.steps m context
        (evaluate_loops lib f.spec.steps m context f.status.steps)

  unfoldable pub round_results : ℕ → ArkFlow → StatusByName → List ArkFlowStep → List StepResult
  round_results n f m ready = arrive n (map (step_result (build_template_data lib f m)) ready)

  -- The statuses once every ready step has run.
  unfoldable pub execute_round :
      ℕ
      → ArkFlow
      → StatusByName
      → List ArkFlowStepStatus
      → List ArkFlowStep
      → List ArkFlowStepStatus
  execute_round n f m steps ready =
      finish_steps (λ name. clock n (finishing name)) (round_results n f m ready) m
        (start_steps (λ name. clock n (starting name)) ready m steps)

  -- The end of a round.
  unfoldable pub conclude_round : ℕ → StatusByName → ArkFlow → ArkFlow
  conclude_round n m f =
      let parsed = parse_output_json lib f m in
      update_flow_phase lib parsed (clock n updating) (build_template_data lib parsed m)

  -- The loop of `Run`; `none` is a run that uses up its fuel. The events are in order.
  unfoldable pub run_rounds : ℕ → ℕ → ArkFlow → List StepEvent → Option (ArkFlow × List StepEvent)
  run_rounds zero n f events = none
  run_rounds (suc fuel) n f events =
      let m = build_status_by_name f.status.steps in
      let (steps, ready) = prepare_round n f m in
      let last =
        update_flow_phase lib (with_steps f steps) (clock n updating)
          (build_template_data lib f m) in
      let next =
        run_rounds fuel (suc n)
          (conclude_round n m (with_steps f (execute_round n f m steps ready)))
          (events ++ (map start_event ready ++ map finish_event (round_results n f m ready))) in
      if is_terminal_phase f.status.phase
      then some (f, events)
      else elim ready [ [] ↦ some (last, events) | _ ∷ _ ↦ next ]

  unfoldable pub run : ℕ → ArkFlow → Option (ArkFlow × List StepEvent)
  run fuel f = run_rounds fuel 0 (initialize_steps lib schedule.began f) []
