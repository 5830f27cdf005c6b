-- ===== src/Controller/FlowSteps.antt =====
-- internal/controller/arkflow_controller.go: the tasks that a pass over a flow submits, and the results
-- that it collects. `collectResults` and `submitPendingSteps` return an error with the statuses as far
-- as they were changed.
pub mod Submitted
pub mod Collected
use arkonis_operator.Prelude.{
  ℕ, ◌-◌, String, Option, none, some, List, [], ◌∷◌, Bool, true, false, not, ◌&&◌, ◌||◌, get_elem?,
  set, ltb, ◌==◌, if◌then◌else◌,
}
use arkonis_operator.Prelude.Words.{Int64, half, add64, lt64}
use arkonis_operator.Prelude.Decimal.{to_int64}
use arkonis_operator.Prelude.Map.{Map, insert, lookup, lookup_or}
use arkonis_operator.Api.Meta.{Time, Message, text, format, str, msg, end, Result, ok, err}
use arkonis_operator.Api.Flow.{ArkFlowStep, ArkFlowStepStatus, ArkFlowStepPhase, TokenUsage}
use arkonis_operator.Flow.Dag.{StatusByName}
use arkonis_operator.Flow.Library.{Library, TemplateData}
use arkonis_operator.Flow.Template.{resolve_prompt}
use arkonis_operator.Local.Steps.{Readiness, waits, skips, runs, readiness, skip_status}
use arkonis_operator.Agent.Streams.{Redis, Entry}

unfoldable pub is_waiting : ArkFlowStepStatus → Bool
is_waiting st = elim st.phase [
  | ArkFlowStepPhase.running ↦ not (st.task_id == "")
  | ArkFlowStepPhase.pending ↦ false
  | ArkFlowStepPhase.succeeded ↦ false
  | ArkFlowStepPhase.failed ↦ false
  | ArkFlowStepPhase.skipped ↦ false
]

-- `waiting`: from the task that a Running step waits for to the place of its status.
unfoldable pub waiting_of : StatusByName → List ArkFlowStepStatus → Map ℕ → Map ℕ
waiting_of [] steps waiting = waiting
waiting_of ((name, i) ∷ m) steps waiting = waiting_of m steps (elim (get_elem? steps i) [
  | none ↦ waiting
  | some st ↦ if is_waiting st then insert st.task_id i waiting else waiting
])

unfoldable pub usage_or : Option TokenUsage → Int64 → Int64 → Option TokenUsage
usage_or before ins outs =
    if lt64 0 ins || lt64 0 outs
    then some (record { input_tokens = ins; output_tokens = outs; total_tokens = add64 ins outs })
    else before

unfoldable pub take_result : Time → Map String → ArkFlowStepStatus → ArkFlowStepStatus
take_result now values st = record st {
  phase = ArkFlowStepPhase.succeeded;
  output = lookup_or "" "result" values;
  completion_time = some now;
  token_usage =
      usage_or st.token_usage (to_int64 (lookup "input_tokens" values))
        (to_int64 (lookup "output_tokens" values));
}

-- One turn of the loop over the messages, at the place that waits for its task.
unfoldable pub take_at :
    Time → Map String → Option ℕ → List ArkFlowStepStatus → List ArkFlowStepStatus
take_at now values none steps = steps
take_at now values (some i) steps = elim (get_elem? steps i) [
  | none ↦ steps
  | some st ↦ set steps i (take_result now values st)
]

unfoldable pub take_results :
    (String → Time) → Map ℕ → List Entry → List ArkFlowStepStatus → List ArkFlowStepStatus
take_results now waiting [] steps = steps
take_results now waiting (entry ∷ entries) steps = take_results now waiting entries (
    take_at (now entry.id) entry.values (lookup (lookup_or "" "task_id" entry.values) waiting)
      steps)

unfoldable pub fail_inputs : Time → Message → ArkFlowStepStatus → ArkFlowStepStatus
fail_inputs now e st = record st {
  phase = ArkFlowStepPhase.failed;
  completion_time = some now;
  message = format "input template error: %v" (msg e end);
}

unfoldable pub run_status : Time → String → ArkFlowStepStatus → ArkFlowStepStatus
run_status now task_id st = record st {
  phase = ArkFlowStepPhase.running;
  task_id = task_id;
  start_time = some now;
}

module _ (redis : Redis) where
  open redis use {State, x_add, x_range}

  unfoldable pub collect_results :
      (String → Time)
      → State
      → StatusByName
      → List ArkFlowStepStatus
      → Result (List ArkFlowStepStatus)
  collect_results now db m steps = elim (waiting_of m steps []) [
    | [] ↦ ok steps
    | binding ∷ rest ↦ elim (x_range db "agent-tasks-results") [
      | err e ↦ err (format "XRANGE %s: %w" (str "agent-tasks-results" (msg e end)))
      | ok entries ↦ ok (take_results now (binding ∷ rest) entries steps)
    ]
  ]

  unfoldable pub submit_task : String → State → State × Result String
  submit_task prompt db =
      let (db', reply) = x_add db "agent-tasks" (("prompt", prompt) ∷ []) in
      (
        db',
        elim reply [
          | ok id ↦ ok id
          | err e ↦ err (format "XADD %s: %w" (str "agent-tasks" (msg e end)))
        ],
      )

  -- What a pass leaves: the queue, the statuses, and the error that ended it.
  pub record Pass : Type 0 where
    pub db : State
    pub steps : List ArkFlowStepStatus
    pub error : Option Message

  module _ (lib : Library) (now : String → Time) (m : StatusByName)
      (context : TemplateData lib.Json) where
    -- A step that is ready, with its place, its status and its prompt.
    unfoldable pub submit_prompt :
        ArkFlowStep → ℕ → ArkFlowStepStatus → Result String → State → List ArkFlowStepStatus → Pass
    submit_prompt step i st (err e) db steps = record {
      db = db;
      steps = set steps i (fail_inputs (now step.name) e st);
      error = none;
    }
    submit_prompt step i st (ok prompt) db steps =
        let (db', reply) = submit_task prompt db in
        elim reply [
          | err e ↦ record {
            db = db';
            steps = steps;
            error = some (format "submitting task for step %q: %w" (str step.name (msg e end)));
          }
          | ok id ↦ record {
            db = db';
            steps = set steps i (run_status (now step.name) id st);
            error = none;
          }
        ]

    -- One turn of the loop.
    unfoldable pub submit_step : ArkFlowStep → Readiness → State → List ArkFlowStepStatus → Pass
    submit_step step waits db steps = record { db = db; steps = steps; error = none }
    submit_step step (skips i st) db steps = record {
      db = db;
      steps = set steps i (skip_status (now step.name) st);
      error = none;
    }
    submit_step step (runs i st) db steps =
        submit_prompt step i st (resolve_prompt lib step context) db steps

    unfoldable pub submit_pending_steps : List ArkFlowStep → State → List ArkFlowStepStatus → Pass
    submit_pending_steps [] db steps = record { db = db; steps = steps; error = none }
    submit_pending_steps (step ∷ rest) db steps =
        let turn = submit_step step (readiness lib m context steps step) db steps in
        let more = submit_pending_steps rest turn.db turn.steps in
        elim turn.error [ some _ ↦ turn | none ↦ more ]
