-- ===== src/Flow/Step.antt =====
-- internal/flow/step.go: conditions, the first statuses, parsed outputs, loops and found JSON.
use arkonis_operator.Prelude.{
  ℕ, String, Option, none, some, List, [], ◌∷◌, Bool, true, false, not, ◌&&◌, ◌||◌, get_elem?, set,
  map, ◌==◌, if◌then◌else◌,
}
use arkonis_operator.Prelude.Words.{Int64, add64, lt64, le64}
use arkonis_operator.Prelude.Map.{Map, lookup, insert}
use arkonis_operator.Prelude.Text.{trim_space, split_lines, from_first, before_first, starts_with}
use arkonis_operator.Api.Meta.{
  Time, Message, text, format, int, end, ok, err, ConditionStatus, condition_true,
}
use arkonis_operator.Api.Flow.{
  ArkFlow, ArkFlowStep, ArkFlowStepStatus, ArkFlowStepPhase, ArkFlowPhase, LoopSpec,
}
use arkonis_operator.Flow.Dag.{StatusByName, status_of}
use arkonis_operator.Flow.Library.{Library, TemplateData}
use arkonis_operator.Flow.Template.{is_truthy, resolve_template}

unfoldable pub is_pending : ArkFlowStepPhase → Bool
is_pending ArkFlowStepPhase.pending = true
is_pending _ = false

unfoldable pub is_succeeded : ArkFlowStepPhase → Bool
is_succeeded ArkFlowStepPhase.succeeded = true
is_succeeded _ = false

unfoldable pub is_unset : ArkFlowPhase → Bool
is_unset ArkFlowPhase.unset = true
is_unset _ = false

-- The status that `InitializeSteps` gives a step.
unfoldable pub pending_status : ArkFlowStep → ArkFlowStepStatus
pending_status step = record {
  name = step.name;
  phase = ArkFlowStepPhase.pending;
  task_id = "";
  output = "";
  output_json = "";
  start_time = none;
  completion_time = none;
  message = text "";
  iterations = 0;
  token_usage = none;
}

-- The status of a step that a loop repeats, after `max` was read as the cap.
unfoldable pub reset_for_loop : Int64 → ArkFlowStepStatus → ArkFlowStepStatus
reset_for_loop max st = record st {
  iterations = add64 st.iterations 1;
  phase = ArkFlowStepPhase.pending;
  task_id = "";
  output = "";
  output_json = "";
  start_time = none;
  completion_time = none;
  message = format "loop iteration %d/%d" (int (add64 st.iterations 1) (int max end));
}

-- The cap on the repetitions, with its default.
unfoldable pub max_iter : LoopSpec → Int64
max_iter loop = if le64 loop.max_iterations 0 then 10 else loop.max_iterations

-- The names of the steps that declare an output schema.
unfoldable pub schema_by_name : List ArkFlowStep → Map String → Map String
schema_by_name [] m = m
schema_by_name (step ∷ steps) m =
    schema_by_name steps
      (if step.output_schema == "" then m else insert step.name step.output_schema m)

module _ (lib : Library) where
  open lib use {Json, unmarshal, set_status_condition}

  unfoldable pub set_condition : ArkFlow → ConditionStatus → String → Message → ArkFlow
  set_condition f status reason message = record f {
    status = record (f.status) {
      conditions = set_status_condition f.status.conditions (record {
        type = "Ready";
        status = status;
        observed_generation = f.generation;
        reason = reason;
        message = message;
      });
    };
  }

  unfoldable pub initialize_steps : Time → ArkFlow → ArkFlow
  unfolding is_unset
  initialize_steps now f =
      if is_unset f.status.phase
      then set_condition
          (record f {
            status = record (f.status) {
              phase = ArkFlowPhase.running;
              start_time = some now;
              steps = map pending_status f.spec.steps;
            };
          })
          condition_true "Validated" (text "Flow DAG is valid; execution started")
      else f

  -- A candidate that parses is the answer, and ends the search either way.
  abbrev parsed_or_empty : String → String
  parsed_or_empty candidate = elim (unmarshal candidate) [ some _ ↦ candidate | none ↦ "" ]

  -- The lines of `s`: the first that opens an object or an array decides.
  unfoldable pub fenced_json : String → List String → String
  fenced_json s [] = ""
  fenced_json s (raw ∷ lines) =
      let line = trim_space raw in
      let rest = fenced_json s lines in
      if starts_with line "```"
      then rest
      else if starts_with line "{" || starts_with line "["
      then elim (from_first line s) [
        | none ↦ ""
        | some tail ↦ elim (before_first "\n```" tail) [
          | none ↦ parsed_or_empty (trim_space tail)
          | some body ↦ parsed_or_empty (trim_space body)
        ]
      ]
      else rest

  unfoldable pub extract_json : String → String
  extract_json s =
      let t = trim_space s in
      let found = fenced_json t (split_lines t) in
      if t == "" then "" else elim (unmarshal t) [ some _ ↦ t | none ↦ found ]

  -- The body of the loop of `ParseOutputJSON` that is reached for a step with a schema.
  unfoldable pub parse_status : ArkFlowStepStatus → ArkFlowStepStatus
  parse_status st =
      let raw = extract_json st.output in
      if not (is_succeeded st.phase) || st.output == "" || not (st.output_json == "")
      then st
      else if raw == ""
      then st
      else elim (unmarshal raw) [ none ↦ st | some _ ↦ record st { output_json = raw } ]

  -- One turn of the loop, for a step whose schema was looked up.
  unfoldable pub parse_turn : Option String → ℕ → List ArkFlowStepStatus → List ArkFlowStepStatus
  parse_turn none i steps = steps
  parse_turn (some _) i steps = elim (get_elem? steps i) [
    | none ↦ steps
    | some st ↦ set steps i (parse_status st)
  ]

  unfoldable pub parse_outputs :
      Map String → StatusByName → List ArkFlowStepStatus → List ArkFlowStepStatus
  parse_outputs schemas [] steps = steps
  parse_outputs schemas ((name, i) ∷ m) steps =
      parse_outputs schemas m (parse_turn (lookup name schemas) i steps)

  unfoldable pub parse_output_json : ArkFlow → StatusByName → ArkFlow
  parse_output_json f m = record f {
    status = record (f.status) {
      steps = parse_outputs (schema_by_name f.spec.steps []) m f.status.steps;
    };
  }

  -- `condResult, err := …; err != nil || !IsTruthy(condResult)`, negated.
  unfoldable pub holds : String → TemplateData Json → Bool
  holds condition context = elim (resolve_template lib condition context) [
    | err _ ↦ false
    | ok result ↦ is_truthy result
  ]

  -- What one turn of the loop of `EvaluateLoops` does to the status of a step with a loop.
  unfoldable pub evaluate_loop :
      LoopSpec → TemplateData Json → ArkFlowStepStatus → ArkFlowStepStatus
  evaluate_loop loop context st =
      if is_succeeded st.phase && lt64 st.iterations (max_iter loop) && holds loop.condition context
      then reset_for_loop (max_iter loop) st
      else st

  -- One turn of the loop, for a step with this loop and name.
  unfoldable pub evaluate_turn :
      Option LoopSpec
      → String
      → StatusByName
      → TemplateData Json
      → List ArkFlowStepStatus
      → List ArkFlowStepStatus
  evaluate_turn none name m context steps = steps
  evaluate_turn (some loop) name m context steps = elim (status_of m steps name) [
    | none ↦ steps
    | some (i, st) ↦ set steps i (evaluate_loop loop context st)
  ]

  unfoldable pub evaluate_loops :
      List ArkFlowStep
      → StatusByName
      → TemplateData Json
      → List ArkFlowStepStatus
      → List ArkFlowStepStatus
  evaluate_loops [] m context steps = steps
  evaluate_loops (step ∷ rest) m context steps =
      evaluate_loops rest m context (evaluate_turn step.loop step.name m context steps)
