-- ===== src/Local/Steps.antt =====
-- internal/ark/local/executor.go: which steps are ready, and what one step runs with.
use arkonis_operator.Prelude.{
  ℕ, String, Option, none, some, List, [], ◌∷◌, not, ◌||◌, set, map, ◌==◌, if◌then◌else◌,
}
use arkonis_operator.Prelude.Words.{Int64, lt64}
use arkonis_operator.Prelude.Map.{Map, lookup}
use arkonis_operator.Api.Meta.{Time, Message, text, format, str, msg, end, Result, ok, err}
use arkonis_operator.Api.Flow.{ArkFlowStep, ArkFlowStepStatus, ArkFlowStepPhase}
use arkonis_operator.Api.Agent.{ArkAgent}
use arkonis_operator.Agent.Config.{AgentConfig, server_config}
use arkonis_operator.Flow.Dag.{StatusByName, status_of, deps_succeeded}
use arkonis_operator.Flow.Library.{Library, TemplateData}
use arkonis_operator.Flow.Step.{is_pending, holds}

-- What the loop of `collectReadySteps` does with a step: nothing, mark it Skipped, or take it.
pub data Readiness : Type 0 where
  waits : Readiness
  skips : ℕ → ArkFlowStepStatus → Readiness
  runs : ℕ → ArkFlowStepStatus → Readiness

unfoldable pub skip_status : Time → ArkFlowStepStatus → ArkFlowStepStatus
skip_status now st = record st {
  phase = ArkFlowStepPhase.skipped;
  completion_time = some now;
  message = text "skipped: if condition evaluated to false";
}

module _ (lib : Library) where
  open lib use {Json}

  unfoldable pub readiness :
      StatusByName → TemplateData Json → List ArkFlowStepStatus → ArkFlowStep → Readiness
  readiness m context steps step = elim (status_of m steps step.name) [
    | none ↦ waits
    | some (i, st) ↦
        if not (is_pending st.phase)
        then waits
        else if not (deps_succeeded step.depends_on m steps)
        then waits
        else if step.if_expr == "" || holds lib step.if_expr context
        then runs i st
        else skips i st
  ]

  -- `now` is what the clock shows when a step is skipped.
  unfoldable pub collect_ready_steps :
      (String → Time)
      → List ArkFlowStep
      → StatusByName
      → TemplateData Json
      → List ArkFlowStepStatus
      → List ArkFlowStepStatus × List ArkFlowStep
  collect_ready_steps now [] m context steps = (steps, [])
  collect_ready_steps now (step ∷ rest) m context steps = elim (readiness m context steps step) [
    | waits ↦ collect_ready_steps now rest m context steps
    | skips i st ↦
        collect_ready_steps now rest m context (set steps i (skip_status (now step.name) st))
    | runs i st ↦
        let (steps', ready) = collect_ready_steps now rest m context steps in (steps', step ∷ ready)
  ]

-- A limit that is set and positive, or the default.
unfoldable pub limit_or : Int64 → Int64 → Int64
limit_or default limit = if lt64 0 limit then limit else default

-- The fields that it does not set keep their zero values.
unfoldable pub agent_config : ArkAgent → AgentConfig
agent_config agent = record {
  provider = "";
  model = agent.spec.model;
  system_prompt = elim agent.spec.system_prompt_ref [
    | none ↦ agent.spec.system_prompt
    | some _ ↦
        if agent.spec.system_prompt == ""
        then "[warning: systemPromptRef cannot be resolved locally — set systemPrompt inline for ark run]"
        else agent.spec.system_prompt
  ];
  max_tokens_per_call = elim agent.spec.limits [
    | none ↦ 8000
    | some limits ↦ limit_or 8000 limits.max_tokens_per_call
  ];
  timeout_seconds = elim agent.spec.limits [
    | none ↦ 120
    | some limits ↦ limit_or 120 limits.timeout_seconds
  ];
  mcp_servers = map server_config agent.spec.mcp_servers;
  task_queue_url = "";
  validator_prompt = "";
  max_retries = 0;
  webhook_tools = [];
}

-- What the run of a step returns: its text, its tokens and its error.
pub record StepOutcome : Type 0 where
  pub output : String
  pub input_tokens : Int64
  pub output_tokens : Int64
  pub error : Option Message

unfoldable pub failed_with : Message → StepOutcome
failed_with e = record { output = ""; input_tokens = 0; output_tokens = 0; error = some e }

-- What a step is run with: the agents of the file, the providers by model, and `run_task`, which
-- stands for a runner's loop with the language model.
pub record Backend : Type 1 where
  pub Provider : Type 0
  pub agents : Map ArkAgent
  pub provider : String → Result Provider
  pub run_task : Provider → AgentConfig → (id prompt : String) → StepOutcome

unfoldable pub run_step : Backend → ArkFlowStep → String → StepOutcome
run_step backend step prompt = elim (lookup step.ark_agent backend.agents) [
  | none ↦ failed_with (
      format "step %q: ArkAgent %q not found in loaded YAML"
        (str step.name (str step.ark_agent end)))
  | some agent ↦ elim (backend.provider agent.spec.model) [
    | err e ↦ failed_with (format "step %q: %w" (str step.name (msg e end)))
    | ok provider ↦ backend.run_task provider (agent_config agent) step.name prompt
  ]
]
