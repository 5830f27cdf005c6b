-- ===== src/Tests/Samples.antt =====
-- Steps, flows, and a library whose templates are their own results.
use arkonis_operator.Prelude.{
  ℕ, suc, String, Option, none, some, List, [], ◌∷◌, if◌then◌else◌, ◌==◌,
}
use arkonis_operator.Prelude.Text.{starts_with}
use arkonis_operator.Api.Meta.{text, ok, err, Condition}
use arkonis_operator.Api.Flow.{
  ArkFlow, ArkFlowStep, ArkFlowStepStatus, ArkFlowPhase, ArkFlowStepPhase, LoopSpec,
}
use arkonis_operator.Api.Agent.{ArkAgent}
use arkonis_operator.Flow.Library.{Library}
use arkonis_operator.Local.Steps.{Backend}
use arkonis_operator.Local.Executor.{Schedule}

abbrev pub step : String → List String → String → Option LoopSpec → ArkFlowStep
step name deps condition loop = record {
  name = name;
  ark_agent = "writer";
  inputs = [];
  depends_on = deps;
  output_schema = "";
  if_expr = condition;
  loop = loop;
}

abbrev pub plain : String → List String → ArkFlowStep
plain name deps = step name deps "" none

abbrev pub flow_of : List ArkFlowStep → ArkFlow
flow_of steps = record {
  name = "flow";
  namespace = "default";
  generation = 1;
  deletion_timestamp = none;
  spec = record { steps = steps; input = []; output = ""; timeout_seconds = 0; max_tokens = 0 };
  status = record {
    phase = ArkFlowPhase.unset;
    steps = [];
    start_time = none;
    completion_time = none;
    output = "";
    observed_generation = 0;
    total_token_usage = none;
    conditions = [];
  };
}

-- A status in a phase, with tokens used.
abbrev pub status_in : String → ArkFlowStepPhase → ℕ → ℕ → ArkFlowStepStatus
status_in name phase ins outs = record {
  name = name;
  phase = phase;
  task_id = "";
  output = "";
  output_json = "";
  start_time = none;
  completion_time = none;
  message = text "";
  iterations = 0;
  token_usage = some (record { input_tokens = ins; output_tokens = outs; total_tokens = ins });
}

abbrev upsert : List Condition → Condition → List Condition
upsert [] c = c ∷ []
upsert (d ∷ ds) c = if d.type == c.type then c ∷ ds else d ∷ upsert ds c

abbrev pub echo : Library
echo = record {
  Template = String;
  Json = String;
  parse = λ s. if s == "{{" then err (text "unclosed action") else ok s;
  execute = λ t _. ok t;
  unmarshal = λ s. if starts_with s "{" then some s else none;
  set_status_condition = upsert;
}

abbrev pub agent_named : String → ArkAgent
agent_named name = record {
  name = name;
  namespace = "default";
  generation = 1;
  deletion_timestamp = none;
  spec = record {
    replicas = none;
    model = "claude-x";
    system_prompt = "";
    system_prompt_ref = none;
    mcp_servers = [];
    limits = none;
    liveness_probe = none;
    config_ref = none;
    memory_ref = none;
    tools = [];
  };
  status = record {
    ready_replicas = 0;
    replicas = 0;
    observed_generation = 0;
    daily_token_usage = none;
    conditions = [];
  };
}

-- Every task succeeds and uses three tokens.
abbrev pub backend : Backend
backend = record {
  Provider = String;
  agents = ("writer", agent_named "writer") ∷ [];
  provider = λ model. ok model;
  run_task = λ p config id prompt. record {
    output = "done";
    input_tokens = 1;
    output_tokens = 2;
    error = none;
  };
}

abbrev pub schedule : Schedule
schedule = record { began = 0; clock = λ n r. suc n; arrive = λ n results. results }
