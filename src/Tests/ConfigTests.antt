-- ===== src/Tests/ConfigTests.antt =====
-- The configuration of an agent's runtime.
use arkonis_operator.Prelude.{
  String, Option, none, some, List, [], ◌∷◌, ◌≡◌, ◌≢◌, refl, ◌==◌, if◌then◌else◌,
}
use arkonis_operator.Api.Meta.{ok, err, text}
use arkonis_operator.Api.Agent.{ArkAgent}
use arkonis_operator.Agent.Config.{ConfigJson, load}
use arkonis_operator.Local.Steps.{agent_config}
use arkonis_operator.Controller.AgentEnv.{
  EnvSource, literal, EnvVar, merge_system_prompt, build_env_vars,
}
use arkonis_operator.Controller.AgentEnv.Backend.{last_value}
use arkonis_operator.Controller.AgentEnv.Loaded.{IsSeen, IsEnvironment, IsJson, load-agent_config}
use arkonis_operator.Tests.Samples.{agent_named}

abbrev served : ArkAgent
served = record (agent_named "writer") {
  spec = record ((agent_named "writer").spec) {
    mcp_servers = record { name = "files"; url = "http://files" } ∷ [];
  };
}

abbrev one_server : ConfigJson
one_server = record {
  servers = λ s.
      if s == "[files]"
      then ok (record { name = "files"; url = "http://files" } ∷ [])
      else err (text "invalid");
  tools = λ s. ok [];
}

abbrev queue_only : String → String
queue_only name = if name == "TASK_QUEUE_URL" then "redis://queue" else ""

abbrev vars : List EnvVar
vars = build_env_vars (λ xs. "[files]") (λ xs. "null") served none none "hi"

abbrev value_or : String → Option EnvSource → String
value_or base none = base
value_or base (some (literal v)) = v
value_or base (some _) = base

abbrev pod : String → String
pod name = value_or (queue_only name) (last_value name vars)

value_or-IsSeen : (base : String) (v : Option EnvSource) → IsSeen base (value_or base v) v
value_or-IsSeen base none = refl
value_or-IsSeen base (some (literal v)) = refl
value_or-IsSeen base (some (EnvSource.secret_key name key)) = tt
value_or-IsSeen base (some (EnvSource.field_path path)) = tt

pod-IsEnvironment : IsEnvironment queue_only pod vars
pod-IsEnvironment = λ name. value_or-IsSeen (queue_only name) (last_value name vars)

served-IsJson : IsJson (λ xs. "[files]") (λ xs. "null") one_server served
served-IsJson = record {
  servers = refl;
  tools = refl;
  servers_full = λ e. cc e;
  tools_full = λ e. cc e;
}

hi-ne : merge_system_prompt "hi" none ≢ ""
unfolding merge_system_prompt
hi-ne = λ e. cc e

load-agent_config_example :
    load pod one_server
    ≡ ok (record (agent_config served) {
      provider = pod "AGENT_PROVIDER";
      system_prompt = merge_system_prompt "hi" none;
      task_queue_url = "redis://queue";
      validator_prompt = pod "AGENT_VALIDATOR_PROMPT";
      max_retries = 3;
      webhook_tools = [];
    })
load-agent_config_example =
    load-agent_config (λ xs. "[files]") (λ xs. "null") one_server served served-IsJson none none
      "hi" queue_only pod pod-IsEnvironment tt (λ e. cc e) hi-ne (λ e. cc e) refl refl
