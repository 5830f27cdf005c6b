-- ===== src/Controller/AgentEnv/Loaded.antt =====
-- internal/controller/arkagent_controller.go and internal/agent/config/config.go: the configuration that the
-- runtime of an agent loads from the environment that the controller gives its container.
use arkonis_operator.Prelude.{
  ◌<◌, String, Option, none, some, List, [], ◌∷◌, map, ◌≡◌, ◌≢◌, refl, ap, ◌∙◌, subst, arith, false,
  ◌==◌,
}
use arkonis_operator.Prelude.Words.{Int64, word, half}
use arkonis_operator.Prelude.Decimal.{itoa}
use arkonis_operator.Api.Meta.{ok}
use arkonis_operator.Api.Settings.{ArkSettings}
use arkonis_operator.Api.Memory.{ArkMemory}
use arkonis_operator.Api.Agent.{ArkAgent, ArkonisLimits, McpServerSpec, WebhookToolSpec}
use arkonis_operator.Agent.Config.{ConfigJson, server_config, tool_config, list_env, load}
use arkonis_operator.Agent.Config.Reads.{
  require_env-ok, int_env-ok, int_env-default, list_env-ok, list_env-empty, load-ok,
}
use arkonis_operator.Local.Steps.{limit_or, agent_config}
use arkonis_operator.Controller.AgentEnv.{
  EnvSource, literal, secret_key, field_path, EnvVar, merge_system_prompt, tool_env_vars,
  base_env_vars, build_env_vars,
}
use arkonis_operator.Controller.AgentEnv.Backend.{last_value}
use arkonis_operator.Controller.AgentEnv.Names.{
  extra_names, contains, last_value-base, last_value-tools,
}

-- The value of a name, where `base` is the environment without the variables of the container.
abbrev pub IsSeen : (base seen : String) → Option EnvSource → Type 0
IsSeen base seen none = seen ≡ base
IsSeen base seen (some (literal v)) = seen ≡ v
IsSeen base seen (some (secret_key name key)) = Unit
IsSeen base seen (some (field_path path)) = Unit

-- The environment that Kubernetes documents for the variables, where no value refers to another one.
abbrev pub IsEnvironment : (base getenv : String → String) → List EnvVar → Type 0
IsEnvironment base getenv vars =
    (name : String) → IsSeen (base name) (getenv name) (last_value name vars)

-- The limits fit 64 bits.
abbrev pub HasWords : Option ArkonisLimits → Type 0
HasWords none = Unit
HasWords (some limits) = (limits.max_tokens_per_call < word) × (limits.timeout_seconds < word)

limit_or-lt :
    (default limit : Int64) → default < half → limit < word → limit_or default limit < half
unfolding limit_or
limit_or-lt default limit small fits = ground arith

tokens-lt :
    (l : Option ArkonisLimits)
    → HasWords l
    → (elim l as (λ x. Int64) [
      | none ↦ 8000
      | some limits ↦ limit_or 8000 limits.max_tokens_per_call
    ])
      < half
tokens-lt none words = omega arith
tokens-lt (some limits) words = limit_or-lt 8000 limits.max_tokens_per_call (omega arith) words.0

timeout-lt :
    (l : Option ArkonisLimits)
    → HasWords l
    → (elim l as (λ x. Int64) [ none ↦ 120 | some limits ↦ limit_or 120 limits.timeout_seconds ])
      < half
timeout-lt none words = omega arith
timeout-lt (some limits) words = limit_or-lt 120 limits.timeout_seconds (omega arith) words.1

module _ (marshal_servers : List McpServerSpec → String)
    (marshal_tools : List WebhookToolSpec → String) (json : ConfigJson) where
  -- What encoding/json documents of the lists of an agent: each is decoded as it was encoded, and its text
  -- is not empty.
  pub record IsJson (agent : ArkAgent) : Type 0 where
    pub servers :
        json.servers (marshal_servers agent.spec.mcp_servers)
        ≡ ok (map server_config agent.spec.mcp_servers)
    pub tools : json.tools (marshal_tools agent.spec.tools) ≡ ok (map tool_config agent.spec.tools)
    pub servers_full : marshal_servers agent.spec.mcp_servers ≢ ""
    pub tools_full : marshal_tools agent.spec.tools ≢ ""

  module _ (agent : ArkAgent) (is_json : IsJson agent) (settings : Option ArkSettings)
      (mem : Option ArkMemory) (prompt : String) (base getenv : String → String)
      (environment : IsEnvironment base getenv
        (build_env_vars marshal_servers marshal_tools agent settings mem prompt)) where
    IsSeen-base :
        (name : String) (v : EnvSource)
        → contains name extra_names ≡ false
        → last_value name (tool_env_vars marshal_servers marshal_tools agent.spec.tools) ≡ none
        → last_value name (base_env_vars marshal_servers marshal_tools agent settings prompt)
          ≡ some v
        → IsSeen (base name) (getenv name) (some v)
    IsSeen-base name v other no_tools there =
        subst (IsSeen (base name) (getenv name))
          (last_value-base marshal_servers marshal_tools agent settings mem prompt name other
              no_tools
            ∙ there)
          (environment name)

    no_tool :
        (name : String) (tools : List WebhookToolSpec)
        → ("AGENT_WEBHOOK_TOOLS" == name) ≡ false
        → last_value name (tool_env_vars marshal_servers marshal_tools tools) ≡ none
    unfolding tool_env_vars
    no_tool name [] other = refl
    no_tool name (tool ∷ tools) other = rw (other) refl

    prompt_seen : getenv "AGENT_SYSTEM_PROMPT" ≡ merge_system_prompt prompt settings
    unfolding base_env_vars contains
    prompt_seen =
        IsSeen-base "AGENT_SYSTEM_PROMPT" (literal (merge_system_prompt prompt settings)) refl
          (no_tool "AGENT_SYSTEM_PROMPT" agent.spec.tools refl) refl

    model_seen : getenv "AGENT_MODEL" ≡ agent.spec.model
    unfolding base_env_vars contains
    model_seen =
        IsSeen-base "AGENT_MODEL" (literal agent.spec.model) refl
          (no_tool "AGENT_MODEL" agent.spec.tools refl) refl

    servers_seen : getenv "AGENT_MCP_SERVERS" ≡ marshal_servers agent.spec.mcp_servers
    unfolding base_env_vars contains
    servers_seen =
        IsSeen-base "AGENT_MCP_SERVERS" (literal (marshal_servers agent.spec.mcp_servers)) refl
          (no_tool "AGENT_MCP_SERVERS" agent.spec.tools refl) refl

    tokens_seen : getenv "AGENT_MAX_TOKENS" ≡ itoa (agent_config agent).max_tokens_per_call
    unfolding base_env_vars contains agent_config
    tokens_seen =
        IsSeen-base "AGENT_MAX_TOKENS" (literal (itoa (agent_config agent).max_tokens_per_call))
          refl (no_tool "AGENT_MAX_TOKENS" agent.spec.tools refl) refl

    timeout_seen : getenv "AGENT_TIMEOUT_SECONDS" ≡ itoa (agent_config agent).timeout_seconds
    unfolding base_env_vars contains agent_config
    timeout_seen =
        IsSeen-base "AGENT_TIMEOUT_SECONDS" (literal (itoa (agent_config agent).timeout_seconds))
          refl (no_tool "AGENT_TIMEOUT_SECONDS" agent.spec.tools refl) refl

    unset_seen :
        (name : String)
        → contains name extra_names ≡ false
        → ("AGENT_WEBHOOK_TOOLS" == name) ≡ false
        → last_value name (base_env_vars marshal_servers marshal_tools agent settings prompt) ≡ none
        → getenv name ≡ base name
    unset_seen name other no_tools absent =
        subst (IsSeen (base name) (getenv name))
          (last_value-base marshal_servers marshal_tools agent settings mem prompt name other
              (no_tool name agent.spec.tools no_tools)
            ∙ absent)
          (environment name)

    queue_seen : getenv "TASK_QUEUE_URL" ≡ base "TASK_QUEUE_URL"
    unfolding base_env_vars contains
    queue_seen = unset_seen "TASK_QUEUE_URL" refl refl refl

    retries_seen : getenv "AGENT_MAX_RETRIES" ≡ base "AGENT_MAX_RETRIES"
    unfolding base_env_vars contains
    retries_seen = unset_seen "AGENT_MAX_RETRIES" refl refl refl

    tools_loaded :
        (tools : List WebhookToolSpec)
        → agent.spec.tools ≡ tools
        → json.tools (marshal_tools tools) ≡ ok (map tool_config tools)
        → marshal_tools tools ≢ ""
        → base "AGENT_WEBHOOK_TOOLS" ≡ ""
        → list_env getenv "AGENT_WEBHOOK_TOOLS" json.tools ≡ ok (map tool_config tools)
    unfolding tool_env_vars contains base_env_vars
    tools_loaded [] has decodes full unset =
        let name : String = "AGENT_WEBHOOK_TOOLS" in
        let absent =
          ap (λ t. last_value name (tool_env_vars marshal_servers marshal_tools t)) has in
        let seen =
          subst (IsSeen (base name) (getenv name))
            (last_value-base marshal_servers marshal_tools agent settings mem prompt name refl
              absent)
            (environment name) in
        list_env-empty getenv name json.tools (seen ∙ unset)
    tools_loaded (tool ∷ tools) has decodes full unset =
        let name : String = "AGENT_WEBHOOK_TOOLS" in
        let text : String = marshal_tools (tool ∷ tools) in
        let there = ap (λ t. last_value name (tool_env_vars marshal_servers marshal_tools t)) has in
        let seen =
          subst (IsSeen (base name) (getenv name))
            (last_value-tools marshal_servers marshal_tools agent settings mem prompt name refl
              (literal text) there)
            (environment name) in
        list_env-ok getenv name json.tools (map tool_config (tool ∷ tools)) text seen full decodes

    fits_tokens : HasWords agent.spec.limits → (agent_config agent).max_tokens_per_call < half
    unfolding agent_config
    fits_tokens words = tokens-lt agent.spec.limits words

    fits_timeout : HasWords agent.spec.limits → (agent_config agent).timeout_seconds < half
    unfolding agent_config
    fits_timeout words = timeout-lt agent.spec.limits words

    -- Where the container of an agent has the environment of buildEnvVars, the model, the merged prompt and the
    -- address of the queue are not empty, and nothing else sets the retries and the tools, Load returns the
    -- model, the limits and the servers of the configuration that a local run gives the agent, its tools,
    -- the merged prompt, and 3 retries.
    pub load-agent_config :
        HasWords agent.spec.limits
        → agent.spec.model ≢ ""
        → merge_system_prompt prompt settings ≢ ""
        → base "TASK_QUEUE_URL" ≢ ""
        → base "AGENT_MAX_RETRIES" ≡ ""
        → base "AGENT_WEBHOOK_TOOLS" ≡ ""
        → load getenv json
          ≡ ok (record (agent_config agent) {
            provider = getenv "AGENT_PROVIDER";
            system_prompt = merge_system_prompt prompt settings;
            task_queue_url = base "TASK_QUEUE_URL";
            validator_prompt = getenv "AGENT_VALIDATOR_PROMPT";
            max_retries = 3;
            webhook_tools = map tool_config agent.spec.tools;
          })
    unfolding agent_config
    load-agent_config words model full queue retries unset =
        load-ok getenv json agent.spec.model (merge_system_prompt prompt settings)
          (base "TASK_QUEUE_URL") (agent_config agent).max_tokens_per_call
          (agent_config agent).timeout_seconds 3 (map server_config agent.spec.mcp_servers)
          (map tool_config agent.spec.tools)
          (require_env-ok getenv "AGENT_MODEL" agent.spec.model model_seen model)
          (require_env-ok getenv "AGENT_SYSTEM_PROMPT" (merge_system_prompt prompt settings)
            prompt_seen full)
          (require_env-ok getenv "TASK_QUEUE_URL" (base "TASK_QUEUE_URL") queue_seen queue)
          (int_env-ok getenv "AGENT_MAX_TOKENS" 8000 (agent_config agent).max_tokens_per_call
            (fits_tokens words) tokens_seen)
          (int_env-ok getenv "AGENT_TIMEOUT_SECONDS" 120 (agent_config agent).timeout_seconds
            (fits_timeout words) timeout_seen)
          (list_env-ok getenv "AGENT_MCP_SERVERS" json.servers
            (map server_config agent.spec.mcp_servers) (marshal_servers agent.spec.mcp_servers)
            servers_seen is_json.servers_full is_json.servers)
          (int_env-default getenv "AGENT_MAX_RETRIES" 3 (retries_seen ∙ retries))
          (tools_loaded agent.spec.tools refl is_json.tools is_json.tools_full unset)
