-- ===== src/Tests/EnvTests.antt =====
-- Agents with a memory.
use arkonis_operator.Prelude.{none, some, [], ◌∷◌, ◌≡◌, ◌≢◌, refl, Member, All, ◌⊎◌}
use arkonis_operator.Api.Settings.{ArkSettings, in_context, redis}
use arkonis_operator.Api.Memory.{ArkMemory, RedisMemoryConfig}
use arkonis_operator.Controller.Memory.{validate, validate_redis}
use arkonis_operator.Controller.AgentEnv.{literal, secret_key, build_env_vars, backend_text}
use arkonis_operator.Controller.AgentEnv.Backend.{last_value, build_env_vars-last_value}
use arkonis_operator.Controller.AgentEnv.RedisUrl.{validate-last_value}
use arkonis_operator.Tests.Samples.{agent_named, flow_of, plain}
use arkonis_operator.Api.Flow.{ArkFlow}
use arkonis_operator.Controller.AgentWatch.{
  AllDifferent, flow_to_agents, flow_to_agents-AllDifferent,
}

abbrev in_redis : ArkMemory
in_redis = record {
  name = "memory";
  namespace = "default";
  generation = 1;
  deletion_timestamp = none;
  spec = record {
    backend = redis;
    redis = some (record {
      secret_ref = record { name = "credentials" };
      ttl_seconds = 60;
      max_entries = 0;
    });
    vector_store = none;
  };
  status = record { observed_generation = 0; conditions = [] };
}

abbrev in_process : ArkSettings
in_process = record {
  name = "settings";
  namespace = "default";
  generation = 1;
  deletion_timestamp = none;
  spec = record {
    temperature = "0.2";
    output_format = "";
    memory_backend = in_context;
    prompt_fragments = record { persona = ""; output_rules = "" };
  };
  status = record { observed_generation = 0; conditions = [] };
}

build_env_vars-last_value_example :
    last_value "AGENT_MEMORY_BACKEND" (
      build_env_vars
        (λ servers. "[]")
        (λ tools. "[]")
        (agent_named "writer")
        (some in_process)
        (some in_redis)
        "hi")
    ≡ some (literal (backend_text redis))
build_env_vars-last_value_example =
    build_env_vars-last_value (λ servers. "[]") (λ tools. "[]") (agent_named "writer")
      (some in_process) in_redis "hi"

in_redis-validate : validate in_redis ≡ none
unfolding validate validate_redis
in_redis-validate = refl

validate-last_value_example :
    (config : RedisMemoryConfig) × (in_redis.spec.redis ≡ some config)
    × (config.secret_ref.name ≢ "")
    × (last_value "AGENT_MEMORY_REDIS_URL" (
          build_env_vars
            (λ servers. "[]")
            (λ tools. "[]")
            (agent_named "writer")
            (some in_process)
            (some in_redis)
            "hi")
        ≡ some (secret_key config.secret_ref.name "REDIS_URL"))
validate-last_value_example =
    validate-last_value (λ servers. "[]") (λ tools. "[]") (agent_named "writer") (some in_process)
      in_redis "hi" refl in_redis-validate

-- Two steps of one agent.
abbrev sharing : ArkFlow
sharing = flow_of (plain "a" [] ∷ plain "b" [] ∷ [])

flow_to_agents-AllDifferent_example :
    AllDifferent (flow_to_agents sharing)
    × All (λ s. (s.ark_agent ≡ "") ⊎ Member s.ark_agent (flow_to_agents sharing)) sharing.spec.steps
flow_to_agents-AllDifferent_example = flow_to_agents-AllDifferent sharing
