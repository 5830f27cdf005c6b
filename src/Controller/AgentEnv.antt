-- ===== src/Controller/AgentEnv.antt =====
-- internal/controller/arkagent_controller.go: the environment of an agent's container. The texts of
-- the lists of servers and tools (encoding/json) are parameters.
pub mod Backend
pub mod Names
pub mod Own
pub mod RedisUrl
pub mod Loaded
use arkonis_operator.Prelude.{
  ℕ, String, Option, none, some, List, [], ◌∷◌, ◌++◌, Bool, true, false, not, ◌&&◌, ◌==◌,
  if◌then◌else◌,
}
use arkonis_operator.Prelude.Words.{Int64, lt64}
use arkonis_operator.Prelude.Decimal.{itoa}
use arkonis_operator.Prelude.Text.{◌<>◌}
use arkonis_operator.Api.Settings.{
  MemoryBackend, no_backend, in_context, vector_store, redis, ArkSettings,
}
use arkonis_operator.Api.Memory.{
  RedisMemoryConfig, VectorStoreMemoryConfig, VectorStoreProvider, qdrant, pinecone, weaviate,
  ArkMemory,
}
use arkonis_operator.Api.Agent.{
  ArkAgent, ArkonisProbe, ProbeType, semantic, ping, McpServerSpec, WebhookToolSpec,
}
use arkonis_operator.Local.Steps.{limit_or}

-- `corev1.EnvVar`: a value, a key of a secret, or a field of the pod.
pub data EnvSource : Type 0 where
  literal : String → EnvSource
  secret_key : (name key : String) → EnvSource
  field_path : String → EnvSource

pub record EnvVar : Type 0 where
  pub name : String
  pub source : EnvSource

abbrev pub env : String → String → EnvVar
env name value = record { name = name; source = literal value }

-- The texts of the constants.
unfoldable pub backend_text : MemoryBackend → String
backend_text no_backend = ""
backend_text in_context = "in-context"
backend_text vector_store = "vector-store"
backend_text redis = "redis"

unfoldable pub provider_text : VectorStoreProvider → String
provider_text qdrant = "qdrant"
provider_text pinecone = "pinecone"
provider_text weaviate = "weaviate"

-- One variable where the test holds.
abbrev pub env_if : Bool → EnvVar → List EnvVar
env_if test var = if test then var ∷ [] else []

unfoldable pub merge_system_prompt : String → Option ArkSettings → String
merge_system_prompt base none = base
merge_system_prompt base (some settings) =
    let fragments = settings.spec.prompt_fragments in
    let opened = if fragments.persona == "" then base else fragments.persona <> "\n\n" <> base in
    if fragments.output_rules == "" then opened else opened <> "\n\n" <> fragments.output_rules

unfoldable pub build_settings_env_vars : Option ArkSettings → List EnvVar
build_settings_env_vars none = []
build_settings_env_vars (some settings) =
    env_if (not (settings.spec.temperature == ""))
      (env "AGENT_TEMPERATURE" settings.spec.temperature)
    ++ (env_if (not (settings.spec.output_format == ""))
          (env "AGENT_OUTPUT_FORMAT" settings.spec.output_format)
        ++ env_if (not (backend_text settings.spec.memory_backend == ""))
            (env "AGENT_MEMORY_BACKEND" (backend_text settings.spec.memory_backend)))

unfoldable pub build_redis_memory_env_vars : Option RedisMemoryConfig → List EnvVar
build_redis_memory_env_vars none = []
build_redis_memory_env_vars (some mem) =
    (record { name = "AGENT_MEMORY_REDIS_URL"; source = secret_key mem.secret_ref.name "REDIS_URL" }
      ∷ [])
    ++ (env_if (lt64 0 mem.ttl_seconds) (env "AGENT_MEMORY_REDIS_TTL" (itoa mem.ttl_seconds))
        ++ env_if (lt64 0 mem.max_entries)
            (env "AGENT_MEMORY_REDIS_MAX_ENTRIES" (itoa mem.max_entries)))

unfoldable pub build_vector_store_memory_env_vars : Option VectorStoreMemoryConfig → List EnvVar
build_vector_store_memory_env_vars none = []
build_vector_store_memory_env_vars (some vs) =
    (env "AGENT_MEMORY_VECTOR_STORE_PROVIDER" (provider_text vs.provider)
      ∷ env "AGENT_MEMORY_VECTOR_STORE_ENDPOINT" vs.endpoint
      ∷ env "AGENT_MEMORY_VECTOR_STORE_COLLECTION" vs.collection
      ∷ [])
    ++ ((elim vs.secret_ref [
      | none ↦ []
      | some ref ↦
          record {
            name = "AGENT_MEMORY_VECTOR_STORE_API_KEY";
            source = secret_key ref.name "VECTOR_STORE_API_KEY";
          }
          ∷ []
    ])
        ++ env_if (lt64 0 vs.ttl_seconds)
            (env "AGENT_MEMORY_VECTOR_STORE_TTL" (itoa vs.ttl_seconds)))

-- The `switch` on the backend.
unfoldable pub backend_env_vars : MemoryBackend → ArkMemory → List EnvVar
backend_env_vars no_backend mem = []
backend_env_vars in_context mem = []
backend_env_vars redis mem = build_redis_memory_env_vars mem.spec.redis
backend_env_vars vector_store mem = build_vector_store_memory_env_vars mem.spec.vector_store

unfoldable pub build_memory_env_vars : Option ArkMemory → List EnvVar
build_memory_env_vars none = []
build_memory_env_vars (some mem) =
    env "AGENT_MEMORY_BACKEND" (backend_text mem.spec.backend)
    ∷ backend_env_vars mem.spec.backend mem

unfoldable pub probe_env_vars : Option ArkonisProbe → List EnvVar
probe_env_vars none = []
probe_env_vars (some probe) = elim probe.type [
  | ping ↦ []
  | semantic ↦
      env_if (not (probe.validator_prompt == ""))
        (env "AGENT_VALIDATOR_PROMPT" probe.validator_prompt)
]

module _ (marshal_servers : List McpServerSpec → String)
    (marshal_tools : List WebhookToolSpec → String) where
  unfoldable pub tool_env_vars : List WebhookToolSpec → List EnvVar
  tool_env_vars [] = []
  tool_env_vars (tool ∷ tools) = env "AGENT_WEBHOOK_TOOLS" (marshal_tools (tool ∷ tools)) ∷ []

  unfoldable pub base_env_vars : ArkAgent → Option ArkSettings → String → List EnvVar
  base_env_vars agent settings prompt =
      let max_tokens = elim agent.spec.limits as (λ l. Int64) [
        | none ↦ 8000
        | some limits ↦ limit_or 8000 limits.max_tokens_per_call
      ] in
      let timeout = elim agent.spec.limits as (λ l. Int64) [
        | none ↦ 120
        | some limits ↦ limit_or 120 limits.timeout_seconds
      ] in
      env "AGENT_MODEL" agent.spec.model
      ∷ env "AGENT_SYSTEM_PROMPT" (merge_system_prompt prompt settings)
      ∷ env "AGENT_MCP_SERVERS" (marshal_servers agent.spec.mcp_servers)
      ∷ env "AGENT_MAX_TOKENS" (itoa max_tokens)
      ∷ env "AGENT_TIMEOUT_SECONDS" (itoa timeout)
      ∷ record { name = "POD_NAME"; source = field_path "metadata.name" }
      ∷ []

  unfoldable pub build_env_vars :
      ArkAgent → Option ArkSettings → Option ArkMemory → String → List EnvVar
  build_env_vars agent settings mem prompt =
      base_env_vars agent settings prompt
      ++ (probe_env_vars agent.spec.liveness_probe
          ++ (build_settings_env_vars settings
              ++ (build_memory_env_vars mem ++ tool_env_vars agent.spec.tools)))
