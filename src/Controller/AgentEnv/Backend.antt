-- ===== src/Controller/AgentEnv/Backend.antt =====
-- The memory that a container is told of.
use arkonis_operator.Prelude.{
  String, Option, none, some, List, [], ◌∷◌, ◌++◌, ◌≡◌, refl, ◌∙◌, Bool, true, false, ◌==◌,
  if◌then◌else◌,
}
use arkonis_operator.Prelude.Words.{lt64}
use arkonis_operator.Prelude.Decimal.{itoa}
use arkonis_operator.Api.Settings.{
  MemoryBackend, no_backend, in_context, vector_store, redis, ArkSettings,
}
use arkonis_operator.Api.Memory.{
  ArkMemory, RedisMemoryConfig, VectorStoreMemoryConfig, LocalObjectReference,
}
use arkonis_operator.Api.Agent.{ArkAgent, McpServerSpec, WebhookToolSpec}
use arkonis_operator.Controller.AgentEnv.{
  provider_text, env, EnvSource, literal, secret_key, EnvVar, env_if, backend_text,
  build_redis_memory_env_vars, build_vector_store_memory_env_vars, backend_env_vars,
  build_settings_env_vars, build_memory_env_vars, probe_env_vars, tool_env_vars, base_env_vars,
  build_env_vars,
}

-- What a container sees of a name: the last variable of that name.
abbrev pub last_value : String → List EnvVar → Option EnvSource
last_value name [] = none
last_value name (var ∷ vars) =
    let rest = last_value name vars in
    elim rest [ some v ↦ some v | none ↦ if var.name == name then some var.source else none ]

pub last_value-append_none :
    (name : String) (xs ys : List EnvVar)
    → last_value name ys ≡ none
    → last_value name (xs ++ ys) ≡ last_value name xs
last_value-append_none name [] ys h = h
last_value-append_none name (x ∷ xs) ys h = rw (last_value-append_none name xs ys h) refl

pub last_value-append_some :
    (name : String) (xs ys : List EnvVar) (v : EnvSource)
    → last_value name ys ≡ some v
    → last_value name (xs ++ ys) ≡ some v
last_value-append_some name [] ys v h = h
last_value-append_some name (x ∷ xs) ys v h = rw (last_value-append_some name xs ys v h) refl

pub last_value-last :
    (name : String) (x : EnvVar) (xs : List EnvVar)
    → last_value name xs ≡ none
    → last_value name (x ∷ xs) ≡ (if x.name == name then some x.source else none)
last_value-last name x xs h = rw h refl

abbrev pub backend_name : String
backend_name = "AGENT_MEMORY_BACKEND"

abbrev pub redis_name : String
redis_name = "AGENT_MEMORY_REDIS_URL"

redis-names :
    (ttl max : Bool) (source : EnvSource) (seconds entries : String)
    → last_value backend_name (
        (record { name = "AGENT_MEMORY_REDIS_URL"; source = source } ∷ [])
        ++ (env_if ttl (env "AGENT_MEMORY_REDIS_TTL" seconds)
            ++ env_if max (env "AGENT_MEMORY_REDIS_MAX_ENTRIES" entries)))
      ≡ none
redis-names true true source seconds entries = refl
redis-names true false source seconds entries = refl
redis-names false true source seconds entries = refl
redis-names false false source seconds entries = refl

redis-absent :
    (config : Option RedisMemoryConfig)
    → last_value backend_name (build_redis_memory_env_vars config) ≡ none
unfolding build_redis_memory_env_vars
redis-absent none = refl
redis-absent (some mem) =
    redis-names (lt64 0 mem.ttl_seconds) (lt64 0 mem.max_entries)
      (secret_key mem.secret_ref.name "REDIS_URL") (itoa mem.ttl_seconds) (itoa mem.max_entries)

vector_store-names :
    (ref : Option LocalObjectReference) (ttl : Bool) (provider endpoint collection seconds : String)
    → last_value backend_name (
        (env "AGENT_MEMORY_VECTOR_STORE_PROVIDER" provider
          ∷ env "AGENT_MEMORY_VECTOR_STORE_ENDPOINT" endpoint
          ∷ env "AGENT_MEMORY_VECTOR_STORE_COLLECTION" collection
          ∷ [])
        ++ ((elim ref as (λ r. List EnvVar) [
          | none ↦ []
          | some r ↦
              record {
                name = "AGENT_MEMORY_VECTOR_STORE_API_KEY";
                source = secret_key r.name "VECTOR_STORE_API_KEY";
              }
              ∷ []
        ])
            ++ env_if ttl (env "AGENT_MEMORY_VECTOR_STORE_TTL" seconds)))
      ≡ none
vector_store-names none true provider endpoint collection seconds = refl
vector_store-names none false provider endpoint collection seconds = refl
vector_store-names (some r) true provider endpoint collection seconds = refl
vector_store-names (some r) false provider endpoint collection seconds = refl

vector_store-absent :
    (config : Option VectorStoreMemoryConfig)
    → last_value backend_name (build_vector_store_memory_env_vars config) ≡ none
unfolding build_vector_store_memory_env_vars
vector_store-absent none = refl
vector_store-absent (some vs) =
    vector_store-names vs.secret_ref (lt64 0 vs.ttl_seconds) (provider_text vs.provider) vs.endpoint
      vs.collection (itoa vs.ttl_seconds)

backend-absent :
    (b : MemoryBackend) (mem : ArkMemory) → last_value backend_name (backend_env_vars b mem) ≡ none
unfolding backend_env_vars
backend-absent no_backend mem = refl
backend-absent in_context mem = refl
backend-absent redis mem = redis-absent mem.spec.redis
backend-absent vector_store mem = vector_store-absent mem.spec.vector_store

memory-last :
    (mem : ArkMemory)
    → last_value backend_name (build_memory_env_vars (some mem))
      ≡ some (literal (backend_text mem.spec.backend))
unfolding build_memory_env_vars
memory-last mem =
    last_value-last backend_name (env backend_name (backend_text mem.spec.backend))
      (backend_env_vars mem.spec.backend mem) (backend-absent mem.spec.backend mem)

last_value-fourth :
    (name : String) (a b c xs ys : List EnvVar) (v : EnvSource)
    → last_value name xs ≡ some v
    → last_value name ys ≡ none
    → last_value name (a ++ (b ++ (c ++ (xs ++ ys)))) ≡ some v
last_value-fourth name a b c xs ys v h gone =
    last_value-append_some name a (b ++ (c ++ (xs ++ ys))) v (
      last_value-append_some name b (c ++ (xs ++ ys)) v
        (last_value-append_some name c (xs ++ ys) v (last_value-append_none name xs ys gone ∙ h)))

pub tools-absent :
    (servers : List McpServerSpec → String) (marshal : List WebhookToolSpec → String)
    (tools : List WebhookToolSpec)
    → (last_value backend_name (tool_env_vars servers marshal tools) ≡ none)
      × (last_value redis_name (tool_env_vars servers marshal tools) ≡ none)
unfolding tool_env_vars
tools-absent servers marshal [] = (refl, refl)
tools-absent servers marshal (tool ∷ tools) = (refl, refl)

-- A variable that the memory sets is seen in the whole environment, unless it is that of the tools.
pub last_value-memory :
    (servers : List McpServerSpec → String) (marshal : List WebhookToolSpec → String)
    (agent : ArkAgent) (settings : Option ArkSettings) (mem : ArkMemory) (prompt name : String)
    (v : EnvSource)
    → last_value name (build_memory_env_vars (some mem)) ≡ some v
    → last_value name (tool_env_vars servers marshal agent.spec.tools) ≡ none
    → last_value name (build_env_vars servers marshal agent settings (some mem) prompt) ≡ some v
unfolding build_env_vars
last_value-memory servers marshal agent settings mem prompt name v sets gone =
    last_value-fourth name (base_env_vars servers marshal agent settings prompt)
      (probe_env_vars agent.spec.liveness_probe) (build_settings_env_vars settings)
      (build_memory_env_vars (some mem)) (tool_env_vars servers marshal agent.spec.tools) v sets
      gone

module _ (servers : List McpServerSpec → String) (marshal : List WebhookToolSpec → String)
    (agent : ArkAgent) (settings : Option ArkSettings) (mem : ArkMemory) (prompt : String) where
  -- With a memory, the container's backend is that of the memory, whatever backend the settings name:
  -- the last variable of the name counts.
  pub build_env_vars-last_value :
      last_value "AGENT_MEMORY_BACKEND"
        (build_env_vars servers marshal agent settings (some mem) prompt)
      ≡ some (literal (backend_text mem.spec.backend))
  build_env_vars-last_value =
      last_value-memory servers marshal agent settings mem prompt backend_name
        (literal (backend_text mem.spec.backend)) (memory-last mem)
        (tools-absent servers marshal agent.spec.tools).0
