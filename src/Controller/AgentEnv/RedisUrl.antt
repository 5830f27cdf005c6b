-- ===== src/Controller/AgentEnv/RedisUrl.antt =====
-- internal/controller/arkagent_controller.go and internal/controller/arkmemory_controller.go: the address of Redis in a
-- container.
use arkonis_operator.Prelude.{
  String, Option, none, some, List, [], ◌∷◌, ◌++◌, ◌≡◌, ◌≢◌, refl, sym, ap, ◌∙◌, arith, Bool, true,
  false, eq_iff,
}
use arkonis_operator.Prelude.Words.{lt64}
use arkonis_operator.Prelude.Decimal.{itoa}
use arkonis_operator.Api.Settings.{no_backend, in_context, vector_store, redis, ArkSettings}
use arkonis_operator.Api.Memory.{ArkMemory, RedisMemoryConfig}
use arkonis_operator.Api.Meta.{Message}
use arkonis_operator.Api.Agent.{ArkAgent, McpServerSpec, WebhookToolSpec}
use arkonis_operator.Controller.Memory.{validate_redis, validate_vector_store, validate}
use arkonis_operator.Controller.AgentEnv.{
  env, EnvSource, secret_key, env_if, backend_text, build_redis_memory_env_vars, backend_env_vars,
  build_memory_env_vars, build_env_vars,
}
use arkonis_operator.Controller.AgentEnv.Backend.{
  backend_name, redis_name, last_value, last_value-append_some, tools-absent, last_value-memory,
}

redis-sets :
    (ttl max : Bool) (source : EnvSource) (seconds entries : String)
    → last_value redis_name (
        (record { name = redis_name; source = source } ∷ [])
        ++ (env_if ttl (env "AGENT_MEMORY_REDIS_TTL" seconds)
            ++ env_if max (env "AGENT_MEMORY_REDIS_MAX_ENTRIES" entries)))
      ≡ some source
redis-sets true true source seconds entries = refl
redis-sets true false source seconds entries = refl
redis-sets false true source seconds entries = refl
redis-sets false false source seconds entries = refl

-- The configuration of a Redis memory has a secret, which has a name, and the variable is that of the secret.
abbrev IsRedisUrl : Option RedisMemoryConfig → Option EnvSource → Type 0
IsRedisUrl config source =
    (c : RedisMemoryConfig) × (config ≡ some c)
    × (c.secret_ref.name ≢ "")
    × (source ≡ some (secret_key c.secret_ref.name "REDIS_URL"))

redis-url :
    (config : Option RedisMemoryConfig)
    → validate_redis config ≡ none
    → IsRedisUrl config (last_value redis_name (build_redis_memory_env_vars config))
unfolding validate_redis build_redis_memory_env_vars
redis-url none fine = absurd (ground arith)
redis-url (some c) fine = (
  c,
  refl,
  (λ e. ground (arith, eq_iff c.secret_ref.name "")),
  redis-sets (lt64 0 c.ttl_seconds) (lt64 0 c.max_entries)
      (secret_key c.secret_ref.name "REDIS_URL") (itoa c.ttl_seconds) (itoa c.max_entries),
)

-- What is valid for a Redis memory is so for its configuration.
validate-redis :
    (mem : ArkMemory)
    → mem.spec.backend ≡ redis
    → validate mem ≡ none
    → validate_redis mem.spec.redis ≡ none
unfolding validate
validate-redis mem is fine =
    ap
      (λ b. elim b as (λ k. Option Message) [
        | no_backend ↦ none
        | in_context ↦ none
        | redis ↦ validate_redis mem.spec.redis
        | vector_store ↦ validate_vector_store mem.spec.vector_store
      ])
      (sym is)
    ∙ fine

redis-memory :
    (mem : ArkMemory) (v : EnvSource)
    → mem.spec.backend ≡ redis
    → last_value redis_name (build_redis_memory_env_vars mem.spec.redis) ≡ some v
    → last_value redis_name (build_memory_env_vars (some mem)) ≡ some v
unfolding build_memory_env_vars backend_env_vars
redis-memory mem v is sets =
    last_value-append_some redis_name (env backend_name (backend_text mem.spec.backend) ∷ [])
      (backend_env_vars mem.spec.backend mem) v
      (ap (λ b. last_value redis_name (backend_env_vars b mem)) is ∙ sets)

module _ (servers : List McpServerSpec → String) (marshal : List WebhookToolSpec → String)
    (agent : ArkAgent) (settings : Option ArkSettings) (mem : ArkMemory) (prompt : String) where
  -- In the environment of a container with a Redis memory that is valid, the last address of Redis is the key
  -- REDIS_URL of the secret that the memory names, and that name is not empty.
  pub validate-last_value :
      mem.spec.backend ≡ redis
      → validate mem ≡ none
      → (config : RedisMemoryConfig) × (mem.spec.redis ≡ some config)
        × (config.secret_ref.name ≢ "")
        × (last_value "AGENT_MEMORY_REDIS_URL"
              (build_env_vars servers marshal agent settings (some mem) prompt)
            ≡ some (secret_key config.secret_ref.name "REDIS_URL"))
  validate-last_value is fine =
      let (config, has, named, sets) = redis-url mem.spec.redis (validate-redis mem is fine) in
      let url = secret_key config.secret_ref.name "REDIS_URL" in
      (
        config,
        has,
        named,
        last_value-memory servers marshal agent settings mem prompt redis_name url
            (redis-memory mem url is sets) (tools-absent servers marshal agent.spec.tools).1,
      )
