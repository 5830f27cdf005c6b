-- ===== src/Controller/AgentEnv/Names.antt =====
-- internal/controller/arkagent_controller.go: the names of the variables of a container.
use arkonis_operator.Prelude.{
  String, Option, none, some, List, [], ◌∷◌, ◌++◌, ◌≡◌, refl, sym, ◌∙◌, arith, Bool, true, false,
  ◌||◌, not, ◌==◌, if◌then◌else◌, All, All-append, Bool-cases, Option-cases, inl, inr, eq_iff,
}
use arkonis_operator.Prelude.Words.{lt64}
use arkonis_operator.Prelude.Decimal.{itoa}
use arkonis_operator.Api.Settings.{
  MemoryBackend, no_backend, in_context, vector_store, redis, ArkSettings,
}
use arkonis_operator.Api.Memory.{
  ArkMemory, RedisMemoryConfig, VectorStoreMemoryConfig, LocalObjectReference,
}
use arkonis_operator.Api.Agent.{
  ArkAgent, ArkonisProbe, ProbeType, semantic, ping, McpServerSpec, WebhookToolSpec,
}
use arkonis_operator.Controller.AgentEnv.{
  provider_text, env, EnvSource, secret_key, EnvVar, env_if, backend_text,
  build_redis_memory_env_vars, build_vector_store_memory_env_vars, backend_env_vars,
  build_settings_env_vars, build_memory_env_vars, probe_env_vars, tool_env_vars, base_env_vars,
  build_env_vars,
}
use arkonis_operator.Controller.AgentEnv.Backend.{
  last_value, last_value-append_none, last_value-append_some, last_value-last,
}

unfoldable pub contains : String → List String → Bool
contains name [] = false
contains name (n ∷ names) = n == name || contains name names

-- The names of the variables after those of every agent, less that of the tools.
abbrev pub extra_names : List String
extra_names =
    "AGENT_VALIDATOR_PROMPT" ∷ "AGENT_TEMPERATURE" ∷ "AGENT_OUTPUT_FORMAT" ∷ "AGENT_MEMORY_BACKEND"
    ∷ "AGENT_MEMORY_REDIS_URL" ∷ "AGENT_MEMORY_REDIS_TTL" ∷ "AGENT_MEMORY_REDIS_MAX_ENTRIES"
    ∷ "AGENT_MEMORY_VECTOR_STORE_PROVIDER" ∷ "AGENT_MEMORY_VECTOR_STORE_ENDPOINT"
    ∷ "AGENT_MEMORY_VECTOR_STORE_COLLECTION" ∷ "AGENT_MEMORY_VECTOR_STORE_API_KEY"
    ∷ "AGENT_MEMORY_VECTOR_STORE_TTL" ∷ []

abbrev IsExtra : EnvVar → Type 0
IsExtra var = contains var.name extra_names ≡ true

contains-other :
    (a b : String) (names : List String)
    → contains a names ≡ true
    → contains b names ≡ false
    → (a == b) ≡ false
contains-other a b names known other = elim (Bool-cases (a == b)) [
  | inl same ↦ ground (arith, eq_iff a b)
  | inr differs ↦ differs
]

if-other : (test : Bool) (x : Option EnvSource) → test ≡ false → (if test then x else none) ≡ none
if-other test x h = ground arith

last_value-none :
    (name : String) (names : List String) (vars : List EnvVar)
    → All (λ v. contains v.name names ≡ true) vars
    → contains name names ≡ false
    → last_value name vars ≡ none
last_value-none name names [] known other = refl
last_value-none name names (var ∷ vars) known other =
    last_value-last name var vars (last_value-none name names vars known.1 other)
    ∙ if-other (var.name == name) (some var.source)
        (contains-other var.name name names known.0 other)

IsExtra-env_if : (test : Bool) (var : EnvVar) → IsExtra var → All IsExtra (env_if test var)
IsExtra-env_if true var known = (known, tt)
IsExtra-env_if false var known = tt

IsExtra-typed :
    (type : ProbeType) (prompt : String)
    → All IsExtra (elim type as (λ t. List EnvVar) [
      | ping ↦ []
      | semantic ↦ env_if (not (prompt == "")) (env "AGENT_VALIDATOR_PROMPT" prompt)
    ])
unfolding contains
IsExtra-typed ping prompt = tt
IsExtra-typed semantic prompt =
    IsExtra-env_if (not (prompt == "")) (env "AGENT_VALIDATOR_PROMPT" prompt) refl

IsExtra-probe : (probe : Option ArkonisProbe) → All IsExtra (probe_env_vars probe)
unfolding probe_env_vars contains
IsExtra-probe none = tt
IsExtra-probe (some probe) = IsExtra-typed probe.type probe.validator_prompt

IsExtra-settings : (settings : Option ArkSettings) → All IsExtra (build_settings_env_vars settings)
unfolding build_settings_env_vars contains
IsExtra-settings none = tt
IsExtra-settings (some settings) =
    let temperature = env "AGENT_TEMPERATURE" settings.spec.temperature in
    let format = env "AGENT_OUTPUT_FORMAT" settings.spec.output_format in
    let backend = env "AGENT_MEMORY_BACKEND" (backend_text settings.spec.memory_backend) in
    All-append IsExtra (env_if (not (settings.spec.temperature == "")) temperature) _
      (IsExtra-env_if (not (settings.spec.temperature == "")) temperature refl)
      (All-append IsExtra (env_if (not (settings.spec.output_format == "")) format) _
        (IsExtra-env_if (not (settings.spec.output_format == "")) format refl)
        (IsExtra-env_if (not (backend_text settings.spec.memory_backend == "")) backend refl))

IsExtra-redis :
    (config : Option RedisMemoryConfig) → All IsExtra (build_redis_memory_env_vars config)
unfolding build_redis_memory_env_vars contains
IsExtra-redis none = tt
IsExtra-redis (some mem) =
    let ttl = env "AGENT_MEMORY_REDIS_TTL" (itoa mem.ttl_seconds) in
    let max = env "AGENT_MEMORY_REDIS_MAX_ENTRIES" (itoa mem.max_entries) in
    (
      refl,
      All-append IsExtra (env_if (lt64 0 mem.ttl_seconds) ttl) (env_if (lt64 0 mem.max_entries) max)
          (IsExtra-env_if (lt64 0 mem.ttl_seconds) ttl refl)
          (IsExtra-env_if (lt64 0 mem.max_entries) max refl),
    )

IsExtra-store :
    (ref : Option LocalObjectReference) (test : Bool)
    (provider endpoint collection seconds : String)
    → All IsExtra (
        (env "AGENT_MEMORY_VECTOR_STORE_PROVIDER" provider
          ∷ env "AGENT_MEMORY_VECTOR_STORE_ENDPOINT" endpoint
          ∷ env "AGENT_MEMORY_VECTOR_STORE_COLLECTION" collection
          ∷ [])
        ++ ((elim ref as (λ r. List EnvVar) [
          | none ↦ []
          | some r ↦
              record {
                name = "AGENT_MEMORY_VECTOR_STORE_API_KEY";
                source = secret_key r.name "VECTOR_STORE_API_KEY";
              }
              ∷ []
        ])
            ++ env_if test (env "AGENT_MEMORY_VECTOR_STORE_TTL" seconds)))
unfolding contains
IsExtra-store none test provider endpoint collection seconds =
    (refl, (refl, (refl, IsExtra-env_if test (env "AGENT_MEMORY_VECTOR_STORE_TTL" seconds) refl)))
IsExtra-store (some ref) test provider endpoint collection seconds = (
  refl,
  (refl, (refl, (refl, IsExtra-env_if test (env "AGENT_MEMORY_VECTOR_STORE_TTL" seconds) refl))),
)

IsExtra-vector_store :
    (config : Option VectorStoreMemoryConfig)
    → All IsExtra (build_vector_store_memory_env_vars config)
unfolding build_vector_store_memory_env_vars
IsExtra-vector_store none = tt
IsExtra-vector_store (some vs) =
    IsExtra-store vs.secret_ref (lt64 0 vs.ttl_seconds) (provider_text vs.provider) vs.endpoint
      vs.collection (itoa vs.ttl_seconds)

IsExtra-backend :
    (backend : MemoryBackend) (mem : ArkMemory) → All IsExtra (backend_env_vars backend mem)
unfolding backend_env_vars
IsExtra-backend no_backend mem = tt
IsExtra-backend in_context mem = tt
IsExtra-backend redis mem = IsExtra-redis mem.spec.redis
IsExtra-backend vector_store mem = IsExtra-vector_store mem.spec.vector_store

IsExtra-memory : (mem : Option ArkMemory) → All IsExtra (build_memory_env_vars mem)
unfolding build_memory_env_vars contains
IsExtra-memory none = tt
IsExtra-memory (some mem) = (refl, IsExtra-backend mem.spec.backend mem)

module _ (marshal_servers : List McpServerSpec → String)
    (marshal_tools : List WebhookToolSpec → String) (agent : ArkAgent)
    (settings : Option ArkSettings) (mem : Option ArkMemory) (prompt : String) where
  abbrev pub tools : List EnvVar
  tools = tool_env_vars marshal_servers marshal_tools agent.spec.tools

  last_value-left :
      (name : String) (xs ys : List EnvVar)
      → last_value name xs ≡ none
      → last_value name (xs ++ ys) ≡ last_value name ys
  last_value-left name xs ys h = elim (Option-cases (last_value name ys)) [
    | inl e ↦ last_value-append_none name xs ys e ∙ h ∙ sym e
    | inr (v, e) ↦ last_value-append_some name xs ys v e ∙ sym e
  ]

  -- A name that is no extra one has the value that the tools or the first variables give it.
  module _ (name : String) (other : contains name extra_names ≡ false) where
    last_value-extra :
        last_value name (
          probe_env_vars agent.spec.liveness_probe
          ++ (build_settings_env_vars settings ++ (build_memory_env_vars mem ++ tools)))
        ≡ last_value name tools
    last_value-extra =
        last_value-left name (probe_env_vars agent.spec.liveness_probe) _ (
          last_value-none name extra_names (probe_env_vars agent.spec.liveness_probe)
            (IsExtra-probe agent.spec.liveness_probe) other)
        ∙ last_value-left name (build_settings_env_vars settings) _ (
            last_value-none name extra_names (build_settings_env_vars settings)
              (IsExtra-settings settings) other)
        ∙ last_value-left name (build_memory_env_vars mem) tools (
            last_value-none name extra_names (build_memory_env_vars mem) (IsExtra-memory mem) other)

    pub last_value-base :
        last_value name tools ≡ none
        → last_value name (build_env_vars marshal_servers marshal_tools agent settings mem prompt)
          ≡ last_value name (base_env_vars marshal_servers marshal_tools agent settings prompt)
    unfolding build_env_vars
    last_value-base no_tools =
        last_value-append_none name
          (base_env_vars marshal_servers marshal_tools agent settings prompt) _
          (last_value-extra ∙ no_tools)

    pub last_value-tools :
        (v : EnvSource)
        → last_value name tools ≡ some v
        → last_value name (build_env_vars marshal_servers marshal_tools agent settings mem prompt)
          ≡ some v
    unfolding build_env_vars
    last_value-tools v has_tools =
        last_value-append_some name
          (base_env_vars marshal_servers marshal_tools agent settings prompt) _ v
          (last_value-extra ∙ has_tools)
