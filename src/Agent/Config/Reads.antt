-- ===== src/Agent/Config/Reads.antt =====
-- internal/agent/config/config.go: what `Load` reads of each variable.
use arkonis_operator.Prelude.{◌<◌, String, none, some, List, [], ◌≡◌, ◌≢◌, refl, sym, ap, ◌∙◌}
use arkonis_operator.Prelude.Words.{Int64, half}
use arkonis_operator.Prelude.Decimal.{itoa, atoi, read_digits, atoi-itoa}
use arkonis_operator.Prelude.Text.{full-test}
use arkonis_operator.Api.Meta.{Result, ok}
use arkonis_operator.Agent.Config.{
  McpServerConfig, WebhookToolConfig, ConfigJson, require_env, int_env, list_env, load,
}

atoi-empty : atoi "" ≡ none
unfolding atoi read_digits
atoi-empty = refl

absent : {A : Type 0} {a : A} → some a ≢ none
absent e = cc e

itoa-ne : (n : Int64) → n < half → itoa n ≢ ""
itoa-ne n small same = absent (sym (atoi-itoa n small) ∙ ap atoi same ∙ atoi-empty)

module _ (getenv : String → String) where
  pub require_env-ok : (key v : String) → getenv key ≡ v → v ≢ "" → require_env getenv key ≡ ok v
  unfolding require_env
  require_env-ok key v seen full = rw (seen, full-test v full) refl

  pub int_env-ok :
      (key : String) (default n : Int64)
      → n < half
      → getenv key ≡ itoa n
      → int_env getenv key default ≡ ok n
  unfolding int_env
  int_env-ok key default n small seen =
      rw (seen, full-test (itoa n) (itoa-ne n small), atoi-itoa n small) refl

  pub int_env-default :
      (key : String) (default : Int64) → getenv key ≡ "" → int_env getenv key default ≡ ok default
  unfolding int_env
  int_env-default key default empty = rw (empty) refl

  pub list_env-ok :
      {A : Type 0} (key : String) (decode : String → Result (List A)) (xs : List A) (v : String)
      → getenv key ≡ v
      → v ≢ ""
      → decode v ≡ ok xs
      → list_env getenv key decode ≡ ok xs
  unfolding list_env
  list_env-ok key decode xs v seen full decodes = rw (seen, full-test v full, decodes) refl

  pub list_env-empty :
      {A : Type 0} (key : String) (decode : String → Result (List A))
      → getenv key ≡ ""
      → list_env getenv key decode ≡ ok []
  unfolding list_env
  list_env-empty key decode empty = rw (empty) refl

  -- The reads of `load`, in their order.
  pub load-ok :
      (json : ConfigJson) (model system_prompt queue_url : String)
      (max_tokens timeout max_retries : Int64) (servers : List McpServerConfig)
      (tools : List WebhookToolConfig)
      → require_env getenv "AGENT_MODEL" ≡ ok model
      → require_env getenv "AGENT_SYSTEM_PROMPT" ≡ ok system_prompt
      → require_env getenv "TASK_QUEUE_URL" ≡ ok queue_url
      → int_env getenv "AGENT_MAX_TOKENS" 8000 ≡ ok max_tokens
      → int_env getenv "AGENT_TIMEOUT_SECONDS" 120 ≡ ok timeout
      → list_env getenv "AGENT_MCP_SERVERS" json.servers ≡ ok servers
      → int_env getenv "AGENT_MAX_RETRIES" 3 ≡ ok max_retries
      → list_env getenv "AGENT_WEBHOOK_TOOLS" json.tools ≡ ok tools
      → load getenv json
        ≡ ok (record {
          provider = getenv "AGENT_PROVIDER";
          model = model;
          system_prompt = system_prompt;
          mcp_servers = servers;
          max_tokens_per_call = max_tokens;
          timeout_seconds = timeout;
          task_queue_url = queue_url;
          validator_prompt = getenv "AGENT_VALIDATOR_PROMPT";
          max_retries = max_retries;
          webhook_tools = tools;
        })
  unfolding load
  load-ok json model system_prompt queue_url max_tokens timeout max_retries servers tools a b c d e
        f g h =
      rw (a, b, c, d, e, f, g, h) refl
