-- ===== src/Agent/Config.antt =====
-- internal/agent/config/config.go: the configuration of an agent's runtime, which `Load` reads from the
-- environment. encoding/json and `os.Getenv` are parameters.
pub mod Reads
use arkonis_operator.Prelude.{
  ℕ, String, Option, none, some, List, [], ◌∷◌, map, ◌==◌, if◌then◌else◌,
}
use arkonis_operator.Prelude.Words.{Int64, mul64}
use arkonis_operator.Prelude.Decimal.{atoi}
use arkonis_operator.Prelude.Text.{◌<>◌}
use arkonis_operator.Api.Meta.{Message, text, format, str, msg, end, Result, ok, err, ◌>>=◌}
use arkonis_operator.Api.Agent.{McpServerSpec, WebhookToolSpec}

pub record McpServerConfig : Type 0 where
  pub name : String
  pub url : String

pub record WebhookToolConfig : Type 0 where
  pub name : String
  pub description : String
  pub url : String
  pub method : String
  pub input_schema : String

-- `AgentConfig` is the source's `Config`.
pub record AgentConfig : Type 0 where
  pub provider : String
  pub model : String
  pub system_prompt : String
  pub mcp_servers : List McpServerConfig
  pub max_tokens_per_call : Int64
  pub timeout_seconds : Int64
  pub task_queue_url : String
  pub validator_prompt : String
  pub max_retries : Int64
  pub webhook_tools : List WebhookToolConfig

-- The server of an agent as its runtime has it: the two types have the same JSON.
abbrev pub server_config : McpServerSpec → McpServerConfig
server_config s = record { name = s.name; url = s.url }

abbrev pub tool_config : WebhookToolSpec → WebhookToolConfig
tool_config t = record {
  name = t.name;
  description = t.description;
  url = t.url;
  method = t.method;
  input_schema = t.input_schema;
}

unfoldable pub task_timeout : AgentConfig → Int64
task_timeout cfg = mul64 cfg.timeout_seconds 1000000000

-- What decodes the two lists.
pub record ConfigJson : Type 0 where
  pub servers : String → Result (List McpServerConfig)
  pub tools : String → Result (List WebhookToolConfig)

module _ (getenv : String → String) where
  unfoldable pub require_env : String → Result String
  require_env key =
      if getenv key == ""
      then err (format "required env var %s is not set" (str key end))
      else ok (getenv key)

  abbrev pub read_int : String → String → Option Int64 → Result Int64
  read_int key v none =
      err (format ("invalid " <> key <> " %q: %w") (str v (msg (text "strconv.Atoi") end)))
  read_int key v (some n) = ok n

  -- The integer of a variable, or the default where it is empty. The text of the error of `strconv`
  -- is shortened to the name of its function.
  unfoldable pub int_env : String → Int64 → Result Int64
  int_env key default =
      let read = read_int key (getenv key) (atoi (getenv key)) in
      if getenv key == "" then ok default else read

  abbrev pub decoded : {A : Type 0} → String → Result A → Result A
  decoded key (err e) = err (format ("invalid " <> key <> " JSON: %w") (msg e end))
  decoded key (ok a) = ok a

  unfoldable pub list_env : {A : Type 0} → String → (String → Result (List A)) → Result (List A)
  list_env key decode =
      let read = decoded key (decode (getenv key)) in if getenv key == "" then ok [] else read

  unfoldable pub load : ConfigJson → Result AgentConfig
  unfolding require_env int_env list_env
  load json = require_env "AGENT_MODEL" >>= λ model.
      require_env "AGENT_SYSTEM_PROMPT" >>= λ system_prompt.
      require_env "TASK_QUEUE_URL" >>= λ queue_url.
      int_env "AGENT_MAX_TOKENS" 8000 >>= λ max_tokens.
      int_env "AGENT_TIMEOUT_SECONDS" 120 >>= λ timeout.
      list_env "AGENT_MCP_SERVERS" json.servers >>= λ servers.
      int_env "AGENT_MAX_RETRIES" 3 >>= λ max_retries.
      list_env "AGENT_WEBHOOK_TOOLS" json.tools >>= λ tools. ok (record {
        provider = getenv "AGENT_PROVIDER";
        model = model;
        system_prompt = system_prompt;
        mcp_servers = servers;
        max_tokens_per_call = max_tokens;
        timeout_seconds = timeout;
        task_queue_url = queue_url;
        validator_prompt = getenv "AGENT_VALIDATOR_PROMPT";
        max_retries = max_retries;
        webhook_tools = tools;
      })
