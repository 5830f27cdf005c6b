-- ===== src/Api/Agent.antt =====
-- api/v1alpha1/arkagent_types.go: the ArkAgent kind.
use arkonis_operator.Prelude.{ℕ, String, Option, List}
use arkonis_operator.Prelude.Words.{Int64}
use arkonis_operator.Api.Meta.{Time, Condition}
use arkonis_operator.Api.Flow.{TokenUsage}
use arkonis_operator.Api.Memory.{LocalObjectReference}

pub record McpServerSpec : Type 0 where
  pub name : String
  pub url : String

pub record WebhookToolSpec : Type 0 where
  pub name : String
  pub description : String
  pub url : String
  pub method : String
  pub input_schema : String

-- A key of a ConfigMap or a Secret (k8s.io/api).
pub record KeySelector : Type 0 where
  pub name : String
  pub key : String

pub record SystemPromptSource : Type 0 where
  pub config_map_key_ref : Option KeySelector
  pub secret_key_ref : Option KeySelector

pub record ArkonisLimits : Type 0 where
  pub max_tokens_per_call : Int64
  pub max_concurrent_tasks : Int64
  pub timeout_seconds : Int64
  pub max_daily_tokens : Int64

pub data ProbeType : Type 0 where
  semantic ping : ProbeType

pub record ArkonisProbe : Type 0 where
  pub type : ProbeType
  pub interval_seconds : Int64
  pub validator_prompt : String

-- `replicas` is an `int32`.
pub record ArkAgentSpec : Type 0 where
  pub replicas : Option ℕ
  pub model : String
  pub system_prompt : String
  pub system_prompt_ref : Option SystemPromptSource
  pub mcp_servers : List McpServerSpec
  pub limits : Option ArkonisLimits
  pub liveness_probe : Option ArkonisProbe
  pub config_ref : Option LocalObjectReference
  pub memory_ref : Option LocalObjectReference
  pub tools : List WebhookToolSpec

pub record ArkAgentStatus : Type 0 where
  pub ready_replicas : ℕ
  pub replicas : ℕ
  pub observed_generation : Int64
  pub daily_token_usage : Option TokenUsage
  pub conditions : List Condition

pub record ArkAgent : Type 0 where
  pub name : String
  pub namespace : String
  pub generation : Int64
  pub deletion_timestamp : Option Time
  pub spec : ArkAgentSpec
  pub status : ArkAgentStatus
