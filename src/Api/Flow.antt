-- ===== src/Api/Flow.antt =====
-- api/v1alpha1/arkflow_types.go: the ArkFlow kind.
use arkonis_operator.Prelude.{String, Option, List}
use arkonis_operator.Prelude.Words.{Int64}
use arkonis_operator.Prelude.Map.{Map}
use arkonis_operator.Api.Meta.{Time, Message, Condition}

pub record TokenUsage : Type 0 where
  pub input_tokens : Int64
  pub output_tokens : Int64
  pub total_tokens : Int64

pub data ArkFlowStepPhase : Type 0 where
  pending running succeeded failed skipped : ArkFlowStepPhase

pub record LoopSpec : Type 0 where
  pub condition : String
  pub max_iterations : Int64

-- `unset` is the empty string of a flow that no reconcile has touched.
pub data ArkFlowPhase : Type 0 where
  unset pending running succeeded failed : ArkFlowPhase

-- `if_expr` is the source's `If`.
pub record ArkFlowStep : Type 0 where
  pub name : String
  pub ark_agent : String
  pub inputs : Map String
  pub depends_on : List String
  pub output_schema : String
  pub if_expr : String
  pub loop : Option LoopSpec

pub record ArkFlowSpec : Type 0 where
  pub steps : List ArkFlowStep
  pub input : Map String
  pub output : String
  pub timeout_seconds : Int64
  pub max_tokens : Int64

pub record ArkFlowStepStatus : Type 0 where
  pub name : String
  pub phase : ArkFlowStepPhase
  pub task_id : String
  pub output : String
  pub output_json : String
  pub start_time : Option Time
  pub completion_time : Option Time
  pub message : Message
  pub iterations : Int64
  pub token_usage : Option TokenUsage

pub record ArkFlowStatus : Type 0 where
  pub phase : ArkFlowPhase
  pub steps : List ArkFlowStepStatus
  pub start_time : Option Time
  pub completion_time : Option Time
  pub output : String
  pub observed_generation : Int64
  pub total_token_usage : Option TokenUsage
  pub conditions : List Condition

-- Of the metadata, the fields that the program reads.
pub record ArkFlow : Type 0 where
  pub name : String
  pub namespace : String
  pub generation : Int64
  pub deletion_timestamp : Option Time
  pub spec : ArkFlowSpec
  pub status : ArkFlowStatus
