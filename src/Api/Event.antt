-- ===== src/Api/Event.antt =====
-- api/v1alpha1/arkevent_types.go: the ArkEvent kind.
use arkonis_operator.Prelude.{String, Option, List, Bool}
use arkonis_operator.Prelude.Words.{Int64}
use arkonis_operator.Prelude.Map.{Map}
use arkonis_operator.Api.Meta.{Time, Condition}
use arkonis_operator.Api.Flow.{ArkFlowPhase}

-- `unknown` is any other string.
pub data TriggerSourceType : Type 0 where
  cron webhook pipeline_output : TriggerSourceType
  unknown : String → TriggerSourceType

-- `Allow` also stands for the empty string, which the code treats alike.
pub data ConcurrencyPolicy : Type 0 where
  allow forbid : ConcurrencyPolicy

pub record PipelineOutputSource : Type 0 where
  pub name : String
  pub on_phase : ArkFlowPhase

pub record ArkEventSource : Type 0 where
  pub type : TriggerSourceType
  pub cron : String
  pub pipeline_output : Option PipelineOutputSource

pub record ArkEventTarget : Type 0 where
  pub pipeline : String
  pub input : Map String

pub record ArkEventSpec : Type 0 where
  pub source : ArkEventSource
  pub targets : List ArkEventTarget
  pub concurrency_policy : ConcurrencyPolicy
  pub suspended : Bool

pub record ArkEventStatus : Type 0 where
  pub last_fired_at : Option Time
  pub next_fire_at : Option Time
  pub fired_count : Int64
  pub webhook_url : String
  pub observed_generation : Int64
  pub conditions : List Condition

pub record ArkEvent : Type 0 where
  pub name : String
  pub namespace : String
  pub generation : Int64
  pub deletion_timestamp : Option Time
  pub spec : ArkEventSpec
  pub status : ArkEventStatus
