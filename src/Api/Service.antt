-- ===== src/Api/Service.antt =====
-- api/v1alpha1/arkservice_types.go: the ArkService kind.
use arkonis_operator.Prelude.{ℕ, String, Option, List}
use arkonis_operator.Prelude.Words.{Int64}
use arkonis_operator.Api.Meta.{Time, Condition}

pub data RoutingStrategy : Type 0 where
  round_robin least_busy random : RoutingStrategy

pub data AgentProtocol : Type 0 where
  a2a http : AgentProtocol

-- `port` is an `int32`.
pub record ArkServicePort : Type 0 where
  pub protocol : AgentProtocol
  pub port : ℕ

-- `ark_agent` is the name in the selector.
pub record ArkServiceSpec : Type 0 where
  pub ark_agent : String
  pub strategy : RoutingStrategy
  pub ports : List ArkServicePort

pub record ArkServiceStatus : Type 0 where
  pub ready_replicas : ℕ
  pub observed_generation : Int64
  pub conditions : List Condition

pub record ArkService : Type 0 where
  pub name : String
  pub namespace : String
  pub generation : Int64
  pub deletion_timestamp : Option Time
  pub spec : ArkServiceSpec
  pub status : ArkServiceStatus
