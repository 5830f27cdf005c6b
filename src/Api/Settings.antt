-- ===== src/Api/Settings.antt =====
-- api/v1alpha1/arksettings_types.go: the ArkSettings kind.
use arkonis_operator.Prelude.{String, Option, List}
use arkonis_operator.Prelude.Words.{Int64}
use arkonis_operator.Api.Meta.{Time, Condition}

-- `no_backend` is the empty string of a field left out.
pub data MemoryBackend : Type 0 where
  no_backend in_context vector_store redis : MemoryBackend

pub record PromptFragments : Type 0 where
  pub persona : String
  pub output_rules : String

pub record ArkSettingsSpec : Type 0 where
  pub temperature : String
  pub output_format : String
  pub memory_backend : MemoryBackend
  pub prompt_fragments : PromptFragments

pub record ArkSettingsStatus : Type 0 where
  pub observed_generation : Int64
  pub conditions : List Condition

pub record ArkSettings : Type 0 where
  pub name : String
  pub namespace : String
  pub generation : Int64
  pub deletion_timestamp : Option Time
  pub spec : ArkSettingsSpec
  pub status : ArkSettingsStatus
