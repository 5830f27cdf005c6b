-- ===== src/Api/Memory.antt =====
-- api/v1alpha1/arkmemory_types.go: the ArkMemory kind.
use arkonis_operator.Prelude.{String, Option, List}
use arkonis_operator.Prelude.Words.{Int64}
use arkonis_operator.Api.Meta.{Time, Condition}
use arkonis_operator.Api.Settings.{MemoryBackend}

-- api/v1alpha1/arkagent_types.go declares this one.
pub record LocalObjectReference : Type 0 where
  pub name : String

pub data VectorStoreProvider : Type 0 where
  qdrant pinecone weaviate : VectorStoreProvider

pub record RedisMemoryConfig : Type 0 where
  pub secret_ref : LocalObjectReference
  pub ttl_seconds : Int64
  pub max_entries : Int64

pub record VectorStoreMemoryConfig : Type 0 where
  pub provider : VectorStoreProvider
  pub endpoint : String
  pub collection : String
  pub secret_ref : Option LocalObjectReference
  pub ttl_seconds : Int64

pub record ArkMemorySpec : Type 0 where
  pub backend : MemoryBackend
  pub redis : Option RedisMemoryConfig
  pub vector_store : Option VectorStoreMemoryConfig

pub record ArkMemoryStatus : Type 0 where
  pub observed_generation : Int64
  pub conditions : List Condition

pub record ArkMemory : Type 0 where
  pub name : String
  pub namespace : String
  pub generation : Int64
  pub deletion_timestamp : Option Time
  pub spec : ArkMemorySpec
  pub status : ArkMemoryStatus
