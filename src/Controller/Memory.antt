-- ===== src/Controller/Memory.antt =====
-- internal/controller/arkmemory_controller.go: the check of a memory, and its `Reconcile`.
use arkonis_operator.Prelude.{String, Option, none, some, List, [], ◌∷◌, ◌==◌, if◌then◌else◌}
use arkonis_operator.Api.Meta.{
  Message, text, format, str, end, ConditionStatus, condition_true, condition_false,
}
use arkonis_operator.Api.Settings.{no_backend, in_context, vector_store, redis}
use arkonis_operator.Api.Memory.{RedisMemoryConfig, VectorStoreMemoryConfig, ArkMemory}
use arkonis_operator.Controller.Conditions.{Conditions}
use arkonis_operator.Controller.FlowReconcile.{Fetched, found, not_found, unavailable}

unfoldable pub validate_redis : Option RedisMemoryConfig → Option Message
validate_redis none = some (format "spec.redis is required when backend is %q" (str "redis" end))
validate_redis (some mem) =
    if mem.secret_ref.name == "" then some (text "spec.redis.secretRef.name is required") else none

unfoldable pub validate_vector_store : Option VectorStoreMemoryConfig → Option Message
validate_vector_store none =
    some (format "spec.vectorStore is required when backend is %q" (str "vector-store" end))
validate_vector_store (some vs) =
    if vs.endpoint == "" then some (text "spec.vectorStore.endpoint is required") else none

-- `none` is no error.
unfoldable pub validate : ArkMemory → Option Message
validate mem = elim mem.spec.backend [
  | no_backend ↦ none
  | in_context ↦ none
  | redis ↦ validate_redis mem.spec.redis
  | vector_store ↦ validate_vector_store mem.spec.vector_store
]

unfoldable pub accept_memory :
    Conditions → ArkMemory → ConditionStatus → String → Message → ArkMemory
accept_memory c mem status reason message = record mem {
  status = record {
    observed_generation = mem.generation;
    conditions = c.set_status mem.status.conditions (record {
      type = "Ready";
      status = status;
      observed_generation = mem.generation;
      reason = reason;
      message = message;
    });
  };
}

unfoldable pub judge_memory : Conditions → ArkMemory → ArkMemory
judge_memory c mem = elim (validate mem) [
  | some e ↦ accept_memory c mem condition_false "InvalidSpec" e
  | none ↦ accept_memory c mem condition_true "Accepted" (text "ArkMemory is valid and available")
]

-- The statuses that a reconcile writes, and its error. `update` is the answer to the write.
unfoldable pub reconcile_memory :
    Conditions → (ArkMemory → Option Message) → Fetched ArkMemory → List ArkMemory × Option Message
reconcile_memory c update not_found = ([], none)
reconcile_memory c update (unavailable e) = ([], some e)
reconcile_memory c update (found mem) = elim mem.deletion_timestamp [
  | some _ ↦ ([], none)
  | none ↦ (judge_memory c mem ∷ [], update (judge_memory c mem))
]
