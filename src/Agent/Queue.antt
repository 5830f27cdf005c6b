-- ===== src/Agent/Queue.antt =====
-- internal/agent/queue/queue.go: the queue of tasks on Redis streams. A client of Redis is a
-- parameter; it sends and returns the values of an entry as texts. `ReadReply` has the three ends of
-- `XReadGroup`: `redis.Nil`, another error, the streams read.
pub mod Requeue
pub mod Retries
use arkonis_operator.Prelude.{
  ℕ, String, Option, none, some, List, [], ◌∷◌, Bool, true, false, ◌==◌, if◌then◌else◌,
}
use arkonis_operator.Prelude.Words.{Int64, lt64, add64}
use arkonis_operator.Prelude.Decimal.{itoa, atoi}
use arkonis_operator.Prelude.Map.{Map, insert, lookup_or}
use arkonis_operator.Prelude.Text.{◌<>◌}
use arkonis_operator.Api.Meta.{format, str, msg, end, Result, ok, err}
use arkonis_operator.Agent.Streams.{Redis, Entry, ReadReply, nil, failed, read}

pub record Task : Type 0 where
  pub id : String
  pub prompt : String
  pub meta : Map String

pub record TokenUsage : Type 0 where
  pub input_tokens : Int64
  pub output_tokens : Int64

-- `Queue` without its client.
pub record Queue : Type 0 where
  pub stream : String
  pub group : String
  pub consumer : String
  pub max_retries : Int64

-- `env` is the value of POD_NAME.
unfoldable pub pod_name : String → String
pod_name env = if env == "" then "agent-local" else env

-- The loop over the values of a message.
unfoldable pub meta_of : Map String → Map String
meta_of [] = []
meta_of ((key, val) ∷ values) =
    let rest = meta_of values in if key == "prompt" then rest else (key, val) ∷ rest

unfoldable pub to_task : Entry → Task
to_task entry = record {
  id = entry.id;
  prompt = lookup_or "" "prompt" entry.values;
  meta = meta_of entry.values;
}

unfoldable pub first_task : List (List Entry) → Option Task
first_task [] = none
first_task ([] ∷ _) = none
first_task ((entry ∷ _) ∷ _) = some (to_task entry)

unfoldable pub attempt_of : Task → Int64
attempt_of task = elim (atoi (lookup_or "" "attempt" task.meta)) [ none ↦ 0 | some a ↦ a ]

-- The loop over the other keys of `task.Meta`.
unfoldable pub add_meta : Map String → Map String → Map String
add_meta [] values = values
add_meta ((key, val) ∷ meta) values =
    add_meta meta (if key == "attempt" then values else insert key val values)

-- The values of a task that is put back, at its next attempt.
unfoldable pub requeue_values : Task → Int64 → Map String
requeue_values task attempt =
    add_meta task.meta (("prompt", task.prompt) ∷ ("attempt", itoa (add64 attempt 1)) ∷ [])

unfoldable pub dead_values : Task → String → Int64 → Map String
dead_values task reason attempt =
    ("task_id", task.id)
    ∷ ("prompt", task.prompt)
    ∷ ("error", reason)
    ∷ ("attempt", itoa attempt)
    ∷ []

module _ (redis : Redis) where
  open redis use {State, x_group_create, x_add, x_ack, x_read_group}

  unfoldable pub new : String → Int64 → State → State × Queue
  new env max_retries db = (
    x_group_create db "agent-tasks" "agent-workers",
    record {
      stream = "agent-tasks";
      group = "agent-workers";
      consumer = pod_name env;
      max_retries = max_retries;
    },
  )

  unfoldable pub poll : Queue → State → State × Result (Option Task)
  poll q db =
      let (db', reply) = x_read_group db q.group q.consumer q.stream in
      (
        db',
        elim reply [ nil ↦ ok none | failed e ↦ err e | read streams ↦ ok (first_task streams) ],
      )

  unfoldable pub submit : Queue → String → State → State × Result String
  submit q prompt db =
      let (db', reply) = x_add db q.stream (("prompt", prompt) ∷ []) in
      (
        db',
        elim reply [
          | ok id ↦ ok id
          | err e ↦ err (format "XADD %s: %w" (str q.stream (msg e end)))
        ],
      )

  unfoldable pub ack : Queue → String → String → TokenUsage → State → State
  ack q task_id result usage db =
      (x_add (x_ack db q.stream q.group task_id) (q.stream <> "-results") (
        ("task_id", task_id)
        ∷ ("result", result)
        ∷ ("input_tokens", itoa usage.input_tokens)
        ∷ ("output_tokens", itoa usage.output_tokens)
        ∷ [])).0

  unfoldable pub nack : Queue → Task → String → State → State
  nack q task reason db =
      let attempt = attempt_of task in
      let acked = x_ack db q.stream q.group task.id in
      if lt64 attempt q.max_retries
      then (x_add acked q.stream (requeue_values task attempt)).0
      else (x_add acked (q.stream <> "-dead") (dead_values task reason attempt)).0
