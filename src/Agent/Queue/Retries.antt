-- ===== src/Agent/Queue/Retries.antt =====
-- Where `Nack` puts a task, and how often a task is put back.
use arkonis_operator.Prelude.{
  ℕ, zero, suc, ◌+◌, ◌<◌, ◌≤◌, String, none, some, [], ◌∷◌, ◌++◌, ◌≡◌, ◌≢◌, refl, ap, ◌∙◌, arith,
  true, false, inl, inr, ◌⊎◌, Bool-cases,
}
use text.Mathlib.TextEquality.{eq_iff}
use arkonis_operator.Prelude.Words.{Int64, lt64, half}
use arkonis_operator.Prelude.Map.{Map, lookup}
use arkonis_operator.Prelude.Decimal.{itoa}
use arkonis_operator.Api.Meta.{ok}
use arkonis_operator.Agent.Streams.{Redis, Entry, IsStream}
use arkonis_operator.Agent.Queue.{Task, to_task, new, attempt_of, requeue_values, dead_values, nack}
use arkonis_operator.Agent.Queue.Requeue.{again, attempt_of-again, again-prompt, again-meta_prompt}

-- What an entry of the dead letters tells of a task.
abbrev pub IsBuried : Task → String → Map String → Type 0
IsBuried task reason values =
    (lookup "task_id" values ≡ some task.id)
    × (lookup "prompt" values ≡ some task.prompt)
    × (lookup "error" values ≡ some reason)
    × (lookup "attempt" values ≡ some (itoa (attempt_of task)))

dead_values-IsBuried :
    (task : Task) (reason : String)
    → IsBuried task reason (dead_values task reason (attempt_of task))
unfolding dead_values lookup
dead_values-IsBuried task reason = (refl, refl, refl, refl)

not_last : (a b : Int64) → a < half → lt64 a b ≡ true → a + 1 < half
not_last a b small left = ground arith

module _ (redis : Redis) (laws : IsStream redis) where
  open redis use {State, x_add, x_ack}
  open laws use {entries, added, others, acked}

  dead_ne_tasks : ◌≢◌ {A = String} "agent-tasks-dead" "agent-tasks"
  dead_ne_tasks = ground (arith, eq_iff "agent-tasks-dead" "agent-tasks")

  tasks_ne_dead : ◌≢◌ {A = String} "agent-tasks" "agent-tasks-dead"
  tasks_ne_dead = ground (arith, eq_iff "agent-tasks" "agent-tasks-dead")

  unchanged :
      (db : State) (task_id stream : String)
      → entries (x_ack db "agent-tasks" "agent-workers" task_id) stream ≡ entries db stream
  unchanged db task_id stream = acked db "agent-tasks" "agent-workers" task_id stream

  added_after :
      (db : State) (stream task_id id : String) (values : Map String)
      → let before = x_ack db "agent-tasks" "agent-workers" task_id in
        ((x_add before stream values).1 ≡ ok id)
        → entries (x_add before stream values).0 stream
          ≡ entries db stream ++ (record { id = id; values = values } ∷ [])
  added_after db stream task_id id values e =
      added (x_ack db "agent-tasks" "agent-workers" task_id) stream id values e
      ∙ ap (λ es. es ++ (record { id = id; values = values } ∷ [])) (unchanged db task_id stream)

  -- Where Redis takes every entry, a failed task without a second prompt goes to exactly one of two streams: while
  -- it has retries left, to the end of the tasks, where it is read with its prompt and at the next
  -- attempt, and otherwise to the end of the dead letters, with its identifier, its prompt, the reason
  -- and its attempt. The other stream stays as it is. The attempt is not negative.
  pub nack_lem :
      ((db : State) (stream : String) (values : Map String)
        → (id : String) × ((x_add db stream values).1 ≡ ok id))
      → (env reason : String) (max_retries : Int64) (task : Task) (db₀ db : State)
      → attempt_of task < half
      → lookup "prompt" task.meta ≡ none
      → let q = (new redis env max_retries db₀).1 in
        let after = nack redis q task reason db in
        (entry : Entry) × (((lt64 (attempt_of task) max_retries ≡ true)
            × (entries after "agent-tasks" ≡ entries db "agent-tasks" ++ (entry ∷ []))
            × (attempt_of (to_task entry) ≡ attempt_of task + 1)
            × ((to_task entry).prompt ≡ task.prompt)
            × (entries after "agent-tasks-dead" ≡ entries db "agent-tasks-dead"))
          ⊎ ((lt64 (attempt_of task) max_retries ≡ false)
              × (entries after "agent-tasks-dead" ≡ entries db "agent-tasks-dead" ++ (entry ∷ []))
              × IsBuried task reason entry.values
              × (entries after "agent-tasks" ≡ entries db "agent-tasks")))
  unfolding nack new
  nack_lem takes env reason max_retries task db₀ db small clean =
      let before = x_ack db "agent-tasks" "agent-workers" task.id in
      let attempt = attempt_of task in
      elim (Bool-cases (lt64 attempt max_retries)) [
        | inl more ↦
            let (id, e) = takes before "agent-tasks" (requeue_values task attempt) in
            (
              record { id = id; values = requeue_values task attempt },
              inl (
                more,
                rw more (added_after db "agent-tasks" task.id id (requeue_values task attempt) e),
                attempt_of-again id task attempt (not_last attempt max_retries small more),
                again-prompt id task attempt clean,
                rw more (
                    others before "agent-tasks" "agent-tasks-dead" (requeue_values task attempt)
                      tasks_ne_dead
                    ∙ unchanged db task.id "agent-tasks-dead"),
              ),
            )
        | inr last ↦
            let (id, e) = takes before "agent-tasks-dead" (dead_values task reason attempt) in
            (
              record { id = id; values = dead_values task reason attempt },
              inr (
                last,
                rw last (
                    added_after db "agent-tasks-dead" task.id id (dead_values task reason attempt)
                      e),
                dead_values-IsBuried task reason,
                rw last (
                    others before "agent-tasks-dead" "agent-tasks" (dead_values task reason attempt)
                      dead_ne_tasks
                    ∙ unchanged db task.id "agent-tasks"),
              ),
            )
      ]

still_left : (a b n : Int64) → b < half → a ≡ n → n ≤ b → lt64 a b ≡ true → n < b
still_left a b n small e bound left = ground arith

-- `n` times in a row, a task failed with retries left and was read again under some identifier.
pub data Retried (max_retries : Int64) (task : Task) : ℕ → Task → Type 0 where
  first : Retried max_retries task 0 task
  next :
      {n : ℕ} {t : Task} (id : String)
      → Retried max_retries task n t
      → lt64 (attempt_of t) max_retries ≡ true
      → Retried max_retries task (suc n) (again id t (attempt_of t))

-- A task that was put back `n` times since its first attempt is at attempt `n`, has its first prompt,
-- and `n` is at most `maxRetries`, where this is not negative.
pub attempt_of-Retried :
    (max_retries : Int64) (task t : Task) (n : ℕ)
    → max_retries < half
    → attempt_of task ≡ 0
    → lookup "prompt" task.meta ≡ none
    → Retried max_retries task n t
    → (attempt_of t ≡ n)
      × (n ≤ max_retries)
      × (t.prompt ≡ task.prompt)
      × (lookup "prompt" t.meta ≡ none)
attempt_of-Retried max_retries task t zero small fresh clean first =
    (fresh, omega arith, refl, clean)
attempt_of-Retried max_retries task t (suc n) small fresh clean (next {t = t'} id before left) =
    let (at, bound, same, clean') =
      attempt_of-Retried max_retries task t' n small fresh clean before in
    let room : n < max_retries = still_left (attempt_of t') max_retries n small at bound left in
    (
      attempt_of-again id t' (attempt_of t') (omega arith) ∙ omega arith,
      omega arith,
      again-prompt id t' (attempt_of t') clean' ∙ same,
      again-meta_prompt id t' (attempt_of t'),
    )
