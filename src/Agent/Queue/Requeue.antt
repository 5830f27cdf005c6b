-- ===== src/Agent/Queue/Requeue.antt =====
-- A task that is put back reads as itself, one attempt later.
use arkonis_operator.Prelude.{◌+◌, ◌<◌, String, none, some, [], ◌∷◌, ◌≡◌, ◌≢◌, refl, ap, ◌∙◌, arith}
use text.Mathlib.TextEquality.{eq_iff}
use arkonis_operator.Prelude.Words.{Int64, add64, half}
use arkonis_operator.Prelude.Decimal.{itoa, atoi, atoi-itoa}
use arkonis_operator.Prelude.Map.{Map, lookup, insert, lookup_or, lookup_or-insert}
use arkonis_operator.Agent.Queue.{Task, meta_of, to_task, attempt_of, add_meta, requeue_values}

attempt_ne_prompt : ◌≢◌ {A = String} "attempt" "prompt"
attempt_ne_prompt = ground (arith, eq_iff "attempt" "prompt")

lookup_or-add_meta_attempt :
    (meta values : Map String)
    → lookup_or "" "attempt" (add_meta meta values) ≡ lookup_or "" "attempt" values
unfolding add_meta
lookup_or-add_meta_attempt [] values = refl
lookup_or-add_meta_attempt ((key, val) ∷ meta) values = ground (
  arith,
  eq_iff key "attempt",
  lookup_or-insert "" key "attempt" val values,
  lookup_or-add_meta_attempt meta values,
  lookup_or-add_meta_attempt meta (insert key val values),
)

-- Apart from the prompt, the metadata of a task are the values of its message.
lookup_or-meta_of :
    (key : String) (values : Map String)
    → key ≢ "prompt"
    → lookup_or "" key (meta_of values) ≡ lookup_or "" key values
unfolding meta_of lookup_or lookup
lookup_or-meta_of key [] other = refl
lookup_or-meta_of key ((name, val) ∷ values) other =
    ground (arith, eq_iff name key, eq_iff name "prompt", lookup_or-meta_of key values other)

-- The metadata of a task that was polled hold no prompt.
pub lookup-meta_of_prompt : (values : Map String) → lookup "prompt" (meta_of values) ≡ none
unfolding meta_of lookup
lookup-meta_of_prompt [] = refl
lookup-meta_of_prompt ((name, val) ∷ values) =
    ground (arith, eq_iff name "prompt", lookup-meta_of_prompt values)

lookup_or-add_meta_prompt :
    (meta values : Map String)
    → lookup "prompt" meta ≡ none
    → lookup_or "" "prompt" (add_meta meta values) ≡ lookup_or "" "prompt" values
unfolding add_meta lookup
lookup_or-add_meta_prompt [] values h = refl
lookup_or-add_meta_prompt ((key, val) ∷ meta) values h = ground (
  arith,
  eq_iff key "attempt",
  eq_iff key "prompt",
  lookup_or-insert "" key "prompt" val values,
  lookup_or-add_meta_prompt meta values,
  lookup_or-add_meta_prompt meta (insert key val values),
)

fresh_values :
    (prompt attempt : String)
    → let values : Map String = ("prompt", prompt) ∷ ("attempt", attempt) ∷ [] in
      (lookup_or "" "prompt" values ≡ prompt) × (lookup_or "" "attempt" values ≡ attempt)
unfolding lookup_or lookup
fresh_values prompt attempt = (refl, refl)

-- The task that is read from an entry that `Nack` put back.
abbrev pub again : String → Task → Int64 → Task
again id task attempt = to_task (record { id = id; values = requeue_values task attempt })

again-meta :
    (id : String) (task : Task) (attempt : Int64)
    → lookup_or "" "attempt" (again id task attempt).meta ≡ itoa (add64 attempt 1)
unfolding to_task requeue_values
again-meta id task attempt =
    lookup_or-meta_of "attempt" _ attempt_ne_prompt
    ∙ lookup_or-add_meta_attempt task.meta _
    ∙ (fresh_values task.prompt (itoa (add64 attempt 1))).1

attempt_of-read :
    (task : Task) (n : Int64)
    → atoi (lookup_or "" "attempt" task.meta) ≡ some n
    → attempt_of task ≡ n
unfolding attempt_of
attempt_of-read task n e = rw (e, attempt_of) refl

-- The attempt of a task that is put back is one more, while that is a positive 64-bit integer.
pub attempt_of-again :
    (id : String) (task : Task) (attempt : Int64)
    → attempt + 1 < half
    → attempt_of (again id task attempt) ≡ attempt + 1
attempt_of-again id task attempt small = attempt_of-read (again id task attempt) (attempt + 1) (
    ap atoi (again-meta id task attempt)
    ∙ ap (λ k. atoi (itoa k)) (omega arith)
    ∙ atoi-itoa (attempt + 1) small)

pub again-prompt :
    (id : String) (task : Task) (attempt : Int64)
    → lookup "prompt" task.meta ≡ none
    → (again id task attempt).prompt ≡ task.prompt
unfolding to_task requeue_values
again-prompt id task attempt h =
    lookup_or-add_meta_prompt task.meta _ h ∙ (fresh_values task.prompt (itoa (add64 attempt 1))).0

pub again-meta_prompt :
    (id : String) (task : Task) (attempt : Int64)
    → lookup "prompt" (again id task attempt).meta ≡ none
unfolding to_task
again-meta_prompt id task attempt = lookup-meta_of_prompt (requeue_values task attempt)
