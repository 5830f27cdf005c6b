-- ===== src/Tests/QueueTests.antt =====
-- Tasks that fail.
use arkonis_operator.Prelude.{
  ◌+◌, ◌<◌, ◌≤◌, String, none, List, [], ◌∷◌, ◌++◌, ◌≡◌, ◌⊎◌, refl, sym, subst, arith, true, false,
}
use arkonis_operator.Prelude.Decimal.{itoa, atoi, digits, read_digits}
use arkonis_operator.Prelude.Map.{lookup, lookup_or, insert}
use arkonis_operator.Prelude.Words.{lt64, half}
use arkonis_operator.Agent.Streams.{Entry}
use arkonis_operator.Agent.Queue.{
  Task, new, attempt_of, requeue_values, nack, to_task, meta_of, add_meta,
}
use arkonis_operator.Agent.Queue.Requeue.{again}
use arkonis_operator.Agent.Queue.Retries.{IsBuried, nack_lem, first, next, attempt_of-Retried}
use arkonis_operator.Tests.Store.{memory, memory-IsStream, nothing}

abbrev fresh : Task
fresh = record { id = "1-0"; prompt = "write"; meta = ("owner", "x") ∷ [] }

-- A task read again after its first attempt.
second :
    again "2-0" fresh 0
    ≡ record { id = "2-0"; prompt = "write"; meta = ("attempt", "1") ∷ ("owner", "x") ∷ [] }
unfolding to_task meta_of requeue_values add_meta lookup lookup_or insert itoa digits
second = refl

fresh-attempt_of : attempt_of fresh ≡ 0
unfolding attempt_of lookup_or lookup atoi read_digits
fresh-attempt_of = refl

fresh-lookup_prompt : lookup "prompt" fresh.meta ≡ none
unfolding lookup
fresh-lookup_prompt = refl

fresh-left : lt64 (attempt_of fresh) 3 ≡ true
unfolding attempt_of lookup_or lookup atoi read_digits
fresh-left = refl

abbrev nacked : String → List Entry
nacked = memory-IsStream.entries (nack memory (new memory "" 3 nothing).1 fresh "boom" nothing)

nack_lem_example :
    (entry : Entry) × (((lt64 (attempt_of fresh) 3 ≡ true)
        × (nacked "agent-tasks" ≡ [] ++ (entry ∷ []))
        × (attempt_of (to_task entry) ≡ attempt_of fresh + 1)
        × ((to_task entry).prompt ≡ "write")
        × (nacked "agent-tasks-dead" ≡ []))
      ⊎ ((lt64 (attempt_of fresh) 3 ≡ false)
          × (nacked "agent-tasks-dead" ≡ [] ++ (entry ∷ []))
          × IsBuried fresh "boom" entry.values
          × (nacked "agent-tasks" ≡ [])))
nack_lem_example =
    nack_lem memory memory-IsStream (λ db stream values. ("1-1", refl)) "" "boom" 3 fresh nothing
      nothing (subst (λ n. n < half) (sym fresh-attempt_of) (omega arith)) fresh-lookup_prompt

attempt_of-Retried_example :
    (attempt_of (again "2-0" fresh (attempt_of fresh)) ≡ 1)
    × (1 ≤ 3)
    × ((again "2-0" fresh (attempt_of fresh)).prompt ≡ "write")
    × (lookup "prompt" (again "2-0" fresh (attempt_of fresh)).meta ≡ none)
attempt_of-Retried_example =
    attempt_of-Retried 3 fresh (again "2-0" fresh (attempt_of fresh)) 1 (omega arith)
      fresh-attempt_of fresh-lookup_prompt (next "2-0" first fresh-left)
