-- ===== src/Controller/FlowSteps/Collected.antt =====
-- Results and waiting steps.
use arkonis_operator.Prelude.{
  some_inj, ℕ, String, Option, none, some, List, [], ◌∷◌, ◌≡◌, ◌≢◌, refl, sym, ap, subst, ◌∙◌,
  arith, true, false, get_elem?, get_elem?-set_ne, All, inl, inr, ◌⊎◌, Option-cases, List-cases,
  Bool-cases, ◌==◌, if◌then◌else◌,
}
use text.Mathlib.TextEquality.{eq_iff}
use arkonis_operator.Prelude.Map.{Map, lookup, lookup_or, insert, lookup-insert}
use arkonis_operator.Api.Meta.{ok_inj, Time, ok}
use arkonis_operator.Api.Flow.{ArkFlowStepStatus}
use arkonis_operator.Flow.Dag.{StatusByName}
use arkonis_operator.Agent.Streams.{Redis, Entry}
use arkonis_operator.Controller.FlowSteps.{
  is_waiting, waiting_of, take_result, take_at, take_results, collect_results,
}

-- No entry is the result of the task that the step waits for, or the step does not wait.
abbrev pub IsUnanswered : List Entry → ArkFlowStepStatus → Type 0
IsUnanswered entries st =
    (is_waiting st ≡ false)
    ⊎ All (λ entry. lookup_or "" "task_id" entry.values ≢ st.task_id) entries

IsUnanswered-rest :
    (entry : Entry) (entries : List Entry) (st : ArkFlowStepStatus)
    → IsUnanswered (entry ∷ entries) st
    → IsUnanswered entries st
IsUnanswered-rest entry entries st (inl idle) = inl idle
IsUnanswered-rest entry entries st (inr alone) = inr alone.1

unanswered_head :
    (entry : Entry) (entries : List Entry) (st : ArkFlowStepStatus)
    → IsUnanswered (entry ∷ entries) st
    → ¬ ((is_waiting st ≡ true) × (st.task_id ≡ lookup_or "" "task_id" entry.values))
unanswered_head entry entries st (inl idle) (waits, same) = cc (idle, waits)
unanswered_head entry entries st (inr alone) (waits, same) = alone.0 (sym same)

-- Under the place of the step, `waiting` has no task but the one it waits for.
abbrev Points : Map ℕ → ℕ → ArkFlowStepStatus → Type 0
Points waiting i st =
    (task_id : String)
    → lookup task_id waiting ≡ some i
    → (is_waiting st ≡ true) × (st.task_id ≡ task_id)

Points-insert :
    (waiting : Map ℕ) (i j : ℕ) (st other : ArkFlowStepStatus) (steps : List ArkFlowStepStatus)
    → get_elem? steps i ≡ some st
    → get_elem? steps j ≡ some other
    → is_waiting other ≡ true
    → Points waiting i st
    → Points (insert other.task_id j waiting) i st
Points-insert waiting i j st other steps at at' waits points task_id found =
    let found' : (if other.task_id == task_id then some j else lookup task_id waiting) ≡ some i =
      sym (lookup-insert other.task_id task_id j waiting) ∙ found in
    elim (Bool-cases (other.task_id == task_id)) [
      | inl same ↦
          let id : other.task_id ≡ task_id = ground (arith, eq_iff other.task_id task_id) in
          let place : j ≡ i = ground arith in
          let is : other ≡ st = some_inj (sym at' ∙ ap (get_elem? steps) place ∙ at) in
          (subst (λ s. is_waiting s ≡ true) is waits, subst (λ s. s.task_id ≡ task_id) is id)
      | inr differs ↦ points task_id (ground arith)
    ]

waiting_of-Points :
    (m : StatusByName) (steps : List ArkFlowStepStatus) (waiting : Map ℕ) (i : ℕ)
    (st : ArkFlowStepStatus)
    → get_elem? steps i ≡ some st
    → Points waiting i st
    → Points (waiting_of m steps waiting) i st
unfolding waiting_of
waiting_of-Points [] steps waiting i st at points = points
waiting_of-Points ((name, j) ∷ m) steps waiting i st at points =
    waiting_of-Points m steps _ i st at (elim (Option-cases (get_elem? steps j)) [
      | inl gone ↦ rw (gone, get_elem?) points
      | inr (other, at') ↦ elim (Bool-cases (is_waiting other)) [
        | inl waits ↦ rw (at', waits) (Points-insert waiting i j st other steps at at' waits points)
        | inr idle ↦ rw (at', idle) points
      ]
    ])

take_at-keeps :
    (now : Time) (values : Map String) (place : Option ℕ) (steps : List ArkFlowStepStatus) (i : ℕ)
    → place ≢ some i
    → get_elem? (take_at now values place steps) i ≡ get_elem? steps i
unfolding take_at
take_at-keeps now values none steps i other = refl
take_at-keeps now values (some j) steps i other = elim (Option-cases (get_elem? steps j)) [
  | inl gone ↦ rw (gone, take_at) refl
  | inr (st, at) ↦
      rw (at, take_at)
        (get_elem?-set_ne steps j i (take_result now values st) (λ e. other (ap some e)))
]

take_results-keeps :
    (now : String → Time) (waiting : Map ℕ) (entries : List Entry) (steps : List ArkFlowStepStatus)
    (i : ℕ) (st : ArkFlowStepStatus)
    → Points waiting i st
    → IsUnanswered entries st
    → get_elem? (take_results now waiting entries steps) i ≡ get_elem? steps i
unfolding take_results
take_results-keeps now waiting [] steps i st points alone = refl
take_results-keeps now waiting (entry ∷ entries) steps i st points alone =
    take_results-keeps now waiting entries _ i st points (IsUnanswered-rest entry entries st alone)
    ∙ take_at-keeps (now entry.id) entry.values
        (lookup (lookup_or "" "task_id" entry.values) waiting) steps i
        (λ found. unanswered_head entry entries st alone (points _ found))

Points-empty : (i : ℕ) (st : ArkFlowStepStatus) → Points [] i st
unfolding lookup
Points-empty i st task_id h = absurd (ground arith)

module _ (redis : Redis) (now : String → Time) (db : redis.State) (m : StatusByName) where
  collect_results-idle :
      (steps : List ArkFlowStepStatus)
      → waiting_of m steps [] ≡ []
      → collect_results redis now db m steps ≡ ok steps
  unfolding collect_results
  collect_results-idle steps idle = rw (idle, collect_results) refl

  collect_results-takes :
      (steps : List ArkFlowStepStatus) (entries : List Entry) (binding : String × ℕ) (rest : Map ℕ)
      → waiting_of m steps [] ≡ binding ∷ rest
      → redis.x_range db "agent-tasks-results" ≡ ok entries
      → collect_results redis now db m steps ≡ ok (take_results now (binding ∷ rest) entries steps)
  unfolding collect_results
  collect_results-takes steps entries binding rest e range = rw (e, collect_results, range) refl

-- Collecting results changes the status of a step only if the step is Running with a task, and an entry
-- of the stream is the result of that very task.
pub collect_results-keeps :
    (redis : Redis) (now : String → Time) (db : redis.State) (m : StatusByName)
    (steps after : List ArkFlowStepStatus) (entries : List Entry) (i : ℕ) (st : ArkFlowStepStatus)
    → redis.x_range db "agent-tasks-results" ≡ ok entries
    → get_elem? steps i ≡ some st
    → IsUnanswered entries st
    → collect_results redis now db m steps ≡ ok after
    → get_elem? after i ≡ some st
collect_results-keeps redis now db m steps after entries i st range at alone done =
    let points = waiting_of-Points m steps [] i st at (Points-empty i st) in
    elim (List-cases (waiting_of m steps [])) [
      | inl idle ↦
          ap (λ s. get_elem? s i)
            (ok_inj (sym done ∙ collect_results-idle redis now db m steps idle))
          ∙ at
      | inr (binding, rest, e) ↦
          ap (λ s. get_elem? s i)
            (ok_inj
              (sym done ∙ collect_results-takes redis now db m steps entries binding rest e range))
          ∙ take_results-keeps now (binding ∷ rest) entries steps i st
              (subst (λ w. Points w i st) e points) alone
          ∙ at
    ]
