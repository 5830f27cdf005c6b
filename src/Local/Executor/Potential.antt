-- ===== src/Local/Executor/Potential.antt =====
-- A measure of the work left in a flow: no part of a round raises it.
use arkonis_operator.Prelude.{
  ℕ, ◌+◌, ◌-◌, ◌*◌, ◌<◌, ◌≤◌, String, Option, none, some, List, [], ◌∷◌, ◌≡◌, inl, inr, Bool, true,
  false, arith, set, get_elem?, total, total-set, All, Option-cases,
}
use arkonis_operator.Prelude.Words.{bias, bias-suc}
use arkonis_operator.Prelude.Map.{Map, lookup}
use arkonis_operator.Api.Meta.{Time}
use arkonis_operator.Api.Flow.{ArkFlowStep, ArkFlowStepStatus, LoopSpec}
use arkonis_operator.Flow.Dag.{StatusByName, status_of}
use arkonis_operator.Flow.Library.{Library, TemplateData}
use arkonis_operator.Flow.Step.{
  is_pending, is_succeeded, max_iter, reset_for_loop, evaluate_loop, evaluate_turn, evaluate_loops,
  parse_status, parse_turn, parse_outputs,
}
use arkonis_operator.Local.Steps.{StepOutcome}
use arkonis_operator.Local.Executor.{
  start_status, finish_status, update_named, start_steps, finish_steps, StepResult,
}

abbrev pub flag : Bool → ℕ
flag true = 1
flag false = 0

-- Twice the repetitions that a step may still make, and one more while it is Pending. `cap` bounds
-- the caps of all loops, in the order of the signed integers.
abbrev pub weight : ℕ → ArkFlowStepStatus → ℕ
weight cap st = 2 * (cap - bias st.iterations) + flag (is_pending st.phase)

abbrev pub work : ℕ → List ArkFlowStepStatus → ℕ
work cap = total (weight cap)

abbrev pub LoopBelow : ℕ → Option LoopSpec → Type 0
LoopBelow cap none = Unit
LoopBelow cap (some loop) = bias (max_iter loop) ≤ cap

abbrev pub Capped : ℕ → List ArkFlowStep → Type 0
Capped cap steps = All (λ s. LoopBelow cap s.loop) steps

pub status_of-get_elem :
    (m : StatusByName) (steps : List ArkFlowStepStatus) (name : String) (i : ℕ)
    (st : ArkFlowStepStatus)
    → status_of m steps name ≡ some (i, st)
    → get_elem? steps i ≡ some st
unfolding status_of
status_of-get_elem m steps name i st h = elim (Option-cases (lookup name m)) [
  | inl gone ↦ absurd (ground arith)
  | inr (j, at) ↦ elim (Option-cases (get_elem? steps j)) [
    | inl gone ↦ absurd (ground arith)
    | inr (x, is) ↦ ground arith
  ]
]

module _ (cap : ℕ) where
  pub work-set :
      (steps : List ArkFlowStepStatus) (i : ℕ) (v st : ArkFlowStepStatus)
      → get_elem? steps i ≡ some st
      → weight cap v ≤ weight cap st
      → work cap (set steps i v) ≤ work cap steps
  work-set steps i v st h le = omega (arith, total-set (weight cap) steps i v st h)

  pub work-set_lt :
      (steps : List ArkFlowStepStatus) (i : ℕ) (v st : ArkFlowStepStatus)
      → get_elem? steps i ≡ some st
      → weight cap v < weight cap st
      → work cap (set steps i v) < work cap steps
  work-set_lt steps i v st h lt = omega (arith, total-set (weight cap) steps i v st h)

  weight-evaluate_loop :
      (lib : Library) (loop : LoopSpec) (context : TemplateData lib.Json) (st : ArkFlowStepStatus)
      → bias (max_iter loop) ≤ cap
      → weight cap (evaluate_loop lib loop context st) ≤ weight cap st
  unfolding evaluate_loop reset_for_loop is_pending is_succeeded
  weight-evaluate_loop lib loop context st below =
      ground (arith, bias-suc st.iterations (max_iter loop))

  work-evaluate_turn :
      (lib : Library) (loop : Option LoopSpec) (name : String) (m : StatusByName)
      (context : TemplateData lib.Json) (steps : List ArkFlowStepStatus)
      → LoopBelow cap loop
      → work cap (evaluate_turn lib loop name m context steps) ≤ work cap steps
  unfolding evaluate_turn
  work-evaluate_turn lib none name m context steps below = omega arith
  work-evaluate_turn lib (some loop) name m context steps below =
      elim (Option-cases (status_of m steps name)) [
        | inl gone ↦ rw (gone, evaluate_turn) (omega arith)
        | inr ((i, st), at) ↦
            rw (at, evaluate_turn)
              (work-set steps i (evaluate_loop lib loop context st) st
                (status_of-get_elem m steps name i st at)
                (weight-evaluate_loop lib loop context st below))
      ]

  pub work-evaluate_loops :
      (lib : Library) (rest : List ArkFlowStep) (m : StatusByName) (context : TemplateData lib.Json)
      (steps : List ArkFlowStepStatus)
      → Capped cap rest
      → work cap (evaluate_loops lib rest m context steps) ≤ work cap steps
  unfolding evaluate_loops
  work-evaluate_loops lib [] m context steps c = omega arith
  work-evaluate_loops lib (step ∷ rest) m context steps c = omega (
    arith,
    work-evaluate_turn lib step.loop step.name m context steps c.0,
    work-evaluate_loops lib rest m context (evaluate_turn lib step.loop step.name m context steps)
        c.1,
  )

  -- A write through a pointer that raises no weight.
  pub work-update_named :
      (change : ArkFlowStepStatus → ArkFlowStepStatus) (m : StatusByName) (name : String)
      (steps : List ArkFlowStepStatus)
      → ((st : ArkFlowStepStatus) → weight cap (change st) ≤ weight cap st)
      → work cap (update_named change m name steps) ≤ work cap steps
  unfolding update_named
  work-update_named change m name steps le = elim (Option-cases (status_of m steps name)) [
    | inl gone ↦ rw (gone, update_named) (omega arith)
    | inr ((i, st), at) ↦
        rw (at, update_named)
          (work-set steps i (change st) st (status_of-get_elem m steps name i st at) (le st))
  ]

  weight-start_status :
      (now : Time) (st : ArkFlowStepStatus) → weight cap (start_status now st) ≤ weight cap st
  unfolding start_status is_pending
  weight-start_status now st = ground arith

  weight-finish_status :
      (now : Time) (r : StepOutcome) (st : ArkFlowStepStatus)
      → weight cap (finish_status now r st) ≤ weight cap st
  unfolding finish_status is_pending
  weight-finish_status now r st = ground arith

  pub work-start_steps :
      (now : String → Time) (ready : List ArkFlowStep) (m : StatusByName)
      (steps : List ArkFlowStepStatus)
      → work cap (start_steps now ready m steps) ≤ work cap steps
  unfolding start_steps
  work-start_steps now [] m steps = omega arith
  work-start_steps now (step ∷ ready) m steps = omega (
    arith,
    work-start_steps now ready m (update_named (start_status (now step.name)) m step.name steps),
    work-update_named (start_status (now step.name)) m step.name steps
        (weight-start_status (now step.name)),
  )

  pub work-finish_steps :
      (now : String → Time) (results : List StepResult) (m : StatusByName)
      (steps : List ArkFlowStepStatus)
      → work cap (finish_steps now results m steps) ≤ work cap steps
  unfolding finish_steps
  work-finish_steps now [] m steps = omega arith
  work-finish_steps now (r ∷ results) m steps = omega (
    arith,
    work-finish_steps now results m
        (update_named (finish_status (now r.name) r.outcome) m r.name steps),
    work-update_named (finish_status (now r.name) r.outcome) m r.name steps
        (weight-finish_status (now r.name) r.outcome),
  )

  weight-parse_status :
      (lib : Library) (st : ArkFlowStepStatus) → weight cap (parse_status lib st) ≡ weight cap st
  unfolding parse_status
  weight-parse_status lib st = ground arith

  work-parse_turn :
      (lib : Library) (schema : Option String) (i : ℕ) (steps : List ArkFlowStepStatus)
      → work cap (parse_turn lib schema i steps) ≤ work cap steps
  unfolding parse_turn
  work-parse_turn lib none i steps = omega arith
  work-parse_turn lib (some s) i steps = elim (Option-cases (get_elem? steps i)) [
    | inl gone ↦ rw (gone, parse_turn) (omega arith)
    | inr (st, at) ↦
        rw (at, parse_turn)
          (work-set steps i (parse_status lib st) st at (omega (arith, weight-parse_status lib st)))
  ]

  pub work-parse_outputs :
      (lib : Library) (schemas : Map String) (m : StatusByName) (steps : List ArkFlowStepStatus)
      → work cap (parse_outputs lib schemas m steps) ≤ work cap steps
  unfolding parse_outputs
  work-parse_outputs lib schemas [] steps = omega arith
  work-parse_outputs lib schemas ((name, i) ∷ m) steps = omega (
    arith,
    work-parse_turn lib (lookup name schemas) i steps,
    work-parse_outputs lib schemas m (parse_turn lib (lookup name schemas) i steps),
  )
