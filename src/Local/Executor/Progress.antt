-- ===== src/Local/Executor/Progress.antt =====
-- A round with a ready step lowers the work left.
use arkonis_operator.Prelude.{
  ℕ, ◌<◌, ◌≤◌, String, some, List, [], ◌∷◌, ◌≡◌, refl, sym, ap, subst, ◌⊎◌, inl, inr, Bool, true,
  false, not, arith, set, Option-cases, if◌then◌else◌, ◌||◌, ◌==◌,
}
use arkonis_operator.Api.Meta.{Time}
use arkonis_operator.Api.Flow.{ArkFlowStep, ArkFlowStepStatus}
use arkonis_operator.Flow.Dag.{StatusByName, status_of, deps_succeeded}
use arkonis_operator.Flow.Library.{Library, TemplateData}
use arkonis_operator.Flow.Step.{is_pending, holds}
use arkonis_operator.Local.Steps.{
  Readiness, waits, skips, runs, readiness, skip_status, collect_ready_steps,
}
use arkonis_operator.Local.Executor.{start_status, update_named, start_steps}
use arkonis_operator.Local.Executor.Potential.{
  weight, work, work-set_lt, work-start_steps, status_of-get_elem,
}

-- The step's status is Pending, and a pointer leads to it.
abbrev pub IsPendingAt :
    StatusByName → List ArkFlowStepStatus → String → ℕ → ArkFlowStepStatus → Type 0
IsPendingAt m steps name i st =
    (status_of m steps name ≡ some (i, st)) × (is_pending st.phase ≡ true)

abbrev pub Sees : StatusByName → List ArkFlowStepStatus → String → Readiness → Type 0
Sees m steps name waits = Unit
Sees m steps name (skips i st) = IsPendingAt m steps name i st
Sees m steps name (runs i st) = IsPendingAt m steps name i st

module _ (lib : Library) (m : StatusByName) (context : TemplateData lib.Json) where
  pub readiness-Sees :
      (steps : List ArkFlowStepStatus) (step : ArkFlowStep)
      → Sees m steps step.name (readiness lib m context steps step)
  unfolding readiness
  readiness-Sees steps step = elim (Option-cases (status_of m steps step.name)) [
    | inl gone ↦ rw (gone, readiness) tt
    | inr ((i, st), at) ↦
        rw (at, readiness)
          (seen i st at (is_pending st.phase) refl (deps_succeeded step.depends_on m steps)
            (step.if_expr == "" || holds lib step.if_expr context))
  ]
    where
      seen :
          (i : ℕ) (st : ArkFlowStepStatus)
          → status_of m steps step.name ≡ some (i, st)
          → (p : Bool) → is_pending st.phase ≡ p
          → (d g : Bool)
          → Sees m steps step.name (
              if not p then waits else if not d then waits else if g then runs i st else skips i st)
      seen i st at false e d g = tt
      seen i st at true e false g = tt
      seen i st at true e true true = (at, e)
      seen i st at true e true false = (at, e)

-- The first step taken is Pending.
abbrev HeadPending : StatusByName → List ArkFlowStepStatus → List ArkFlowStep → Type 0
HeadPending m steps [] = Unit
HeadPending m steps (step ∷ ready) =
    (i : ℕ) × (st : ArkFlowStepStatus) × IsPendingAt m steps step.name i st

module _ (cap : ℕ) (lib : Library) (now : String → Time) (m : StatusByName)
    (context : TemplateData lib.Json) where
  weight-skip_status :
      (at : Time) (st : ArkFlowStepStatus)
      → is_pending st.phase ≡ true
      → weight cap (skip_status at st) < weight cap st
  unfolding skip_status is_pending
  weight-skip_status at st p = ground arith

  weight-start_status_lt :
      (at : Time) (st : ArkFlowStepStatus)
      → is_pending st.phase ≡ true
      → weight cap (start_status at st) < weight cap st
  unfolding start_status is_pending
  weight-start_status_lt at st p = ground arith

  abbrev collected :
      List ArkFlowStep → List ArkFlowStepStatus → List ArkFlowStepStatus × List ArkFlowStep
  collected rest steps = collect_ready_steps lib now rest m context steps

  -- A skip lowers the work; with none, the statuses stay and the first step taken is Pending.
  abbrev Progress : List ArkFlowStepStatus → List ArkFlowStepStatus × List ArkFlowStep → Type 0
  Progress steps c = (work cap c.0 < work cap steps) ⊎ ((c.0 ≡ steps) × HeadPending m steps c.1)

  collect_turn-Progress :
      (step : ArkFlowStep) (rest : List ArkFlowStep) (steps : List ArkFlowStepStatus)
      (r : Readiness)
      → readiness lib m context steps step ≡ r
      → Sees m steps step.name r
      → ((s : List ArkFlowStepStatus) → Progress s (collected rest s))
      → Progress steps (collected (step ∷ rest) steps)
  unfolding collect_ready_steps
  collect_turn-Progress step rest steps waits e sees ih = rw (e, collect_ready_steps) (ih steps)
  collect_turn-Progress step rest steps (skips i st) e sees ih =
      let steps' = set steps i (skip_status (now step.name) st) in
      let less : work cap steps' < work cap steps =
        work-set_lt cap steps i (skip_status (now step.name) st) st
          (status_of-get_elem m steps step.name i st sees.0)
          (weight-skip_status (now step.name) st sees.1) in
      rw (e, collect_ready_steps)
        (inl (elim (ih steps') [
          | inl lower ↦ omega arith
          | inr same ↦ omega (arith, ap (work cap) same.0)
        ]))
  collect_turn-Progress step rest steps (runs i st) e sees ih =
      rw (e, collect_ready_steps)
        (elim (ih steps) [ inl lower ↦ inl lower | inr same ↦ inr (same.0, (i, st, sees)) ])

  collect-Progress :
      (rest : List ArkFlowStep) (steps : List ArkFlowStepStatus)
      → Progress steps (collected rest steps)
  collect-Progress [] steps = unfold collect_ready_steps in inr (refl, tt)
  collect-Progress (step ∷ rest) steps =
      collect_turn-Progress step rest steps (readiness lib m context steps step) refl
        (readiness-Sees lib m context steps step) (collect-Progress rest)

  start_steps-lt :
      (step : ArkFlowStep) (ready : List ArkFlowStep) (steps : List ArkFlowStepStatus)
      → HeadPending m steps (step ∷ ready)
      → work cap (start_steps now (step ∷ ready) m steps) < work cap steps
  unfolding start_steps update_named
  start_steps-lt step ready steps (i, st, (at, p)) =
      let started = update_named (start_status (now step.name)) m step.name steps in
      let less : work cap started < work cap steps =
        rw (at, update_named)
          (work-set_lt cap steps i (start_status (now step.name) st) st
            (status_of-get_elem m steps step.name i st at)
            (weight-start_status_lt (now step.name) st p)) in
      omega (arith, work-start_steps cap now ready m started)

-- Whatever the readings of the clock, choosing the steps and starting them lowers the work if a step
-- is ready, and does not raise it otherwise.
pub work-collect_le :
    (cap : ℕ) (lib : Library) (now : String → Time) (m : StatusByName)
    (context : TemplateData lib.Json) (rest : List ArkFlowStep) (steps : List ArkFlowStepStatus)
    → work cap (collect_ready_steps lib now rest m context steps).0 ≤ work cap steps
work-collect_le cap lib now m context rest steps =
    elim (collect-Progress cap lib now m context rest steps) [
      | inl less ↦ omega arith
      | inr same ↦ omega (arith, ap (work cap) same.0)
    ]

pub work-start_lt :
    (cap : ℕ) (lib : Library) (now later : String → Time) (m : StatusByName)
    (context : TemplateData lib.Json) (rest : List ArkFlowStep) (steps : List ArkFlowStepStatus)
    (step : ArkFlowStep) (ready : List ArkFlowStep)
    → (collect_ready_steps lib now rest m context steps).1 ≡ step ∷ ready
    → work cap
        (start_steps later (step ∷ ready) m (collect_ready_steps lib now rest m context steps).0)
      < work cap steps
work-start_lt cap lib now later m context rest steps step ready e =
    let (steps', taken) = collect_ready_steps lib now rest m context steps in
    elim (collect-Progress cap lib now m context rest steps) [
      | inl less ↦ omega (arith, work-start_steps cap later (step ∷ ready) m steps')
      | inr (same, head) ↦
          let pending : HeadPending m steps (step ∷ ready) = subst (HeadPending m steps) e head in
          subst (λ s. work cap (start_steps later (step ∷ ready) m s) < work cap steps) (sym same)
            (start_steps-lt cap lib later m context step ready steps pending)
    ]
