-- ===== src/Controller/FlowSteps/Submitted.antt =====
-- Tasks and Running steps.
use arkonis_operator.Prelude.{
  ℕ, suc, ◌+◌, String, none, some, List, [], ◌∷◌, ◌++◌, ◌≡◌, ◌≢◌, refl, sym, ap, subst, ◌∙◌, arith,
  true, set, total, total-set, length, inl, inr, Option-cases,
}
use arkonis_operator.Prelude.Map.{Map}
use arkonis_operator.Api.Meta.{Result-cases, Time, Message, Result, ok, err}
use arkonis_operator.Api.Flow.{ArkFlowStep, ArkFlowStepStatus, ArkFlowStepPhase}
use arkonis_operator.Flow.Dag.{StatusByName}
use arkonis_operator.Flow.Library.{Library, TemplateData}
use arkonis_operator.Flow.Step.{is_pending}
use arkonis_operator.Flow.Template.{resolve_prompt}
use arkonis_operator.Local.Steps.{Readiness, waits, skips, runs, readiness, skip_status}
use arkonis_operator.Local.Executor.Potential.{status_of-get_elem}
use arkonis_operator.Local.Executor.Progress.{Sees, readiness-Sees, IsPendingAt}
use arkonis_operator.Agent.Streams.{Redis, IsStream}
use arkonis_operator.Controller.FlowSteps.{
  fail_inputs, run_status, submit_task, Pass, submit_prompt, submit_step, submit_pending_steps,
}

-- One for a Running step.
abbrev running_weight : ArkFlowStepPhase → ℕ
running_weight ArkFlowStepPhase.pending = 0
running_weight ArkFlowStepPhase.running = 1
running_weight ArkFlowStepPhase.succeeded = 0
running_weight ArkFlowStepPhase.failed = 0
running_weight ArkFlowStepPhase.skipped = 0

-- The number of Running steps.
abbrev pub running_steps : List ArkFlowStepStatus → ℕ
running_steps steps = total (λ st. running_weight st.phase) steps

not_running : (p : ArkFlowStepPhase) → is_pending p ≡ true → running_weight p ≡ 0
unfolding is_pending
not_running p h = ground arith

length-snoc {ℓ} : {A : Type ℓ} (xs : List A) (x : A) → length (xs ++ (x ∷ [])) ≡ suc (length xs)
length-snoc [] x = refl
length-snoc (y ∷ ys) x = ap suc (length-snoc ys x)

-- A write to a Pending step counts as the new phase does.
running_steps-set :
    (m : StatusByName) (steps : List ArkFlowStepStatus) (name : String) (i : ℕ)
    (st new : ArkFlowStepStatus)
    → IsPendingAt m steps name i st
    → running_steps (set steps i new) ≡ running_steps steps + running_weight new.phase
running_steps-set m steps name i st new (at, pending) = omega (
  arith,
  not_running st.phase pending,
  total-set (λ s. running_weight s.phase) steps i new st (status_of-get_elem m steps name i st at),
)

module _ (redis : Redis) (laws : IsStream redis) where
  open redis use {State, x_add}
  open laws use {entries, added}

  -- The number of tasks in the queue.
  abbrev pub tasks : State → ℕ
  tasks db = length (entries db "agent-tasks")

  -- A pass took the queue and the statuses to others: as many tasks were added as steps became Running.
  abbrev Balanced : State → List ArkFlowStepStatus → Pass redis → Type 0
  Balanced db steps pass = running_steps pass.steps + tasks db ≡ running_steps steps + tasks pass.db

  tasks-add :
      (db : State) (id : String) (values : Map String)
      → (x_add db "agent-tasks" values).1 ≡ ok id
      → tasks (x_add db "agent-tasks" values).0 ≡ suc (tasks db)
  tasks-add db id values e =
      ap length (added db "agent-tasks" id values e) ∙ length-snoc (entries db "agent-tasks") _

  module _ (lib : Library) (now : String → Time) (m : StatusByName)
      (context : TemplateData lib.Json) where
    -- Once its task is in the queue, the step is Running.
    submit_prompt-accepted :
        (step : ArkFlowStep) (i : ℕ) (st : ArkFlowStepStatus) (prompt id : String) (db : State)
        (steps : List ArkFlowStepStatus)
        → (x_add db "agent-tasks" (("prompt", prompt) ∷ [])).1 ≡ ok id
        → submit_prompt redis lib now m context step i st (ok prompt) db steps ≡ record {
          db = (x_add db "agent-tasks" (("prompt", prompt) ∷ [])).0;
          steps = set steps i (run_status (now step.name) id st);
          error = none;
        }
    unfolding submit_prompt submit_task
    submit_prompt-accepted step i st prompt id db steps e = rw e refl

    submit_prompt-refused :
        (step : ArkFlowStep) (i : ℕ) (st : ArkFlowStepStatus) (prompt : String) (e : Message)
        (db : State) (steps : List ArkFlowStepStatus)
        → (x_add db "agent-tasks" (("prompt", prompt) ∷ [])).1 ≡ err e
        → (submit_prompt redis lib now m context step i st (ok prompt) db steps).error ≢ none
    unfolding submit_prompt submit_task
    submit_prompt-refused step i st prompt e db steps gone = rw gone (λ h. ground arith)

    submit_prompt-Balanced :
        (step : ArkFlowStep) (i : ℕ) (st : ArkFlowStepStatus) (prompt : Result String) (db : State)
        (steps : List ArkFlowStepStatus)
        → IsPendingAt m steps step.name i st
        → (submit_prompt redis lib now m context step i st prompt db steps).error ≡ none
        → Balanced db steps (submit_prompt redis lib now m context step i st prompt db steps)
    unfolding submit_prompt fail_inputs run_status
    submit_prompt-Balanced step i st (err e) db steps at fine =
        omega
          (arith, running_steps-set m steps step.name i st (fail_inputs (now step.name) e st) at)
    submit_prompt-Balanced step i st (ok prompt) db steps at fine =
        elim (Result-cases (x_add db "agent-tasks" (("prompt", prompt) ∷ [])).1) [
          | inl (id, e) ↦ rw (submit_prompt-accepted step i st prompt id db steps e) (
              omega (
                arith,
                tasks-add db id (("prompt", prompt) ∷ []) e,
                running_steps-set m steps step.name i st (run_status (now step.name) id st) at,
              ))
          | inr (e, gone) ↦ absurd (submit_prompt-refused step i st prompt e db steps gone fine)
        ]

    submit_step-Balanced :
        (step : ArkFlowStep) (r : Readiness) (db : State) (steps : List ArkFlowStepStatus)
        → Sees m steps step.name r
        → (submit_step redis lib now m context step r db steps).error ≡ none
        → Balanced db steps (submit_step redis lib now m context step r db steps)
    unfolding submit_step skip_status
    submit_step-Balanced step waits db steps sees fine = refl
    submit_step-Balanced step (skips i st) db steps sees fine =
        omega
          (arith, running_steps-set m steps step.name i st (skip_status (now step.name) st) sees)
    submit_step-Balanced step (runs i st) db steps sees fine =
        submit_prompt-Balanced step i st (resolve_prompt lib step context) db steps sees fine

    -- The pass after its first step.
    abbrev turn : ArkFlowStep → State → List ArkFlowStepStatus → Pass redis
    turn step db steps =
        submit_step redis lib now m context step (readiness lib m context steps step) db steps

    submit_pending_steps-goes :
        (step : ArkFlowStep) (rest : List ArkFlowStep) (db : State) (steps : List ArkFlowStepStatus)
        → (turn step db steps).error ≡ none
        → submit_pending_steps redis lib now m context (step ∷ rest) db steps
          ≡ submit_pending_steps redis lib now m context rest
              (turn step db steps).db
              (turn step db steps).steps
    unfolding submit_pending_steps
    submit_pending_steps-goes step rest db steps e = rw (e, submit_pending_steps) refl

    submit_pending_steps-stops :
        (step : ArkFlowStep) (rest : List ArkFlowStep) (e : Message) (db : State)
        (steps : List ArkFlowStepStatus)
        → (turn step db steps).error ≡ some e
        → (submit_pending_steps redis lib now m context (step ∷ rest) db steps).error ≢ none
    unfolding submit_pending_steps
    submit_pending_steps-stops step rest e db steps stop =
        rw (stop, submit_pending_steps) (λ h. ground arith)

    -- A pass over the steps that ends without an error enqueues exactly one task for every step that it
    -- makes Running, and none for the steps that wait, are skipped, or have a faulty prompt.
    pub submit_pending_steps-balanced :
        (todo : List ArkFlowStep) (db : State) (steps : List ArkFlowStepStatus)
        → (submit_pending_steps redis lib now m context todo db steps).error ≡ none
        → running_steps (submit_pending_steps redis lib now m context todo db steps).steps
            + tasks db
          ≡ running_steps steps
            + tasks (submit_pending_steps redis lib now m context todo db steps).db
    unfolding submit_pending_steps
    submit_pending_steps-balanced [] db steps fine = refl
    submit_pending_steps-balanced (step ∷ rest) db steps fine =
        elim (Option-cases (turn step db steps).error) [
          | inl none_yet ↦
              let goes = submit_pending_steps-goes step rest db steps none_yet in
              subst (Balanced db steps) (sym goes) (
                omega (
                  arith,
                  submit_step-Balanced step (readiness lib m context steps step) db steps
                      (readiness-Sees lib m context steps step) none_yet,
                  submit_pending_steps-balanced rest (turn step db steps).db
                      (turn step db steps).steps (subst (λ p. p.error ≡ none) goes fine),
                ))
          | inr (e, stop) ↦ absurd (submit_pending_steps-stops step rest e db steps stop fine)
        ]
