-- ===== src/Local/Executor/Termination.antt =====
-- `Run` returns: its rounds are bounded by the steps and the caps of their loops.
use arkonis_operator.Prelude.{
  ℕ, zero, suc, ◌+◌, ◌*◌, ◌<◌, ◌≤◌, String, Option, none, some, List, [], ◌∷◌, ◌++◌, ◌≡◌, sym, ap,
  subst, inl, inr, arith, map, length, All, List-cases, Bool-cases,
}
use arkonis_operator.Prelude.Words.{half}
use arkonis_operator.Api.Meta.{Time}
use arkonis_operator.Api.Flow.{ArkFlow, ArkFlowStep, ArkFlowStepStatus, ArkFlowPhase, LoopSpec}
use arkonis_operator.Flow.Dag.{StatusByName, build_status_by_name, is_terminal_phase}
use arkonis_operator.Flow.Library.{Library}
use arkonis_operator.Flow.Template.{build_template_data}
use arkonis_operator.Flow.Step.{
  set_condition, initialize_steps, evaluate_loops, schema_by_name, parse_output_json,
  pending_status, is_pending, max_iter,
}
use arkonis_operator.Flow.Phase.{update_flow_phase}
use arkonis_operator.Flow.Phase.Frame.{update_flow_phase-Kept}
use arkonis_operator.Local.Steps.{Backend, collect_ready_steps}
use arkonis_operator.Local.Executor.{
  skipping, starting, finishing, updating, Schedule, StepEvent, with_steps, start_steps,
  prepare_round, round_results, execute_round, conclude_round, run_rounds, run, start_event,
  finish_event,
}
use arkonis_operator.Local.Executor.Potential.{
  work, LoopBelow, Capped, work-evaluate_loops, work-finish_steps, work-parse_outputs,
}
use arkonis_operator.Local.Executor.Progress.{work-start_lt}

module _ (lib : Library) (backend : Backend) (schedule : Schedule) (cap : ℕ) where
  open schedule use {clock}

  conclude_round-work :
      (n : ℕ) (m : StatusByName) (f : ArkFlow)
      → work cap (conclude_round lib backend schedule n m f).status.steps ≤ work cap f.status.steps
  unfolding conclude_round parse_output_json
  conclude_round-work n m f =
      let parsed = parse_output_json lib f m in
      let kept =
        update_flow_phase-Kept lib (clock n updating) (build_template_data lib parsed m) parsed in
      omega (
        arith,
        ap (work cap) kept.1,
        work-parse_outputs cap lib (schema_by_name f.spec.steps []) m f.status.steps,
      )

  conclude_round-spec :
      (n : ℕ) (m : StatusByName) (f : ArkFlow)
      → (conclude_round lib backend schedule n m f).spec ≡ f.spec
  unfolding conclude_round parse_output_json
  conclude_round-spec n m f =
      let parsed = parse_output_json lib f m in
      (update_flow_phase-Kept lib (clock n updating) (build_template_data lib parsed m) parsed).0

  -- The flow after a round in which these steps were ready.
  abbrev next_flow :
      ℕ → ArkFlow → StatusByName → List ArkFlowStepStatus → List ArkFlowStep → ArkFlow
  next_flow n f m steps ready =
      conclude_round lib backend schedule n m
        (with_steps f (execute_round lib backend schedule n f m steps ready))

  execute_round-work :
      (n : ℕ) (f : ArkFlow) (m : StatusByName) (step : ArkFlowStep) (ready : List ArkFlowStep)
      → Capped cap f.spec.steps
      → (prepare_round lib backend schedule n f m).1 ≡ step ∷ ready
      → work cap (
          execute_round lib backend schedule n f m
            (prepare_round lib backend schedule n f m).0
            (step ∷ ready))
        < work cap f.status.steps
  unfolding execute_round prepare_round
  execute_round-work n f m step ready capped e =
      let context = build_template_data lib f m in
      let looped = evaluate_loops lib f.spec.steps m context f.status.steps in
      let now = λ (name : String). clock n (skipping name) in
      let later = λ (name : String). clock n (starting name) in
      let last = λ (name : String). clock n (finishing name) in
      let started =
        start_steps later (step ∷ ready) m
          (collect_ready_steps lib now f.spec.steps m context looped).0 in
      let less : work cap started < work cap looped =
        work-start_lt cap lib now later m context f.spec.steps looped step ready e in
      omega (
        arith,
        work-evaluate_loops cap lib f.spec.steps m context f.status.steps capped,
        work-finish_steps cap last (round_results lib backend schedule n f m (step ∷ ready)) m
            started,
      )

  -- The flow after a round, with the steps that were ready in it.
  abbrev after_round : ℕ → ArkFlow → ArkFlow
  after_round n f =
      let m = build_status_by_name f.status.steps in
      let (steps, ready) = prepare_round lib backend schedule n f m in next_flow n f m steps ready

  after_round-work :
      (n : ℕ) (f : ArkFlow) (step : ArkFlowStep) (rest : List ArkFlowStep)
      → Capped cap f.spec.steps
      → (prepare_round lib backend schedule n f (build_status_by_name f.status.steps)).1
        ≡ step ∷ rest
      → work cap (after_round n f).status.steps < work cap f.status.steps
  after_round-work n f step rest capped e =
      let m = build_status_by_name f.status.steps in
      let (steps, ready) = prepare_round lib backend schedule n f m in
      let executed = execute_round lib backend schedule n f m steps ready in
      let less : work cap executed < work cap f.status.steps =
        subst
          (λ r.
            work cap (execute_round lib backend schedule n f m steps r) < work cap f.status.steps)
          (sym e) (execute_round-work n f m step rest capped e) in
      omega (arith, conclude_round-work n m (with_steps f executed))

  -- With fuel above the work left, the loop returns.
  run_rounds-total :
      (fuel n : ℕ) (f : ArkFlow) (events : List StepEvent)
      → Capped cap f.spec.steps
      → work cap f.status.steps < fuel
      → (r : ArkFlow × List StepEvent) × (run_rounds lib backend schedule fuel n f events ≡ some r)
  unfolding run_rounds
  run_rounds-total zero n f events capped small = absurd (omega arith)
  run_rounds-total (suc fuel) n f events capped small =
      elim (Bool-cases (is_terminal_phase f.status.phase)) [
        | inl over ↦ ((f, events), rw over)
        | inr goes ↦ elim (List-cases (prepare_round lib backend schedule n f m).1) [
          | inl none_ready ↦ (
            (
              update_flow_phase lib (with_steps f (prepare_round lib backend schedule n f m).0)
                  (clock n updating) (build_template_data lib f m),
              events,
            ),
            rw (goes, none_ready),
          )
          | inr (step, rest, e) ↦
              let (steps, ready) = prepare_round lib backend schedule n f m in
              let executed = with_steps f (execute_round lib backend schedule n f m steps ready) in
              rw (goes, e)
                (run_rounds-total fuel (suc n) (after_round n f)
                  (events
                    ++ (map start_event ready
                        ++ map finish_event (round_results lib backend schedule n f m ready)))
                  (subst (λ spec. Capped cap spec.steps) (sym (conclude_round-spec n m executed))
                    capped)
                  (omega (arith, after_round-work n f step rest capped e)))
        ]
      ]
    where
      m : StatusByName
      m = build_status_by_name f.status.steps

-- No loop of the steps may repeat more than `most` times.
abbrev Repeats : ℕ → Option LoopSpec → Type 0
Repeats most none = Unit
Repeats most (some loop) = max_iter loop ≤ most

abbrev pub RepeatsAtMost : ℕ → List ArkFlowStep → Type 0
RepeatsAtMost most steps = All (λ s. Repeats most s.loop) steps

Repeats→LoopBelow :
    (most : ℕ) (loop : Option LoopSpec)
    → most < half
    → Repeats most loop
    → LoopBelow (half + most) loop
Repeats→LoopBelow most none small h = tt
Repeats→LoopBelow most (some loop) small h = omega arith

RepeatsAtMost→Capped :
    (most : ℕ) (steps : List ArkFlowStep)
    → most < half
    → RepeatsAtMost most steps
    → Capped (half + most) steps
RepeatsAtMost→Capped most [] small h = tt
RepeatsAtMost→Capped most (s ∷ ss) small h =
    (Repeats→LoopBelow most s.loop small h.0, RepeatsAtMost→Capped most ss small h.1)

work-fresh :
    (most : ℕ) (steps : List ArkFlowStep)
    → work (half + most) (map pending_status steps) ≡ length steps * (2 * most + 1)
unfolding pending_status is_pending
work-fresh most [] = omega arith
work-fresh most (s ∷ ss) = grind (arith, work-fresh most ss)

initialize_steps-fresh :
    (lib : Library) (now : Time) (f : ArkFlow)
    → f.status.phase ≡ ArkFlowPhase.unset
    → ((initialize_steps lib now f).spec ≡ f.spec)
      × ((initialize_steps lib now f).status.steps ≡ map pending_status f.spec.steps)
unfolding initialize_steps set_condition
initialize_steps-fresh lib now f fresh = ground arith

-- `Run` returns for every flow that has not been started: where no loop of it may repeat more than
-- `most` times, each step takes at most `2 * most + 1` rounds, whatever the steps return, in
-- whatever order their results arrive, and whatever the clock shows.
pub run-total :
    (lib : Library) (backend : Backend) (schedule : Schedule) (most fuel : ℕ) (f : ArkFlow)
    → f.status.phase ≡ ArkFlowPhase.unset
    → most < half
    → RepeatsAtMost most f.spec.steps
    → length f.spec.steps * (2 * most + 1) < fuel
    → (r : ArkFlow × List StepEvent) × (run lib backend schedule fuel f ≡ some r)
unfolding run
run-total lib backend schedule most fuel f fresh small repeat enough =
    let started = initialize_steps lib schedule.began f in
    let began = initialize_steps-fresh lib schedule.began f fresh in
    run_rounds-total lib backend schedule (half + most) fuel 0 started []
      (subst (λ spec. Capped (half + most) spec.steps) (sym began.0)
        (RepeatsAtMost→Capped most f.spec.steps small repeat))
      (omega (arith, ap (work (half + most)) began.1, work-fresh most f.spec.steps))
