-- ===== src/Tests/LocalTests.antt =====
-- Runs of the local executor.
use arkonis_operator.Prelude.{none, some, List, [], ◌∷◌, ◌≡◌, map, refl, arith, inl, All}
use arkonis_operator.Api.Flow.{ArkFlow, ArkFlowPhase}
use arkonis_operator.Flow.Step.{
  pending_status, is_pending, is_succeeded, evaluate_loops, evaluate_turn, evaluate_loop, holds,
  parse_output_json, parse_outputs, parse_turn, schema_by_name,
}
use arkonis_operator.Flow.Template.{
  resolve_prompt, resolve_inputs, resolve_template, is_truthy, build_template_data, steps_data,
  step_entry,
}
use arkonis_operator.Flow.Dag.{status_of, build_status_by_name, index_from, deps_succeeded, is_done}
use arkonis_operator.Local.Steps.{
  collect_ready_steps, readiness, skip_status, run_step, agent_config, limit_or,
}
use arkonis_operator.Prelude.Map.{lookup, insert}
use arkonis_operator.Prelude.Text.{trim_space, trim_left, trim_right, to_lower}
use arkonis_operator.Flow.Phase.Verdict.{Fits, IsLate, IsOverBudget, AnyFailed, IsDone}
use arkonis_operator.Local.Executor.{
  StepEvent, run, run_rounds, prepare_round, execute_round, round_results, step_result, start_steps,
  finish_steps, start_status, finish_status, update_named,
}
use arkonis_operator.Local.Executor.Termination.{run-total}
use arkonis_operator.Local.Executor.Ends.{idle, executed, run_rounds_stuck, run_rounds_succeeds}
use arkonis_operator.Tests.Samples.{flow_of, plain, step, echo, backend, schedule}

abbrev two : ArkFlow
two = flow_of (plain "b" ("a" ∷ []) ∷ plain "a" [] ∷ [])

run-total_example : (r : ArkFlow × List StepEvent) × (run echo backend schedule 3 two ≡ some r)
run-total_example =
    run-total echo backend schedule 0 3 two refl (omega arith) (tt, (tt, tt)) (omega arith)

-- A step whose condition is false, listed after the step that depends on it.
abbrev skipping : ArkFlow
skipping = flow_of (plain "b" ("a" ∷ []) ∷ step "a" [] "false" none ∷ [])

abbrev started : ArkFlow
started = record skipping {
  status = record (skipping.status) {
    phase = ArkFlowPhase.running;
    start_time = some 0;
    steps = map pending_status skipping.spec.steps;
  };
}

stuck_inputs :
    ((prepare_round echo backend schedule 0 started (build_status_by_name started.status.steps)).1
      ≡ [])
    × Fits (idle echo backend schedule 0 started)
    × (¬ IsLate (idle echo backend schedule 0 started) 1)
    × (¬ IsOverBudget (idle echo backend schedule 0 started))
    × (¬ AnyFailed (idle echo backend schedule 0 started).status.steps)
    × (¬ All IsDone (idle echo backend schedule 0 started).status.steps)
unfolding prepare_round collect_ready_steps evaluate_loops evaluate_turn evaluate_loop readiness
    status_of build_status_by_name index_from deps_succeeded is_done holds resolve_template
    is_truthy trim_space trim_left trim_right to_lower lookup insert skip_status pending_status
    is_pending is_succeeded build_template_data steps_data step_entry
stuck_inputs = (refl, omega arith, ground arith, ground arith, ground arith, ground arith)

run_rounds_stuck_example :
    (r : ArkFlow) × (run_rounds echo backend schedule 1 0 started [] ≡ some (r, []))
    × (r.status.phase ≡ ArkFlowPhase.running)
run_rounds_stuck_example =
    let (none_ready, fits, early, within, fine, unfinished) = stuck_inputs in
    run_rounds_stuck echo backend schedule 0 0 started [] refl none_ready fits early within fine
      unfinished

-- A step that is to repeat while its condition holds, at most three times.
abbrev repeating : ArkFlow
repeating =
    let f =
      flow_of (step "a" [] "" (some (record { condition = "true"; max_iterations = 3 })) ∷ []) in
    record f {
      status = record (f.status) {
        phase = ArkFlowPhase.running;
        start_time = some 0;
        steps = map pending_status f.spec.steps;
      };
    }

success_inputs :
    ((prepare_round echo backend schedule 0 repeating
        (build_status_by_name repeating.status.steps)).1
      ≡ repeating.spec.steps)
    × Fits (executed echo backend schedule 0 repeating)
    × (¬ IsLate (executed echo backend schedule 0 repeating) 1)
    × (¬ IsOverBudget (executed echo backend schedule 0 repeating))
    × All IsDone (executed echo backend schedule 0 repeating).status.steps
unfolding prepare_round execute_round round_results step_result start_steps finish_steps
    start_status finish_status update_named run_step agent_config limit_or resolve_prompt
    resolve_inputs collect_ready_steps evaluate_loops evaluate_turn evaluate_loop readiness
    status_of build_status_by_name index_from deps_succeeded is_done holds lookup insert
    pending_status is_pending is_succeeded build_template_data steps_data step_entry
    parse_output_json parse_outputs parse_turn schema_by_name
success_inputs = (refl, omega arith, ground arith, ground arith, (inl refl, tt))

run_rounds_succeeds_example :
    (r : ArkFlow × List StepEvent) × (run_rounds echo backend schedule 2 0 repeating [] ≡ some r)
    × (r.0.status.phase ≡ ArkFlowPhase.succeeded)
run_rounds_succeeds_example =
    let (ready, fits, early, within, done) = success_inputs in
    run_rounds_succeeds echo backend schedule 0 0 repeating []
      (step "a" [] "" (some (record { condition = "true"; max_iterations = 3 }))) [] refl ready fits
      early within done
