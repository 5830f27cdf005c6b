-- ===== src/Tests/ControllerTests.antt =====
-- Passes of the flow controller.
use text.Mathlib.TextEquality.{eq_iff}
use arkonis_operator.Prelude.{
  ◌+◌, String, none, some, List, [], ◌∷◌, ◌≡◌, ◌≢◌, refl, ap, arith, true, false, inr, get_elem?,
  length,
}
use arkonis_operator.Prelude.Map.{lookup, lookup_or, insert}
use arkonis_operator.Api.Meta.{ok}
use arkonis_operator.Api.Flow.{ArkFlow, ArkFlowStepStatus, ArkFlowStepPhase, ArkFlowPhase}
use arkonis_operator.Flow.Dag.{
  is_terminal_phase, valid, validate_dag, step_names, unknown_dep, unknown_deps, adjacency,
  color_of, deps_of, visit, dfs, search_all, status_of, build_status_by_name, index_from,
  deps_succeeded,
}
use arkonis_operator.Flow.Library.{TemplateData}
use arkonis_operator.Flow.Template.{
  resolve_prompt, resolve_inputs, build_template_data, steps_data, step_entry,
}
use arkonis_operator.Flow.Step.{
  pending_status, is_pending, is_unset, initialize_steps, set_condition, parse_output_json,
  parse_outputs, parse_turn, schema_by_name, evaluate_loops, evaluate_turn,
}
use arkonis_operator.Local.Steps.{readiness}
use arkonis_operator.Agent.Streams.{Entry}
use arkonis_operator.Controller.FlowSteps.{
  is_waiting, waiting_of, take_at, take_results, collect_results, submit_task, submit_prompt,
  submit_step, submit_pending_steps,
}
use arkonis_operator.Controller.FlowSteps.Submitted.{
  running_steps, tasks, submit_pending_steps-balanced,
}
use arkonis_operator.Controller.FlowSteps.Collected.{collect_results-keeps}
use arkonis_operator.Controller.FlowReconcile.{
  found, Cluster, any_targets, is_trigger_template, validate_agents, update_status, advance_flow,
  run_flow, reconcile_valid, check_agents, check_graph, check_template, check_deletion, reconcile,
}
use arkonis_operator.Controller.FlowReconcile.Finished.{IsFrozen, reconcile-IsFrozen}
use arkonis_operator.Controller.FlowReconcile.Admission.{AllFound, reconcile-admits}
use arkonis_operator.Tests.Samples.{flow_of, plain, status_in, agent_named, echo}
use arkonis_operator.Tests.Store.{memory, memory-IsStream, nothing}

abbrev one : ArkFlow
one = flow_of (plain "a" [] ∷ [])

abbrev no_data : TemplateData String
no_data = record { input = []; steps = [] }

abbrev pending_a : List ArkFlowStepStatus
pending_a = status_in "a" ArkFlowStepPhase.pending 0 0 ∷ []

submits_a :
    (submit_pending_steps memory echo
      (λ name. 9)
      (("a", 0) ∷ [])
      no_data
      one.spec.steps
      nothing
      pending_a).error
    ≡ none
unfolding submit_pending_steps submit_step submit_prompt submit_task readiness status_of
    deps_succeeded is_pending lookup resolve_prompt resolve_inputs
submits_a = refl

submit_pending_steps-balanced_example :
    running_steps
        (submit_pending_steps memory echo
          (λ name. 9)
          (("a", 0) ∷ [])
          no_data
          one.spec.steps
          nothing
          pending_a).steps
      + 0
    ≡ 0
      + tasks memory memory-IsStream
          (submit_pending_steps memory echo
            (λ name. 9)
            (("a", 0) ∷ [])
            no_data
            one.spec.steps
            nothing
            pending_a).db
submit_pending_steps-balanced_example =
    submit_pending_steps-balanced memory memory-IsStream echo (λ name. 9) (("a", 0) ∷ []) no_data
      one.spec.steps nothing pending_a submits_a

-- A step that waits for a task, and a result of another.
abbrev waiting_a : ArkFlowStepStatus
waiting_a = record (status_in "a" ArkFlowStepPhase.running 0 0) { task_id = "7-7" }

abbrev other_result : Entry
other_result = record { id = "9-0"; values = ("task_id", "8-8") ∷ ("result", "text") ∷ [] }

abbrev with_result : String → List Entry
with_result stream = other_result ∷ []

other_task : lookup_or "" "task_id" other_result.values ≢ "7-7"
unfolding lookup_or lookup
other_task = ground (arith, eq_iff "8-8" "7-7")

collects_nothing :
    collect_results memory (λ id. 9) with_result (("a", 0) ∷ []) (waiting_a ∷ [])
    ≡ ok (waiting_a ∷ [])
unfolding collect_results waiting_of take_results take_at is_waiting lookup lookup_or insert
collects_nothing = refl

collect_results-keeps_example : get_elem? (waiting_a ∷ []) 0 ≡ some waiting_a
collect_results-keeps_example =
    collect_results-keeps memory (λ id. 9) with_result (("a", 0) ∷ []) (waiting_a ∷ [])
      (waiting_a ∷ []) (other_result ∷ []) 0 waiting_a refl refl (inr (other_task, tt))
      collects_nothing

abbrev cluster_of : ArkFlow → Cluster
cluster_of f = record {
  flow = found f;
  events = ok [];
  agent = λ name. found (agent_named name);
  update = λ g. none;
  began = 1;
  collected = λ id. 2;
  submitted = λ name. 3;
  updated = 4;
}

abbrev over : ArkFlow
over = record one { status = record (one.status) { phase = ArkFlowPhase.failed; output = "x" } }

over-is_terminal_phase : is_terminal_phase over.status.phase ≡ true
unfolding is_terminal_phase
over-is_terminal_phase = refl

reconcile-IsFrozen_example :
    IsFrozen memory echo
      (cluster_of over)
      nothing
      over
      (reconcile memory echo (cluster_of over) true nothing)
reconcile-IsFrozen_example =
    reconcile-IsFrozen memory echo (cluster_of over) true nothing over refl over-is_terminal_phase

submits_one : length ((reconcile memory echo (cluster_of one) true nothing).db "agent-tasks") ≡ 1
unfolding reconcile check_deletion check_template check_graph check_agents reconcile_valid run_flow
    advance_flow update_status is_trigger_template any_targets validate_agents validate_dag
    step_names unknown_dep unknown_deps adjacency color_of deps_of visit dfs search_all
    is_terminal_phase initialize_steps is_unset set_condition pending_status build_status_by_name
    index_from collect_results waiting_of is_waiting lookup insert parse_output_json parse_outputs
    parse_turn schema_by_name build_template_data steps_data step_entry evaluate_loops evaluate_turn
    submit_pending_steps submit_step submit_prompt submit_task readiness status_of deps_succeeded
    is_pending resolve_prompt resolve_inputs
submits_one = refl

one-changes : (reconcile memory echo (cluster_of one) true nothing).db ≢ nothing
one-changes same =
    let none_there = ap (λ db. length (db "agent-tasks")) same in
    absurd (omega (arith, submits_one, none_there))

reconcile-admits_example :
    (f : ArkFlow) × (found one ≡ found f)
    × (f.deletion_timestamp ≡ none)
    × (is_trigger_template (cluster_of one) f ≡ ok false)
    × (validate_dag f.spec.steps ≡ valid)
    × AllFound (cluster_of one) f.spec.steps
    × (is_terminal_phase f.status.phase ≡ false)
    × (true ≡ true)
reconcile-admits_example = reconcile-admits memory echo (cluster_of one) true nothing one-changes
