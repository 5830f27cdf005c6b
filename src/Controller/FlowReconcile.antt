-- ===== src/Controller/FlowReconcile.antt =====
-- internal/controller/arkflow_controller.go: `Reconcile` of a flow, and the checks that it makes before.
-- What the cluster answers is a parameter.
pub mod Finished
pub mod Admission
use arkonis_operator.Prelude.{
  ℕ, String, Option, none, some, List, [], ◌∷◌, ◌++◌, Bool, true, false, ◌||◌, ◌==◌, if◌then◌else◌,
}
use arkonis_operator.Prelude.Words.{Int64}
use arkonis_operator.Api.Meta.{
  Time, Message, text, format, str, msg, end, Result, ok, err, condition_false,
}
use arkonis_operator.Api.Flow.{ArkFlow, ArkFlowStep, ArkFlowPhase}
use arkonis_operator.Api.Agent.{ArkAgent}
use arkonis_operator.Api.Event.{ArkEvent, ArkEventTarget}
use arkonis_operator.Flow.Dag.{
  StatusByName, is_terminal_phase, build_status_by_name, Validation, valid, invalid, no_fuel,
  validate_dag, dag_message,
}
use arkonis_operator.Flow.Library.{Library}
use arkonis_operator.Flow.Template.{build_template_data}
use arkonis_operator.Flow.Step.{set_condition, initialize_steps, parse_output_json, evaluate_loops}
use arkonis_operator.Flow.Phase.{update_flow_phase}
use arkonis_operator.Local.Executor.{with_steps}
use arkonis_operator.Agent.Streams.{Redis}
use arkonis_operator.Controller.FlowSteps.{Pass, collect_results, submit_pending_steps}

-- A `Get`: the object, `IsNotFound`, or another error.
pub data Fetched (A : Type 0) : Type 0 where
  found : A → Fetched A
  not_found : Fetched A
  unavailable : Message → Fetched A

-- The cluster at one reconcile: the flow, the events of its namespace, the agents of its namespace by
-- name, the answer to a status update, and the clock when the flow is initialized, a result is
-- collected, a step is submitted, and the phase is updated.
pub record Cluster : Type 0 where
  pub flow : Fetched ArkFlow
  pub events : Result (List ArkEvent)
  pub agent : String → Fetched ArkAgent
  pub update : ArkFlow → Option Message
  pub began : Time
  pub collected : String → Time
  pub submitted : String → Time
  pub updated : Time

unfoldable pub targets_pipeline : String → List ArkEventTarget → Bool
targets_pipeline name [] = false
targets_pipeline name (target ∷ targets) = target.pipeline == name || targets_pipeline name targets

unfoldable pub any_targets : String → List ArkEvent → Bool
any_targets name [] = false
any_targets name (event ∷ events) =
    targets_pipeline name event.spec.targets || any_targets name events

unfoldable pub is_trigger_template : Cluster → ArkFlow → Result Bool
is_trigger_template cluster f = elim cluster.events [
  | err e ↦ err e
  | ok events ↦ ok (any_targets f.name events)
]

-- `validateAgents`: the first agent that is missing or cannot be read.
unfoldable pub validate_agents : Cluster → List ArkFlowStep → Option Message
validate_agents cluster [] = none
validate_agents cluster (step ∷ steps) =
    let rest = validate_agents cluster steps in
    elim (cluster.agent step.ark_agent) [
      | found _ ↦ rest
      | not_found ↦
          some (
            format "step %q references missing ArkAgent %q"
              (str step.name (str step.ark_agent end)))
      | unavailable e ↦ some e
    ]

module _ (redis : Redis) where
  open redis use {State}

  -- What a reconcile leaves: the queue, the statuses that it wrote, in order, and its result, which is
  -- the time after which to run again (0 for none) or an error.
  pub record Reconciled : Type 0 where
    pub db : State
    pub writes : List ArkFlow
    pub result : Result ℕ

  abbrev ended : State → Result ℕ → Reconciled
  ended db result = record { db = db; writes = []; result = result }

  -- A write whose own error is dropped.
  abbrev wrote : State → ArkFlow → Result ℕ → Reconciled
  wrote db f result = record { db = db; writes = f ∷ []; result = result }

  module _ (lib : Library) (cluster : Cluster) where
    abbrev requeue_after : ArkFlowPhase → ℕ
    requeue_after ArkFlowPhase.running = 5000000000
    requeue_after ArkFlowPhase.unset = 0
    requeue_after ArkFlowPhase.pending = 0
    requeue_after ArkFlowPhase.succeeded = 0
    requeue_after ArkFlowPhase.failed = 0

    -- `Status().Update` whose error ends the reconcile.
    unfoldable pub update_status : State → ArkFlow → ℕ → Reconciled
    update_status db f after = elim (cluster.update f) [
      | some e ↦ wrote db f (err e)
      | none ↦ wrote db f (ok after)
    ]

    abbrev pub observed : ArkFlow → ArkFlow
    observed f = record f { status = record (f.status) { observed_generation = f.generation } }

    -- The rest once the results are in.
    unfoldable pub advance_flow : StatusByName → State → ArkFlow → Reconciled
    advance_flow m db f =
        let parsed = parse_output_json lib f m in
        let context = build_template_data lib parsed m in
        let looped = evaluate_loops lib f.spec.steps m context parsed.status.steps in
        let pass =
          submit_pending_steps redis lib cluster.submitted m context f.spec.steps db looped in
        let submitted = with_steps f pass.steps in
        let decided = observed (update_flow_phase lib submitted cluster.updated context) in
        elim pass.error [
          | some e ↦ wrote pass.db submitted (err e)
          | none ↦ update_status pass.db decided (requeue_after decided.status.phase)
        ]

    -- The part of `Reconcile` that has a queue.
    unfoldable pub run_flow : State → ArkFlow → Reconciled
    run_flow db f =
        let started = initialize_steps lib cluster.began f in
        let m = build_status_by_name started.status.steps in
        elim (collect_results redis cluster.collected db m started.status.steps) [
          | err e ↦ ended db (err (format "collecting step results: %w" (msg e end)))
          | ok steps ↦ advance_flow m db (with_steps started steps)
        ]

    abbrev no_queue : Message
    no_queue = text "TASK_QUEUE_URL not set; flow execution requires Redis"

    -- Once the graph and the agents are in order. `connected` is whether `getRedis` has a client.
    unfoldable pub reconcile_valid : Bool → State → ArkFlow → Reconciled
    reconcile_valid connected db f =
        let running = run_flow db f in
        if is_terminal_phase f.status.phase
        then update_status db (observed f) 0
        else if connected
        then running
        else wrote db (set_condition lib f condition_false "NoTaskQueue" no_queue) (ok 0)

    -- After `validateAgents`.
    unfoldable pub check_agents : Option Message → Bool → State → ArkFlow → Reconciled
    check_agents none connected db f = reconcile_valid connected db f
    check_agents (some e) connected db f =
        wrote db (set_condition lib f condition_false "DeploymentNotFound" e) (ok 0)

    -- After `ValidateDAG`.
    unfoldable pub check_graph : Validation → Bool → State → ArkFlow → Reconciled
    check_graph valid connected db f =
        check_agents (validate_agents cluster f.spec.steps) connected db f
    check_graph (invalid e) connected db f =
        wrote db (set_condition lib f condition_false "InvalidDAG" (dag_message e)) (ok 0)
    check_graph no_fuel connected db f = ended db (ok 0)

    -- After `isTriggerTemplate`.
    unfoldable pub check_template : Result Bool → Bool → State → ArkFlow → Reconciled
    check_template (err e) connected db f = ended db (err e)
    check_template (ok true) connected db f = ended db (ok 0)
    check_template (ok false) connected db f =
        check_graph (validate_dag f.spec.steps) connected db f

    -- After the flow was read.
    unfoldable pub check_deletion : Option Time → Bool → State → ArkFlow → Reconciled
    check_deletion (some _) connected db f = ended db (ok 0)
    check_deletion none connected db f =
        check_template (is_trigger_template cluster f) connected db f

    unfoldable pub reconcile : Bool → State → Reconciled
    reconcile connected db = elim cluster.flow [
      | not_found ↦ ended db (ok 0)
      | unavailable e ↦ ended db (err e)
      | found f ↦ check_deletion f.deletion_timestamp connected db f
    ]
