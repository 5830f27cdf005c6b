-- ===== src/Controller/FlowReconcile/Finished.antt =====
-- A flow that has ended.
use arkonis_operator.Prelude.{
  ℕ, Option, none, some, ◌≡◌, refl, Bool, true, false, All, inl, inr, Option-cases,
}
use arkonis_operator.Api.Meta.{Time, Message, Result, ok, err}
use arkonis_operator.Api.Flow.{ArkFlow}
use arkonis_operator.Flow.Dag.{is_terminal_phase, Validation, valid, invalid, no_fuel, validate_dag}
use arkonis_operator.Flow.Library.{Library}
use arkonis_operator.Flow.Step.{set_condition}
use arkonis_operator.Agent.Streams.{Redis}
use arkonis_operator.Controller.FlowReconcile.{
  found, Cluster, Reconciled, is_trigger_template, validate_agents, observed, update_status,
  reconcile_valid, check_agents, check_graph, check_template, check_deletion, reconcile,
}

-- All that a run of the flow decides is as it was; conditions and the observed generation may differ.
abbrev pub IsSameRun : ArkFlow → ArkFlow → Type 0
IsSameRun f g =
    (g.spec ≡ f.spec)
    × (g.status.phase ≡ f.status.phase)
    × (g.status.steps ≡ f.status.steps)
    × (g.status.output ≡ f.status.output)
    × (g.status.completion_time ≡ f.status.completion_time)
    × (g.status.total_token_usage ≡ f.status.total_token_usage)

module _ (redis : Redis) (lib : Library) (cluster : Cluster) where
  open redis use {State}

  -- The queue is as it was, and every status that was written is of the same run.
  abbrev pub IsFrozen : State → ArkFlow → Reconciled redis → Type 0
  IsFrozen db f r = (r.db ≡ db) × All (IsSameRun f) r.writes

  update_status-IsFrozen :
      (db : State) (f g : ArkFlow) (after : ℕ)
      → IsSameRun f g
      → IsFrozen db f (update_status redis lib cluster db g after)
  unfolding update_status
  update_status-IsFrozen db f g after same = elim (Option-cases (cluster.update g)) [
    | inl fine ↦ rw (fine, update_status) (refl, (same, tt))
    | inr (e, refused) ↦ rw (refused, update_status) (refl, (same, tt))
  ]

  reconcile_valid-IsFrozen :
      (connected : Bool) (db : State) (f : ArkFlow)
      → is_terminal_phase f.status.phase ≡ true
      → IsFrozen db f (reconcile_valid redis lib cluster connected db f)
  unfolding reconcile_valid
  reconcile_valid-IsFrozen connected db f over =
      rw (over, reconcile_valid)
        (update_status-IsFrozen db f (observed redis lib cluster f) 0
          (refl, refl, refl, refl, refl, refl))

  check_agents-IsFrozen :
      (agents : Option Message) (connected : Bool) (db : State) (f : ArkFlow)
      → is_terminal_phase f.status.phase ≡ true
      → IsFrozen db f (check_agents redis lib cluster agents connected db f)
  unfolding check_agents set_condition
  check_agents-IsFrozen none connected db f over = reconcile_valid-IsFrozen connected db f over
  check_agents-IsFrozen (some e) connected db f over =
      (refl, ((refl, refl, refl, refl, refl, refl), tt))

  check_graph-IsFrozen :
      (v : Validation) (connected : Bool) (db : State) (f : ArkFlow)
      → is_terminal_phase f.status.phase ≡ true
      → IsFrozen db f (check_graph redis lib cluster v connected db f)
  unfolding check_graph set_condition
  check_graph-IsFrozen valid connected db f over =
      check_agents-IsFrozen (validate_agents cluster f.spec.steps) connected db f over
  check_graph-IsFrozen (invalid e) connected db f over =
      (refl, ((refl, refl, refl, refl, refl, refl), tt))
  check_graph-IsFrozen no_fuel connected db f over = (refl, tt)

  check_template-IsFrozen :
      (template : Result Bool) (connected : Bool) (db : State) (f : ArkFlow)
      → is_terminal_phase f.status.phase ≡ true
      → IsFrozen db f (check_template redis lib cluster template connected db f)
  unfolding check_template
  check_template-IsFrozen (err e) connected db f over = (refl, tt)
  check_template-IsFrozen (ok true) connected db f over = (refl, tt)
  check_template-IsFrozen (ok false) connected db f over =
      check_graph-IsFrozen (validate_dag f.spec.steps) connected db f over

  check_deletion-IsFrozen :
      (deleted : Option Time) (connected : Bool) (db : State) (f : ArkFlow)
      → is_terminal_phase f.status.phase ≡ true
      → IsFrozen db f (check_deletion redis lib cluster deleted connected db f)
  unfolding check_deletion
  check_deletion-IsFrozen (some _) connected db f over = (refl, tt)
  check_deletion-IsFrozen none connected db f over =
      check_template-IsFrozen (is_trigger_template cluster f) connected db f over

  -- Reconciling a flow that has Succeeded or Failed submits no task and changes neither its phase nor
  -- its steps nor its result, whatever the cluster answers.
  pub reconcile-IsFrozen :
      (connected : Bool) (db : State) (f : ArkFlow)
      → cluster.flow ≡ found f
      → is_terminal_phase f.status.phase ≡ true
      → IsFrozen db f (reconcile redis lib cluster connected db)
  unfolding reconcile
  reconcile-IsFrozen connected db f here over =
      rw (here, reconcile) (check_deletion-IsFrozen f.deletion_timestamp connected db f over)
