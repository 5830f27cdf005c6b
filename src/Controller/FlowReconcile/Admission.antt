-- ===== src/Controller/FlowReconcile/Admission.antt =====
-- Which flows reach the queue.
use arkonis_operator.Prelude.{
  ℕ, Option, none, some, List, [], ◌∷◌, ◌≡◌, ◌≢◌, refl, arith, Bool, true, false, All, inl, inr,
  ◌⊎◌, Option-cases, Bool-cases,
}
use arkonis_operator.Api.Meta.{Time, Message, Result, ok, err}
use arkonis_operator.Api.Agent.{ArkAgent}
use arkonis_operator.Api.Flow.{ArkFlow, ArkFlowStep}
use arkonis_operator.Flow.Dag.{is_terminal_phase, Validation, valid, invalid, no_fuel, validate_dag}
use arkonis_operator.Flow.Library.{Library}
use arkonis_operator.Agent.Streams.{Redis}
use arkonis_operator.Controller.FlowReconcile.{
  Fetched, found, not_found, unavailable, Cluster, is_trigger_template, validate_agents,
  update_status, reconcile_valid, check_agents, check_graph, check_template, check_deletion,
  reconcile,
}

-- The agent of every step is there.
abbrev pub AllFound : Cluster → List ArkFlowStep → Type 0
AllFound cluster steps =
    All (λ s. (agent : ArkAgent) × (cluster.agent s.ark_agent ≡ found agent)) steps

Fetched-cases :
    {A : Type 0} (r : Fetched A)
    → ((a : A) × (r ≡ found a)) ⊎ ((r ≡ not_found) ⊎ ((e : Message) × (r ≡ unavailable e)))
Fetched-cases (found a) = inl (a, refl)
Fetched-cases not_found = inr (inl refl)
Fetched-cases (unavailable e) = inr (inr (e, refl))

validate_agents-AllFound :
    (cluster : Cluster) (steps : List ArkFlowStep)
    → validate_agents cluster steps ≡ none
    → AllFound cluster steps
unfolding validate_agents
validate_agents-AllFound cluster [] h = tt
validate_agents-AllFound cluster (s ∷ steps) h = elim (Fetched-cases (cluster.agent s.ark_agent)) [
  | inl (agent, at) ↦ ((agent, at), validate_agents-AllFound cluster steps (ground arith))
  | inr (inl gone) ↦ absurd (ground arith)
  | inr (inr (e, lost)) ↦ absurd (ground arith)
]

module _ (redis : Redis) (lib : Library) (cluster : Cluster) where
  open redis use {State}

  update_status-db :
      (db : State) (f : ArkFlow) (after : ℕ) → (update_status redis lib cluster db f after).db ≡ db
  unfolding update_status
  update_status-db db f after = elim (Option-cases (cluster.update f)) [
    | inl fine ↦ rw (fine, update_status) refl
    | inr (e, refused) ↦ rw (refused, update_status) refl
  ]

  -- What `reconcile_valid` asks for.
  abbrev MayRun : Bool → ArkFlow → Type 0
  MayRun connected f = (is_terminal_phase f.status.phase ≡ false) × (connected ≡ true)

  reconcile_valid-MayRun :
      (connected : Bool) (db : State) (f : ArkFlow)
      → (reconcile_valid redis lib cluster connected db f).db ≢ db
      → MayRun connected f
  unfolding reconcile_valid
  reconcile_valid-MayRun connected db f changed =
      elim (Bool-cases (is_terminal_phase f.status.phase)) [
        | inl over ↦ absurd (changed (rw (over, reconcile_valid) (update_status-db db _ 0)))
        | inr goes ↦ elim (Bool-cases connected) [
          | inl here ↦ (goes, here)
          | inr away ↦ absurd (changed (rw (goes, away, reconcile_valid) refl))
        ]
      ]

  check_agents-admits :
      (agents : Option Message) (connected : Bool) (db : State) (f : ArkFlow)
      → (check_agents redis lib cluster agents connected db f).db ≢ db
      → (agents ≡ none) × MayRun connected f
  unfolding check_agents
  check_agents-admits none connected db f changed =
      (refl, reconcile_valid-MayRun connected db f changed)
  check_agents-admits (some e) connected db f changed = absurd (changed refl)

  check_graph-admits :
      (v : Validation) (connected : Bool) (db : State) (f : ArkFlow)
      → (check_graph redis lib cluster v connected db f).db ≢ db
      → (v ≡ valid) × ((validate_agents cluster f.spec.steps ≡ none) × MayRun connected f)
  unfolding check_graph
  check_graph-admits valid connected db f changed =
      (refl, check_agents-admits (validate_agents cluster f.spec.steps) connected db f changed)
  check_graph-admits (invalid e) connected db f changed = absurd (changed refl)
  check_graph-admits no_fuel connected db f changed = absurd (changed refl)

  check_template-admits :
      (template : Result Bool) (connected : Bool) (db : State) (f : ArkFlow)
      → (check_template redis lib cluster template connected db f).db ≢ db
      → (template ≡ ok false)
        × ((validate_dag f.spec.steps ≡ valid)
            × ((validate_agents cluster f.spec.steps ≡ none) × MayRun connected f))
  unfolding check_template
  check_template-admits (err e) connected db f changed = absurd (changed refl)
  check_template-admits (ok true) connected db f changed = absurd (changed refl)
  check_template-admits (ok false) connected db f changed =
      (refl, check_graph-admits (validate_dag f.spec.steps) connected db f changed)

  check_deletion-admits :
      (deleted : Option Time) (connected : Bool) (db : State) (f : ArkFlow)
      → (check_deletion redis lib cluster deleted connected db f).db ≢ db
      → (deleted ≡ none)
        × ((is_trigger_template cluster f ≡ ok false)
            × ((validate_dag f.spec.steps ≡ valid)
                × ((validate_agents cluster f.spec.steps ≡ none) × MayRun connected f)))
  unfolding check_deletion
  check_deletion-admits (some _) connected db f changed = absurd (changed refl)
  check_deletion-admits none connected db f changed =
      (refl, check_template-admits (is_trigger_template cluster f) connected db f changed)

  -- A reconcile that touches the queue is of a flow that was read, is not being deleted, is no target of
  -- an event, has a valid graph, finds the agents of all its steps, and has not ended; and it has a
  -- client of the queue.
  pub reconcile-admits :
      (connected : Bool) (db : State)
      → (reconcile redis lib cluster connected db).db ≢ db
      → (f : ArkFlow) × (cluster.flow ≡ found f)
        × (f.deletion_timestamp ≡ none)
        × (is_trigger_template cluster f ≡ ok false)
        × (validate_dag f.spec.steps ≡ valid)
        × AllFound cluster f.spec.steps
        × (is_terminal_phase f.status.phase ≡ false)
        × (connected ≡ true)
  unfolding reconcile
  reconcile-admits connected db changed = elim (Fetched-cases cluster.flow) [
    | inl (f, here) ↦
        let (kept, (own, (dag, (agents, (goes, linked))))) =
          check_deletion-admits f.deletion_timestamp connected db f
            (λ same. changed (rw (here, reconcile) same)) in
        (
          f,
          here,
          kept,
          own,
          dag,
          validate_agents-AllFound cluster f.spec.steps agents,
          goes,
          linked,
        )
    | inr (inl gone) ↦ absurd (changed (rw (gone, reconcile) refl))
    | inr (inr (e, lost)) ↦ absurd (changed (rw (lost, reconcile) refl))
  ]
