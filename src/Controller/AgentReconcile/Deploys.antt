-- ===== src/Controller/AgentReconcile/Deploys.antt =====
-- internal/controller/arkagent_controller.go: a reconcile of an agent deploys it with what it read.
use arkonis_operator.Prelude.{
  ℕ, String, Option, none, some, List, ◌≡◌, inl, inr, refl, sym, subst, Bool-cases,
}
use arkonis_operator.Prelude.Words.{le64, lt64}
use arkonis_operator.Api.Meta.{Time, Message, Result, ok, err}
use arkonis_operator.Api.Flow.{ArkFlow}
use arkonis_operator.Api.Settings.{ArkSettings}
use arkonis_operator.Api.Memory.{ArkMemory}
use arkonis_operator.Api.Agent.{ArkAgent}
use arkonis_operator.Controller.Conditions.{Conditions}
use arkonis_operator.Controller.FlowReconcile.{Fetched, found, not_found, unavailable}
use arkonis_operator.Controller.Budget.{
  Window, daily_limit, count_flows, no_window, set_condition, judge_budget, reconcile_daily_budget,
}
use arkonis_operator.Controller.AgentWatch.{resolve_system_prompt}
use arkonis_operator.Controller.Deployment.{
  AgentLibrary, Deployment, DeploymentStatus, Deployed, build_deployment, reconcile_deployment,
  with_status,
}
use arkonis_operator.Controller.Deployment.Applied.{Runs, reconcile_deployment-Runs}
use arkonis_operator.Controller.AgentReconcile.{
  AgentCluster, referenced, updated, sync_status, deployed, deploy, with_prompt, with_memory,
  with_settings, reconcile_agent,
}

judge_budget-status :
    (c : Conditions) (now : Time) (limit : ℕ) (w : Window) (agent : ArkAgent)
    → (judge_budget c now limit w agent).0
      ≡ record agent { status = (judge_budget c now limit w agent).0.status }
unfolding judge_budget set_condition
judge_budget-status c now limit w agent = elim (Bool-cases (le64 limit w.usage.total_tokens)) [
  | inl over ↦ rw (over, judge_budget, set_condition) refl
  | inr under ↦ rw (under, judge_budget) refl
]

-- The check of the budget changes the status only.
pub reconcile_daily_budget-status :
    (c : Conditions) (now : Time) (listed : Result (List ArkFlow)) (agent : ArkAgent)
    → (reconcile_daily_budget c now listed agent).0
      ≡ record agent { status = (reconcile_daily_budget c now listed agent).0.status }
unfolding reconcile_daily_budget
reconcile_daily_budget-status c now (err e) agent = elim (Bool-cases (lt64 0 (daily_limit agent))) [
  | inl limited ↦ rw (limited) refl
  | inr free ↦ rw (free) refl
]
reconcile_daily_budget-status c now (ok flows) agent =
    elim (Bool-cases (lt64 0 (daily_limit agent))) [
      | inl limited ↦ rw (limited) (
          judge_budget-status c now (daily_limit agent) (count_flows now agent.name flows no_window)
            agent)
      | inr free ↦ rw (free) refl
    ]

module _ (lib : AgentLibrary) (cluster : AgentCluster) (agent : ArkAgent) where
  -- The agent, after the check of its budget.
  abbrev pub judged : ArkAgent × Result ℕ
  judged = reconcile_daily_budget lib.conditions cluster.now cluster.flows agent

  -- The deployment is that of the settings, the memory and the prompt that were read.
  abbrev IsDeployed : Option Deployment → Type 0
  IsDeployed d =
      (settings : Option ArkSettings) × (mem : Option ArkMemory) × (prompt : String) × (referenced
          "fetching ArkSettings %q: %w" cluster.settings agent.spec.config_ref
        ≡ ok settings)
      × (referenced "fetching ArkMemory %q: %w" cluster.memories agent.spec.memory_ref ≡ ok mem)
      × (resolve_system_prompt cluster.config_map cluster.secret agent ≡ ok prompt)
      × Runs (build_deployment lib judged.0 settings mem prompt) d

  updated-deployment :
      (a : ArkAgent) (d : Option Deployment) (after n : ℕ) (e : Option Message)
      → (updated lib cluster a d after e).deployment ≡ d
  updated-deployment a d after n none = refl
  updated-deployment a d after n (some e) = refl

  sync_status-deployment :
      (a : ArkAgent) (d : Option Deployment) (after : ℕ) (s : Fetched DeploymentStatus)
      → (sync_status lib cluster a d after s).deployment ≡ d
  unfolding sync_status
  sync_status-deployment a d after not_found = refl
  sync_status-deployment a d after (unavailable e) = refl
  sync_status-deployment a d after (found s) =
      updated-deployment (with_status lib.conditions a s) d after 0
        (cluster.update (with_status lib.conditions a s))

  deployed-Runs :
      (a : ArkAgent) (after n : ℕ) (made : Deployed) (e : Option Message) (desired : Deployment)
      → (e ≡ none → Runs desired made.deployment)
      → (deployed lib cluster a after made e).result ≡ ok n
      → Runs desired (deployed lib cluster a after made e).deployment
  deployed-Runs a after n made none desired runs fine =
      subst (Runs desired)
        (sym (sync_status-deployment a made.deployment after cluster.deployments.status))
        (runs refl)
  deployed-Runs a after n made (some e) desired runs fine = cc fine

  deploy-Runs :
      (settings : Option ArkSettings) (mem : Option ArkMemory) (prompt : String) (a : ArkAgent)
      (r : Result ℕ) (n : ℕ)
      → (deploy lib cluster settings mem prompt (a, r)).result ≡ ok n
      → Runs
          (build_deployment lib a settings mem prompt)
          (deploy lib cluster settings mem prompt (a, r)).deployment
  unfolding deploy
  deploy-Runs settings mem prompt a (err e) n fine = cc fine
  deploy-Runs settings mem prompt a (ok after) n fine =
      let desired = build_deployment lib a settings mem prompt in
      let made = reconcile_deployment cluster.deployments desired in
      deployed-Runs a after n made made.error desired
        (reconcile_deployment-Runs cluster.deployments desired) fine

  module _ (n : ℕ) where
    with_prompt-IsDeployed :
        (settings : Option ArkSettings) (mem : Option ArkMemory) (r : Result String)
        → referenced "fetching ArkSettings %q: %w" cluster.settings agent.spec.config_ref
          ≡ ok settings
        → referenced "fetching ArkMemory %q: %w" cluster.memories agent.spec.memory_ref ≡ ok mem
        → resolve_system_prompt cluster.config_map cluster.secret agent ≡ r
        → (with_prompt lib cluster agent settings mem r).result ≡ ok n
        → IsDeployed (with_prompt lib cluster agent settings mem r).deployment
    with_prompt-IsDeployed settings mem (err e) has_settings has_memory has_prompt fine = cc fine
    with_prompt-IsDeployed settings mem (ok prompt) has_settings has_memory has_prompt fine = (
      settings,
      mem,
      prompt,
      has_settings,
      has_memory,
      has_prompt,
      deploy-Runs settings mem prompt judged.0 judged.1 n fine,
    )

    with_memory-IsDeployed :
        (settings : Option ArkSettings) (r : Result (Option ArkMemory))
        → referenced "fetching ArkSettings %q: %w" cluster.settings agent.spec.config_ref
          ≡ ok settings
        → referenced "fetching ArkMemory %q: %w" cluster.memories agent.spec.memory_ref ≡ r
        → (with_memory lib cluster agent settings r).result ≡ ok n
        → IsDeployed (with_memory lib cluster agent settings r).deployment
    with_memory-IsDeployed settings (err e) has_settings has_memory fine = cc fine
    with_memory-IsDeployed settings (ok mem) has_settings has_memory fine =
        with_prompt-IsDeployed settings mem
          (resolve_system_prompt cluster.config_map cluster.secret agent) has_settings has_memory
          refl fine

    pub with_settings-IsDeployed :
        (r : Result (Option ArkSettings))
        → referenced "fetching ArkSettings %q: %w" cluster.settings agent.spec.config_ref ≡ r
        → (with_settings lib cluster agent r).result ≡ ok n
        → IsDeployed (with_settings lib cluster agent r).deployment
    with_settings-IsDeployed (err e) has_settings fine = cc fine
    with_settings-IsDeployed (ok settings) has_settings fine =
        with_memory-IsDeployed settings
          (referenced "fetching ArkMemory %q: %w" cluster.memories agent.spec.memory_ref)
          has_settings refl fine

    pub reconcile_agent-with_settings :
        cluster.agent ≡ found agent
        → agent.deletion_timestamp ≡ none
        → reconcile_agent lib cluster
          ≡ with_settings lib cluster agent
              (referenced "fetching ArkSettings %q: %w" cluster.settings agent.spec.config_ref)
    unfolding reconcile_agent
    reconcile_agent-with_settings get alive = rw (get, alive, reconcile_agent) refl
