-- ===== src/Controller/AgentReconcile.antt =====
-- internal/controller/arkagent_controller.go: `Reconcile` of an agent, and the agents that a config map or a
-- secret wakes. The answers of the API server are parameters.
pub mod Deploys
pub mod Outcome
use arkonis_operator.Prelude.{ℕ, String, Option, none, some, List, [], ◌∷◌, ◌==◌, if◌then◌else◌}
use arkonis_operator.Prelude.Map.{Map}
use arkonis_operator.Api.Meta.{
  Time, Message, format, str, msg, end, Result, ok, err, condition_false,
}
use arkonis_operator.Api.Flow.{ArkFlow}
use arkonis_operator.Api.Settings.{ArkSettings}
use arkonis_operator.Api.Memory.{ArkMemory, LocalObjectReference}
use arkonis_operator.Api.Agent.{ArkAgent, KeySelector, SystemPromptSource}
use arkonis_operator.Controller.FlowReconcile.{Fetched, found, not_found, unavailable}
use arkonis_operator.Controller.Budget.{set_condition, reconcile_daily_budget}
use arkonis_operator.Controller.AgentWatch.{resolve_system_prompt}
use arkonis_operator.Controller.Deployment.{
  AgentLibrary, Deployment, DeploymentStatus, DeploymentCluster, Deployed, build_deployment,
  reconcile_deployment, with_status,
}

-- The cluster at one reconcile: the agent; the settings, the memories, the config maps and the secrets of the
-- namespace; its flows; the deployment; the answer to a status update; and the clock.
pub record AgentCluster : Type 0 where
  pub agent : Fetched ArkAgent
  pub settings : String → Fetched ArkSettings
  pub memories : String → Fetched ArkMemory
  pub config_map : String → Result (Map String)
  pub secret : String → Result (Map String)
  pub flows : Result (List ArkFlow)
  pub deployments : DeploymentCluster
  pub update : ArkAgent → Option Message
  pub now : Time

-- What a reconcile leaves: the statuses that it wrote, the deployment as far as it was read or written, and
-- the time after which to run again, or the error.
pub record AgentReconciled : Type 0 where
  pub writes : List ArkAgent
  pub deployment : Option Deployment
  pub result : Result ℕ

abbrev ended : Option Deployment → Result ℕ → AgentReconciled
ended d result = record { writes = []; deployment = d; result = result }

-- What a reference names, or nothing where it is missing; `kind` is in the message of another error.
abbrev pub fetched : {A : Type 0} → String → String → Fetched A → Result (Option A)
fetched kind name (found a) = ok (some a)
fetched kind name not_found = ok none
fetched kind name (unavailable e) = err (format kind (str name (msg e end)))

unfoldable pub referenced :
    {A : Type 0} → String → (String → Fetched A) → Option LocalObjectReference → Result (Option A)
referenced kind get none = ok none
referenced kind get (some ref) = fetched kind ref.name (get ref.name)

module _ (lib : AgentLibrary) (cluster : AgentCluster) where
  -- A status with a condition that is not ready, whose write may fail unseen.
  abbrev pub not_ready : ArkAgent → Option Deployment → String → Message → AgentReconciled
  not_ready agent d reason e = record {
    writes = set_condition lib.conditions agent "Ready" condition_false reason e ∷ [];
    deployment = d;
    result = err e;
  }

  abbrev pub updated : ArkAgent → Option Deployment → ℕ → Option Message → AgentReconciled
  updated agent d after none = record { writes = agent ∷ []; deployment = d; result = ok after }
  updated agent d after (some e) = record { writes = agent ∷ []; deployment = d; result = err e }

  -- `syncStatus`.
  unfoldable pub sync_status :
      ArkAgent → Option Deployment → ℕ → Fetched DeploymentStatus → AgentReconciled
  unfolding with_status
  sync_status agent d after not_found = ended d (ok after)
  sync_status agent d after (unavailable e) = ended d (err e)
  sync_status agent d after (found s) =
      let synced = with_status lib.conditions agent s in
      updated synced d after (cluster.update synced)

  -- After `reconcileDeployment`.
  abbrev pub deployed : ArkAgent → ℕ → Deployed → Option Message → AgentReconciled
  deployed agent after made (some e) = not_ready agent made.deployment "ReconcileError" e
  deployed agent after made none =
      sync_status agent made.deployment after cluster.deployments.status

  -- After `reconcileDailyBudget`.
  unfoldable pub deploy :
      Option ArkSettings → Option ArkMemory → String → ArkAgent × Result ℕ → AgentReconciled
  unfolding reconcile_deployment build_deployment sync_status
  deploy settings mem prompt (agent, err e) = ended none (err e)
  deploy settings mem prompt (agent, ok after) =
      let made =
        reconcile_deployment cluster.deployments (build_deployment lib agent settings mem prompt) in
      deployed agent after made made.error

  -- After `resolveSystemPrompt`.
  abbrev pub with_prompt :
      ArkAgent → Option ArkSettings → Option ArkMemory → Result String → AgentReconciled
  with_prompt agent settings mem (err e) = not_ready agent none "PromptResolutionError" e
  with_prompt agent settings mem (ok prompt) =
      deploy settings mem prompt
        (reconcile_daily_budget lib.conditions cluster.now cluster.flows agent)

  abbrev pub with_memory :
      ArkAgent → Option ArkSettings → Result (Option ArkMemory) → AgentReconciled
  with_memory agent settings (err e) = ended none (err e)
  with_memory agent settings (ok mem) =
      with_prompt agent settings mem (resolve_system_prompt cluster.config_map cluster.secret agent)

  abbrev pub with_settings : ArkAgent → Result (Option ArkSettings) → AgentReconciled
  with_settings agent (err e) = ended none (err e)
  with_settings agent (ok settings) =
      with_memory agent settings
        (referenced "fetching ArkMemory %q: %w" cluster.memories agent.spec.memory_ref)

  abbrev pub unless_deleted : ArkAgent → Option Time → AgentReconciled
  unless_deleted agent (some _) = ended none (ok 0)
  unless_deleted agent none =
      with_settings agent
        (referenced "fetching ArkSettings %q: %w" cluster.settings agent.spec.config_ref)

  abbrev pub on_agent : Fetched ArkAgent → AgentReconciled
  on_agent not_found = ended none (ok 0)
  on_agent (unavailable e) = ended none (err e)
  on_agent (found agent) = unless_deleted agent agent.deletion_timestamp

  unfoldable pub reconcile_agent : AgentReconciled
  unfolding deploy referenced
  reconcile_agent = on_agent cluster.agent

abbrev refers : String → Option KeySelector → List String → List String → List String
refers name none here rest = rest
refers name (some ref) here rest = if ref.name == name then here else rest

abbrev prompt_ref :
    (SystemPromptSource → Option KeySelector) → Option SystemPromptSource → Option KeySelector
prompt_ref pick none = none
prompt_ref pick (some ref) = pick ref

-- The loop over the agents: the names of those whose prompt is in the object of a name.
unfoldable pub agents_of :
    (SystemPromptSource → Option KeySelector) → String → List ArkAgent → List String
agents_of pick name [] = []
agents_of pick name (agent ∷ agents) =
    let rest = agents_of pick name agents in
    refers name (prompt_ref pick agent.spec.system_prompt_ref) (agent.name ∷ rest) rest

abbrev listed_agents :
    (SystemPromptSource → Option KeySelector) → String → Result (List ArkAgent) → List String
listed_agents pick name (err _) = []
listed_agents pick name (ok agents) = agents_of pick name agents

-- `listed` is the list of the agents of the namespace.
unfoldable pub config_map_to_agents : String → Result (List ArkAgent) → List String
unfolding agents_of
config_map_to_agents name listed = listed_agents (λ ref. ref.config_map_key_ref) name listed

unfoldable pub secret_to_agents : String → Result (List ArkAgent) → List String
unfolding agents_of
secret_to_agents name listed = listed_agents (λ ref. ref.secret_key_ref) name listed
