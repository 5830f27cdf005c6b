-- ===== src/Controller/AgentReconcile/Outcome.antt =====
-- internal/controller/arkagent_controller.go: the deployment that a reconcile of an agent leaves.
use arkonis_operator.Prelude.{
  ℕ, ◌<◌, String, Option, none, some, List, [], ◌∷◌, leb, ◌≡◌, refl, sym, ap, ◌∙◌, subst,
  if◌then◌else◌,
}
use arkonis_operator.Prelude.Words.{half}
use arkonis_operator.Api.Meta.{ok}
use arkonis_operator.Api.Flow.{ArkFlow}
use arkonis_operator.Api.Settings.{ArkSettings}
use arkonis_operator.Api.Memory.{ArkMemory}
use arkonis_operator.Api.Agent.{ArkAgent}
use arkonis_operator.Controller.Conditions.{IsConditionSet}
use arkonis_operator.Controller.FlowReconcile.{found}
use arkonis_operator.Controller.Budget.{daily_limit, desired_replicas, reconcile_daily_budget}
use arkonis_operator.Controller.Budget.Exceeded.{spent, reconcile_daily_budget-desired_replicas}
use arkonis_operator.Controller.AgentEnv.{
  EnvVar, literal, merge_system_prompt, base_env_vars, build_env_vars,
}
use arkonis_operator.Controller.AgentEnv.Backend.{last_value}
use arkonis_operator.Controller.AgentEnv.Own.{
  SeesBackend, last_value-own, build_env_vars-SeesBackend,
}
use arkonis_operator.Controller.AgentWatch.{resolve_system_prompt}
use arkonis_operator.Controller.Deployment.{
  AgentLibrary, Container, Deployment, agent_container, agent_labels, build_deployment,
}
use arkonis_operator.Controller.Deployment.Applied.{Runs}
use arkonis_operator.Controller.AgentReconcile.{AgentCluster, referenced, reconcile_agent}
use arkonis_operator.Controller.AgentReconcile.Deploys.{
  reconcile_daily_budget-status, judged, with_settings-IsDeployed, reconcile_agent-with_settings,
}

module _ (lib : AgentLibrary) (cluster : AgentCluster) (agent : ArkAgent) where
  -- The deployment of an agent depends on its status in the replicas only.
  build_deployment-status :
      (settings : Option ArkSettings) (mem : Option ArkMemory) (prompt : String) (a : ArkAgent)
      → a ≡ record agent { status = a.status }
      → build_deployment lib a settings mem prompt
        ≡ record (build_deployment lib agent settings mem prompt) {
          replicas = desired_replicas lib.conditions a;
        }
  unfolding build_deployment agent_labels agent_container build_env_vars base_env_vars
  build_deployment-status settings mem prompt a same =
      subst
        (λ x.
          build_deployment lib x settings mem prompt
          ≡ record (build_deployment lib agent settings mem prompt) {
            replicas = desired_replicas lib.conditions x;
          })
        (sym same) refl

  -- The replicas that the agent asks for.
  abbrev pub asked_replicas : ℕ
  asked_replicas = elim agent.spec.replicas as (λ r. ℕ) [ none ↦ 1 | some n ↦ n ]

  -- None while the daily limit is used up.
  abbrev allowed_replicas : List ArkFlow → ℕ
  allowed_replicas flows =
      if leb (daily_limit agent) (spent cluster.now agent.name flows) then 0 else asked_replicas

  abbrev desired : List ArkFlow → Option ArkSettings → Option ArkMemory → String → Deployment
  desired flows settings mem prompt = record (build_deployment lib agent settings mem prompt) {
    replicas = allowed_replicas flows;
  }

  -- The variables of the deployment's one container: those of `buildEnvVars`. What is seen of them are the model, the
  -- prompt, merged with the settings, and the backend of the memory, if there is one.
  abbrev pub HasEnv : Option ArkSettings → Option ArkMemory → String → List EnvVar → Type 0
  HasEnv settings mem prompt vars =
      (vars ≡ build_env_vars lib.marshal_servers lib.marshal_tools agent settings mem prompt)
      × (last_value "AGENT_MODEL" vars ≡ some (literal agent.spec.model))
      × (last_value "AGENT_SYSTEM_PROMPT" vars
          ≡ some (literal (merge_system_prompt prompt settings)))
      × SeesBackend mem vars

  -- One container with the image and this environment, and pods with the hash of the prompt.
  abbrev pub IsDesired :
      List ArkFlow → Option ArkSettings → Option ArkMemory → String → Option Deployment → Type 0
  IsDesired flows settings mem prompt none = ⊥
  IsDesired flows settings mem prompt (some d) =
      (d.replicas ≡ allowed_replicas flows)
      × (d.annotations ≡ ("arkonis.dev/system-prompt-hash", lib.sha256 prompt) ∷ [])
      × (c : Container) × (d.containers ≡ c ∷ [])
      × (c.image ≡ lib.image)
      × HasEnv settings mem prompt c.env

  build_env_vars-HasEnv :
      (settings : Option ArkSettings) (mem : Option ArkMemory) (prompt : String)
      → HasEnv settings mem prompt
          (build_env_vars lib.marshal_servers lib.marshal_tools agent settings mem prompt)
  build_env_vars-HasEnv settings mem prompt =
      let (model, merged) =
        last_value-own lib.marshal_servers lib.marshal_tools agent settings mem prompt in
      (
        refl,
        model,
        merged,
        build_env_vars-SeesBackend lib.marshal_servers lib.marshal_tools agent settings prompt mem,
      )

  Runs-IsDesired :
      (flows : List ArkFlow) (settings : Option ArkSettings) (mem : Option ArkMemory)
      (prompt : String) (d : Option Deployment)
      → Runs (desired flows settings mem prompt) d
      → IsDesired flows settings mem prompt d
  unfolding build_deployment agent_container
  Runs-IsDesired flows settings mem prompt none runs = absurd runs
  Runs-IsDesired flows settings mem prompt (some d) (replicas, containers, annotations) = (
    replicas,
    annotations,
    agent_container lib
        (build_env_vars lib.marshal_servers lib.marshal_tools agent settings mem prompt),
    containers,
    refl,
    build_env_vars-HasEnv settings mem prompt,
  )

  -- The deployment runs what the settings, the memory and the prompt that were read, and the flows, ask for.
  abbrev pub RunsDesired : List ArkFlow → Option Deployment → Type 0
  RunsDesired flows d =
      (settings : Option ArkSettings) × (mem : Option ArkMemory) × (prompt : String) × (referenced
          "fetching ArkSettings %q: %w" cluster.settings agent.spec.config_ref
        ≡ ok settings)
      × (referenced "fetching ArkMemory %q: %w" cluster.memories agent.spec.memory_ref ≡ ok mem)
      × (resolve_system_prompt cluster.config_map cluster.secret agent ≡ ok prompt)
      × IsDesired flows settings mem prompt d

  module _ (laws : IsConditionSet lib.conditions) (flows : List ArkFlow)
      (listed : cluster.flows ≡ ok flows) (pos : 0 < daily_limit agent)
      (small : daily_limit agent < half) (fits : spent cluster.now agent.name flows < half) where
    judged-replicas : desired_replicas lib.conditions (judged lib cluster agent).0 ≡ (
        if leb (daily_limit agent) (spent cluster.now agent.name flows) then 0 else asked_replicas)
    judged-replicas =
        ap
          (λ l.
            desired_replicas lib.conditions
              (reconcile_daily_budget lib.conditions cluster.now l agent).0)
          listed
        ∙ reconcile_daily_budget-desired_replicas lib.conditions laws cluster.now flows agent pos
            small fits

    build_deployment-judged :
        (settings : Option ArkSettings) (mem : Option ArkMemory) (prompt : String)
        → build_deployment lib (judged lib cluster agent).0 settings mem prompt
          ≡ desired flows settings mem prompt
    build_deployment-judged settings mem prompt =
        build_deployment-status settings mem prompt (judged lib cluster agent).0
          (reconcile_daily_budget-status lib.conditions cluster.now cluster.flows agent)
        ∙ ap (λ n. record (build_deployment lib agent settings mem prompt) { replicas = n })
            judged-replicas

    -- A reconcile, without an error, of an agent that is not being deleted and has a daily limit leaves a
    -- deployment with the environment, the merged prompt, the backend and the prompt hash of the
    -- settings, the memory and the prompt that were read, and with no replica if the steps of the agent
    -- used at least the limit in the last day, and the requested ones otherwise; limit and usage are
    -- below 2 ^ 63.
    pub reconcile_agent-RunsDesired :
        (n : ℕ)
        → cluster.agent ≡ found agent
        → agent.deletion_timestamp ≡ none
        → (reconcile_agent lib cluster).result ≡ ok n
        → RunsDesired flows (reconcile_agent lib cluster).deployment
    reconcile_agent-RunsDesired n get alive fine =
        let turn = reconcile_agent-with_settings lib cluster agent n get alive in
        let (settings, mem, prompt, a, b, c, runs) =
          with_settings-IsDeployed lib cluster agent n
            (referenced "fetching ArkSettings %q: %w" cluster.settings agent.spec.config_ref) refl
            (ap (λ r. r.result) (sym turn) ∙ fine) in
        (
          settings,
          mem,
          prompt,
          a,
          b,
          c,
          Runs-IsDesired flows settings mem prompt (reconcile_agent lib cluster).deployment (
              subst (λ d. Runs d (reconcile_agent lib cluster).deployment)
                (build_deployment-judged settings mem prompt)
                (subst
                  (λ r.
                    Runs (build_deployment lib (judged lib cluster agent).0 settings mem prompt)
                      r.deployment)
                  (sym turn) runs)),
        )
