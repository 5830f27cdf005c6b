-- ===== src/Controller/Deployment.antt =====
-- internal/controller/arkagent_controller.go: `buildDeployment`, `reconcileDeployment` and `syncStatus`. The
-- types of Kubernetes keep the fields that the code sets; the hash and the API server are parameters.
pub mod Applied
use arkonis_operator.Prelude.{
  ℕ, String, Option, none, some, List, [], ◌∷◌, Bool, true, false, eqb, ltb, ◌&&◌, if◌then◌else◌,
}
use arkonis_operator.Prelude.Words.{Int64}
use arkonis_operator.Prelude.Map.{Map}
use arkonis_operator.Prelude.Text.{◌<>◌}
use arkonis_operator.Api.Meta.{Message, text, format, int, end, condition_true, condition_false}
use arkonis_operator.Api.Settings.{ArkSettings}
use arkonis_operator.Api.Memory.{ArkMemory}
use arkonis_operator.Api.Agent.{ArkAgent, McpServerSpec, WebhookToolSpec}
use arkonis_operator.Controller.Conditions.{Conditions}
use arkonis_operator.Controller.Budget.{desired_replicas, set_condition}
use arkonis_operator.Controller.AgentEnv.{EnvVar, build_env_vars}
use arkonis_operator.Controller.FlowReconcile.{Fetched, found, not_found, unavailable}

-- A probe by HTTP GET; a timeout of 0 is the default of Kubernetes.
pub record Probe : Type 0 where
  pub path : String
  pub port : ℕ
  pub initial_delay_seconds : ℕ
  pub period_seconds : ℕ
  pub timeout_seconds : ℕ

-- `env_from` is the name of an optional secret, and `health_port` the one port, TCP.
pub record Container : Type 0 where
  pub name : String
  pub image : String
  pub image_pull_policy : String
  pub health_port : ℕ
  pub env : List EnvVar
  pub env_from : String
  pub liveness_probe : Probe
  pub readiness_probe : Probe

pub record Deployment : Type 0 where
  pub name : String
  pub namespace : String
  pub labels : Map String
  pub replicas : ℕ
  pub selector : Map String
  pub template_labels : Map String
  pub annotations : Map String
  pub containers : List Container

pub record DeploymentStatus : Type 0 where
  pub replicas : ℕ
  pub ready_replicas : ℕ

-- What the controller takes from elsewhere: the image, SHA-256 in hexadecimal, and encoding/json.
pub record AgentLibrary : Type 0 where
  pub image : String
  pub sha256 : String → String
  pub marshal_servers : List McpServerSpec → String
  pub marshal_tools : List WebhookToolSpec → String
  pub conditions : Conditions

unfoldable pub agent_labels : ArkAgent → Map String
agent_labels agent =
    ("app.kubernetes.io/name", "agent")
    ∷ ("app.kubernetes.io/instance", agent.name)
    ∷ ("app.kubernetes.io/managed-by", "ark-operator")
    ∷ ("arkonis.dev/deployment", agent.name)
    ∷ []

module _ (lib : AgentLibrary) where
  unfoldable pub agent_container : List EnvVar → Container
  agent_container vars = record {
    name = "agent";
    image = lib.image;
    image_pull_policy = "IfNotPresent";
    health_port = 8080;
    env = vars;
    env_from = "arkonis-api-keys";
    liveness_probe = record {
      path = "/healthz";
      port = 8080;
      initial_delay_seconds = 10;
      period_seconds = 30;
      timeout_seconds = 0;
    };
    readiness_probe = record {
      path = "/readyz";
      port = 8080;
      initial_delay_seconds = 10;
      period_seconds = 30;
      timeout_seconds = 20;
    };
  }

  unfoldable pub build_deployment :
      ArkAgent → Option ArkSettings → Option ArkMemory → String → Deployment
  unfolding agent_container agent_labels
  build_deployment agent settings mem prompt = record {
    name = agent.name <> "-agent";
    namespace = agent.namespace;
    labels = agent_labels agent;
    replicas = desired_replicas lib.conditions agent;
    selector = agent_labels agent;
    template_labels = agent_labels agent;
    annotations = ("arkonis.dev/system-prompt-hash", lib.sha256 prompt) ∷ [];
    containers =
        agent_container
          (build_env_vars lib.marshal_servers lib.marshal_tools agent settings mem prompt)
        ∷ [];
  }

-- The answers of the API server about the deployment: whether it may be owned, the one that is there,
-- whether it may be created or patched, and its status afterwards.
pub record DeploymentCluster : Type 0 where
  pub own : Deployment → Option Message
  pub existing : Fetched Deployment
  pub create : Deployment → Option Message
  pub patch : Deployment → Option Message
  pub status : Fetched DeploymentStatus

-- The deployment that is there afterwards, as far as it was read or written, and the error.
pub record Deployed : Type 0 where
  pub deployment : Option Deployment
  pub error : Option Message

unfoldable pub patched : Deployment → Deployment → Deployment
patched existing desired = record existing {
  replicas = desired.replicas;
  annotations = desired.annotations;
  containers = desired.containers;
}

module _ (cluster : DeploymentCluster) where
  -- After a write of `d` where `before` was there.
  abbrev pub wrote : Option Deployment → Deployment → Option Message → Deployed
  wrote before d none = record { deployment = some d; error = none }
  wrote before d (some e) = record { deployment = before; error = some e }

  abbrev pub on_existing : Deployment → Fetched Deployment → Deployed
  on_existing desired not_found = wrote none desired (cluster.create desired)
  on_existing desired (unavailable e) = record { deployment = none; error = some e }
  on_existing desired (found existing) =
      wrote (some existing) (patched existing desired) (cluster.patch (patched existing desired))

  -- After `SetControllerReference`.
  abbrev pub if_owned : Deployment → Option Message → Deployed
  if_owned desired (some e) = record { deployment = none; error = some e }
  if_owned desired none = on_existing desired cluster.existing

  unfoldable pub reconcile_deployment : Deployment → Deployed
  unfolding patched
  reconcile_deployment desired = if_owned desired (cluster.own desired)

-- `int` holds an `int32` count.
unfoldable pub with_status : Conditions → ArkAgent → DeploymentStatus → ArkAgent
with_status c agent s =
    let ready = eqb s.ready_replicas s.replicas && ltb 0 s.replicas in
    let synced = record agent {
      status = record (agent.status) {
        replicas = s.replicas;
        ready_replicas = s.ready_replicas;
        observed_generation = agent.generation;
      };
    } in
    set_condition c synced "Ready" (if ready then condition_true else condition_false)
      (if ready then "AllReplicasReady" else "Progressing")
      (format "%d/%d replicas ready" (int s.ready_replicas (int s.replicas end)))
