-- ===== src/Controller/Service.antt =====
-- internal/controller/arkservice_controller.go: the Kubernetes service of an ArkService. The answers of the API
-- server are parameters.
pub mod Selects
use arkonis_operator.Prelude.{
  ℕ, String, Option, none, some, List, [], ◌∷◌, map, ◌==◌, if◌then◌else◌,
}
use arkonis_operator.Prelude.Map.{Map}
use arkonis_operator.Prelude.Text.{to_lower}
use arkonis_operator.Api.Meta.{
  Time, Message, text, Result, ok, err, ConditionStatus, condition_true, condition_false,
}
use arkonis_operator.Api.Agent.{ArkAgent}
use arkonis_operator.Api.Service.{AgentProtocol, a2a, http, ArkServicePort, ArkService}
use arkonis_operator.Controller.Conditions.{Conditions}
use arkonis_operator.Controller.FlowReconcile.{Fetched, found, not_found, unavailable}

-- The protocol of every port is TCP.
pub record ServicePort : Type 0 where
  pub name : String
  pub port : ℕ
  pub target_port : ℕ

-- A service of type ClusterIP, with the fields that the code sets.
pub record Service : Type 0 where
  pub name : String
  pub namespace : String
  pub labels : Map String
  pub selector : Map String
  pub ports : List ServicePort

unfoldable pub protocol_text : AgentProtocol → String
protocol_text a2a = "A2A"
protocol_text http = "HTTP"

abbrev pub service_port : ArkServicePort → ServicePort
service_port p = record {
  name = to_lower (protocol_text p.protocol);
  port = p.port;
  target_port = p.port;
}

abbrev pub ports_or_default : List ServicePort → List ServicePort
ports_or_default [] = record { name = "http"; port = 8081; target_port = 8080 } ∷ []
ports_or_default (p ∷ ports) = p ∷ ports

unfoldable pub build_service : ArkService → ArkAgent → Service
unfolding protocol_text
build_service svc agent = record {
  name = svc.name;
  namespace = svc.namespace;
  labels =
      ("app.kubernetes.io/managed-by", "ark-operator") ∷ ("arkonis.dev/service", svc.name) ∷ [];
  selector = ("arkonis.dev/deployment", agent.name) ∷ [];
  ports = ports_or_default (map service_port svc.spec.ports);
}

-- The cluster at one reconcile: the object, its agent, whether the service may be owned, the one that is there,
-- whether it may be created or patched, and the answer to a status update.
pub record ServiceCluster : Type 0 where
  pub svc : Fetched ArkService
  pub agent : String → Fetched ArkAgent
  pub own : Service → Option Message
  pub existing : Fetched Service
  pub create : Service → Option Message
  pub patch : Service → Option Message
  pub update : ArkService → Option Message

-- What a reconcile leaves: the statuses that it wrote, the service that it wrote, and its error.
pub record ServiceReconciled : Type 0 where
  pub writes : List ArkService
  pub service : Option Service
  pub error : Option Message

unfoldable pub set_condition :
    Conditions → ArkService → ConditionStatus → String → Message → ArkService
set_condition c svc status reason message = record svc {
  status = record (svc.status) {
    conditions = c.set_status svc.status.conditions (record {
      type = "Ready";
      status = status;
      observed_generation = svc.generation;
      reason = reason;
      message = message;
    });
  };
}

abbrev pub patched_service : Service → Service → Service
patched_service existing desired = record existing {
  ports = desired.ports;
  selector = desired.selector;
}

module _ (c : Conditions) (cluster : ServiceCluster) where
  -- After a write of the service.
  abbrev pub service_wrote : Service → Option Message → Result Service
  service_wrote s none = ok s
  service_wrote s (some e) = err e

  abbrev pub on_existing_service : Service → Fetched Service → Result Service
  on_existing_service desired not_found = service_wrote desired (cluster.create desired)
  on_existing_service desired (unavailable e) = err e
  on_existing_service desired (found s) =
      service_wrote (patched_service s desired) (cluster.patch (patched_service s desired))

  -- After `SetControllerReference`.
  abbrev pub service_owned : Service → Option Message → Result Service
  service_owned desired none = on_existing_service desired cluster.existing
  service_owned desired (some e) = err e

  -- The service that it writes, or its error.
  unfoldable pub reconcile_service : ArkService → ArkAgent → Result Service
  unfolding build_service
  reconcile_service svc agent =
      service_owned (build_service svc agent) (cluster.own (build_service svc agent))

  abbrev ended : Option Message → ServiceReconciled
  ended e = record { writes = []; service = none; error = e }

  -- A status that is not ready, whose write may fail unseen.
  abbrev service_not_ready : ArkService → String → Message → Option Message → ServiceReconciled
  service_not_ready svc reason message e = record {
    writes = set_condition c svc condition_false reason message ∷ [];
    service = none;
    error = e;
  }

  abbrev reconciled : ArkService → ArkAgent → ArkService
  reconciled svc agent =
      let counted = record svc {
        status = record (svc.status) {
          ready_replicas = agent.status.ready_replicas;
          observed_generation = svc.generation;
        };
      } in
      set_condition c counted condition_true "Reconciled" (text "ArkService reconciled")

  -- After `reconcileService`.
  abbrev pub with_service : ArkService → ArkAgent → Result Service → ServiceReconciled
  with_service svc agent (err e) = service_not_ready svc "ReconcileError" e (some e)
  with_service svc agent (ok s) = record {
    writes = reconciled svc agent ∷ [];
    service = some s;
    error = cluster.update (reconciled svc agent);
  }

  -- After the agent was read.
  abbrev pub with_agent : ArkService → Fetched ArkAgent → ServiceReconciled
  with_agent svc not_found =
      service_not_ready svc "DeploymentNotFound" (text "referenced ArkAgent does not exist") none
  with_agent svc (unavailable e) = ended (some e)
  with_agent svc (found agent) = with_service svc agent (reconcile_service svc agent)

  unfoldable pub reconcile_selected : ArkService → ServiceReconciled
  unfolding set_condition reconcile_service
  reconcile_selected svc =
      let selected = with_agent svc (cluster.agent svc.spec.ark_agent) in
      if svc.spec.ark_agent == ""
      then service_not_ready svc "NoSelector" (text "spec.selector.arkAgent is required") none
      else selected

  abbrev pub unless_service_deleted : ArkService → Option Time → ServiceReconciled
  unless_service_deleted svc (some _) = ended none
  unless_service_deleted svc none = reconcile_selected svc

  abbrev pub on_service : Fetched ArkService → ServiceReconciled
  on_service not_found = ended none
  on_service (unavailable e) = ended (some e)
  on_service (found svc) = unless_service_deleted svc svc.deletion_timestamp

  unfoldable pub reconcile_ark_service : ServiceReconciled
  unfolding reconcile_selected
  reconcile_ark_service = on_service cluster.svc

-- The loop of `findServicesForAgent`, over the services of the namespace.
unfoldable pub services_of : String → List ArkService → List String
services_of name [] = []
services_of name (svc ∷ services) =
    let rest = services_of name services in
    if svc.spec.ark_agent == name then svc.name ∷ rest else rest

unfoldable pub find_services_for_agent : Result (List ArkService) → ArkAgent → List String
unfolding services_of
find_services_for_agent (err _) agent = []
find_services_for_agent (ok services) agent = services_of agent.name services
