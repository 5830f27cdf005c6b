-- ===== src/Tests/CommandTests.antt =====
-- A dry run, and the service of an agent.
use arkonis_operator.Prelude.{none, some, [], ◌∷◌, ◌≡◌, ◌↔◌, All}
use arkonis_operator.Prelude.Map.{Map}
use arkonis_operator.Api.Agent.{ArkAgent}
use arkonis_operator.Api.Service.{ArkService, RoutingStrategy, http}
use arkonis_operator.Flow.Dag.{valid, validate_dag}
use arkonis_operator.Local.CommandLine.{dry_run}
use arkonis_operator.Local.CommandLine.Validated.{HasAgent, dry_run_iff}
use arkonis_operator.Controller.FlowReconcile.{found, not_found}
use arkonis_operator.Controller.Service.{ServiceCluster}
use arkonis_operator.Controller.Service.Selects.{Selects}
use arkonis_operator.Tests.Samples.{flow_of, plain, agent_named}

abbrev file : Map ArkAgent
file = ("writer", agent_named "writer") ∷ []

dry_run_iff_example :
    (dry_run (flow_of (plain "a" [] ∷ plain "b" ("a" ∷ []) ∷ [])) file ≡ some none) ↔ (
      (validate_dag (plain "a" [] ∷ plain "b" ("a" ∷ []) ∷ []) ≡ valid)
      × All (HasAgent file) (plain "a" [] ∷ plain "b" ("a" ∷ []) ∷ []))
dry_run_iff_example = dry_run_iff file (flow_of (plain "a" [] ∷ plain "b" ("a" ∷ []) ∷ []))

abbrev front : ArkService
front = record {
  name = "front";
  namespace = "default";
  generation = 1;
  deletion_timestamp = none;
  spec = record {
    ark_agent = "writer";
    strategy = RoutingStrategy.round_robin;
    ports = record { protocol = http; port = 80 } ∷ [];
  };
  status = record { ready_replicas = 0; observed_generation = 0; conditions = [] };
}

abbrev no_service : ServiceCluster
no_service = record {
  svc = found front;
  agent = λ name. found (agent_named "writer");
  own = λ s. none;
  existing = not_found;
  create = λ s. none;
  patch = λ s. none;
  update = λ s. none;
}
