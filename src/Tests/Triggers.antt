-- ===== src/Tests/Triggers.antt =====
-- A trigger, its flow, and the answers of a cluster.
use arkonis_operator.Prelude.{false, String, none, some, List, [], ◌∷◌, ◌==◌, if◌then◌else◌}
use arkonis_operator.Api.Meta.{Time, ok}
use arkonis_operator.Api.Flow.{ArkFlow, ArkFlowPhase}
use arkonis_operator.Api.Event.{ArkEvent, ArkEventTarget, TriggerSourceType, ConcurrencyPolicy}
use arkonis_operator.Controller.FlowReconcile.{found, not_found}
use arkonis_operator.Controller.Event.Fire.{TriggerLibrary, FireCluster, FireContext}
use arkonis_operator.Controller.Event.Status.{EventCluster}
use arkonis_operator.Tests.Samples.{flow_of, plain}

abbrev pub plain_texts : TriggerLibrary
plain_texts = record {
  Body = Unit {0};
  Template = String;
  no_body = tt;
  parse = ok;
  execute = λ t context. if t == "{{ .trigger.name }}" then ok context.name else ok t;
  rfc3339 = λ t. "now";
}

abbrev pub report : ArkFlow
report = flow_of (plain "a" [] ∷ [])

abbrev pub ended_report : ArkFlow
ended_report = record report {
  status = record (report.status) {
    phase = ArkFlowPhase.succeeded;
    completion_time = some 40;
    output = "done";
  };
}

abbrev pub fires_at : List ArkFlow → FireCluster
fires_at flows = record {
  flow = λ name. if name == "report" then found ended_report else not_found;
  list = λ labels. ok flows;
  own = λ made. none;
  create = λ before made. none;
  suffix = λ n. "20250101-000000";
}

abbrev pub target : ArkEventTarget
target = record { pipeline = "report"; input = ("who", "{{ .trigger.name }}") ∷ [] }

abbrev pub trigger : TriggerSourceType → ConcurrencyPolicy → ArkEvent
trigger type policy = record {
  name = "nightly";
  namespace = "default";
  generation = 1;
  deletion_timestamp = none;
  spec = record {
    source = record {
      type = type;
      cron = "*/10 * * * *";
      pipeline_output = some (record { name = "report"; on_phase = ArkFlowPhase.unset });
    };
    targets = target ∷ [];
    concurrency_policy = policy;
    suspended = false;
  };
  status = record {
    last_fired_at = some 12;
    next_fire_at = none;
    fired_count = 1;
    webhook_url = "";
    observed_generation = 0;
    conditions = [];
  };
}

abbrev pub context : FireContext (Unit {0})
context = record { name = "nightly"; fired_at = "now"; output = ""; body = tt }

abbrev pub events_at : Time → EventCluster
events_at now = record {
  event = not_found;
  latest = not_found;
  fires = fires_at [];
  secret = λ name. not_found;
  random = ok "00";
  own_secret = λ values. none;
  create_secret = λ name values. none;
  update = λ event. none;
  webhook_url = "";
  now = now;
  until = now;
}
