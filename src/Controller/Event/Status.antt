-- ===== src/Controller/Event/Status.antt =====
-- internal/controller/arkevent_controller.go: what a reconcile of a trigger reads and leaves, and its
-- condition. The API server and the clock are parameters.
use arkonis_operator.Prelude.{ℕ, String, Option, none, some, List, [], ◌∷◌, ◌==◌, if◌then◌else◌}
use arkonis_operator.Prelude.Map.{Map}
use arkonis_operator.Prelude.Words.{add64}
use arkonis_operator.Api.Meta.{Time, Message, Result, err, Condition, ConditionStatus}
use arkonis_operator.Api.Event.{ArkEvent}
use arkonis_operator.Controller.FlowReconcile.{Fetched}
use arkonis_operator.Controller.Event.Fire.{FireContext, TriggerLibrary, Dispatched, FireCluster}

-- What a reconcile of a trigger reads: the trigger and, once it is handled, its latest state; the answers
-- during a fire; the secret of a name; 32 random bytes in hexadecimal; whether the secret may be
-- owned and created; the answer to a status update; the URL of the webhook server; and the clock, when
-- the trigger is handled and when the requeue is computed.
pub record EventCluster : Type 0 where
  pub event : Fetched ArkEvent
  pub latest : Fetched ArkEvent
  pub fires : FireCluster
  pub secret : String → Fetched (Map String)
  pub random : Result String
  pub own_secret : Map String → Option Message
  pub create_secret : String → Map String → Option Message
  pub update : ArkEvent → Option Message
  pub webhook_url : String
  pub now : Time
  pub until : Time

-- What a handler leaves: the trigger with its new status, the flows and the secrets created, and its
-- result, the time after which to run again (0 for none, or for a duration that is not positive).
pub record EventPass : Type 0 where
  pub event : ArkEvent
  pub created : List Dispatched
  pub secrets : List (String × Map String)
  pub result : Result ℕ

unfoldable pub ready_condition : ConditionStatus → String → Message → Condition
ready_condition status reason message = record {
  type = "Ready";
  status = status;
  observed_generation = 0;
  reason = reason;
  message = message;
}

-- The loop of `setCondition`: the first condition of the type is changed in place.
unfoldable pub set_ready : ConditionStatus → String → Message → List Condition → List Condition
unfolding ready_condition
set_ready status reason message [] = ready_condition status reason message ∷ []
set_ready status reason message (c ∷ conditions) =
    let rest = c ∷ set_ready status reason message conditions in
    let changed = record c { status = status; reason = reason; message = message } in
    if c.type == "Ready" then changed ∷ conditions else rest

unfoldable pub set_condition : ArkEvent → ConditionStatus → String → Message → ArkEvent
set_condition event status reason message = record event {
  status = record (event.status) {
    conditions = set_ready status reason message event.status.conditions;
  };
}

abbrev pub left : ArkEvent → Result ℕ → EventPass
left event result = record { event = event; created = []; secrets = []; result = result }

-- The status after a fire at `now`.
unfoldable pub count_fire : Time → ArkEvent → ArkEvent
count_fire now event = record event {
  status = record (event.status) {
    last_fired_at = some now;
    fired_count = add64 event.status.fired_count 1;
  };
}

-- After a fire whose error ends the handler.
abbrev pub after_fire : ArkEvent → List Dispatched → Option Message → EventPass → EventPass
after_fire event created (some e) pass = record {
  event = event;
  created = created;
  secrets = [];
  result = err e;
}
after_fire event created none pass = record pass { created = created }

-- What a fire on behalf of a trigger is told; `output` is that of a flow.
abbrev pub fire_context : (lib : TriggerLibrary) → ArkEvent → Time → String → FireContext lib.Body
fire_context lib event now output = record {
  name = event.name;
  fired_at = lib.rfc3339 now;
  output = output;
  body = lib.no_body;
}
