-- ===== src/Controller/Event/Reconcile.antt =====
-- internal/controller/arkevent_controller.go: `Reconcile` of a trigger, and the triggers that a flow wakes.
pub mod Active
use arkonis_operator.Prelude.{
  ℕ, String, Option, none, some, List, [], ◌∷◌, Bool, true, false, ◌&&◌, ◌==◌, if◌then◌else◌,
}
use arkonis_operator.Prelude.Map.{Map}
use arkonis_operator.Api.Meta.{Message, text, format, str, end, Result, ok, err, condition_false}
use arkonis_operator.Api.Flow.{ArkFlow}
use arkonis_operator.Api.Event.{ArkEvent, TriggerSourceType, PipelineOutputSource}
use arkonis_operator.Controller.FlowReconcile.{Fetched, found, not_found, unavailable}
use arkonis_operator.Controller.Event.Schedule.{Cron}
use arkonis_operator.Controller.Event.Fire.{TriggerLibrary, Dispatched}
use arkonis_operator.Flow.Dag.{is_terminal_phase}
use arkonis_operator.Controller.Event.Due.{reconcile_cron}
use arkonis_operator.Controller.Event.Sources.{reconcile_webhook, reconcile_pipeline_output}
use arkonis_operator.Controller.Event.Status.{EventCluster, EventPass, set_condition, left}

-- What a reconcile leaves: the statuses that it wrote, in order, the flows and the secrets that it
-- created, and its result, as in `EventPass`.
pub record EventReconciled : Type 0 where
  pub writes : List ArkEvent
  pub created : List Dispatched
  pub secrets : List (String × Map String)
  pub result : Result ℕ

module _ (lib : TriggerLibrary) (cron : Cron) (cluster : EventCluster) where
  abbrev ended : EventPass → Result ℕ → EventReconciled
  ended pass result = record {
    writes = [];
    created = pass.created;
    secrets = pass.secrets;
    result = result;
  }

  abbrev written : ArkEvent → EventPass → Result ℕ → EventReconciled
  written event pass result = record {
    writes = event ∷ [];
    created = pass.created;
    secrets = pass.secrets;
    result = result;
  }

  -- `Status().Update` whose error ends the reconcile.
  abbrev update_event : Option Message → ArkEvent → EventPass → EventReconciled
  update_event none event pass = written event pass pass.result
  update_event (some e) event pass = written event pass (err e)

  -- The handled status on the latest state of the trigger.
  unfoldable pub with_status : ArkEvent → ArkEvent → ArkEvent
  with_status latest event = record latest {
    status = record (event.status) { observed_generation = latest.generation };
  }

  abbrev pub on_latest : Fetched ArkEvent → EventPass → EventReconciled
  on_latest not_found pass = ended pass (ok 0)
  on_latest (unavailable e) pass = ended pass (err e)
  on_latest (found latest) pass =
      update_event (cluster.update (with_status latest pass.event)) (with_status latest pass.event)
        pass

  -- After the handler of the source.
  abbrev pub handled : Result ℕ → EventPass → EventReconciled
  handled (err e) pass = ended pass (err e)
  handled (ok after) pass = on_latest cluster.latest pass

  -- A status with a condition only.
  abbrev declined : ArkEvent → EventReconciled
  declined event =
      let observed = with_status event event in
      update_event (cluster.update observed) observed (left event (ok 0))

  abbrev pub by_source : ArkEvent → TriggerSourceType → Option EventReconciled
  by_source event TriggerSourceType.cron = elim (reconcile_cron lib cron cluster event) [
    | none ↦ none
    | some pass ↦ some (handled pass.result pass)
  ]
  by_source event TriggerSourceType.webhook =
      let pass = reconcile_webhook cluster event in some (handled pass.result pass)
  by_source event TriggerSourceType.pipeline_output =
      let pass = reconcile_pipeline_output lib cluster event in some (handled pass.result pass)
  by_source event (TriggerSourceType.unknown type) = some (
      declined (
        set_condition event condition_false "InvalidSource"
          (format "unknown source type %q" (str type end))))

  abbrev suspended : ArkEvent → EventReconciled
  suspended event =
      declined (set_condition event condition_false "Suspended" (text "trigger is suspended"))

  abbrev pub on_event : ArkEvent → Option EventReconciled
  on_event event =
      let rest = by_source event event.spec.source.type in
      if event.spec.suspended then some (suspended event) else rest

  abbrev nothing : Result ℕ → EventReconciled
  nothing result = record { writes = []; created = []; secrets = []; result = result }

  -- `none` is a search for the last instant of a schedule that uses up its fuel.
  unfoldable pub reconcile_event : Option EventReconciled
  unfolding with_status reconcile_cron reconcile_webhook reconcile_pipeline_output set_condition
  reconcile_event = elim cluster.event [
    | not_found ↦ some (nothing (ok 0))
    | unavailable e ↦ some (nothing (err e))
    | found event ↦ on_event event
  ]

abbrev is_output : TriggerSourceType → Bool
is_output TriggerSourceType.pipeline_output = true
is_output TriggerSourceType.cron = false
is_output TriggerSourceType.webhook = false
is_output (TriggerSourceType.unknown _) = false

abbrev names_flow : String → Option PipelineOutputSource → Bool
names_flow name none = false
names_flow name (some src) = src.name == name

-- The loop of `flowToTriggers`; the requests are the names, in the namespace of the flow.
unfoldable pub triggers_of : String → List ArkEvent → List String
triggers_of name [] = []
triggers_of name (event ∷ events) =
    let rest = triggers_of name events in
    if is_output event.spec.source.type && names_flow name event.spec.source.pipeline_output
    then event.name ∷ rest
    else rest

abbrev watching : Result (List ArkEvent) → String → List String
watching (err _) name = []
watching (ok events) name = triggers_of name events

-- `events` is the answer to the list of the triggers of the namespace.
unfoldable pub flow_to_triggers : Result (List ArkEvent) → ArkFlow → List String
unfolding is_terminal_phase triggers_of
flow_to_triggers events f =
    let all = watching events f.name in if is_terminal_phase f.status.phase then all else []
