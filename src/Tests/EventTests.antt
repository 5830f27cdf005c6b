-- ===== src/Tests/EventTests.antt =====
-- Triggers: the schedule, the fire, and the handlers of the sources.
use arkonis_operator.Prelude.{
  ◌+◌, ◌*◌, ◌/◌, ◌%◌, String, Option, none, some, [], ◌∷◌, ◌≡◌, ◌≢◌, refl, arith,
}
use arkonis_operator.Api.Meta.{Time, ok}
use arkonis_operator.Api.Flow.{ArkFlowPhase}
use arkonis_operator.Api.Event.{ArkEvent, TriggerSourceType, allow, forbid}
use arkonis_operator.Controller.Event.Schedule.{
  Cron, IsSchedule, lookback, most_recent_schedule, step_forward,
}
use arkonis_operator.Controller.Event.Schedule.Latest.{IsLatest, most_recent_schedule-IsLatest}
use arkonis_operator.Controller.Event.Schedule.Endless.{step_forward-none}
use arkonis_operator.Controller.Event.Fire.{
  fire, fire_targets, build_flow, resolve_overrides, resolve_trigger_template, has_running_flow,
  any_running, is_running, event_flow, trigger_labels,
}
use arkonis_operator.Controller.Event.Fire.Targets.{Serves, fire-Serves}
use arkonis_operator.Controller.Event.Fire.Forbid.{Idle, fire-Idle}
use arkonis_operator.Controller.Event.Status.{set_condition, set_ready, count_fire}
use arkonis_operator.Controller.Event.Due.{reconcile_cron}
use arkonis_operator.Controller.Event.Due.Fires.{FiresWhenDue, reconcile_cron-FiresWhenDue}
use arkonis_operator.Controller.Event.Sources.{
  reconcile_pipeline_output, watch_flow, fire_output, phase_eqb, desired_phase, already_fired,
}
use arkonis_operator.Controller.Event.Sources.Once.{reconcile_pipeline_output-once}
use arkonis_operator.Controller.FlowReconcile.{found}
use arkonis_operator.Controller.Event.Status.{EventCluster, EventPass}
use arkonis_operator.Controller.Event.Reconcile.{
  EventReconciled, handled, with_status, reconcile_event,
}
use arkonis_operator.Controller.Event.Reconcile.Active.{IsActive, reconcile_event-IsActive}
use arkonis_operator.Tests.Triggers.{
  plain_texts, ended_report, fires_at, target, trigger, context, events_at,
}

-- Every ten seconds, when 10 stands for ten seconds.
abbrev tens : Time → Time
tens t = (t / 10 + 1) * 10

tens-IsSchedule : IsSchedule tens
tens-IsSchedule = record {
  Fires = λ t. t % 10 ≡ 0;
  later = λ t. omega arith;
  fires = λ t. omega arith;
  least = λ t u after fire. omega arith;
}

most_recent_schedule-IsLatest_example :
    (r : Option Time) × (most_recent_schedule tens 47 (some 12) ≡ some r)
    × IsLatest tens tens-IsSchedule (lookback 47 (some 12)) 47 r
most_recent_schedule-IsLatest_example =
    most_recent_schedule-IsLatest tens tens-IsSchedule 47 (some 12)

step_forward-none_example : step_forward (λ t. 0) 47 1000 12 none ≡ none
step_forward-none_example = step_forward-none (λ t. 0) (λ t. refl) 47 1000 12 none

abbrev every : Cron
every = record { Expression = String; parse = ok; next = λ e. tens }

fire-Serves_example :
    Serves plain_texts
      (fires_at [])
      (trigger TriggerSourceType.cron allow)
      context
      (target ∷ [])
      (fire plain_texts (fires_at []) (trigger TriggerSourceType.cron allow) context)
fire-Serves_example =
    fire-Serves plain_texts (fires_at []) (trigger TriggerSourceType.cron allow) context refl

fires_forbid :
    (fire plain_texts
      (fires_at (ended_report ∷ []))
      (trigger TriggerSourceType.cron forbid)
      context).created
    ≢ []
unfolding fire fire_targets build_flow resolve_overrides resolve_trigger_template has_running_flow
    any_running is_running event_flow trigger_labels
fires_forbid = λ e. cc e

fire-Idle_example :
    Idle plain_texts (fires_at (ended_report ∷ [])) (trigger TriggerSourceType.cron forbid) context
fire-Idle_example =
    fire-Idle plain_texts (fires_at (ended_report ∷ [])) (trigger TriggerSourceType.cron forbid)
      context refl fires_forbid

reconcile_cron-FiresWhenDue_example :
    (pass : EventPass) × (reconcile_cron plain_texts every
        (events_at 47)
        (trigger TriggerSourceType.cron allow)
      ≡ some pass)
    × FiresWhenDue plain_texts every
        (events_at 47)
        (trigger TriggerSourceType.cron allow)
        "*/10 * * * *"
        tens-IsSchedule
        pass
reconcile_cron-FiresWhenDue_example =
    reconcile_cron-FiresWhenDue plain_texts every (events_at 47)
      (trigger TriggerSourceType.cron allow) "*/10 * * * *" tens-IsSchedule refl refl

abbrev watcher : ArkEvent
watcher = trigger TriggerSourceType.pipeline_output allow

fires_output :
    ((reconcile_pipeline_output plain_texts (events_at 47) watcher).created ≢ [])
    × ((reconcile_pipeline_output plain_texts (events_at 47) watcher).result ≡ ok 0)
unfolding reconcile_pipeline_output watch_flow fire_output phase_eqb desired_phase already_fired
    set_condition set_ready count_fire fire fire_targets build_flow resolve_overrides
    resolve_trigger_template has_running_flow event_flow
fires_output = ((λ e. cc e), refl)

reconcile_pipeline_output-once_example :
    (reconcile_pipeline_output plain_texts
      (events_at 99)
      (reconcile_pipeline_output plain_texts (events_at 47) watcher).event).created
    ≡ []
reconcile_pipeline_output-once_example =
    reconcile_pipeline_output-once plain_texts (events_at 47) (events_at 99) watcher
      (record { name = "report"; on_phase = ArkFlowPhase.unset }) ended_report 0 40 refl refl refl
      refl refl (omega arith) fires_output.0 fires_output.1

-- The trigger on the output of the flow, read from the cluster.
abbrev watched : EventCluster
watched = record (events_at 47) { event = found watcher; latest = found watcher }

abbrev watched_pass : EventReconciled
unfolding reconcile_pipeline_output watch_flow fire_output
watched_pass =
    handled plain_texts every watched (ok 0) (reconcile_pipeline_output plain_texts watched watcher)

watched-runs : reconcile_event plain_texts every watched ≡ some watched_pass
unfolding reconcile_event reconcile_pipeline_output watch_flow fire_output phase_eqb desired_phase
    already_fired set_condition set_ready count_fire fire fire_targets build_flow resolve_overrides
    resolve_trigger_template has_running_flow event_flow
watched-runs = refl

watched-fires : watched_pass.created ≢ []
unfolding with_status reconcile_pipeline_output watch_flow fire_output phase_eqb desired_phase
    already_fired set_condition set_ready count_fire fire fire_targets build_flow resolve_overrides
    resolve_trigger_template has_running_flow event_flow
watched-fires = λ e. cc e

reconcile_event-IsActive_example : IsActive plain_texts every watched watcher
reconcile_event-IsActive_example =
    reconcile_event-IsActive plain_texts every watched watcher watched_pass refl watched-runs
      watched-fires
