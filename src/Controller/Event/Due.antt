-- ===== src/Controller/Event/Due.antt =====
-- internal/controller/arkevent_controller.go: `reconcileCron`. The library of cron expressions is a parameter.
pub mod Fires
use arkonis_operator.Prelude.{
  ℕ, String, Option, none, some, List, [], ◌∷◌, ◌+◌, ◌-◌, Bool, true, false, not, ltb, ◌&&◌, ◌==◌,
  if◌then◌else◌,
}
use arkonis_operator.Prelude.Map.{Map}
use arkonis_operator.Prelude.Words.{add64}
use arkonis_operator.Prelude.Text.{◌<>◌}
use arkonis_operator.Api.Meta.{
  Time, Message, text, format, str, msg, end, Result, ok, err, Condition, ConditionStatus,
  condition_true, condition_false,
}
use arkonis_operator.Api.Flow.{ArkFlow, ArkFlowPhase}
use arkonis_operator.Api.Event.{ArkEvent, ArkEventStatus, TriggerSourceType, PipelineOutputSource}
use arkonis_operator.Controller.FlowReconcile.{Fetched, found, not_found, unavailable}
use arkonis_operator.Controller.Event.Schedule.{Cron, most_recent_schedule}
use arkonis_operator.Controller.Event.Fire.{
  FireContext, TriggerLibrary, Dispatched, FireCluster, Fired, fire,
}
use arkonis_operator.Controller.Event.Status.{
  EventCluster, EventPass, ready_condition, set_ready, set_condition, left, count_fire, after_fire,
  fire_context,
}

-- Whether the schedule was due after the last fire.
unfoldable pub should_fire : Option Time → Option Time → Bool
should_fire none fired = false
should_fire (some scheduled) none = true
should_fire (some scheduled) (some fired) = ltb fired scheduled

module _ (lib : TriggerLibrary) (cron : Cron) (cluster : EventCluster) (event : ArkEvent) where
  open cron use {parse, next}

  abbrev now : Time
  now = cluster.now

  unfoldable pub store_next : Time → ArkEvent → EventPass
  unfolding set_condition set_ready ready_condition
  store_next t fired =
      let stored = record fired { status = record (fired.status) { next_fire_at = some t } } in
      left
        (set_condition stored condition_true "Active"
          (format "next fire at %s" (str (lib.rfc3339 t) end)))
        (ok ((t + 1000000000) - cluster.until))

  -- Once it is known whether to fire.
  unfoldable pub cron_pass : Bool → Time → EventPass
  unfolding store_next count_fire
  cron_pass false t = store_next t event
  cron_pass true t =
      let fired = fire lib cluster.fires event (fire_context lib event now "") in
      after_fire event fired.created fired.error (store_next t (count_fire now event))

  -- `none` is a search for the last instant that uses up its fuel.
  abbrev pub with_schedule : Option (Option Time) → Time → Option EventPass
  with_schedule none t = none
  with_schedule (some scheduled) t =
      some (cron_pass (should_fire scheduled event.status.last_fired_at) t)

  abbrev pub parsed : Result cron.Expression → Option EventPass
  parsed (err e) = some (
      left
        (set_condition event condition_false "InvalidCron"
          (format "invalid cron expression %q: %v" (str event.spec.source.cron (msg e end))))
        (ok 0))
  parsed (ok schedule) =
      with_schedule (most_recent_schedule (next schedule) now event.status.last_fired_at)
        (next schedule now)

  unfoldable pub reconcile_cron : Option EventPass
  unfolding set_condition cron_pass should_fire
  reconcile_cron =
      let missing =
        set_condition event condition_false "InvalidCron"
          (text "spec.source.cron is required for cron type") in
      if event.spec.source.cron == ""
      then some (left missing (ok 0))
      else parsed (parse event.spec.source.cron)
