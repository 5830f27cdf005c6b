-- ===== src/Controller/Event/Sources.antt =====
-- internal/controller/arkevent_controller.go: `reconcileWebhook` and `reconcilePipelineOutput`.
pub mod Once
use arkonis_operator.Prelude.{
  ℕ, String, Option, none, some, List, [], ◌∷◌, ◌+◌, ◌-◌, Bool, true, false, not, ltb, ◌&&◌, ◌==◌,
  if◌then◌else◌,
}
use arkonis_operator.Prelude.Map.{Map}
use arkonis_operator.Prelude.Words.{add64}
use arkonis_operator.Prelude.Text.{◌<>◌}
use arkonis_operator.Api.Meta.{
  Time, Message, text, format, str, msg, end, Result, ok, err, Condition, ConditionStatus,
  condition_true, condition_false,
}
use arkonis_operator.Api.Flow.{ArkFlow, ArkFlowPhase}
use arkonis_operator.Api.Event.{ArkEvent, ArkEventStatus, TriggerSourceType, PipelineOutputSource}
use arkonis_operator.Controller.FlowReconcile.{Fetched, found, not_found, unavailable}
use arkonis_operator.Controller.Event.Schedule.{Cron, most_recent_schedule}
use arkonis_operator.Controller.Event.Fire.{
  FireContext, TriggerLibrary, Dispatched, FireCluster, Fired, fire,
}
use arkonis_operator.Controller.Event.Status.{
  EventCluster, EventPass, ready_condition, set_ready, set_condition, left, count_fire, after_fire,
  fire_context,
}

unfoldable pub phase_text : ArkFlowPhase → String
phase_text ArkFlowPhase.unset = ""
phase_text ArkFlowPhase.pending = "Pending"
phase_text ArkFlowPhase.running = "Running"
phase_text ArkFlowPhase.succeeded = "Succeeded"
phase_text ArkFlowPhase.failed = "Failed"

unfoldable pub phase_eqb : ArkFlowPhase → ArkFlowPhase → Bool
phase_eqb ArkFlowPhase.unset ArkFlowPhase.unset = true
phase_eqb ArkFlowPhase.pending ArkFlowPhase.pending = true
phase_eqb ArkFlowPhase.running ArkFlowPhase.running = true
phase_eqb ArkFlowPhase.succeeded ArkFlowPhase.succeeded = true
phase_eqb ArkFlowPhase.failed ArkFlowPhase.failed = true
phase_eqb _ _ = false

-- The phase that the trigger waits for.
unfoldable pub desired_phase : ArkFlowPhase → ArkFlowPhase
desired_phase ArkFlowPhase.unset = ArkFlowPhase.succeeded
desired_phase ArkFlowPhase.pending = ArkFlowPhase.pending
desired_phase ArkFlowPhase.running = ArkFlowPhase.running
desired_phase ArkFlowPhase.succeeded = ArkFlowPhase.succeeded
desired_phase ArkFlowPhase.failed = ArkFlowPhase.failed

-- Whether the trigger fired at the completion of the flow, or later.
unfoldable pub already_fired : Option Time → Option Time → Bool
already_fired none fired = false
already_fired (some completed) none = false
already_fired (some completed) (some fired) = not (ltb fired completed)

module _ (cluster : EventCluster) (event : ArkEvent) where
  abbrev secret_name : String
  secret_name = event.name <> "-webhook-token"

  -- After `Create`.
  abbrev secret_created : Map String → Option Message → Result (List (String × Map String))
  secret_created values none = ok ((secret_name, values) ∷ [])
  secret_created values (some e) = err e

  -- After `SetControllerReference`.
  abbrev secret_owned : Map String → Option Message → Result (List (String × Map String))
  secret_owned values none = secret_created values (cluster.create_secret secret_name values)
  secret_owned values (some e) = err e

  abbrev with_random : Result String → Result (List (String × Map String))
  with_random (err e) = err (format "generating webhook token: %w" (msg e end))
  with_random (ok token) =
      secret_owned (("token", token) ∷ []) (cluster.own_secret (("token", token) ∷ []))

  abbrev pub unless_exists : Fetched (Map String) → Result (List (String × Map String))
  unless_exists (found _) = ok []
  unless_exists (unavailable e) = err e
  unless_exists not_found = with_random cluster.random

  -- The secrets that it creates, or its error.
  unfoldable pub ensure_webhook_token : Result (List (String × Map String))
  ensure_webhook_token = unless_exists (cluster.secret secret_name)

  abbrev with_url : ArkEvent
  with_url = if cluster.webhook_url == "" then event else record event {
    status = record (event.status) {
      webhook_url =
          cluster.webhook_url <> "/triggers/" <> event.namespace <> "/" <> event.name <> "/fire";
    };
  }

  abbrev pub with_token : Result (List (String × Map String)) → EventPass
  with_token (err e) = left event (err e)
  with_token (ok secrets) = record {
    event = set_condition with_url condition_true "Ready" (text "waiting for webhook POST");
    created = [];
    secrets = secrets;
    result = ok 0;
  }

  unfoldable pub reconcile_webhook : EventPass
  unfolding ensure_webhook_token set_condition
  reconcile_webhook = with_token ensure_webhook_token

module _ (lib : TriggerLibrary) (cluster : EventCluster) (event : ArkEvent) where
  abbrev pub not_found_pass : String → Message → Result ℕ → EventPass
  not_found_pass name e result =
      left
        (set_condition event condition_false "PipelineNotFound"
          (format "flow %q not found: %v" (str name (msg e end))))
        result

  -- The flow is in the phase and the trigger has not fired for it.
  unfoldable pub fire_output : ArkFlow → EventPass
  unfolding set_condition count_fire
  fire_output f =
      let fired =
        fire lib cluster.fires event (fire_context lib event cluster.now f.status.output) in
      after_fire event fired.created fired.error (
        left
          (set_condition (count_fire cluster.now event) condition_true "Active"
            (text "fired on flow completion"))
          (ok 0))

  unfoldable pub watch_flow : PipelineOutputSource → ArkFlow → EventPass
  unfolding set_condition phase_text phase_eqb desired_phase already_fired fire_output
  watch_flow src f =
      let firing = fire_output f in
      let desired = desired_phase src.on_phase in
      let waits = set_condition event condition_true "Watching" (
        format "waiting for flow %q to reach phase %s (current: %s)"
          (str src.name (str (phase_text desired) (str (phase_text f.status.phase) end)))) in
      let old =
        set_condition event condition_true "Active"
          (text "already fired for this flow completion") in
      if not (phase_eqb f.status.phase desired)
      then left waits (ok 0)
      else if already_fired f.status.completion_time event.status.last_fired_at
      then left old (ok 0)
      else firing

  -- After the flow was read.
  abbrev pub with_flow : PipelineOutputSource → Fetched ArkFlow → EventPass
  with_flow src not_found = not_found_pass src.name (text "not found") (ok 0)
  with_flow src (unavailable e) = not_found_pass src.name e (err e)
  with_flow src (found f) = watch_flow src f

  abbrev no_source : EventPass
  no_source =
      left
        (set_condition event condition_false "InvalidSource"
          (text "spec.source.pipelineOutput.name is required for pipeline-output type"))
        (ok 0)

  abbrev pub with_source : Option PipelineOutputSource → EventPass
  with_source none = no_source
  with_source (some src) =
      if src.name == "" then no_source else with_flow src (cluster.fires.flow src.name)

  unfoldable pub reconcile_pipeline_output : EventPass
  unfolding watch_flow set_condition
  reconcile_pipeline_output = with_source event.spec.source.pipeline_output
