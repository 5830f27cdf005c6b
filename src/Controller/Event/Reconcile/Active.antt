-- ===== src/Controller/Event/Reconcile/Active.antt =====
-- internal/controller/arkevent_controller.go: the triggers whose reconcile creates something.
use arkonis_operator.Prelude.{
  some_inj, ℕ, String, Option, none, some, List, [], Bool, true, false, ◌≡◌, ◌≢◌, ◌⊎◌, inl, inr,
  refl, sym, ap, ◌∙◌, if◌then◌else◌,
}
use arkonis_operator.Prelude.Map.{Map}
use arkonis_operator.Api.Meta.{Message, text, format, str, end, condition_false, Result, ok, err}
use arkonis_operator.Api.Event.{ArkEvent, TriggerSourceType}
use arkonis_operator.Controller.FlowReconcile.{Fetched, found, not_found, unavailable}
use arkonis_operator.Controller.Event.Schedule.{Cron}
use arkonis_operator.Controller.Event.Fire.{TriggerLibrary}
use arkonis_operator.Controller.Event.Status.{EventCluster, EventPass, left, set_condition}
use arkonis_operator.Controller.Event.Sources.{reconcile_webhook, with_token, ensure_webhook_token}
use arkonis_operator.Controller.Event.Reconcile.{
  EventReconciled, update_event, with_status, on_latest, handled, declined, by_source, suspended,
  on_event, reconcile_event,
}

module _ (lib : TriggerLibrary) (cron : Cron) (cluster : EventCluster) where
  -- A trigger that is active and fires by itself: from a schedule, or from the output of a flow.
  abbrev pub IsActive : ArkEvent → Type 0
  IsActive event =
      (event.spec.suspended ≡ false)
      × ((event.spec.source.type ≡ TriggerSourceType.cron)
          ⊎ (event.spec.source.type ≡ TriggerSourceType.pipeline_output))

  update_event-created :
      (e : Option Message) (event : ArkEvent) (pass : EventPass)
      → (update_event lib cron cluster e event pass).created ≡ pass.created
  update_event-created none event pass = refl
  update_event-created (some e) event pass = refl

  on_latest-created :
      (latest : Fetched ArkEvent) (pass : EventPass)
      → (on_latest lib cron cluster latest pass).created ≡ pass.created
  on_latest-created not_found pass = refl
  on_latest-created (unavailable e) pass = refl
  on_latest-created (found latest) pass =
      update_event-created (cluster.update (with_status lib cron cluster latest pass.event))
        (with_status lib cron cluster latest pass.event) pass

  handled-created :
      (r : Result ℕ) (pass : EventPass) → (handled lib cron cluster r pass).created ≡ pass.created
  handled-created (err e) pass = refl
  handled-created (ok after) pass = on_latest-created cluster.latest pass

  with_token-created :
      (event : ArkEvent) (r : Result (List (String × Map String)))
      → (with_token cluster event r).created ≡ []
  with_token-created event (err e) = refl
  with_token-created event (ok secrets) = refl

  reconcile_webhook-created : (event : ArkEvent) → (reconcile_webhook cluster event).created ≡ []
  unfolding reconcile_webhook
  reconcile_webhook-created event = with_token-created event (ensure_webhook_token cluster event)

  declined-created : (event : ArkEvent) → (declined lib cron cluster event).created ≡ []
  declined-created event =
      let observed = with_status lib cron cluster event event in
      update_event-created (cluster.update observed) observed (left event (ok 0))

  -- What a source creates a flow for.
  by_source-fires :
      (event : ArkEvent) (type : TriggerSourceType) (r : EventReconciled)
      → by_source lib cron cluster event type ≡ some r
      → r.created ≢ []
      → (type ≡ TriggerSourceType.cron) ⊎ (type ≡ TriggerSourceType.pipeline_output)
  by_source-fires event TriggerSourceType.cron r runs made = inl refl
  by_source-fires event TriggerSourceType.pipeline_output r runs made = inr refl
  by_source-fires event TriggerSourceType.webhook r runs made =
      let pass = reconcile_webhook cluster event in
      absurd (
        made (
          ap (λ x. x.created) (sym (some_inj runs))
          ∙ handled-created pass.result pass
          ∙ reconcile_webhook-created event))
  by_source-fires event (TriggerSourceType.unknown type) r runs made = absurd (
      made (
        ap (λ x. x.created) (sym (some_inj runs))
        ∙ declined-created (
            set_condition event condition_false "InvalidSource"
              (format "unknown source type %q" (str type end)))))

  -- After the trigger was read; `stopped` creates nothing.
  if-fires :
      (event : ArkEvent) (asleep : Bool) (stopped : EventReconciled) (rest : Option EventReconciled)
      (r : EventReconciled)
      → stopped.created ≡ []
      → (if asleep then some stopped else rest) ≡ some r
      → r.created ≢ []
      → (asleep ≡ false) × (rest ≡ some r)
  if-fires event true stopped rest r idle runs made =
      absurd (made (ap (λ x. x.created) (sym (some_inj runs)) ∙ idle))
  if-fires event false stopped rest r idle runs made = (refl, runs)

  on_event-IsActive :
      (event : ArkEvent) (r : EventReconciled)
      → on_event lib cron cluster event ≡ some r
      → r.created ≢ []
      → IsActive event
  on_event-IsActive event r runs made =
      let stopped = set_condition event condition_false "Suspended" (text "trigger is suspended") in
      let (awake, rest) =
        if-fires event event.spec.suspended (suspended lib cron cluster event)
          (by_source lib cron cluster event event.spec.source.type) r (declined-created stopped)
          runs made in
      (awake, by_source-fires event event.spec.source.type r rest made)

  reconcile_event-found :
      (event : ArkEvent)
      → cluster.event ≡ found event
      → reconcile_event lib cron cluster ≡ on_event lib cron cluster event
  unfolding reconcile_event
  reconcile_event-found event get = rw (get, reconcile_event) refl

  -- A reconcile that creates a flow, of a trigger that was read, is of one that is not suspended and fires
  -- from a schedule or from the output of a flow: a suspended trigger and a webhook create none.
  pub reconcile_event-IsActive :
      (event : ArkEvent) (r : EventReconciled)
      → cluster.event ≡ found event
      → reconcile_event lib cron cluster ≡ some r
      → r.created ≢ []
      → IsActive event
  reconcile_event-IsActive event r get runs made =
      on_event-IsActive event r (sym (reconcile_event-found event get) ∙ runs) made
