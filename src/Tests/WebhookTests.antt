-- ===== src/Tests/WebhookTests.antt =====
-- Requests to the webhook server.
use arkonis_operator.Prelude.{
  ◌*◌, String, none, [], ◌∷◌, false, ◌==◌, ◌≡◌, ◌≢◌, refl, arith, inl, inr, All, length,
  if◌then◌else◌,
}
use arkonis_operator.Prelude.Words.{Int64, lt64}
use arkonis_operator.Prelude.Map.{lookup, lookup_or}
use arkonis_operator.Prelude.Text.{split_at, trim_prefix, cut_prefix}
use arkonis_operator.Api.Meta.{text, Result, ok, err}
use arkonis_operator.Api.Event.{ArkEvent, TriggerSourceType, allow}
use arkonis_operator.Controller.FlowReconcile.{found, not_found}
use arkonis_operator.Controller.Event.Fire.{
  Dispatched, fire, fire_targets, build_flow, resolve_overrides, resolve_trigger_template,
  has_running_flow, event_flow,
}
use arkonis_operator.Controller.Webhook.{
  Request, WebhookCluster, done, tick, timed_out, error, result, second, reply_with, sync_timeout,
  bearer_token, valid_token, serve_http, serve_event, serve_fire, handle_sync, wait_for_flow,
  sync_result, answer_sync,
}
use arkonis_operator.Controller.Webhook.Access.{NamesAdmitted, serve_http-NamesAdmitted}
use arkonis_operator.Controller.Webhook.Sync.{IsOutput, handle_sync-IsOutput, serve_fire-several}
use arkonis_operator.Controller.Webhook.Waits.{IsUnfinished, handle_sync-timed_out}
use arkonis_operator.Tests.Triggers.{plain_texts, ended_report, fires_at, target, trigger}

abbrev hook : ArkEvent
hook = trigger TriggerSourceType.webhook allow

abbrev twice : ArkEvent
twice = record hook { spec = record (hook.spec) { targets = target ∷ target ∷ [] } }

abbrev durations : String → Result Int64
durations s =
    if s == "30s"
    then ok (30 * second)
    else if s == "1h"
    then ok (3600 * second)
    else err (text "invalid duration")

abbrev ignored : String → Unit {0}
ignored s = tt

abbrev hooks : WebhookCluster
hooks = record {
  event = λ namespace name. if name == "nightly" then found hook else not_found;
  secret = λ namespace name.
      if name == "nightly-webhook-token" then found (("token", "abc") ∷ []) else not_found;
  fires = fires_at [];
  now = 47;
  turns = λ timeout f. tick (found f) false ∷ tick (found ended_report) false ∷ [];
}

abbrev post : String → Request
post timeout = record {
  path = "/triggers/default/nightly/fire";
  method = "POST";
  authorization = "Bearer abc";
  token = "";
  mode = "sync";
  timeout = timeout;
  content = "";
}

posts : (serve_http plain_texts durations ignored hooks (post "")).created ≢ []
unfolding serve_http serve_event serve_fire valid_token bearer_token split_at trim_prefix cut_prefix
    lookup_or lookup fire fire_targets build_flow resolve_overrides resolve_trigger_template
    event_flow has_running_flow
posts = λ e. cc e

serve_http-NamesAdmitted_example :
    NamesAdmitted plain_texts durations ignored hooks
      (post "")
      (split_at 47 (trim_prefix "/triggers/default/nightly/fire" "/"))
serve_http-NamesAdmitted_example =
    serve_http-NamesAdmitted plain_texts durations ignored hooks (post "") (inl posts)

-- A flow that is never read as ended.
abbrev slow : WebhookCluster
slow = record hooks { turns = λ timeout f. tick (found f) false ∷ done ∷ [] }

abbrev waited_for : Dispatched
waited_for = event_flow plain_texts hook target "x" ended_report []

waited_for-IsUnfinished : All IsUnfinished (tick (found waited_for.flow) false ∷ [])
unfolding event_flow
waited_for-IsUnfinished = (((λ e. cc e), (λ e. cc e)), tt)

-- The request names a longer timeout.
handle_sync-timed_out_example :
    (lt64 (300 * second) (300 * second) ≡ false)
    × (handle_sync plain_texts durations ignored slow (post "1h") (waited_for ∷ [])
        ≡ reply_with 504 (timed_out (300 * second)))
handle_sync-timed_out_example =
    handle_sync-timed_out plain_texts durations ignored slow (post "1h") (300 * second) waited_for
      (tick (found waited_for.flow) false ∷ []) [] (inr (refl, refl)) waited_for-IsUnfinished refl

answers :
    handle_sync plain_texts durations ignored hooks
      (post "30s")
      (event_flow plain_texts hook target "x" ended_report [] ∷ [])
    ≡ reply_with 200 (result (record { status = "succeeded"; output = "done"; error = text "" }))
unfolding handle_sync wait_for_flow sync_result answer_sync sync_timeout event_flow
answers = refl

handle_sync-IsOutput_example :
    IsOutput plain_texts durations ignored hooks
      (post "30s")
      (event_flow plain_texts hook target "x" ended_report [] ∷ [])
      (result (record { status = "succeeded"; output = "done"; error = text "" }))
handle_sync-IsOutput_example =
    handle_sync-IsOutput plain_texts durations ignored hooks (post "30s")
      (event_flow plain_texts hook target "x" ended_report [] ∷ [])
      (result (record { status = "succeeded"; output = "done"; error = text "" })) answers

fine_twice :
    (fire plain_texts
      (fires_at [])
      twice
      (record { name = "nightly"; fired_at = "now"; output = ""; body = tt })).error
    ≡ none
unfolding fire fire_targets build_flow resolve_overrides resolve_trigger_template event_flow
    has_running_flow
fine_twice = refl

serve_fire-several_example :
    (length (serve_fire plain_texts durations ignored hooks (post "") "nightly" twice).created ≡ 2)
    × ((serve_fire plain_texts durations ignored hooks (post "") "nightly" twice).answer
        ≡ reply_with 400 (error (text "sync mode requires exactly one target flow")))
serve_fire-several_example =
    serve_fire-several plain_texts durations ignored hooks (post "") "nightly" twice refl
      (omega arith) fine_twice refl
