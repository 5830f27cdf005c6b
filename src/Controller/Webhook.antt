-- ===== src/Controller/Webhook.antt =====
-- internal/controller/trigger_webhook_server.go: the HTTP handler that fires webhook triggers. The request,
-- the API server, encoding/json and the durations of package time are parameters.
pub mod Access
pub mod Sync
pub mod Waits
use arkonis_operator.Prelude.{
  ℕ, ◌*◌, String, Option, none, some, List, [], ◌∷◌, Bool, true, false, not, ◌&&◌, ◌==◌,
  if◌then◌else◌, length,
}
use arkonis_operator.Prelude.Words.{Int64, add64, lt64}
use arkonis_operator.Prelude.Map.{Map, lookup, lookup_or}
use arkonis_operator.Prelude.Text.{◌<>◌, split_at, cut_prefix, trim_prefix}
use arkonis_operator.Api.Meta.{
  Time, Message, text, format, str, int, msg, end, Result, ok, err, Condition, ConditionStatus,
  condition_true, condition_false, condition_unknown,
}
use arkonis_operator.Api.Flow.{ArkFlow, ArkFlowPhase}
use arkonis_operator.Api.Event.{ArkEvent, TriggerSourceType}
use arkonis_operator.Controller.FlowReconcile.{Fetched, found, not_found, unavailable}
use arkonis_operator.Controller.Event.Fire.{
  FireContext, TriggerLibrary, Dispatched, FireCluster, Fired, fire,
}
use arkonis_operator.Controller.Event.Status.{count_fire}

-- What the handler reads of a request: `token`, `mode` and `timeout` are query parameters, empty where
-- they are missing, and `content` is what could be read of the body (1 MiB of it at most), empty where
-- there is none.
pub record Request : Type 0 where
  pub path : String
  pub method : String
  pub authorization : String
  pub token : String
  pub mode : String
  pub timeout : String
  pub content : String

pub record SyncResult : Type 0 where
  pub status : String
  pub output : String
  pub error : Message

-- The body of an answer, without its times: the text of `http.Error`, the JSON of an asynchronous fire,
-- the result of a flow, or a timeout.
pub data Reply : Type 0 where
  error : Message → Reply
  fired : (trigger : String) (targets : ℕ) → Reply
  result : SyncResult → Reply
  timed_out : Int64 → Reply

-- A turn of the loop of `waitForFlow`: the context is done, or the ticker ticks and the flow is read, when
-- the context may have expired.
pub data Turn : Type 0 where
  done : Turn
  tick : Fetched ArkFlow → (expired : Bool) → Turn

-- What `waitForFlow` returns; `waiting` is a list of turns that is used up.
pub data Waited : Type 0 where
  waiting : Waited
  got : SyncResult → Waited
  lost : Message → (expired : Bool) → Waited

-- What answers the handler: the trigger of a namespace and name, its token secret, the answers during the
-- fire and to the status update, the clock, and the turns of the wait for a flow under a timeout.
pub record WebhookCluster : Type 0 where
  pub event : (namespace name : String) → Fetched ArkEvent
  pub secret : (namespace name : String) → Fetched (Map String)
  pub fires : FireCluster
  pub now : Time
  pub turns : Int64 → ArkFlow → List Turn

-- What a request leaves: the flows created, the trigger that its status update writes (an error of the
-- update is only logged), and the answer, or `none` while it waits.
pub record Served : Type 0 where
  pub created : List Dispatched
  pub write : Option ArkEvent
  pub answer : Option (ℕ × Reply)

unfoldable pub bearer_token : Request → String
bearer_token r = elim (cut_prefix r.authorization "Bearer ") [ none ↦ "" | some token ↦ token ]

abbrev pub reply_with : ℕ → Reply → Option (ℕ × Reply)
reply_with code reply = some (code, reply)

abbrev pub answered : ℕ → Reply → Served
answered code reply = record { created = []; write = none; answer = some (code, reply) }

abbrev pub refused : ℕ → String → Served
refused code why = answered code (error (text why))

abbrev pub is_webhook : TriggerSourceType → Bool
is_webhook TriggerSourceType.webhook = true
is_webhook TriggerSourceType.cron = false
is_webhook TriggerSourceType.pipeline_output = false
is_webhook (TriggerSourceType.unknown _) = false

-- The token of the request: the header's, or the query's.
abbrev pub token_of : Request → String
token_of r = if bearer_token r == "" then r.token else bearer_token r

abbrev is_false : ConditionStatus → Bool
is_false condition_false = true
is_false condition_true = false
is_false condition_unknown = false

-- The message of a failed flow.
unfoldable pub failure : List Condition → Message
failure [] = text "flow failed"
failure (c ∷ conditions) =
    let rest = failure conditions in
    if c.type == "Ready" && is_false c.status then c.message else rest

-- The `switch` on the phase of the flow that was read.
unfoldable pub sync_result : ArkFlow → ArkFlowPhase → Option SyncResult
sync_result f ArkFlowPhase.succeeded =
    some (record { status = "succeeded"; output = f.status.output; error = text "" })
sync_result f ArkFlowPhase.failed =
    some (record { status = "failed"; output = ""; error = failure f.status.conditions })
sync_result f ArkFlowPhase.unset = none
sync_result f ArkFlowPhase.pending = none
sync_result f ArkFlowPhase.running = none

unfoldable pub wait_for_flow : List Turn → Waited
unfolding sync_result
wait_for_flow [] = waiting
wait_for_flow (done ∷ turns) = lost (text "context deadline exceeded") true
wait_for_flow (tick not_found expired ∷ turns) = lost (text "not found") expired
wait_for_flow (tick (unavailable e) expired ∷ turns) = lost e expired
wait_for_flow (tick (found f) expired ∷ turns) = elim (sync_result f f.status.phase) [
  | some r ↦ got r
  | none ↦ wait_for_flow turns
]

abbrev pub second : Int64
second = 1000000000

-- The timeout that a synchronous request names, or 60 seconds where it names none that parses.
abbrev pub requested : (String → Result Int64) → String → Int64
requested parse_duration raw =
    let wanted = elim (parse_duration raw) as (λ d. Int64) [ ok d ↦ d | err _ ↦ 60 * second ] in
    if raw == "" then 60 * second else wanted

unfoldable pub sync_timeout : (String → Result Int64) → String → Int64
sync_timeout parse_duration raw =
    let timeout = requested parse_duration raw in
    if lt64 (300 * second) timeout then 300 * second else timeout

unfoldable pub answer_sync : Int64 → Waited → Option (ℕ × Reply)
answer_sync timeout waiting = none
answer_sync timeout (lost e true) = some (504, timed_out timeout)
answer_sync timeout (lost e false) = some (500, error (format "waiting for flow: %v" (msg e end)))
answer_sync timeout (got r) = some ((if r.status == "failed" then 500 else 200), result r)

module _ (lib : TriggerLibrary) (parse_duration : String → Result Int64)
    (unmarshal : String → lib.Body) (cluster : WebhookCluster) where
  abbrev several : Option (ℕ × Reply)
  several = some (400, error (text "sync mode requires exactly one target flow"))

  unfoldable pub handle_sync : Request → List Dispatched → Option (ℕ × Reply)
  unfolding sync_timeout wait_for_flow answer_sync
  handle_sync r [] = several
  handle_sync r (made ∷ []) =
      let timeout = sync_timeout parse_duration r.timeout in
      answer_sync timeout (wait_for_flow (cluster.turns timeout made.flow))
  handle_sync r (made ∷ other ∷ more) = several

  abbrev pub same_token : String → Fetched (Map String) → Bool
  same_token token not_found = false
  same_token token (unavailable e) = false
  same_token token (found values) = token == lookup_or "" "token" values

  unfoldable pub valid_token : ArkEvent → String → Bool
  valid_token event token =
      let stored = cluster.secret event.namespace (event.name <> "-webhook-token") in
      if token == "" then false else same_token token stored

  abbrev pub webhook_context : Request → ArkEvent → FireContext lib.Body
  webhook_context r event = record {
    name = event.name;
    fired_at = lib.rfc3339 cluster.now;
    output = "";
    body = if r.content == "" then lib.no_body else unmarshal r.content;
  }

  -- The status that is written after a fire.
  abbrev fired_event : ArkEvent → ArkEvent
  fired_event event =
      let counted = count_fire cluster.now event in
      record counted { status = record (counted.status) { observed_generation = event.generation } }

  -- After `fire`.
  abbrev pub serve_fired : Request → String → ArkEvent → List Dispatched → Option Message → Served
  serve_fired r name event created (some e) = record {
    created = created;
    write = none;
    answer = some (500, error (format "fire failed: %v" (msg e end)));
  }
  serve_fired r name event created none =
      let sync = handle_sync r created in
      record {
        created = created;
        write = some (fired_event event);
        answer =
            if r.mode == "sync" then sync else some (202, fired name (length event.spec.targets));
      }

  unfoldable pub serve_fire : Request → String → ArkEvent → Served
  unfolding count_fire handle_sync
  serve_fire r name event =
      let made = fire lib cluster.fires event (webhook_context r event) in
      serve_fired r name event made.created made.error

  -- After the trigger was read; `name` is that of the path.
  unfoldable pub serve_event : Request → String → ArkEvent → Served
  unfolding serve_fire valid_token bearer_token
  serve_event r name event =
      let firing = serve_fire r name event in
      if not (is_webhook event.spec.source.type)
      then refused 400 "trigger is not of type webhook"
      else if event.spec.suspended
      then refused 503 "trigger is suspended"
      else if not (valid_token event (token_of r))
      then refused 401 "unauthorized"
      else firing

  abbrev pub serve_fetched : Request → String → Fetched ArkEvent → Served
  serve_fetched r name not_found = refused 404 "trigger not found"
  serve_fetched r name (unavailable _) = refused 404 "trigger not found"
  serve_fetched r name (found event) = serve_event r name event

  -- Once the path names a trigger.
  abbrev pub serve_named : Request → String → String → Served
  serve_named r namespace name =
      let got = serve_fetched r name (cluster.event namespace name) in
      if not (r.method == "POST") then refused 405 "method not allowed" else got

  abbrev pub serve_parts : Request → List String → Served
  serve_parts r (first ∷ namespace ∷ name ∷ last ∷ []) =
      let got = serve_named r namespace name in
      if first == "triggers" && last == "fire" then got else refused 404 "not found"
  serve_parts r [] = refused 404 "not found"
  serve_parts r (_ ∷ []) = refused 404 "not found"
  serve_parts r (_ ∷ _ ∷ []) = refused 404 "not found"
  serve_parts r (_ ∷ _ ∷ _ ∷ []) = refused 404 "not found"
  serve_parts r (_ ∷ _ ∷ _ ∷ _ ∷ _ ∷ _) = refused 404 "not found"

  -- The code of "/" is 47.
  unfoldable pub serve_http : Request → Served
  unfolding serve_event
  serve_http r = serve_parts r (split_at 47 (trim_prefix r.path "/"))
