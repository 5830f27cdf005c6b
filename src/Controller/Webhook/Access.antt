-- ===== src/Controller/Webhook/Access.antt =====
-- internal/controller/trigger_webhook_server.go: the requests that the handler lets through.
use arkonis_operator.Prelude.{
  ℕ, String, none, List, [], ◌∷◌, Bool, true, false, not, ◌&&◌, ◌==◌, ◌≡◌, ◌≢◌, ◌⊎◌, refl, arith,
  inl, inr, Bool-cases, if◌then◌else◌, eq_iff,
}
use arkonis_operator.Prelude.Words.{Int64}
use arkonis_operator.Prelude.Map.{Map, lookup_or}
use arkonis_operator.Prelude.Text.{◌<>◌, split_at, trim_prefix}
use arkonis_operator.Api.Meta.{Result}
use arkonis_operator.Api.Event.{ArkEvent, TriggerSourceType}
use arkonis_operator.Controller.FlowReconcile.{Fetched, found, not_found, unavailable}
use arkonis_operator.Controller.Event.Fire.{TriggerLibrary}
use arkonis_operator.Controller.Webhook.{
  Request, WebhookCluster, Served, refused, is_webhook, token_of, same_token, valid_token,
  serve_fire, serve_event, serve_fetched, serve_parts, serve_http,
}

if-same :
    (token : String) (same : Bool)
    → (if token == "" then false else same) ≡ true
    → (token ≢ "") × (same ≡ true)
if-same token same h = elim (Bool-cases (token == "")) [
  | inl empty ↦ ground arith
  | inr full ↦ ((λ e. ground (arith, eq_iff token "")), ground arith)
]

module _ (lib : TriggerLibrary) (parse_duration : String → Result Int64)
    (unmarshal : String → lib.Body) (cluster : WebhookCluster) (r : Request) where
  -- The request carries the token of the trigger, which is not empty.
  abbrev pub IsAuthorized : ArkEvent → Type 0
  IsAuthorized event =
      (values : Map String) × (cluster.secret event.namespace (event.name <> "-webhook-token")
        ≡ found values)
      × (token_of r ≡ lookup_or "" "token" values)
      × (token_of r ≢ "")

  abbrev pub IsAdmitted : ArkEvent → Type 0
  IsAdmitted event =
      (event.spec.source.type ≡ TriggerSourceType.webhook)
      × (event.spec.suspended ≡ false)
      × IsAuthorized event

  -- Something was created or written.
  abbrev pub HasEffect : Served → Type 0
  HasEffect s = (s.created ≢ []) ⊎ (s.write ≢ none)

  same_token-found :
      (token : String) (stored : Fetched (Map String))
      → same_token lib parse_duration unmarshal cluster token stored ≡ true
      → (values : Map String) × (stored ≡ found values) × (token ≡ lookup_or "" "token" values)
  same_token-found token (found values) same =
      (values, refl, ground (arith, eq_iff token (lookup_or "" "token" values)))
  same_token-found token not_found same = cc same
  same_token-found token (unavailable e) same = cc same

  valid_token-IsAuthorized :
      (event : ArkEvent)
      → valid_token lib parse_duration unmarshal cluster event (token_of r) ≡ true
      → IsAuthorized event
  unfolding valid_token
  valid_token-IsAuthorized event good =
      let token = token_of r in
      let stored = cluster.secret event.namespace (event.name <> "-webhook-token") in
      let (full, same) =
        if-same token (same_token lib parse_duration unmarshal cluster token stored) good in
      let (values, get, equal) = same_token-found token stored same in (values, get, equal, full)

  -- The turn of each check: what passes it has an effect only if the check holds.
  module _ (code : ℕ) (why : String) (rest : Served) where
    refused_unless :
        (test : Bool)
        → HasEffect (if not test then refused code why else rest)
        → (test ≡ true) × HasEffect rest
    refused_unless true effect = (refl, effect)
    refused_unless false (inl made) = absurd (made refl)
    refused_unless false (inr wrote) = absurd (wrote refl)

    refused_if :
        (test : Bool)
        → HasEffect (if test then refused code why else rest)
        → (test ≡ false) × HasEffect rest
    refused_if true (inl made) = absurd (made refl)
    refused_if true (inr wrote) = absurd (wrote refl)
    refused_if false effect = (refl, effect)

  refused_idle : {P : Type 0} (code : ℕ) (why : String) → HasEffect (refused code why) → P
  refused_idle code why (inl made) = absurd (made refl)
  refused_idle code why (inr wrote) = absurd (wrote refl)

  is_webhook-webhook :
      (type : TriggerSourceType) → is_webhook type ≡ true → type ≡ TriggerSourceType.webhook
  is_webhook-webhook TriggerSourceType.webhook is = refl
  is_webhook-webhook TriggerSourceType.cron is = cc is
  is_webhook-webhook TriggerSourceType.pipeline_output is = cc is
  is_webhook-webhook (TriggerSourceType.unknown _) is = cc is

  serve_event-IsAdmitted :
      (name : String) (event : ArkEvent)
      → HasEffect (serve_event lib parse_duration unmarshal cluster r name event)
      → IsAdmitted event
  unfolding serve_event
  serve_event-IsAdmitted name event effect =
      let firing = serve_fire lib parse_duration unmarshal cluster r name event in
      let (webhook, typed) =
        refused_unless 400 "trigger is not of type webhook" _ (is_webhook event.spec.source.type)
          effect in
      let (active, awake) = refused_if 503 "trigger is suspended" _ event.spec.suspended typed in
      let (good, fires) = refused_unless 401 "unauthorized" firing _ awake in
      (
        is_webhook-webhook event.spec.source.type webhook,
        active,
        valid_token-IsAuthorized event good,
      )

  -- The trigger that a path names is admitted.
  abbrev pub NamesAdmitted : List String → Type 0
  NamesAdmitted parts =
      (namespace : String) × (name : String) × (event : ArkEvent) × (parts
        ≡ "triggers" ∷ namespace ∷ name ∷ "fire" ∷ [])
      × (r.method ≡ "POST")
      × (cluster.event namespace name ≡ found event)
      × IsAdmitted event

  serve_fetched-IsAdmitted :
      (name : String) (got : Fetched ArkEvent)
      → HasEffect (serve_fetched lib parse_duration unmarshal cluster r name got)
      → (event : ArkEvent) × (got ≡ found event) × IsAdmitted event
  serve_fetched-IsAdmitted name (found event) effect =
      (event, refl, serve_event-IsAdmitted name event effect)
  serve_fetched-IsAdmitted name not_found effect = refused_idle 404 "trigger not found" effect
  serve_fetched-IsAdmitted name (unavailable e) effect = refused_idle 404 "trigger not found" effect

  if-found :
      (test : Bool) (x : Served)
      → HasEffect (if test then x else refused 404 "not found")
      → (test ≡ true) × HasEffect x
  if-found true x effect = (refl, effect)
  if-found false x effect = refused_idle 404 "not found" effect

  both : (a b : Bool) → (a && b) ≡ true → (a ≡ true) × (b ≡ true)
  both a b h = (ground arith, ground arith)

  serve_parts-NamesAdmitted :
      (parts : List String)
      → HasEffect (serve_parts lib parse_duration unmarshal cluster r parts)
      → NamesAdmitted parts
  serve_parts-NamesAdmitted (first ∷ namespace ∷ name ∷ last ∷ []) effect =
      let (path, named) = if-found (first == "triggers" && last == "fire") _ effect in
      let (is_first, is_last) = both (first == "triggers") (last == "fire") path in
      let (post, get) = refused_unless 405 "method not allowed" _ (r.method == "POST") named in
      let (event, read, admitted) =
        serve_fetched-IsAdmitted name (cluster.event namespace name) get in
      let start : first ≡ "triggers" = ground (arith, eq_iff first "triggers") in
      let end : last ≡ "fire" = ground (arith, eq_iff last "fire") in
      (
        namespace,
        name,
        event,
        rw (start, end) refl,
        ground (arith, eq_iff r.method "POST"),
        read,
        admitted,
      )
  serve_parts-NamesAdmitted [] effect = refused_idle 404 "not found" effect
  serve_parts-NamesAdmitted (_ ∷ []) effect = refused_idle 404 "not found" effect
  serve_parts-NamesAdmitted (_ ∷ _ ∷ []) effect = refused_idle 404 "not found" effect
  serve_parts-NamesAdmitted (_ ∷ _ ∷ _ ∷ []) effect = refused_idle 404 "not found" effect
  serve_parts-NamesAdmitted (_ ∷ _ ∷ _ ∷ _ ∷ _ ∷ _) effect = refused_idle 404 "not found" effect

  -- A request that creates a flow or writes a status is a POST to the path of a trigger that was read, is a
  -- webhook trigger and is not suspended, and it carries the token, not empty, of the trigger's secret.
  pub serve_http-NamesAdmitted :
      HasEffect (serve_http lib parse_duration unmarshal cluster r)
      → NamesAdmitted (split_at 47 (trim_prefix r.path "/"))
  unfolding serve_http
  serve_http-NamesAdmitted effect =
      serve_parts-NamesAdmitted (split_at 47 (trim_prefix r.path "/")) effect
