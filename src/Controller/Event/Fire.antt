-- ===== src/Controller/Event/Fire.antt =====
-- internal/controller/arkevent_controller.go: `fire` and what it calls. A trigger creates one flow for
-- each of its targets. The package text/template and the API server are parameters.
pub mod Targets
pub mod Inputs
pub mod Forbid
use arkonis_operator.Prelude.{
  ℕ, zero, suc, String, Option, none, some, List, [], ◌∷◌, ◌++◌, Bool, true, false, if◌then◌else◌,
}
use arkonis_operator.Prelude.Map.{Map, insert}
use arkonis_operator.Prelude.Text.{◌<>◌}
use arkonis_operator.Api.Meta.{Time, Message, text, format, str, msg, end, Result, ok, err}
use arkonis_operator.Api.Flow.{ArkFlow, ArkFlowPhase}
use arkonis_operator.Api.Event.{ArkEvent, ArkEventTarget, ConcurrencyPolicy, allow, forbid}
use arkonis_operator.Controller.FlowReconcile.{Fetched, found, not_found, unavailable}

pub record FireContext (Body : Type 0) : Type 0 where
  pub name : String
  pub fired_at : String
  pub output : String
  pub body : Body

-- text/template, the formats of package time, and the body of a trigger that has none.
pub record TriggerLibrary : Type 1 where
  pub Body : Type 0
  pub Template : Type 0
  pub no_body : Body
  pub parse : String → Result Template
  pub execute : Template → FireContext Body → Result String
  pub rfc3339 : Time → String

-- A flow that a trigger creates, with its labels.
pub record Dispatched : Type 0 where
  pub flow : ArkFlow
  pub labels : Map String

-- The answers of the API server during one fire: a flow of the namespace by name, the flows with given
-- labels, whether an owner may be set, whether a flow may be created after others were, and the
-- suffix that the clock gives to the name of the flow of each target.
pub record FireCluster : Type 0 where
  pub flow : String → Fetched ArkFlow
  pub list : Map String → Result (List ArkFlow)
  pub own : Dispatched → Option Message
  pub create : List Dispatched → Dispatched → Option Message
  pub suffix : ℕ → String

-- What a fire leaves: the flows that it created, and its error. `fire` returns these flows where it
-- has no error.
pub record Fired : Type 0 where
  pub created : List Dispatched
  pub error : Option Message

unfoldable pub is_running : ArkFlowPhase → Bool
is_running ArkFlowPhase.running = true
is_running ArkFlowPhase.unset = false
is_running ArkFlowPhase.pending = false
is_running ArkFlowPhase.succeeded = false
is_running ArkFlowPhase.failed = false

unfoldable pub any_running : List ArkFlow → Bool
unfolding is_running
any_running [] = false
any_running (f ∷ flows) = if is_running f.status.phase then true else any_running flows

unfoldable pub trigger_labels : ArkEvent → Map String
trigger_labels event = ("arkonis.dev/trigger", event.name) ∷ []

abbrev pub any_listed : Result (List ArkFlow) → Result Bool
any_listed (err e) = err e
any_listed (ok flows) = ok (any_running flows)

unfoldable pub has_running_flow : FireCluster → ArkEvent → Result Bool
unfolding any_running trigger_labels
has_running_flow cluster event = any_listed (cluster.list (trigger_labels event))

module _ (lib : TriggerLibrary) where
  open lib use {Body, parse, execute}

  -- A text that is no template stands for itself.
  unfoldable pub resolve_trigger_template : FireContext Body → String → Result String
  resolve_trigger_template context expr = elim (parse expr) [
    | err _ ↦ ok expr
    | ok template ↦ execute template context
  ]

  abbrev override :
      String → Result String → (Map String → Result (Map String)) → Map String → Result (Map String)
  override key (err e) go resolved = err (format "resolving input %q: %w" (str key (msg e end)))
  override key (ok val) go resolved = go (insert key val resolved)

  -- The loop of `buildFlow` over the inputs of the target.
  unfoldable pub resolve_overrides :
      FireContext Body → Map String → Map String → Result (Map String)
  resolve_overrides context [] resolved = ok resolved
  resolve_overrides context ((key, expr) ∷ overrides) resolved =
      override key (resolve_trigger_template context expr)
        (λ more. resolve_overrides context overrides more) resolved

  unfoldable pub event_flow : ArkEvent → ArkEventTarget → String → ArkFlow → Map String → Dispatched
  event_flow event target suffix template input = record {
    flow = record {
      name = event.name <> "-" <> target.pipeline <> "-" <> suffix;
      namespace = event.namespace;
      generation = 0;
      deletion_timestamp = none;
      spec = record {
        steps = template.spec.steps;
        input = input;
        output = template.spec.output;
        timeout_seconds = template.spec.timeout_seconds;
        max_tokens = template.spec.max_tokens;
      };
      status = record {
        phase = ArkFlowPhase.unset;
        steps = [];
        start_time = none;
        completion_time = none;
        output = "";
        observed_generation = 0;
        total_token_usage = none;
        conditions = [];
      };
    };
    labels =
        ("arkonis.dev/trigger", event.name)
        ∷ ("arkonis.dev/trigger-template", target.pipeline)
        ∷ [];
  }

  module _ (cluster : FireCluster) (event : ArkEvent) (context : FireContext Body) where
    -- After `SetControllerReference`.
    abbrev owned : Dispatched → Option Message → Result Dispatched
    owned made none = ok made
    owned made (some e) = err e

    -- Once the inputs are resolved.
    abbrev with_input : ArkEventTarget → String → ArkFlow → Result (Map String) → Result Dispatched
    with_input target suffix template (err e) = err e
    with_input target suffix template (ok input) =
        let made = event_flow event target suffix template input in owned made (cluster.own made)

    abbrev missing_template : String → Message → Message
    missing_template name e = format "flow template %q not found: %w" (str name (msg e end))

    -- After the template was read.
    abbrev from_template : String → ArkEventTarget → Fetched ArkFlow → Result Dispatched
    from_template suffix target not_found =
        err (missing_template target.pipeline (text "not found"))
    from_template suffix target (unavailable e) = err (missing_template target.pipeline e)
    from_template suffix target (found template) =
        with_input target suffix template
          (resolve_overrides context target.input template.spec.input)

    unfoldable pub build_flow : String → ArkEventTarget → Result Dispatched
    unfolding event_flow resolve_overrides
    build_flow suffix target = from_template suffix target (cluster.flow target.pipeline)

    abbrev stopped : String → ArkEventTarget → Message → Fired
    stopped what target e = record {
      created = [];
      error = some (format what (str target.pipeline (msg e end)));
    }

    abbrev adding : Dispatched → Fired → Fired
    adding made rest = record { created = made ∷ rest.created; error = rest.error }

    -- After `Create`; `before` are the flows created so far.
    abbrev created_next :
        (List Dispatched → Fired)
        → List Dispatched
        → ArkEventTarget
        → Dispatched
        → Option Message
        → Fired
    created_next go before target made (some e) = stopped "creating flow for target %q: %w" target e
    created_next go before target made none = adding made (go (before ++ (made ∷ [])))

    -- After `buildFlow`.
    abbrev built_next :
        (List Dispatched → Fired) → List Dispatched → ArkEventTarget → Result Dispatched → Fired
    built_next go before target (err e) = stopped "building flow for target %q: %w" target e
    built_next go before target (ok made) =
        created_next go before target made (cluster.create before made)

    -- The loop of `fire`; `n` is the index of the first target.
    unfoldable pub fire_targets : ℕ → List Dispatched → List ArkEventTarget → Fired
    fire_targets n before [] = record { created = []; error = none }
    fire_targets n before (target ∷ targets) =
        built_next (λ more. fire_targets (suc n) more targets) before target
          (build_flow (cluster.suffix n) target)

    -- After `hasRunningFlow`.
    abbrev unless_running : Result Bool → Fired → Fired
    unless_running (err e) fired = record { created = []; error = some e }
    unless_running (ok true) fired = record { created = []; error = none }
    unless_running (ok false) fired = fired

    abbrev by_policy : ConcurrencyPolicy → Result Bool → Fired → Fired
    by_policy allow running fired = fired
    by_policy forbid running fired = unless_running running fired

    unfoldable pub fire : Fired
    unfolding fire_targets has_running_flow
    fire =
        by_policy event.spec.concurrency_policy (has_running_flow cluster event)
          (fire_targets 0 [] event.spec.targets)
