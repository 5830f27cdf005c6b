-- ===== src/Controller/Event/Fire/Forbid.antt =====
-- internal/controller/arkevent_controller.go: the fire of a trigger that forbids concurrency.
use arkonis_operator.Prelude.{
  List, [], ◌∷◌, ◌≡◌, ◌≢◌, inl, inr, refl, sym, ap, ◌∙◌, subst, arith, Bool, true, false,
  Bool-cases, All,
}
use arkonis_operator.Api.Meta.{Result, ok, err, ok_inj}
use arkonis_operator.Api.Flow.{ArkFlow, ArkFlowPhase}
use arkonis_operator.Api.Event.{ArkEvent, forbid}
use arkonis_operator.Controller.Event.Fire.{
  FireContext, TriggerLibrary, FireCluster, Fired, is_running, any_running, trigger_labels,
  any_listed, has_running_flow, fire_targets, unless_running, by_policy, fire,
}

-- A listed flow that is not running.
abbrev pub NotRunning : ArkFlow → Type 0
NotRunning f = f.status.phase ≢ ArkFlowPhase.running

is_running-ne : (f : ArkFlow) → is_running f.status.phase ≡ false → NotRunning f
unfolding is_running
is_running-ne f no_run same =
    absurd (subst (λ p. is_running p ≡ false → ⊥) (sym same) (λ e. cc e) no_run)

any_running-NotRunning : (flows : List ArkFlow) → any_running flows ≡ false → All NotRunning flows
unfolding any_running
any_running-NotRunning [] none_runs = tt
any_running-NotRunning (f ∷ flows) none_runs = elim (Bool-cases (is_running f.status.phase)) [
  | inl runs ↦ ground arith
  | inr stands ↦ (is_running-ne f stands, any_running-NotRunning flows (ground arith))
]

module _ (lib : TriggerLibrary) (cluster : FireCluster) (event : ArkEvent)
    (context : FireContext lib.Body) where
  -- No flow of the trigger is running: the list was read, and no flow of it is Running.
  abbrev pub Idle : Type 0
  Idle =
      (flows : List ArkFlow) × (cluster.list (trigger_labels event) ≡ ok flows)
      × All NotRunning flows

  listed-Idle :
      (listed : Result (List ArkFlow))
      → cluster.list (trigger_labels event) ≡ listed
      → any_listed listed ≡ ok false
      → Idle
  listed-Idle (ok flows) get idle = (flows, get, any_running-NotRunning flows (ok_inj idle))
  listed-Idle (err e) get idle = cc idle

  has_running_flow-Idle : has_running_flow cluster event ≡ ok false → Idle
  unfolding has_running_flow
  has_running_flow-Idle idle = listed-Idle (cluster.list (trigger_labels event)) refl idle

  unless_running-Idle :
      (running : Result Bool) (fired : Fired)
      → has_running_flow cluster event ≡ running
      → (unless_running lib cluster event context running fired).created ≢ []
      → Idle
  unless_running-Idle (ok false) fired get made = has_running_flow-Idle get
  unless_running-Idle (ok true) fired get made = absurd (made refl)
  unless_running-Idle (err e) fired get made = absurd (made refl)

  by_policy-forbid :
      (running : Result Bool) (fired : Fired)
      → event.spec.concurrency_policy ≡ forbid
      → by_policy lib cluster event context event.spec.concurrency_policy running fired
        ≡ unless_running lib cluster event context running fired
  by_policy-forbid running fired forbids = rw (forbids) refl

  -- Where the trigger forbids concurrency, a fire creates a flow only if the flows under the label of the
  -- trigger were listed and none of them is Running.
  pub fire-Idle :
      event.spec.concurrency_policy ≡ forbid → (fire lib cluster event context).created ≢ [] → Idle
  unfolding fire
  fire-Idle forbids made =
      let running = has_running_flow cluster event in
      let fired = fire_targets lib cluster event context 0 [] event.spec.targets in
      unless_running-Idle running fired refl (λ none_made.
        made (ap (λ f. f.created) (by_policy-forbid running fired forbids) ∙ none_made))
