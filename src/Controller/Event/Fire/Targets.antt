-- ===== src/Controller/Event/Fire/Targets.antt =====
-- internal/controller/arkevent_controller.go: the flows that one fire creates.
use arkonis_operator.Prelude.{
  ℕ, suc, String, Option, none, some, List, [], ◌∷◌, ◌++◌, ◌≡◌, refl, sym, ap, subst, Bool, length,
}
use arkonis_operator.Prelude.Map.{Map, lookup}
use arkonis_operator.Api.Meta.{Message, Result, ok, err, ok_inj}
use arkonis_operator.Api.Flow.{ArkFlow, ArkFlowPhase}
use arkonis_operator.Api.Event.{ArkEvent, ArkEventTarget, allow}
use arkonis_operator.Controller.FlowReconcile.{Fetched, found, not_found, unavailable}
use arkonis_operator.Controller.AgentWatch.{AllDifferent}
use arkonis_operator.Controller.Event.Fire.{
  FireContext, TriggerLibrary, Dispatched, FireCluster, Fired, has_running_flow, resolve_overrides,
  event_flow, owned, with_input, from_template, build_flow, created_next, built_next, fire_targets,
  by_policy, fire,
}
use arkonis_operator.Controller.Event.Fire.Inputs.{keys, IsInput, resolve_overrides-IsInput}

module _ (lib : TriggerLibrary) (cluster : FireCluster) (event : ArkEvent)
    (context : FireContext lib.Body) where
  -- The flow of a target: it runs the steps of the template, in the namespace of the trigger and under
  -- its label, with its input where the target overrides it, and the one of the template otherwise.
  abbrev pub IsFlowOf : ArkEventTarget → Dispatched → Type 0
  IsFlowOf target made =
      (template : ArkFlow) × (cluster.flow target.pipeline ≡ found template)
      × (made.flow.spec.steps ≡ template.spec.steps)
      × (made.flow.spec.output ≡ template.spec.output)
      × (made.flow.namespace ≡ event.namespace)
      × (made.flow.status.phase ≡ ArkFlowPhase.unset)
      × (lookup "arkonis.dev/trigger" made.labels ≡ some event.name)
      × (AllDifferent (keys target.input)
          → (key : String)
          → IsInput lib context target.input template.spec.input made.flow.spec.input key)

  -- The flows are those of the targets, in their order, and perhaps not of the last ones.
  abbrev pub AreFlowsOf : List ArkEventTarget → List Dispatched → Type 0
  AreFlowsOf targets [] = Unit
  AreFlowsOf [] (made ∷ more) = ⊥
  AreFlowsOf (target ∷ targets) (made ∷ more) = IsFlowOf target made × AreFlowsOf targets more

  owned-ok :
      (made : Dispatched) (e : Option Message) (d : Dispatched)
      → owned lib cluster event context made e ≡ ok d
      → made ≡ d
  owned-ok made none d runs = ok_inj runs
  owned-ok made (some e) d runs = cc runs

  with_input-IsFlowOf :
      (suffix : String) (target : ArkEventTarget) (template : ArkFlow) (input : Result (Map String))
      (made : Dispatched)
      → cluster.flow target.pipeline ≡ found template
      → resolve_overrides lib context target.input template.spec.input ≡ input
      → with_input lib cluster event context target suffix template input ≡ ok made
      → IsFlowOf target made
  unfolding event_flow lookup
  with_input-IsFlowOf suffix target template (err e) made get resolved runs = cc runs
  with_input-IsFlowOf suffix target template (ok input) made get resolved runs =
      let built = event_flow lib event target suffix template input in
      subst (IsFlowOf target) (owned-ok built (cluster.own built) made runs) (
        template,
        get,
        refl,
        refl,
        refl,
        refl,
        refl,
        λ different.
            resolve_overrides-IsInput lib context target.input template.spec.input input different
              resolved,
      )

  from_template-IsFlowOf :
      (suffix : String) (target : ArkEventTarget) (got : Fetched ArkFlow) (made : Dispatched)
      → cluster.flow target.pipeline ≡ got
      → from_template lib cluster event context suffix target got ≡ ok made
      → IsFlowOf target made
  from_template-IsFlowOf suffix target (found template) made get runs =
      with_input-IsFlowOf suffix target template
        (resolve_overrides lib context target.input template.spec.input) made get refl runs
  from_template-IsFlowOf suffix target not_found made get runs = cc runs
  from_template-IsFlowOf suffix target (unavailable e) made get runs = cc runs

  build_flow-IsFlowOf :
      (suffix : String) (target : ArkEventTarget) (made : Dispatched)
      → build_flow lib cluster event context suffix target ≡ ok made
      → IsFlowOf target made
  unfolding build_flow
  build_flow-IsFlowOf suffix target made runs =
      from_template-IsFlowOf suffix target (cluster.flow target.pipeline) made refl runs

  -- What a fire leaves for some targets: flows of the targets, and of all of them if it has no error.
  abbrev pub Serves : List ArkEventTarget → Fired → Type 0
  Serves targets fired =
      AreFlowsOf targets fired.created
      × (fired.error ≡ none → length fired.created ≡ length targets)

  module _ (go : List Dispatched → Fired) (target : ArkEventTarget) (targets : List ArkEventTarget)
      (rest : (more : List Dispatched) → Serves targets (go more)) (before : List Dispatched) where
    created_next-Serves :
        (made : Dispatched) (e : Option Message)
        → IsFlowOf target made
        → Serves (target ∷ targets) (created_next lib cluster event context go before target made e)
    created_next-Serves made none is = (
      (is, (rest (before ++ (made ∷ []))).0),
      λ done. ap suc ((rest (before ++ (made ∷ []))).1 done),
    )
    created_next-Serves made (some e) is = (tt, λ done. cc done)

    built_next-Serves :
        (built : Result Dispatched)
        → ((made : Dispatched) → built ≡ ok made → IsFlowOf target made)
        → Serves (target ∷ targets) (built_next lib cluster event context go before target built)
    built_next-Serves (ok made) is =
        created_next-Serves made (cluster.create before made) (is made refl)
    built_next-Serves (err e) is = (tt, λ done. cc done)

  fire_targets-Serves :
      (n : ℕ) (before : List Dispatched) (targets : List ArkEventTarget)
      → Serves targets (fire_targets lib cluster event context n before targets)
  unfolding fire_targets
  fire_targets-Serves n before [] = (tt, λ done. refl)
  fire_targets-Serves n before (target ∷ targets) =
      built_next-Serves (λ more. fire_targets lib cluster event context (suc n) more targets) target
        targets (λ more. fire_targets-Serves (suc n) more targets) before
        (build_flow lib cluster event context (cluster.suffix n) target)
        (build_flow-IsFlowOf (cluster.suffix n) target)

  by_policy-allow :
      (running : Result Bool) (fired : Fired)
      → event.spec.concurrency_policy ≡ allow
      → by_policy lib cluster event context event.spec.concurrency_policy running fired ≡ fired
  by_policy-allow running fired allows = rw (allows) refl

  -- Where the trigger allows concurrency, the flows that a fire creates are those of its targets in
  -- their order: each runs the steps of its template in the trigger's namespace, under its label, with
  -- the overridden inputs resolved and the others kept; without an error there is one for each target.
  pub fire-Serves :
      event.spec.concurrency_policy ≡ allow
      → Serves event.spec.targets (fire lib cluster event context)
  unfolding fire
  fire-Serves allows =
      subst (Serves event.spec.targets)
        (sym (
          by_policy-allow (has_running_flow cluster event)
            (fire_targets lib cluster event context 0 [] event.spec.targets) allows))
        (fire_targets-Serves 0 [] event.spec.targets)
