-- ===== src/Controller/Event/Sources/Once.antt =====
-- internal/controller/arkevent_controller.go: `reconcilePipelineOutput` fires once for a completed flow.
use arkonis_operator.Prelude.{
  ℕ, ◌≤◌, Bool, true, false, if◌then◌else◌, ◌≢◌, subst, Option, none, some, List, [], ◌≡◌, refl,
  sym, ap, ◌∙◌, arith, ◌==◌,
}
use arkonis_operator.Api.Meta.{Time, Message, ok}
use arkonis_operator.Api.Event.{ArkEvent, PipelineOutputSource}
use arkonis_operator.Api.Flow.{ArkFlow}
use arkonis_operator.Controller.FlowReconcile.{found}
use arkonis_operator.Controller.Event.Fire.{TriggerLibrary, Dispatched}
use arkonis_operator.Controller.Event.Status.{
  EventCluster, EventPass, after_fire, set_condition, count_fire,
}
use arkonis_operator.Controller.Event.Sources.{
  already_fired, fire_output, watch_flow, reconcile_pipeline_output,
}

already_fired-after :
    (completed fired : Time)
    → completed ≤ fired
    → already_fired (some completed) (some fired) ≡ true
unfolding already_fired
already_fired-after completed fired before = ground arith

-- The outcome of the branches of `watch_flow`, by their tests.
if-firing :
    (waiting old : Bool) (waits stale firing : EventPass)
    → waits.created ≡ []
    → stale.created ≡ []
    → (if waiting then waits else if old then stale else firing).created ≢ []
    → (if waiting then waits else if old then stale else firing) ≡ firing
if-firing true old waits stale firing w s made = absurd (made w)
if-firing false true waits stale firing w s made = absurd (made s)
if-firing false false waits stale firing w s made = refl

if-idle :
    (waiting old : Bool) (waits stale firing : EventPass)
    → waits.created ≡ []
    → stale.created ≡ []
    → old ≡ true
    → (if waiting then waits else if old then stale else firing).created ≡ []
if-idle true old waits stale firing w s is_old = w
if-idle false true waits stale firing w s is_old = s
if-idle false false waits stale firing w s is_old = cc is_old

after_fire-ok :
    (event : ArkEvent) (created : List Dispatched) (error : Option Message) (pass : EventPass)
    (n : ℕ)
    → (after_fire event created error pass).result ≡ ok n
    → (after_fire event created error pass).event ≡ pass.event
after_fire-ok event created none pass n fine = refl
after_fire-ok event created (some e) pass n fine = cc fine

module _ (lib : TriggerLibrary) (cluster : EventCluster) (event : ArkEvent)
    (src : PipelineOutputSource) (f : ArkFlow) where
  -- A trigger that fired at the completion of a flow or later creates nothing for it.
  watch_flow-idle :
      already_fired f.status.completion_time event.status.last_fired_at ≡ true
      → (watch_flow lib cluster event src f).created ≡ []
  unfolding watch_flow
  watch_flow-idle old =
      if-idle _ (already_fired f.status.completion_time event.status.last_fired_at) _ _
        (fire_output lib cluster event f) refl refl old

  fire_output-fired :
      (n : ℕ)
      → (fire_output lib cluster event f).result ≡ ok n
      → ((fire_output lib cluster event f).event.status.last_fired_at ≡ some cluster.now)
        × ((fire_output lib cluster event f).event.spec ≡ event.spec)
  unfolding fire_output set_condition count_fire
  fire_output-fired n fine =
      let same = after_fire-ok event _ _ _ n fine in
      (ap (λ e. e.status.last_fired_at) same, ap (λ e. e.spec) same)

  watch_flow-fired :
      (n : ℕ)
      → (watch_flow lib cluster event src f).created ≢ []
      → (watch_flow lib cluster event src f).result ≡ ok n
      → ((watch_flow lib cluster event src f).event.status.last_fired_at ≡ some cluster.now)
        × ((watch_flow lib cluster event src f).event.spec ≡ event.spec)
  unfolding watch_flow
  watch_flow-fired n made fine =
      let fires =
        if-firing _ (already_fired f.status.completion_time event.status.last_fired_at) _ _
          (fire_output lib cluster event f) refl refl made in
      let (at, spec) = fire_output-fired n (ap (λ p. p.result) (sym fires) ∙ fine) in
      (ap (λ p. p.event.status.last_fired_at) fires ∙ at, ap (λ p. p.event.spec) fires ∙ spec)

  -- The handler watches the flow that its source names.
  reconcile-watch_flow :
      event.spec.source.pipeline_output ≡ some src
      → (src.name == "") ≡ false
      → cluster.fires.flow src.name ≡ found f
      → reconcile_pipeline_output lib cluster event ≡ watch_flow lib cluster event src f
  unfolding reconcile_pipeline_output
  reconcile-watch_flow source named get = rw (source, named, get, reconcile_pipeline_output) refl

module _ (lib : TriggerLibrary) (first second : EventCluster) (event : ArkEvent)
    (src : PipelineOutputSource) (f : ArkFlow) where
  -- Once reconcilePipelineOutput has created flows for a completed flow, without an error and not before
  -- its completion, it creates none for the same completion, whatever else the cluster answers.
  pub reconcile_pipeline_output-once :
      (n : ℕ) (completed : Time)
      → event.spec.source.pipeline_output ≡ some src
      → (src.name == "") ≡ false
      → first.fires.flow src.name ≡ found f
      → second.fires.flow src.name ≡ found f
      → f.status.completion_time ≡ some completed
      → completed ≤ first.now
      → (reconcile_pipeline_output lib first event).created ≢ []
      → (reconcile_pipeline_output lib first event).result ≡ ok n
      → (reconcile_pipeline_output lib second
          (reconcile_pipeline_output lib first event).event).created
        ≡ []
  reconcile_pipeline_output-once n completed source named get again done before made fine =
      let watch = reconcile-watch_flow lib first event src f source named get in
      let (at, spec) =
        watch_flow-fired lib first event src f n (λ e. made (ap (λ p. p.created) watch ∙ e))
          (ap (λ p. p.result) (sym watch) ∙ fine) in
      let fired = (reconcile_pipeline_output lib first event).event in
      let source_kept =
        ap (λ p. p.event.spec.source.pipeline_output) watch
        ∙ ap (λ x. x.source.pipeline_output) spec
        ∙ source in
      let last = ap (λ p. p.event.status.last_fired_at) watch ∙ at in
      let old =
        subst (λ c. already_fired c fired.status.last_fired_at ≡ true) (sym done)
          (subst (λ l. already_fired (some completed) l ≡ true) (sym last)
            (already_fired-after completed first.now before)) in
      ap (λ p. p.created) (reconcile-watch_flow lib second fired src f source_kept named again)
      ∙ watch_flow-idle lib second fired src f old
