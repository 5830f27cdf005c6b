-- ===== src/Flow/Phase/Frame.antt =====
-- What `UpdateFlowPhase` leaves alone.
use arkonis_operator.Prelude.{◌≡◌, refl, ◌∙◌, Bool, true, false, arith, Bool-cases, inl, inr}
use arkonis_operator.Prelude.Words.{Int64}
use arkonis_operator.Api.Meta.{Time}
use arkonis_operator.Api.Flow.{ArkFlow}
use arkonis_operator.Flow.Library.{Library, TemplateData}
use arkonis_operator.Flow.Step.{set_condition}
use arkonis_operator.Flow.Phase.{
  sum_step_tokens, enforce_timeout, timed_out, scan_steps, resolve_output, settle, conclude,
  update_flow_phase,
}

abbrev pub Kept : ArkFlow → ArkFlow → Type 0
Kept f g = (g.spec ≡ f.spec) × (g.status.steps ≡ f.status.steps)

module _ (lib : Library) (now : Time) (context : TemplateData lib.Json) where
  settle-Kept :
      (failed all_done : Bool) (f : ArkFlow) → Kept f (settle lib failed all_done f now context)
  unfolding settle set_condition resolve_output
  settle-Kept true all_done f = (refl, refl)
  settle-Kept false true f = ground arith
  settle-Kept false false f = (refl, refl)

  conclude-Kept : (f : ArkFlow) (t : Int64) → Kept f (conclude lib f t now context)
  unfolding conclude set_condition
  conclude-Kept f t = ground (
    arith,
    settle-Kept (scan_steps false true f.status.steps).0 (scan_steps false true f.status.steps).1 f,
  )

  sum_step_tokens-Kept : (f : ArkFlow) → Kept f (sum_step_tokens f).0
  unfolding sum_step_tokens
  sum_step_tokens-Kept f = ground arith

  -- The phase is all that changes of a flow's course: its spec and its step statuses stay.
  pub update_flow_phase-Kept : (f : ArkFlow) → Kept f (update_flow_phase lib f now context)
  unfolding update_flow_phase enforce_timeout set_condition
  update_flow_phase-Kept f = elim (Bool-cases (timed_out f now)) [
    | inl late ↦ rw late (refl, refl)
    | inr early ↦
        let (g, t) = sum_step_tokens f in
        let first : Kept f g = sum_step_tokens-Kept f in
        let second : Kept g (conclude lib g t now context) = conclude-Kept g t in
        rw early (second.0 ∙ first.0, second.1 ∙ first.1)
  ]
