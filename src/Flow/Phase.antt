-- ===== src/Flow/Phase.antt =====
-- internal/flow/phase.go: token totals, the timeout and the phase of a flow.
pub mod Tokens
pub mod Verdict
pub mod Frame
use arkonis_operator.Prelude.{
  ℕ, ◌+◌, ◌-◌, String, Option, none, some, List, [], ◌∷◌, Bool, true, false, not, ◌&&◌, ◌||◌, ltb,
  ◌==◌, if◌then◌else◌,
}
use arkonis_operator.Prelude.Words.{Int64, word, half, add64, mul64, lt64, le64}
use arkonis_operator.Api.Meta.{
  Time, Message, text, format, int, end, Result, ok, err, condition_true, condition_false,
}
use arkonis_operator.Api.Flow.{
  ArkFlow, ArkFlowStepStatus, ArkFlowStepPhase, ArkFlowPhase, TokenUsage,
}
use arkonis_operator.Flow.Library.{Library, TemplateData}
use arkonis_operator.Flow.Template.{resolve_template}
use arkonis_operator.Flow.Step.{set_condition}

-- The loop of `SumStepTokens` over the running totals.
unfoldable pub sum_from : Int64 → Int64 → List ArkFlowStepStatus → Int64 × Int64
sum_from total_in total_out [] = (total_in, total_out)
sum_from total_in total_out (st ∷ sts) = elim st.token_usage [
  | none ↦ sum_from total_in total_out sts
  | some u ↦ sum_from (add64 total_in u.input_tokens) (add64 total_out u.output_tokens) sts
]

unfoldable pub sum_step_tokens : ArkFlow → ArkFlow × Int64
sum_step_tokens f =
    let (total_in, total_out) = sum_from 0 0 f.status.steps in
    (
      if lt64 0 total_in || lt64 0 total_out
          then record f {
            status = record (f.status) {
              total_token_usage = some (record {
                input_tokens = total_in;
                output_tokens = total_out;
                total_tokens = add64 total_in total_out;
              });
            };
          }
          else f,
      add64 total_in total_out,
    )

-- `t.Add(d)`. Instants stop at 0.
abbrev pub add_duration : Time → Int64 → Time
add_duration t d = if ltb d half then t + d else t - (word - d)

-- A flow that ends in a phase, at an instant.
abbrev pub finish : ArkFlowPhase → Time → ArkFlow → ArkFlow
finish phase now f = record f {
  status = record (f.status) { phase = phase; completion_time = some now };
}

-- `failed` and `allDone` after the loop over the steps.
unfoldable pub scan_steps : Bool → Bool → List ArkFlowStepStatus → Bool × Bool
scan_steps failed all_done [] = (failed, all_done)
scan_steps failed all_done (st ∷ sts) = elim st.phase [
  | ArkFlowStepPhase.failed ↦ scan_steps true all_done sts
  | ArkFlowStepPhase.succeeded ↦ scan_steps failed all_done sts
  | ArkFlowStepPhase.skipped ↦ scan_steps failed all_done sts
  | ArkFlowStepPhase.pending ↦ scan_steps failed false sts
  | ArkFlowStepPhase.running ↦ scan_steps failed false sts
]

-- Whether the deadline of a flow has passed.
unfoldable pub timed_out : ArkFlow → Time → Bool
timed_out f now = if le64 f.spec.timeout_seconds 0 then false else elim f.status.start_time [
  | none ↦ false
  | some start ↦ ltb (add_duration start (mul64 f.spec.timeout_seconds 1000000000)) now
]

module _ (lib : Library) where
  open lib use {Json}

  unfoldable pub enforce_timeout : ArkFlow → Time → ArkFlow × Bool
  enforce_timeout f now =
      if timed_out f now
      then (
        set_condition lib (finish ArkFlowPhase.failed now f) condition_false "TimedOut"
            (format "flow exceeded timeout of %ds" (int f.spec.timeout_seconds end)),
        true,
      )
      else (f, false)

  -- `out, _ := ResolveTemplate(…)`: on an error the text is empty.
  abbrev pub output_or_empty : Result String → String
  output_or_empty (ok out) = out
  output_or_empty (err _) = ""

  unfoldable pub resolve_output : ArkFlow → TemplateData Json → ArkFlow
  resolve_output f context = if f.spec.output == "" then f else record f {
    status = record (f.status) {
      output = output_or_empty (resolve_template lib f.spec.output context);
    };
  }

  -- The last `switch` of `UpdateFlowPhase`.
  unfoldable pub settle : Bool → Bool → ArkFlow → Time → TemplateData Json → ArkFlow
  settle true all_done f now context =
      set_condition lib (finish ArkFlowPhase.failed now f) condition_false "StepFailed"
        (text "one or more steps failed")
  settle false true f now context =
      set_condition lib (resolve_output (finish ArkFlowPhase.succeeded now f) context)
        condition_true "Succeeded" (text "all steps completed successfully")
  settle false false f now context = f

  -- `UpdateFlowPhase` from the budget on.
  unfoldable pub conclude : ArkFlow → Int64 → Time → TemplateData Json → ArkFlow
  conclude f total_tokens now context =
      let (failed, all_done) = scan_steps false true f.status.steps in
      if lt64 0 f.spec.max_tokens && lt64 f.spec.max_tokens total_tokens
      then set_condition lib (finish ArkFlowPhase.failed now f) condition_false "BudgetExceeded" (
          format "token budget of %d exceeded: used %d"
            (int f.spec.max_tokens (int total_tokens end)))
      else settle failed all_done f now context

  unfoldable pub update_flow_phase : ArkFlow → Time → TemplateData Json → ArkFlow
  update_flow_phase f now context =
      let (f₁, late) = enforce_timeout f now in
      let (f₂, total_tokens) = sum_step_tokens f₁ in
      if late then f₁ else conclude f₂ total_tokens now context
