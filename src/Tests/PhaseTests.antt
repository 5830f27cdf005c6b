-- ===== src/Tests/PhaseTests.antt =====
-- Phases of small flows.
use arkonis_operator.Prelude.{String, some, [], ◌∷◌, ◌≡◌, ◌↔◌, ◌⊎◌, refl, arith, All}
use arkonis_operator.Api.Flow.{ArkFlow, ArkFlowPhase, ArkFlowStepPhase}
use arkonis_operator.Flow.Library.{TemplateData}
use arkonis_operator.Flow.Phase.{sum_step_tokens, update_flow_phase}
use arkonis_operator.Flow.Phase.Tokens.{usage_of, sum_step_tokens_lem}
use arkonis_operator.Flow.Phase.Verdict.{
  Fits, IsLate, IsOverBudget, AnyFailed, IsDone, update_flow_phase-succeeded_iff,
  update_flow_phase-failed_iff,
}
use arkonis_operator.Tests.Samples.{flow_of, plain, status_in, echo}

-- Two steps have ended; the flow started at 5 and has a timeout of 2 seconds and a budget of 7.
abbrev ended : ArkFlow
ended =
    let f = flow_of (plain "a" [] ∷ plain "b" [] ∷ []) in
    record f {
      spec = record (f.spec) { timeout_seconds = 2; max_tokens = 7 };
      status = record (f.status) {
        phase = ArkFlowPhase.running;
        start_time = some 5;
        steps =
            status_in "a" ArkFlowStepPhase.succeeded 3 1
            ∷ status_in "b" ArkFlowStepPhase.skipped 1 2
            ∷ [];
      };
    }

abbrev no_data : TemplateData String
no_data = record { input = []; steps = [] }

ended-Fits : Fits ended
ended-Fits = omega arith

sum_step_tokens_lem_example : sum_step_tokens ended ≡ (
  record ended {
    status = record (ended.status) { total_token_usage = some (usage_of ended.status.steps) };
  },
  7,
)
sum_step_tokens_lem_example = sum_step_tokens_lem ended (omega arith)

update_flow_phase-succeeded_iff_example :
    ((update_flow_phase echo ended 100 no_data).status.phase ≡ ArkFlowPhase.succeeded)
    ↔ (¬ IsLate ended 100 × ¬ IsOverBudget ended × All IsDone ended.status.steps)
update_flow_phase-succeeded_iff_example =
    update_flow_phase-succeeded_iff echo 100 no_data ended ended-Fits refl

update_flow_phase-failed_iff_example :
    ((update_flow_phase echo ended 100 no_data).status.phase ≡ ArkFlowPhase.failed)
    ↔ (IsLate ended 100 ⊎ (IsOverBudget ended ⊎ AnyFailed ended.status.steps))
update_flow_phase-failed_iff_example =
    update_flow_phase-failed_iff echo 100 no_data ended ended-Fits refl
