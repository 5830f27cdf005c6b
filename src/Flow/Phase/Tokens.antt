-- ===== src/Flow/Phase/Tokens.antt =====
-- Token totals: what `SumStepTokens` adds up.
use arkonis_operator.Prelude.{
  ℕ, ◌+◌, ◌<◌, ltb, if◌then◌else◌, Option, none, some, List, [], ◌∷◌, ◌≡◌, arith, total,
}
use arkonis_operator.Prelude.Words.{word, half, add64}
use arkonis_operator.Api.Flow.{ArkFlow, ArkFlowStepStatus, TokenUsage}
use arkonis_operator.Flow.Phase.{sum_from, sum_step_tokens}

abbrev pub input_of : Option TokenUsage → ℕ
input_of none = 0
input_of (some u) = u.input_tokens

abbrev pub output_of : Option TokenUsage → ℕ
output_of none = 0
output_of (some u) = u.output_tokens

-- The true sums, which no word bounds.
abbrev pub inputs : List ArkFlowStepStatus → ℕ
inputs = total (λ st. input_of st.token_usage)

abbrev pub outputs : List ArkFlowStepStatus → ℕ
outputs = total (λ st. output_of st.token_usage)

sum_from-eq :
    (a b : ℕ) (steps : List ArkFlowStepStatus)
    → a + inputs steps < word
    → b + outputs steps < word
    → sum_from a b steps ≡ (a + inputs steps, b + outputs steps)
unfolding sum_from
sum_from-eq a b [] ha hb = ground arith
sum_from-eq a b (st ∷ sts) ha hb = ground (
  arith,
  sum_from-eq a b sts,
  sum_from-eq (add64 a (input_of st.token_usage)) (add64 b (output_of st.token_usage)) sts,
)

-- The usage that a flow reports.
abbrev pub usage_of : List ArkFlowStepStatus → TokenUsage
usage_of steps = record {
  input_tokens = inputs steps;
  output_tokens = outputs steps;
  total_tokens = inputs steps + outputs steps;
}

-- While the true total is a positive 64-bit number, the grand total is the true one, and the flow's
-- usage holds the two sums and their sum, unless no token was counted. Nothing else of the flow
-- changes.
pub sum_step_tokens_lem :
    (f : ArkFlow)
    → inputs f.status.steps + outputs f.status.steps < half
    → sum_step_tokens f ≡ (
      if ltb 0 (inputs f.status.steps + outputs f.status.steps)
          then record f {
            status = record (f.status) { total_token_usage = some (usage_of f.status.steps) };
          }
          else f,
      inputs f.status.steps + outputs f.status.steps,
    )
unfolding sum_step_tokens
sum_step_tokens_lem f fits =
    rw (sum_from-eq 0 0 f.status.steps (omega arith) (omega arith)) (ground arith)
