-- ===== src/Controller/Budget/Exceeded.antt =====
-- When the daily budget stops an agent.
use arkonis_operator.Prelude.{
  ℕ, ◌+◌, ◌<◌, String, Option, none, some, List, [], ◌∷◌, ◌≡◌, refl, ap, ◌∙◌, arith, Bool, true,
  false, ltb, leb, total, inl, inr, Bool-cases, ◌==◌, if◌then◌else◌,
}
use arkonis_operator.Prelude.Words.{Int64, le64, half}
use arkonis_operator.Prelude.Map.{Map, lookup_or}
use arkonis_operator.Api.Meta.{Time, ok}
use arkonis_operator.Api.Flow.{ArkFlow, ArkFlowStepStatus, TokenUsage}
use arkonis_operator.Api.Agent.{ArkAgent}
use arkonis_operator.Controller.Conditions.{Conditions, IsConditionSet}
use arkonis_operator.Controller.Budget.{
  day, step_agents, Window, add_usage, counted, count_in, count_status, count_steps, count_flows,
  daily_limit, no_window, desired_replicas, set_condition, judge_budget, reconcile_daily_budget,
}

-- The tokens of a usage that ended at most a day ago.
abbrev recent : Time → Option TokenUsage → Option Time → ℕ
recent now none ended = 0
recent now (some usage) none = 0
recent now (some usage) (some t) = if ltb (t + day) now then 0 else usage.total_tokens

-- The tokens of a status that count for the agent of this name.
abbrev tokens_of : Time → String → Map String → ArkFlowStepStatus → ℕ
tokens_of now name agents st =
    if lookup_or "" st.name agents == name then recent now st.token_usage st.completion_time else 0

-- The tokens that an agent used in the last day, over the steps of all flows.
abbrev pub spent : Time → String → List ArkFlow → ℕ
spent now name flows =
    total (λ f. total (tokens_of now name (step_agents f.spec.steps [])) f.status.steps) flows

count_in-total :
    (now : Time) (usage : Option TokenUsage) (ended : Option Time) (w : Window)
    → w.usage.total_tokens + recent now usage ended < half
    → (count_in (counted now usage ended) w).usage.total_tokens
      ≡ w.usage.total_tokens + recent now usage ended
unfolding count_in counted add_usage
count_in-total now none ended w small = omega arith
count_in-total now (some usage) none w small = omega arith
count_in-total now (some usage) (some t) w small = ground arith

count_if-total :
    (mine : Bool) (now : Time) (usage : Option TokenUsage) (ended : Option Time) (w : Window)
    → w.usage.total_tokens + (if mine then recent now usage ended else 0) < half
    → (if mine then count_in (counted now usage ended) w else w).usage.total_tokens
      ≡ w.usage.total_tokens + (if mine then recent now usage ended else 0)
count_if-total true now usage ended w small = count_in-total now usage ended w small
count_if-total false now usage ended w small = omega arith

count_status-total :
    (now : Time) (name : String) (agents : Map String) (st : ArkFlowStepStatus) (w : Window)
    → w.usage.total_tokens + tokens_of now name agents st < half
    → (count_status now name agents st w).usage.total_tokens
      ≡ w.usage.total_tokens + tokens_of now name agents st
unfolding count_status
count_status-total now name agents st w small =
    count_if-total (lookup_or "" st.name agents == name) now st.token_usage st.completion_time w
      small

count_steps-total :
    (now : Time) (name : String) (agents : Map String) (steps : List ArkFlowStepStatus) (w : Window)
    → w.usage.total_tokens + total (tokens_of now name agents) steps < half
    → (count_steps now name agents steps w).usage.total_tokens
      ≡ w.usage.total_tokens + total (tokens_of now name agents) steps
unfolding count_steps
count_steps-total now name agents [] w small = omega arith
count_steps-total now name agents (st ∷ steps) w small =
    let head = count_status-total now name agents st w (omega arith) in
    omega (
      arith,
      head,
      count_steps-total now name agents steps (count_status now name agents st w)
          (omega (arith, head)),
    )

count_flows-spent :
    (now : Time) (name : String) (flows : List ArkFlow) (w : Window)
    → w.usage.total_tokens + spent now name flows < half
    → (count_flows now name flows w).usage.total_tokens
      ≡ w.usage.total_tokens + spent now name flows
unfolding count_flows
count_flows-spent now name [] w small = omega arith
count_flows-spent now name (f ∷ flows) w small =
    let agents = step_agents f.spec.steps [] in
    let head = count_steps-total now name agents f.status.steps w (omega arith) in
    omega (
      arith,
      head,
      count_flows-spent now name flows (count_steps now name agents f.status.steps w)
          (omega (arith, head)),
    )

module _ (c : Conditions) (laws : IsConditionSet c) where
  -- The replicas that the spec asks for.
  abbrev pub requested : ArkAgent → ℕ
  requested agent = elim agent.spec.replicas [ none ↦ 1 | some n ↦ n ]

  exceeded-replicas :
      (agent : ArkAgent) (b : Bool)
      → c.is_status_true agent.status.conditions "BudgetExceeded" ≡ b
      → desired_replicas c agent ≡ (if b then 0 else requested agent)
  unfolding desired_replicas
  exceeded-replicas agent b e = rw e refl

  judge_budget-exceeded :
      (now : Time) (limit : Int64) (w : Window) (agent : ArkAgent)
      → c.is_status_true (judge_budget c now limit w agent).0.status.conditions "BudgetExceeded"
        ≡ le64 limit w.usage.total_tokens
  unfolding judge_budget set_condition
  judge_budget-exceeded now limit w agent = elim (Bool-cases (le64 limit w.usage.total_tokens)) [
    | inl over ↦ rw (over, judge_budget) (laws.true-set agent.status.conditions _)
    | inr under ↦
        rw (under, judge_budget) (laws.true-remove agent.status.conditions "BudgetExceeded")
  ]

  judge_budget-requested :
      (now : Time) (limit : Int64) (w : Window) (agent : ArkAgent)
      → requested (judge_budget c now limit w agent).0 ≡ requested agent
  unfolding judge_budget set_condition
  judge_budget-requested now limit w agent = elim (Bool-cases (le64 limit w.usage.total_tokens)) [
    | inl over ↦ rw (over, judge_budget) refl
    | inr under ↦ rw (under, judge_budget) refl
  ]

  le64-leb : (a b : ℕ) → a < half → b < half → le64 a b ≡ leb a b
  le64-leb a b ha hb = ground arith

  judged_after :
      (now : Time) (flows : List ArkFlow) (agent : ArkAgent)
      → 0 < daily_limit agent
      → daily_limit agent < half
      → reconcile_daily_budget c now (ok flows) agent
        ≡ judge_budget c now (daily_limit agent) (count_flows now agent.name flows no_window) agent
  unfolding reconcile_daily_budget
  judged_after now flows agent pos small = ground arith

  -- For an agent with a daily limit, the replicas are 0 if its steps used at least the limit in the last
  -- day, over all flows, and the requested ones otherwise, while limit and usage are below 2 ^ 63.
  pub reconcile_daily_budget-desired_replicas :
      (now : Time) (flows : List ArkFlow) (agent : ArkAgent)
      → 0 < daily_limit agent
      → daily_limit agent < half
      → spent now agent.name flows < half
      → desired_replicas c (reconcile_daily_budget c now (ok flows) agent).0
        ≡ (if leb (daily_limit agent) (spent now agent.name flows) then 0 else requested agent)
  reconcile_daily_budget-desired_replicas now flows agent pos small fits =
      let limit = daily_limit agent in
      let w = count_flows now agent.name flows no_window in
      let used : w.usage.total_tokens ≡ spent now agent.name flows =
        count_flows-spent now agent.name flows no_window (omega arith) ∙ omega arith in
      ap (λ r. desired_replicas c r.0) (judged_after now flows agent pos small)
      ∙ exceeded-replicas (judge_budget c now limit w agent).0 _
          (judge_budget-exceeded now limit w agent)
      ∙ ap (λ n. if le64 limit w.usage.total_tokens then 0 else n)
          (judge_budget-requested now limit w agent)
      ∙ ap (λ b. if b then 0 else requested agent)
          (le64-leb limit w.usage.total_tokens small (omega arith) ∙ ap (leb limit) used)
