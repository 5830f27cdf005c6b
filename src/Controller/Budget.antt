-- ===== src/Controller/Budget.antt =====
-- internal/controller/arkagent_controller.go: the daily budget of tokens, and the replicas that it allows.
pub mod Exceeded
use arkonis_operator.Prelude.{
  ℕ, ◌+◌, ◌-◌, String, Option, none, some, List, [], ◌∷◌, Bool, true, false, not, ltb, ◌||◌, ◌==◌,
  if◌then◌else◌,
}
use arkonis_operator.Prelude.Words.{Int64, add64, lt64, le64}
use arkonis_operator.Prelude.Map.{Map, insert, lookup_or}
use arkonis_operator.Api.Meta.{
  Time, Message, format, int, msg, end, Result, ok, err, ConditionStatus, condition_true,
}
use arkonis_operator.Api.Flow.{ArkFlow, ArkFlowStep, ArkFlowStepStatus, TokenUsage}
use arkonis_operator.Api.Agent.{ArkAgent}
use arkonis_operator.Controller.Conditions.{Conditions}

abbrev pub day : ℕ
day = 86400000000000

abbrev minute : ℕ
minute = 60000000000

-- The loop that fills `stepAgent`.
unfoldable pub step_agents : List ArkFlowStep → Map String → Map String
step_agents [] m = m
step_agents (s ∷ steps) m = step_agents steps (insert s.name s.ark_agent m)

-- The usage in the window, and `earliestInWindow`.
pub record Window : Type 0 where
  pub usage : TokenUsage
  pub earliest : Option Time

unfoldable pub earlier : Option Time → Time → Option Time
earlier none t = some t
earlier (some e) t = if ltb t e then some t else some e

unfoldable pub add_usage : TokenUsage → TokenUsage → TokenUsage
add_usage a b = record {
  input_tokens = add64 a.input_tokens b.input_tokens;
  output_tokens = add64 a.output_tokens b.output_tokens;
  total_tokens = add64 a.total_tokens b.total_tokens;
}

-- A status of this agent that has a usage and ended at most a day before `now`.
unfoldable pub counted : Time → Option TokenUsage → Option Time → Option (TokenUsage × Time)
counted now none ended = none
counted now (some usage) none = none
counted now (some usage) (some t) = if ltb (t + day) now then none else some (usage, t)

unfoldable pub count_in : Option (TokenUsage × Time) → Window → Window
count_in none w = w
count_in (some (usage, t)) w = record {
  usage = add_usage w.usage usage;
  earliest = earlier w.earliest t;
}

-- One turn of the loop over the statuses of a flow.
unfoldable pub count_status : Time → String → Map String → ArkFlowStepStatus → Window → Window
count_status now name agents st w =
    if lookup_or "" st.name agents == name
    then count_in (counted now st.token_usage st.completion_time) w
    else w

-- The loop over the statuses of one flow.
unfoldable pub count_steps : Time → String → Map String → List ArkFlowStepStatus → Window → Window
count_steps now name agents [] w = w
count_steps now name agents (st ∷ steps) w =
    count_steps now name agents steps (count_status now name agents st w)

unfoldable pub count_flows : Time → String → List ArkFlow → Window → Window
count_flows now name [] w = w
count_flows now name (f ∷ flows) w =
    count_flows now name flows (count_steps now name (step_agents f.spec.steps []) f.status.steps w)

unfoldable pub daily_limit : ArkAgent → Int64
daily_limit agent = elim agent.spec.limits [ none ↦ 0 | some limits ↦ limits.max_daily_tokens ]

abbrev pub no_window : Window
no_window = record {
  usage = record { input_tokens = 0; output_tokens = 0; total_tokens = 0 };
  earliest = none;
}

-- `spec.replicas` is 1 where it is left out; a true BudgetExceeded makes it 0.
unfoldable pub desired_replicas : Conditions → ArkAgent → ℕ
desired_replicas c agent =
    if c.is_status_true agent.status.conditions "BudgetExceeded"
    then 0
    else elim agent.spec.replicas [ none ↦ 1 | some n ↦ n ]

module _ (c : Conditions) where
  open c use {set_status, remove_status}

  unfoldable pub set_condition : ArkAgent → String → ConditionStatus → String → Message → ArkAgent
  set_condition agent type status reason message = record agent {
    status = record (agent.status) {
      conditions = set_status agent.status.conditions (record {
        type = type;
        status = status;
        observed_generation = agent.generation;
        reason = reason;
        message = message;
      });
    };
  }

  abbrev pub clear_budget : ArkAgent → ArkAgent
  clear_budget agent = record agent {
    status = record (agent.status) {
      conditions = remove_status agent.status.conditions "BudgetExceeded";
    };
  }

  abbrev pub with_usage : ArkAgent → Option TokenUsage → ArkAgent
  with_usage agent usage = record agent {
    status = record (agent.status) { daily_token_usage = usage };
  }

  -- The time until the earliest entry leaves the window, with a minute on top, or an hour.
  unfoldable pub requeue_in : Time → Option Time → ℕ
  requeue_in now none = 3600000000000
  requeue_in now (some t) = ((t + day) - now) + minute

  -- Once the usage is known.
  unfoldable pub judge_budget : Time → Int64 → Window → ArkAgent → ArkAgent × Result ℕ
  judge_budget now limit w agent =
      let used = with_usage agent (some w.usage) in
      if le64 limit w.usage.total_tokens
      then (
        set_condition used "BudgetExceeded" condition_true "DailyLimitReached" (
            format "daily token usage %d exceeds limit %d; replicas scaled to 0"
              (int w.usage.total_tokens (int limit end))),
        ok (requeue_in now w.earliest),
      )
      else (clear_budget used, ok 0)

  -- `listed` is the list of the flows of the namespace.
  unfoldable pub reconcile_daily_budget :
      Time → Result (List ArkFlow) → ArkAgent → ArkAgent × Result ℕ
  reconcile_daily_budget now listed agent =
      let judged : ArkAgent × Result ℕ = elim listed [
        | err e ↦ (agent, err (format "listing flows for budget: %w" (msg e end)))
        | ok flows ↦
            judge_budget now (daily_limit agent) (count_flows now agent.name flows no_window) agent
      ] in
      if lt64 0 (daily_limit agent) then judged else (with_usage (clear_budget agent) none, ok 0)
