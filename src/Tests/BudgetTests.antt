-- ===== src/Tests/BudgetTests.antt =====
-- A budget that is spent.
use arkonis_operator.Prelude.{
  String, some, List, [], ◌∷◌, ◌≡◌, refl, arith, Bool, false, leb, ◌==◌, if◌then◌else◌,
}
use text.Mathlib.TextPositions.{eq_refl}
use arkonis_operator.Prelude.Map.{lookup, lookup_or, insert}
use arkonis_operator.Api.Meta.{ok, Condition}
use arkonis_operator.Api.Flow.{ArkFlow, ArkFlowStepPhase}
use arkonis_operator.Api.Agent.{ArkAgent}
use arkonis_operator.Controller.Conditions.{Conditions, IsConditionSet, is_true}
use arkonis_operator.Controller.Budget.{
  step_agents, daily_limit, desired_replicas, reconcile_daily_budget,
}
use arkonis_operator.Controller.Budget.Exceeded.{spent, reconcile_daily_budget-desired_replicas}
use arkonis_operator.Tests.Samples.{flow_of, plain, status_in, agent_named}

abbrev pub drop : List Condition → String → List Condition
drop [] type = []
drop (d ∷ ds) type = let rest = drop ds type in if d.type == type then rest else d ∷ rest

abbrev pub holds_in : List Condition → String → Bool
holds_in [] type = false
holds_in (d ∷ ds) type =
    let rest = holds_in ds type in if d.type == type then is_true d.status else rest

abbrev pub newest : Conditions
newest = record {
  set_status = λ cs c. c ∷ drop cs c.type;
  remove_status = drop;
  is_status_true = holds_in;
}

holds_in-drop : (cs : List Condition) (type : String) → holds_in (drop cs type) type ≡ false
holds_in-drop [] type = refl
holds_in-drop (d ∷ ds) type = ground (arith, holds_in-drop ds type)

pub newest-IsConditionSet : IsConditionSet newest
newest-IsConditionSet = record {
  true-set = λ cs c. rw (eq_refl c.type) refl;
  true-remove = holds_in-drop;
}

abbrev pub limited : ArkAgent
limited =
    let a = agent_named "writer" in
    record a {
      spec = record (a.spec) {
        replicas = some 2;
        limits = some (record {
          max_tokens_per_call = 0;
          max_concurrent_tasks = 0;
          timeout_seconds = 0;
          max_daily_tokens = 3;
        });
      };
    }

-- One step of it ended at 5 and used three tokens.
abbrev pub spending : List ArkFlow
spending =
    let f = flow_of (plain "a" [] ∷ []) in
    record f {
      status = record (f.status) {
        steps =
            record (status_in "a" ArkFlowStepPhase.succeeded 3 0) { completion_time = some 5 } ∷ [];
      };
    }
    ∷ []

pub limited-daily_limit : daily_limit limited ≡ 3
unfolding daily_limit
limited-daily_limit = refl

pub spending-spent : spent 6 "writer" spending ≡ 3
unfolding step_agents lookup_or lookup insert
spending-spent = refl

reconcile_daily_budget-desired_replicas_example :
    desired_replicas newest (reconcile_daily_budget newest 6 (ok spending) limited).0
    ≡ (if leb (daily_limit limited) (spent 6 "writer" spending) then 0 else 2)
reconcile_daily_budget-desired_replicas_example =
    reconcile_daily_budget-desired_replicas newest newest-IsConditionSet 6 spending limited
      (omega (arith, limited-daily_limit)) (omega (arith, limited-daily_limit))
      (omega (arith, spending-spent))
