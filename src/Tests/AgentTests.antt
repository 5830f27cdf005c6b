-- ===== src/Tests/AgentTests.antt =====
-- The deployment of an agent whose budget is spent.
use arkonis_operator.Prelude.{◌<◌, none, ◌≡◌, refl, sym, subst, arith}
use arkonis_operator.Prelude.Words.{half}
use arkonis_operator.Prelude.Map.{lookup, lookup_or, insert}
use arkonis_operator.Api.Meta.{ok, err, text}
use arkonis_operator.Controller.FlowReconcile.{found, not_found}
use arkonis_operator.Controller.Budget.{
  daily_limit, desired_replicas, set_condition, judge_budget, reconcile_daily_budget, count_flows,
  count_steps, count_status, count_in, counted, step_agents, earlier, add_usage, requeue_in,
}
use arkonis_operator.Controller.AgentWatch.{resolve_system_prompt}
use arkonis_operator.Controller.AgentEnv.{build_env_vars}
use arkonis_operator.Controller.Deployment.{
  AgentLibrary, build_deployment, reconcile_deployment, with_status,
}
use arkonis_operator.Controller.AgentReconcile.{
  AgentCluster, referenced, sync_status, deploy, reconcile_agent,
}
use arkonis_operator.Controller.AgentReconcile.Outcome.{RunsDesired, reconcile_agent-RunsDesired}
use arkonis_operator.Tests.BudgetTests.{
  newest, newest-IsConditionSet, limited, limited-daily_limit, spending, spending-spent,
}

abbrev pub operator : AgentLibrary
operator = record {
  image = "agent:1";
  sha256 = λ s. s;
  marshal_servers = λ servers. "[]";
  marshal_tools = λ tools. "[]";
  conditions = newest;
}

-- No deployment is there yet.
abbrev fresh : AgentCluster
fresh = record {
  agent = found limited;
  settings = λ name. not_found;
  memories = λ name. not_found;
  config_map = λ name. err (text "not found");
  secret = λ name. err (text "not found");
  flows = ok spending;
  deployments = record {
    own = λ d. none;
    existing = not_found;
    create = λ d. none;
    patch = λ d. none;
    status = found (record { replicas = 0; ready_replicas = 0 });
  };
  update = λ agent. none;
  now = 6;
}

fresh-result : (reconcile_agent operator fresh).result ≡ ok 86459999999999
unfolding reconcile_agent referenced resolve_system_prompt deploy reconcile_deployment
    build_deployment build_env_vars sync_status with_status desired_replicas reconcile_daily_budget
    daily_limit judge_budget set_condition count_flows count_steps count_status count_in counted
    step_agents earlier add_usage requeue_in lookup_or lookup insert
fresh-result = refl

reconcile_agent-RunsDesired_example :
    RunsDesired operator fresh limited spending (reconcile_agent operator fresh).deployment
reconcile_agent-RunsDesired_example =
    reconcile_agent-RunsDesired operator fresh limited newest-IsConditionSet spending refl
      (subst (λ n. 0 < n) (sym limited-daily_limit) (omega arith))
      (subst (λ n. n < half) (sym limited-daily_limit) (omega arith))
      (subst (λ n. n < half) (sym spending-spent) (omega arith)) 86459999999999 refl refl
      fresh-result
