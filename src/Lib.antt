-- ===== src/Lib.antt =====
-- Verification of ark-operator: the flows of agents that a controller and a command line run.
--
-- A flow (`ArkFlow`) is a graph of steps, each run by an agent. `internal/flow` holds the rules that
-- both drivers share: the check of the graph, the templates, the loops and the phase of the flow.
--
-- + Prelude: numbers, lists, maps, 64-bit words and the functions of Go's `strings`.
-- + Api: the types of `api/v1alpha1` (Meta for conditions, times and formatted messages).
-- + Flow: `internal/flow`. Dag is `dag.go`, Template is `template.go`, Step is `step.go`, Phase is
--   `phase.go`; Library holds what they take from `text/template`, `encoding/json` and the
--   library of conditions, as parameters.
-- + Agent: `internal/agent`. Queue is `queue/queue.go`; Streams holds what it and the flow controller
--   take from Redis, as a parameter. Config is `config/config.go`, Providers is `providers/provider.go`
--   and `providers/mock/provider.go`, Mcp is `mcp/mcp.go`, Runner is `runner/runner.go`.
-- + Controller: `internal/controller`. FlowSteps (results and tasks) and FlowReconcile (`Reconcile`) are
--   `arkflow_controller.go`. AgentReconcile (`Reconcile`), Deployment, Budget (the daily budget),
--   AgentEnv (the environment of the container) and AgentWatch (prompts, and the agents that a flow
--   wakes) are `arkagent_controller.go`. Event is `arkevent_controller.go`: Schedule is
--   `mostRecentSchedule`, Fire is `fire`, Due is `reconcileCron`, Sources has the two other sources,
--   Reconcile is `Reconcile`. Webhook is `trigger_webhook_server.go`. Memory, Service and Settings are
--   `arkmemory_controller.go`, `arkservice_controller.go` and `arksettings_controller.go`. Conditions
--   holds the library of conditions. The answers of the API server are parameters.
-- + Local: Steps and Executor are `internal/ark/local/executor.go`, which chooses and runs the steps;
--   CommandLine is `internal/ark/loader.go` and the checks of `cmd/ark/main.go`.
-- + Tests: small inputs, and the theorems at such inputs.
--
-- How the parts meet: an ArkEvent creates flows from a template (Event, Webhook); the flow controller
-- sends each step to an agent through the queue and collects its result; the agent controller runs the
-- agents as deployments, whose containers load what AgentEnv sets (Config) and work on the queue with the
-- tools of their runner (Runner); a service selects the pods of a deployment. The local executor
-- runs the same flow logic in one process.
--
-- A flow is a value that each function returns changed, where the source changes it through a
-- pointer. The map of pointers to step statuses (`BuildStatusByName`) is a map from names to
-- indices, so the functions that write through it write to the list of statuses. A time is a
-- number of nanoseconds; a function that reads the clock takes the reading as an argument.
-- A Go `int` or `int64` is its bit pattern, a number below 2 ^ 64, with sums modulo 2 ^ 64 and
-- signed comparisons (Prelude.Words). A formatted message keeps its format and its arguments.
--
-- The order in which Go meets the keys of a map is the order of the association list.
--
-- Fuel: the search of `ValidateDAG` has as much as there are steps, since each nested call
-- colours another white step; `Run` has one unit for each round, and a bound on the rounds is proved.
-- `mostRecentSchedule` has one unit for each nanosecond of the day that it looks back, and one more:
-- each turn moves the time forward. Where a model runs out of fuel it returns a value of its own.
--
-- Not modelled: the loops around the SDKs of Anthropic and OpenAI, the health server, the transport of
-- HTTP and of Redis, the flags and the printing of the command line with the files of `ark init`, the
-- registration of watches, the entry points, and generated code.
pub mod Prelude
pub mod Api
pub mod Flow
pub mod Local
pub mod Controller
pub mod Agent
pub mod Tests
