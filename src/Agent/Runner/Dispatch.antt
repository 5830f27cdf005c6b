-- ===== src/Agent/Runner/Dispatch.antt =====
-- internal/agent/runner/runner.go and internal/agent/mcp/mcp.go: what a call of a tool reaches.
use arkonis_operator.Prelude.{String, Option, some, List, ◌≡◌, ◌⊎◌, Member}
use arkonis_operator.Api.Meta.{Result}
use arkonis_operator.Agent.Config.{WebhookToolConfig}
use arkonis_operator.Agent.Streams.{Redis}
use arkonis_operator.Agent.Queue.{Queue}
use arkonis_operator.Agent.Mcp.{Tool, McpClient}
use arkonis_operator.Agent.Runner.Answers.{IsTold, IsServerAnswer, IsSubmitted}
use arkonis_operator.Agent.Runner.{ToolClient, submit_subtask_tool}

module _ (client : ToolClient) where
  module _ (redis : Redis) (mcp : McpClient) (mcp_tools : List Tool)
      (webhook_tools : List WebhookToolConfig) (db : redis.State) (input : String) where
    -- A call by name is answered by a webhook tool or an MCP tool of the name, and leaves the queue as it is.
    abbrev pub IsExternal : String → redis.State × Result String → Type 0
    IsExternal name called =
        ((wt : WebhookToolConfig) × Member wt webhook_tools
          × (wt.name ≡ name)
          × (called.0 ≡ db)
          × IsTold client wt input called.1)
        ⊎ ((t : Tool) × Member t mcp_tools
            × (t.name ≡ name)
            × (called.0 ≡ db)
            × IsServerAnswer mcp t input called.1)

    -- A call by name submits a task to the queue, which is there, or is one of another tool of the name.
    abbrev pub IsReached : Option Queue → String → redis.State × Result String → Type 0
    IsReached queue name called =
        ((q : Queue) × (queue ≡ some q)
          × (name ≡ submit_subtask_tool)
          × IsSubmitted client redis mcp q db (client.prompt input) called)
        ⊎ IsExternal name called
