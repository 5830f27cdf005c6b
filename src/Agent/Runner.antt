-- ===== src/Agent/Runner.antt =====
-- internal/agent/runner/runner.go: the tools of a runner and their dispatch. The HTTP client, the queue's Redis and
-- encoding/json are parameters.
pub mod Answers
pub mod Dispatch
use arkonis_operator.Prelude.{
  ℕ, String, Option, none, some, List, [], ◌∷◌, ◌++◌, map, ltb, leb, not, Bool, true, false, ◌&&◌,
  ◌||◌, ◌==◌, if◌then◌else◌,
}
use arkonis_operator.Prelude.Text.{◌<>◌, trim_space, to_upper}
use arkonis_operator.Api.Meta.{Message, text, format, str, int, msg, end, Result, ok, err}
use arkonis_operator.Agent.Config.{WebhookToolConfig}
use arkonis_operator.Agent.Streams.{Redis}
use arkonis_operator.Agent.Queue.{Queue, submit}
use arkonis_operator.Agent.Mcp.{Tool, McpClient, call_mcp_tool}

-- What the webhook tools and the built-in tool call: a request by its method, URL and body, which may not be
-- built; its answer, with the status and the body that could be read; and the prompt in a JSON input.
pub record ToolClient : Type 0 where
  pub new_request : (method url : String) → Option String → Option Message
  pub request : (method url : String) → Option String → Result (ℕ × Result String)
  pub prompt : String → Result String

abbrev pub submit_subtask_tool : String
submit_subtask_tool = "submit_subtask"

unfoldable pub webhook_tool : WebhookToolConfig → Tool
webhook_tool wt = record {
  name = wt.name;
  description = wt.description;
  input_schema = if wt.input_schema == "" then "{}" else wt.input_schema;
  server_url = "";
  original_name = "";
}

unfoldable pub submit_tool : Tool
submit_tool = record {
  name = submit_subtask_tool;
  description =
      "Enqueue a new agent task for asynchronous processing. Returns the assigned task ID.";
  input_schema =
      "{\"type\":\"object\",\"properties\":{\"prompt\":{\"type\":\"string\",\"description\":\"The task prompt to execute\"}},\"required\":[\"prompt\"]}";
  server_url = "";
  original_name = "";
}

abbrev pub built_in : Option Queue → List Tool
built_in none = []
built_in (some q) = submit_tool ∷ []

unfoldable pub build_tools : List Tool → List WebhookToolConfig → Option Queue → List Tool
unfolding webhook_tool
build_tools mcp_tools webhook_tools queue =
    mcp_tools ++ (map webhook_tool webhook_tools ++ built_in queue)

unfoldable pub method_of : WebhookToolConfig → String
method_of wt = if to_upper wt.method == "" then "POST" else to_upper wt.method

unfoldable pub body_of : String → String → Option String
body_of method input = if not (method == "GET") && not (input == "") then some input else none

module _ (client : ToolClient) where
  abbrev pub webhook_body : WebhookToolConfig → ℕ → Result String → Result String
  webhook_body wt status (err e) =
      err (format "webhook tool %q: reading response: %w" (str wt.name (msg e end)))
  webhook_body wt status (ok body) =
      let refused = err (
        format "webhook tool %q: server returned %d: %s"
          (str wt.name (int status (str body end)))) in
      if ltb status 200 || leb 300 status then refused else ok body

  abbrev pub webhook_answer : WebhookToolConfig → Result (ℕ × Result String) → Result String
  webhook_answer wt (err e) =
      err (format "webhook tool %q: request failed: %w" (str wt.name (msg e end)))
  webhook_answer wt (ok (status, body)) = webhook_body wt status body

  abbrev pub webhook_request :
      WebhookToolConfig → String → Option String → Option Message → Result String
  webhook_request wt method body (some e) =
      err (format "webhook tool %q: building request: %w" (str wt.name (msg e end)))
  webhook_request wt method body none = webhook_answer wt (client.request method wt.url body)

  unfoldable pub call_webhook : WebhookToolConfig → String → Result String
  unfolding method_of body_of
  call_webhook wt input =
      let method = method_of wt in
      let body = body_of method input in
      webhook_request wt method body (client.new_request method wt.url body)

  -- The first webhook tool of the name.
  unfoldable pub webhook_named : String → List WebhookToolConfig → Option WebhookToolConfig
  webhook_named name [] = none
  webhook_named name (wt ∷ tools) =
      let rest = webhook_named name tools in if wt.name == name then some wt else rest

  module _ (redis : Redis) (mcp : McpClient) where
    open redis use {State}

    abbrev pub submitted : State × Result String → State × Result String
    submitted (db, err e) = (db, err e)
    submitted (db, ok id) = (db, ok ("subtask submitted with id: " <> id))

    abbrev pub with_prompt : Queue → State → Result String → State × Result String
    with_prompt q db (err e) = (db, err (format "submit_subtask: invalid input: %w" (msg e end)))
    with_prompt q db (ok prompt) =
        let sent = submitted (submit redis q prompt db) in
        if trim_space prompt == ""
        then (db, err (text "submit_subtask: prompt must not be empty"))
        else sent

    unfoldable pub call_submit : Queue → State → String → State × Result String
    call_submit q db input = with_prompt q db (client.prompt input)

    abbrev pub by_name :
        List Tool → State → (name input : String) → Option WebhookToolConfig → State × Result String
    by_name mcp_tools db name input (some wt) = (db, call_webhook wt input)
    by_name mcp_tools db name input none = (db, call_mcp_tool mcp mcp_tools name input)

    -- The tools that are not built in.
    unfoldable pub call_external :
        List Tool → List WebhookToolConfig → State → (name input : String) → State × Result String
    unfolding webhook_named call_webhook
    call_external mcp_tools webhook_tools db name input =
        by_name mcp_tools db name input (webhook_named name webhook_tools)

    unfoldable pub call_tool :
        List Tool
        → List WebhookToolConfig
        → Option Queue
        → State
        → (name input : String) → State × Result String
    unfolding call_submit call_external
    call_tool mcp_tools webhook_tools none db name input =
        call_external mcp_tools webhook_tools db name input
    call_tool mcp_tools webhook_tools (some q) db name input =
        let built = call_submit q db input in
        let external = call_external mcp_tools webhook_tools db name input in
        if name == submit_subtask_tool then built else external
