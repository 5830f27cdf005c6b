-- ===== src/Agent/Mcp.antt =====
-- internal/agent/mcp/mcp.go: the tools of the MCP servers. The HTTP client and encoding/json are parameters.
use arkonis_operator.Prelude.{
  ℕ, String, Option, none, some, List, [], ◌∷◌, ◌++◌, map, eqb, ◌==◌, if◌then◌else◌,
}
use arkonis_operator.Prelude.Text.{◌<>◌}
use arkonis_operator.Api.Meta.{Message, format, str, int, msg, end, Result, ok, err}
use arkonis_operator.Agent.Config.{McpServerConfig}

pub record Tool : Type 0 where
  pub name : String
  pub description : String
  pub input_schema : String
  pub server_url : String
  pub original_name : String

-- A tool as a server lists it.
pub record ListedTool : Type 0 where
  pub name : String
  pub description : String
  pub input_schema : String

pub record Content : Type 0 where
  pub type : String
  pub text : String

-- The requests to a server, by URL: the answer of a list with its status and its decoded tools; the body of a
-- call, encoded; whether the request can be built; and the answer of a call with its decoded content.
pub record McpClient : Type 0 where
  pub list : String → Result (ℕ × Result (List ListedTool))
  pub encode : (name input : String) → Result String
  pub new_request : (url body : String) → Option Message
  pub call : (url body : String) → Result (Result (List Content))

unfoldable pub tool_of : McpServerConfig → ListedTool → Tool
tool_of server t = record {
  name = server.name <> "__" <> t.name;
  description = t.description;
  input_schema = t.input_schema;
  server_url = server.url;
  original_name = t.name;
}

-- The first text of the content.
unfoldable pub first_text : List Content → String
first_text [] = ""
first_text (c ∷ content) =
    let rest = first_text content in if c.type == "text" then c.text else rest

module _ (client : McpClient) where
  open client use {list, encode, new_request, call}

  abbrev decoded : McpServerConfig → Result (List ListedTool) → Result (List Tool)
  decoded server (err e) = err (format "decoding tools/list response: %w" (msg e end))
  decoded server (ok tools) = ok (map (tool_of server) tools)

  abbrev listed : McpServerConfig → Result (ℕ × Result (List ListedTool)) → Result (List Tool)
  listed server (err e) = err (format "tools/list request failed: %w" (msg e end))
  listed server (ok (status, tools)) =
      let found = decoded server tools in
      if eqb status 200
      then found
      else err (format "tools/list returned status %d" (int status end))

  unfoldable pub discover_tools : McpServerConfig → Result (List Tool)
  unfolding tool_of
  discover_tools server = listed server (list (server.url <> "/tools/list"))

  abbrev pub discovered :
      McpServerConfig → Result (List Tool) → Result (List Tool) → Result (List Tool)
  discovered server (err e) rest =
      err (format "failed to discover tools from MCP server %q: %w" (str server.name (msg e end)))
  discovered server (ok tools) (err e) = err e
  discovered server (ok tools) (ok more) = ok (tools ++ more)

  -- The tools of the manager.
  unfoldable pub new_manager : List McpServerConfig → Result (List Tool)
  new_manager [] = ok []
  new_manager (server ∷ servers) = discovered server (discover_tools server) (new_manager servers)

  abbrev pub answered : Result (Result (List Content)) → Result String
  answered (err e) = err (format "tools/call request failed: %w" (msg e end))
  answered (ok (err e)) = err (format "decoding tools/call response: %w" (msg e end))
  answered (ok (ok content)) = ok (first_text content)

  abbrev pub requested : String → String → Option Message → Result String
  requested url body (some e) = err e
  requested url body none = answered (call url body)

  abbrev pub encoded : String → Result String → Result String
  encoded url (err e) = err (format "marshalling tool call: %w" (msg e end))
  encoded url (ok body) = requested url body (new_request url body)

  -- The call of the tool that was found.
  unfoldable pub call_server : Tool → String → Result String
  unfolding first_text
  call_server t input = encoded (t.server_url <> "/tools/call") (encode t.original_name input)

  unfoldable pub call_mcp_tool : List Tool → (name input : String) → Result String
  call_mcp_tool [] name input = err (format "tool %q not found in any MCP server" (str name end))
  call_mcp_tool (t ∷ tools) name input =
      let rest = call_mcp_tool tools name input in
      let called = call_server t input in if t.name == name then called else rest
