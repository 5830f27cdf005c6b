-- ===== src/Tests/RunnerTests.antt =====
-- The tools of a runner, and the mock provider.
use arkonis_operator.Prelude.{none, [], ◌∷◌}
use arkonis_operator.Api.Meta.{ok, err, text}
use arkonis_operator.Agent.Queue.{Queue, new}
use arkonis_operator.Agent.Mcp.{McpClient}
use arkonis_operator.Agent.Runner.{ToolClient}
use arkonis_operator.Agent.Providers.{MockProvider, match_prompt}
use arkonis_operator.Agent.Providers.Registered.{IsReply, match_prompt-IsReply}
use arkonis_operator.Tests.Store.{memory, nothing}

abbrev tools : ToolClient
tools = record {
  new_request = λ method url body. none;
  request = λ method url body. ok (200, ok "done");
  prompt = λ input. ok input;
}

abbrev servers : McpClient
servers = record {
  list = λ url. err (text "refused");
  encode = λ name input. ok input;
  new_request = λ url body. none;
  call = λ url body. ok (ok []);
}

abbrev queue : Queue
queue = (new memory "" 3 nothing).1

abbrev canned : MockProvider
canned = record { responses = ("Research", "findings") ∷ []; default = "" }

match_prompt-IsReply_example :
    IsReply canned "please research this" (match_prompt canned "please research this")
match_prompt-IsReply_example = match_prompt-IsReply canned "please research this"
