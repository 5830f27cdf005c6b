-- ===== src/Agent/Runner/Answers.antt =====
-- internal/agent/runner/runner.go and internal/agent/mcp/mcp.go: the answers of the tools.
use arkonis_operator.Prelude.{
  ℕ, ◌≤◌, ◌<◌, String, Option, none, some, List, [], ◌∷◌, ◌≡◌, ◌≢◌, ◌⊎◌, inl, inr, refl, arith, ltb,
  leb, ◌||◌, ◌==◌, eq_iff, Bool-cases,
}
use arkonis_operator.Prelude.Text.{◌<>◌, trim_space}
use arkonis_operator.Api.Meta.{Message, Result, ok, err}
use arkonis_operator.Agent.Config.{WebhookToolConfig}
use arkonis_operator.Agent.Streams.{Redis}
use arkonis_operator.Agent.Queue.{Queue, submit}
use arkonis_operator.Agent.Mcp.{
  Tool, Content, McpClient, first_text, answered, requested, encoded, call_server,
}
use arkonis_operator.Agent.Runner.{
  ToolClient, method_of, body_of, webhook_answer, webhook_request, call_webhook, submitted,
  with_prompt, call_submit,
}

module _ (client : ToolClient) (wt : WebhookToolConfig) (input : String) where
  -- The request of the tool could be built, and was answered with the text and a status from 200 to 299.
  abbrev pub IsSaid : String → Type 0
  IsSaid text =
      (status : ℕ) × (200 ≤ status)
      × (status < 300)
      × (client.new_request (method_of wt) wt.url (body_of (method_of wt) input) ≡ none)
      × (client.request (method_of wt) wt.url (body_of (method_of wt) input) ≡ ok (status, ok text))

  -- The text of such an answer, or an error where there is none.
  abbrev pub IsTold : Result String → Type 0
  IsTold (ok text) = IsSaid text
  IsTold (err e) = ¬ ((text : String) × IsSaid text)

  webhook_answer-IsTold :
      (reply : Result (ℕ × Result String))
      → client.new_request (method_of wt) wt.url (body_of (method_of wt) input) ≡ none
      → client.request (method_of wt) wt.url (body_of (method_of wt) input) ≡ reply
      → IsTold (webhook_answer client wt reply)
  webhook_answer-IsTold (err e) built is = λ (text, (status, lo, hi, b, said)). cc (is, said)
  webhook_answer-IsTold (ok (status, err e)) built is =
      λ (text, (code, lo, hi, b, said)). cc (is, said)
  webhook_answer-IsTold (ok (status, ok body)) built is =
      elim (Bool-cases (ltb status 200 || leb 300 status)) [
        | inl refused ↦ rw refused (λ (text, (code, lo, hi, b, said)).
            let same : status ≡ code = cc (is, said) in absurd (ground arith))
        | inr fine ↦ rw fine (status, ground arith, ground arith, built, is)
      ]

  webhook_request-IsTold :
      (built : Option Message)
      → client.new_request (method_of wt) wt.url (body_of (method_of wt) input) ≡ built
      → IsTold (webhook_request client wt (method_of wt) (body_of (method_of wt) input) built)
  webhook_request-IsTold none is =
      webhook_answer-IsTold (client.request (method_of wt) wt.url (body_of (method_of wt) input)) is
        refl
  webhook_request-IsTold (some e) is = λ (text, (code, lo, hi, built, said)). cc (is, built)

  pub call_webhook-IsTold : IsTold (call_webhook client wt input)
  unfolding call_webhook
  call_webhook-IsTold =
      webhook_request-IsTold
        (client.new_request (method_of wt) wt.url (body_of (method_of wt) input)) refl

module _ (mcp : McpClient) (t : Tool) (input : String) where
  -- The server of the tool was called with its own name for the tool, and answered the text.
  abbrev pub IsServed : String → Type 0
  IsServed text =
      (body : String) × (content : List Content) × (mcp.encode t.original_name input ≡ ok body)
      × (mcp.new_request (t.server_url <> "/tools/call") body ≡ none)
      × (mcp.call (t.server_url <> "/tools/call") body ≡ ok (ok content))
      × (text ≡ first_text content)

  abbrev pub IsServerAnswer : Result String → Type 0
  IsServerAnswer (ok text) = IsServed text
  IsServerAnswer (err e) = ¬ ((text : String) × IsServed text)

  answered-IsServerAnswer :
      (body : String) (reply : Result (Result (List Content)))
      → mcp.encode t.original_name input ≡ ok body
      → mcp.new_request (t.server_url <> "/tools/call") body ≡ none
      → mcp.call (t.server_url <> "/tools/call") body ≡ reply
      → IsServerAnswer (answered mcp reply)
  answered-IsServerAnswer body (err e) encodes built is =
      λ (text, (b, content, en, n, said, same)). cc (encodes, en, is, said)
  answered-IsServerAnswer body (ok (err e)) encodes built is =
      λ (text, (b, content, en, n, said, same)). cc (encodes, en, is, said)
  answered-IsServerAnswer body (ok (ok content)) encodes built is =
      (body, content, encodes, built, is, refl)

  requested-IsServerAnswer :
      (body : String) (built : Option Message)
      → mcp.encode t.original_name input ≡ ok body
      → mcp.new_request (t.server_url <> "/tools/call") body ≡ built
      → IsServerAnswer (requested mcp (t.server_url <> "/tools/call") body built)
  requested-IsServerAnswer body none encodes is =
      answered-IsServerAnswer body (mcp.call (t.server_url <> "/tools/call") body) encodes is refl
  requested-IsServerAnswer body (some e) encodes is =
      λ (text, (b, content, en, built, said, same)). cc (encodes, en, is, built)

  encoded-IsServerAnswer :
      (r : Result String)
      → mcp.encode t.original_name input ≡ r
      → IsServerAnswer (encoded mcp (t.server_url <> "/tools/call") r)
  encoded-IsServerAnswer (err e) is = λ (text, (b, content, en, built, said, same)). cc (is, en)
  encoded-IsServerAnswer (ok body) is =
      requested-IsServerAnswer body (mcp.new_request (t.server_url <> "/tools/call") body) is refl

  pub call_server-IsServerAnswer : IsServerAnswer (call_server mcp t input)
  unfolding call_server
  call_server-IsServerAnswer = encoded-IsServerAnswer (mcp.encode t.original_name input) refl

abbrev pub IsRefused : Result String → Type 0
IsRefused (ok text) = ⊥
IsRefused (err e) = Unit

-- What is answered after the reply of the stream.
abbrev pub IsReported : Result String → Result String → Type 0
IsReported (ok id) answer = answer ≡ ok ("subtask submitted with id: " <> id)
IsReported (err e) answer = IsRefused answer

module _ (client : ToolClient) (redis : Redis) (mcp : McpClient) (q : Queue)
    (db : redis.State) where
  -- A prompt that is not blank is added to the stream of the queue; an input without a prompt and a blank
  -- prompt are refused, and the queue stays as it is.
  abbrev pub IsSubmitted : Result String → redis.State × Result String → Type 0
  IsSubmitted (err e) called = (called.0 ≡ db) × IsRefused called.1
  IsSubmitted (ok prompt) called =
      ((trim_space prompt ≡ "") × (called.0 ≡ db) × IsRefused called.1)
      ⊎ ((trim_space prompt ≢ "")
          × (called.0 ≡ (redis.x_add db q.stream (("prompt", prompt) ∷ [])).0)
          × IsReported (redis.x_add db q.stream (("prompt", prompt) ∷ [])).1 called.1)

  submitted-IsReported :
      (prompt : String) (reply : Result String)
      → (redis.x_add db q.stream (("prompt", prompt) ∷ [])).1 ≡ reply
      → ((submitted client redis mcp (submit redis q prompt db)).0
          ≡ (redis.x_add db q.stream (("prompt", prompt) ∷ [])).0)
        × IsReported reply (submitted client redis mcp (submit redis q prompt db)).1
  unfolding submit
  submitted-IsReported prompt (ok id) is = rw (is, submit) (refl, refl)
  submitted-IsReported prompt (err e) is = rw (is, submit) (refl, tt)

  with_prompt-IsSubmitted :
      (r : Result String) → IsSubmitted r (with_prompt client redis mcp q db r)
  with_prompt-IsSubmitted (err e) = (refl, tt)
  with_prompt-IsSubmitted (ok prompt) = elim (Bool-cases (trim_space prompt == "")) [
    | inl blank ↦ inl (ground (arith, eq_iff (trim_space prompt) ""), rw blank refl, rw blank tt)
    | inr full ↦
        let (stored, told) =
          submitted-IsReported prompt (redis.x_add db q.stream (("prompt", prompt) ∷ [])).1 refl in
        inr ((λ e. ground (arith, eq_iff (trim_space prompt) "")), rw full stored, rw full told)
  ]

  pub call_submit-IsSubmitted :
      (input : String) → IsSubmitted (client.prompt input) (call_submit client redis mcp q db input)
  unfolding call_submit
  call_submit-IsSubmitted input = with_prompt-IsSubmitted (client.prompt input)
