-- ===== src/Agent/Providers.antt =====
-- internal/agent/providers: the registry of providers of language models (provider.go), and the provider for
-- local tests (mock/provider.go).
pub mod Registered
use arkonis_operator.Prelude.{
  ℕ, ◌/◌, String, Option, none, some, List, [], ◌∷◌, Bool, true, false, ◌==◌, ◌||◌, if◌then◌else◌,
}
use arkonis_operator.Prelude.Words.{Int64, lt64}
use arkonis_operator.Prelude.Map.{Map, lookup, insert}
use arkonis_operator.Prelude.Text.{starts_with, to_lower, from_first}
use arkonis_operator.Api.Meta.{Message, format, str, end, Result, ok, err}
use arkonis_operator.Agent.Queue.{TokenUsage}

-- The registry has, under each name, the provider that the factory of the name makes.
module _ {Provider : Type 0} where
  unfoldable pub register : String → Provider → Map Provider → Map Provider
  register name factory registry = insert name factory registry

  abbrev pub supported : String → Option Provider → Result Provider
  supported name none =
      err (format "unsupported provider %q; import its package to register it" (str name end))
  supported name (some provider) = ok provider

  unfoldable pub new_provider : Map Provider → String → Result Provider
  new_provider registry name =
      let named = if name == "" then "anthropic" else name in
      supported named (lookup named registry)

unfoldable pub detect : String → String
detect model =
    if starts_with model "claude-"
    then "anthropic"
    else if starts_with model "gpt-"
        || starts_with model "o1"
        || starts_with model "o3"
        || starts_with model "o4"
    then "openai"
    else "openai"

-- `mock.Provider`, without its delay; `responses` are in the order in which the loop meets them.
pub record MockProvider : Type 0 where
  pub responses : Map String
  pub default : String

-- `strings.Contains(s, sub)`.
unfoldable pub contains_text : String → String → Bool
contains_text s sub = elim (from_first sub s) [ none ↦ false | some _ ↦ true ]

unfoldable pub match_responses : String → Map String → Option String
unfolding contains_text
match_responses lower [] = none
match_responses lower ((key, reply) ∷ responses) =
    let rest = match_responses lower responses in
    if contains_text lower (to_lower key) then some reply else rest

abbrev pub or_default : String → Option String → String
or_default default (some reply) = reply
or_default default none = if default == "" then "mock response" else default

unfoldable pub match_prompt : MockProvider → String → String
unfolding match_responses
match_prompt p prompt = or_default p.default (match_responses (to_lower prompt) p.responses)

-- `bytes` is `len` of a string.
unfoldable pub run_mock_task : (String → ℕ) → MockProvider → String → String × TokenUsage
unfolding match_prompt
run_mock_task bytes p prompt =
    let reply = match_prompt p prompt in
    (reply, record { input_tokens = bytes prompt / 4; output_tokens = bytes reply / 4 })
