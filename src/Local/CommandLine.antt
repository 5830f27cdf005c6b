-- ===== src/Local/CommandLine.antt =====
-- internal/ark/loader.go and cmd/ark/main.go: the documents of a file, and what `ark run` and `ark validate` do
-- before a flow runs. The libraries for YAML and JSON are parameters.
pub mod Validated
use arkonis_operator.Prelude.{
  ℕ, zero, suc, String, Option, none, some, List, [], ◌∷◌, ◌++◌, ◌==◌, if◌then◌else◌,
}
use arkonis_operator.Prelude.Map.{Map, lookup, insert}
use arkonis_operator.Prelude.Text.{split_text, trim_space, trim_prefix}
use arkonis_operator.Api.Meta.{
  Message, Args, text, format, str, int, msg, end, Result, ok, err, ◌>>=◌,
}
use arkonis_operator.Api.Flow.{ArkFlow, ArkFlowStep}
use arkonis_operator.Api.Agent.{ArkAgent}
use arkonis_operator.Flow.Dag.{Validation, valid, invalid, no_fuel, validate_dag, dag_message}
use arkonis_operator.Agent.Providers.{new_provider, detect}

-- The kind of a document, empty where there is none or it cannot be read; and its flow or agent.
pub record Yaml : Type 0 where
  pub kind : String → String
  pub flow : String → Result ArkFlow
  pub agent : String → Result ArkAgent

abbrev pub Documents : Type 0
Documents = List ArkFlow × Map ArkAgent

abbrev kept : String → List String → List String
kept doc docs = if doc == "" then docs else doc ∷ docs

abbrev trimmed : String → String
trimmed part = trim_space (trim_prefix (trim_space part) "---")

unfoldable pub keep_docs : List String → List String
keep_docs [] = []
keep_docs (part ∷ parts) = kept (trimmed part) (keep_docs parts)

unfoldable pub split_docs : String → List String
unfolding keep_docs
split_docs content = keep_docs (split_text "\n---" 3 0 content)

module _ (yaml : Yaml) where
  abbrev document_error : String → ℕ → Message → Result Documents
  document_error what i e = err (format what (int i (msg e end)))

  abbrev read_flow :
      (Documents → Result Documents) → ℕ → Documents → Result ArkFlow → Result Documents
  read_flow go i (flows, agents) (err e) = document_error "document %d (ArkFlow): %w" i e
  read_flow go i (flows, agents) (ok f) = go (flows ++ (f ∷ []), agents)

  abbrev read_agent :
      (Documents → Result Documents) → ℕ → Documents → Result ArkAgent → Result Documents
  read_agent go i (flows, agents) (err e) = document_error "document %d (ArkAgent): %w" i e
  read_agent go i (flows, agents) (ok a) = go (flows, insert a.name a agents)

  -- The loop of `ParseDocs` from the document `i`.
  unfoldable pub parse_from : ℕ → List String → Documents → Result Documents
  parse_from i [] docs = ok docs
  parse_from i (part ∷ parts) docs =
      let go : Documents → Result Documents = λ d. parse_from (suc i) parts d in
      let of_flow = read_flow go i docs (yaml.flow part) in
      let of_agent = read_agent go i docs (yaml.agent part) in
      let skipped = go docs in
      if yaml.kind part == "ArkFlow"
      then of_flow
      else if yaml.kind part == "ArkAgent"
      then of_agent
      else skipped

  unfoldable pub parse_docs : String → Result Documents
  unfolding split_docs parse_from
  parse_docs content = parse_from 0 (split_docs content) ([], [])

unfoldable pub find_flow : String → List ArkFlow → Option ArkFlow
find_flow name [] = none
find_flow name (f ∷ flows) =
    let rest = find_flow name flows in if f.name == name then some f else rest

abbrev names_of : List ArkFlow → Args
names_of [] = end
names_of (f ∷ flows) = str f.name (names_of flows)

abbrev found_flow : String → List ArkFlow → Option ArkFlow → Result ArkFlow
found_flow name flows (some f) = ok f
found_flow name flows none =
    err (format "flow %q not found; available: %v" (str name (names_of flows)))

-- The flows are `first` and `rest`. The warning that there are several goes to standard error.
unfoldable pub select_flow : ArkFlow → List ArkFlow → String → Result ArkFlow
unfolding find_flow
select_flow first rest name =
    let named = found_flow name (first ∷ rest) (find_flow name (first ∷ rest)) in
    if name == "" then ok first else named

abbrev missing_step : Option ArkAgent → ℕ → ℕ
missing_step none n = suc n
missing_step (some _) n = n

-- The number of steps whose agent is not in the file.
unfoldable pub missing_agents : Map ArkAgent → List ArkFlowStep → ℕ
missing_agents agents [] = 0
missing_agents agents (step ∷ steps) =
    missing_step (lookup step.ark_agent agents) (missing_agents agents steps)

abbrev pub check_missing : ℕ → Option Message
check_missing zero = none
check_missing (suc n) =
    some
      (format "%d missing agent(s) — add the ArkAgent definitions to your YAML" (int (suc n) end))

-- After `ValidateDAG`; `none` is a search that uses up its fuel.
abbrev pub check_flow : Map ArkAgent → List ArkFlowStep → Validation → Option (Option Message)
check_flow agents steps no_fuel = none
check_flow agents steps (invalid e) =
    some (some (format "invalid DAG: %w" (msg (dag_message e) end)))
check_flow agents steps valid = some (check_missing (missing_agents agents steps))

-- The error of the dry run, without what it prints.
unfoldable pub dry_run : ArkFlow → Map ArkAgent → Option (Option Message)
unfolding missing_agents
dry_run f agents = check_flow agents f.spec.steps (validate_dag f.spec.steps)

abbrev known : {Provider : Type 0} → String → Result Provider → Result Provider
known name (ok p) = ok p
known name (err _) =
    err (format "unknown provider %q — supported: anthropic, openai, mock" (str name end))

-- `registry` is the one of the providers.
unfoldable pub build_provider_func :
    {Provider : Type 0} → Map Provider → String → (model : String) → Result Provider
build_provider_func registry flag model =
    let name = if flag == "auto" then detect model else flag in
    known name (new_provider registry name)

abbrev override_input : (String → Result (Map String)) → String → ArkFlow → Result ArkFlow
override_input unmarshal input f = elim (unmarshal input) [
  | err e ↦ err (format "--input must be a JSON object of string values: %w" (msg e end))
  | ok values ↦ ok (record f { spec = record (f.spec) { input = values } })
]

-- The flow that `runFlow` runs, once the file was parsed.
unfoldable pub prepare_flow :
    (String → Result (Map String)) → String → String → String → List ArkFlow → Result ArkFlow
unfolding select_flow
prepare_flow unmarshal path name input [] =
    err (format "no ArkFlow resources found in %s" (str path end))
prepare_flow unmarshal path name input (first ∷ rest) = select_flow first rest name >>= λ f.
    (let overridden = override_input unmarshal input f in if input == "" then ok f else overridden)
