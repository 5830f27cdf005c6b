-- ===== src/Controller/AgentWatch.antt =====
-- internal/controller/arkagent_controller.go: which agents a changed flow wakes, and the system prompt of
-- an agent. The config maps and secrets of the namespace are parameters.
use arkonis_operator.Prelude.{
  String, true, false, subst, none, some, List, [], ◌∷◌, ◌≡◌, ◌≢◌, ◌⊎◌, inl, inr, refl, sym, arith,
  Bool-cases, Option-cases, All, Member, ◌==◌, if◌then◌else◌,
}
use text.Mathlib.TextEquality.{eq_iff}
use arkonis_operator.Prelude.Map.{Map, lookup, insert, lookup-insert}
use arkonis_operator.Prelude.Text.{◌<>◌}
use arkonis_operator.Api.Meta.{format, str, msg, end, Result, ok, err}
use arkonis_operator.Api.Flow.{ArkFlow, ArkFlowStep}
use arkonis_operator.Api.Agent.{ArkAgent, SystemPromptSource, KeySelector}

-- The loop of `flowToAgents`: the names of the agents to reconcile; `seen` are those before.
unfoldable pub agents_from : Map (Unit {0}) → List ArkFlowStep → List String
agents_from seen [] = []
agents_from seen (step ∷ steps) =
    let rest = agents_from seen steps in
    let more = step.ark_agent ∷ agents_from (insert step.ark_agent tt seen) steps in
    if step.ark_agent == ""
    then rest
    else elim (lookup step.ark_agent seen) [ some _ ↦ rest | none ↦ more ]

unfoldable pub flow_to_agents : ArkFlow → List String
unfolding agents_from
flow_to_agents f = agents_from [] f.spec.steps

-- `read` returns the data of the object of a name, and `kind` names it in the messages.
unfoldable pub read_key : String → (String → Result (Map String)) → KeySelector → Result String
read_key kind read ref = elim (read ref.name) [
  | err e ↦
      err (format ("reading " <> kind <> " %q for systemPromptRef: %w") (str ref.name (msg e end)))
  | ok values ↦ elim (lookup ref.key values) [
    | none ↦ err (format ("key %q not found in " <> kind <> " %q") (str ref.key (str ref.name end)))
    | some val ↦ ok val
  ]
]

unfoldable pub resolve_source :
    (config_map secret : String → Result (Map String)) → String → SystemPromptSource → Result String
resolve_source config_map secret inline ref = elim ref.config_map_key_ref [
  | some key ↦ read_key "ConfigMap" config_map key
  | none ↦ elim ref.secret_key_ref [ some key ↦ read_key "Secret" secret key | none ↦ ok inline ]
]

unfoldable pub resolve_system_prompt :
    (config_map secret : String → Result (Map String)) → ArkAgent → Result String
resolve_system_prompt config_map secret agent = elim agent.spec.system_prompt_ref [
  | none ↦ ok agent.spec.system_prompt
  | some ref ↦ resolve_source config_map secret agent.spec.system_prompt ref
]

-- What the list holds: no empty name, no name that was seen, and no name twice.
abbrev AllNew : Map (Unit {0}) → List String → Type 0
AllNew seen names = All (λ n. (n ≢ "") × (lookup n seen ≡ none)) names

abbrev pub AllDifferent : List String → Type 0
AllDifferent [] = Unit
AllDifferent (n ∷ names) = All (λ k. k ≢ n) names × AllDifferent names

narrow :
    (name : String) (seen : Map (Unit {0})) (n : String)
    → (n ≢ "") × (lookup n (insert name tt seen) ≡ none)
    → ((n ≢ "") × (lookup n seen ≡ none)) × (n ≢ name)
narrow name seen n (full, fresh) = (
  (full, ground (arith, eq_iff name n, lookup-insert name n tt seen)),
  λ same. ground (arith, eq_iff name n, lookup-insert name n tt seen),
)

All-narrow :
    (name : String) (seen : Map (Unit {0})) (names : List String)
    → AllNew (insert name tt seen) names
    → AllNew seen names × All (λ k. k ≢ name) names
All-narrow name seen [] new = (tt, tt)
All-narrow name seen (n ∷ names) new =
    let (kept, differs) = narrow name seen n new.0 in
    let rest = All-narrow name seen names new.1 in ((kept, rest.0), (differs, rest.1))

agents_from-AllNew :
    (seen : Map (Unit {0})) (steps : List ArkFlowStep)
    → AllNew seen (agents_from seen steps) × AllDifferent (agents_from seen steps)
unfolding agents_from
agents_from-AllNew seen [] = (tt, tt)
agents_from-AllNew seen (step ∷ steps) = elim (Bool-cases (step.ark_agent == "")) [
  | inl empty ↦ rw (empty, agents_from) (agents_from-AllNew seen steps)
  | inr full ↦ elim (Option-cases (lookup step.ark_agent seen)) [
    | inr (u, old) ↦ rw (full, old, agents_from) (agents_from-AllNew seen steps)
    | inl fresh ↦
        let rest = agents_from-AllNew (insert step.ark_agent tt seen) steps in
        let narrowed = All-narrow step.ark_agent seen _ rest.0 in
        rw (full, fresh, agents_from)
          (
            ((((λ e. ground (arith, eq_iff step.ark_agent "")), fresh), narrowed.0)),
            (narrowed.1, rest.1),
          )
  ]
]

-- The agent of a step is empty, was seen, or is in the list.
abbrev Woken : Map (Unit {0}) → List String → ArkFlowStep → Type 0
Woken seen names step =
    (step.ark_agent ≡ "") ⊎ ((lookup step.ark_agent seen ≢ none) ⊎ Member step.ark_agent names)

Woken-insert :
    (name : String) (seen : Map (Unit {0})) (names : List String) (step : ArkFlowStep)
    → Woken (insert name tt seen) names step
    → Woken seen (name ∷ names) step
Woken-insert name seen names step (inl empty) = inl empty
Woken-insert name seen names step (inr (inr there)) = inr (inr (inr there))
Woken-insert name seen names step (inr (inl old)) = elim (Bool-cases (name == step.ark_agent)) [
  | inl same ↦ inr (inr (inl (ground (arith, eq_iff name step.ark_agent))))
  | inr other ↦
      inr (inl (λ none_yet. old (ground (arith, lookup-insert name step.ark_agent tt seen))))
]

All-Woken-insert :
    (name : String) (seen : Map (Unit {0})) (names : List String) (steps : List ArkFlowStep)
    → All (Woken (insert name tt seen) names) steps
    → All (Woken seen (name ∷ names)) steps
All-Woken-insert name seen names [] h = tt
All-Woken-insert name seen names (s ∷ steps) h =
    (Woken-insert name seen names s h.0, All-Woken-insert name seen names steps h.1)

-- The turns of the loop.
module _ (seen : Map (Unit {0})) (step : ArkFlowStep) (steps : List ArkFlowStep) where
  agents_from-unnamed :
      (step.ark_agent == "") ≡ true → agents_from seen (step ∷ steps) ≡ agents_from seen steps
  unfolding agents_from
  agents_from-unnamed empty = rw (empty, agents_from) refl

  agents_from-seen :
      (u : Unit {0})
      → (step.ark_agent == "") ≡ false
      → lookup step.ark_agent seen ≡ some u
      → agents_from seen (step ∷ steps) ≡ agents_from seen steps
  unfolding agents_from
  agents_from-seen u full old = rw (full, old, agents_from) refl

  agents_from-fresh :
      (step.ark_agent == "") ≡ false
      → lookup step.ark_agent seen ≡ none
      → agents_from seen (step ∷ steps)
        ≡ step.ark_agent ∷ agents_from (insert step.ark_agent tt seen) steps
  unfolding agents_from
  agents_from-fresh full fresh = rw (full, fresh, agents_from) refl

agents_from-Woken :
    (seen : Map (Unit {0})) (steps : List ArkFlowStep)
    → All (Woken seen (agents_from seen steps)) steps
agents_from-Woken seen [] = tt
agents_from-Woken seen (step ∷ steps) = elim (Bool-cases (step.ark_agent == "")) [
  | inl empty ↦
      subst (λ names. All (Woken seen names) (step ∷ steps))
        (sym (agents_from-unnamed seen step steps empty))
        (inl (ground (arith, eq_iff step.ark_agent "")), agents_from-Woken seen steps)
  | inr full ↦ elim (Option-cases (lookup step.ark_agent seen)) [
    | inr (u, old) ↦
        subst (λ names. All (Woken seen names) (step ∷ steps))
          (sym (agents_from-seen seen step steps u full old))
          (inr (inl (λ gone. ground arith)), agents_from-Woken seen steps)
    | inl fresh ↦
        subst (λ names. All (Woken seen names) (step ∷ steps))
          (sym (agents_from-fresh seen step steps full fresh))
          (
            inr (inr (inl refl)),
            All-Woken-insert step.ark_agent seen (agents_from (insert step.ark_agent tt seen) steps)
                steps (agents_from-Woken (insert step.ark_agent tt seen) steps),
          )
  ]
]

Woken-empty :
    (names : List String) (steps : List ArkFlowStep)
    → All (Woken [] names) steps
    → All (λ s. (s.ark_agent ≡ "") ⊎ Member s.ark_agent names) steps
unfolding lookup
Woken-empty names [] h = tt
Woken-empty names (s ∷ steps) (inl empty, h) = (inl empty, Woken-empty names steps h)
Woken-empty names (s ∷ steps) (inr (inl old), h) = absurd (old refl)
Woken-empty names (s ∷ steps) (inr (inr there), h) = (inr there, Woken-empty names steps h)

-- A changed flow wakes no agent twice, and wakes the agent of each of its steps that names one.
pub flow_to_agents-AllDifferent :
    (f : ArkFlow)
    → AllDifferent (flow_to_agents f)
      × All (λ s. (s.ark_agent ≡ "") ⊎ Member s.ark_agent (flow_to_agents f)) f.spec.steps
unfolding flow_to_agents
flow_to_agents-AllDifferent f = (
  (agents_from-AllNew [] f.spec.steps).1,
  Woken-empty (agents_from [] f.spec.steps) f.spec.steps (agents_from-Woken [] f.spec.steps),
)
