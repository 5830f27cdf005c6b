-- ===== src/Local/CommandLine/Validated.antt =====
-- cmd/ark/main.go: the flows that a dry run accepts.
use arkonis_operator.Prelude.{
  some_inj, ℕ, zero, suc, Option, none, some, List, [], ◌∷◌, ◌≡◌, ◌↔◌, refl, All, arith,
}
use arkonis_operator.Prelude.Map.{Map, lookup}
use arkonis_operator.Api.Flow.{ArkFlow, ArkFlowStep}
use arkonis_operator.Api.Agent.{ArkAgent}
use arkonis_operator.Flow.Dag.{Validation, valid, invalid, no_fuel, validate_dag}
use arkonis_operator.Local.CommandLine.{
  missing_step, missing_agents, check_missing, check_flow, dry_run,
}

module _ (agents : Map ArkAgent) where
  -- The file has the agent of the step.
  abbrev pub HasAgent : ArkFlowStep → Type 0
  HasAgent step = (agent : ArkAgent) × (lookup step.ark_agent agents ≡ some agent)

  missing_step-zero :
      (found : Option ArkAgent) (n : ℕ)
      → missing_step found n ≡ 0
      → ((agent : ArkAgent) × (found ≡ some agent)) × (n ≡ 0)
  missing_step-zero none n none_missing = absurd (omega (arith, none_missing))
  missing_step-zero (some agent) n none_missing = ((agent, refl), none_missing)

  missing_agents-zero :
      (steps : List ArkFlowStep) → missing_agents agents steps ≡ 0 → All HasAgent steps
  unfolding missing_agents
  missing_agents-zero [] none_missing = tt
  missing_agents-zero (step ∷ steps) none_missing =
      let (has, rest) =
        missing_step-zero (lookup step.ark_agent agents) (missing_agents agents steps)
          none_missing in
      (has, missing_agents-zero steps rest)

  zero-missing_agents :
      (steps : List ArkFlowStep) → All HasAgent steps → missing_agents agents steps ≡ 0
  unfolding missing_agents
  zero-missing_agents [] has = refl
  zero-missing_agents (step ∷ steps) ((agent, there), rest) =
      rw (there, zero-missing_agents steps rest) refl

  check_missing-none : (n : ℕ) → check_missing n ≡ none → n ≡ 0
  check_missing-none zero fine = refl
  check_missing-none (suc n) fine = cc fine

  check_flow-none :
      (steps : List ArkFlowStep) (v : Validation)
      → check_flow agents steps v ≡ some none
      → (v ≡ valid) × All HasAgent steps
  check_flow-none steps no_fuel fine = cc fine
  check_flow-none steps (invalid e) fine = cc (some_inj fine)
  check_flow-none steps valid fine = (
    refl,
    missing_agents-zero steps (check_missing-none (missing_agents agents steps) (some_inj fine)),
  )

  none-check_flow :
      (steps : List ArkFlowStep) (v : Validation)
      → v ≡ valid
      → All HasAgent steps
      → check_flow agents steps v ≡ some none
  none-check_flow steps v is_valid has = rw (is_valid, zero-missing_agents steps has) refl

  -- A dry run accepts a flow exactly when ValidateDAG accepts it and the file has the agents of all its steps.
  pub dry_run_iff :
      (f : ArkFlow)
      → (dry_run f agents ≡ some none)
        ↔ ((validate_dag f.spec.steps ≡ valid) × All HasAgent f.spec.steps)
  unfolding dry_run
  dry_run_iff f = (
    (λ fine. check_flow-none f.spec.steps (validate_dag f.spec.steps) fine),
    (λ (is_valid, has). none-check_flow f.spec.steps (validate_dag f.spec.steps) is_valid has),
  )
