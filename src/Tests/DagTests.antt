-- ===== src/Tests/DagTests.antt =====
-- Validation of small graphs.
use mathlib.Core.WellFounded.{WellFounded}
use arkonis_operator.Prelude.{List, [], ◌∷◌, ◌≡◌, ◌≢◌, ◌↔◌, refl, arith, eq_iff}
use arkonis_operator.Prelude.Map.{insert, lookup}
use arkonis_operator.Api.Flow.{ArkFlowStep}
use arkonis_operator.Flow.Dag.{
  step_names, unknown_dep, unknown_deps, adjacency, color_of, deps_of, visit, dfs, search_all,
  valid, invalid, no_fuel, unknown_step, cycle, validate_dag,
}
use arkonis_operator.Flow.Dag.Edges.{DependsOn, AllKnown, UniqueNames}
use arkonis_operator.Flow.Dag.Decision.{
  validate_dag-ne-no_fuel, Explains, validate_dag-invalid, validate_dag-valid_iff,
}
use arkonis_operator.Tests.Samples.{plain}

abbrev chain : List ArkFlowStep
chain = plain "c" ("a" ∷ "b" ∷ []) ∷ plain "b" ("a" ∷ []) ∷ plain "a" [] ∷ []

abbrev ring : List ArkFlowStep
ring = plain "a" ("b" ∷ []) ∷ plain "b" ("c" ∷ []) ∷ plain "c" ("a" ∷ []) ∷ []

validated : Unit {0}
unfolding validate_dag step_names unknown_deps unknown_dep adjacency search_all dfs visit color_of
    deps_of insert lookup
validated = tt

chain_valid : validate_dag chain ≡ valid
unfolding validated
chain_valid = refl

ring_invalid : validate_dag ring ≡ invalid (cycle "c" "a")
unfolding validated
ring_invalid = refl

dangling_invalid : validate_dag (plain "a" ("x" ∷ []) ∷ []) ≡ invalid (unknown_step "a" "x")
unfolding validated
dangling_invalid = refl

chain-UniqueNames : UniqueNames chain
chain-UniqueNames = ground (arith, eq_iff "b" "c", eq_iff "a" "c", eq_iff "a" "b")

validate_dag-ne-no_fuel_example : validate_dag ring ≢ no_fuel
validate_dag-ne-no_fuel_example = validate_dag-ne-no_fuel ring

validate_dag-invalid_example : Explains ring (cycle "c" "a")
validate_dag-invalid_example = validate_dag-invalid ring (cycle "c" "a") ring_invalid

validate_dag-valid_iff_example :
    (validate_dag chain ≡ valid) ↔ (AllKnown chain × WellFounded (DependsOn chain))
validate_dag-valid_iff_example = validate_dag-valid_iff chain chain-UniqueNames
