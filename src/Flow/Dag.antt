-- ===== src/Flow/Dag.antt =====
-- internal/flow/dag.go: validation of a flow's dependency graph, and the lookups over step statuses.
pub mod Graph
pub mod Acyclic
pub mod Fuel
pub mod Edges
pub mod Unknown
pub mod Decision
use arkonis_operator.Prelude.{
  ℕ, zero, suc, String, Option, none, some, List, [], ◌∷◌, Bool, true, false, ◌||◌, get_elem?,
  length, ◌==◌, if◌then◌else◌,
}
use arkonis_operator.Prelude.Map.{Map, lookup, insert, lookup_or}
use arkonis_operator.Api.Meta.{Message, format, str, end}
use arkonis_operator.Api.Flow.{
  ArkFlow, ArkFlowStep, ArkFlowStepStatus, ArkFlowPhase, ArkFlowStepPhase,
}

unfoldable pub is_terminal_phase : ArkFlowPhase → Bool
is_terminal_phase ArkFlowPhase.succeeded = true
is_terminal_phase ArkFlowPhase.failed = true
is_terminal_phase _ = false

-- The pointers of `BuildStatusByName`: places in the list of step statuses, by name.
abbrev pub StatusByName : Type 0
StatusByName = Map ℕ

unfoldable pub index_from : ℕ → List ArkFlowStepStatus → StatusByName → StatusByName
index_from i [] m = m
index_from i (st ∷ sts) m = index_from (suc i) sts (insert st.name i m)

unfoldable pub build_status_by_name : List ArkFlowStepStatus → StatusByName
build_status_by_name steps = index_from 0 steps []

-- What a pointer of the map points at: the status of a step, read from the list that the flow holds.
unfoldable pub status_of :
    StatusByName → List ArkFlowStepStatus → String → Option (ℕ × ArkFlowStepStatus)
unfolding lookup
status_of m steps name = elim (lookup name m) [
  | none ↦ none
  | some i ↦ elim (get_elem? steps i) [ none ↦ none | some st ↦ some (i, st) ]
]

unfoldable pub is_done : ArkFlowStepPhase → Bool
is_done ArkFlowStepPhase.succeeded = true
is_done ArkFlowStepPhase.skipped = true
is_done _ = false

unfoldable pub deps_succeeded : List String → StatusByName → List ArkFlowStepStatus → Bool
deps_succeeded [] m steps = true
deps_succeeded (dep ∷ deps) m steps =
    let rest = deps_succeeded deps m steps in
    elim (status_of m steps dep) [
      | none ↦ false
      | some (i, st) ↦ if is_done st.phase then rest else false
    ]

pub data DagError : Type 0 where
  unknown_step : (step dep : String) → DagError
  cycle : (step dep : String) → DagError

-- The text of the error.
unfoldable pub dag_message : DagError → Message
dag_message (unknown_step s d) = format "step %q depends on unknown step %q" (str s (str d end))
dag_message (cycle s d) = format "cycle detected: step %q → %q forms a cycle" (str s (str d end))

-- `stepNames`: the set of the names of all steps.
unfoldable pub step_names : List ArkFlowStep → Map (Unit {0}) → Map (Unit {0})
step_names [] m = m
step_names (step ∷ steps) m = step_names steps (insert step.name tt m)

-- The first entry of a step's `dependsOn` that names no step.
unfoldable pub unknown_dep : Map (Unit {0}) → String → List String → Option DagError
unfolding lookup
unknown_dep names step [] = none
unknown_dep names step (dep ∷ deps) =
    let rest = unknown_dep names step deps in
    elim (lookup dep names) [ none ↦ some (unknown_step step dep) | some _ ↦ rest ]

-- The same over all steps, in order.
unfoldable pub unknown_deps : Map (Unit {0}) → List ArkFlowStep → Option DagError
unknown_deps names [] = none
unknown_deps names (step ∷ steps) =
    let rest = unknown_deps names steps in
    elim (unknown_dep names step.name step.depends_on) [ some e ↦ some e | none ↦ rest ]

-- `adj`: the dependencies of each name. Of two steps with one name the later counts.
unfoldable pub adjacency : List ArkFlowStep → Map (List String) → Map (List String)
adjacency [] m = m
adjacency (step ∷ steps) m = adjacency steps (insert step.name step.depends_on m)

pub data Color : Type 0 where
  white gray black : Color

-- `color[name]`, whose zero value is white.
unfoldable pub color_of : Map Color → String → Color
unfolding lookup_or
color_of color name = lookup_or white name color

unfoldable pub deps_of : Map (List String) → String → List String
unfolding lookup_or
deps_of adj name = lookup_or [] name adj

-- The result of `dfs`: the colors after it, or the edge that closes a cycle.
pub data Search : Type 0 where
  done : Map Color → Search
  found : (step dep : String) → Search
  out_of_fuel : Search

-- `if err := …; err != nil { return err }`.
abbrev pub and_then : Search → (Map Color → Search) → Search
and_then (done color) k = k color
and_then (found s d) k = found s d
and_then out_of_fuel k = out_of_fuel

-- The loop over the dependencies of `name`; `go` is the recursive call of `dfs`.
unfoldable pub visit : (String → Map Color → Search) → String → List String → Map Color → Search
visit go name [] color = done (insert name black color)
visit go name (dep ∷ deps) color = elim (color_of color dep) [
  | gray ↦ found name dep
  | black ↦ visit go name deps color
  | white ↦ and_then (go dep color) (λ color'. visit go name deps color')
]

unfoldable pub dfs : Map (List String) → ℕ → String → Map Color → Search
dfs adj zero name color = out_of_fuel
dfs adj (suc fuel) name color =
    visit (dfs adj fuel) name (deps_of adj name) (insert name gray color)

-- The last loop of `ValidateDAG`: a search from each step that is still white.
unfoldable pub search_all : Map (List String) → ℕ → List ArkFlowStep → Map Color → Search
search_all adj fuel [] color = done color
search_all adj fuel (step ∷ steps) color = elim (color_of color step.name) [
  | white ↦ and_then (dfs adj fuel step.name color) (λ color'. search_all adj fuel steps color')
  | gray ↦ search_all adj fuel steps color
  | black ↦ search_all adj fuel steps color
]

pub data Validation : Type 0 where
  valid : Validation
  invalid : DagError → Validation
  no_fuel : Validation

abbrev verdict : Search → Validation
verdict (done color) = valid
verdict (found s d) = invalid (cycle s d)
verdict out_of_fuel = no_fuel

-- The depth of the search is bounded by the number of steps, which is the fuel.
unfoldable pub validate_dag : List ArkFlowStep → Validation
validate_dag steps = elim (unknown_deps (step_names steps []) steps) [
  | some e ↦ invalid e
  | none ↦ verdict (search_all (adjacency steps []) (length steps) steps [])
]
