-- ===== src/Flow/Dag/Unknown.antt =====
-- The check for unknown names: what it reports, and when it reports nothing.
use arkonis_operator.Prelude.{
  String, none, some, List, [], ◌∷◌, ◌≡◌, refl, sym, subst, inl, inr, arith, Member, Option-cases,
}
use arkonis_operator.Prelude.Map.{Map, lookup}
use arkonis_operator.Api.Flow.{ArkFlowStep}
use arkonis_operator.Flow.Dag.{DagError, unknown_step, unknown_dep, unknown_deps}
use arkonis_operator.Flow.Dag.Edges.{DependsOn}

unknown_dep-none :
    (names : Map (Unit {0})) (step : String) (deps : List String)
    → unknown_dep names step deps ≡ none
    → (dep : String) → Member dep deps
    → lookup dep names ≡ some tt
unfolding unknown_dep
unknown_dep-none names step [] h dep m = absurd m
unknown_dep-none names step (d ∷ ds) h dep (inl same) = ground arith
unknown_dep-none names step (d ∷ ds) h dep (inr m) =
    unknown_dep-none names step ds (ground arith) dep m

unknown_dep_reports :
    (names : Map (Unit {0})) (step : String) (deps : List String) (e : DagError)
    → unknown_dep names step deps ≡ some e
    → (dep : String) × (e ≡ unknown_step step dep) × Member dep deps × (lookup dep names ≡ none)
unfolding unknown_dep
unknown_dep_reports names step [] e h = cc
unknown_dep_reports names step (d ∷ ds) e h = elim (Option-cases (lookup d names)) [
  | inl gone ↦ (d, ground arith, inl refl, gone)
  | inr (u, known) ↦
      let (dep, same, m, gone) = unknown_dep_reports names step ds e (ground arith) in
      (dep, same, inr m, gone)
]

pub unknown_deps-none :
    (names : Map (Unit {0})) (steps : List ArkFlowStep)
    → unknown_deps names steps ≡ none
    → (dep name : String) → DependsOn steps dep name
    → lookup dep names ≡ some tt
unfolding unknown_deps
unknown_deps-none names [] h dep name (s, k, e, m) = absurd k
unknown_deps-none names (t ∷ ts) h dep name (s, inl same, e, m) =
    unknown_dep-none names t.name t.depends_on (ground arith) dep
      (subst (λ z. Member dep z.depends_on) (sym same) m)
unknown_deps-none names (t ∷ ts) h dep name (s, inr k, e, m) =
    unknown_deps-none names ts (ground arith) dep name (s, k, e, m)

-- What is reported is a dependency of a step of that name, and no name in the set.
pub unknown_deps_reports :
    (names : Map (Unit {0})) (steps : List ArkFlowStep) (e : DagError)
    → unknown_deps names steps ≡ some e
    → (dep name : String) × (e ≡ unknown_step name dep)
      × DependsOn steps dep name
      × (lookup dep names ≡ none)
unfolding unknown_deps
unknown_deps_reports names [] e h = cc
unknown_deps_reports names (t ∷ ts) e h =
    elim (Option-cases (unknown_dep names t.name t.depends_on)) [
      | inl fine ↦
          let (dep, name, same, (s, k, n, m), gone) =
            unknown_deps_reports names ts e (ground arith) in
          (dep, name, same, (s, inr k, n, m), gone)
      | inr (e', bad) ↦
          let (dep, same, m, gone) =
            unknown_dep_reports names t.name t.depends_on e (ground arith) in
          (dep, t.name, same, (t, inl refl, refl, m), gone)
    ]
