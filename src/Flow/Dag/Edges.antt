-- ===== src/Flow/Dag/Edges.antt =====
-- The maps that `ValidateDAG` builds, read back as statements about the steps.
use arkonis_operator.Prelude.{
  String, some, List, [], ◌∷◌, ◌≡◌, ◌≢◌, refl, sym, subst, ◌∙◌, ◌⊎◌, inl, inr, arith, Member, All,
  Bool-cases, ◌==◌, eq_iff, if◌then◌else◌,
}
use arkonis_operator.Prelude.Map.{Map, lookup, insert, lookup-insert, lookup_or-insert}
use arkonis_operator.Api.Flow.{ArkFlowStep}
use arkonis_operator.Flow.Dag.{deps_of, step_names, adjacency}
use arkonis_operator.Flow.Dag.Graph.{Dep}
use arkonis_operator.Flow.Dag.Fuel.{Known}

-- A step named `name` lists `dep`.
abbrev pub DependsOn : List ArkFlowStep → String → String → Type 0
DependsOn steps dep name =
    (step : ArkFlowStep) × Member step steps × (step.name ≡ name) × Member dep step.depends_on

-- Every listed dependency is the name of a step.
abbrev pub AllKnown : List ArkFlowStep → Type 0
AllKnown steps = (dep name : String) → DependsOn steps dep name → Known steps dep

-- No two steps have one name, as the API's documentation demands.
abbrev pub UniqueNames : List ArkFlowStep → Type 0
UniqueNames [] = Unit
UniqueNames (s ∷ ss) = All (λ t. t.name ≢ s.name) ss × UniqueNames ss

pub lookup-step_names :
    (steps : List ArkFlowStep) (m : Map (Unit {0})) (d : String) (u : Unit {0})
    → lookup d (step_names steps m) ≡ some u
    → Known steps d ⊎ (lookup d m ≡ some u)
unfolding step_names
lookup-step_names [] m d u h = inr h
lookup-step_names (s ∷ ss) m d u h = elim (lookup-step_names ss (insert s.name tt m) d u h) [
  | inl (t, k, e) ↦ inl (t, inr k, e)
  | inr l ↦ elim (Bool-cases (s.name == d)) [
    | inl same ↦ inl (s, inl refl, (eq_iff s.name d).0 same)
    | inr other ↦ inr (ground (arith, lookup-insert s.name d tt m))
  ]
]

step_names_keeps :
    (steps : List ArkFlowStep) (m : Map (Unit {0})) (d : String)
    → lookup d m ≡ some tt
    → lookup d (step_names steps m) ≡ some tt
unfolding step_names
step_names_keeps [] m d h = h
step_names_keeps (s ∷ ss) m d h =
    step_names_keeps ss (insert s.name tt m) d (ground (arith, lookup-insert s.name d tt m))

pub lookup-step_names-Known :
    (steps : List ArkFlowStep) (m : Map (Unit {0})) (d : String)
    → Known steps d
    → lookup d (step_names steps m) ≡ some tt
unfolding step_names
lookup-step_names-Known [] m d (s, k, e) = absurd k
lookup-step_names-Known (s ∷ ss) m d (t, inl same, e) =
    step_names_keeps ss (insert s.name tt m) d
      (ground (arith, lookup-insert s.name d tt m, eq_iff s.name d))
lookup-step_names-Known (s ∷ ss) m d (t, inr k, e) =
    lookup-step_names-Known ss (insert s.name tt m) d (t, k, e)

deps_of-insert :
    (k x : String) (v : List String) (m : Map (List String))
    → deps_of (insert k v m) x ≡ (if k == x then v else deps_of m x)
unfolding deps_of
deps_of-insert k x v m = lookup_or-insert [] k x v m

-- An edge of the map is an edge of the steps.
pub Dep→DependsOn :
    (steps : List ArkFlowStep) (m : Map (List String)) (dep name : String)
    → Dep (adjacency steps m) dep name
    → DependsOn steps dep name ⊎ Dep m dep name
unfolding adjacency
Dep→DependsOn [] m dep name h = inr h
Dep→DependsOn (s ∷ ss) m dep name h =
    elim (Dep→DependsOn ss (insert s.name s.depends_on m) dep name h) [
      | inl (t, k, e, d) ↦ inl (t, inr k, e, d)
      | inr l ↦ elim (Bool-cases (s.name == name)) [
        | inl same ↦ inl (
          s,
          inl refl,
          (eq_iff s.name name).0 same,
          subst (Member dep) (ground (arith, deps_of-insert s.name name s.depends_on m)) l,
        )
        | inr other ↦
            inr (subst (Member dep) (ground (arith, deps_of-insert s.name name s.depends_on m)) l)
      ]
    ]

deps_of-adjacency_other :
    (steps : List ArkFlowStep) (m : Map (List String)) (x : String)
    → All (λ t. t.name ≢ x) steps
    → deps_of (adjacency steps m) x ≡ deps_of m x
unfolding adjacency
deps_of-adjacency_other [] m x h = refl
deps_of-adjacency_other (s ∷ ss) m x (n, h) =
    deps_of-adjacency_other ss (insert s.name s.depends_on m) x h
    ∙ ground (arith, deps_of-insert s.name x s.depends_on m, eq_iff s.name x)

deps_of-adjacency :
    (steps : List ArkFlowStep) (m : Map (List String)) (s : ArkFlowStep)
    → UniqueNames steps
    → Member s steps
    → deps_of (adjacency steps m) s.name ≡ s.depends_on
unfolding adjacency
deps_of-adjacency [] m s u k = absurd k
deps_of-adjacency (t ∷ ts) m s (fresh, u) (inl same) =
    subst (λ z. deps_of (adjacency ts (insert t.name t.depends_on m)) z.name ≡ z.depends_on) same
      (deps_of-adjacency_other ts (insert t.name t.depends_on m) t.name fresh
        ∙ ground (arith, deps_of-insert t.name t.name t.depends_on m, eq_iff t.name t.name))
deps_of-adjacency (t ∷ ts) m s (fresh, u) (inr k) =
    deps_of-adjacency ts (insert t.name t.depends_on m) s u k

-- With unique names, an edge of the steps is an edge of the map.
pub DependsOn→Dep :
    (steps : List ArkFlowStep) (m : Map (List String)) (dep name : String)
    → UniqueNames steps
    → DependsOn steps dep name
    → Dep (adjacency steps m) dep name
DependsOn→Dep steps m dep name u (s, k, e, d) =
    subst (Dep (adjacency steps m) dep) e
      (subst (Member dep) (sym (deps_of-adjacency steps m s u k)) d)
