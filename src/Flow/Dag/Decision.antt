-- ===== src/Flow/Dag/Decision.antt =====
-- What `ValidateDAG` decides.
use mathlib.Core.WellFounded.Acc
use mathlib.Core.WellFounded.{Acc, WellFounded}
use arkonis_operator.Prelude.{
  String, none, some, List, [], ◌≡◌, ◌≢◌, ◌↔◌, refl, sym, subst, ◌∙◌, ◌⊎◌, inl, inr, All,
  All-member, Option-cases, length,
}
use arkonis_operator.Prelude.Map.{Map, lookup}
use arkonis_operator.Api.Flow.{ArkFlowStep}
use arkonis_operator.Flow.Dag.{
  color_of, black, deps_of, step_names, adjacency, DagError, unknown_step, cycle, unknown_deps,
  Search, done, found, out_of_fuel, search_all, Color, Validation, valid, invalid, no_fuel, verdict,
  validate_dag,
}
use arkonis_operator.Flow.Dag.Graph.{IsGrounded, Dep, Leads, here, next, Cycle}
use arkonis_operator.Flow.Dag.Acyclic.{AllOutcome, search_all-AllOutcome}
use arkonis_operator.Flow.Dag.Fuel.{Known, search_all-ne-out_of_fuel}
use arkonis_operator.Flow.Dag.Edges.{
  DependsOn, AllKnown, UniqueNames, lookup-step_names, lookup-step_names-Known, Dep→DependsOn,
  DependsOn→Dep,
}
use arkonis_operator.Flow.Dag.Unknown.{unknown_deps-none, unknown_deps_reports}

Acc-mono :
    {D E : String → String → Type 0}
    → ((d x : String) → E d x → D d x)
    → (x : String) → Acc D x
    → Acc E x
Acc-mono sub x (Acc.intro _ below) = Acc.intro x (λ d e. Acc-mono sub d (below d (sub d x e)))

Leads-mono :
    {D E : String → String → Type 0} {name last : String}
    → ((d x : String) → D d x → E d x)
    → Leads D name last
    → Leads E name last
Leads-mono sub here = here
Leads-mono sub (next {mid = mid} {last = last} l e) = next (Leads-mono sub l) (sub last mid e)

-- The first edge of a path.
Leads-first :
    {D : String → String → Type 0} {name last : String}
    → Leads D name last
    → (name ≡ last) ⊎ ((z : String) × D z name × Leads D z last)
Leads-first here = inl refl
Leads-first {D} (next {last = last} l e) = elim (Leads-first l) [
  | inl same ↦ inr (last, subst (D last) (sym same) e, here)
  | inr (z, d, l') ↦ inr (z, d, next l' e)
]

Acc-no-Cycle : {D : String → String → Type 0} (x : String) → Acc D x → (d : String) → ¬ Cycle D x d
Acc-no-Cycle {D} x (Acc.intro _ below) d (e, l) = elim (Leads-first l) [
  | inl same ↦ Acc-no-Cycle d (below d e) d (subst (D d) (sym same) e, here)
  | inr (z, dz, lz) ↦ Acc-no-Cycle d (below d e) z (dz, next lz e)
]

module _ (steps : List ArkFlowStep) where
  abbrev adj : Map (List String)
  adj = adjacency steps []

  Dep-DependsOn : (d x : String) → Dep adj d x → DependsOn steps d x
  unfolding deps_of
  Dep-DependsOn d x h = elim (Dep→DependsOn steps [] d x h) [ inl e ↦ e | inr m ↦ absurd m ]

  unknown-none_iff : (unknown_deps (step_names steps []) steps ≡ none) ↔ AllKnown steps
  unfolding lookup
  unknown-none_iff = (
    λ h dep name e.
        elim (lookup-step_names steps [] dep tt
          (unknown_deps-none (step_names steps []) steps h dep name e)) [
            | inl k ↦ k
            | inr n ↦ absurd (cc)
          ],
    λ known. elim (Option-cases (unknown_deps (step_names steps []) steps)) [
      | inl fine ↦ fine
      | inr (e, bad) ↦
          let (dep, name, same, on, gone) =
            unknown_deps_reports (step_names steps []) steps e bad in
          absurd (cc (gone, lookup-step_names-Known steps [] dep (known dep name on)))
    ],
  )

  abbrev search : Search
  search = search_all adj (length steps) steps []

  search-AllOutcome : AllOutcome adj [] steps search
  unfolding color_of
  search-AllOutcome = search_all-AllOutcome adj (length steps) steps [] (λ x g. cc)

  -- A name of no step has no dependencies.
  Dep-Acc :
      (c : Map Color)
      → IsGrounded adj c
      → All (λ s. color_of c s.name ≡ black) steps
      → (x : String) → Acc (Dep adj) x
  Dep-Acc c g painted x = Acc.intro x λ d e.
      let (s, k, same, m) = Dep-DependsOn d x e in
      Acc.inv (subst (Acc (Dep adj)) same (g s.name (All-member _ s steps painted k))) e

  AllOutcome-valid :
      (r : Search) → AllOutcome adj [] steps r → verdict r ≡ valid → (x : String) → Acc (Dep adj) x
  unfolding color_of
  AllOutcome-valid (done c) (f, painted) h = Dep-Acc c (f.grounded (λ x b. absurd (cc))) painted
  AllOutcome-valid (found s d) o h = absurd (cc)
  AllOutcome-valid out_of_fuel o h = absurd (cc)

  AllOutcome-found :
      (r : Search) (s d : String)
      → AllOutcome adj [] steps r
      → verdict r ≡ invalid (cycle s d)
      → Cycle (Dep adj) s d
  AllOutcome-found (done c) s d o h = absurd (cc)
  AllOutcome-found (found s' d') s d o h =
      subst (λ x. Cycle (Dep adj) x d) (cc) (subst (Cycle (Dep adj) s') (cc) o)
  AllOutcome-found out_of_fuel s d o h = absurd (cc)

  verdict-ne-unknown : (r : Search) (s d : String) → verdict r ≢ invalid (unknown_step s d)
  verdict-ne-unknown (done c) s d h = cc
  verdict-ne-unknown (found s' d') s d h = cc
  verdict-ne-unknown out_of_fuel s d h = cc

  verdict-ne-no_fuel : (r : Search) → r ≢ out_of_fuel → verdict r ≢ no_fuel
  verdict-ne-no_fuel (done c) n h = cc
  verdict-ne-no_fuel (found s d) n h = cc
  verdict-ne-no_fuel out_of_fuel n h = n refl

  validate_dag-cases :
      ((e : DagError) × (unknown_deps (step_names steps []) steps ≡ some e)
        × (validate_dag steps ≡ invalid e))
      ⊎ (AllKnown steps × (validate_dag steps ≡ verdict search))
  unfolding validate_dag
  validate_dag-cases = elim (Option-cases (unknown_deps (step_names steps []) steps)) [
    | inl fine ↦ inr (unknown-none_iff.0 fine, rw (fine, validate_dag))
    | inr (e, bad) ↦ inl (e, bad, rw (bad, validate_dag))
  ]

-- The search always ends within its fuel: `ValidateDAG` returns for every list of steps.
pub validate_dag-ne-no_fuel : (steps : List ArkFlowStep) → validate_dag steps ≢ no_fuel
validate_dag-ne-no_fuel steps h = elim (validate_dag-cases steps) [
  | inl (e, bad, is) ↦ cc
  | inr (known, is) ↦
      verdict-ne-no_fuel steps (search steps)
        (search_all-ne-out_of_fuel steps (adj steps)
          (λ d x e. known d x (Dep-DependsOn steps d x e)))
        (sym is ∙ h)
]

-- The two ways to explain a refusal.
abbrev pub Explains : List ArkFlowStep → DagError → Type 0
Explains steps (unknown_step s d) = DependsOn steps d s × ¬ Known steps d
Explains steps (cycle s d) = Cycle (DependsOn steps) s d

-- A refusal is right: an unknown name is a dependency of the step reported and names no step, and
-- the two ends of a reported cycle are a step and its dependency, from which the dependencies lead
-- back to the step.
pub validate_dag-invalid :
    (steps : List ArkFlowStep) (e : DagError) → validate_dag steps ≡ invalid e → Explains steps e
validate_dag-invalid steps (unknown_step s d) h = elim (validate_dag-cases steps) [
  | inl (e, bad, is) ↦
      let (dep, name, same, on, gone) = unknown_deps_reports (step_names steps []) steps e bad in
      let d_is : dep ≡ d = cc in
      let s_is : name ≡ s = cc in
      (
        subst (DependsOn steps d) s_is (subst (λ y. DependsOn steps y name) d_is on),
        λ k. cc (gone, d_is, lookup-step_names-Known steps [] d k),
      )
  | inr (known, is) ↦ absurd (verdict-ne-unknown steps (search steps) s d (sym is ∙ h))
]
validate_dag-invalid steps (cycle s d) h = elim (validate_dag-cases steps) [
  | inl (e, bad, is) ↦
      let (dep, name, same, on, gone) = unknown_deps_reports (step_names steps []) steps e bad in
      absurd (cc)
  | inr (known, is) ↦
      let (edge, back) =
        AllOutcome-found steps (search steps) s d (search-AllOutcome steps) (sym is ∙ h) in
      (Dep-DependsOn steps d s edge, Leads-mono (Dep-DependsOn steps) back)
]

Verdict-cases :
    (v : Validation) → (v ≡ valid) ⊎ ((v ≡ no_fuel) ⊎ ((e : DagError) × (v ≡ invalid e)))
Verdict-cases valid = inl refl
Verdict-cases (invalid e) = inr (inr (e, refl))
Verdict-cases no_fuel = inr (inl refl)

-- An explained error contradicts a sound graph.
refuted :
    (steps : List ArkFlowStep) (e : DagError)
    → AllKnown steps
    → WellFounded (DependsOn steps)
    → ¬ Explains steps e
refuted steps (unknown_step s d) known grounded (on, gone) = gone (known d s on)
refuted steps (cycle s d) known grounded c = Acc-no-Cycle s (grounded.apply s) d c

-- Where no two steps share a name, a flow is accepted exactly if every dependency names a step and
-- the dependencies are well founded: no chain of them goes on for ever.
pub validate_dag-valid_iff :
    (steps : List ArkFlowStep)
    → UniqueNames steps
    → (validate_dag steps ≡ valid) ↔ (AllKnown steps × WellFounded (DependsOn steps))
validate_dag-valid_iff steps unique = (
  λ h. elim (validate_dag-cases steps) [
    | inl (e, bad, is) ↦ absurd (cc)
    | inr (known, is) ↦ (
      known,
      record {
        apply = λ x.
            Acc-mono (λ d y. DependsOn→Dep steps [] d y unique) x
              (AllOutcome-valid steps (search steps) (search-AllOutcome steps) (sym is ∙ h) x);
      },
    )
  ],
  λ (known, grounded). elim (Verdict-cases (validate_dag steps)) [
    | inl v ↦ v
    | inr (inl n) ↦ absurd (validate_dag-ne-no_fuel steps n)
    | inr (inr (e, i)) ↦ absurd (refuted steps e known grounded (validate_dag-invalid steps e i))
  ],
)
