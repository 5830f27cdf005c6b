-- ===== src/Flow/Dag/Fuel.antt =====
-- The fuel of the search is enough: each nested call paints one more step gray.
use arkonis_operator.Prelude.{
  ℕ, zero, suc, ◌≤◌, ◌<◌, String, List, [], ◌∷◌, ◌≡◌, ◌≢◌, refl, sym, ap, ◌∙◌, subst, inl, inr,
  arith, Member, total, length, eq_iff,
}
use arkonis_operator.Prelude.Map.{Map, insert}
use arkonis_operator.Api.Flow.{ArkFlowStep}
use arkonis_operator.Flow.Dag.{
  Color, white, gray, color_of, deps_of, Search, done, found, out_of_fuel, and_then, visit, dfs,
  search_all,
}
use arkonis_operator.Flow.Dag.Graph.{Dep, next, Finished, color_of-insert}
use arkonis_operator.Flow.Dag.Acyclic.{
  Stack, Stack-paint, Outcome, dfs-Outcome, NoGray, Color-cases,
}

-- A step has this name.
abbrev pub Known : List ArkFlowStep → String → Type 0
Known steps d = (step : ArkFlowStep) × Member step steps × (step.name ≡ d)

abbrev weight : Color → ℕ
weight white = 1
weight _ = 0

-- The number of steps that are still white.
whites : List ArkFlowStep → Map Color → ℕ
whites steps c = total (λ s. weight (color_of c s.name)) steps

whites_mono :
    (steps : List ArkFlowStep) (c c' : Map Color)
    → ((x : String) → color_of c' x ≡ white → color_of c x ≡ white)
    → whites steps c' ≤ whites steps c
unfolding whites
whites_mono [] c c' h = omega arith
whites_mono (s ∷ ss) c c' h = ground (arith, h s.name, whites_mono ss c c' h)

whites-paint-le :
    (steps : List ArkFlowStep) (c : Map Color) (name : String)
    → whites steps (insert name gray c) ≤ whites steps c
whites-paint-le steps c name =
    whites_mono steps c (insert name gray c) (λ x h. ground (arith, color_of-insert name x gray c))

whites-paint :
    (steps : List ArkFlowStep) (c : Map Color) (name : String)
    → Known steps name
    → color_of c name ≡ white
    → whites steps (insert name gray c) < whites steps c
unfolding whites
whites-paint [] c name (s, m, e) w = absurd m
whites-paint (t ∷ ts) c name (s, inl same, e) w =
    let named : name ≡ t.name = sym (ap (λ u. u.name) same ∙ e) in
    let was : color_of c t.name ≡ white = subst (λ x. color_of c x ≡ white) named w in
    ground
      (arith, eq_iff name t.name, color_of-insert name t.name gray c, whites-paint-le ts c name)
whites-paint (t ∷ ts) c name (s, inr m, e) w =
    ground (arith, whites-paint ts c name (s, m, e) w, color_of-insert name t.name gray c)

module _ (steps : List ArkFlowStep) (adj : Map (List String))
    (closed : (d x : String) → Dep adj d x → Known steps d) where
  and_then-total :
      (c : Map Color) (dep : String) (r : Search) (k : Map Color → Search)
      → r ≢ out_of_fuel
      → Outcome adj c dep r
      → ((c' : Map Color) → Finished adj c c' → k c' ≢ out_of_fuel)
      → and_then r k ≢ out_of_fuel
  and_then-total c dep (done c') k n h rest = rest c' h.0
  and_then-total c dep (found s d) k n h rest = λ e. cc
  and_then-total c dep out_of_fuel k n h rest = absurd (n refl)

  visit-total :
      (fuel : ℕ) (name : String) (deps : List String) (c : Map Color)
      → ((dep : String) (c' : Map Color)
          → Known steps dep
          → color_of c' dep ≡ white
          → Stack adj c' dep
          → whites steps c' ≤ fuel
          → dfs adj fuel dep c' ≢ out_of_fuel)
      → Stack adj c name
      → ((d : String) → Member d deps → Dep adj d name)
      → whites steps c ≤ fuel
      → visit (dfs adj fuel) name deps c ≢ out_of_fuel
  unfolding visit
  visit-total fuel name [] c go st sub small = λ e. cc
  visit-total fuel name (dep ∷ deps) c go st sub small = elim (Color-cases (color_of c dep)) [
    | inl w ↦
        let below : Stack adj c dep = λ x g. next (st x g) (sub dep (inl refl)) in
        rw (w, visit)
          (and_then-total c dep (dfs adj fuel dep c) (λ c'. visit (dfs adj fuel) name deps c')
            (go dep c (closed dep name (sub dep (inl refl))) w below small)
            (dfs-Outcome adj fuel dep c w below)
            λ c' f.
              visit-total fuel name deps c' go (λ x g. st x (f.gray_back x g))
                (λ d m. sub d (inr m)) (omega (arith, whites_mono steps c c' f.white_back)))
    | inr (inl g) ↦ rw (g, visit) (λ e. cc)
    | inr (inr b) ↦ rw (b, visit) (visit-total fuel name deps c go st (λ d m. sub d (inr m)) small)
  ]

  dfs-total :
      (fuel : ℕ) (name : String) (c : Map Color)
      → Known steps name
      → color_of c name ≡ white
      → Stack adj c name
      → whites steps c ≤ fuel
      → dfs adj fuel name c ≢ out_of_fuel
  unfolding dfs
  dfs-total zero name c k w st small = absurd (omega (arith, whites-paint steps c name k w))
  dfs-total (suc fuel) name c k w st small =
      visit-total fuel name (deps_of adj name) (insert name gray c)
        (λ dep c'. dfs-total fuel dep c') (Stack-paint adj c name st) (λ d m. m)
        (omega (arith, whites-paint steps c name k w))

  search_all-total :
      (fuel : ℕ) (rest : List ArkFlowStep) (c : Map Color)
      → ((s : ArkFlowStep) → Member s rest → Member s steps)
      → NoGray c
      → whites steps c ≤ fuel
      → search_all adj fuel rest c ≢ out_of_fuel
  unfolding search_all
  search_all-total fuel [] c sub n small = λ e. cc
  search_all-total fuel (step ∷ rest) c sub n small = elim (Color-cases (color_of c step.name)) [
    | inl w ↦
        let st : Stack adj c step.name = λ x g. absurd (n x g) in
        rw (w, search_all)
          (and_then-total c step.name (dfs adj fuel step.name c) (λ c'. search_all adj fuel rest c')
            (dfs-total fuel step.name c (step, sub step (inl refl), refl) w st small)
            (dfs-Outcome adj fuel step.name c w st)
            λ c' f.
              search_all-total fuel rest c' (λ s m. sub s (inr m)) (λ x g. n x (f.gray_back x g))
                (omega (arith, whites_mono steps c c' f.white_back)))
    | inr (inl g) ↦ absurd (n step.name g)
    | inr (inr b) ↦ rw (b, search_all) (search_all-total fuel rest c (λ s m. sub s (inr m)) n small)
  ]

whites-le : (steps : List ArkFlowStep) (c : Map Color) → whites steps c ≤ length steps
unfolding whites
whites-le [] c = omega arith
whites-le (s ∷ ss) c = ground (arith, whites-le ss c)

-- The number of steps is enough fuel for the whole search.
pub search_all-ne-out_of_fuel :
    (steps : List ArkFlowStep) (adj : Map (List String))
    → ((d x : String) → Dep adj d x → Known steps d)
    → search_all adj (length steps) steps [] ≢ out_of_fuel
unfolding color_of
search_all-ne-out_of_fuel steps adj closed =
    search_all-total steps adj closed (length steps) steps [] (λ s m. m) (λ x g. cc)
      (whites-le steps [])
