-- ===== src/Flow/Dag/Acyclic.antt =====
-- What a search of the dependency graph returns: a graph with no cycle, or a cycle.
use arkonis_operator.Prelude.{
  ℕ, zero, suc, String, List, [], ◌∷◌, ◌≡◌, ◌≢◌, refl, subst, ◌⊎◌, inl, inr, arith, Member, All,
  Bool-cases, ◌==◌, eq_iff,
}
use arkonis_operator.Prelude.Map.{Map, insert}
use arkonis_operator.Api.Flow.{ArkFlowStep}
use arkonis_operator.Flow.Dag.{
  Color, white, gray, black, color_of, deps_of, Search, done, found, out_of_fuel, and_then, visit,
  dfs, search_all,
}
use arkonis_operator.Flow.Dag.Graph.{
  Dep, Leads, here, next, Cycle, Finished, Finished-refl, Finished-trans, Finished-blacken,
  color_of-insert, color_of-insert_self,
}

-- All gray names lead to `name`: they are the names whose search is under way.
abbrev pub Stack : Map (List String) → Map Color → String → Type 0
Stack adj c name = (x : String) → color_of c x ≡ gray → Leads (Dep adj) x name

-- What a search below `name` from the colors `c` shows, by its result.
abbrev pub Outcome : Map (List String) → Map Color → String → Search → Type 0
Outcome adj c name (done c') = Finished adj c c' × (color_of c' name ≡ black)
Outcome adj c name (found s d) = Cycle (Dep adj) s d
Outcome adj c name out_of_fuel = Unit

pub Color-cases : (k : Color) → (k ≡ white) ⊎ ((k ≡ gray) ⊎ (k ≡ black))
Color-cases white = inl refl
Color-cases gray = inr (inl refl)
Color-cases black = inr (inr refl)

Outcome-and_then :
    (adj : Map (List String)) (c : Map Color) (dep name : String) (r : Search)
    (k : Map Color → Search)
    → Outcome adj c dep r
    → ((c' : Map Color) → Finished adj c c' → color_of c' dep ≡ black → Outcome adj c' name (k c'))
    → Outcome adj c name (and_then r k)
Outcome-and_then adj c dep name (done c') k (f, b) rest = after (k c') (rest c' f b)
  where
    after : (r : Search) → Outcome adj c' name r → Outcome adj c name r
    after (done c'') h = (Finished-trans f h.0, h.1)
    after (found s d) h = h
    after out_of_fuel h = h
Outcome-and_then adj c dep name (found s d) k h rest = h
Outcome-and_then adj c dep name out_of_fuel k h rest = h

-- One more dependency of `name` is black.
cover_tail :
    (adj : Map (List String)) (name : String) (c c' : Map Color) (dep : String) (deps : List String)
    → color_of c' dep ≡ black
    → ((x : String) → color_of c x ≡ black → color_of c' x ≡ black)
    → ((d : String) → Dep adj d name → (color_of c d ≡ black) ⊎ Member d (dep ∷ deps))
    → (d : String) → Dep adj d name
    → (color_of c' d ≡ black) ⊎ Member d deps
cover_tail adj name c c' dep deps painted stays cover d e = elim (cover d e) [
  | inl b ↦ inl (stays d b)
  | inr (inl same) ↦ inl (subst (λ x. color_of c' x ≡ black) same painted)
  | inr (inr m) ↦ inr m
]

module _ (adj : Map (List String)) (go : String → Map Color → Search) (name : String)
    (go_outcome : (dep : String) (c : Map Color)
      → color_of c dep ≡ white
      → Stack adj c dep
      → Outcome adj c dep (go dep c)) where
  -- The loop over the dependencies: those before `deps` are black already.
  visit-Outcome :
      (deps : List String) (c : Map Color)
      → Stack adj c name
      → ((d : String) → Member d deps → Dep adj d name)
      → ((d : String) → Dep adj d name → (color_of c d ≡ black) ⊎ Member d deps)
      → Outcome adj c name (visit go name deps c)
  unfolding visit
  visit-Outcome [] c st sub cover = (
    Finished-blacken adj c name (λ d e. elim (cover d e) [ inl b ↦ b | inr m ↦ absurd m ]),
    color_of-insert_self name black c,
  )
  visit-Outcome (dep ∷ deps) c st sub cover = elim (Color-cases (color_of c dep)) [
    | inl w ↦
        rw (w, visit)
          (Outcome-and_then adj c dep name (go dep c) (λ c'. visit go name deps c')
            (go_outcome dep c w (λ x e. next (st x e) (sub dep (inl refl))))
            λ c' f painted.
              visit-Outcome deps c' (λ x e. st x (f.gray_back x e)) (λ d m. sub d (inr m))
                (cover_tail adj name c c' dep deps painted f.black_stays cover))
    | inr (inl e) ↦ rw (e, visit) (sub dep (inl refl), st dep e)
    | inr (inr b) ↦
        rw (b, visit)
          (visit-Outcome deps c st (λ d m. sub d (inr m))
            (cover_tail adj name c c dep deps b (λ x k. k) cover))
  ]

-- Painting a white name gray, and searching below it.
Outcome-paint :
    (adj : Map (List String)) (c : Map Color) (name : String) (r : Search)
    → color_of c name ≡ white
    → Outcome adj (insert name gray c) name r
    → Outcome adj c name r
Outcome-paint adj c name (found s d) w h = h
Outcome-paint adj c name out_of_fuel w h = h
Outcome-paint adj c name (done c') w (f, b) = (
  record {
    black_stays =
        λ x h. f.black_stays x (ground (arith, color_of-insert name x gray c, eq_iff name x));
    gray_back =
        λ x h. ground (arith, f.gray_back x h, color_of-insert name x gray c, eq_iff name x);
    white_back = λ x h. ground (arith, f.white_back x h, color_of-insert name x gray c);
    grounded = λ g. f.grounded λ x h. g x (ground (arith, color_of-insert name x gray c));
  },
  b,
)

pub Stack-paint :
    (adj : Map (List String)) (c : Map Color) (name : String)
    → Stack adj c name
    → Stack adj (insert name gray c) name
Stack-paint adj c name st x h = elim (Bool-cases (name == x)) [
  | inl same ↦ subst (λ y. Leads (Dep adj) y name) ((eq_iff name x).0 same) here
  | inr other ↦ st x (ground (arith, color_of-insert name x gray c))
]

pub dfs-Outcome :
    (adj : Map (List String)) (fuel : ℕ) (name : String) (c : Map Color)
    → color_of c name ≡ white
    → Stack adj c name
    → Outcome adj c name (dfs adj fuel name c)
unfolding dfs
dfs-Outcome adj zero name c w st = tt
dfs-Outcome adj (suc fuel) name c w st =
    Outcome-paint adj c name (visit (dfs adj fuel) name (deps_of adj name) (insert name gray c)) w (
      visit-Outcome adj (dfs adj fuel) name (λ dep c'. dfs-Outcome adj fuel dep c')
        (deps_of adj name) (insert name gray c) (Stack-paint adj c name st) (λ d m. m)
        (λ d e. inr e))

-- No name is gray: no search is under way.
abbrev pub NoGray : Map Color → Type 0
NoGray c = (x : String) → color_of c x ≢ gray

-- What the searches from all steps show: with no cycle, every step is black.
abbrev pub AllOutcome : Map (List String) → Map Color → List ArkFlowStep → Search → Type 0
AllOutcome adj c steps (done c') = Finished adj c c' × All (λ s. color_of c' s.name ≡ black) steps
AllOutcome adj c steps (found s d) = Cycle (Dep adj) s d
AllOutcome adj c steps out_of_fuel = Unit

module _ (adj : Map (List String)) (fuel : ℕ) where
  AllOutcome-cons :
      (step : ArkFlowStep) (steps : List ArkFlowStep) (c c' : Map Color) (r : Search)
      → Finished adj c c'
      → color_of c' step.name ≡ black
      → AllOutcome adj c' steps r
      → AllOutcome adj c (step ∷ steps) r
  AllOutcome-cons step steps c c' (done c'') f b (g, all) =
      (Finished-trans f g, (g.black_stays step.name b, all))
  AllOutcome-cons step steps c c' (found s d) f b h = h
  AllOutcome-cons step steps c c' out_of_fuel f b h = h

  AllOutcome-and_then :
      (step : ArkFlowStep) (steps : List ArkFlowStep) (c : Map Color) (r : Search)
      → Outcome adj c step.name r
      → ((c' : Map Color)
          → Finished adj c c'
          → AllOutcome adj c' steps (search_all adj fuel steps c'))
      → AllOutcome adj c (step ∷ steps) (and_then r (λ c'. search_all adj fuel steps c'))
  AllOutcome-and_then step steps c (done c') (f, b) rest =
      AllOutcome-cons step steps c c' (search_all adj fuel steps c') f b (rest c' f)
  AllOutcome-and_then step steps c (found s d) h rest = h
  AllOutcome-and_then step steps c out_of_fuel h rest = h

  pub search_all-AllOutcome :
      (steps : List ArkFlowStep) (c : Map Color)
      → NoGray c
      → AllOutcome adj c steps (search_all adj fuel steps c)
  unfolding search_all
  search_all-AllOutcome [] c n = (Finished-refl adj c, tt)
  search_all-AllOutcome (step ∷ steps) c n = elim (Color-cases (color_of c step.name)) [
    | inl w ↦
        rw (w, search_all)
          (AllOutcome-and_then step steps c (dfs adj fuel step.name c)
            (dfs-Outcome adj fuel step.name c w (λ x e. absurd (n x e)))
            (λ c' f. search_all-AllOutcome steps c' (λ x e. n x (f.gray_back x e))))
    | inr (inl e) ↦ absurd (n step.name e)
    | inr (inr b) ↦
        rw (b, search_all)
          (AllOutcome-cons step steps c c (search_all adj fuel steps c) (Finished-refl adj c) b
            (search_all-AllOutcome steps c n))
  ]
