-- ===== src/Flow/Dag/Graph.antt =====
-- The dependency graph that `adjacency` holds, and what a search may do to the colors.
use mathlib.Core.WellFounded.{Acc}
use arkonis_operator.Prelude.{
  String, List, ◌≡◌, subst, inl, inr, arith, Member, Bool-cases, ◌==◌, eq_iff, if◌then◌else◌,
}
use arkonis_operator.Prelude.Map.{Map, insert, lookup_or-insert}
use arkonis_operator.Flow.Dag.{Color, white, gray, black, color_of, deps_of}

-- `name` depends on `dep`.
abbrev pub Dep : Map (List String) → String → String → Type 0
Dep adj dep name = Member dep (deps_of adj name)

-- `name` reaches `last` along the dependencies `D`.
pub data Leads (D : String → String → Type 0) (name : String) : String → Type 0 where
  here : Leads D name name
  next : {mid last : String} → Leads D name mid → D last mid → Leads D name last

-- `name` depends on `dep`, from which the dependencies lead back to `name`.
abbrev pub Cycle : (String → String → Type 0) → String → String → Type 0
Cycle D name dep = D dep name × Leads D dep name

abbrev pub IsGrounded : Map (List String) → Map Color → Type 0
IsGrounded adj c = (x : String) → color_of c x ≡ black → Acc (Dep adj) x

-- The colors after a search that found no cycle.
pub record Finished (adj : Map (List String)) (c c' : Map Color) : Type 0 where
  pub black_stays : (x : String) → color_of c x ≡ black → color_of c' x ≡ black
  pub gray_back : (x : String) → color_of c' x ≡ gray → color_of c x ≡ gray
  pub white_back : (x : String) → color_of c' x ≡ white → color_of c x ≡ white
  pub grounded : IsGrounded adj c → IsGrounded adj c'

pub Finished-refl : (adj : Map (List String)) (c : Map Color) → Finished adj c c
Finished-refl adj c = record {
  black_stays = λ x h. h;
  gray_back = λ x h. h;
  white_back = λ x h. h;
  grounded = λ h. h;
}

pub Finished-trans :
    {adj : Map (List String)} {a b c : Map Color}
    → Finished adj a b
    → Finished adj b c
    → Finished adj a c
Finished-trans f g = record {
  black_stays = λ x h. g.black_stays x (f.black_stays x h);
  gray_back = λ x h. f.gray_back x (g.gray_back x h);
  white_back = λ x h. f.white_back x (g.white_back x h);
  grounded = λ h. g.grounded (f.grounded h);
}

pub color_of-insert :
    (k x : String) (v : Color) (c : Map Color)
    → color_of (insert k v c) x ≡ (if k == x then v else color_of c x)
unfolding color_of
color_of-insert k x v c = lookup_or-insert white k x v c

-- Painting a name that is not black: the blacks and the other grays stay.
pub color_of-insert_self : (k : String) (v : Color) (c : Map Color) → color_of (insert k v c) k ≡ v
color_of-insert_self k v c = ground (arith, color_of-insert k k v c, eq_iff k k)

-- `name` turns black when all of its dependencies are black.
pub Finished-blacken :
    (adj : Map (List String)) (c : Map Color) (name : String)
    → ((d : String) → Dep adj d name → color_of c d ≡ black)
    → Finished adj c (insert name black c)
Finished-blacken adj c name deps_black = record {
  black_stays = λ x h. ground (arith, color_of-insert name x black c);
  gray_back = λ x h. ground (arith, color_of-insert name x black c);
  white_back = λ x h. ground (arith, color_of-insert name x black c);
  grounded = λ g x h. elim (Bool-cases (name == x)) [
    | inl same ↦
        subst (Acc (Dep adj)) ((eq_iff name x).0 same)
          (Acc.intro name (λ d dep. g d (deps_black d dep)))
    | inr other ↦ g x (ground (arith, color_of-insert name x black c))
  ];
}
