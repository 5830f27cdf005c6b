-- ===== src/Prelude/Map.antt =====
-- A Go map with string keys, as an association list in insertion order: `m[k] = v` is `insert`, and
-- `v, ok := m[k]` is `lookup`.
use Prim.Native.String.{String}
use mathlib.Core.Path.{◌≡◌, refl}
use mathlib.Core.Option.{Option, none, some}
use mathlib.Core.List.{List, [], ◌∷◌}
use native.Mathlib.Omega.{arith}
use text.Mathlib.Text.{◌==◌}
use text.Mathlib.TextEquality.{eq_iff}
use arkonis_operator.Prelude.Tests.{if◌then◌else◌}

abbrev pub Map {ℓ} : Type ℓ → Type ℓ
Map V = List (String × V)

module _ {ℓ} {V : Type ℓ} where
  unfoldable pub lookup : String → Map V → Option V
  lookup key [] = none
  lookup key ((other, val) ∷ m) = let rest = lookup key m in if other == key then some val else rest

  unfoldable pub insert : String → V → Map V → Map V
  insert key val [] = (key, val) ∷ []
  insert key val ((other, old) ∷ m) =
      let rest = insert key val m in if other == key then (key, val) ∷ m else (other, old) ∷ rest

  -- `m[k]` where the zero value of the type is `z`.
  unfoldable pub lookup_or : V → String → Map V → V
  unfolding lookup
  lookup_or z key m = elim (lookup key m) [ none ↦ z | some val ↦ val ]

  pub lookup-insert :
      (key other : String) (val : V) (m : Map V)
      → lookup other (insert key val m) ≡ (if key == other then some val else lookup other m)
  unfolding lookup insert
  lookup-insert key other val [] = refl
  lookup-insert key other val ((name, old) ∷ m) =
      ground
        (arith, eq_iff key other, eq_iff name key, eq_iff name other, lookup-insert key other val m)

  pub lookup_or-insert :
      (z : V) (key other : String) (val : V) (m : Map V)
      → lookup_or z other (insert key val m) ≡ (if key == other then val else lookup_or z other m)
  unfolding lookup_or
  lookup_or-insert z key other val m = ground (arith, lookup-insert key other val m)
