-- ===== src/Controller/Event/Fire/Inputs.antt =====
-- internal/controller/arkevent_controller.go: the inputs of a flow that a trigger creates.
use arkonis_operator.Prelude.{
  String, none, some, List, [], ◌∷◌, ◌≡◌, ◌≢◌, ◌⊎◌, inl, inr, refl, sym, ap, ◌∙◌, arith, Bool-cases,
  All, ◌==◌, eq_iff,
}
use arkonis_operator.Prelude.Map.{Map, lookup, insert, lookup-insert}
use arkonis_operator.Api.Meta.{Result, ok, err, ok_inj}
use arkonis_operator.Controller.AgentWatch.{AllDifferent}
use arkonis_operator.Controller.Event.Fire.{
  FireContext, TriggerLibrary, resolve_overrides, resolve_trigger_template, override,
}

abbrev pub keys : Map String → List String
keys [] = []
keys ((key, _) ∷ m) = key ∷ keys m

lookup-none : (key : String) (m : Map String) → All (λ k. k ≢ key) (keys m) → lookup key m ≡ none
unfolding lookup
lookup-none key [] new = refl
lookup-none key ((other, val) ∷ m) new = ground (arith, eq_iff other key, lookup-none key m new.1)

module _ (lib : TriggerLibrary) (context : FireContext lib.Body) where
  -- What the input of `key` is, from the overrides and the inputs of the template.
  abbrev pub IsInput : Map String → Map String → Map String → String → Type 0
  IsInput overrides resolved input key =
      ((lookup key overrides ≡ none) × (lookup key input ≡ lookup key resolved))
      ⊎ ((expr : String) × (val : String) × (lookup key overrides ≡ some expr)
          × (resolve_trigger_template lib context expr ≡ ok val)
          × (lookup key input ≡ some val))

  override-ok :
      (key : String) (r : Result String) (go : Map String → Result (Map String))
      (resolved input : Map String)
      → override lib key r go resolved ≡ ok input
      → (val : String) × (r ≡ ok val) × (go (insert key val resolved) ≡ ok input)
  override-ok key (ok val) go resolved input runs = (val, refl, runs)
  override-ok key (err e) go resolved input runs = cc runs

  -- The inputs that later overrides leave are those of the first override, or those before it.
  IsInput-skip :
      (name expr val : String) (overrides resolved input : Map String) (key : String)
      → All (λ k. k ≢ name) (keys overrides)
      → resolve_trigger_template lib context expr ≡ ok val
      → IsInput overrides (insert name val resolved) input key
      → IsInput ((name, expr) ∷ overrides) resolved input key
  unfolding lookup
  IsInput-skip name expr val overrides resolved input key new value (inl (fresh, same)) =
      elim (Bool-cases (name == key)) [
        | inl here ↦ inr (
          expr,
          val,
          ground arith,
          value,
          same ∙ ground (arith, lookup-insert name key val resolved),
        )
        | inr other ↦ inl (ground arith, same ∙ ground (arith, lookup-insert name key val resolved))
      ]
  IsInput-skip name expr val overrides resolved input key new value
        (inr (e, v, there, good, same)) =
      elim (Bool-cases (name == key)) [
        | inl here ↦ ground (arith, eq_iff name key, lookup-none name overrides new)
        | inr other ↦ inr (e, v, ground arith, good, same)
      ]

  pub resolve_overrides-IsInput :
      (overrides resolved input : Map String)
      → AllDifferent (keys overrides)
      → resolve_overrides lib context overrides resolved ≡ ok input
      → (key : String) → IsInput overrides resolved input key
  unfolding resolve_overrides lookup
  resolve_overrides-IsInput [] resolved input different runs key =
      inl (refl, ap (lookup key) (sym (ok_inj runs)))
  resolve_overrides-IsInput ((name, expr) ∷ overrides) resolved input different runs key =
      let (val, value, rest) =
        override-ok name (resolve_trigger_template lib context expr)
          (resolve_overrides lib context overrides) resolved input runs in
      IsInput-skip name expr val overrides resolved input key different.0 value
        (resolve_overrides-IsInput overrides (insert name val resolved) input different.1 rest key)
