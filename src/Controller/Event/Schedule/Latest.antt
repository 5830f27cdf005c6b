-- ===== src/Controller/Event/Schedule/Latest.antt =====
-- The instant that the loop finds.
use arkonis_operator.Prelude.{
  ℕ, zero, suc, ◌+◌, ◌-◌, ◌<◌, ◌≤◌, Option, none, some, ◌≡◌, inl, inr, refl, arith, true, false,
  ltb, Bool-cases, subst, sym, ◌∙◌,
}
use arkonis_operator.Api.Meta.{Time}
use arkonis_operator.Controller.Event.Schedule.{
  IsSchedule, day, lookback, step_forward, most_recent_schedule,
}

module _ (next : Time → Time) (schedule : IsSchedule next) where
  open schedule use {Fires, later, fires, least}

  -- The latest instant after `from` and not after `now`, or that there is none.
  abbrev pub IsLatest : Time → Time → Option Time → Type 0
  IsLatest from now none = (u : Time) → from < u → u ≤ now → ¬ Fires u
  IsLatest from now (some t) =
      Fires t × (from < t) × (t ≤ now) × ((u : Time) → Fires u → u ≤ now → u ≤ t)

  -- What holds of the instant found so far, at a turn of the loop.
  abbrev IsFound : Time → Time → Time → Option Time → Type 0
  IsFound from now t none = t ≡ from
  IsFound from now t (some u) = (u ≡ t) × Fires t × (from < t) × (t ≤ now)

  step_forward-ends :
      (from now t : Time) (last : Option Time)
      → IsFound from now t last
      → now < next t
      → IsLatest from now last
  step_forward-ends from now t none at past =
      λ u after before fire. omega (arith, least t u (omega arith) fire)
  step_forward-ends from now t (some u) (same, fire, after, before) past =
      subst (λ x. IsLatest from now (some x)) (sym same)
        (fire, after, before, λ v fire_v before_v. grind (arith, least t v))

  past-next : (now t : Time) → now ≤ t → ltb now (next t) ≡ true
  past-next now t late = ground (arith, later t)

  goes :
      (from now t : Time) (last : Option Time)
      → IsFound from now t last
      → ltb now (next t) ≡ false
      → IsFound from now (next t) (some (next t))
  goes from now t none at before = (refl, fires t, ground (arith, later t), ground arith)
  goes from now t (some u) (same, fire, after, at_most) before =
      (refl, fires t, ground (arith, later t), ground arith)

  step_forward-past :
      (now : Time) (fuel : ℕ) (t : Time) (last : Option Time)
      → ltb now (next t) ≡ true
      → step_forward next now (suc fuel) t last ≡ some last
  unfolding step_forward
  step_forward-past now fuel t last past = rw (past) refl

  step_forward-on :
      (now : Time) (fuel : ℕ) (t : Time) (last : Option Time)
      → ltb now (next t) ≡ false
      → step_forward next now (suc fuel) t last
        ≡ step_forward next now fuel (next t) (some (next t))
  unfolding step_forward
  step_forward-on now fuel t last on = rw (on) refl

  -- The loop from `t` ends, with the latest instant.
  step_forward-IsLatest :
      (from now : Time) (fuel : ℕ) (t : Time) (last : Option Time)
      → IsFound from now t last
      → now - t ≤ fuel
      → (r : Option Time) × (step_forward next now (suc fuel) t last ≡ some r) × IsLatest from now r
  step_forward-IsLatest from now zero t last found enough =
      let past = past-next now t (omega arith) in
      (
        last,
        step_forward-past now zero t last past,
        step_forward-ends from now t last found (ground arith),
      )
  step_forward-IsLatest from now (suc fuel) t last found enough =
      elim (Bool-cases (ltb now (next t))) [
        | inl past ↦ (
          last,
          step_forward-past now (suc fuel) t last past,
          step_forward-ends from now t last found (ground arith),
        )
        | inr on ↦
            let (r, runs, latest) =
              step_forward-IsLatest from now fuel (next t) (some (next t))
                (goes from now t last found on) (ground (arith, later t)) in
            (r, step_forward-on now (suc fuel) t last on ∙ runs, latest)
      ]

  lookback_late : (now : Time) (last_fired : Option Time) → now ≤ lookback now last_fired + day
  unfolding lookback
  lookback_late now none = omega arith
  lookback_late now (some fired) = ground arith

  -- For a schedule whose `next` is the first instant after a time, mostRecentSchedule returns, and what it
  -- returns is the latest instant of the schedule up to now, and after the last fire and the last day,
  -- or nil where there is none.
  pub most_recent_schedule-IsLatest :
      (now : Time) (last_fired : Option Time)
      → (r : Option Time) × (most_recent_schedule next now last_fired ≡ some r)
        × IsLatest (lookback now last_fired) now r
  unfolding most_recent_schedule
  most_recent_schedule-IsLatest now last_fired =
      step_forward-IsLatest (lookback now last_fired) now day (lookback now last_fired) none refl
        (omega (arith, lookback_late now last_fired))
