-- ===== src/Controller/Event/Due/Fires.antt =====
-- internal/controller/arkevent_controller.go: when `reconcileCron` fires.
use arkonis_operator.Prelude.{
  ◌-◌, ◌<◌, ◌≤◌, Bool, true, false, Option, none, some, ◌≡◌, ◌↔◌, ◌⊎◌, inl, inr, [], Option-cases,
  refl, ap, arith, ◌==◌,
}
use arkonis_operator.Api.Meta.{Time, Message, ok, err}
use arkonis_operator.Api.Event.{ArkEvent}
use arkonis_operator.Controller.Event.Schedule.{Cron, IsSchedule, day, lookback}
use arkonis_operator.Controller.Event.Schedule.Latest.{IsLatest, most_recent_schedule-IsLatest}
use arkonis_operator.Controller.Event.Fire.{TriggerLibrary, Fired, fire}
use arkonis_operator.Controller.Event.Status.{
  EventCluster, EventPass, set_condition, count_fire, after_fire, fire_context,
}
use arkonis_operator.Prelude.Words.{add64}
use arkonis_operator.Controller.Event.Due.{
  should_fire, store_next, cron_pass, with_schedule, parsed, reconcile_cron,
}

abbrev pub IsAfter : Option Time → Time → Type 0
IsAfter none t = Unit
IsAfter (some fired) t = fired < t

module _ (next : Time → Time) (schedule : IsSchedule next) where
  open schedule use {Fires}

  -- An instant of the schedule in the last day, up to now, and after the last fire.
  abbrev pub IsDue : Time → Option Time → Type 0
  IsDue now last_fired = (t : Time) × Fires t × (now - day < t) × (t ≤ now) × IsAfter last_fired t

  lookback-IsAfter :
      (now : Time) (last_fired : Option Time) (t : Time)
      → lookback now last_fired < t
      → (now - day < t) × IsAfter last_fired t
  unfolding lookback
  lookback-IsAfter now none t after = (after, tt)
  lookback-IsAfter now (some fired) t after = (ground arith, ground arith)

  IsAfter-lookback :
      (now : Time) (last_fired : Option Time) (t : Time)
      → now - day < t
      → IsAfter last_fired t
      → lookback now last_fired < t
  unfolding lookback
  IsAfter-lookback now none t recent after = recent
  IsAfter-lookback now (some fired) t recent after = ground arith

  should_fire-true :
      (t : Time) (last_fired : Option Time)
      → IsAfter last_fired t
      → should_fire (some t) last_fired ≡ true
  unfolding should_fire
  should_fire-true t none after = refl
  should_fire-true t (some fired) after = ground arith

  should_fire-IsDue :
      (now : Time) (last_fired r : Option Time)
      → IsLatest next schedule (lookback now last_fired) now r
      → (should_fire r last_fired ≡ true) ↔ IsDue now last_fired
  unfolding should_fire
  should_fire-IsDue now last_fired none latest = (
    (λ due. cc due),
    (λ (t, fire, recent, before, after).
        absurd (latest t (IsAfter-lookback now last_fired t recent after) before fire)),
  )
  should_fire-IsDue now last_fired (some t) (fire, after, before, rest) =
      let (recent, later) = lookback-IsAfter now last_fired t after in
      ((λ due. (t, fire, recent, before, later)), (λ due. should_fire-true t last_fired later))

-- The status after a fire without an error: its time and its count. After an error it is not written.
abbrev pub IsCounted : Time → ArkEvent → Option Message → EventPass → Type 0
IsCounted now event none pass =
    (pass.event.status.last_fired_at ≡ some now)
    × (pass.event.status.fired_count ≡ add64 event.status.fired_count 1)
IsCounted now event (some e) pass = (pass.event ≡ event) × (pass.result ≡ err e)

-- Nothing is fired.
abbrev pub IsQuiet : ArkEvent → EventPass → Type 0
IsQuiet event pass =
    (pass.created ≡ [])
    × (pass.event.status.last_fired_at ≡ event.status.last_fired_at)
    × (pass.event.status.fired_count ≡ event.status.fired_count)

module _ (lib : TriggerLibrary) (cron : Cron) (cluster : EventCluster) (event : ArkEvent) where
  -- The fire of the trigger at the time of the reconcile.
  abbrev pub cron_fire : Fired
  cron_fire = fire lib cluster.fires event (fire_context lib event cluster.now "")

  after_fire-IsCounted :
      (fired : Fired) (t : Time)
      → let stored = store_next lib cron cluster event t (count_fire cluster.now event) in
        let pass = after_fire event fired.created fired.error stored in
        (pass.created ≡ fired.created) × IsCounted cluster.now event fired.error pass
  unfolding store_next count_fire set_condition
  after_fire-IsCounted fired t = elim (Option-cases fired.error) [
    | inl fine ↦ rw fine (refl, (refl, refl))
    | inr (e, fails) ↦ rw fails (refl, (refl, refl))
  ]

  cron_pass-fires :
      (t : Time)
      → let pass = cron_pass lib cron cluster event true t in
        (pass.created ≡ cron_fire.created) × IsCounted cluster.now event cron_fire.error pass
  unfolding cron_pass
  cron_pass-fires t = after_fire-IsCounted cron_fire t

  cron_pass-IsQuiet : (t : Time) → IsQuiet event (cron_pass lib cron cluster event false t)
  unfolding cron_pass store_next set_condition
  cron_pass-IsQuiet t = (refl, refl, refl)

  module _ (expression : cron.Expression) (schedule : IsSchedule (cron.next expression)) where
    -- The reconcile fires where the schedule is due, and does nothing of a fire where it is not.
    abbrev pub FiresWhenDue : EventPass → Type 0
    FiresWhenDue pass =
        let due = IsDue (cron.next expression) schedule cluster.now event.status.last_fired_at in
        (due
          × (pass.created ≡ cron_fire.created)
          × IsCounted cluster.now event cron_fire.error pass)
        ⊎ ((¬ due) × IsQuiet event pass)

    cron_pass-FiresWhenDue :
        (due : Bool) (t : Time)
        → ((due ≡ true)
            ↔ IsDue (cron.next expression) schedule cluster.now event.status.last_fired_at)
        → FiresWhenDue (cron_pass lib cron cluster event due t)
    cron_pass-FiresWhenDue true t (is_due, _) =
        let (made, counted) = cron_pass-fires t in inl (is_due refl, made, counted)
    cron_pass-FiresWhenDue false t (_, back) = inr ((λ due. cc (back due)), cron_pass-IsQuiet t)

    parsed-FiresWhenDue :
        (pass : EventPass) × (parsed lib cron cluster event (ok expression) ≡ some pass)
        × FiresWhenDue pass
    parsed-FiresWhenDue =
        let fired = event.status.last_fired_at in
        let next = cron.next expression cluster.now in
        let (r, found, latest) =
          most_recent_schedule-IsLatest (cron.next expression) schedule cluster.now fired in
        (
          cron_pass lib cron cluster event (should_fire r fired) next,
          ap (λ o. with_schedule lib cron cluster event o next) found,
          cron_pass-FiresWhenDue (should_fire r fired) next
              (should_fire-IsDue (cron.next expression) schedule cluster.now fired r latest),
        )

    -- For a trigger whose cron expression parses to a schedule, reconcileCron returns. Where the schedule has an
    -- instant in the last day, up to now, and after the last fire, it creates the flows of a fire and,
    -- without an error of the fire, stores its time and counts it; where it has none, it creates no
    -- flow and keeps the time and the count.
    pub reconcile_cron-FiresWhenDue :
        (event.spec.source.cron == "") ≡ false
        → cron.parse event.spec.source.cron ≡ ok expression
        → (pass : EventPass) × (reconcile_cron lib cron cluster event ≡ some pass)
          × FiresWhenDue pass
    unfolding reconcile_cron
    reconcile_cron-FiresWhenDue full parses = rw (full, parses, reconcile_cron) parsed-FiresWhenDue
