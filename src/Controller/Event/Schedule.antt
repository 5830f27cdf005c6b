-- ===== src/Controller/Event/Schedule.antt =====
-- internal/controller/arkevent_controller.go: `mostRecentSchedule`. The library of cron expressions
-- (github.com/robfig/cron) is a parameter. The instant 0 is Go's zero time, which `next` returns for a
-- schedule that it finds no instant of.
pub mod Latest
pub mod Endless
use arkonis_operator.Prelude.{
  ℕ, zero, suc, ◌-◌, ◌<◌, ◌≤◌, String, Option, none, some, ltb, if◌then◌else◌,
}
use arkonis_operator.Api.Meta.{Time, Result}

pub record Cron : Type 1 where
  pub Expression : Type 0
  pub parse : String → Result Expression
  pub next : Expression → Time → Time

abbrev pub day : ℕ
day = 86400000000000

-- The instants of a schedule, and what `next` documents of them: it returns the first one after a time.
pub record IsSchedule (next : Time → Time) : Type 1 where
  pub Fires : Time → Type 0
  pub later : (t : Time) → t < next t
  pub fires : (t : Time) → Fires (next t)
  pub least : (t u : Time) → t < u → Fires u → next t ≤ u

-- The later of the last fire and a day ago.
unfoldable pub lookback : Time → Option Time → Time
lookback now none = now - day
lookback now (some fired) = if ltb (now - day) fired then fired else now - day

-- The loop from `t` with the instant found last; `none` is a loop that uses up its fuel.
unfoldable pub step_forward : (Time → Time) → Time → ℕ → Time → Option Time → Option (Option Time)
step_forward next now zero t last = none
step_forward next now (suc fuel) t last =
    let rest = step_forward next now fuel (next t) (some (next t)) in
    if ltb now (next t) then some last else rest

-- The fuel is one for each nanosecond of the day that the loop looks back.
unfoldable pub most_recent_schedule : (Time → Time) → Time → Option Time → Option (Option Time)
unfolding lookback
most_recent_schedule next now last_fired =
    step_forward next now (suc day) (lookback now last_fired) none
