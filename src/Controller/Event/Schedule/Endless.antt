-- ===== src/Controller/Event/Schedule/Endless.antt =====
-- internal/controller/arkevent_controller.go: `mostRecentSchedule` of a schedule that has no instant, such
-- as the 30th of February, for which the library of cron expressions returns the zero time.
use arkonis_operator.Prelude.{ℕ, zero, suc, Option, none, some, ◌≡◌, refl, arith}
use arkonis_operator.Api.Meta.{Time}
use arkonis_operator.Controller.Event.Schedule.{step_forward}

-- Where the schedule has no instant, so that its next instant after every time is the zero time, the
-- loop of mostRecentSchedule does not end, however many turns it is given and wherever it starts.
pub step_forward-none :
    (next : Time → Time)
    → ((t : Time) → next t ≡ 0)
    → (now : Time) (fuel : ℕ) (t : Time) (last : Option Time)
    → step_forward next now fuel t last ≡ none
unfolding step_forward
step_forward-none next empty now zero t last = refl
step_forward-none next empty now (suc fuel) t last =
    ground (arith, empty t, step_forward-none next empty now fuel (next t) (some (next t)))
