-- ===== src/Flow/Phase/Verdict.antt =====
-- The phase that `UpdateFlowPhase` gives a running flow.
use arkonis_operator.Prelude.{
  ℕ, ◌+◌, ◌*◌, ◌<◌, some, List, [], ◌∷◌, ◌≡◌, ◌↔◌, ◌⊎◌, inl, inr, refl, sym, ap, ◌∙◌, arith, Bool,
  true, false, ◌&&◌, ltb, if◌then◌else◌, All, Bool-cases, Option-cases,
}
use arkonis_operator.Prelude.Words.{half, lt64}
use arkonis_operator.Api.Meta.{Time}
use arkonis_operator.Api.Flow.{ArkFlow, ArkFlowStepStatus, ArkFlowStepPhase, ArkFlowPhase}
use arkonis_operator.Flow.Library.{Library, TemplateData}
use arkonis_operator.Flow.Phase.{
  scan_steps, timed_out, update_flow_phase, enforce_timeout, conclude, settle, resolve_output,
}
use arkonis_operator.Flow.Phase.Tokens.{usage_of, inputs, outputs, sum_step_tokens_lem}
use arkonis_operator.Flow.Step.{set_condition}

abbrev pub IsDone : ArkFlowStepStatus → Type 0
IsDone st = (st.phase ≡ ArkFlowStepPhase.succeeded) ⊎ (st.phase ≡ ArkFlowStepPhase.skipped)

abbrev pub AnyFailed : List ArkFlowStepStatus → Type 0
AnyFailed [] = ⊥
AnyFailed (st ∷ sts) = (st.phase ≡ ArkFlowStepPhase.failed) ⊎ AnyFailed sts

scan_steps-failed :
    (x y : Bool) (steps : List ArkFlowStepStatus)
    → ((scan_steps x y steps).0 ≡ true) ↔ ((x ≡ true) ⊎ AnyFailed steps)
unfolding scan_steps
scan_steps-failed x y [] = ground arith
scan_steps-failed x y (st ∷ sts) =
    ground (
      arith,
      scan_steps-failed true y sts,
      scan_steps-failed x y sts,
      scan_steps-failed x false sts,
    )

scan_steps-IsDone :
    (x y : Bool) (steps : List ArkFlowStepStatus)
    → (((scan_steps x y steps).0 ≡ false) × ((scan_steps x y steps).1 ≡ true))
      ↔ ((x ≡ false) × (y ≡ true) × All IsDone steps)
unfolding scan_steps
scan_steps-IsDone x y [] = ground arith
scan_steps-IsDone x y (st ∷ sts) =
    ground (
      arith,
      scan_steps-IsDone true y sts,
      scan_steps-IsDone x y sts,
      scan_steps-IsDone x false sts,
    )

-- The flow has a timeout, has started, and the timeout has passed.
abbrev pub IsLate : ArkFlow → Time → Type 0
IsLate f now =
    (start : Time) × (f.status.start_time ≡ some start)
    × (0 < f.spec.timeout_seconds)
    × (start + f.spec.timeout_seconds * 1000000000 < now)

-- The flow has a budget, and its steps have used more than that.
abbrev pub IsOverBudget : ArkFlow → Type 0
IsOverBudget f =
    (0 < f.spec.max_tokens) × (f.spec.max_tokens < inputs f.status.steps + outputs f.status.steps)

-- The numbers of the flow are such that no 64-bit operation on them wraps: a timeout below some 285
-- years, a budget that is not negative, and a total below 2 ^ 63.
pub record Fits (f : ArkFlow) : Type 0 where
  pub timeout_fits : f.spec.timeout_seconds < 9000000000
  pub budget_fits : f.spec.max_tokens < half
  pub tokens_fit : inputs f.status.steps + outputs f.status.steps < half

timed_out_iff : (f : ArkFlow) (now : Time) → Fits f → (timed_out f now ≡ true) ↔ IsLate f now
unfolding timed_out
timed_out_iff f now fits = (
  λ h. elim (Option-cases f.status.start_time) [
    | inl e ↦ absurd (ground arith)
    | inr (start, e) ↦ (start, e, ground arith, ground arith)
  ],
  λ (start, e, pos, late). ground arith,
)

not_of_false {ℓ} : {P : Type ℓ} {b : Bool} → (b ≡ true) ↔ P → b ≡ false → ¬ P
not_of_false e no_b p = cc (e.1 p)

false_of_not {ℓ} : {P : Type ℓ} (b : Bool) → (b ≡ true) ↔ P → ¬ P → b ≡ false
false_of_not true e n = absurd (n (e.0 refl))
false_of_not false e n = refl

module _ (lib : Library) (now : Time) (context : TemplateData lib.Json) where
  abbrev over : ArkFlow → ℕ → Bool
  over f spent = lt64 0 f.spec.max_tokens && lt64 f.spec.max_tokens spent

  abbrev settled : Bool → Bool → ArkFlowPhase → ArkFlowPhase
  settled true all_done phase = ArkFlowPhase.failed
  settled false true phase = ArkFlowPhase.succeeded
  settled false false phase = phase

  settle-phase :
      (failed all_done : Bool) (f : ArkFlow)
      → (settle lib failed all_done f now context).status.phase
        ≡ settled failed all_done f.status.phase
  unfolding settle set_condition resolve_output
  settle-phase true all_done f = refl
  settle-phase false true f = ground arith
  settle-phase false false f = refl

  conclude-phase :
      (f : ArkFlow) (spent : ℕ)
      → (conclude lib f spent now context).status.phase ≡ (
          if over f spent
          then ArkFlowPhase.failed
          else settled
              (scan_steps false true f.status.steps).0
              (scan_steps false true f.status.steps).1
              f.status.phase)
  unfolding conclude set_condition
  conclude-phase f spent = ground (
    arith,
    settle-phase (scan_steps false true f.status.steps).0 (scan_steps false true f.status.steps).1
        f,
  )

  -- The flow with its tokens counted.
  abbrev counted : ArkFlow → ArkFlow
  counted f =
      if ltb 0 (inputs f.status.steps + outputs f.status.steps)
      then record f {
        status = record (f.status) { total_token_usage = some (usage_of f.status.steps) };
      }
      else f

  abbrev decided : Bool → Bool → Bool → Bool → ArkFlowPhase → ArkFlowPhase
  decided late spent failed all_done phase =
      if late
      then ArkFlowPhase.failed
      else if spent
      then ArkFlowPhase.failed
      else settled failed all_done phase

  update-phase :
      (f : ArkFlow)
      → Fits f
      → (update_flow_phase lib f now context).status.phase
        ≡ decided
            (timed_out f now)
            (over f (inputs f.status.steps + outputs f.status.steps))
            (scan_steps false true f.status.steps).0
            (scan_steps false true f.status.steps).1
            f.status.phase
  unfolding update_flow_phase enforce_timeout set_condition
  update-phase f fits = elim (Bool-cases (timed_out f now)) [
    | inl late ↦ rw late
    | inr early ↦
        rw (early, sum_step_tokens_lem f fits.tokens_fit)
          (conclude-phase (counted f) (inputs f.status.steps + outputs f.status.steps)
            ∙ ground arith)
  ]

  over_iff :
      (f : ArkFlow)
      → Fits f
      → (over f (inputs f.status.steps + outputs f.status.steps) ≡ true) ↔ IsOverBudget f
  over_iff f fits = ground arith

  decided-succeeded :
      (l o x y : Bool)
      → (decided l o x y ArkFlowPhase.running ≡ ArkFlowPhase.succeeded)
        ↔ ((l ≡ false) × (o ≡ false) × ((x ≡ false) × (y ≡ true)))
  decided-succeeded l o x y = ground arith

  decided-failed :
      (l o x y : Bool)
      → (decided l o x y ArkFlowPhase.running ≡ ArkFlowPhase.failed)
        ↔ ((l ≡ true) ⊎ ((o ≡ true) ⊎ (x ≡ true)))
  decided-failed l o x y = ground arith

  module _ (f : ArkFlow) (fits : Fits f) (run : f.status.phase ≡ ArkFlowPhase.running) where
    abbrev spent : Bool
    spent = over f (inputs f.status.steps + outputs f.status.steps)

    abbrev scanned : Bool × Bool
    scanned = scan_steps false true f.status.steps

    running-phase :
        (update_flow_phase lib f now context).status.phase
        ≡ decided (timed_out f now) spent scanned.0 scanned.1 ArkFlowPhase.running
    running-phase =
        update-phase f fits ∙ ap (decided (timed_out f now) spent scanned.0 scanned.1) run

    -- A running flow whose numbers fit becomes Succeeded exactly if its timeout has not passed, its steps have not used
    -- more tokens than its budget, and every step has succeeded or been skipped.
    pub update_flow_phase-succeeded_iff :
        ((update_flow_phase lib f now context).status.phase ≡ ArkFlowPhase.succeeded)
        ↔ (¬ IsLate f now × ¬ IsOverBudget f × All IsDone f.status.steps)
    update_flow_phase-succeeded_iff = (
      λ h.
          let (early, within, ended) =
            (decided-succeeded (timed_out f now) spent scanned.0 scanned.1).0
              (sym running-phase ∙ h) in
          (
            not_of_false (timed_out_iff f now fits) early,
            not_of_false (over_iff f fits) within,
            ((scan_steps-IsDone false true f.status.steps).0 ended).2,
          ),
      λ (early, within, all_done).
          running-phase
          ∙ (decided-succeeded (timed_out f now) spent scanned.0 scanned.1).1 (
            false_of_not (timed_out f now) (timed_out_iff f now fits) early,
            false_of_not spent (over_iff f fits) within,
            (scan_steps-IsDone false true f.status.steps).1 (refl, refl, all_done),
          ),
    )

    -- A running flow whose numbers fit becomes Failed exactly if its timeout has passed, its budget is exceeded or a
    -- step has failed.
    pub update_flow_phase-failed_iff :
        ((update_flow_phase lib f now context).status.phase ≡ ArkFlowPhase.failed)
        ↔ (IsLate f now ⊎ (IsOverBudget f ⊎ AnyFailed f.status.steps))
    update_flow_phase-failed_iff = (
      λ h.
          elim ((decided-failed (timed_out f now) spent scanned.0 scanned.1).0
            (sym running-phase ∙ h)) [
              | inl l ↦ inl ((timed_out_iff f now fits).0 l)
              | inr (inl o) ↦ inr (inl ((over_iff f fits).0 o))
              | inr (inr x) ↦ inr (
                  inr (elim ((scan_steps-failed false true f.status.steps).0 x) [
                    | inl e ↦ absurd (cc)
                    | inr a ↦ a
                  ]))
            ],
      λ h.
          running-phase
          ∙ (decided-failed (timed_out f now) spent scanned.0 scanned.1).1 (elim h [
            | inl l ↦ inl ((timed_out_iff f now fits).1 l)
            | inr (inl o) ↦ inr (inl ((over_iff f fits).1 o))
            | inr (inr a) ↦ inr (inr ((scan_steps-failed false true f.status.steps).1 (inr a)))
          ]),
    )

    decided-any :
        (l o x y : Bool)
        → let p = decided l o x y ArkFlowPhase.running in
          (p ≡ ArkFlowPhase.failed) ⊎ ((p ≡ ArkFlowPhase.succeeded) ⊎ (p ≡ ArkFlowPhase.running))
    decided-any l o x y = ground arith

    -- A running flow stays Running if it is in time, within its budget, and has neither a failed step
    -- nor all of its steps done.
    pub update_flow_phase-running :
        ¬ IsLate f now
        → ¬ IsOverBudget f
        → ¬ AnyFailed f.status.steps
        → ¬ All IsDone f.status.steps
        → (update_flow_phase lib f now context).status.phase ≡ ArkFlowPhase.running
    update_flow_phase-running early within fine unfinished =
        elim (decided-any (timed_out f now) spent scanned.0 scanned.1) [
          | inl fails ↦ elim (update_flow_phase-failed_iff.0 (running-phase ∙ fails)) [
            | inl l ↦ absurd (early l)
            | inr (inl o) ↦ absurd (within o)
            | inr (inr a) ↦ absurd (fine a)
          ]
          | inr (inl wins) ↦
              absurd (unfinished (update_flow_phase-succeeded_iff.0 (running-phase ∙ wins)).2)
          | inr (inr runs) ↦ running-phase ∙ runs
        ]
