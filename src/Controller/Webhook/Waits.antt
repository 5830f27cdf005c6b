-- ===== src/Controller/Webhook/Waits.antt =====
-- internal/controller/trigger_webhook_server.go: a synchronous request whose wait ends.
use arkonis_operator.Prelude.{
  ◌*◌, String, none, List, [], ◌∷◌, ◌++◌, ◌≡◌, ◌≢◌, ◌⊎◌, inl, inr, refl, sym, ap, ◌∙◌, true, false,
  All,
}
use arkonis_operator.Prelude.Words.{Int64, lt64}
use arkonis_operator.Api.Meta.{text, Result}
use arkonis_operator.Api.Flow.{ArkFlow, ArkFlowPhase}
use arkonis_operator.Controller.FlowReconcile.{found, not_found, unavailable}
use arkonis_operator.Controller.Event.Fire.{TriggerLibrary, Dispatched}
use arkonis_operator.Controller.Webhook.{
  Request, WebhookCluster, Turn, done, tick, lost, timed_out, reply_with, sync_result,
  wait_for_flow, second, requested, sync_timeout, answer_sync, handle_sync,
}
use arkonis_operator.Controller.Webhook.Sync.{wait_for_flow-goes}

-- A read that found the flow neither Succeeded nor Failed.
abbrev pub IsUnfinished : Turn → Type 0
IsUnfinished done = ⊥
IsUnfinished (tick not_found expired) = ⊥
IsUnfinished (tick (unavailable e) expired) = ⊥
IsUnfinished (tick (found f) expired) =
    (f.status.phase ≢ ArkFlowPhase.succeeded) × (f.status.phase ≢ ArkFlowPhase.failed)

sync_result-none :
    (f : ArkFlow) (phase : ArkFlowPhase)
    → phase ≢ ArkFlowPhase.succeeded
    → phase ≢ ArkFlowPhase.failed
    → sync_result f phase ≡ none
unfolding sync_result
sync_result-none f ArkFlowPhase.succeeded a b = absurd (a refl)
sync_result-none f ArkFlowPhase.failed a b = absurd (b refl)
sync_result-none f ArkFlowPhase.unset a b = refl
sync_result-none f ArkFlowPhase.pending a b = refl
sync_result-none f ArkFlowPhase.running a b = refl

wait_for_flow-deadline :
    (after : List Turn)
    → wait_for_flow (done ∷ after) ≡ lost (text "context deadline exceeded") true
unfolding wait_for_flow
wait_for_flow-deadline after = refl

wait_for_flow-done :
    (before after : List Turn)
    → All IsUnfinished before
    → wait_for_flow (before ++ (done ∷ after)) ≡ lost (text "context deadline exceeded") true
wait_for_flow-done [] after unfinished = wait_for_flow-deadline after
wait_for_flow-done (done ∷ before) after (this, rest) = absurd this
wait_for_flow-done (tick not_found expired ∷ before) after (this, rest) = absurd this
wait_for_flow-done (tick (unavailable e) expired ∷ before) after (this, rest) = absurd this
wait_for_flow-done (tick (found f) expired ∷ before) after ((a, b), rest) =
    wait_for_flow-goes f expired (before ++ (done ∷ after)) (sync_result-none f f.status.phase a b)
    ∙ wait_for_flow-done before after rest

module _ (lib : TriggerLibrary) (parse_duration : String → Result Int64)
    (unmarshal : String → lib.Body) (cluster : WebhookCluster) (r : Request) where
  -- The timeout of a wait: the one that the request names, and 5 minutes where it names a longer one.
  abbrev pub IsTimeout : Int64 → Type 0
  IsTimeout t =
      let wanted = requested parse_duration r.timeout in
      ((lt64 (300 * second) wanted ≡ false) × (t ≡ wanted))
      ⊎ ((lt64 (300 * second) wanted ≡ true) × (t ≡ 300 * second))

  IsTimeout-sync_timeout :
      (t : Int64)
      → IsTimeout t
      → (sync_timeout parse_duration r.timeout ≡ t) × (lt64 (300 * second) t ≡ false)
  unfolding sync_timeout
  IsTimeout-sync_timeout t (inl (short, same)) =
      (rw short (sym same), ap (lt64 (300 * second)) same ∙ short)
  IsTimeout-sync_timeout t (inr (long, same)) =
      (rw long (sym same), ap (lt64 (300 * second)) same ∙ refl)

  -- A synchronous request whose wait ends before a read finds the flow Succeeded or Failed is answered 504,
  -- with the timeout of the wait: the one that the request names, but never above 5 minutes.
  pub handle_sync-timed_out :
      (t : Int64) (made : Dispatched) (before after : List Turn)
      → IsTimeout t
      → All IsUnfinished before
      → cluster.turns t made.flow ≡ before ++ (done ∷ after)
      → (lt64 (300 * second) t ≡ false)
        × (handle_sync lib parse_duration unmarshal cluster r (made ∷ [])
            ≡ reply_with 504 (timed_out t))
  unfolding handle_sync answer_sync
  handle_sync-timed_out t made before after is unfinished waits =
      let (same, short) = IsTimeout-sync_timeout t is in
      (
        short,
        ap (λ x. answer_sync x (wait_for_flow (cluster.turns x made.flow))) same
            ∙ ap (λ turns. answer_sync t (wait_for_flow turns)) waits
            ∙ ap (answer_sync t) (wait_for_flow-done before after unfinished),
      )
