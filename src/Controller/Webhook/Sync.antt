-- ===== src/Controller/Webhook/Sync.antt =====
-- internal/controller/trigger_webhook_server.go: the answer to a synchronous request.
use arkonis_operator.Prelude.{
  some_inj, ℕ, ◌≤◌, String, Option, none, some, List, [], ◌∷◌, Bool, true, false, ◌==◌, ◌≡◌, refl,
  sym, ap, ◌∙◌, arith, inl, inr, Option-cases, Member, length, if◌then◌else◌,
}
use arkonis_operator.Prelude.Words.{Int64}
use arkonis_operator.Api.Meta.{Message, text, Result}
use arkonis_operator.Api.Flow.{ArkFlow, ArkFlowPhase}
use arkonis_operator.Api.Event.{ArkEvent, allow}
use arkonis_operator.Controller.FlowReconcile.{found, not_found, unavailable}
use arkonis_operator.Controller.Event.Fire.{TriggerLibrary, Dispatched, fire}
use arkonis_operator.Controller.Event.Fire.Targets.{fire-Serves}
use arkonis_operator.Controller.Webhook.{
  Request, WebhookCluster, SyncResult, Turn, done, tick, Waited, waiting, got, lost, Reply, error,
  timed_out, reply_with, result, sync_result, wait_for_flow, sync_timeout, answer_sync, handle_sync,
  webhook_context, serve_fired, serve_fire,
}

-- The flow was read at one of the turns.
abbrev pub IsPolled : ArkFlow → List Turn → Type 0
IsPolled f turns = (expired : Bool) × Member (tick (found f) expired) turns

abbrev success : ArkFlow → SyncResult
success f = record { status = "succeeded"; output = f.status.output; error = text "" }

sync_result-Succeeded :
    (f : ArkFlow) (phase : ArkFlowPhase) (r : SyncResult)
    → sync_result f phase ≡ some r
    → (r.status == "failed") ≡ false
    → (phase ≡ ArkFlowPhase.succeeded) × (r ≡ success f)
unfolding sync_result
sync_result-Succeeded f ArkFlowPhase.succeeded r is fine = (refl, sym (some_inj is))
sync_result-Succeeded f ArkFlowPhase.failed r is fine =
    cc (fine, ap (λ x. x.status == "failed") (some_inj is))
sync_result-Succeeded f ArkFlowPhase.unset r is fine = cc is
sync_result-Succeeded f ArkFlowPhase.pending r is fine = cc is
sync_result-Succeeded f ArkFlowPhase.running r is fine = cc is

-- The wait ends with the success of a flow that was read.
abbrev Succeeds : List Turn → SyncResult → Type 0
Succeeds turns r =
    (f : ArkFlow) × IsPolled f turns × (f.status.phase ≡ ArkFlowPhase.succeeded) × (r ≡ success f)

Succeeds-rest :
    (turn : Turn) (turns : List Turn) (r : SyncResult)
    → Succeeds turns r
    → Succeeds (turn ∷ turns) r
Succeeds-rest turn turns r (f, (expired, there), phase, same) =
    (f, (expired, inr there), phase, same)

wait_for_flow-ended :
    (f : ArkFlow) (expired : Bool) (turns : List Turn) (x : SyncResult)
    → sync_result f f.status.phase ≡ some x
    → wait_for_flow (tick (found f) expired ∷ turns) ≡ got x
unfolding wait_for_flow
wait_for_flow-ended f expired turns x is = rw (is, wait_for_flow) refl

pub wait_for_flow-goes :
    (f : ArkFlow) (expired : Bool) (turns : List Turn)
    → sync_result f f.status.phase ≡ none
    → wait_for_flow (tick (found f) expired ∷ turns) ≡ wait_for_flow turns
unfolding wait_for_flow
wait_for_flow-goes f expired turns is = rw (is, wait_for_flow) refl

got_inj : {a b : SyncResult} → got a ≡ got b → a ≡ b
got_inj e = cc e

wait_for_flow-Succeeds :
    (turns : List Turn) (r : SyncResult)
    → wait_for_flow turns ≡ got r
    → (r.status == "failed") ≡ false
    → Succeeds turns r
unfolding wait_for_flow
wait_for_flow-Succeeds [] r ends fine = cc ends
wait_for_flow-Succeeds (done ∷ turns) r ends fine = cc ends
wait_for_flow-Succeeds (tick not_found expired ∷ turns) r ends fine = cc ends
wait_for_flow-Succeeds (tick (unavailable e) expired ∷ turns) r ends fine = cc ends
wait_for_flow-Succeeds (tick (found f) expired ∷ turns) r ends fine =
    elim (Option-cases (sync_result f f.status.phase)) [
      | inl goes ↦ Succeeds-rest (tick (found f) expired) turns r (
          wait_for_flow-Succeeds turns r (sym (wait_for_flow-goes f expired turns goes) ∙ ends)
            fine)
      | inr (x, is) ↦
          let same = got_inj (sym (wait_for_flow-ended f expired turns x is) ∙ ends) in
          let (phase, equal) = sync_result-Succeeded f f.status.phase r (is ∙ ap some same) fine in
          (f, (expired, inl refl), phase, equal)
    ]

abbrev code_of : Option (ℕ × Reply) → ℕ
code_of none = 0
code_of (some (code, reply)) = code

abbrev body_of : Option (ℕ × Reply) → Reply
body_of none = error (text "")
body_of (some (code, reply)) = reply

reply_with_inj : (a b : ℕ) (x y : Reply) → reply_with a x ≡ reply_with b y → (a ≡ b) × (x ≡ y)
reply_with_inj a b x y e = (ap code_of e, ap body_of e)

code-failed :
    (failed : Bool) (x y : Reply)
    → reply_with (if failed then 500 else 200) x ≡ reply_with 200 y
    → (failed ≡ false) × (y ≡ x)
code-failed false x y is = (refl, sym (reply_with_inj 200 200 x y is).1)
code-failed true x y is = absurd (omega (arith, (reply_with_inj 500 200 x y is).0))

answer_sync-got :
    (timeout : Int64) (waited : Waited) (reply : Reply)
    → answer_sync timeout waited ≡ reply_with 200 reply
    → (r : SyncResult) × (waited ≡ got r) × ((r.status == "failed") ≡ false) × (reply ≡ result r)
unfolding answer_sync
answer_sync-got timeout (got r) reply is =
    let (fine, same) = code-failed (r.status == "failed") (result r) reply is in
    (r, refl, fine, same)
answer_sync-got timeout waiting reply is = cc is
answer_sync-got timeout (lost e true) reply is =
    absurd (omega (arith, (reply_with_inj 504 200 (timed_out timeout) reply is).0))
answer_sync-got timeout (lost e false) reply is = absurd (omega (arith, ap code_of is))

module _ (lib : TriggerLibrary) (parse_duration : String → Result Int64)
    (unmarshal : String → lib.Body) (cluster : WebhookCluster) (r : Request) where
  -- What a synchronous request answers 200 with: the output of the one flow that was created, which was read
  -- as Succeeded.
  abbrev pub IsOutput : List Dispatched → Reply → Type 0
  IsOutput created reply =
      (made : Dispatched) × (f : ArkFlow) × (created ≡ made ∷ [])
      × IsPolled f (cluster.turns (sync_timeout parse_duration r.timeout) made.flow)
      × (f.status.phase ≡ ArkFlowPhase.succeeded)
      × (reply ≡ result (success f))

  -- A synchronous request is answered 200 only where one flow was created and a read of it during the wait
  -- found it Succeeded, and then with the output that was read.
  pub handle_sync-IsOutput :
      (created : List Dispatched) (reply : Reply)
      → handle_sync lib parse_duration unmarshal cluster r created ≡ reply_with 200 reply
      → IsOutput created reply
  unfolding handle_sync
  handle_sync-IsOutput [] reply is = absurd (omega (arith, ap code_of is))
  handle_sync-IsOutput (made ∷ []) reply is =
      let timeout = sync_timeout parse_duration r.timeout in
      let turns = cluster.turns timeout made.flow in
      let (x, ended, fine, same) = answer_sync-got timeout (wait_for_flow turns) reply is in
      let (f, polled, phase, equal) = wait_for_flow-Succeeds turns x ended fine in
      (made, f, refl, polled, phase, same ∙ ap result equal)
  handle_sync-IsOutput (made ∷ other ∷ more) reply is = absurd (omega (arith, ap code_of is))

  handle_sync-several :
      (created : List Dispatched)
      → 2 ≤ length created
      → handle_sync lib parse_duration unmarshal cluster r created
        ≡ reply_with 400 (error (text "sync mode requires exactly one target flow"))
  unfolding handle_sync
  handle_sync-several [] two = absurd (omega arith)
  handle_sync-several (made ∷ []) two = absurd (omega arith)
  handle_sync-several (made ∷ other ∷ more) two = refl

  serve_fired-sync :
      (name : String) (event : ArkEvent) (created : List Dispatched) (e : Option Message)
      → e ≡ none
      → (r.mode == "sync") ≡ true
      → ((serve_fired lib parse_duration unmarshal cluster r name event created e).created
          ≡ created)
        × ((serve_fired lib parse_duration unmarshal cluster r name event created e).answer
            ≡ handle_sync lib parse_duration unmarshal cluster r created)
  serve_fired-sync name event created none fine sync = (refl, rw (sync) refl)
  serve_fired-sync name event created (some e) fine sync = cc fine

  -- A synchronous request to a trigger with several targets, which allows concurrency and whose fire has no
  -- error, creates the flows of all targets and is answered 400.
  pub serve_fire-several :
      (name : String) (event : ArkEvent)
      → event.spec.concurrency_policy ≡ allow
      → 2 ≤ length event.spec.targets
      → (fire lib cluster.fires event
          (webhook_context lib parse_duration unmarshal cluster r event)).error
        ≡ none
      → (r.mode == "sync") ≡ true
      → (length (serve_fire lib parse_duration unmarshal cluster r name event).created
          ≡ length event.spec.targets)
        × ((serve_fire lib parse_duration unmarshal cluster r name event).answer
            ≡ reply_with 400 (error (text "sync mode requires exactly one target flow")))
  unfolding serve_fire
  serve_fire-several name event allows two fine sync =
      let context = webhook_context lib parse_duration unmarshal cluster r event in
      let fired = fire lib cluster.fires event context in
      let count = (fire-Serves lib cluster.fires event context allows).1 fine in
      let (made, answers) = serve_fired-sync name event fired.created fired.error fine sync in
      (
        ap length made ∙ count,
        answers ∙ handle_sync-several fired.created (omega (arith, count, two)),
      )
