-- ===== src/HttpServer/Statuses.antt =====
-- The status codes of the answers of ingress-service/internal/httpserver/server.go.
pub mod Routes
use yunxiao_workflow_agent.Base.{
  ℕ, String, ◌≡◌, Bool, true, none, some, Option, refl, Bool-cases, inl, inr, nat_beq, any, [], ◌∷◌,
  not, ◌||◌,
}
use yunxiao_workflow_agent.Base.Result.{Result, ok, err, Error, Sentinel, errors_is}
use yunxiao_workflow_agent.Http.{Response, Request}
use yunxiao_workflow_agent.Model.{NormalizedEvent, RawEventMeta}
use yunxiao_workflow_agent.Effects.{Prog, ret, call, ◌>>=◌}
use yunxiao_workflow_agent.Effects.Laws.{Always}
use yunxiao_workflow_agent.Repository.{EventRepository}
use yunxiao_workflow_agent.Mq.{Publisher}
use yunxiao_workflow_agent.HttpServer.Persist.{
  persist_and_publish, answer_saved, publish_saved, answer_sent, answer_marked, answer_save_failed,
  answer_duplicate, log_webhook, log_mark,
}
use yunxiao_workflow_agent.HttpServer.Answers.{
  answer_invalid_payload, answer_ignored, answer_failed, finish, reject,
}
use yunxiao_workflow_agent.Config.{Config}
use yunxiao_workflow_agent.Runtime.{Runtime, Bytes}
use yunxiao_workflow_agent.HttpServer.CodeupWebhook.{codeup_decoded, codeup_saved, codeup_read}
use yunxiao_workflow_agent.HttpServer.ProjexWebhook.{projex_saved, projex_read, projex_decoded}
use yunxiao_workflow_agent.HttpServer.FlowWebhook.{flow_saved, flow_read, flow_decoded}
use yunxiao_workflow_agent.HttpServer.Security.{Route, secret_of, carries}
use yunxiao_workflow_agent.Base.Text.{is_empty}

-- The handler was let through: 200, 202, 400 or 500.
abbrev pub is_served : ℕ → Bool
is_served status = any (nat_beq status) (200 ∷ 202 ∷ 400 ∷ 500 ∷ [])

abbrev pub Served : Response → Type 0
Served r = is_served r.status ≡ true

-- Any program at all, before one that answers.
after_any :
    {A : Type 0} (m : Prog A) (f : A → Prog Response)
    → ((a : A) → Always Served (f a))
    → Always Served (m >>= f)
after_any (ret a) f h = h a
after_any (call c k) f h = λ r. after_any (k r) f h

module _ (repo : EventRepository) (publisher : Publisher) where
  duplicate-Served :
      (event : NormalizedEvent) (raw_id : ℕ)
      → Always Served (answer_duplicate repo publisher event raw_id)
  unfolding answer_duplicate log_webhook
  duplicate-Served event raw_id =
      after_any (repo.find_normalized_event_id_by_dedup_key event.dedup_key) _
        (λ found. after_any (repo.mark_raw_event_normalized raw_id _) _ (λ marked u. refl))

  save_failed-Served :
      (event : NormalizedEvent) (raw_id : ℕ) (e : Error)
      → Always Served (answer_save_failed repo publisher event raw_id e)
  unfolding answer_save_failed log_webhook
  save_failed-Served event raw_id e =
      after_any (repo.mark_raw_event_failed raw_id _) _ (λ marked u. refl)

  marked-Served :
      (event : NormalizedEvent) (raw_id : ℕ) (marked : Option Error)
      → Always Served (answer_marked repo publisher event raw_id marked)
  unfolding answer_marked log_webhook
  marked-Served event raw_id none = λ u. refl
  marked-Served event raw_id (some e) = λ u. refl

  sent-Served :
      (event : NormalizedEvent) (raw_id : ℕ) (result : Option Error)
      → Always Served (answer_sent repo publisher event raw_id result)
  unfolding answer_sent log_webhook
  sent-Served event raw_id none =
      after_any (repo.mark_published event.event_id) _ (marked-Served event raw_id)
  sent-Served event raw_id (some e) =
      after_any (repo.mark_publish_failed event.event_id) _ (λ marked u. refl)

  saved-Served :
      (event : NormalizedEvent) (raw_id : ℕ) (result : Option Error)
      → Always Served (answer_saved repo publisher event raw_id result)
  unfolding answer_saved publish_saved
  saved-Served event raw_id none =
      after_any (repo.mark_raw_event_normalized raw_id event.event_id) _ (λ marked.
        after_any (log_mark repo publisher event raw_id marked) _
          (λ u. after_any (publisher.publish event) _ (sent-Served event raw_id)))
  saved-Served event raw_id (some e) = elim (Bool-cases (errors_is e Sentinel.duplicate_event)) [
    | inl h ↦ rw h (duplicate-Served event raw_id)
    | inr h ↦ rw h (save_failed-Served event raw_id e)
  ]

  failed-Served :
      (trace_id : String) (raw_id : ℕ) (raw_payload_id : String) (raw : RawEventMeta) (e : Error)
      (sentinel : Sentinel)
      → Always Served (finish repo publisher sentinel trace_id raw_id raw_payload_id raw (err e))
  unfolding finish answer_ignored answer_failed log_webhook
  failed-Served trace_id raw_id raw_payload_id raw e sentinel =
      elim (Bool-cases (errors_is e sentinel)) [
        | inl h ↦ rw h (after_any (repo.mark_raw_event_ignored raw_id _) _ (λ marked u. refl))
        | inr h ↦ rw h (after_any (repo.mark_raw_event_failed raw_id _) _ (λ marked u. refl))
      ]

  finish-Served :
      (trace_id : String) (raw_id : ℕ) (raw_payload_id : String) (raw : RawEventMeta)
      (sentinel : Sentinel) (result : Result NormalizedEvent)
      → Always Served (finish repo publisher sentinel trace_id raw_id raw_payload_id raw result)
  unfolding finish persist_and_publish
  finish-Served trace_id raw_id raw_payload_id raw sentinel (ok event) =
      after_any (repo.save_normalized_event event raw_id) _ (saved-Served event raw_id)
  finish-Served trace_id raw_id raw_payload_id raw sentinel (err e) =
      failed-Served trace_id raw_id raw_payload_id raw e sentinel

  invalid-Served :
      (trace_id : String) (raw_id : ℕ) (raw_payload_id : String) (raw : RawEventMeta)
      (message : String) (e : Error)
      → Always Served
          (answer_invalid_payload repo publisher trace_id raw_id raw_payload_id raw message e)
  unfolding answer_invalid_payload log_webhook
  invalid-Served trace_id raw_id raw_payload_id raw message e =
      after_any (repo.mark_raw_event_invalid_payload raw_id _) _ (λ marked u. refl)
