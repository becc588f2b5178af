-- ===== src/HttpServer/Order/Answers.antt =====
-- The order in which the handlers of ingress-service/internal/httpserver/server.go store and publish: the answers, and the three handlers.
use yunxiao_workflow_agent.Base.{ℕ, String, true, inl, inr, Bool-cases}
use yunxiao_workflow_agent.Base.Result.{Sentinel, Error, Result, ok, err, errors_is}
use yunxiao_workflow_agent.Runtime.{Runtime, Bytes}
use yunxiao_workflow_agent.Http.{Request}
use yunxiao_workflow_agent.Config.{Config}
use yunxiao_workflow_agent.Model.{NormalizedEvent, RawEventMeta}
use yunxiao_workflow_agent.Effects.Discipline.{IsOrdered, IsOrdered-bind, IsOrdered-if, idle}
use yunxiao_workflow_agent.Repository.{
  EventRepository, new_event_repository, save_raw_event, mark_raw_event_ignored,
  mark_raw_event_invalid_payload, mark_raw_event_failed, update_raw_event_meta,
}
use yunxiao_workflow_agent.Mq.{Publisher, rabbit_publisher}
use yunxiao_workflow_agent.Codeup
use yunxiao_workflow_agent.Projex
use yunxiao_workflow_agent.Flow
use yunxiao_workflow_agent.HttpServer.Persist.{log_webhook}
use yunxiao_workflow_agent.HttpServer.Answers.{
  reject, answer_invalid_payload, answer_ignored, answer_failed, finish,
}
use yunxiao_workflow_agent.HttpServer.CodeupWebhook.{
  codeup_meta, codeup_decoded, codeup_saved, codeup_read, handle_codeup_webhook,
}
use yunxiao_workflow_agent.HttpServer.ProjexWebhook.{
  projex_meta, projex_decoded, projex_saved, projex_read, handle_projex_webhook,
}
use yunxiao_workflow_agent.HttpServer.FlowWebhook.{
  flow_meta, flow_payload_meta, flow_decoded, flow_saved, flow_read, handle_flow_webhook,
}
use yunxiao_workflow_agent.HttpServer.Order.Adapters.{
  save_raw_event-IsOrdered, codeup_normalize-IsOrdered, projex_normalize-IsOrdered,
  flow_normalize-IsOrdered,
}
use yunxiao_workflow_agent.HttpServer.Order.Persist.{persist_and_publish-IsOrdered}

module _ (rt : Runtime) (cfg : Config) (exchange : String) where
  abbrev repo : EventRepository
  repo = new_event_repository rt

  abbrev publisher : Publisher
  publisher = rabbit_publisher rt exchange

  answer_ignored-IsOrdered :
      (trace : String) (id : ℕ) (raw_id : String) (raw : RawEventMeta) (e : Error)
      → IsOrdered (answer_ignored repo publisher trace id raw_id raw e) idle
  unfolding answer_ignored mark_raw_event_ignored log_webhook
  answer_ignored-IsOrdered trace id raw_id raw e = λ now r l. tt

  answer_failed-IsOrdered :
      (trace : String) (id : ℕ) (raw : RawEventMeta) (e : Error)
      → IsOrdered (answer_failed repo publisher trace id raw e) idle
  unfolding answer_failed mark_raw_event_failed log_webhook
  answer_failed-IsOrdered trace id raw e = λ now r l. tt

  answer_invalid_payload-IsOrdered :
      (trace : String) (id : ℕ) (raw_id : String) (raw : RawEventMeta) (message : String)
      (e : Error)
      → IsOrdered (answer_invalid_payload repo publisher trace id raw_id raw message e) idle
  unfolding answer_invalid_payload mark_raw_event_invalid_payload log_webhook
  answer_invalid_payload-IsOrdered trace id raw_id raw message e = λ now r l. tt

  finish-IsOrdered :
      (s : Sentinel) (trace : String) (id : ℕ) (raw_id : String) (raw : RawEventMeta)
      (r : Result NormalizedEvent)
      → IsOrdered (finish repo publisher s trace id raw_id raw r) idle
  unfolding finish
  finish-IsOrdered s trace id raw_id raw (ok event) =
      persist_and_publish-IsOrdered rt cfg exchange event id
  finish-IsOrdered s trace id raw_id raw (err e) =
      IsOrdered-if (errors_is e s) _ _ idle (answer_ignored-IsOrdered trace id raw_id raw e)
        (answer_failed-IsOrdered trace id raw e)

  codeup_decoded-IsOrdered :
      (trace : String) (request : Request) (body : Bytes) (id : ℕ) (raw_id : String)
      (r : Result Codeup.Payload.WebhookPayload)
      → IsOrdered (codeup_decoded rt cfg repo publisher trace request body id raw_id r) idle
  unfolding codeup_decoded
  codeup_decoded-IsOrdered trace request body id raw_id (ok payload) =
      IsOrdered-bind (Codeup.Normalizer.normalize rt payload raw_id body trace)
        (finish repo publisher Sentinel.codeup_ignored trace id raw_id (codeup_meta request)) idle
        (codeup_normalize-IsOrdered rt payload raw_id body trace)
        (finish-IsOrdered Sentinel.codeup_ignored trace id raw_id (codeup_meta request))
  codeup_decoded-IsOrdered trace request body id raw_id (err e) =
      answer_invalid_payload-IsOrdered trace id raw_id (codeup_meta request) "invalid codeup json" e

  codeup_saved-IsOrdered :
      (trace : String) (request : Request) (body : Bytes) (r : Result (ℕ × String))
      → IsOrdered (codeup_saved rt cfg repo publisher trace request body r) idle
  unfolding codeup_saved
  codeup_saved-IsOrdered trace request body (err e) = tt
  codeup_saved-IsOrdered trace request body (ok (id, raw_id)) =
      codeup_decoded-IsOrdered trace request body id raw_id _

  codeup_read-IsOrdered :
      (trace : String) (request : Request) (r : Result Bytes)
      → IsOrdered (codeup_read rt cfg repo publisher trace request r) idle
  unfolding codeup_read reject log_webhook
  codeup_read-IsOrdered trace request (err e) = λ l. tt
  codeup_read-IsOrdered trace request (ok body) =
      IsOrdered-bind (save_raw_event rt (codeup_meta request) request.header body true trace)
        (codeup_saved rt cfg repo publisher trace request body) idle
        (save_raw_event-IsOrdered rt (codeup_meta request) request.header body true trace)
        (codeup_saved-IsOrdered trace request body)

  pub codeup_webhook-IsOrdered :
      (request : Request) → IsOrdered (handle_codeup_webhook rt cfg repo publisher request) idle
  unfolding handle_codeup_webhook reject log_webhook
  codeup_webhook-IsOrdered request = λ u.
      elim (Bool-cases (Codeup.Auth.verify_token request cfg.codeup_token)) [
        | inl e ↦ rw e (codeup_read-IsOrdered _ request request.body)
        | inr e ↦ rw e (λ l. tt)
      ]

  projex_decoded-IsOrdered :
      (trace : String) (request : Request) (body : Bytes) (id : ℕ) (raw_id : String)
      (r : Result Projex.Payload.WebhookPayload)
      → IsOrdered (projex_decoded rt cfg repo publisher trace request body id raw_id r) idle
  unfolding projex_decoded update_raw_event_meta
  projex_decoded-IsOrdered trace request body id raw_id (ok payload) = λ r.
      IsOrdered-bind (Projex.Normalizer.normalize rt payload request.event_type raw_id body trace)
        (finish repo publisher Sentinel.projex_ignored trace id raw_id
          (projex_meta request payload.id))
        idle (projex_normalize-IsOrdered rt payload request.event_type raw_id body trace)
        (finish-IsOrdered Sentinel.projex_ignored trace id raw_id (projex_meta request payload.id))
  projex_decoded-IsOrdered trace request body id raw_id (err e) =
      answer_invalid_payload-IsOrdered trace id raw_id (projex_meta request "")
        "invalid projex json" e

  projex_saved-IsOrdered :
      (trace : String) (request : Request) (body : Bytes) (r : Result (ℕ × String))
      → IsOrdered (projex_saved rt cfg repo publisher trace request body r) idle
  unfolding projex_saved
  projex_saved-IsOrdered trace request body (err e) = tt
  projex_saved-IsOrdered trace request body (ok (id, raw_id)) =
      projex_decoded-IsOrdered trace request body id raw_id _

  projex_read-IsOrdered :
      (trace : String) (request : Request) (r : Result Bytes)
      → IsOrdered (projex_read rt cfg repo publisher trace request r) idle
  unfolding projex_read reject log_webhook
  projex_read-IsOrdered trace request (err e) = λ l. tt
  projex_read-IsOrdered trace request (ok body) =
      IsOrdered-bind (save_raw_event rt (projex_meta request "") request.header body true trace)
        (projex_saved rt cfg repo publisher trace request body) idle
        (save_raw_event-IsOrdered rt (projex_meta request "") request.header body true trace)
        (projex_saved-IsOrdered trace request body)

  pub projex_webhook-IsOrdered :
      (request : Request) → IsOrdered (handle_projex_webhook rt cfg repo publisher request) idle
  unfolding handle_projex_webhook reject log_webhook
  projex_webhook-IsOrdered request = λ u.
      elim (Bool-cases (Projex.Auth.verify_signature request cfg.projex_secret)) [
        | inl e ↦ rw e (projex_read-IsOrdered _ request request.body)
        | inr e ↦ rw e (λ l. tt)
      ]

  flow_decoded-IsOrdered :
      (trace : String) (request : Request) (body : Bytes) (id : ℕ) (raw_id : String)
      (r : Result Flow.Payload.WebhookPayload)
      → IsOrdered (flow_decoded rt cfg repo publisher trace request body id raw_id r) idle
  unfolding flow_decoded update_raw_event_meta
  flow_decoded-IsOrdered trace request body id raw_id (ok payload) = λ r.
      IsOrdered-bind (Flow.Normalizer.normalize rt payload raw_id body trace)
        (finish repo publisher Sentinel.flow_ignored trace id raw_id (flow_payload_meta payload))
        idle (flow_normalize-IsOrdered rt payload raw_id body trace)
        (finish-IsOrdered Sentinel.flow_ignored trace id raw_id (flow_payload_meta payload))
  flow_decoded-IsOrdered trace request body id raw_id (err e) =
      answer_invalid_payload-IsOrdered trace id raw_id (flow_meta request) "invalid flow json" e

  flow_saved-IsOrdered :
      (trace : String) (request : Request) (body : Bytes) (r : Result (ℕ × String))
      → IsOrdered (flow_saved rt cfg repo publisher trace request body r) idle
  unfolding flow_saved
  flow_saved-IsOrdered trace request body (err e) = tt
  flow_saved-IsOrdered trace request body (ok (id, raw_id)) =
      flow_decoded-IsOrdered trace request body id raw_id _

  flow_read-IsOrdered :
      (trace : String) (request : Request) (r : Result Bytes)
      → IsOrdered (flow_read rt cfg repo publisher trace request r) idle
  unfolding flow_read reject log_webhook
  flow_read-IsOrdered trace request (err e) = λ l. tt
  flow_read-IsOrdered trace request (ok body) =
      IsOrdered-bind (save_raw_event rt (flow_meta request) request.header body true trace)
        (flow_saved rt cfg repo publisher trace request body) idle
        (save_raw_event-IsOrdered rt (flow_meta request) request.header body true trace)
        (flow_saved-IsOrdered trace request body)

  pub flow_webhook-IsOrdered :
      (request : Request) → IsOrdered (handle_flow_webhook rt cfg repo publisher request) idle
  unfolding handle_flow_webhook reject log_webhook
  flow_webhook-IsOrdered request = λ u.
      elim (Bool-cases (Flow.Auth.verify_token request cfg.flow_token)) [
        | inl e ↦ rw e (flow_read-IsOrdered _ request request.body)
        | inr e ↦ rw e (λ l. tt)
      ]
