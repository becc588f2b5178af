-- ===== src/HttpServer/Answers.antt =====
-- The answers that the webhook handlers of ingress-service/internal/httpserver/server.go share.
use yunxiao_workflow_agent.Base.{ℕ, String, ◌++◌, some, [], ◌∷◌, if◌then◌else◌}
use yunxiao_workflow_agent.Base.Result.{Sentinel, Error, error_text, errors_is, Result, ok, err}
use yunxiao_workflow_agent.Http.{Response}
use yunxiao_workflow_agent.Model.{NormalizedEvent, RawEventMeta}
use yunxiao_workflow_agent.Effects.{Prog, ◌>>=◌, ◌>>◌}
use yunxiao_workflow_agent.Repository.{EventRepository}
use yunxiao_workflow_agent.Mq.{Publisher}
use yunxiao_workflow_agent.HttpServer.Persist.{log_webhook, json, persist_and_publish}

module _ (repo : EventRepository) (publisher : Publisher) where
  -- The answer to a wrong token, and to a body that cannot be read.
  unfoldable pub reject :
      String → ℕ → String → String → String → String → String → Error → Prog Response
  reject process_status status trace_id source event_type external_event_id message e = do
    log_webhook process_status trace_id 0 source event_type external_event_id status (some e)
    json status (("error", message) ∷ [])

  -- The answer to a body that is no payload.
  unfoldable pub answer_invalid_payload :
      String → ℕ → String → RawEventMeta → String → Error → Prog Response
  answer_invalid_payload trace_id raw_id raw_payload_id raw message e = do
    marked ← repo.mark_raw_event_invalid_payload raw_id (message ++ ": " ++ error_text e)
    log_webhook "invalid_payload" trace_id raw_id raw.source raw.event_type raw.external_event_id
        400 (some e)
    json 400 (("error", message) ∷ ("raw_payload_id", raw_payload_id) ∷ ("trace_id", trace_id) ∷ [])

  -- The answer to an event that the adapter ignores, and to one that it cannot normalise.
  unfoldable pub answer_ignored : String → ℕ → String → RawEventMeta → Error → Prog Response
  answer_ignored trace_id raw_id raw_payload_id raw e = do
    marked ← repo.mark_raw_event_ignored raw_id (error_text e)
    log_webhook "ignored" trace_id raw_id raw.source raw.event_type raw.external_event_id 202
        (some e)
    json 202
        (("raw_payload_id", raw_payload_id) ∷ ("status", "ignored") ∷ ("trace_id", trace_id) ∷ [])

  unfoldable pub answer_failed : String → ℕ → RawEventMeta → Error → Prog Response
  answer_failed trace_id raw_id raw e = do
    marked ← repo.mark_raw_event_failed raw_id (error_text e)
    log_webhook "failed" trace_id raw_id raw.source raw.event_type raw.external_event_id 400
        (some e)
    json 400 (("error", error_text e) ∷ [])

  -- What each handler does with the result of its adapter's `Normalize`.
  unfoldable pub finish :
      Sentinel → String → ℕ → String → RawEventMeta → Result NormalizedEvent → Prog Response
  finish sentinel trace_id raw_id raw_payload_id raw (ok event) =
      persist_and_publish repo publisher event raw_id
  finish sentinel trace_id raw_id raw_payload_id raw (err e) =
      if errors_is e sentinel
      then answer_ignored trace_id raw_id raw_payload_id raw e
      else answer_failed trace_id raw_id raw e
