-- ===== src/HttpServer/Persist.antt =====
-- `persistAndPublish` and `logWebhook` of ingress-service/internal/httpserver/server.go.
use yunxiao_workflow_agent.Base.{ℕ, String, ◌++◌, Option, none, some, [], ◌∷◌, if◌then◌else◌}
use yunxiao_workflow_agent.Base.Dict.{Dict}
use yunxiao_workflow_agent.Base.Result.{Sentinel, Error, error_text, errors_is, Result, ok, err}
use yunxiao_workflow_agent.Http.{Response}
use yunxiao_workflow_agent.Model.{NormalizedEvent}
use yunxiao_workflow_agent.Effects.{Call, Prog, ret, ◌>>=◌, ◌>>◌, ask}
use yunxiao_workflow_agent.Repository.{EventRepository}
use yunxiao_workflow_agent.Mq.{Publisher}

abbrev error_or_empty : Option Error → String
error_or_empty none = ""
error_or_empty (some e) = error_text e

-- `logWebhook`
unfoldable pub log_webhook :
    String → String → ℕ → String → String → String → ℕ → Option Error → Prog Unit
log_webhook process_status trace_id raw_event_id source event_type external_event_id http_status e =
    ask (
      Call.write_log (record {
        trace_id = trace_id;
        raw_event_id = raw_event_id;
        source = source;
        event_type = event_type;
        external_event_id = external_event_id;
        process_status = process_status;
        http_status = http_status;
        process_error = error_or_empty e;
      }))

abbrev pub json : ℕ → Dict String → Prog Response
json status body = ret (record { status = status; body = body })

-- `eventID` of a duplicate: that of the stored event, if it is found.
abbrev pub found_or : String → Result String → String
found_or event_id (ok existing) = existing
found_or event_id (err _) = event_id

module _ (repo : EventRepository) (publisher : Publisher) where
  unfoldable pub answer_duplicate : NormalizedEvent → ℕ → Prog Response
  answer_duplicate event raw_id = do
    found ← repo.find_normalized_event_id_by_dedup_key event.dedup_key
    let event_id = found_or event.event_id found
    marked ← repo.mark_raw_event_normalized raw_id event_id
    log_webhook "normalized" event.trace_id raw_id event.source event.event_type "" 200 none
    json 200 (("event_id", event_id) ∷ ("status", "duplicate") ∷ [])

  unfoldable pub answer_save_failed : NormalizedEvent → ℕ → Error → Prog Response
  answer_save_failed event raw_id e = do
    marked ← repo.mark_raw_event_failed raw_id ("save normalized event: " ++ error_text e)
    log_webhook "failed" event.trace_id raw_id event.source event.event_type "" 500 (some e)
    json 500 (("error", "save normalized event") ∷ [])

  abbrev pub log_mark : NormalizedEvent → ℕ → Option Error → Prog Unit
  log_mark event raw_id none = ret tt
  log_mark event raw_id (some e) =
      log_webhook "failed" event.trace_id raw_id event.source event.event_type "" 202 (some e)

  -- What follows the attempt to mark the event as published.
  unfoldable pub answer_marked : NormalizedEvent → ℕ → Option Error → Prog Response
  answer_marked event raw_id (some e) = do
    log_webhook "normalized" event.trace_id raw_id event.source event.event_type "" 202 (some e)
    json 202 (("event_id", event.event_id) ∷ ("status", "published_mark_failed") ∷ [])
  answer_marked event raw_id none = do
    log_webhook "normalized" event.trace_id raw_id event.source event.event_type "" 202 none
    json 202 (("event_id", event.event_id) ∷ ("status", "published") ∷ [])

  -- What follows the attempt to publish, and the attempt to store.
  unfoldable pub answer_sent : NormalizedEvent → ℕ → Option Error → Prog Response
  answer_sent event raw_id (some e) = do
    marked ← repo.mark_publish_failed event.event_id
    log_webhook "normalized" event.trace_id raw_id event.source event.event_type "" 202 (some e)
    json 202 (("event_id", event.event_id) ∷ ("status", "stored_publish_failed") ∷ [])
  answer_sent event raw_id none = repo.mark_published event.event_id >>= answer_marked event raw_id

  unfoldable pub publish_saved : NormalizedEvent → ℕ → Prog Response
  publish_saved event raw_id = do
    marked ← repo.mark_raw_event_normalized raw_id event.event_id
    log_mark event raw_id marked
    publisher.publish event >>= answer_sent event raw_id

  unfoldable pub answer_saved : NormalizedEvent → ℕ → Option Error → Prog Response
  answer_saved event raw_id (some e) =
      if errors_is e Sentinel.duplicate_event
      then answer_duplicate event raw_id
      else answer_save_failed event raw_id e
  answer_saved event raw_id none = publish_saved event raw_id

  unfoldable pub persist_and_publish : NormalizedEvent → ℕ → Prog Response
  persist_and_publish event raw_id =
      repo.save_normalized_event event raw_id >>= answer_saved event raw_id
