-- ===== src/HttpServer/Settling/Persist.antt =====
-- `persistAndPublish` of ingress-service/internal/httpserver/server.go gives the raw event one status.
use yunxiao_workflow_agent.Base.{ℕ, String, refl, Option, none, some}
use yunxiao_workflow_agent.Base.Result.{Sentinel, Error, Result, ok, err, errors_is}
use yunxiao_workflow_agent.Runtime.{Runtime}
use yunxiao_workflow_agent.Model.{NormalizedEvent}
use yunxiao_workflow_agent.Effects.{◌>>=◌}
use yunxiao_workflow_agent.HttpServer.Settling.Duties.{IsSettling, IsSettling-if, owed, paid}
use yunxiao_workflow_agent.Repository.{
  EventRepository, error_of, saved_event, insert_event, new_event_repository, save_normalized_event,
  mark_raw_event_normalized, mark_raw_event_failed, update_raw_event_process_status, mark_published,
  mark_publish_failed, find_normalized_event_id_by_dedup_key,
}
use yunxiao_workflow_agent.Mq.{Publisher, send, publish, rabbit_publisher}
use yunxiao_workflow_agent.HttpServer.Persist.{
  log_webhook, log_mark, answer_sent, answer_saved, answer_duplicate, answer_save_failed,
  publish_saved, persist_and_publish, answer_marked,
}

module _ (rt : Runtime) (exchange : String) where
  abbrev pub repo : EventRepository
  repo = new_event_repository rt

  abbrev pub publisher : Publisher
  publisher = rabbit_publisher rt exchange

  answer_duplicate-IsSettling :
      (event : NormalizedEvent) (id : ℕ)
      → IsSettling (answer_duplicate repo publisher event id) (owed id)
  unfolding answer_duplicate find_normalized_event_id_by_dedup_key mark_raw_event_normalized
      update_raw_event_process_status log_webhook
  answer_duplicate-IsSettling event id = λ found now. (refl, refl, λ r l. refl)

  answer_save_failed-IsSettling :
      (event : NormalizedEvent) (id : ℕ) (e : Error)
      → IsSettling (answer_save_failed repo publisher event id e) (owed id)
  unfolding answer_save_failed mark_raw_event_failed update_raw_event_process_status log_webhook
  answer_save_failed-IsSettling event id e = λ now. (refl, refl, λ r l. refl)

  answer_marked-IsSettling :
      (event : NormalizedEvent) (id : ℕ) (marked : Option Error)
      → IsSettling (answer_marked repo publisher event id marked) (paid "normalized")
  unfolding answer_marked log_webhook
  answer_marked-IsSettling event id none = λ l. refl
  answer_marked-IsSettling event id (some e) = λ l. refl

  answer_sent-IsSettling :
      (event : NormalizedEvent) (id : ℕ) (sent : Option Error)
      → IsSettling (answer_sent repo publisher event id sent) (paid "normalized")
  unfolding answer_sent mark_publish_failed mark_published log_webhook
  answer_sent-IsSettling event id none = λ now r. answer_marked-IsSettling event id (error_of r)
  answer_sent-IsSettling event id (some e) = λ r l. refl

  send-IsSettling :
      (event : NormalizedEvent) (id : ℕ) (body : Result String)
      → IsSettling
          (send rt exchange event body >>= answer_sent repo publisher event id)
          (paid "normalized")
  unfolding send
  send-IsSettling event id (ok body) = λ now r. answer_sent-IsSettling event id (error_of r)
  send-IsSettling event id (err e) = answer_sent-IsSettling event id (some e)

  noted-IsSettling :
      (event : NormalizedEvent) (id : ℕ) (marked : Option Error)
      → IsSettling
          (log_mark repo publisher event id marked >>= λ _.
            publish rt exchange event >>= answer_sent repo publisher event id)
          (paid "normalized")
  unfolding log_webhook publish
  noted-IsSettling event id none = send-IsSettling event id _
  noted-IsSettling event id (some e) = λ l. send-IsSettling event id _

  publish_saved-IsSettling :
      (event : NormalizedEvent) (id : ℕ)
      → IsSettling (publish_saved repo publisher event id) (owed id)
  unfolding publish_saved mark_raw_event_normalized update_raw_event_process_status
  publish_saved-IsSettling event id =
      λ now. (refl, refl, λ r. noted-IsSettling event id (error_of r))

  answer_saved-IsSettling :
      (event : NormalizedEvent) (id : ℕ) (e : Option Error)
      → IsSettling (answer_saved repo publisher event id e) (owed id)
  unfolding answer_saved
  answer_saved-IsSettling event id none = publish_saved-IsSettling event id
  answer_saved-IsSettling event id (some e) =
      IsSettling-if (errors_is e Sentinel.duplicate_event) _ _ (owed id)
        (answer_duplicate-IsSettling event id) (answer_save_failed-IsSettling event id e)

  insert_event-IsSettling :
      (event : NormalizedEvent) (id : ℕ) (refs : Result String)
      → IsSettling
          (insert_event rt event id refs >>= answer_saved repo publisher event id)
          (owed id)
  unfolding insert_event
  insert_event-IsSettling event id (err e) = answer_saved-IsSettling event id (some e)
  insert_event-IsSettling event id (ok refs) =
      λ now r. answer_saved-IsSettling event id (saved_event r)

  pub persist_and_publish-IsSettling :
      (event : NormalizedEvent) (id : ℕ)
      → IsSettling (persist_and_publish repo publisher event id) (owed id)
  unfolding persist_and_publish save_normalized_event
  persist_and_publish-IsSettling event id = insert_event-IsSettling event id _
