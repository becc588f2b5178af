-- ===== src/HttpServer/Order/Persist.antt =====
-- The order in which the handlers of ingress-service/internal/httpserver/server.go store and publish: `persistAndPublish`.
use yunxiao_workflow_agent.Base.{ℕ, String, refl, Option, none, some, inl, inr, Bool-cases}
use yunxiao_workflow_agent.Base.Result.{Sentinel, Error, Result, ok, err, errors_is}
use yunxiao_workflow_agent.Runtime.{Runtime}
use yunxiao_workflow_agent.Http.{Response}
use yunxiao_workflow_agent.Config.{Config}
use yunxiao_workflow_agent.Model.{NormalizedEvent}
use yunxiao_workflow_agent.Effects.{Prog, ◌>>=◌}
use yunxiao_workflow_agent.Effects.Schema.{DbError, failed}
use yunxiao_workflow_agent.Effects.Discipline.{
  IsOrdered, IsOrdered-bind, IsOrdered-if, Phase, idle, armed, delivered, quiet,
}
use yunxiao_workflow_agent.Repository.{
  EventRepository, error_of, db_error, err_duplicate_event, is_unique_violation, saved_event,
  insert_event, new_event_repository, save_normalized_event, mark_raw_event_normalized,
  mark_raw_event_failed, mark_published, mark_publish_failed, find_normalized_event_id_by_dedup_key,
}
use yunxiao_workflow_agent.Mq.{Publisher, send, publish, rabbit_publisher}
use yunxiao_workflow_agent.HttpServer.Persist.{
  log_webhook, log_mark, answer_sent, answer_saved, answer_duplicate, answer_save_failed,
  publish_saved, persist_and_publish, answer_marked,
}

module _ (rt : Runtime) (cfg : Config) (exchange : String) where
  abbrev pub repo : EventRepository
  repo = new_event_repository rt

  abbrev pub publisher : Publisher
  publisher = rabbit_publisher rt exchange

  answer_duplicate-IsOrdered :
      (event : NormalizedEvent) (id : ℕ) → IsOrdered (answer_duplicate repo publisher event id) idle
  unfolding answer_duplicate find_normalized_event_id_by_dedup_key mark_raw_event_normalized
      log_webhook
  answer_duplicate-IsOrdered event id = λ found now r l. tt

  answer_save_failed-IsOrdered :
      (event : NormalizedEvent) (id : ℕ) (e : Error)
      → IsOrdered (answer_save_failed repo publisher event id e) idle
  unfolding answer_save_failed mark_raw_event_failed log_webhook
  answer_save_failed-IsOrdered event id e = λ now r l. tt

  answer_marked-IsOrdered :
      (event : NormalizedEvent) (id : ℕ) (marked : Option Error) (ph : Phase)
      → IsOrdered (answer_marked repo publisher event id marked) ph
  unfolding answer_marked log_webhook
  answer_marked-IsOrdered event id none ph = λ l. tt
  answer_marked-IsOrdered event id (some e) ph = λ l. tt

  -- Publishing sends the event's own id, once.
  send-IsOrdered :
      (event : NormalizedEvent) (body : Result String) (f : Option Error → Prog Response)
      → IsOrdered (f none) (delivered event.event_id)
      → ((ph : Phase) (e : Error) → IsOrdered (f (some e)) ph)
      → IsOrdered (send rt exchange event body >>= f) (armed event.event_id)
  unfolding send
  send-IsOrdered event (ok body) f h k = λ now. (refl, h, λ x. k quiet (db_error x))
  send-IsOrdered event (err e) f h k = k (armed event.event_id) e

  log_mark-IsOrdered :
      (event : NormalizedEvent) (id : ℕ) (e : Option Error)
      → IsOrdered (log_mark repo publisher event id e) quiet
  unfolding log_webhook
  log_mark-IsOrdered event id none = tt
  log_mark-IsOrdered event id (some e) = λ l. tt

  answer_sent-IsOrdered :
      (event : NormalizedEvent) (id : ℕ)
      → IsOrdered (answer_sent repo publisher event id none) (delivered event.event_id)
  unfolding answer_sent mark_published
  answer_sent-IsOrdered event id =
      λ now. (refl, λ r. answer_marked-IsOrdered event id (error_of r) (delivered event.event_id))

  answer_unsent-IsOrdered :
      (event : NormalizedEvent) (id : ℕ) (ph : Phase) (e : Error)
      → IsOrdered (answer_sent repo publisher event id (some e)) ph
  unfolding answer_sent mark_publish_failed log_webhook
  answer_unsent-IsOrdered event id ph e = λ r l. tt

  publish_saved-IsOrdered :
      (event : NormalizedEvent) (id : ℕ)
      → IsOrdered (publish_saved repo publisher event id) (armed event.event_id)
  unfolding publish_saved mark_raw_event_normalized publish
  publish_saved-IsOrdered event id = λ now r.
      IsOrdered-bind (log_mark repo publisher event id (error_of r))
        (λ _. publish rt exchange event >>= answer_sent repo publisher event id)
        (armed event.event_id) (log_mark-IsOrdered event id (error_of r))
        (λ _.
          send-IsOrdered event _ (answer_sent repo publisher event id)
            (answer_sent-IsOrdered event id) (answer_unsent-IsOrdered event id))

  answer_unsaved-IsOrdered :
      (event : NormalizedEvent) (id : ℕ) (e : Error)
      → IsOrdered (answer_saved repo publisher event id (some e)) idle
  unfolding answer_saved
  answer_unsaved-IsOrdered event id e =
      IsOrdered-if (errors_is e Sentinel.duplicate_event) _ _ idle
        (answer_duplicate-IsOrdered event id) (answer_save_failed-IsOrdered event id e)

  saved_event-IsOrdered :
      (event : NormalizedEvent) (id : ℕ) (x : DbError)
      → IsOrdered (answer_saved repo publisher event id (saved_event (failed x))) idle
  saved_event-IsOrdered event id x = elim (Bool-cases (is_unique_violation x)) [
    | inl e ↦ rw e (answer_unsaved-IsOrdered event id err_duplicate_event)
    | inr e ↦ rw e (answer_unsaved-IsOrdered event id (db_error x))
  ]

  insert_event-IsOrdered :
      (event : NormalizedEvent) (id : ℕ) (refs : Result String)
      → IsOrdered (insert_event rt event id refs >>= answer_saved repo publisher event id) idle
  unfolding insert_event
  insert_event-IsOrdered event id (err e) = answer_unsaved-IsOrdered event id e
  insert_event-IsOrdered event id (ok refs) = λ now. (
    unfold answer_saved in publish_saved-IsOrdered event id,
    λ x. saved_event-IsOrdered event id x,
  )

  pub persist_and_publish-IsOrdered :
      (event : NormalizedEvent) (id : ℕ)
      → IsOrdered (persist_and_publish repo publisher event id) idle
  unfolding persist_and_publish save_normalized_event
  persist_and_publish-IsOrdered event id = insert_event-IsOrdered event id _
