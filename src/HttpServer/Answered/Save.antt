-- ===== src/HttpServer/Answered/Save.antt =====
-- `persistAndPublish` of ingress-service/internal/httpserver/server.go, from its start.
use yunxiao_workflow_agent.Effects.{◌>>=◌, World, exec, Environment, run}
use yunxiao_workflow_agent.Effects.Laws.{Ends-run}
use yunxiao_workflow_agent.Repository.{
  new_event_repository, EventRepository, insert_event, save_normalized_event, saved_event, db_error,
}
use yunxiao_workflow_agent.HttpServer.Answered.{Answered}
use yunxiao_workflow_agent.HttpServer.Persist.{answer_saved, persist_and_publish}
use yunxiao_workflow_agent.Base.{ℕ, String, ◌≡◌, ◌==◌, refl, true, some, eq_iff, false}
use yunxiao_workflow_agent.Model.{NormalizedEvent, external_refs_json}
use yunxiao_workflow_agent.Effects.Schema.{Reply, Database, EventInsert}
use yunxiao_workflow_agent.Runtime.{Runtime}
use yunxiao_workflow_agent.Mq.{Publisher, rabbit_publisher}
use yunxiao_workflow_agent.Base.Result.{Error, Result, err, ok, errors_is, Sentinel}
use yunxiao_workflow_agent.HttpServer.Answered.Persist.{
  Answers, publish-Answers, duplicate-Answers, failed-Answers,
}
use yunxiao_workflow_agent.Json.{Json}
use yunxiao_workflow_agent.Effects.Insertion.{Inserted, faulty-Inserted, inserted, clashes, breaks}

-- `json.Marshal` does not fail with the repository's own sentinel.
abbrev pub MarshalsPlainly : Runtime → Type 0
MarshalsPlainly rt =
    (v : Json) (e : Error) → rt.marshal v ≡ err e → errors_is e Sentinel.duplicate_event ≡ false

eq_refl : (s : String) → (s == s) ≡ true
eq_refl s = (eq_iff s s).1 refl

module _ (rt : Runtime) (exchange : String) (event : NormalizedEvent) (raw_id : ℕ) where
  abbrev repo : EventRepository
  repo = new_event_repository rt

  abbrev publisher : Publisher
  publisher = rabbit_publisher rt exchange

  unsaved-Answers :
      (w v : World) (e : Error)
      → v.messages ≡ w.messages
      → errors_is e Sentinel.duplicate_event ≡ false
      → Answers rt exchange event raw_id w (answer_saved repo publisher event raw_id (some e)) v
  unfolding answer_saved
  unsaved-Answers w v e same other = rw other (failed-Answers rt exchange event raw_id w v e same)

  Inserted-Answers :
      (w : World) (e : EventInsert) (p : Reply Unit × Database)
      → e.event_id ≡ event.event_id
      → e.dedup_key ≡ event.dedup_key
      → Inserted e w.database p
      → Answers rt exchange event raw_id w
          (answer_saved repo publisher event raw_id (saved_event p.0))
          (record w { database = p.1 })
  unfolding answer_saved
  Inserted-Answers w e p id key (inserted h) =
      rw h
        (publish-Answers rt exchange event raw_id w _ (rw (id, eq_refl event.event_id) refl) refl)
  Inserted-Answers w e p id key (clashes h taken) =
      rw h (duplicate-Answers rt exchange event raw_id w (rw (id, key) at taken))
  Inserted-Answers w e p id key (breaks x other h) =
      rw (h, other)
        (failed-Answers rt exchange event raw_id w (record w { database = p.1 }) (db_error x) refl)

  insert-Answers :
      (w : World) (refs : Result String)
      → ((e : Error) → refs ≡ err e → errors_is e Sentinel.duplicate_event ≡ false)
      → Answers rt exchange event raw_id w
          (insert_event rt event raw_id refs >>= answer_saved repo publisher event raw_id)
          w
  unfolding insert_event exec
  insert-Answers w (err e) plain_errors = unsaved-Answers w w e refl (plain_errors e refl)
  insert-Answers w (ok refs) plain_errors =
      λ now saved. Inserted-Answers w _ _ refl refl (faulty-Inserted saved.fault _ w.database)

  -- Whatever the environment decides, where `json.Marshal` does not fail with ErrDuplicateEvent:
  -- the answer of `persistAndPublish` is true of the stored events and of the exchange. 200: an
  -- event with this id or dedup key was stored before, the answer names the stored event with the
  -- key or else the event itself, and neither events nor messages change. 500: no message is sent.
  -- 202 and "published": the event is stored and marked as published, and exactly one message is
  -- sent, with its id and with its type as routing key. 202 and "published_mark_failed": it is
  -- stored and this message is sent. 202 and "stored_publish_failed": it is stored, and no message
  -- or this one is sent. There is no other answer.
  pub answered :
      (env : Environment) (w : World)
      → MarshalsPlainly rt
      → let (r, w') = run (persist_and_publish repo publisher event raw_id) env w in
        Answered event w r w'
  unfolding persist_and_publish save_normalized_event
  answered env w plain_errors =
      Ends-run (Answered event w) (persist_and_publish repo publisher event raw_id) env w
        (insert-Answers w _ (plain_errors (external_refs_json event.external_refs)))
