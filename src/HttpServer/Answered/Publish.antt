-- ===== src/HttpServer/Answered/Publish.antt =====
-- Publishing in `persistAndPublish` of ingress-service/internal/httpserver/server.go, from its end.
use yunxiao_workflow_agent.Effects.{
  ◌>>=◌, fine, before, after, deliver, Fault, World, Message, exec, on_database, faulty, Prog, ◌>>◌,
}
use yunxiao_workflow_agent.Effects.Laws.{Ends}
use yunxiao_workflow_agent.Repository.{
  mark_published, mark_publish_failed, new_event_repository, error_of, EventRepository,
}
use yunxiao_workflow_agent.HttpServer.Answered.{
  Answered, published, not_marked, not_published, is_stored, is_marked, Delivered,
}
use yunxiao_workflow_agent.HttpServer.Persist.{
  answer_sent, answer_marked, log_webhook, log_mark, json,
}
use yunxiao_workflow_agent.Base.{
  ℕ, String, ◌≡◌, ◌==◌, refl, true, some, none, List, ◌∷◌, any, ◌⊎◌, arith, Bool-cases, Option, inr,
  inl, [], ap,
}
use yunxiao_workflow_agent.Base.Dict.{lookup}
use yunxiao_workflow_agent.Http.{Response}
use yunxiao_workflow_agent.Model.{NormalizedEvent}
use yunxiao_workflow_agent.Effects.Tables.{
  has_event_id, update_event, update_published, update_publish_failed, set_published, set_failed,
}
use yunxiao_workflow_agent.Effects.Schema.{EventRow}
use yunxiao_workflow_agent.Runtime.{Runtime, Time, utc}
use yunxiao_workflow_agent.Mq.{publish, Publisher, rabbit_publisher, send}
use yunxiao_workflow_agent.Base.Result.{Error, Result, err, ok}

-- Marking an event keeps it stored, and marks it.
update_event-stored :
    (f : EventRow → EventRow) (id : String) (rows : List EventRow)
    → ((row : EventRow) → (f row).event_id ≡ row.event_id)
    → any (has_event_id id) rows ≡ true
    → any (has_event_id id) (update_event f id rows) ≡ true
unfolding update_event
update_event-stored f id [] same h = h
update_event-stored f id (row ∷ rows) same h =
    ground (arith, h, same row, update_event-stored f id rows same)

update_event-marked :
    (t : Time) (id : String) (rows : List EventRow)
    → any (has_event_id id) rows ≡ true
    → any (is_marked id) (update_event (set_published t) id rows) ≡ true
unfolding update_event
update_event-marked t id [] h = h
update_event-marked t id (row ∷ rows) h = elim (Bool-cases (row.event_id == id)) [
  | inl hit ↦ rw (hit, hit) refl
  | inr other ↦ rw other (rw other (update_event-marked t id rows (rw other at h)))
]

module _ (rt : Runtime) (exchange : String) (event : NormalizedEvent) (raw_id : ℕ) (w : World) where
  abbrev repo : EventRepository
  repo = new_event_repository rt

  abbrev publisher : Publisher
  publisher = rabbit_publisher rt exchange

  abbrev Answers : Prog Response → World → Type 0
  Answers = Ends (Answered event w)

  marked-Answers :
      (f : Fault) (t : Time) (v : World)
      → is_stored event.event_id v ≡ true
      → Delivered event w v
      → let (r, v') = on_database v (faulty f (update_published t event.event_id) v.database) in
        Answers (answer_marked repo publisher event raw_id (error_of r)) v'
  unfolding answer_marked log_webhook exec update_published lookup
  marked-Answers fine t v stored sent =
      λ l. published refl refl (update_event-marked t event.event_id _ stored) sent
  marked-Answers (before m) t v stored sent = λ l. not_marked refl refl stored sent
  marked-Answers (after m) t v stored sent = λ l.
      not_marked refl refl
        (update_event-stored (set_published t) event.event_id _ (λ row. refl) stored) sent

  unsent-Answers :
      (f : Fault) (v : World) (e : Error)
      → is_stored event.event_id v ≡ true
      → (v.messages ≡ w.messages) ⊎ Delivered event w v
      → let (r, v') = on_database v (faulty f (update_publish_failed event.event_id) v.database) in
        Answers
          (log_webhook "normalized" event.trace_id raw_id event.source event.event_type "" 202
              (some e)
            >> json 202 (("event_id", event.event_id) ∷ ("status", "stored_publish_failed") ∷ []))
          v'
  unfolding log_webhook exec update_publish_failed lookup
  unsent-Answers fine v e stored sent = λ l.
      not_published refl refl (update_event-stored set_failed event.event_id _ (λ row. refl) stored)
        sent
  unsent-Answers (before m) v e stored sent = λ l. not_published refl refl stored sent
  unsent-Answers (after m) v e stored sent = λ l.
      not_published refl refl (update_event-stored set_failed event.event_id _ (λ row. refl) stored)
        sent

  -- What follows the attempt to publish.
  sent-Answers :
      (v : World)
      → is_stored event.event_id v ≡ true
      → Delivered event w v
      → Answers (answer_sent repo publisher event raw_id none) v
  unfolding answer_sent mark_published exec
  sent-Answers v stored sent =
      λ now marked. marked-Answers marked.fault (utc now.time) v stored sent

  lost-Answers :
      (v : World) (e : Error)
      → is_stored event.event_id v ≡ true
      → (v.messages ≡ w.messages) ⊎ Delivered event w v
      → Answers (answer_sent repo publisher event raw_id (some e)) v
  unfolding answer_sent mark_publish_failed exec
  lost-Answers v e stored sent = λ marked. unsent-Answers marked.fault v e stored sent

  -- The attempt to publish, under a fault.
  deliver-Answers :
      (f : Fault) (m : Message) (v : World)
      → m.message_id ≡ event.event_id
      → m.routing_key ≡ event.event_type
      → is_stored event.event_id v ≡ true
      → v.messages ≡ w.messages
      → let (r, v') = deliver f m v in
        Answers (answer_sent repo publisher event raw_id (error_of r)) v'
  deliver-Answers fine m v id key stored same =
      sent-Answers _ stored (m, ap (λ ms. m ∷ ms) same, id, key)
  deliver-Answers (before e) m v id key stored same = lost-Answers v _ stored (inl same)
  deliver-Answers (after e) m v id key stored same =
      lost-Answers _ _ stored (inr (m, ap (λ ms. m ∷ ms) same, id, key))

  send-Answers :
      (body : Result String) (v : World)
      → is_stored event.event_id v ≡ true
      → v.messages ≡ w.messages
      → Answers (send rt exchange event body >>= answer_sent repo publisher event raw_id) v
  unfolding send exec
  send-Answers (err e) v stored same = lost-Answers v e stored (inl same)
  send-Answers (ok body) v stored same =
      λ now sent. deliver-Answers sent.fault _ v refl refl stored same

  pub logged-Answers :
      (marked : Option Error) (v : World)
      → is_stored event.event_id v ≡ true
      → v.messages ≡ w.messages
      → Answers
          (log_mark repo publisher event raw_id marked >>= λ u.
            publish rt exchange event >>= answer_sent repo publisher event raw_id)
          v
  unfolding log_webhook publish exec
  logged-Answers none v stored same = send-Answers _ v stored same
  logged-Answers (some e) v stored same = λ l. send-Answers _ _ stored same
