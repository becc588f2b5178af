-- ===== src/HttpServer/Answered.antt =====
-- What the answers of `persistAndPublish` of ingress-service/internal/httpserver/server.go say of the
-- stored events and of the messages, over the repository and the publisher of this service.
pub mod Publish
pub mod Persist
pub mod Save
use yunxiao_workflow_agent.Effects.{
  fine, before, after, lost, World, Message, Choice, Fault, exec, on_database, faulty,
}
use yunxiao_workflow_agent.Base.{
  ℕ, String, ◌≡◌, ◌==◌, ◌||◌, ◌&&◌, refl, true, false, Bool, some, none, List, ◌∷◌, any, ◌⊎◌, arith,
  Bool-cases, Option, inr, inl,
}
use yunxiao_workflow_agent.Base.Dict.{lookup}
use yunxiao_workflow_agent.Http.{Response}
use yunxiao_workflow_agent.Model.{NormalizedEvent}
use yunxiao_workflow_agent.Effects.Tables.{
  has_event_id, has_dedup_key, insert_normalized_event, event_row, not_unique, event_fits, too_long,
  has_raw_id, no_parent, find_by_key,
}
use yunxiao_workflow_agent.Effects.Schema.{
  EventRow, EventInsert, Database, DbError, Reply, done, failed,
}
use yunxiao_workflow_agent.Repository.{is_unique_violation}

abbrev pub text_of : Response → Option String
text_of r = lookup "status" r.body

-- An event with this id is stored, and is marked as published.
abbrev pub is_stored : String → World → Bool
is_stored id w = any (has_event_id id) w.database.normalized_events

abbrev is_marked : String → EventRow → Bool
is_marked id row = row.event_id == id && row.publish_status == "published"

abbrev pub is_published : String → World → Bool
is_published id w = any (is_marked id) w.database.normalized_events

-- An event with the id or the dedup key of this one is stored.
abbrev pub is_taken : NormalizedEvent → World → Bool
is_taken event w =
    any (has_event_id event.event_id) w.database.normalized_events
    || any (has_dedup_key event.dedup_key) w.database.normalized_events

-- Since `w` the exchange has got one message, that of the event.
abbrev pub Delivered : NormalizedEvent → World → World → Type 0
Delivered event w w' =
    (m : Message) × (w'.messages ≡ m ∷ w.messages)
    × (m.message_id ≡ event.event_id)
    × (m.routing_key ≡ event.event_type)

-- The id in the answer to a duplicate: that of the stored event with its dedup key, or its own.
abbrev pub IsNamed : NormalizedEvent → World → Response → Type 0
IsNamed event w r =
    (id : String) × (lookup "event_id" r.body ≡ some id)
    × ((id ≡ event.event_id) ⊎ (find_by_key event.dedup_key w.database.normalized_events ≡ some id))

-- The answer to an event, the world before it, and the world after it.
pub data Answered (event : NormalizedEvent) (w : World) (r : Response) (w' : World) : Type 0 where
  duplicate :
      r.status ≡ 200
      → is_taken event w ≡ true
      → IsNamed event w r
      → w'.database.normalized_events ≡ w.database.normalized_events
      → w'.messages ≡ w.messages
      → Answered event w r w'
  not_saved : r.status ≡ 500 → w'.messages ≡ w.messages → Answered event w r w'
  published :
      r.status ≡ 202
      → text_of r ≡ some "published"
      → is_published event.event_id w' ≡ true
      → Delivered event w w'
      → Answered event w r w'
  not_marked :
      r.status ≡ 202
      → text_of r ≡ some "published_mark_failed"
      → is_stored event.event_id w' ≡ true
      → Delivered event w w'
      → Answered event w r w'
  not_published :
      r.status ≡ 202
      → text_of r ≡ some "stored_publish_failed"
      → is_stored event.event_id w' ≡ true
      → (w'.messages ≡ w.messages) ⊎ Delivered event w w'
      → Answered event w r w'
