-- ===== src/Effects/Insertion.antt =====
-- How the insertion of an event ends, whether the connection fails or not.
use yunxiao_workflow_agent.Effects.{fine, before, after, lost, Fault, faulty, driver_error}
use yunxiao_workflow_agent.Base.{
  String, ◌≡◌, ◌||◌, refl, true, false, ◌∷◌, any, Bool-cases, inr, inl,
}
use yunxiao_workflow_agent.Effects.Tables.{
  has_event_id, has_dedup_key, insert_normalized_event, event_row, not_unique, event_fits, too_long,
  has_raw_id, no_parent,
}
use yunxiao_workflow_agent.Effects.Schema.{EventInsert, Database, DbError, Reply, done, failed}
use yunxiao_workflow_agent.Repository.{is_unique_violation}

-- How the insertion of an event ends.
pub data Inserted (e : EventInsert) (d : Database) (p : Reply Unit × Database) : Type 0 where
  inserted :
      p ≡ (done tt, record d { normalized_events = event_row e ∷ d.normalized_events })
      → Inserted e d p
  clashes :
      p ≡ (failed not_unique, d)
      → (any (has_event_id e.event_id) d.normalized_events
          || any (has_dedup_key e.dedup_key) d.normalized_events)
        ≡ true
      → Inserted e d p
  breaks : (x : DbError) → is_unique_violation x ≡ false → p.0 ≡ failed x → Inserted e d p

statement-Inserted : (e : EventInsert) (d : Database) → Inserted e d (insert_normalized_event e d)
unfolding insert_normalized_event
statement-Inserted e d = elim (Bool-cases (event_fits e)) [
  | inr wide ↦ rw wide (breaks too_long refl refl)
  | inl fit ↦ rw fit (elim (Bool-cases (any (has_event_id e.event_id) d.normalized_events)) [
    | inl old ↦ rw old (clashes refl (rw old refl))
    | inr new_id ↦
        rw new_id (elim (Bool-cases (any (has_dedup_key e.dedup_key) d.normalized_events)) [
          | inl old ↦ rw old (clashes refl (rw (new_id, old) refl))
          | inr new_key ↦
              rw new_key (elim (Bool-cases (any (has_raw_id e.raw_event_id) d.raw_events)) [
                | inl parent ↦ rw parent (inserted refl)
                | inr orphan ↦ rw orphan (breaks no_parent refl refl)
              ])
        ])
  ])
]

-- Under a fault it may be stored although the reply is an error.
lost-Inserted :
    (m : String) (e : EventInsert) (d : Database) (p : Reply Unit × Database)
    → Inserted e d p
    → Inserted e d (lost m p)
lost-Inserted m e d (done u, d') h = breaks (driver_error m) refl refl
lost-Inserted m e d (failed x, d') h = h

pub faulty-Inserted :
    (f : Fault) (e : EventInsert) (d : Database)
    → Inserted e d (faulty f (insert_normalized_event e) d)
faulty-Inserted fine e d = statement-Inserted e d
faulty-Inserted (before m) e d = breaks (driver_error m) refl refl
faulty-Inserted (after m) e d = lost-Inserted m e d _ (statement-Inserted e d)
