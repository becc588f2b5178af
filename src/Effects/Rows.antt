-- ===== src/Effects/Rows.antt =====
-- What the statements do to the rows of the two tables.
use yunxiao_workflow_agent.Base.{◌≡◌, refl, ◌⊎◌, inl, inr, ◌∷◌, arith, any, Bool-cases}
use yunxiao_workflow_agent.Effects.Tables.{
  event_row, insert_raw_event, update_raw_status, update_raw_meta, insert_normalized_event,
  event_fits, too_long, not_unique, no_parent, has_event_id, has_dedup_key, has_raw_id,
}
use yunxiao_workflow_agent.Effects.Schema.{
  Database, EventInsert, RawInsert, StatusUpdate, MetaUpdate, DbError, done, failed,
}

-- An event is inserted, or nothing is changed.
pub insert_cases :
    (e : EventInsert) (d : Database)
    → (insert_normalized_event e d
        ≡ (done tt, record d { normalized_events = event_row e ∷ d.normalized_events }))
      ⊎ ((x : DbError) × (insert_normalized_event e d ≡ (failed x, d)))
unfolding insert_normalized_event
insert_cases e d = elim (Bool-cases (event_fits e)) [
  | inr wide ↦ rw wide (inr (too_long, refl))
  | inl fit ↦ rw fit (elim (Bool-cases (any (has_event_id e.event_id) d.normalized_events)) [
    | inl old ↦ rw old (inr (not_unique, refl))
    | inr new_id ↦
        rw new_id (elim (Bool-cases (any (has_dedup_key e.dedup_key) d.normalized_events)) [
          | inl old ↦ rw old (inr (not_unique, refl))
          | inr new_key ↦
              rw new_key (elim (Bool-cases (any (has_raw_id e.raw_event_id) d.raw_events)) [
                | inl parent ↦ rw parent (inl refl)
                | inr orphan ↦ rw orphan (inr (no_parent, refl))
              ])
        ])
  ])
]

pub raw_insert-same :
    (r : RawInsert) (d : Database)
    → (insert_raw_event r d).1.normalized_events ≡ d.normalized_events
unfolding insert_raw_event
raw_insert-same r d = ground arith

pub raw_status-same :
    (u : StatusUpdate) (d : Database)
    → (update_raw_status u d).1.normalized_events ≡ d.normalized_events
unfolding update_raw_status
raw_status-same u d = ground arith

pub raw_meta-same :
    (u : MetaUpdate) (d : Database)
    → (update_raw_meta u d).1.normalized_events ≡ d.normalized_events
unfolding update_raw_meta
raw_meta-same u d = ground arith
