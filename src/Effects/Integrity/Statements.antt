-- ===== src/Effects/Integrity/Statements.antt =====
-- Every statement keeps the constraints of the two tables, whatever fails.
use yunxiao_workflow_agent.Base.{
  ◌+◌, String, ◌≡◌, refl, false, List, [], ◌∷◌, arith, any, All, Bool-cases, inl, inr,
}
use yunxiao_workflow_agent.Runtime.{Time}
use yunxiao_workflow_agent.Effects.{
  World, Call, Choice, exec, Fault, fine, before, after, faulty, lost, deliver, Message,
}
use yunxiao_workflow_agent.Effects.Tables.{
  set_status, set_meta, set_published, set_failed, has_event_id, has_dedup_key, has_raw_id,
  raw_fits, event_fits, event_row, insert_raw_event, update_raw_status, update_raw_meta,
  select_event_id, insert_normalized_event, update_published, update_publish_failed,
}
use yunxiao_workflow_agent.Effects.Schema.{
  Database, Reply, done, failed, RawRow, EventRow, RawInsert, EventInsert, StatusUpdate, MetaUpdate,
}
use yunxiao_workflow_agent.Effects.Integrity.{
  HasParent, IsConsistent, below_next, next_is_new, update_raw-IsConsistent, SameKeys,
  update_event-IsConsistent,
}

parents_cons :
    (raws : List RawRow) (r : RawRow) (rows : List EventRow)
    → All (HasParent raws) rows
    → All (HasParent (r ∷ raws)) rows
parents_cons raws r [] h = tt
parents_cons raws r (e ∷ rows) (p, h) = ground (arith, parents_cons raws r rows h)

cons_raw-IsConsistent :
    (r : RawRow) (d : Database)
    → r.id ≡ d.next_raw_id
    → IsConsistent d
    → IsConsistent (record d { raw_events = r ∷ d.raw_events; next_raw_id = d.next_raw_id + 1 })
cons_raw-IsConsistent r d e h = record {
  ids_below = (omega arith, below_next d.next_raw_id d.raw_events h.ids_below);
  ids_distinct = (rw e (next_is_new d.next_raw_id d.raw_events h.ids_below), h.ids_distinct);
  event_ids_distinct = h.event_ids_distinct;
  dedup_keys_distinct = h.dedup_keys_distinct;
  parents = parents_cons d.raw_events r d.normalized_events h.parents;
}

insert_raw_event-IsConsistent :
    (r : RawInsert) (d : Database) → IsConsistent d → IsConsistent (insert_raw_event r d).1
unfolding insert_raw_event
insert_raw_event-IsConsistent r d h = elim (Bool-cases (raw_fits r)) [
  | inl fit ↦ rw fit (cons_raw-IsConsistent _ d refl h)
  | inr wide ↦ rw wide h
]

cons_event-IsConsistent :
    (e : EventRow) (d : Database)
    → any (has_event_id e.event_id) d.normalized_events ≡ false
    → any (has_dedup_key e.dedup_key) d.normalized_events ≡ false
    → HasParent d.raw_events e
    → IsConsistent d
    → IsConsistent (record d { normalized_events = e ∷ d.normalized_events })
cons_event-IsConsistent e d new_id new_key parent h = record {
  ids_below = h.ids_below;
  ids_distinct = h.ids_distinct;
  event_ids_distinct = (new_id, h.event_ids_distinct);
  dedup_keys_distinct = (new_key, h.dedup_keys_distinct);
  parents = (parent, h.parents);
}

insert_normalized_event-IsConsistent :
    (e : EventInsert) (d : Database) → IsConsistent d → IsConsistent (insert_normalized_event e d).1
unfolding insert_normalized_event
insert_normalized_event-IsConsistent e d h = elim (Bool-cases (event_fits e)) [
  | inr wide ↦ rw wide h
  | inl fit ↦ rw fit (elim (Bool-cases (any (has_event_id e.event_id) d.normalized_events)) [
    | inl old ↦ rw old h
    | inr new_id ↦
        rw new_id (elim (Bool-cases (any (has_dedup_key e.dedup_key) d.normalized_events)) [
          | inl old ↦ rw old h
          | inr new_key ↦
              rw new_key (elim (Bool-cases (any (has_raw_id e.raw_event_id) d.raw_events)) [
                | inl parent ↦
                    rw parent (cons_event-IsConsistent (event_row e) d new_id new_key parent h)
                | inr orphan ↦ rw orphan h
              ])
        ])
  ])
]

update_raw_status-IsConsistent :
    (u : StatusUpdate) (d : Database) → IsConsistent d → IsConsistent (update_raw_status u d).1
unfolding update_raw_status
update_raw_status-IsConsistent u d h =
    ground (arith, update_raw-IsConsistent (set_status u) (λ (r : RawRow). refl) u.id d h)

update_raw_meta-IsConsistent :
    (u : MetaUpdate) (d : Database) → IsConsistent d → IsConsistent (update_raw_meta u d).1
unfolding update_raw_meta
update_raw_meta-IsConsistent u d h =
    ground (arith, update_raw-IsConsistent (set_meta u) (λ (r : RawRow). refl) u.id d h)

pub set_published-SameKeys : (t : Time) → SameKeys (set_published t)
set_published-SameKeys t = record {
  event_id = λ e. refl;
  dedup_key = λ e. refl;
  raw_event_id = λ e. refl;
}

pub set_failed-SameKeys : SameKeys set_failed
set_failed-SameKeys = record {
  event_id = λ e. refl;
  dedup_key = λ e. refl;
  raw_event_id = λ e. refl;
}

update_published-IsConsistent :
    (t : Time) (k : String) (d : Database)
    → IsConsistent d
    → IsConsistent (update_published t k d).1
unfolding update_published
update_published-IsConsistent t k d h =
    update_event-IsConsistent (set_published t) (set_published-SameKeys t) k d h

update_publish_failed-IsConsistent :
    (k : String) (d : Database) → IsConsistent d → IsConsistent (update_publish_failed k d).1
unfolding update_publish_failed
update_publish_failed-IsConsistent k d h =
    update_event-IsConsistent set_failed set_failed-SameKeys k d h

lost_keeps :
    {A : Type 0} (P : Database → Type 0) (m : String) (r : Reply A × Database)
    → P r.1
    → P (lost m r).1
lost_keeps P m (done a, d) h = h
lost_keeps P m (failed e, d) h = h

deliver_keeps :
    (f : Fault) (m : Message) (w : World)
    → IsConsistent w.database
    → IsConsistent (deliver f m w).1.database
deliver_keeps fine m w h = h
deliver_keeps (before e) m w h = h
deliver_keeps (after e) m w h = h

-- What a statement keeps it keeps under a fault.
pub faulty_keeps :
    {A : Type 0} (P : Database → Type 0) (statement : Database → Reply A × Database) (f : Fault)
    (d : Database)
    → P d
    → P (statement d).1
    → P (faulty f statement d).1
faulty_keeps P statement fine d h k = k
faulty_keeps P statement (before m) d h k = h
faulty_keeps P statement (after m) d h k = lost_keeps P m (statement d) k

-- Every call, under every fault, keeps the tables consistent.
pub exec-IsConsistent :
    (c : Call) (ch : Choice) (w : World)
    → IsConsistent w.database
    → IsConsistent (exec c ch w).1.database
unfolding exec
exec-IsConsistent (Call.raw_insert r) ch w h =
    faulty_keeps IsConsistent (insert_raw_event r) ch.fault w.database h
      (insert_raw_event-IsConsistent r w.database h)
exec-IsConsistent (Call.raw_status u) ch w h =
    faulty_keeps IsConsistent (update_raw_status u) ch.fault w.database h
      (update_raw_status-IsConsistent u w.database h)
exec-IsConsistent (Call.raw_meta u) ch w h =
    faulty_keeps IsConsistent (update_raw_meta u) ch.fault w.database h
      (update_raw_meta-IsConsistent u w.database h)
exec-IsConsistent (Call.find_event_id k) ch w h =
    faulty_keeps IsConsistent (select_event_id k) ch.fault w.database h h
exec-IsConsistent (Call.event_insert e) ch w h =
    faulty_keeps IsConsistent (insert_normalized_event e) ch.fault w.database h
      (insert_normalized_event-IsConsistent e w.database h)
exec-IsConsistent (Call.mark_published t k) ch w h =
    faulty_keeps IsConsistent (update_published t k) ch.fault w.database h
      (update_published-IsConsistent t k w.database h)
exec-IsConsistent (Call.mark_failed k) ch w h =
    faulty_keeps IsConsistent (update_publish_failed k) ch.fault w.database h
      (update_publish_failed-IsConsistent k w.database h)
exec-IsConsistent (Call.publish m) ch w h = deliver_keeps ch.fault m w h
exec-IsConsistent _ ch w h = h
