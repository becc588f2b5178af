-- ===== src/Effects/Evidence.antt =====
-- What no call ever changes: the raw events as they were received, and the stored events up to their
-- publication status.
use yunxiao_workflow_agent.Base.{
  ℕ, String, ◌≡◌, refl, ◌⊎◌, inl, inr, Bool, Option, List, [], ◌∷◌, ◌∙◌, none, Bool-cases, nat_beq,
  ◌==◌, ◌&&◌,
}
use yunxiao_workflow_agent.Runtime.{Bytes, Time}
use yunxiao_workflow_agent.Effects.{
  World, Call, Choice, exec, deliver, Fault, fine, before, after, Message,
}
use yunxiao_workflow_agent.Effects.Tables.{
  update_raw, update_event, set_status, set_meta, set_published, set_failed, insert_raw_event,
  update_raw_status, update_raw_meta, select_event_id, insert_normalized_event, update_published,
  update_publish_failed, raw_fits, fits,
}
use yunxiao_workflow_agent.Effects.Schema.{
  Database, RawRow, EventRow, EventInsert, RawInsert, StatusUpdate, MetaUpdate,
}
use yunxiao_workflow_agent.Effects.Rows.{
  insert_cases, raw_insert-same, raw_status-same, raw_meta-same,
}
use yunxiao_workflow_agent.Effects.Integrity.Statements.{faulty_keeps}

-- The columns of a raw event that hold what was received.
pub record Receipt : Type 0 where
  pub id : ℕ
  pub source : String
  pub signature_valid : Bool
  pub headers_json : String
  pub payload_json : Option Bytes
  pub payload_text : Bytes
  pub received_at : Time
  pub trace_id : String
  pub created_at : Time

abbrev pub receipt : RawRow → Receipt
receipt r = record {
  id = r.id;
  source = r.source;
  signature_valid = r.signature_valid;
  headers_json = r.headers_json;
  payload_json = r.payload_json;
  payload_text = r.payload_text;
  received_at = r.received_at;
  trace_id = r.trace_id;
  created_at = r.created_at;
}

-- A stored event without its publication status.
abbrev pub content : EventRow → EventRow
content e = record e { publish_status = ""; published_at = none }

-- One of the rows shows this view.
abbrev pub Shows : {A B : Type 0} → (A → B) → B → List A → Type 0
Shows view b [] = ⊥
Shows view b (x ∷ xs) = (view x ≡ b) ⊎ Shows view b xs

-- The receipt, or the event, is in the tables.
abbrev pub IsReceived : Receipt → Database → Type 0
IsReceived e d = Shows receipt e d.raw_events

abbrev pub IsStored : EventRow → Database → Type 0
IsStored e d = Shows content e d.normalized_events

Shows-update_raw :
    (f : RawRow → RawRow)
    → ((r : RawRow) → receipt (f r) ≡ receipt r)
    → (e : Receipt) (k : ℕ) (rows : List RawRow) → Shows receipt e rows
    → Shows receipt e (update_raw f k rows)
unfolding update_raw
Shows-update_raw f same e k [] h = h
Shows-update_raw f same e k (r ∷ rows) (inr h) = inr (Shows-update_raw f same e k rows h)
Shows-update_raw f same e k (r ∷ rows) (inl h) = elim (Bool-cases (nat_beq r.id k)) [
  | inl hit ↦ rw hit (inl (same r ∙ h))
  | inr miss ↦ rw miss (inl h)
]

Shows-update_event :
    (f : EventRow → EventRow)
    → ((r : EventRow) → content (f r) ≡ content r)
    → (e : EventRow) (k : String) (rows : List EventRow) → Shows content e rows
    → Shows content e (update_event f k rows)
unfolding update_event
Shows-update_event f same e k [] h = h
Shows-update_event f same e k (r ∷ rows) (inr h) = inr (Shows-update_event f same e k rows h)
Shows-update_event f same e k (r ∷ rows) (inl h) = elim (Bool-cases (r.event_id == k)) [
  | inl hit ↦ rw hit (inl (same r ∙ h))
  | inr miss ↦ rw miss (inl h)
]

module _ (e : Receipt) where
  raw_insert-IsReceived :
      (r : RawInsert) (d : Database) → IsReceived e d → IsReceived e (insert_raw_event r d).1
  unfolding insert_raw_event
  raw_insert-IsReceived r d h = elim (Bool-cases (raw_fits r)) [
    | inl fit ↦ rw fit (inr h)
    | inr wide ↦ rw wide h
  ]

  raw_status-IsReceived :
      (u : StatusUpdate) (d : Database) → IsReceived e d → IsReceived e (update_raw_status u d).1
  unfolding update_raw_status
  raw_status-IsReceived u d h =
      elim (Bool-cases (fits 32 u.status && fits 128 u.normalized_event_id)) [
        | inl fit ↦ rw fit (Shows-update_raw (set_status u) (λ r. refl) e u.id d.raw_events h)
        | inr wide ↦ rw wide h
      ]

  raw_meta-IsReceived :
      (u : MetaUpdate) (d : Database) → IsReceived e d → IsReceived e (update_raw_meta u d).1
  unfolding update_raw_meta
  raw_meta-IsReceived u d h =
      elim (Bool-cases (fits 128 u.event_type && fits 255 u.external_event_id)) [
        | inl fit ↦ rw fit (Shows-update_raw (set_meta u) (λ r. refl) e u.id d.raw_events h)
        | inr wide ↦ rw wide h
      ]

  event_insert-IsReceived :
      (i : EventInsert) (d : Database)
      → IsReceived e d
      → IsReceived e (insert_normalized_event i d).1
  event_insert-IsReceived i d h = elim (insert_cases i d) [
    | inl new ↦ rw new h
    | inr (x, old) ↦ rw old h
  ]

  deliver-IsReceived :
      (f : Fault) (m : Message) (w : World)
      → IsReceived e w.database
      → IsReceived e (deliver f m w).1.database
  deliver-IsReceived fine m w h = h
  deliver-IsReceived (before x) m w h = h
  deliver-IsReceived (after x) m w h = h

  pub exec-IsReceived :
      (c : Call) (ch : Choice) (w : World)
      → IsReceived e w.database
      → IsReceived e (exec c ch w).1.database
  unfolding exec
  exec-IsReceived (Call.raw_insert r) ch w h =
      faulty_keeps (IsReceived e) (insert_raw_event r) ch.fault w.database h
        (raw_insert-IsReceived r w.database h)
  exec-IsReceived (Call.raw_status u) ch w h =
      faulty_keeps (IsReceived e) (update_raw_status u) ch.fault w.database h
        (raw_status-IsReceived u w.database h)
  exec-IsReceived (Call.raw_meta u) ch w h =
      faulty_keeps (IsReceived e) (update_raw_meta u) ch.fault w.database h
        (raw_meta-IsReceived u w.database h)
  exec-IsReceived (Call.find_event_id k) ch w h =
      faulty_keeps (IsReceived e) (select_event_id k) ch.fault w.database h h
  exec-IsReceived (Call.event_insert i) ch w h =
      faulty_keeps (IsReceived e) (insert_normalized_event i) ch.fault w.database h
        (event_insert-IsReceived i w.database h)
  exec-IsReceived (Call.mark_published t k) ch w h =
      faulty_keeps (IsReceived e) (update_published t k) ch.fault w.database h h
  exec-IsReceived (Call.mark_failed k) ch w h =
      faulty_keeps (IsReceived e) (update_publish_failed k) ch.fault w.database h h
  exec-IsReceived (Call.publish m) ch w h = deliver-IsReceived ch.fault m w h
  exec-IsReceived _ ch w h = h

module _ (e : EventRow) where
  event_insert-IsStored :
      (i : EventInsert) (d : Database) → IsStored e d → IsStored e (insert_normalized_event i d).1
  event_insert-IsStored i d h = elim (insert_cases i d) [
    | inl new ↦ rw new (inr h)
    | inr (x, old) ↦ rw old h
  ]

  deliver-IsStored :
      (f : Fault) (m : Message) (w : World)
      → IsStored e w.database
      → IsStored e (deliver f m w).1.database
  deliver-IsStored fine m w h = h
  deliver-IsStored (before x) m w h = h
  deliver-IsStored (after x) m w h = h

  pub exec-IsStored :
      (c : Call) (ch : Choice) (w : World)
      → IsStored e w.database
      → IsStored e (exec c ch w).1.database
  unfolding exec
  exec-IsStored (Call.raw_insert r) ch w h =
      faulty_keeps (IsStored e) (insert_raw_event r) ch.fault w.database h (rw raw_insert-same h)
  exec-IsStored (Call.raw_status u) ch w h =
      faulty_keeps (IsStored e) (update_raw_status u) ch.fault w.database h (rw raw_status-same h)
  exec-IsStored (Call.raw_meta u) ch w h =
      faulty_keeps (IsStored e) (update_raw_meta u) ch.fault w.database h (rw raw_meta-same h)
  exec-IsStored (Call.find_event_id k) ch w h =
      faulty_keeps (IsStored e) (select_event_id k) ch.fault w.database h h
  exec-IsStored (Call.event_insert i) ch w h =
      faulty_keeps (IsStored e) (insert_normalized_event i) ch.fault w.database h
        (event_insert-IsStored i w.database h)
  exec-IsStored (Call.mark_published t k) ch w h =
      faulty_keeps (IsStored e) (update_published t k) ch.fault w.database h
        (Shows-update_event (set_published t) (λ r. refl) e k _ h)
  exec-IsStored (Call.mark_failed k) ch w h =
      faulty_keeps (IsStored e) (update_publish_failed k) ch.fault w.database h
        (Shows-update_event set_failed (λ r. refl) e k _ h)
  exec-IsStored (Call.publish m) ch w h = deliver-IsStored ch.fault m w h
  exec-IsStored _ ch w h = h
