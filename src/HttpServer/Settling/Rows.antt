-- ===== src/HttpServer/Settling/Rows.antt =====
-- What a handler of ingress-service/internal/httpserver/server.go leaves in the table raw_event: the row that it
-- inserts, and the others as they were.
use yunxiao_workflow_agent.Base.{
  ℕ, String, ◌≡◌, refl, ◌∙◌, ap, true, false, ◌⊎◌, inl, inr, List, [], ◌∷◌, any, nat_beq, arith,
  Bool-cases, ◌&&◌,
}
use yunxiao_workflow_agent.Http.{Response}
use yunxiao_workflow_agent.Effects.{
  World, Call, Answer, Choice, exec, Prog, ret, call, Environment, later, run, Fault, fine, before,
  after, faulty, on_database, deliver, Message,
}
use yunxiao_workflow_agent.Effects.Schema.{
  Database, Reply, RawRow, RawInsert, StatusUpdate, MetaUpdate, EventInsert,
}
use yunxiao_workflow_agent.Effects.Tables.{
  has_raw_id, raw_fits, fits, insert_raw_event, update_raw, update_raw_status, update_raw_meta,
  set_status, set_meta, select_event_id, insert_normalized_event, update_published,
  update_publish_failed,
}
use yunxiao_workflow_agent.Effects.Rows.{insert_cases}
use yunxiao_workflow_agent.Effects.Integrity.Statements.{faulty_keeps}
use yunxiao_workflow_agent.HttpServer.Settling.Duties.{
  IsSettling, Duty, free, owed, paid, unsaved, agrees,
}

-- A row with this id and one of two process statuses stands before the old rows, which have other ids.
abbrev Added : ℕ → String → List RawRow → Database → Type 0
Added id status rows d =
    (row : RawRow) × (d.raw_events ≡ row ∷ rows)
    × (row.id ≡ id)
    × ((row.process_status ≡ "received") ⊎ (row.process_status ≡ status))

abbrev IsNew : ℕ → List RawRow → Type 0
IsNew id rows = any (has_raw_id id) rows ≡ false

-- The table while the handler has this duty.
abbrev Holds : Duty → List RawRow → Database → Type 0
Holds free rows d = (d.raw_events ≡ rows) × IsNew d.next_raw_id rows
Holds (owed id) rows d = Added id "received" rows d × IsNew id rows
Holds (paid status) rows d = (id : ℕ) × Added id status rows d
Holds unsaved rows d = (d.raw_events ≡ rows) ⊎ ((id : ℕ) × Added id "received" rows d)

Holds-same :
    (duty : Duty) (rows : List RawRow) (d d' : Database)
    → d'.raw_events ≡ d.raw_events
    → d'.next_raw_id ≡ d.next_raw_id
    → Holds duty rows d
    → Holds duty rows d'
Holds-same free rows d d' same next (h, k) = (same ∙ h, rw next k)
Holds-same (owed id) rows d d' same next ((row, h, i, k), new) = ((row, same ∙ h, i, k), new)
Holds-same (paid status) rows d d' same next (id, (row, h, i, k)) = (id, (row, same ∙ h, i, k))
Holds-same unsaved rows d d' same next (inl h) = inl (same ∙ h)
Holds-same unsaved rows d d' same next (inr (id, (row, h, i, k))) = inr (id, (row, same ∙ h, i, k))

update_raw-new :
    (f : RawRow → RawRow) (id : ℕ) (rows : List RawRow)
    → IsNew id rows
    → update_raw f id rows ≡ rows
unfolding update_raw
update_raw-new f id [] new = refl
update_raw-new f id (r ∷ rows) new = elim (Bool-cases (nat_beq r.id id)) [
  | inl hit ↦ absurd (cc (rw hit at new))
  | inr other ↦ rw other (ap (λ l. r ∷ l) (update_raw-new f id rows (rw other at new)))
]

-- An update of the row that was added.
update_raw-added :
    (f : RawRow → RawRow) (id : ℕ) (row : RawRow) (rows : List RawRow) (all : List RawRow)
    → all ≡ row ∷ rows
    → row.id ≡ id
    → IsNew id rows
    → update_raw f id all ≡ f row ∷ rows
unfolding update_raw
update_raw-added f id row rows all h same new =
    let hit : nat_beq row.id id ≡ true = ground (arith, same) in
    rw (h, hit, update_raw-new f id rows new) refl

module _ (rows : List RawRow) where
  -- The answer to a call leads to a duty that the table goes with.
  abbrev Goes : {B : Type 0} → (B → Prog Response) → B × World → Type 0
  Goes k (r, w) = (duty : Duty) × IsSettling (k r) duty × Holds duty rows w.database

  insert_Goes :
      (r : RawInsert) (k : Reply ℕ → Prog Response) (f : Fault) (w : World)
      → IsSettling (call (Call.raw_insert r) k) free
      → Holds free rows w.database
      → Goes k (on_database w (faulty f (insert_raw_event r) w.database))
  unfolding insert_raw_event
  insert_Goes r k fine w (received, h, g) (same, new) = elim (Bool-cases (raw_fits r)) [
    | inl fit ↦
        rw (fit, same) (owed w.database.next_raw_id, h _, ((_, refl, refl, inl received), new))
    | inr wide ↦ rw wide (unsaved, g _, inl same)
  ]
  insert_Goes r k (before m) w (received, h, g) (same, new) = (unsaved, g _, inl same)
  insert_Goes r k (after m) w (received, h, g) (same, new) = elim (Bool-cases (raw_fits r)) [
    | inl fit ↦
        rw (fit, same) (unsaved, g _, inr (w.database.next_raw_id, (_, refl, refl, inl received)))
    | inr wide ↦ rw wide (unsaved, g _, inl same)
  ]

  -- An update of the row, which may be refused or lost.
  status_Holds :
      (u : StatusUpdate) (id : ℕ) (d : Database)
      → u.id ≡ id
      → Holds (owed id) rows d
      → Holds (paid u.status) rows (update_raw_status u d).1
  unfolding update_raw_status
  status_Holds u id d same ((row, h, i, k), new) =
      elim (Bool-cases (fits 32 u.status && fits 128 u.normalized_event_id)) [
        | inl fit ↦ rw fit (
          id,
          (
            set_status u row,
            update_raw-added (set_status u) u.id row rows d.raw_events h (rw same i) (rw same new),
            i,
            inr refl,
          ),
        )
        | inr wide ↦ rw wide (id, (row, h, i, elim k [ inl r ↦ inl r | inr r ↦ inl r ]))
      ]

  meta_Holds :
      (u : MetaUpdate) (id : ℕ) (d : Database)
      → u.id ≡ id
      → Holds (owed id) rows d
      → Holds (owed id) rows (update_raw_meta u d).1
  unfolding update_raw_meta
  meta_Holds u id d same ((row, h, i, k), new) =
      elim (Bool-cases (fits 128 u.event_type && fits 255 u.external_event_id)) [
        | inl fit ↦ rw fit (
          (
            set_meta u row,
            update_raw-added (set_meta u) u.id row rows d.raw_events h (rw same i) (rw same new),
            i,
            k,
          ),
          new,
        )
        | inr wide ↦ rw wide ((row, h, i, k), new)
      ]

  unmarked :
      (status : String) (id : ℕ) (d : Database)
      → Holds (owed id) rows d
      → Holds (paid status) rows d
  unmarked status id d ((row, h, i, k), new) =
      (id, (row, h, i, elim k [ inl r ↦ inl r | inr r ↦ inl r ]))

  -- A statement on the other table.
  other_Goes :
      {B : Type 0} (statement : Database → Reply B × Database) (k : Reply B → Prog Response)
      (f : Fault) (w : World) (duty : Duty)
      → (statement w.database).1.raw_events ≡ w.database.raw_events
      → (statement w.database).1.next_raw_id ≡ w.database.next_raw_id
      → ((r : Reply B) → IsSettling (k r) duty)
      → Holds duty rows w.database
      → Goes k (on_database w (faulty f statement w.database))
  other_Goes statement k f w duty same next h holds = (
    duty,
    h _,
    faulty_keeps (Holds duty rows) statement f w.database holds
        (Holds-same duty rows w.database (statement w.database).1 same next holds),
  )

  event_insert-raw :
      (e : EventInsert) (d : Database)
      → ((insert_normalized_event e d).1.raw_events ≡ d.raw_events)
        × ((insert_normalized_event e d).1.next_raw_id ≡ d.next_raw_id)
  event_insert-raw e d = elim (insert_cases e d) [
    | inl new ↦ rw new (refl, refl)
    | inr (x, old) ↦ rw old (refl, refl)
  ]

  publish_Goes :
      (m : Message) (k : Reply Unit → Prog Response) (f : Fault) (w : World) (duty : Duty)
      → ((r : Reply Unit) → IsSettling (k r) duty)
      → Holds duty rows w.database
      → Goes k (deliver f m w)
  publish_Goes m k fine w duty h holds = (duty, h _, holds)
  publish_Goes m k (before e) w duty h holds = (duty, h _, holds)
  publish_Goes m k (after e) w duty h holds = (duty, h _, holds)

  call_Goes :
      (c : Call) (k : Answer c → Prog Response) (ch : Choice) (w : World) (duty : Duty)
      → IsSettling (call c k) duty
      → Holds duty rows w.database
      → Goes k (exec c ch w)
  unfolding exec
  call_Goes (Call.raw_insert r) k ch w free h holds = insert_Goes r k ch.fault w h holds
  call_Goes (Call.raw_insert r) k ch w (owed id) h holds = absurd h
  call_Goes (Call.raw_insert r) k ch w (paid status) h holds = absurd h
  call_Goes (Call.raw_insert r) k ch w unsaved h holds = absurd h
  call_Goes (Call.raw_status u) k ch w (owed id) (same, _, h) holds = (
    paid u.status,
    h _,
    faulty_keeps (Holds (paid u.status) rows) (update_raw_status u) ch.fault w.database
        (unmarked u.status id w.database holds) (status_Holds u id w.database same holds),
  )
  call_Goes (Call.raw_status u) k ch w free h holds = absurd h
  call_Goes (Call.raw_status u) k ch w (paid status) h holds = absurd h
  call_Goes (Call.raw_status u) k ch w unsaved h holds = absurd h
  call_Goes (Call.raw_meta u) k ch w (owed id) (same, h) holds = (
    owed id,
    h _,
    faulty_keeps (Holds (owed id) rows) (update_raw_meta u) ch.fault w.database holds
        (meta_Holds u id w.database same holds),
  )
  call_Goes (Call.raw_meta u) k ch w free h holds = absurd h
  call_Goes (Call.raw_meta u) k ch w (paid status) h holds = absurd h
  call_Goes (Call.raw_meta u) k ch w unsaved h holds = absurd h
  call_Goes (Call.find_event_id j) k ch w duty h holds =
      other_Goes (select_event_id j) k ch.fault w duty refl refl h holds
  call_Goes (Call.event_insert e) k ch w duty h holds =
      let (same, next) = event_insert-raw e w.database in
      other_Goes (insert_normalized_event e) k ch.fault w duty same next h holds
  call_Goes (Call.mark_published t j) k ch w duty h holds =
      other_Goes (update_published t j) k ch.fault w duty refl refl h holds
  call_Goes (Call.mark_failed j) k ch w duty h holds =
      other_Goes (update_publish_failed j) k ch.fault w duty refl refl h holds
  call_Goes (Call.publish m) k ch w duty h holds = publish_Goes m k ch.fault w duty h holds
  call_Goes Call.new_uuid k ch w duty h holds = (duty, h ch.uuid, holds)
  call_Goes Call.now k ch w duty h holds = (duty, h ch.time, holds)
  call_Goes (Call.write_log l) k ch w duty h holds = (duty, h tt, holds)

  -- What is left in the table, and the answer.
  abbrev pub Leaves : List RawRow → Response → Type 0
  Leaves rows' a =
      ((rows' ≡ rows) × (nat_beq a.status 202 ≡ false))
      ⊎ ((row : RawRow) × (rows' ≡ row ∷ rows)
          × ((row.process_status ≡ "received") ⊎ (agrees row.process_status a.status ≡ true)))

  ret-Leaves :
      (a : Response) (duty : Duty) (d : Database)
      → IsSettling (ret a) duty
      → Holds duty rows d
      → Leaves d.raw_events a
  ret-Leaves a free d h (same, _) = inl (same, h)
  ret-Leaves a (owed id) d h holds = absurd h
  ret-Leaves a (paid status) d h (id, (row, same, _, inl r)) = inr (row, same, inl r)
  ret-Leaves a (paid status) d h (id, (row, same, _, inr r)) = inr (row, same, inr (rw r h))
  ret-Leaves a unsaved d h (inl same) = inl (same, rw h refl)
  ret-Leaves a unsaved d h (inr (id, (row, same, _, inl r))) = inr (row, same, inl r)
  ret-Leaves a unsaved d h (inr (id, (row, same, _, inr r))) = inr (row, same, inl r)

  run-Leaves :
      (p : Prog Response) (duty : Duty) (env : Environment) (w : World)
      → IsSettling p duty
      → Holds duty rows w.database
      → Leaves (run p env w).1.database.raw_events (run p env w).0
  unfolding run
  run-Leaves (ret a) duty env w h holds = ret-Leaves a duty w.database h holds
  run-Leaves (call c k) duty env w h holds =
      let (duty', h', holds') = call_Goes c k (env 0) w duty h holds in
      run-Leaves (k (exec c (env 0) w).0) duty' (later env) (exec c (env 0) w).1 h' holds'

pub IsSettling-Leaves :
    (p : Prog Response) (env : Environment) (w : World)
    → IsSettling p free
    → any (has_raw_id w.database.next_raw_id) w.database.raw_events ≡ false
    → Leaves w.database.raw_events (run p env w).1.database.raw_events (run p env w).0
IsSettling-Leaves p env w h new = run-Leaves w.database.raw_events p free env w h (refl, new)
