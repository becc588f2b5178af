-- ===== src/Effects/Publication/Phases.antt =====
-- One call of an ordered program: its next phase, and what it stores and sends.
use yunxiao_workflow_agent.Base.{
  refl, ℕ, ◌+◌, ◌≤◌, String, ◌≡◌, Bool, false, arith, ◌==◌, if◌then◌else◌, eq_iff, inl, inr,
}
use yunxiao_workflow_agent.Effects.{
  fine, before, after, World, Call, Answer, Choice, exec, Prog, call, Message, Fault, deliver,
  on_database, faulty,
}
use yunxiao_workflow_agent.Effects.Discipline.{Phase, idle, armed, delivered, quiet, IsOrdered}
use yunxiao_workflow_agent.Effects.Integrity.Statements.{
  faulty_keeps, set_published-SameKeys, set_failed-SameKeys,
}
use yunxiao_workflow_agent.Effects.Tables.{
  has_event_id, set_published, set_failed, insert_raw_event, update_raw_status, update_raw_meta,
  select_event_id, insert_normalized_event, update_published, update_publish_failed,
}
use yunxiao_workflow_agent.Effects.Schema.{Database, Reply, driver_error, EventInsert}
use yunxiao_workflow_agent.Effects.Rows.{
  insert_cases, raw_insert-same, raw_status-same, raw_meta-same,
}
use yunxiao_workflow_agent.Effects.Publication.Count.{count_by, sent, stored, stored-update_event}

abbrev pub is_armed : String → Phase → Bool
is_armed id idle = false
is_armed id (armed j) = j == id
is_armed id (delivered j) = false
is_armed id quiet = false

abbrev pub due : String → Phase → ℕ
due id ph = if is_armed id ph then 1 else 0

-- A next phase, after a call with this answer and this world.
abbrev NextPhase : {A B : Type 0} → (B → Prog A) → B × World → World → Phase → Type 0
NextPhase k (r, w') w ph =
    (ph' : Phase) × IsOrdered (k r) ph'
    × ((id : String) → sent id w' + due id ph' + stored id w ≤ sent id w + due id ph + stored id w')

insert_phase :
    {A : Type 0} (e : EventInsert) (k : Reply Unit → Prog A) (f : Fault) (w : World)
    → IsOrdered (call (Call.event_insert e) k) idle
    → NextPhase k (on_database w (faulty f (insert_normalized_event e) w.database)) w idle
insert_phase e k fine w h = elim (insert_cases e w.database) [
  | inl new ↦ rw new (armed e.event_id, h.0, λ id. ground arith)
  | inr (x, old) ↦ rw old (idle, h.1 x, λ id. omega arith)
]
insert_phase e k (before m) w h = (idle, h.1 (driver_error m), λ id. omega arith)
insert_phase e k (after m) w h = elim (insert_cases e w.database) [
  | inl new ↦ rw new (idle, h.1 (driver_error m), λ id. ground arith)
  | inr (x, old) ↦ rw old (idle, h.1 x, λ id. omega arith)
]

publish_phase :
    {A : Type 0} (m : Message) (k : Reply Unit → Prog A) (f : Fault) (w : World) (ph : Phase)
    → IsOrdered (call (Call.publish m) k) ph
    → NextPhase k (deliver f m w) w ph
publish_phase m k f w idle h = absurd h
publish_phase m k fine w (armed j) (same, h, _) =
    (delivered j, h, λ id. ground (arith, eq_iff m.message_id id, eq_iff j id))
publish_phase m k (before e) w (armed j) (same, _, h) = (quiet, h _, λ id. omega arith)
publish_phase m k (after e) w (armed j) (same, _, h) =
    (quiet, h _, λ id. ground (arith, eq_iff m.message_id id, eq_iff j id))
publish_phase m k f w (delivered j) h = absurd h
publish_phase m k f w quiet h = absurd h

-- A statement that leaves the rows' ids alone.
statement_phase :
    {A B : Type 0} (k : Reply B → Prog A) (statement : Database → Reply B × Database) (f : Fault)
    (w : World) (ph : Phase)
    → ((id : String)
        → count_by (has_event_id id) (statement w.database).1.normalized_events ≡ stored id w)
    → ((r : Reply B) → IsOrdered (k r) ph)
    → NextPhase k (on_database w (faulty f statement w.database)) w ph
statement_phase k statement f w ph same h = (
  ph,
  h _,
  λ id.
      let kept =
        faulty_keeps (λ d. count_by (has_event_id id) d.normalized_events ≡ stored id w) statement f
          w.database refl (same id) in
      omega (arith, kept),
)

-- Each call of an ordered program.
pub step_phase :
    {A : Type 0} (c : Call) (k : Answer c → Prog A) (ch : Choice) (w : World) (ph : Phase)
    → IsOrdered (call c k) ph
    → NextPhase k (exec c ch w) w ph
unfolding exec
step_phase (Call.event_insert e) k ch w idle h = insert_phase e k ch.fault w h
step_phase (Call.event_insert e) k ch w ph h = absurd h
step_phase (Call.publish m) k ch w ph h = publish_phase m k ch.fault w ph h
step_phase (Call.raw_insert r) k ch w ph h =
    statement_phase k (insert_raw_event r) ch.fault w ph (λ id. rw raw_insert-same) h
step_phase (Call.raw_status u) k ch w ph h =
    statement_phase k (update_raw_status u) ch.fault w ph (λ id. rw raw_status-same) h
step_phase (Call.raw_meta u) k ch w ph h =
    statement_phase k (update_raw_meta u) ch.fault w ph (λ id. rw raw_meta-same) h
step_phase (Call.find_event_id j) k ch w ph h =
    statement_phase k (select_event_id j) ch.fault w ph (λ id. refl) h
step_phase (Call.mark_published t j) k ch w (delivered i) (_, h) =
    statement_phase k (update_published t j) ch.fault w (delivered i)
      (λ id. stored-update_event (set_published t) (set_published-SameKeys t) j id _) h
step_phase (Call.mark_published t j) k ch w idle h = absurd h
step_phase (Call.mark_published t j) k ch w (armed i) h = absurd h
step_phase (Call.mark_published t j) k ch w quiet h = absurd h
step_phase (Call.mark_failed j) k ch w ph h =
    statement_phase k (update_publish_failed j) ch.fault w ph
      (λ id. stored-update_event set_failed set_failed-SameKeys j id _) h
step_phase Call.new_uuid k ch w ph h = (ph, h ch.uuid, λ id. omega arith)
step_phase Call.now k ch w ph h = (ph, h ch.time, λ id. omega arith)
step_phase (Call.write_log l) k ch w ph h = (ph, h tt, λ id. omega arith)
