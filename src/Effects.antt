-- ===== src/Effects.antt =====
-- The calls that the ingress service makes to the world outside it, and programs that make them.
-- PostgreSQL and RabbitMQ are known by the statements that the service sends them (the SQL texts of
-- ingress-service/internal/repository/event_repository.go, over the tables of infra/db/migration).
pub mod Schema
pub mod Tables
pub mod Laws
pub mod Calm
pub mod Rows
pub mod Insertion
pub mod Integrity
pub mod Evidence
pub mod Draws
pub mod Discipline
pub mod Concurrent
pub mod Publication
use yunxiao_workflow_agent.Base.{ℕ, suc, String, Option, none, some, List, [], ◌∷◌}
use yunxiao_workflow_agent.Runtime.{Time}
use yunxiao_workflow_agent.Effects.Tables.{
  insert_raw_event, update_raw_status, update_raw_meta, select_event_id, insert_normalized_event,
  update_published, update_publish_failed,
}
use yunxiao_workflow_agent.Effects.Schema.{
  Database, DbError, driver_error, Reply, done, failed, RawInsert, EventInsert, StatusUpdate,
  MetaUpdate,
}

-- A message for the exchange: `amqp.Publishing`, with its routing key.
pub record Message : Type 0 where
  pub exchange : String
  pub routing_key : String
  pub content_type : String
  pub persistent : ℕ
  pub timestamp : Time
  pub message_id : String
  pub headers : List (String × String)
  pub body : String

-- One line of `logWebhook`.
pub record LogLine : Type 0 where
  pub trace_id : String
  pub raw_event_id : ℕ
  pub source : String
  pub event_type : String
  pub external_event_id : String
  pub process_status : String
  pub http_status : ℕ
  pub process_error : String

pub record World : Type 0 where
  pub database : Database
  pub messages : List Message
  pub log : List LogLine

abbrev pub empty_world : World
empty_world = record {
  database = record { raw_events = []; next_raw_id = 1; normalized_events = [] };
  messages = [];
  log = [];
}

-- A call: a new UUID, the time, a SQL statement, a message to the broker, a line of the log.
pub data Call : Type 0 where
  new_uuid now : Call
  raw_insert : RawInsert → Call
  raw_status : StatusUpdate → Call
  raw_meta : MetaUpdate → Call
  find_event_id : String → Call
  event_insert : EventInsert → Call
  mark_published : Time → String → Call
  mark_failed : String → Call
  publish : Message → Call
  write_log : LogLine → Call

abbrev pub Answer : Call → Type 0
Answer Call.new_uuid = String
Answer Call.now = Time
Answer (Call.raw_insert _) = Reply ℕ
Answer (Call.raw_status _) = Reply Unit
Answer (Call.raw_meta _) = Reply Unit
Answer (Call.find_event_id _) = Reply String
Answer (Call.event_insert _) = Reply Unit
Answer (Call.mark_published _ _) = Reply Unit
Answer (Call.mark_failed _) = Reply Unit
Answer (Call.publish _) = Reply Unit
Answer (Call.write_log _) = Unit

-- What the environment decides at one call: the UUID, the time, and whether the connection fails,
-- before the other side has done its work or after.
pub data Fault : Type 0 where
  fine : Fault
  before after : String → Fault

pub record Choice : Type 0 where
  pub uuid : String
  pub time : Time
  pub fault : Fault

module _ {A : Type 0} where
  abbrev pub lost : String → Reply A × Database → Reply A × Database
  lost m (done _, d) = (failed (driver_error m), d)
  lost m (failed e, d) = (failed e, d)

  -- A statement under a fault.
  abbrev pub faulty : Fault → (Database → Reply A × Database) → Database → Reply A × Database
  faulty fine statement d = statement d
  faulty (before m) statement d = (failed (driver_error m), d)
  faulty (after m) statement d = lost m (statement d)

  abbrev pub on_database : World → Reply A × Database → Reply A × World
  on_database w (r, d) = (r, record w { database = d })

abbrev pub deliver : Fault → Message → World → Reply Unit × World
deliver fine m w = (done tt, record w { messages = m ∷ w.messages })
deliver (before e) m w = (failed (driver_error e), w)
deliver (after e) m w = (failed (driver_error e), record w { messages = m ∷ w.messages })

-- One call.
unfoldable pub exec : (c : Call) → Choice → World → Answer c × World
unfolding insert_raw_event update_raw_status update_raw_meta select_event_id insert_normalized_event
    update_published update_publish_failed
exec Call.new_uuid ch w = (ch.uuid, w)
exec Call.now ch w = (ch.time, w)
exec (Call.raw_insert r) ch w = on_database w (faulty ch.fault (insert_raw_event r) w.database)
exec (Call.raw_status u) ch w = on_database w (faulty ch.fault (update_raw_status u) w.database)
exec (Call.raw_meta u) ch w = on_database w (faulty ch.fault (update_raw_meta u) w.database)
exec (Call.find_event_id k) ch w = on_database w (faulty ch.fault (select_event_id k) w.database)
exec (Call.event_insert e) ch w =
    on_database w (faulty ch.fault (insert_normalized_event e) w.database)
exec (Call.mark_published t k) ch w =
    on_database w (faulty ch.fault (update_published t k) w.database)
exec (Call.mark_failed k) ch w =
    on_database w (faulty ch.fault (update_publish_failed k) w.database)
exec (Call.publish m) ch w = deliver ch.fault m w
exec (Call.write_log l) ch w = (tt, record w { log = l ∷ w.log })

-- A program: it returns, or makes a call and goes on with the answer.
pub data Prog (A : Type 0) : Type 0 where
  ret : A → Prog A
  call : (c : Call) → (Answer c → Prog A) → Prog A

infixl 5 ◌>>=◌ ◌>>◌
abbrev pub ◌>>=◌ : {A B : Type 0} → Prog A → (A → Prog B) → Prog B
ret a >>= f = f a
call c k >>= f = call c (λ r. k r >>= f)

abbrev pub ◌>>◌ : {A B : Type 0} → Prog A → Prog B → Prog B
m >> k = m >>= λ _. k

abbrev pub ask : (c : Call) → Prog (Answer c)
ask c = call c ret

-- A run, where the environment decides each call in turn.
abbrev pub Environment : Type 0
Environment = ℕ → Choice

abbrev pub later : Environment → Environment
later env n = env (suc n)

unfoldable pub run : {A : Type 0} → Prog A → Environment → World → A × World
run (ret a) env w = (a, w)
run (call c k) env w = let (r, w') = exec c (env 0) w in run (k r) (later env) w'
