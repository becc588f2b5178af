-- ===== src/Orchestrator/Session.antt =====
-- The Python that orchestrator-service/app runs on: exceptions, the connection of app/db.py, and the
-- channel to the broker. A function is a step of a session: it returns or raises, and leaves a session.
pub mod Invariant
pub mod Committed
pub mod Silent
use yunxiao_workflow_agent.Base.{
  Option, none, some, String, Bool, true, false, List, ◌∷◌, if◌then◌else◌,
}
use yunxiao_workflow_agent.Runtime.{Time}
use yunxiao_workflow_agent.Effects.{Message, Environment, later, Fault, fine, before, after}

-- `UniqueViolation` of psycopg, or any other exception with its text.
pub data Exc : Type 0 where
  unique_violation : Exc
  raised : String → Exc

-- `str(exc)`
abbrev pub exc_text : Exc → String
exc_text unique_violation = "duplicate key value violates unique constraint"
exc_text (raised text) = text

pub data Outcome (A : Type 0) : Type 0 where
  value : A → Outcome A
  raise : Exc → Outcome A

-- `basic_ack`, and `basic_nack` without requeueing.
pub data Settlement : Type 0 where
  ack nack : Settlement

-- What is committed, what the open transaction has made of it, whether this one has failed, what was
-- sent to the exchange, and how messages were settled, the last one first. The environment decides the
-- UUIDs, the times and the faults of the database, call by call, and apart from them the faults of
-- the broker.
pub record Session (T : Type 0) : Type 0 where
  pub committed : T
  pub working : T
  pub aborted : Bool
  pub messages : List Message
  pub settled : List Settlement
  -- the variable `run_id` of `handle_message`, which no rollback changes
  pub run_id : Option String
  pub choices : Environment
  pub broker : Environment

abbrev pub Py : Type 0 → Type 0 → Type 0
Py T A = Session T → Outcome A × Session T

module _ {T : Type 0} where
  abbrev pub return : {A : Type 0} → A → Py T A
  return a s = (value a, s)

  abbrev pub next : {A B : Type 0} → (A → Py T B) → Outcome A × Session T → Outcome B × Session T
  next f (value a, s) = f a s
  next f (raise e, s) = (raise e, s)

  infixl 5 ◌>>=◌
  abbrev pub ◌>>=◌ : {A B : Type 0} → Py T A → (A → Py T B) → Py T B
  (m >>= f) s = next f (m s)

  abbrev pub rescue : {A : Type 0} → (Exc → Py T A) → Outcome A × Session T → Outcome A × Session T
  rescue handler (value a, s) = (value a, s)
  rescue handler (raise e, s) = handler e s

  -- `try: m except Exception as e: handler e`
  abbrev pub try_except : {A : Type 0} → Py T A → (Exc → Py T A) → Py T A
  try_except m handler s = rescue handler (m s)

  -- `datetime.now(timezone.utc)` and `time.time()`
  abbrev pub now : Py T Time
  now s = (value (s.choices 0).time, record s { choices = later s.choices })

  abbrev pub uuid4 : Py T String
  uuid4 s = (value (s.choices 0).uuid, record s { choices = later s.choices })

  -- The result of a statement: its table, or a transaction that takes no more statements.
  abbrev pub answered : {A : Type 0} → Session T → Outcome A × T → Outcome A × Session T
  answered s (value a, t) = (value a, record s { working = t })
  answered s (raise e, t) = (raise e, record s { aborted = true })

  abbrev pub executed :
      {A : Type 0} → Fault → (T → Outcome A × T) → Session T → Outcome A × Session T
  executed fine statement s =
      if s.aborted
      then (raise (raised "current transaction is aborted"), s)
      else answered s (statement s.working)
  executed (before m) statement s = (raise (raised m), record s { aborted = true })
  executed (after m) statement s = (raise (raised m), record s { aborted = true })

  -- `cursor.execute(...)`
  abbrev pub execute : {A : Type 0} → (T → Outcome A × T) → Py T A
  execute statement s =
      executed (s.choices 0).fault statement (record s { choices = later s.choices })

  abbrev pub undone : Session T → Session T
  undone s = record s { working = s.committed; aborted = false }

  abbrev pub rolled_back : Fault → Session T → Outcome Unit × Session T
  rolled_back fine s = (value tt, undone s)
  rolled_back (before m) s = (raise (raised m), undone s)
  rolled_back (after m) s = (raise (raised m), undone s)

  -- `connection.rollback()`; a connection that is lost has rolled back as well.
  abbrev pub rollback : Py T Unit
  rollback s = rolled_back (s.choices 0).fault (record s { choices = later s.choices })

  -- A failed transaction is rolled back by COMMIT.
  abbrev pub kept : Session T → Session T
  kept s = if s.aborted then undone s else record s { committed = s.working }

  abbrev pub commit_at : Fault → Session T → Outcome Unit × Session T
  commit_at fine s = (value tt, kept s)
  commit_at (before m) s = (raise (raised m), record s { aborted = true })
  commit_at (after m) s = (raise (raised m), record (kept s) { aborted = true })

  -- `connection.commit()`
  abbrev pub commit : Py T Unit
  commit s = commit_at (s.choices 0).fault (record s { choices = later s.choices })

  abbrev pub connected : Fault → Session T → Outcome Unit × Session T
  connected fine s = (value tt, undone s)
  connected (before m) s = (raise (raised m), s)
  connected (after m) s = (raise (raised m), s)

  -- `psycopg.connect(...)`
  abbrev pub connect : Py T Unit
  connect s = connected (s.choices 0).fault (record s { choices = later s.choices })

  abbrev pub roll_back_and_raise : {A : Type 0} → Exc → Py T A
  roll_back_and_raise e = rollback >>= λ _ s. (raise e, s)

  abbrev pub commit_and_return : {A : Type 0} → A → Py T A
  commit_and_return a = commit >>= λ _. return a

  -- `with postgres_connection(settings) as connection: body`
  unfoldable pub postgres_connection : {A : Type 0} → Py T A → Py T A
  postgres_connection body =
      connect >>= λ _. try_except (body >>= commit_and_return) roll_back_and_raise

  abbrev pub published : Fault → Message → Session T → Outcome Unit × Session T
  published fine m s = (value tt, record s { messages = m ∷ s.messages })
  published (before e) m s = (raise (raised e), s)
  published (after e) m s = (raise (raised e), record s { messages = m ∷ s.messages })

  -- `channel.basic_publish(...)`
  abbrev pub basic_publish : Message → Py T Unit
  basic_publish m s = published (s.broker 0).fault m (record s { broker = later s.broker })

  abbrev pub settled_at : Fault → Settlement → Session T → Outcome Unit × Session T
  settled_at fine a s = (value tt, record s { settled = a ∷ s.settled })
  settled_at (before e) a s = (raise (raised e), s)
  settled_at (after e) a s = (raise (raised e), record s { settled = a ∷ s.settled })

  -- `channel.basic_ack(...)` and `channel.basic_nack(..., requeue=False)`
  abbrev pub settle : Settlement → Py T Unit
  settle a s = settled_at (s.broker 0).fault a (record s { broker = later s.broker })

  -- `run_id = ...`
  abbrev pub set_run_id : String → Py T Unit
  set_run_id id s = (value tt, record s { run_id = some id })

  -- `run_id = None`
  abbrev pub forget_run_id : Py T Unit
  forget_run_id s = (value tt, record s { run_id = none })

  abbrev pub get_run_id : Py T (Option String)
  get_run_id s = (value s.run_id, s)

  abbrev pub raising : {A : Type 0} → Outcome A → Py T A
  raising r s = (r, s)
