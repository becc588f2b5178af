-- ===== src/Effects/Schema.antt =====
-- The rows of the tables `raw_event` and `normalized_event` (infra/db/migration/V1, V2), the errors of
-- the database, and the parameters of the statements of
-- ingress-service/internal/repository/event_repository.go.
use yunxiao_workflow_agent.Base.{ℕ, String, Bool, Option, List}
use yunxiao_workflow_agent.Runtime.{Bytes, Time}

pub record RawRow : Type 0 where
  pub id : ℕ
  pub source : String
  pub event_type : String
  pub external_event_id : String
  pub signature_valid : Bool
  pub headers_json : String
  pub payload_json : Option Bytes
  pub payload_text : Bytes
  pub process_status : String
  pub process_error : Option String
  pub normalized_event_id : Option String
  pub received_at : Time
  pub trace_id : String
  pub created_at : Time
  pub processed_at : Option Time

pub record EventRow : Type 0 where
  pub event_id : String
  pub source : String
  pub event_type : String
  pub occurred_at : Option Time
  pub trace_id : String
  pub dedup_key : String
  pub project_id : Option String
  pub work_item_id : Option String
  pub subject_type : String
  pub subject_id : String
  pub external_refs_json : String
  pub raw_event_id : ℕ
  pub publish_status : String
  pub published_at : Option Time
  pub created_at : Time

pub record Database : Type 0 where
  pub raw_events : List RawRow
  pub next_raw_id : ℕ
  pub normalized_events : List EventRow

-- An error of the server with its SQLSTATE (`*pq.Error`), or of the driver or the connection.
pub data DbError : Type 0 where
  pq_error : String → String → DbError
  driver_error : String → DbError

abbrev pub db_error_text : DbError → String
db_error_text (pq_error code m) = m
db_error_text (driver_error m) = m

pub data Reply (A : Type 0) : Type 0 where
  done : A → Reply A
  failed : DbError → Reply A

-- The parameters of the statements.
pub record RawInsert : Type 0 where
  pub source : String
  pub event_type : String
  pub external_event_id : String
  pub signature_valid : Bool
  pub headers_json : String
  pub payload_json : Option Bytes
  pub payload_text : Bytes
  pub process_status : String
  pub received_at : Time
  pub trace_id : String
  pub created_at : Time

pub record StatusUpdate : Type 0 where
  pub id : ℕ
  pub status : String
  pub error : Option String
  pub normalized_event_id : String
  pub processed_at : Time

pub record MetaUpdate : Type 0 where
  pub id : ℕ
  pub event_type : String
  pub external_event_id : String

pub record EventInsert : Type 0 where
  pub event_id : String
  pub source : String
  pub event_type : String
  pub occurred_at : Option Time
  pub trace_id : String
  pub dedup_key : String
  pub project_id : Option String
  pub work_item_id : Option String
  pub subject_type : String
  pub subject_id : String
  pub external_refs_json : String
  pub raw_event_id : ℕ
  pub created_at : Time
