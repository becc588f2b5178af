-- ===== src/Repository.antt =====
-- ingress-service/internal/repository/event_repository.go. A method is a program: it makes its SQL
-- statements one by one, and returns what the Go method returns.
pub mod Spec
pub mod Client
pub mod Maps
pub mod Refinement
use yunxiao_workflow_agent.Base.{
  ℕ, String, ◌++◌, Bool, true, Option, none, some, List, ◌==◌, if◌then◌else◌,
}
use yunxiao_workflow_agent.Base.Dict.{Dict}
use yunxiao_workflow_agent.Base.Text.{is_empty, format_nat}
use yunxiao_workflow_agent.Base.Result.{Sentinel, Error, plain, wrapped, Result, ok, err}
use yunxiao_workflow_agent.Json.{Json, members, items}
use yunxiao_workflow_agent.Runtime.{Runtime, Bytes, Time, utc}
use yunxiao_workflow_agent.Model.{
  NormalizedEvent, RawEventMeta, external_refs_json, map_values, map_list,
}
use yunxiao_workflow_agent.Effects.{Call, Prog, ret, ◌>>=◌, ask}
use yunxiao_workflow_agent.Effects.Schema.{
  DbError, pq_error, driver_error, db_error_text, Reply, EventInsert, done, failed,
}

-- `http.Header`
abbrev pub Header : Type 0
Header = Dict (List String)

-- The interface that the HTTP server asks of the repository (`eventRepository` of
-- ingress-service/internal/httpserver/server.go); an error result is `none` for nil.
pub record EventRepository : Type 0 where
  pub save_raw_event : RawEventMeta → Header → Bytes → Bool → String → Prog (Result (ℕ × String))
  pub update_raw_event_meta : ℕ → RawEventMeta → Prog (Option Error)
  pub mark_raw_event_invalid_payload : ℕ → String → Prog (Option Error)
  pub mark_raw_event_ignored : ℕ → String → Prog (Option Error)
  pub mark_raw_event_normalized : ℕ → String → Prog (Option Error)
  pub mark_raw_event_failed : ℕ → String → Prog (Option Error)
  pub save_normalized_event : NormalizedEvent → ℕ → Prog (Option Error)
  pub find_normalized_event_id_by_dedup_key : String → Prog (Result String)
  pub mark_published : String → Prog (Option Error)
  pub mark_publish_failed : String → Prog (Option Error)

-- `RawEventStatus...`
abbrev pub received : String
received = "received"

abbrev pub invalid_payload : String
invalid_payload = "invalid_payload"

abbrev pub ignored : String
ignored = "ignored"

abbrev pub normalized : String
normalized = "normalized"

abbrev pub failed_status : String
failed_status = "failed"

abbrev pub err_duplicate_event : Error
err_duplicate_event = wrapped Sentinel.duplicate_event "duplicate normalized event"

abbrev pub db_error : DbError → Error
db_error e = plain (db_error_text e)

-- The error of a statement whose result is not read.
abbrev pub error_of : {A : Type 0} → Reply A → Option Error
error_of (done _) = none
error_of (failed e) = some (db_error e)

abbrev pub raw_payload_id : ℕ → String
raw_payload_id id = "raw_" ++ format_nat id

abbrev pub nullable_string : String → Option String
nullable_string s = if is_empty s then none else some s

abbrev pub strings_value : List String → Json
strings_value vs = Json.array (items (map_list Json.text vs))

-- The JSON of the headers.
abbrev pub headers_value : Header → Json
headers_value h = Json.object (members (map_values strings_value h))

abbrev pub is_ok : {A : Type 0} → Result A → Bool
is_ok (ok _) = true
is_ok (err _) = Bool.false

abbrev pub utc_time : Option Time → Option Time
utc_time none = none
utc_time (some t) = some (utc t)

-- `errors.As(err, &pqErr) && pqErr.Code == "23505"`
abbrev pub is_unique_violation : DbError → Bool
is_unique_violation (pq_error code m) = code == "23505"
is_unique_violation (driver_error m) = Bool.false

abbrev pub saved_event : Reply Unit → Option Error
saved_event (done _) = none
saved_event (failed e) =
    if is_unique_violation e then some err_duplicate_event else some (db_error e)

abbrev pub saved_raw : Reply ℕ → Result (ℕ × String)
saved_raw (done id) = ok (id, raw_payload_id id)
saved_raw (failed e) = err (db_error e)

abbrev pub found_event : Reply String → Result String
found_event (done k) = ok k
found_event (failed e) = err (db_error e)

-- The columns of the new row.
abbrev pub event_columns : NormalizedEvent → ℕ → String → Time → EventInsert
event_columns event raw_event_id refs now = record {
  event_id = event.event_id;
  source = event.source;
  event_type = event.event_type;
  occurred_at = utc_time event.occurred_at;
  trace_id = event.trace_id;
  dedup_key = event.dedup_key;
  project_id = nullable_string event.project_id;
  work_item_id = nullable_string event.work_item_id;
  subject_type = event.subject.kind;
  subject_id = event.subject.id;
  external_refs_json = refs;
  raw_event_id = raw_event_id;
  created_at = utc now;
}

module _ (rt : Runtime) where
  unfoldable pub save_raw_event :
      RawEventMeta → Header → Bytes → Bool → String → Prog (Result (ℕ × String))
  save_raw_event meta headers payload signature_valid trace_id =
      elim (rt.marshal (headers_value headers)) [
        | err e ↦ ret (err e)
        | ok headers_json ↦ do
          now ← ask Call.now
          id ← ask (
              Call.raw_insert (record {
                source = meta.source;
                event_type = meta.event_type;
                external_event_id = meta.external_event_id;
                signature_valid = signature_valid;
                headers_json = headers_json;
                payload_json = if is_ok (rt.parse_json payload) then some payload else none;
                payload_text = payload;
                process_status = received;
                received_at = utc now;
                trace_id = trace_id;
                created_at = utc now;
              }))
          ret (saved_raw id)
      ]

  unfoldable pub update_raw_event_process_status :
      ℕ → String → String → String → Prog (Option Error)
  update_raw_event_process_status id status process_error normalized_event_id = do
    now ← ask Call.now
    r ← ask (
        Call.raw_status (record {
          id = id;
          status = status;
          error = nullable_string process_error;
          normalized_event_id = normalized_event_id;
          processed_at = utc now;
        }))
    ret (error_of r)

  unfoldable pub mark_raw_event_invalid_payload : ℕ → String → Prog (Option Error)
  unfolding update_raw_event_process_status
  mark_raw_event_invalid_payload id process_error =
      update_raw_event_process_status id invalid_payload process_error ""

  unfoldable pub mark_raw_event_ignored : ℕ → String → Prog (Option Error)
  unfolding update_raw_event_process_status
  mark_raw_event_ignored id process_error =
      update_raw_event_process_status id ignored process_error ""

  unfoldable pub mark_raw_event_normalized : ℕ → String → Prog (Option Error)
  unfolding update_raw_event_process_status
  mark_raw_event_normalized id normalized_event_id =
      update_raw_event_process_status id normalized "" normalized_event_id

  unfoldable pub mark_raw_event_failed : ℕ → String → Prog (Option Error)
  unfolding update_raw_event_process_status
  mark_raw_event_failed id process_error =
      update_raw_event_process_status id failed_status process_error ""

  unfoldable pub update_raw_event_meta : ℕ → RawEventMeta → Prog (Option Error)
  update_raw_event_meta id meta = do
    r ← ask (
        Call.raw_meta (record {
          id = id;
          event_type = meta.event_type;
          external_event_id = meta.external_event_id;
        }))
    ret (error_of r)

  unfoldable pub find_normalized_event_id_by_dedup_key : String → Prog (Result String)
  find_normalized_event_id_by_dedup_key key = do
    r ← ask (Call.find_event_id key)
    ret (found_event r)

  -- The rest of `SaveNormalizedEvent`, once the references are marshalled.
  unfoldable pub insert_event : NormalizedEvent → ℕ → Result String → Prog (Option Error)
  insert_event event raw_event_id (err e) = ret (some e)
  insert_event event raw_event_id (ok refs) = do
    now ← ask Call.now
    r ← ask (Call.event_insert (event_columns event raw_event_id refs now))
    ret (saved_event r)

  unfoldable pub save_normalized_event : NormalizedEvent → ℕ → Prog (Option Error)
  save_normalized_event event raw_event_id =
      insert_event event raw_event_id (rt.marshal (external_refs_json event.external_refs))

  unfoldable pub mark_published : String → Prog (Option Error)
  mark_published event_id = do
    now ← ask Call.now
    r ← ask (Call.mark_published (utc now) event_id)
    ret (error_of r)

  unfoldable pub mark_publish_failed : String → Prog (Option Error)
  mark_publish_failed event_id = do r ← ask (Call.mark_failed event_id); ret (error_of r)

  -- `NewEventRepository`
  abbrev pub new_event_repository : EventRepository
  new_event_repository = record {
    save_raw_event = save_raw_event;
    update_raw_event_meta = update_raw_event_meta;
    mark_raw_event_invalid_payload = mark_raw_event_invalid_payload;
    mark_raw_event_ignored = mark_raw_event_ignored;
    mark_raw_event_normalized = mark_raw_event_normalized;
    mark_raw_event_failed = mark_raw_event_failed;
    save_normalized_event = save_normalized_event;
    find_normalized_event_id_by_dedup_key = find_normalized_event_id_by_dedup_key;
    mark_published = mark_published;
    mark_publish_failed = mark_publish_failed;
  }
