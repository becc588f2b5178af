-- ===== src/Effects/Tables.antt =====
-- The tables `raw_event` and `normalized_event` (infra/db/migration/V1, V2), and the SQL statements
-- that ingress-service/internal/repository/event_repository.go sends.
use Prim.Native.String.{count}
use yunxiao_workflow_agent.Base.{
  ℕ, ◌+◌, String, Bool, true, ◌&&◌, Option, none, some, List, [], ◌∷◌, ◌==◌, leb, nat_beq, any,
  if◌then◌else◌,
}
use yunxiao_workflow_agent.Base.Text.{is_empty}
use yunxiao_workflow_agent.Runtime.{Time}
use yunxiao_workflow_agent.Effects.Schema.{
  RawRow, EventRow, Database, DbError, Reply, RawInsert, StatusUpdate, MetaUpdate, EventInsert,
  pq_error, driver_error, done, failed,
}

-- VARCHAR(n) holds at most n characters.
abbrev pub fits : ℕ → String → Bool
fits n s = leb (count s) n

abbrev pub fits_null : ℕ → Option String → Bool
fits_null n none = true
fits_null n (some s) = fits n s

-- SQLSTATE 22001, 23505, 23503
abbrev pub too_long : DbError
too_long = pq_error "22001" "value too long"

abbrev pub not_unique : DbError
not_unique = pq_error "23505" "duplicate key value violates unique constraint"

abbrev pub no_parent : DbError
no_parent = pq_error "23503" "violates foreign key constraint"

-- Every column within its width.
unfoldable pub raw_fits : RawInsert → Bool
raw_fits r =
    fits 64 r.source
    && fits 128 r.event_type
    && fits 255 r.external_event_id
    && fits 32 r.process_status
    && fits 128 r.trace_id

-- The sequence of `id` moves on only where the row is inserted; after a refused one the next id may
-- be any later one, which nothing here depends on.
unfoldable pub insert_raw_event : RawInsert → Database → Reply ℕ × Database
insert_raw_event r d =
    if raw_fits r
    then (
      done d.next_raw_id,
      record d {
        raw_events =
            record {
              id = d.next_raw_id;
              source = r.source;
              event_type = r.event_type;
              external_event_id = r.external_event_id;
              signature_valid = r.signature_valid;
              headers_json = r.headers_json;
              payload_json = r.payload_json;
              payload_text = r.payload_text;
              process_status = r.process_status;
              process_error = none;
              normalized_event_id = none;
              received_at = r.received_at;
              trace_id = r.trace_id;
              created_at = r.created_at;
              processed_at = none;
            }
            ∷ d.raw_events;
        next_raw_id = d.next_raw_id + 1;
      },
    )
    else (failed too_long, d)

-- UPDATE raw_event ... WHERE id = $n
unfoldable pub update_raw : (RawRow → RawRow) → ℕ → List RawRow → List RawRow
update_raw f id [] = []
update_raw f id (r ∷ rows) = (if nat_beq r.id id then f r else r) ∷ update_raw f id rows

-- COALESCE(NULLIF(new, ''), old)
abbrev pub coalesce_text : String → String → String
coalesce_text new old = if is_empty new then old else new

abbrev pub coalesce_null : String → Option String → Option String
coalesce_null new old = if is_empty new then old else some new

abbrev pub set_status : StatusUpdate → RawRow → RawRow
set_status u r = record r {
  process_status = u.status;
  process_error = u.error;
  normalized_event_id = coalesce_null u.normalized_event_id r.normalized_event_id;
  processed_at = some u.processed_at;
}

abbrev pub set_meta : MetaUpdate → RawRow → RawRow
set_meta u r = record r {
  event_type = coalesce_text u.event_type r.event_type;
  external_event_id = coalesce_text u.external_event_id r.external_event_id;
}

unfoldable pub update_raw_status : StatusUpdate → Database → Reply Unit × Database
unfolding update_raw
update_raw_status u d =
    if fits 32 u.status && fits 128 u.normalized_event_id
    then (done tt, record d { raw_events = update_raw (set_status u) u.id d.raw_events })
    else (failed too_long, d)

unfoldable pub update_raw_meta : MetaUpdate → Database → Reply Unit × Database
unfolding update_raw
update_raw_meta u d =
    if fits 128 u.event_type && fits 255 u.external_event_id
    then (done tt, record d { raw_events = update_raw (set_meta u) u.id d.raw_events })
    else (failed too_long, d)

-- SELECT event_id ... WHERE dedup_key = $1
unfoldable pub find_by_key : String → List EventRow → Option String
find_by_key key [] = none
find_by_key key (e ∷ rows) = if e.dedup_key == key then some e.event_id else find_by_key key rows

abbrev pub found_id : Option String → Reply String
found_id none = failed (driver_error "sql: no rows in result set")
found_id (some k) = done k

unfoldable pub select_event_id : String → Database → Reply String × Database
unfolding find_by_key
select_event_id key d = (found_id (find_by_key key d.normalized_events), d)

abbrev pub has_event_id : String → EventRow → Bool
has_event_id k e = e.event_id == k

abbrev pub has_dedup_key : String → EventRow → Bool
has_dedup_key k e = e.dedup_key == k

abbrev pub has_raw_id : ℕ → RawRow → Bool
has_raw_id id r = nat_beq r.id id

abbrev pub event_row : EventInsert → EventRow
event_row e = record {
  event_id = e.event_id;
  source = e.source;
  event_type = e.event_type;
  occurred_at = e.occurred_at;
  trace_id = e.trace_id;
  dedup_key = e.dedup_key;
  project_id = e.project_id;
  work_item_id = e.work_item_id;
  subject_type = e.subject_type;
  subject_id = e.subject_id;
  external_refs_json = e.external_refs_json;
  raw_event_id = e.raw_event_id;
  publish_status = "pending";
  published_at = none;
  created_at = e.created_at;
}

-- Every column within its width.
unfoldable pub event_fits : EventInsert → Bool
event_fits e =
    fits 128 e.event_id
    && fits 64 e.source
    && fits 128 e.event_type
    && fits 128 e.trace_id
    && fits 255 e.dedup_key
    && fits_null 128 e.project_id
    && fits_null 128 e.work_item_id
    && fits 64 e.subject_type
    && fits 255 e.subject_id

-- The columns' widths, then uk_event_id and uk_dedup_key, then fk_normalized_event_raw_event.
unfoldable pub insert_normalized_event : EventInsert → Database → Reply Unit × Database
insert_normalized_event e d =
    if event_fits e
    then if any (has_event_id e.event_id) d.normalized_events
      then (failed not_unique, d)
      else if any (has_dedup_key e.dedup_key) d.normalized_events
      then (failed not_unique, d)
      else if any (has_raw_id e.raw_event_id) d.raw_events
      then (done tt, record d { normalized_events = event_row e ∷ d.normalized_events })
      else (failed no_parent, d)
    else (failed too_long, d)

-- UPDATE normalized_event ... WHERE event_id = $n
unfoldable pub update_event : (EventRow → EventRow) → String → List EventRow → List EventRow
update_event f k [] = []
update_event f k (e ∷ rows) = (if e.event_id == k then f e else e) ∷ update_event f k rows

abbrev pub set_published : Time → EventRow → EventRow
set_published t e = record e { publish_status = "published"; published_at = some t }

abbrev pub set_failed : EventRow → EventRow
set_failed e = record e { publish_status = "failed" }

unfoldable pub update_published : Time → String → Database → Reply Unit × Database
unfolding update_event
update_published t k d =
    (done tt, record d { normalized_events = update_event (set_published t) k d.normalized_events })

unfoldable pub update_publish_failed : String → Database → Reply Unit × Database
unfolding update_event
update_publish_failed k d =
    (done tt, record d { normalized_events = update_event set_failed k d.normalized_events })
