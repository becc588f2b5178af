-- ===== src/Repository/Client.antt =====
-- Calls of the repository of ingress-service/internal/repository/event_repository.go in sequence, and
-- the store of Spec that the tables stand for.
use yunxiao_workflow_agent.Base.{
  String, ◌==◌, Option, none, some, List, [], ◌∷◌, any, if◌then◌else◌, Bool, ◌&&◌,
}
use yunxiao_workflow_agent.Base.Result.{Error, Result, ok, err, errors_is, Sentinel}
use yunxiao_workflow_agent.Effects.{World, Prog, ret, ◌>>=◌}
use yunxiao_workflow_agent.Effects.Schema.{EventRow}
use yunxiao_workflow_agent.Effects.Tables.{find_by_key, has_raw_id, fits, fits_null}
use yunxiao_workflow_agent.Repository.{EventRepository, is_ok, nullable_string}
use yunxiao_workflow_agent.Runtime.{Runtime}
use yunxiao_workflow_agent.Model.{NormalizedEvent, external_refs_json}
use yunxiao_workflow_agent.Repository.Spec.{
  Store, Op, Out, save, find, mark_published, mark_failed, done, duplicate, missing, found, broken,
}

-- The first row of an event id, and its status.
abbrev pub status_of : String → List EventRow → Option String
status_of id [] = none
status_of id (row ∷ rows) =
    if row.event_id == id then some row.publish_status else status_of id rows

-- The store that the tables stand for.
abbrev pub view : World → Store
view w = record {
  raw_events = λ id. any (has_raw_id id) w.database.raw_events;
  by_key = λ key. find_by_key key w.database.normalized_events;
  status = λ id. status_of id w.database.normalized_events;
}

abbrev pub saved : Option Error → Out
saved none = done
saved (some e) = if errors_is e Sentinel.duplicate_event then duplicate else broken

abbrev pub searched : Result String → Out
searched (ok id) = found id
searched (err e) = missing

abbrev pub marked : Option Error → Out
marked none = done
marked (some e) = broken

-- The calls of the repository.
unfoldable pub perform : EventRepository → Op → Prog Out
perform repo (save e raw_id) = repo.save_normalized_event e raw_id >>= λ r. ret (saved r)
perform repo (find key) = repo.find_normalized_event_id_by_dedup_key key >>= λ r. ret (searched r)
perform repo (mark_published id) = repo.mark_published id >>= λ r. ret (marked r)
perform repo (mark_failed id) = repo.mark_publish_failed id >>= λ r. ret (marked r)

unfoldable pub perform_all : EventRepository → List Op → Prog (List Out)
perform_all repo [] = ret []
perform_all repo (op ∷ ops) =
    perform repo op >>= λ out. perform_all repo ops >>= λ outs. ret (out ∷ outs)

-- Every column of the event within its width.
abbrev pub columns_fit : NormalizedEvent → Bool
columns_fit e =
    fits 128 e.event_id
    && fits 64 e.source
    && fits 128 e.event_type
    && fits 128 e.trace_id
    && fits 255 e.dedup_key
    && fits_null 128 (nullable_string e.project_id)
    && fits_null 128 (nullable_string e.work_item_id)
    && fits 64 e.subject.kind
    && fits 255 e.subject.id

-- The events that the table can hold.
abbrev pub holds : Runtime → NormalizedEvent → Bool
holds rt e = is_ok (rt.marshal (external_refs_json e.external_refs)) && columns_fit e
