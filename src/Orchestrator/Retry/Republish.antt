-- ===== src/Orchestrator/Retry/Republish.antt =====
-- The messages of orchestrator-service/app/publisher.py against those of
-- ingress-service/internal/mq/publisher.go.
use yunxiao_workflow_agent.Base.{
  arith, Option-cases, ℕ, String, not, ◌≡◌, refl, ◌==◌, Option, none, some, List, [], ◌∷◌,
  if◌then◌else◌, All, inl, inr,
}
use yunxiao_workflow_agent.Base.Dict.{Dict}
use yunxiao_workflow_agent.Json.{Json, Members}
use yunxiao_workflow_agent.Runtime.{Time}
use yunxiao_workflow_agent.Model.{
  NormalizedEvent, Ref, event_json, external_refs_json, no_refs, map_values,
}
use yunxiao_workflow_agent.Effects.Tables.{event_row}
use yunxiao_workflow_agent.Repository.{event_columns, raw_payload_id}
use yunxiao_workflow_agent.Orchestrator.Retry.Rows.{RetryRow}
use yunxiao_workflow_agent.Orchestrator.Retry.Messages.{
  Python, build_normalized_event_message, is_truthy,
}

abbrev field_of : String → Members → Option Json
field_of name Members.end = none
field_of name (Members.member key value rest) =
    let later = field_of name rest in if key == name then some value else later

-- The value of a field of an object.
abbrev pub field : String → Json → Option Json
field name (Json.object ms) = field_of name ms
field name _ = none

-- The fields of a message, but for the time.
abbrev pub field_names : List String
field_names =
    "event_id" ∷ "source" ∷ "event_type" ∷ "trace_id" ∷ "dedup_key" ∷ "project_id" ∷ "work_item_id"
    ∷ "subject" ∷ "external_refs" ∷ "raw_payload_id" ∷ []

-- The row of a stored event, with whatever the attempts to publish it have made of it.
abbrev pub row_of : NormalizedEvent → ℕ → String → Time → RetryRow → RetryRow
row_of e raw_id refs now row = record row {
  event = record (event_row (event_columns e raw_id refs now)) {
    publish_status = row.event.publish_status;
    published_at = row.event.published_at;
  };
}

truthy_refs : (py : Python) (d : Dict Ref) → is_truthy py (external_refs_json d) ≡ not (no_refs d)
unfolding external_refs_json map_values
truthy_refs py [] = refl
truthy_refs py (_ ∷ d) = refl

-- For the row of a stored event, in any state of its publication, where psycopg reads from the JSONB
-- column what was marshalled into it and the payload id is that of the raw event, as the handlers set it: the
-- message that the retry worker builds has in every field but occurred_at the value that the ingress
-- service's own message has there, or like this one no such field.
pub message-event_json :
    (py : Python) (format : Time → String) (e : NormalizedEvent) (raw_id : ℕ) (refs : String)
    (now : Time) (row : RetryRow)
    → py.load_jsonb refs ≡ external_refs_json e.external_refs
    → e.raw_payload_id ≡ raw_payload_id raw_id
    → All
        (λ name.
          field name (build_normalized_event_message py (row_of e raw_id refs now row))
          ≡ field name (event_json format e))
        field_names
unfolding build_normalized_event_message event_json
message-event_json py format e raw_id refs now row loaded named =
    rw (loaded, truthy_refs py e.external_refs, named)
      (elim (Option-cases e.occurred_at) [
        | inl absent ↦ rw absent (ground arith)
        | inr (t, given) ↦ rw given (ground arith)
      ])
