-- ===== src/Orchestrator/Retry/Messages.antt =====
-- The messages of orchestrator-service/app/publisher.py.
use yunxiao_workflow_agent.Base.{
  true, zero, String, Option, Bool, some, ◌/◌, [], none, ◌*◌, false, ◌∷◌, ◌++◌, not,
}
use yunxiao_workflow_agent.Base.Int.{pos}
use yunxiao_workflow_agent.Json.{Json, members, Items, Members}
use yunxiao_workflow_agent.Runtime.{Time}
use yunxiao_workflow_agent.Orchestrator.Session.{Outcome}
use yunxiao_workflow_agent.Effects.{Message}
use yunxiao_workflow_agent.Base.Dict.{Dict}
use yunxiao_workflow_agent.Base.Text.{format_nat, is_empty}
use yunxiao_workflow_agent.Model.{omit_if}
use yunxiao_workflow_agent.Orchestrator.Retry.Rows.{RetryRow}

-- What the worker takes from Python's libraries: `json.dumps`, psycopg's reading of JSONB, `isoformat`,
-- and whether a number with a fraction or an exponent is zero.
pub record Python : Type 0 where
  pub dumps : Json → Outcome String
  pub load_jsonb : String → Json
  pub isoformat : Time → String
  pub is_nonzero : String → Bool

-- The truth value of what `external_refs_json` holds.
abbrev pub is_truthy : Python → Json → Bool
is_truthy py Json.null = false
is_truthy py (Json.bool b) = b
is_truthy py (Json.int (pos zero)) = false
is_truthy py (Json.decimal digits) = py.is_nonzero digits
is_truthy py (Json.text s) = not (is_empty s)
is_truthy py (Json.array Items.nil) = false
is_truthy py (Json.object Members.end) = false
is_truthy py _ = true

abbrev pub or_empty : Option String → String
or_empty none = ""
or_empty (some s) = s

-- Whole seconds.
abbrev pub seconds : Time → Time
seconds t = record { instant = t.instant / 1000000000 * 1000000000; zone = "UTC" }

abbrev pub event_message : String → RetryRow → String → Time → Message
event_message exchange row body time = record {
  exchange = exchange;
  routing_key = row.event.event_type;
  content_type = "application/json";
  persistent = 2;
  timestamp = seconds time;
  message_id = row.event.event_id;
  headers =
      ("x-trace-id", row.event.trace_id)
      ∷ ("x-event-id", row.event.event_id)
      ∷ ("x-event-type", row.event.event_type)
      ∷ ("x-source", row.event.source)
      ∷ [];
  body = body;
}

module _ (py : Python) where
  abbrev time_member : Option Time → Dict Json → Dict Json
  time_member none rest = rest
  time_member (some t) rest = ("occurred_at", Json.text (py.isoformat t)) ∷ rest

  unfoldable pub build_normalized_event_message : RetryRow → Json
  build_normalized_event_message row =
      let external_refs = py.load_jsonb row.event.external_refs_json in
      Json.object (
        members (
          ("event_id", Json.text row.event.event_id)
          ∷ ("source", Json.text row.event.source)
          ∷ ("event_type", Json.text row.event.event_type)
          ∷ ("trace_id", Json.text row.event.trace_id)
          ∷ ("dedup_key", Json.text row.event.dedup_key)
          ∷ (
            "subject",
            Json.object (
                members (
                  ("type", Json.text row.event.subject_type)
                  ∷ ("id", Json.text row.event.subject_id)
                  ∷ [])),
          )
          ∷ ("raw_payload_id", Json.text ("raw_" ++ format_nat row.event.raw_event_id))
          ∷ omit_if (is_empty (or_empty row.event.project_id)) "project_id"
              (Json.text (or_empty row.event.project_id))
              (omit_if (is_empty (or_empty row.event.work_item_id)) "work_item_id"
                (Json.text (or_empty row.event.work_item_id))
                (omit_if (not (is_truthy py external_refs)) "external_refs" external_refs
                  (time_member row.event.occurred_at [])))))
