-- ===== src/Mq.antt =====
-- ingress-service/internal/mq/publisher.go
pub mod Dial
pub mod Retry
pub mod Backoff
pub mod Connection
use yunxiao_workflow_agent.Base.{String, Option, none, some, [], ◌∷◌}
use yunxiao_workflow_agent.Base.Result.{Error, Result, ok, err}
use yunxiao_workflow_agent.Runtime.{Runtime, utc}
use yunxiao_workflow_agent.Model.{NormalizedEvent, event_json}
use yunxiao_workflow_agent.Effects.{Call, Message, Prog, ret, ◌>>=◌, ask}
use yunxiao_workflow_agent.Repository.{error_of}

-- `Publisher`
pub record Publisher : Type 0 where
  pub publish : NormalizedEvent → Prog (Option Error)

module _ (rt : Runtime) (exchange : String) where
  -- The rest of `Publish`, once the body is marshalled.
  unfoldable pub send : NormalizedEvent → Result String → Prog (Option Error)
  send event (err e) = ret (some e)
  send event (ok body) = do
    now ← ask Call.now
    r ← ask (
        Call.publish (record {
          exchange = exchange;
          routing_key = event.event_type;
          content_type = "application/json";
          persistent = 2;
          timestamp = utc now;
          message_id = event.event_id;
          headers =
              ("x-trace-id", event.trace_id)
              ∷ ("x-event-id", event.event_id)
              ∷ ("x-event-type", event.event_type)
              ∷ ("x-source", event.source)
              ∷ [];
          body = body;
        }))
    ret (error_of r)

  unfoldable pub publish : NormalizedEvent → Prog (Option Error)
  publish event = send event (rt.marshal (event_json rt.format_time event))

  abbrev pub rabbit_publisher : Publisher
  rabbit_publisher = record { publish = publish }
