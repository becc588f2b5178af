-- ===== src/Tests/Storing.antt =====
-- The theorems on the repository and the publisher's connection at concrete inputs.
use yunxiao_workflow_agent.Base.{String, refl, ◌≡◌, List, [], ◌∷◌, true, none}
use yunxiao_workflow_agent.Base.Result.{ok, err, plain}
use yunxiao_workflow_agent.Effects.{World, run, empty_world}
use yunxiao_workflow_agent.Repository.{new_event_repository, save_raw_event}
use yunxiao_workflow_agent.Repository.Spec.{Op, save, find, mark_published, mark_failed, steps}
use yunxiao_workflow_agent.Repository.Client.{perform_all, view, holds}
use yunxiao_workflow_agent.Repository.Refinement.{perform_all-steps}
use yunxiao_workflow_agent.Mq.Dial.{Amqp, new_rabbit_publisher}
use yunxiao_workflow_agent.Mq.Dial.Balance.{Balanced, new_rabbit_publisher-Balanced}
use yunxiao_workflow_agent.HttpServer
use yunxiao_workflow_agent.Tests.Samples.{stored_event, flow_request, runtime, body, calm}

-- The raw event 1 is stored.
abbrev received : World
received =
    (run
      (save_raw_event runtime (HttpServer.FlowWebhook.flow_meta flow_request) [] body true
        "trace_1")
      calm empty_world).1

-- The event is saved, refused, found and marked.
abbrev operations : List Op
operations =
    find stored_event.dedup_key
    ∷ save stored_event 1
    ∷ save stored_event 1
    ∷ find stored_event.dedup_key
    ∷ mark_failed stored_event.event_id
    ∷ mark_published stored_event.event_id
    ∷ []

stored_example :
    let (outs, v) = run (perform_all (new_event_repository runtime) operations) calm received in
    (outs, view v) ≡ steps (holds runtime) operations (view received)
stored_example =
    perform_all-steps runtime operations calm received (λ j x bad. absurd (cc bad)) (λ n. refl)

-- The channel of a connection cannot be opened.
abbrev no_channels : Amqp String String
no_channels = record {
  dial = λ url. ok url;
  channel = λ conn. err (plain "channel limit");
  exchange_declare = λ chan exchange. none;
  close_channel = λ chan. none;
  close_connection = λ conn. none;
}

dial_example :
    Balanced no_channels "yunxiao.events"
      (new_rabbit_publisher no_channels "amqp://mq" "yunxiao.events")
dial_example = new_rabbit_publisher-Balanced no_channels "amqp://mq" "yunxiao.events"
