-- ===== src/Tests/Publishing.antt =====
-- The theorems on storing, publishing and connecting at concrete inputs.
use yunxiao_workflow_agent.Base.{some, length, ◌<◌, arith, ℕ, zero, suc, String, refl, ◌≡◌}
use yunxiao_workflow_agent.Base.Int.{pos}
use yunxiao_workflow_agent.Base.Result.{Result, ok, err, plain}
use yunxiao_workflow_agent.Model.{NormalizedEvent}
use yunxiao_workflow_agent.Effects.{run, empty_world}
use yunxiao_workflow_agent.Repository.{new_event_repository}
use yunxiao_workflow_agent.Mq
use yunxiao_workflow_agent.Mq.{rabbit_publisher}
use yunxiao_workflow_agent.Mq.Retry.{ConnectRetryOptions}
use yunxiao_workflow_agent.Flow
use yunxiao_workflow_agent.HttpServer
use yunxiao_workflow_agent.Tests.Samples.{runtime, body, flow_payload, calm}

abbrev an_event : NormalizedEvent
an_event =
    Flow.Normalizer.event_of runtime flow_payload "raw_1" body "trace_1" "pipeline.failed" "42" "u1"

answered_example :
    let (r, w) =
      run
        (HttpServer.Persist.persist_and_publish
          (new_event_repository runtime)
          (rabbit_publisher runtime "yunxiao.events")
          an_event
          1)
        calm
        empty_world in
    HttpServer.Answered.Answered an_event empty_world r w
answered_example =
    HttpServer.Answered.Save.answered runtime "yunxiao.events" an_event 1 calm empty_world never
  where
    never : HttpServer.Answered.Save.MarshalsPlainly runtime
    never v e h = absurd (cc h)

-- The broker answers from the third attempt on.
abbrev third_time : ℕ → Result String
third_time zero = err (plain "refused")
third_time (suc zero) = err (plain "refused")
third_time (suc (suc n)) = ok "publisher"

abbrev options : ConnectRetryOptions
options = record {
  initial_backoff = pos 1000000000;
  max_backoff = pos 0;
  max_wait = pos 60000000000;
}

connection_example :
    (c : Mq.Retry.Connected String) × (Mq.Retry.new_rabbit_publisher_with_retry
        (λ d. "1m0s")
        third_time
        options
        60000000001
      ≡ some c)
    × (c.outcome
        ≡ Mq.Retry.wrap_error
            (λ d. "1m0s")
            (pos (Mq.Connection.limit_of options))
            (third_time (length c.sleeps)))
    × (Mq.Backoff.slept_time c.sleeps < Mq.Connection.limit_of options)
    × Mq.Backoff.AllWithin
        (Mq.Connection.longer (Mq.Connection.initial_of options) (Mq.Connection.most_of options))
        c.sleeps
unfolding Mq.Retry.positive_duration
connection_example =
    Mq.Connection.connection_ends (λ d. "1m0s") third_time options 60000000001 refl refl refl
      (ground arith)
