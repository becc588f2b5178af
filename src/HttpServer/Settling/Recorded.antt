-- ===== src/HttpServer/Settling/Recorded.antt =====
-- What a request to ingress-service/internal/httpserver/server.go leaves of it in the table raw_event.
use yunxiao_workflow_agent.Base.{String, ◌≡◌, ◌⊎◌, ◌∷◌, true, false, any, nat_beq}
use yunxiao_workflow_agent.Runtime.{Runtime}
use yunxiao_workflow_agent.Http.{Request}
use yunxiao_workflow_agent.Config.{Config}
use yunxiao_workflow_agent.Effects.{World, Environment, run}
use yunxiao_workflow_agent.Effects.Schema.{RawRow}
use yunxiao_workflow_agent.Effects.Tables.{has_raw_id}
use yunxiao_workflow_agent.Repository.{new_event_repository}
use yunxiao_workflow_agent.Mq.{rabbit_publisher}
use yunxiao_workflow_agent.HttpServer.{serve}
use yunxiao_workflow_agent.HttpServer.Settling.Duties.{agrees}
use yunxiao_workflow_agent.HttpServer.Settling.Rows.{IsSettling-Leaves}
use yunxiao_workflow_agent.HttpServer.Settling.Handlers.{serve-IsSettling}

-- Whatever calls fail, before or after taking effect, where the next id is new: a request leaves the
-- raw events that were there as they were, and adds one or none. Where it adds none it is not answered
-- 202. Where it adds one, this has the status received, or a status that agrees with the answer:
-- invalid_payload with 400, ignored with 202, normalized with 200 or 202, failed with 400 or 500.
pub raw_events-serve :
    (rt : Runtime) (cfg : Config) (exchange method path : String) (request : Request)
    (env : Environment) (w : World)
    → any (has_raw_id w.database.next_raw_id) w.database.raw_events ≡ false
    → let (a, w') =
        run
          (serve rt cfg
            (new_event_repository rt)
            (rabbit_publisher rt exchange)
            method
            path
            request)
          env
          w in
      ((w'.database.raw_events ≡ w.database.raw_events) × (nat_beq a.status 202 ≡ false))
      ⊎ ((row : RawRow) × (w'.database.raw_events ≡ row ∷ w.database.raw_events)
          × ((row.process_status ≡ "received") ⊎ (agrees row.process_status a.status ≡ true)))
raw_events-serve rt cfg exchange method path request env w =
    IsSettling-Leaves
      (serve rt cfg (new_event_repository rt) (rabbit_publisher rt exchange) method path request)
      env w (serve-IsSettling rt cfg exchange method path request)
