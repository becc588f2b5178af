-- ===== src/HttpServer.antt =====
-- ingress-service/internal/httpserver/server.go
pub mod Persist
pub mod Answers
pub mod CodeupWebhook
pub mod ProjexWebhook
pub mod FlowWebhook
pub mod Adapters
pub mod Order
pub mod Settling
pub mod Service
pub mod Answered
pub mod Security
pub mod Statuses
use yunxiao_workflow_agent.Base.{String, Bool, ◌||◌, ◌&&◌, ◌==◌, [], ◌∷◌, if◌then◌else◌}
use yunxiao_workflow_agent.Runtime.{Runtime}
use yunxiao_workflow_agent.Http.{Request, Response}
use yunxiao_workflow_agent.Config.{Config}
use yunxiao_workflow_agent.Effects.{Prog, ret}
use yunxiao_workflow_agent.Repository.{EventRepository}
use yunxiao_workflow_agent.Mq.{Publisher}
use CodeupWebhook.{handle_codeup_webhook}
use ProjexWebhook.{handle_projex_webhook}
use FlowWebhook.{handle_flow_webhook}

unfoldable pub healthz : Prog Response
healthz = ret (record { status = 200; body = ("status", "ok") ∷ [] })

-- A registered route, with a slash at its end.
abbrev pub is_slashed : String → String → Bool
is_slashed method path =
    if method == "GET"
    then path == "/healthz/"
    else method == "POST"
      && (path == "/webhooks/yunxiao/codeup/"
          || path == "/webhooks/yunxiao/projex/"
          || path == "/webhooks/yunxiao/flow/")

-- What the engine of gin.Default answers on no route: a redirect to the route that differs by a slash at
-- the end, or else 404.
unfoldable pub unrouted : String → String → Response
unrouted method path =
    if is_slashed method path
    then record { status = if method == "GET" then 301 else 307; body = [] }
    else record { status = 404; body = [] }

-- The routes that `New` registers.
unfoldable pub serve :
    Runtime → Config → EventRepository → Publisher → String → String → Request → Prog Response
serve rt cfg repo publisher method path request =
    if method == "GET" && path == "/healthz"
    then healthz
    else if method == "POST" && path == "/webhooks/yunxiao/codeup"
    then handle_codeup_webhook rt cfg repo publisher request
    else if method == "POST" && path == "/webhooks/yunxiao/projex"
    then handle_projex_webhook rt cfg repo publisher request
    else if method == "POST" && path == "/webhooks/yunxiao/flow"
    then handle_flow_webhook rt cfg repo publisher request
    else ret (unrouted method path)
