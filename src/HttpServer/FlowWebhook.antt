-- ===== src/HttpServer/FlowWebhook.antt =====
-- `handleFlowWebhook` of ingress-service/internal/httpserver/server.go.
use yunxiao_workflow_agent.Base.{ℕ, String, ◌++◌, true, not, [], ◌∷◌, if◌then◌else◌}
use yunxiao_workflow_agent.Base.Result.{Sentinel, plain, Result, ok, err}
use yunxiao_workflow_agent.Runtime.{Runtime, Bytes}
use yunxiao_workflow_agent.Http.{Request, Response, get_header}
use yunxiao_workflow_agent.Config.{Config}
use yunxiao_workflow_agent.Model.{RawEventMeta}
use yunxiao_workflow_agent.Effects.{Call, Prog, ◌>>=◌, ask}
use yunxiao_workflow_agent.Repository.{EventRepository}
use yunxiao_workflow_agent.Mq.{Publisher}
use yunxiao_workflow_agent.Flow
use yunxiao_workflow_agent.Flow.Payload.{WebhookPayload}
use yunxiao_workflow_agent.HttpServer.Persist.{json}
use yunxiao_workflow_agent.HttpServer.Answers.{reject, answer_invalid_payload, finish}

abbrev pub flow_meta : Request → RawEventMeta
flow_meta request = record {
  source = "yunxiao.flow";
  event_type = get_header "X-Flow-Event" request.header;
  external_event_id = "";
}

-- The metadata that the payload gives.
abbrev pub flow_payload_meta : WebhookPayload → RawEventMeta
flow_payload_meta payload = record {
  source = "yunxiao.flow";
  event_type = payload.event ++ "." ++ payload.action;
  external_event_id =
      payload.task.pipeline_id ++ ":" ++ payload.task.build_number ++ ":"
      ++ payload.task.status_code;
}

module _ (rt : Runtime) (cfg : Config) (repo : EventRepository) (publisher : Publisher) where
  -- The rest of the handler, once the payload is decoded.
  unfoldable pub flow_decoded :
      String → Request → Bytes → ℕ → String → Result WebhookPayload → Prog Response
  flow_decoded trace_id request body raw_id raw_payload_id (err e) =
      answer_invalid_payload repo publisher trace_id raw_id raw_payload_id (flow_meta request)
        "invalid flow json" e
  flow_decoded trace_id request body raw_id raw_payload_id (ok payload) = do
    updated ← repo.update_raw_event_meta raw_id (flow_payload_meta payload)
    event ← Flow.Normalizer.normalize rt payload raw_payload_id body trace_id
    finish repo publisher Sentinel.flow_ignored trace_id raw_id raw_payload_id
        (flow_payload_meta payload) event

  -- The rest of the handler, once the raw event is saved.
  unfoldable pub flow_saved : String → Request → Bytes → Result (ℕ × String) → Prog Response
  flow_saved trace_id request body (err e) = json 500 (("error", "save raw event") ∷ [])
  flow_saved trace_id request body (ok (raw_id, raw_payload_id)) =
      flow_decoded trace_id request body raw_id raw_payload_id
        (Flow.Payload.payload_from_json rt body)

  -- The rest of the handler, once the body is read.
  unfoldable pub flow_read : String → Request → Result Bytes → Prog Response
  flow_read trace_id request (err e) =
      reject repo publisher "read_body_failed" 400 trace_id "yunxiao.flow"
        (flow_meta request).event_type "" "read body" e
  flow_read trace_id request (ok body) =
      repo.save_raw_event (flow_meta request) request.header body true trace_id
      >>= flow_saved trace_id request body

  unfoldable pub handle_flow_webhook : Request → Prog Response
  handle_flow_webhook request = do
    u ← ask Call.new_uuid
    let trace_id = "trace_" ++ u
    if not (Flow.Auth.verify_token request cfg.flow_token)
        then reject repo publisher "unauthorized" 401 trace_id "yunxiao.flow"
            (flow_meta request).event_type "" "invalid flow token" (plain "invalid flow token")
        else flow_read trace_id request request.body
