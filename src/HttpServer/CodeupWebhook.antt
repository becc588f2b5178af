-- ===== src/HttpServer/CodeupWebhook.antt =====
-- `handleCodeupWebhook` of ingress-service/internal/httpserver/server.go.
use yunxiao_workflow_agent.Base.{ℕ, String, ◌++◌, true, not, [], ◌∷◌, if◌then◌else◌}
use yunxiao_workflow_agent.Base.Result.{Sentinel, plain, Result, ok, err}
use yunxiao_workflow_agent.Runtime.{Runtime, Bytes}
use yunxiao_workflow_agent.Http.{Request, Response, get_header}
use yunxiao_workflow_agent.Config.{Config}
use yunxiao_workflow_agent.Model.{RawEventMeta}
use yunxiao_workflow_agent.Effects.{Call, Prog, ◌>>=◌, ask}
use yunxiao_workflow_agent.Repository.{EventRepository}
use yunxiao_workflow_agent.Mq.{Publisher}
use yunxiao_workflow_agent.Codeup
use yunxiao_workflow_agent.Codeup.Payload.{WebhookPayload}
use yunxiao_workflow_agent.HttpServer.Persist.{json}
use yunxiao_workflow_agent.HttpServer.Answers.{reject, answer_invalid_payload, finish}

abbrev pub codeup_meta : Request → RawEventMeta
codeup_meta request = record {
  source = "yunxiao.codeup";
  event_type = get_header "Codeup-Event" request.header;
  external_event_id = get_header "X-Codeup-Delivery" request.header;
}

module _ (rt : Runtime) (cfg : Config) (repo : EventRepository) (publisher : Publisher) where
  -- The rest of the handler, once the payload is decoded.
  unfoldable pub codeup_decoded :
      String → Request → Bytes → ℕ → String → Result WebhookPayload → Prog Response
  codeup_decoded trace_id request body raw_id raw_payload_id (err e) =
      answer_invalid_payload repo publisher trace_id raw_id raw_payload_id (codeup_meta request)
        "invalid codeup json" e
  codeup_decoded trace_id request body raw_id raw_payload_id (ok payload) = do
    event ← Codeup.Normalizer.normalize rt payload raw_payload_id body trace_id
    finish repo publisher Sentinel.codeup_ignored trace_id raw_id raw_payload_id
        (codeup_meta request) event

  -- The rest of the handler, once the raw event is saved.
  unfoldable pub codeup_saved : String → Request → Bytes → Result (ℕ × String) → Prog Response
  codeup_saved trace_id request body (err e) = json 500 (("error", "save raw event") ∷ [])
  codeup_saved trace_id request body (ok (raw_id, raw_payload_id)) =
      codeup_decoded trace_id request body raw_id raw_payload_id
        (Codeup.Payload.payload_from_json rt body)

  -- The rest of the handler, once the body is read.
  unfoldable pub codeup_read : String → Request → Result Bytes → Prog Response
  codeup_read trace_id request (err e) =
      reject repo publisher "read_body_failed" 400 trace_id "yunxiao.codeup"
        (codeup_meta request).event_type (codeup_meta request).external_event_id "read body" e
  codeup_read trace_id request (ok body) =
      repo.save_raw_event (codeup_meta request) request.header body true trace_id
      >>= codeup_saved trace_id request body

  unfoldable pub handle_codeup_webhook : Request → Prog Response
  handle_codeup_webhook request = do
    u ← ask Call.new_uuid
    let trace_id = "trace_" ++ u
    if not (Codeup.Auth.verify_token request cfg.codeup_token)
        then reject repo publisher "unauthorized" 401 trace_id "yunxiao.codeup"
            (codeup_meta request).event_type (codeup_meta request).external_event_id
            "invalid codeup token" (plain "invalid codeup token")
        else codeup_read trace_id request request.body
