-- ===== src/HttpServer/ProjexWebhook.antt =====
-- `handleProjexWebhook` of ingress-service/internal/httpserver/server.go.
use yunxiao_workflow_agent.Base.{ℕ, String, ◌++◌, true, not, [], ◌∷◌, if◌then◌else◌}
use yunxiao_workflow_agent.Base.Result.{Sentinel, plain, Result, ok, err}
use yunxiao_workflow_agent.Runtime.{Runtime, Bytes}
use yunxiao_workflow_agent.Http.{Request, Response}
use yunxiao_workflow_agent.Config.{Config}
use yunxiao_workflow_agent.Model.{RawEventMeta}
use yunxiao_workflow_agent.Effects.{Call, Prog, ◌>>=◌, ask}
use yunxiao_workflow_agent.Repository.{EventRepository}
use yunxiao_workflow_agent.Mq.{Publisher}
use yunxiao_workflow_agent.Projex
use yunxiao_workflow_agent.Projex.Payload.{WebhookPayload}
use yunxiao_workflow_agent.HttpServer.Persist.{json}
use yunxiao_workflow_agent.HttpServer.Answers.{reject, answer_invalid_payload, finish}

abbrev pub projex_meta : Request → String → RawEventMeta
projex_meta request external_event_id = record {
  source = "yunxiao.projex";
  event_type = request.event_type;
  external_event_id = external_event_id;
}

module _ (rt : Runtime) (cfg : Config) (repo : EventRepository) (publisher : Publisher) where
  -- The rest of the handler, once the payload is decoded.
  unfoldable pub projex_decoded :
      String → Request → Bytes → ℕ → String → Result WebhookPayload → Prog Response
  projex_decoded trace_id request body raw_id raw_payload_id (err e) =
      answer_invalid_payload repo publisher trace_id raw_id raw_payload_id (projex_meta request "")
        "invalid projex json" e
  projex_decoded trace_id request body raw_id raw_payload_id (ok payload) = do
    updated ← repo.update_raw_event_meta raw_id (projex_meta request payload.id)
    event ← Projex.Normalizer.normalize rt payload request.event_type raw_payload_id body trace_id
    finish repo publisher Sentinel.projex_ignored trace_id raw_id raw_payload_id
        (projex_meta request payload.id) event

  -- The rest of the handler, once the raw event is saved.
  unfoldable pub projex_saved : String → Request → Bytes → Result (ℕ × String) → Prog Response
  projex_saved trace_id request body (err e) = json 500 (("error", "save raw event") ∷ [])
  projex_saved trace_id request body (ok (raw_id, raw_payload_id)) =
      projex_decoded trace_id request body raw_id raw_payload_id
        (Projex.Payload.payload_from_json rt body)

  -- The rest of the handler, once the body is read.
  unfoldable pub projex_read : String → Request → Result Bytes → Prog Response
  projex_read trace_id request (err e) =
      reject repo publisher "read_body_failed" 400 trace_id "yunxiao.projex" request.event_type ""
        "read body" e
  projex_read trace_id request (ok body) =
      repo.save_raw_event (projex_meta request "") request.header body true trace_id
      >>= projex_saved trace_id request body

  unfoldable pub handle_projex_webhook : Request → Prog Response
  handle_projex_webhook request = do
    u ← ask Call.new_uuid
    let trace_id = "trace_" ++ u
    if not (Projex.Auth.verify_signature request cfg.projex_secret)
        then reject repo publisher "unauthorized" 401 trace_id "yunxiao.projex" request.event_type
            "" "invalid projex signature" (plain "invalid projex signature")
        else projex_read trace_id request request.body
