-- ===== src/HttpServer/Order/Adapters.antt =====
-- The order in which the handlers of ingress-service/internal/httpserver/server.go store and publish: the adapters.
use yunxiao_workflow_agent.Base.{String, Bool}
use yunxiao_workflow_agent.Runtime.{Runtime, Bytes}
use yunxiao_workflow_agent.Model.{RawEventMeta}
use yunxiao_workflow_agent.Effects.Discipline.{Draws-IsOrdered, IsOrdered, IsOrdered-result, quiet}
use yunxiao_workflow_agent.Repository.{Header, headers_value, save_raw_event}
use yunxiao_workflow_agent.HttpServer.Adapters.{
  flow_normalize-Draws, projex_normalize-Draws, codeup_normalize-Draws,
}
use yunxiao_workflow_agent.Codeup
use yunxiao_workflow_agent.Projex
use yunxiao_workflow_agent.Flow

module _ (rt : Runtime) where
  pub save_raw_event-IsOrdered :
      (meta : RawEventMeta) (headers : Header) (body : Bytes) (valid : Bool) (trace : String)
      → IsOrdered (save_raw_event rt meta headers body valid trace) quiet
  unfolding save_raw_event
  save_raw_event-IsOrdered meta headers body valid trace =
      IsOrdered-result quiet (rt.marshal (headers_value headers)) _ _ (λ json now r. tt) (λ e. tt)

  pub flow_normalize-IsOrdered :
      (payload : Flow.Payload.WebhookPayload) (raw_id : String) (body : Bytes) (trace : String)
      → IsOrdered (Flow.Normalizer.normalize rt payload raw_id body trace) quiet
  flow_normalize-IsOrdered payload raw_id body trace =
      Draws-IsOrdered (Flow.Normalizer.normalize rt payload raw_id body trace) quiet
        (flow_normalize-Draws rt payload raw_id body trace)

  pub projex_normalize-IsOrdered :
      (payload : Projex.Payload.WebhookPayload) (event_type : String) (raw_id : String)
      (body : Bytes) (trace : String)
      → IsOrdered (Projex.Normalizer.normalize rt payload event_type raw_id body trace) quiet
  projex_normalize-IsOrdered payload event_type raw_id body trace =
      Draws-IsOrdered (Projex.Normalizer.normalize rt payload event_type raw_id body trace) quiet
        (projex_normalize-Draws rt payload event_type raw_id body trace)

  pub codeup_normalize-IsOrdered :
      (payload : Codeup.Payload.WebhookPayload) (raw_id : String) (body : Bytes) (trace : String)
      → IsOrdered (Codeup.Normalizer.normalize rt payload raw_id body trace) quiet
  codeup_normalize-IsOrdered payload raw_id body trace =
      Draws-IsOrdered (Codeup.Normalizer.normalize rt payload raw_id body trace) quiet
        (codeup_normalize-Draws rt payload raw_id body trace)
