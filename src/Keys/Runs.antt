-- ===== src/Keys/Runs.antt =====
-- What the dedup key of a Flow event determines: ingress-service/internal/yunxiao/flow/normalizer.go.
use text.Mathlib.TextLemmas.{append_cancel_left}
use yunxiao_workflow_agent.Base.{String, Bool, ◌≡◌, ◌&&◌, not, true, false}
use yunxiao_workflow_agent.Base.Text.{is_empty}
use yunxiao_workflow_agent.Runtime.{Runtime, Bytes}
use yunxiao_workflow_agent.Flow.Payload.{WebhookPayload}
use yunxiao_workflow_agent.Flow.Normalizer.{build_dedup_key}
use yunxiao_workflow_agent.Keys.Colons.{has_colon, fields_split}

-- The payload names its pipeline and the status, and the run is known.
abbrev pub is_named : WebhookPayload → String → Bool
is_named payload run =
    not (is_empty payload.task.pipeline_id)
    && not (is_empty run)
    && not (is_empty payload.task.status_code)

-- Two keys of Flow events that are equal come from the same event type, pipeline, run and status code,
-- where both payloads name these and the event types, pipelines and runs have no colon.
pub flow_key_inj :
    (rt : Runtime) (p q : WebhookPayload) (body body' : Bytes) (t t' r r' : String)
    → is_named p r ≡ true
    → is_named q r' ≡ true
    → has_colon t ≡ false
    → has_colon t' ≡ false
    → has_colon p.task.pipeline_id ≡ false
    → has_colon q.task.pipeline_id ≡ false
    → has_colon r ≡ false
    → has_colon r' ≡ false
    → build_dedup_key rt t p body r ≡ build_dedup_key rt t' q body' r'
    → (t ≡ t')
      × (p.task.pipeline_id ≡ q.task.pipeline_id)
      × (r ≡ r')
      × (p.task.status_code ≡ q.task.status_code)
unfolding build_dedup_key
flow_key_inj rt p q body body' t t' r r' np nq ht ht' hp hq hr hr' e =
    let (types, e1) =
      fields_split t t' _ _ ht ht' (append_cancel_left "yunxiao.flow:" _ _ (rw (np, nq) at e)) in
    let (pipelines, e2) = fields_split p.task.pipeline_id q.task.pipeline_id _ _ hp hq e1 in
    let (runs, statuses) = fields_split r r' _ _ hr hr' e2 in (types, pipelines, runs, statuses)
