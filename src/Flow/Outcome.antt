-- ===== src/Flow/Outcome.antt =====
-- What `Normalize` of ingress-service/internal/yunxiao/flow/normalizer.go returns.
use yunxiao_workflow_agent.Base.{
  String, ◌≡◌, Bool, true, false, List, [], ◌∷◌, arith, Bool-cases, inl, inr, ◌⊎◌, refl,
}
use yunxiao_workflow_agent.Base.Text.{to_upper, is_empty, one_of}
use yunxiao_workflow_agent.Base.Result.{Sentinel, Result, ok, err, errors_is}
use yunxiao_workflow_agent.Runtime.{Runtime, Bytes}
use yunxiao_workflow_agent.Flow.Payload.{WebhookPayload}
use yunxiao_workflow_agent.Flow.Normalizer.{
  event_type_of, map_event_type, normalize, normalize_typed, event_of, run_id_of, build_dedup_key,
}
use yunxiao_workflow_agent.Effects.Laws.{Always, Always-bind}
use yunxiao_workflow_agent.Model.{NormalizedEvent}
use yunxiao_workflow_agent.Ids.{trace_or_new, any_trace}

-- The status codes that are supported, and the event types that they give.
abbrev pub supported_codes : List String
supported_codes =
    "FAIL" ∷ "SUCCESS" ∷ "FINISH" ∷ "CANCELED" ∷ "CANCELLING" ∷ "RUNNING" ∷ "WAITING" ∷ "SKIP" ∷ []

abbrev pub pipeline_types : List String
pipeline_types =
    "pipeline.failed" ∷ "pipeline.succeeded" ∷ "pipeline.finished" ∷ "pipeline.canceled"
    ∷ "pipeline.started" ∷ "pipeline.skipped" ∷ []

abbrev pub is_supported : Runtime → WebhookPayload → Bool
is_supported rt payload = one_of supported_codes (to_upper rt.upper_rune payload.task.status_code)

-- What the mapping of the status code says.
abbrev TypeOutcome : Bool → Result String → Type 0
TypeOutcome supported (ok t) = (supported ≡ true) × (one_of pipeline_types t ≡ true)
TypeOutcome supported (err e) = (supported ≡ false) × (errors_is e Sentinel.flow_ignored ≡ true)

event_type_of_outcome :
    (rt : Runtime) (s code : String)
    → TypeOutcome (one_of supported_codes code) (event_type_of rt s code)
unfolding event_type_of
event_type_of_outcome rt s code = ground arith

pub map_event_type_outcome :
    (rt : Runtime) (s : String)
    → TypeOutcome (one_of supported_codes (to_upper rt.upper_rune s)) (map_event_type rt s)
unfolding map_event_type
map_event_type_outcome rt s = event_type_of_outcome rt s (to_upper rt.upper_rune s)

-- The result of `Normalize`: an event about the run of a supported status code, or an ignored event
-- for any other code, or a failure where the run has no id.
abbrev pub Outcome : Runtime → WebhookPayload → String → Bytes → Result NormalizedEvent → Type 0
Outcome rt payload raw_payload_id body (ok e) =
    (is_supported rt payload ≡ true)
    × (is_empty (run_id_of rt payload) ≡ false)
    × (map_event_type rt payload.task.status_code ≡ ok e.event_type)
    × (one_of pipeline_types e.event_type ≡ true)
    × (e.source ≡ "yunxiao.flow")
    × (e.subject.kind ≡ "pipeline_run")
    × (e.subject.id ≡ run_id_of rt payload)
    × (e.dedup_key ≡ build_dedup_key rt e.event_type payload body (run_id_of rt payload))
    × (e.raw_payload_id ≡ raw_payload_id)
Outcome rt payload raw_payload_id body (err e) =
    ((is_supported rt payload ≡ false) × (errors_is e Sentinel.flow_ignored ≡ true))
    ⊎ ((is_supported rt payload ≡ true)
        × (is_empty (run_id_of rt payload) ≡ true)
        × (errors_is e Sentinel.flow_ignored ≡ false))

typed-Outcome :
    (rt : Runtime) (payload : WebhookPayload) (raw_payload_id : String) (body : Bytes)
    (trace : String) (known : Result String)
    → map_event_type rt payload.task.status_code ≡ known
    → TypeOutcome (is_supported rt payload) known
    → Always
        (Outcome rt payload raw_payload_id body)
        (normalize_typed rt payload raw_payload_id body trace known)
unfolding normalize_typed event_of
typed-Outcome rt payload raw_payload_id body trace (err e) same h = inl h
typed-Outcome rt payload raw_payload_id body trace (ok t) same (supported, listed) =
    elim (Bool-cases (is_empty (run_id_of rt payload))) [
      | inl none_given ↦ rw none_given (inr (supported, none_given, refl))
      | inr given ↦ rw given (λ u. (supported, given, same, listed, refl, refl, refl, refl, refl))
    ]

-- Whatever UUIDs are drawn, `Normalize` of flow/normalizer.go returns an event exactly when the
-- status code is one of the eight supported ones in any case and the run has an id: it is about this
-- run, has one of the six pipeline event types and the dedup key of `buildDedupKey`. Otherwise the
-- error is the ignored one if the code is not supported, and another one if the run has no id.
pub flow_normalize-Outcome :
    (rt : Runtime) (payload : WebhookPayload) (raw_payload_id : String) (body : Bytes)
    (trace : String)
    → Always
        (Outcome rt payload raw_payload_id body)
        (normalize rt payload raw_payload_id body trace)
unfolding normalize
flow_normalize-Outcome rt payload raw_payload_id body trace =
    Always-bind (λ t. Unit) (Outcome rt payload raw_payload_id body) (trace_or_new trace)
      (λ t.
        normalize_typed rt payload raw_payload_id body t
          (map_event_type rt payload.task.status_code))
      (any_trace rt trace)
      (λ t _.
        typed-Outcome rt payload raw_payload_id body t _ refl
          (map_event_type_outcome rt payload.task.status_code))
