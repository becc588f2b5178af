-- ===== src/Orchestrator/Registry/Delivery.antt =====
-- What the orchestrator does with the events that the adapters of ingress-service/internal/yunxiao make.
use yunxiao_workflow_agent.Base.{
  ◌||◌, String, Bool, ◌≡◌, refl, if◌then◌else◌, Bool-cases, inl, inr, eq_iff, ◌==◌,
}
use yunxiao_workflow_agent.Effects.Laws.{Always, Always-weaken}
use yunxiao_workflow_agent.Base.Result.{Result, ok, err}
use yunxiao_workflow_agent.Base.Text.{trim_space, is_empty}
use yunxiao_workflow_agent.Model.{NormalizedEvent}
use yunxiao_workflow_agent.Flow
use yunxiao_workflow_agent.Codeup
use yunxiao_workflow_agent.Projex
use yunxiao_workflow_agent.Orchestrator.Registry.{
  event_routes, resolve_event_route, default_event_route,
}
use yunxiao_workflow_agent.Orchestrator.Registry.Topic.{IsTopic}
use yunxiao_workflow_agent.Runtime.{Runtime, Bytes}
use yunxiao_workflow_agent.Orchestrator.Registry.Handled.{
  one_of-All, lookup-padded, routes_trimmed, Handled, pipeline-Handled, work_item-Handled,
  pr-Handled, repo-Handled,
}

-- Comments, branches and tags have the queue of the repositories.
abbrev pub codeup_queue : NormalizedEvent → String
codeup_queue e = if e.subject.kind == "pull_request" then "orchestrator.pr" else "orchestrator.repo"

module _ (fits : String → String → Bool) where
  -- An event that an adapter returns is handled.
  abbrev pub Delivers : (NormalizedEvent → String) → Result NormalizedEvent → Type 0
  Delivers queue (ok e) = Handled fits (queue e) e.event_type
  Delivers queue (err x) = Unit

  flow-Outcome :
      (rt : Runtime) (payload : Flow.Payload.WebhookPayload) (raw_payload_id : String)
      (body : Bytes) (r : Result NormalizedEvent)
      → IsTopic fits
      → Flow.Outcome.Outcome rt payload raw_payload_id body r
      → Delivers (λ e. "orchestrator.pipeline") r
  flow-Outcome rt payload raw_payload_id body (err x) topic h = tt
  flow-Outcome rt payload raw_payload_id body (ok e) topic (_, _, _, listed, _, _, _, _, _) =
      one_of-All (Handled fits "orchestrator.pipeline") Flow.Outcome.pipeline_types e.event_type
        (pipeline-Handled fits topic) listed

  codeup-Outcome :
      (rt : Runtime) (payload : Codeup.Payload.WebhookPayload) (raw_payload_id : String)
      (body : Bytes) (kind : String) (r : Result NormalizedEvent)
      → IsTopic fits
      → Codeup.Outcome.Outcome rt payload raw_payload_id body kind r
      → Delivers codeup_queue r
  codeup-Outcome rt payload raw_payload_id body kind (err x) topic h = tt
  codeup-Outcome rt payload raw_payload_id body kind (ok e) topic
        (_, inl (_, (subject, _, listed, _)), _, _, _) =
      rw subject (
        one_of-All (Handled fits "orchestrator.pr") Codeup.Outcome.merge_request_types e.event_type
          (pr-Handled fits topic) listed)
  codeup-Outcome rt payload raw_payload_id body kind (ok e) topic
        (_, inr (inl (_, (subject, _, type, _))), _, _, _) =
      rw (subject, type) (repo-Handled fits topic).0
  codeup-Outcome rt payload raw_payload_id body kind (ok e) topic
        (_, inr (inr (inl (_, (subject, _, type, _)))), _, _, _) =
      rw (subject, type) (repo-Handled fits topic).1.0
  codeup-Outcome rt payload raw_payload_id body kind (ok e) topic
        (_, inr (inr (inr (_, (subject, _, type, _)))), _, _, _) =
      rw (subject, type) (repo-Handled fits topic).1.1.0

  -- A type of work item events that has space around it, and is not blank, has no route of its own.
  abbrev pub ProjexDelivers : String → Result NormalizedEvent → Type 0
  ProjexDelivers event_type (err x) = Unit
  ProjexDelivers event_type (ok e) =
      if is_empty (trim_space event_type) || trim_space event_type == event_type
      then Handled fits "orchestrator.work_item" e.event_type
      else resolve_event_route e.event_type ≡ default_event_route

  projex-Outcome :
      (rt : Runtime) (payload : Projex.Payload.WebhookPayload) (event_type raw_payload_id : String)
      (body : Bytes) (r : Result NormalizedEvent)
      → IsTopic fits
      → Projex.Outcome.Outcome rt payload event_type raw_payload_id body r
      → ProjexDelivers event_type r
  unfolding resolve_event_route
  projex-Outcome rt payload event_type raw_payload_id body (err x) topic h = tt
  projex-Outcome rt payload event_type raw_payload_id body (ok e) topic
        (supported, _, type, _, _, _, _, _, _) =
      elim (Bool-cases (is_empty (trim_space event_type))) [
        | inl blank ↦ rw (type, blank) (work_item-Handled fits topic).1.0
        | inr filled ↦
            rw (type, filled)
              (elim (Bool-cases (trim_space event_type == event_type)) [
                | inl plain ↦ rw plain (
                    one_of-All (Handled fits "orchestrator.work_item")
                      Projex.Outcome.work_item_types event_type (work_item-Handled fits topic)
                      (rw ((eq_iff (trim_space event_type) event_type).0 plain) at
                        (rw filled at supported)))
                | inr padded ↦
                    rw (padded, lookup-padded event_type event_routes routes_trimmed padded) refl
              ])
      ]

-- For an exchange that matches routing keys as RabbitMQ documents it, and whatever UUIDs are drawn:
-- every event that an adapter returns goes, by its type as routing key, to exactly one queue of the
-- orchestrator, that of its kind, and its type has a route of its own in EVENT_ROUTES; except that a
-- work item event whose type has space around it, and is not blank, is left to the default route.
pub adapters-Delivers :
    (fits : String → String → Bool) (rt : Runtime) (codeup : Codeup.Payload.WebhookPayload)
    (projex : Projex.Payload.WebhookPayload) (flow : Flow.Payload.WebhookPayload)
    (event_type raw_payload_id : String) (body : Bytes) (trace : String)
    → IsTopic fits
    → Always
        (Delivers fits codeup_queue)
        (Codeup.Normalizer.normalize rt codeup raw_payload_id body trace)
      × Always
          (ProjexDelivers fits event_type)
          (Projex.Normalizer.normalize rt projex event_type raw_payload_id body trace)
      × Always
          (Delivers fits (λ e. "orchestrator.pipeline"))
          (Flow.Normalizer.normalize rt flow raw_payload_id body trace)
adapters-Delivers fits rt codeup projex flow event_type raw_payload_id body trace topic = (
  Always-weaken _ (Delivers fits codeup_queue) _
      (λ r.
        codeup-Outcome fits rt codeup raw_payload_id body (Codeup.Outcome.kind_of_payload rt codeup)
          r topic)
      (Codeup.Outcome.codeup_normalize-Outcome rt codeup raw_payload_id body trace),
  Always-weaken _ (ProjexDelivers fits event_type) _
      (λ r. projex-Outcome fits rt projex event_type raw_payload_id body r topic)
      (Projex.Outcome.projex_normalize-Outcome rt projex event_type raw_payload_id body trace),
  Always-weaken _ (Delivers fits (λ e. "orchestrator.pipeline")) _
      (λ r. flow-Outcome fits rt flow raw_payload_id body r topic)
      (Flow.Outcome.flow_normalize-Outcome rt flow raw_payload_id body trace),
)
