-- ===== src/HttpServer/Adapters.antt =====
-- The adapters draw UUIDs, and make no other call: `Normalize` of ingress-service/internal/yunxiao.
use yunxiao_workflow_agent.Base.{String, Bool, true, false, inl, inr, Bool-cases, ◌==◌}
use yunxiao_workflow_agent.Base.Text.{is_empty}
use yunxiao_workflow_agent.Base.Result.{Result, ok, err}
use yunxiao_workflow_agent.Runtime.{Runtime, Bytes}
use yunxiao_workflow_agent.Ids.{trace_or_new}
use yunxiao_workflow_agent.Codeup
use yunxiao_workflow_agent.Projex
use yunxiao_workflow_agent.Flow
use yunxiao_workflow_agent.Effects.Draws.{Draws, Draws-bind, Draws-if}

module _ (rt : Runtime) where
  trace_or_new-Draws : (trace : String) → Draws (trace_or_new trace)
  unfolding trace_or_new
  trace_or_new-Draws trace = Draws-if (is_empty trace) _ _ (λ u. tt) tt

  flow_typed-Draws :
      (payload : Flow.Payload.WebhookPayload) (raw_id : String) (body : Bytes) (trace : String)
      (known : Result String)
      → Draws (Flow.Normalizer.normalize_typed rt payload raw_id body trace known)
  unfolding Flow.Normalizer.normalize_typed
  flow_typed-Draws payload raw_id body trace (err e) = tt
  flow_typed-Draws payload raw_id body trace (ok known) =
      elim (Bool-cases (is_empty (Flow.Normalizer.run_id_of rt payload))) [
        | inl e ↦ rw e tt
        | inr e ↦ rw e (λ u. tt)
      ]

  pub flow_normalize-Draws :
      (payload : Flow.Payload.WebhookPayload) (raw_id : String) (body : Bytes) (trace : String)
      → Draws (Flow.Normalizer.normalize rt payload raw_id body trace)
  unfolding Flow.Normalizer.normalize
  flow_normalize-Draws payload raw_id body trace =
      Draws-bind (trace_or_new trace)
        (λ t. Flow.Normalizer.normalize_typed rt payload raw_id body t _) (trace_or_new-Draws trace)
        (λ t. flow_typed-Draws payload raw_id body t _)

  projex_typed-Draws :
      (payload : Projex.Payload.WebhookPayload) (raw_id : String) (body : Bytes) (trace : String)
      (known : Result String)
      → Draws (Projex.Normalizer.normalize_typed rt payload raw_id body trace known)
  unfolding Projex.Normalizer.normalize_typed
  projex_typed-Draws payload raw_id body trace (err e) = tt
  projex_typed-Draws payload raw_id body trace (ok known) =
      elim (Bool-cases (is_empty (Projex.Normalizer.work_item_id_of payload))) [
        | inl e ↦ rw e tt
        | inr e ↦ rw e (λ u. tt)
      ]

  pub projex_normalize-Draws :
      (payload : Projex.Payload.WebhookPayload) (event_type : String) (raw_id : String)
      (body : Bytes) (trace : String)
      → Draws (Projex.Normalizer.normalize rt payload event_type raw_id body trace)
  unfolding Projex.Normalizer.normalize
  projex_normalize-Draws payload event_type raw_id body trace =
      Draws-bind (trace_or_new trace)
        (λ t. Projex.Normalizer.normalize_typed rt payload raw_id body t _)
        (trace_or_new-Draws trace) (λ t. projex_typed-Draws payload raw_id body t _)

  merge_request-Draws :
      (payload : Codeup.Payload.WebhookPayload) (raw_id : String) (body : Bytes) (trace : String)
      → Draws (Codeup.MergeRequest.normalize_merge_request rt payload raw_id body trace)
  unfolding Codeup.MergeRequest.normalize_merge_request
  merge_request-Draws payload raw_id body trace =
      elim (Bool-cases (is_empty (Codeup.Fields.merge_request_id payload.object_attributes))) [
        | inl e ↦ rw e tt
        | inr e ↦ rw e (λ u. tt)
      ]

  push-Draws :
      (payload : Codeup.Payload.WebhookPayload) (raw_id : String) (body : Bytes) (trace : String)
      (tag_push : Bool)
      → Draws (Codeup.Push.normalize_push rt payload raw_id body trace tag_push)
  unfolding Codeup.Push.normalize_push
  push-Draws payload raw_id body trace tag_push =
      elim (Bool-cases (is_empty (Codeup.Fields.ref_name payload.ref))) [
        | inl e ↦ rw e tt
        | inr e ↦ rw e (λ u. tt)
      ]

  note-Draws :
      (payload : Codeup.Payload.WebhookPayload) (raw_id : String) (body : Bytes) (trace : String)
      → Draws (Codeup.Note.normalize_note rt payload raw_id body trace)
  unfolding Codeup.Note.normalize_note
  note-Draws payload raw_id body trace =
      elim (Bool-cases (is_empty (Codeup.Note.note_id_of rt payload.object_attributes))) [
        | inl e ↦ rw e tt
        | inr e ↦ rw e (λ u. tt)
      ]

  codeup_dispatch-Draws :
      (kind : String) (payload : Codeup.Payload.WebhookPayload) (raw_id : String) (body : Bytes)
      (trace : String)
      → Draws (Codeup.Normalizer.dispatch rt kind payload raw_id body trace)
  unfolding Codeup.Normalizer.dispatch
  codeup_dispatch-Draws kind payload raw_id body trace =
      elim (Bool-cases (kind == "merge_request")) [
        | inl e ↦ rw e (merge_request-Draws payload raw_id body trace)
        | inr e ↦ rw e (elim (Bool-cases (kind == "push")) [
          | inl e ↦ rw e (push-Draws payload raw_id body trace false)
          | inr e ↦ rw e (elim (Bool-cases (kind == "tag_push")) [
            | inl e ↦ rw e (push-Draws payload raw_id body trace true)
            | inr e ↦ rw e (elim (Bool-cases (kind == "note")) [
              | inl e ↦ rw e (note-Draws payload raw_id body trace)
              | inr e ↦ rw e tt
            ])
          ])
        ])
      ]

  pub codeup_normalize-Draws :
      (payload : Codeup.Payload.WebhookPayload) (raw_id : String) (body : Bytes) (trace : String)
      → Draws (Codeup.Normalizer.normalize rt payload raw_id body trace)
  unfolding Codeup.Normalizer.normalize
  codeup_normalize-Draws payload raw_id body trace =
      let kind = Codeup.Normalizer.normalize_object_kind rt payload.object_kind in
      Draws-bind (trace_or_new trace) (Codeup.Normalizer.dispatch rt kind payload raw_id body)
        (trace_or_new-Draws trace) (codeup_dispatch-Draws kind payload raw_id body)
