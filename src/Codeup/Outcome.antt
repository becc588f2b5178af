-- ===== src/Codeup/Outcome.antt =====
-- What `Normalize` of ingress-service/internal/yunxiao/codeup/normalizer.go returns.
use yunxiao_workflow_agent.Base.{
  String, ◌≡◌, refl, List, ◌∷◌, [], if◌then◌else◌, Bool-cases, ◌==◌, true, ◌⊎◌, false, inl, eq_iff,
  inr, ◌||◌,
}
use yunxiao_workflow_agent.Runtime.{Runtime, Bytes}
use yunxiao_workflow_agent.Codeup.MergeRequest.{
  map_merge_request_event_type, normalize_merge_request, merge_request_event, build_dedup_key,
  merge_request_type_of,
}
use yunxiao_workflow_agent.Codeup.Normalizer.{normalize, dispatch, normalize_object_kind}
use yunxiao_workflow_agent.Codeup.Payload.{WebhookPayload}
use yunxiao_workflow_agent.Base.Result.{Result, ok, err, errors_is, Sentinel}
use yunxiao_workflow_agent.Codeup.Push.{normalize_push, push_event, build_push_dedup_key}
use yunxiao_workflow_agent.Model.{NormalizedEvent}
use yunxiao_workflow_agent.Base.Text.{one_of, is_empty, to_lower}
use yunxiao_workflow_agent.Effects.Laws.{Always, Always-bind}
use yunxiao_workflow_agent.Codeup.Note.{
  normalize_note, note_id_of, note_event, build_note_dedup_key,
}
use yunxiao_workflow_agent.Codeup.Fields.{merge_request_id, ref_name}
use yunxiao_workflow_agent.Ids.{trace_or_new, any_trace}

abbrev pub merge_request_types : List String
merge_request_types = "pr.created" ∷ "pr.merged" ∷ "pr.closed" ∷ "pr.updated" ∷ []

abbrev pub kinds : List String
kinds = "merge_request" ∷ "push" ∷ "tag_push" ∷ "note" ∷ []

-- The kind that an event is for.
abbrev pub kind_of_payload : Runtime → WebhookPayload → String
kind_of_payload rt payload = normalize_object_kind rt payload.object_kind

action_listed :
    (rt : Runtime) (action : String)
    → one_of merge_request_types (merge_request_type_of rt action) ≡ true
action_listed rt action =
    elim (Bool-cases (action == "open" || action == "create" || action == "reopen")) [
      | inl a ↦ rw a refl
      | inr a ↦ rw a (elim (Bool-cases (action == "merge" || action == "merged")) [
        | inl b ↦ rw b refl
        | inr b ↦ rw b (elim (Bool-cases (action == "close" || action == "closed")) [
          | inl c ↦ rw c refl
          | inr c ↦ rw c refl
        ])
      ])
    ]

merge_request_type_listed :
    (rt : Runtime) (payload : WebhookPayload)
    → one_of merge_request_types (map_merge_request_event_type rt payload) ≡ true
unfolding map_merge_request_event_type
merge_request_type_listed rt payload =
    action_listed rt (to_lower rt.lower_rune payload.object_attributes.action)

module _ (rt : Runtime) (payload : WebhookPayload) (raw_payload_id : String) (body : Bytes) where
  -- An event about the merge request, the branch, the tag or the comment of the payload.
  abbrev pub IsMergeRequest : NormalizedEvent → Type 0
  IsMergeRequest e =
      (e.subject.kind ≡ "pull_request")
      × (e.subject.id ≡ merge_request_id payload.object_attributes)
      × (one_of merge_request_types e.event_type ≡ true)
      × (e.dedup_key ≡ build_dedup_key rt payload body e.event_type e.subject.id)

  abbrev pub IsPush : String → String → NormalizedEvent → Type 0
  IsPush kind event_type e =
      (e.subject.kind ≡ kind)
      × (e.subject.id ≡ ref_name payload.ref)
      × (e.event_type ≡ event_type)
      × (e.dedup_key ≡ build_push_dedup_key rt payload body e.event_type e.subject.id)

  abbrev pub IsNote : NormalizedEvent → Type 0
  IsNote e =
      (e.subject.kind ≡ "note")
      × (e.subject.id ≡ note_id_of rt payload.object_attributes)
      × (e.event_type ≡ "repo.note_created")
      × (e.dedup_key ≡ build_note_dedup_key rt payload body e.subject.id)

  -- The right event for a kind.
  abbrev pub Fits : String → NormalizedEvent → Type 0
  Fits kind e =
      ((kind ≡ "merge_request") × IsMergeRequest e)
      ⊎ ((kind ≡ "push") × IsPush "branch" "repo.pushed" e)
      ⊎ ((kind ≡ "tag_push") × IsPush "tag" "repo.tag_pushed" e)
      ⊎ ((kind ≡ "note") × IsNote e)

  -- The subject's id of a payload of this kind.
  abbrev pub subject_id : String → String
  subject_id kind =
      if kind == "merge_request"
      then merge_request_id payload.object_attributes
      else if kind == "note"
      then note_id_of rt payload.object_attributes
      else ref_name payload.ref

  abbrev pub Outcome : String → Result NormalizedEvent → Type 0
  Outcome kind (ok e) =
      (one_of kinds kind ≡ true)
      × Fits kind e
      × (is_empty e.subject.id ≡ false)
      × (e.source ≡ "yunxiao.codeup")
      × (e.raw_payload_id ≡ raw_payload_id)
  Outcome kind (err e) =
      ((one_of kinds kind ≡ false) × (errors_is e Sentinel.codeup_ignored ≡ true))
      ⊎ ((one_of kinds kind ≡ true)
          × (is_empty (subject_id kind) ≡ true)
          × (errors_is e Sentinel.codeup_ignored ≡ false))

  merge_request-Outcome :
      (trace : String)
      → Always
          (Outcome "merge_request")
          (normalize_merge_request rt payload raw_payload_id body trace)
  unfolding normalize_merge_request merge_request_event
  merge_request-Outcome trace =
      elim (Bool-cases (is_empty (merge_request_id payload.object_attributes))) [
        | inl e ↦ rw e (inr (refl, e, refl))
        | inr e ↦ rw e (λ u. (
          refl,
          inl (refl, (refl, refl, merge_request_type_listed rt payload, refl)),
          e,
          refl,
          refl,
        ))
      ]

  push-Outcome :
      (trace : String)
      → Always (Outcome "push") (normalize_push rt payload raw_payload_id body trace false)
  unfolding normalize_push push_event
  push-Outcome trace = elim (Bool-cases (is_empty (ref_name payload.ref))) [
    | inl e ↦ rw e (inr (refl, e, refl))
    | inr e ↦ rw e (λ u. (refl, inr (inl (refl, (refl, refl, refl, refl))), e, refl, refl))
  ]

  tag_push-Outcome :
      (trace : String)
      → Always (Outcome "tag_push") (normalize_push rt payload raw_payload_id body trace true)
  unfolding normalize_push push_event
  tag_push-Outcome trace = elim (Bool-cases (is_empty (ref_name payload.ref))) [
    | inl e ↦ rw e (inr (refl, e, refl))
    | inr e ↦ rw e (λ u. (refl, inr (inr (inl (refl, (refl, refl, refl, refl)))), e, refl, refl))
  ]

  note-Outcome :
      (trace : String)
      → Always (Outcome "note") (normalize_note rt payload raw_payload_id body trace)
  unfolding normalize_note note_event
  note-Outcome trace = elim (Bool-cases (is_empty (note_id_of rt payload.object_attributes))) [
    | inl e ↦ rw e (inr (refl, e, refl))
    | inr e ↦ rw e (λ u. (refl, inr (inr (inr (refl, (refl, refl, refl, refl)))), e, refl, refl))
  ]

  dispatch-Outcome :
      (kind trace : String)
      → Always (Outcome kind) (dispatch rt kind payload raw_payload_id body trace)
  unfolding dispatch
  dispatch-Outcome kind trace = elim (Bool-cases (kind == "merge_request")) [
    | inl a ↦ rw ((eq_iff kind "merge_request").0 a) (merge_request-Outcome trace)
    | inr a ↦ rw a (elim (Bool-cases (kind == "push")) [
      | inl b ↦ rw ((eq_iff kind "push").0 b) (push-Outcome trace)
      | inr b ↦ rw b (elim (Bool-cases (kind == "tag_push")) [
        | inl c ↦ rw ((eq_iff kind "tag_push").0 c) (tag_push-Outcome trace)
        | inr c ↦ rw c (elim (Bool-cases (kind == "note")) [
          | inl d ↦ rw ((eq_iff kind "note").0 d) (note-Outcome trace)
          | inr d ↦ rw d (inl (rw (a, b, c, d), refl))
        ])
      ])
    ])
  ]

-- Whatever UUIDs are drawn, `Normalize` of codeup/normalizer.go returns an event exactly when the
-- object kind is one of the four supported ones, in any case, and the payload names its subject: for
-- a merge request, a push, a tag push and a comment the event's subject, type and dedup key are those
-- of this kind. Otherwise the error is the ignored one if the kind is not supported, and another one
-- if the subject has no id.
pub codeup_normalize-Outcome :
    (rt : Runtime) (payload : WebhookPayload) (raw_payload_id : String) (body : Bytes)
    (trace : String)
    → Always
        (Outcome rt payload raw_payload_id body (kind_of_payload rt payload))
        (normalize rt payload raw_payload_id body trace)
unfolding normalize
codeup_normalize-Outcome rt payload raw_payload_id body trace =
    Always-bind (λ t. Unit) (Outcome rt payload raw_payload_id body (kind_of_payload rt payload))
      (trace_or_new trace) (dispatch rt (kind_of_payload rt payload) payload raw_payload_id body)
      (any_trace rt trace)
      (λ t _. dispatch-Outcome rt payload raw_payload_id body (kind_of_payload rt payload) t)
