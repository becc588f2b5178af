-- ===== src/Projex/Outcome.antt =====
-- What `Normalize` of ingress-service/internal/yunxiao/projex/normalizer.go returns.
use yunxiao_workflow_agent.Base.{
  String, ◌≡◌, List, [], ◌∷◌, arith, Bool, ◌||◌, false, true, ◌↔◌, Bool-cases, ◌⊎◌, ◌==◌, inl,
  eq_iff, inr, sym, if◌then◌else◌, refl,
}
use yunxiao_workflow_agent.Runtime.{Runtime, Bytes}
use yunxiao_workflow_agent.Projex.Normalizer.{
  normalize_event_type, known_event_type, normalize, normalize_typed, event_of, work_item_id_of,
  build_dedup_key,
}
use yunxiao_workflow_agent.Base.Text.{trim_space, is_empty, one_of}
use yunxiao_workflow_agent.Base.Result.{Result, ok, err, errors_is, Sentinel}
use yunxiao_workflow_agent.Projex.Payload.{WebhookPayload}
use yunxiao_workflow_agent.Model.{NormalizedEvent}
use yunxiao_workflow_agent.Effects.Laws.{Always, Always-bind}
use yunxiao_workflow_agent.Ids.{trace_or_new, any_trace}

abbrev pub work_item_types : List String
work_item_types =
    "work_item.created" ∷ "work_item.updated" ∷ "work_item.status_changed"
    ∷ "work_item.assignee_changed" ∷ "work_item.deleted" ∷ []

-- The event type is empty or one of the five, but for the space around it.
abbrev pub is_supported : String → Bool
is_supported event_type =
    is_empty (trim_space event_type) || one_of work_item_types (trim_space event_type)

-- What an event type without its space stands for.
abbrev TypeOutcome : String → String → Result String → Type 0
TypeOutcome event_type trimmed (ok t) =
    ((is_empty trimmed ≡ true) × (t ≡ "work_item.updated"))
    ⊎ ((is_empty trimmed ≡ false) × (one_of work_item_types trimmed ≡ true) × (t ≡ event_type))
TypeOutcome event_type trimmed (err e) =
    (is_empty trimmed ≡ false)
    × (one_of work_item_types trimmed ≡ false)
    × (errors_is e Sentinel.projex_ignored ≡ true)

known_event_type_outcome :
    (rt : Runtime) (event_type trimmed : String)
    → TypeOutcome event_type trimmed (known_event_type rt event_type trimmed)
unfolding known_event_type
known_event_type_outcome rt event_type trimmed = ground arith

-- The known types have no space around them.
trimmed_types : (s : String) → one_of work_item_types s ≡ true → trim_space s ≡ s
unfolding trim_space
trimmed_types s h = elim (Bool-cases (s == "work_item.created")) [
  | inl a ↦ rw ((eq_iff s _).0 a)
  | inr a ↦ elim (Bool-cases (s == "work_item.updated")) [
    | inl b ↦ rw ((eq_iff s _).0 b)
    | inr b ↦ elim (Bool-cases (s == "work_item.status_changed")) [
      | inl c ↦ rw ((eq_iff s _).0 c)
      | inr c ↦ elim (Bool-cases (s == "work_item.assignee_changed")) [
        | inl d ↦ rw ((eq_iff s _).0 d)
        | inr d ↦ elim (Bool-cases (s == "work_item.deleted")) [
          | inl e ↦ rw ((eq_iff s _).0 e)
          | inr e ↦ absurd (ground (arith, a, b, c, d, e))
        ]
      ]
    ]
  ]
]

-- For a type that is accepted and not blank: the type that `normalizeEventType` returns, which is the
-- routing key of the message, is one of the five exactly when the query parameter has no space
-- around it. With space around it the untrimmed text is returned.
pub normalize_event_type-known_iff :
    (rt : Runtime) (event_type t : String)
    → normalize_event_type rt event_type ≡ ok t
    → is_empty (trim_space event_type) ≡ false
    → (one_of work_item_types t ≡ true) ↔ (trim_space event_type ≡ event_type)
unfolding normalize_event_type
normalize_event_type-known_iff rt event_type t h filled =
    elim (accepted (known_event_type_outcome rt event_type (trim_space event_type))) [
      | inl (blank, _) ↦ absurd (cc (blank, filled))
      | inr (_, listed, same) ↦ rw same (trimmed_types event_type, λ e. rw (sym e) listed)
    ]
  where
    accepted :
        TypeOutcome event_type
          (trim_space event_type)
          (known_event_type rt event_type (trim_space event_type))
        → TypeOutcome event_type (trim_space event_type) (ok t)
    accepted o = rw h at o

-- The result of `Normalize`: an event about the work item, or an ignored event for an event type that
-- is not supported, or a failure where the work item has no id.
abbrev pub Outcome :
    Runtime → WebhookPayload → String → String → Bytes → Result NormalizedEvent → Type 0
Outcome rt payload event_type raw_payload_id body (ok e) =
    (is_supported event_type ≡ true)
    × (is_empty (work_item_id_of payload) ≡ false)
    × (e.event_type
        ≡ (if is_empty (trim_space event_type) then "work_item.updated" else event_type))
    × (e.source ≡ "yunxiao.projex")
    × (e.subject.kind ≡ "work_item")
    × (e.subject.id ≡ work_item_id_of payload)
    × (e.work_item_id ≡ work_item_id_of payload)
    × (e.dedup_key ≡ build_dedup_key rt e.event_type (work_item_id_of payload) payload body)
    × (e.raw_payload_id ≡ raw_payload_id)
Outcome rt payload event_type raw_payload_id body (err e) =
    ((is_supported event_type ≡ false) × (errors_is e Sentinel.projex_ignored ≡ true))
    ⊎ ((is_supported event_type ≡ true)
        × (is_empty (work_item_id_of payload) ≡ true)
        × (errors_is e Sentinel.projex_ignored ≡ false))

accepted_type :
    (event_type t : String)
    → TypeOutcome event_type (trim_space event_type) (ok t)
    → (is_supported event_type ≡ true)
      × (t ≡ (if is_empty (trim_space event_type) then "work_item.updated" else event_type))
accepted_type event_type t (inl (blank, same)) = rw blank (refl, same)
accepted_type event_type t (inr (filled, listed, same)) = rw (filled, listed) (refl, same)

typed-Outcome :
    (rt : Runtime) (payload : WebhookPayload) (event_type raw_payload_id : String) (body : Bytes)
    (trace : String) (known : Result String)
    → TypeOutcome event_type (trim_space event_type) known
    → Always
        (Outcome rt payload event_type raw_payload_id body)
        (normalize_typed rt payload raw_payload_id body trace known)
unfolding normalize_typed event_of
typed-Outcome rt payload event_type raw_payload_id body trace (err e) (filled, unlisted, ignored) =
    inl (rw (filled, unlisted) (refl, ignored))
typed-Outcome rt payload event_type raw_payload_id body trace (ok t) o =
    let (supported, same) = accepted_type event_type t o in
    elim (Bool-cases (is_empty (work_item_id_of payload))) [
      | inl none_given ↦ rw none_given (inr (supported, none_given, refl))
      | inr given ↦ rw given (λ u. (supported, given, same, refl, refl, refl, refl, refl, refl))
    ]

-- Whatever UUIDs are drawn, `Normalize` of projex/normalizer.go returns an event exactly when the
-- event type, without the space around it, is empty or one of the five, and the work item has an id:
-- it is about this work item and has the dedup key of `buildDedupKey`. Its type is
-- `work_item.updated` for a blank one, and else the event type as it was given. Otherwise the error
-- is the ignored one if the type is not supported, and another one if the work item has no id.
pub projex_normalize-Outcome :
    (rt : Runtime) (payload : WebhookPayload) (event_type raw_payload_id : String) (body : Bytes)
    (trace : String)
    → Always
        (Outcome rt payload event_type raw_payload_id body)
        (normalize rt payload event_type raw_payload_id body trace)
unfolding normalize normalize_event_type
projex_normalize-Outcome rt payload event_type raw_payload_id body trace =
    Always-bind (λ t. Unit) (Outcome rt payload event_type raw_payload_id body) (trace_or_new trace)
      (λ t.
        normalize_typed rt payload raw_payload_id body t
          (known_event_type rt event_type (trim_space event_type)))
      (any_trace rt trace)
      (λ t _.
        typed-Outcome rt payload event_type raw_payload_id body t _
          (known_event_type_outcome rt event_type (trim_space event_type)))
