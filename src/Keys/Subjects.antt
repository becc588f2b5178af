-- ===== src/Keys/Subjects.antt =====
-- What the dedup keys of the events of ingress-service/internal/yunxiao/codeup/normalizer.go determine.
use text.Mathlib.TextLemmas.{append_cancel_left}
use yunxiao_workflow_agent.Base.{
  String, ◌≡◌, ◌==◌, ◌||◌, true, false, refl, ◌∙◌, sym, [], ◌∷◌, if◌then◌else◌, Bool-cases, inl,
  inr, eq_iff,
}
use yunxiao_workflow_agent.Base.Int.{ℤ}
use yunxiao_workflow_agent.Base.Text.{is_empty, first_non_empty, one_of, format_int}
use yunxiao_workflow_agent.Base.Result.{Result, ok, err}
use yunxiao_workflow_agent.Runtime.{Runtime, Bytes}
use yunxiao_workflow_agent.Ids.{payload_hash}
use yunxiao_workflow_agent.Model.{NormalizedEvent}
use yunxiao_workflow_agent.Effects.{World, Environment, run}
use yunxiao_workflow_agent.Effects.Laws.{Always-run, Always-weaken}
use yunxiao_workflow_agent.Codeup.Payload.{WebhookPayload}
use yunxiao_workflow_agent.Codeup.Fields.{codeup_key}
use yunxiao_workflow_agent.Codeup.MergeRequest.{build_dedup_key}
use yunxiao_workflow_agent.Codeup.Push.{build_push_dedup_key}
use yunxiao_workflow_agent.Codeup.Note.{build_note_dedup_key}
use yunxiao_workflow_agent.Codeup.Normalizer.{normalize}
use yunxiao_workflow_agent.Codeup.Outcome.{
  merge_request_types, kind_of_payload, Fits, Outcome, codeup_normalize-Outcome,
}
use yunxiao_workflow_agent.Keys.Colons.{has_colon, fields_split}
use yunxiao_workflow_agent.Keys.Separation.{format_int_no_colon, format_int_inj}

-- What tells two events on one subject apart, by the kind of the subject: for a push the commit, for
-- the rest the time of the last change; and where there is none, the hash of the body.
abbrev pub codeup_change : Runtime → WebhookPayload → Bytes → String → String
codeup_change rt payload body kind =
    let sha = first_non_empty (payload.checkout_sha ∷ payload.after ∷ []) in
    if kind == "branch" || kind == "tag"
    then if is_empty sha then payload_hash rt body else sha
    else if is_empty payload.object_attributes.updated_at
    then payload_hash rt body
    else payload.object_attributes.updated_at

keys_split :
    (t t' : String) (p p' : ℤ) (s s' l l' : String)
    → has_colon t ≡ false
    → has_colon t' ≡ false
    → has_colon s ≡ false
    → has_colon s' ≡ false
    → codeup_key t p s l ≡ codeup_key t' p' s' l'
    → (t ≡ t') × (p ≡ p') × (s ≡ s') × (l ≡ l')
unfolding codeup_key
keys_split t t' p p' s s' l l' ht ht' hs hs' e =
    let (types, e1) = fields_split t t' _ _ ht ht' (append_cancel_left "yunxiao.codeup:" _ _ e) in
    let (projects, e2) =
      fields_split (format_int p) (format_int p') _ _ (format_int_no_colon p)
        (format_int_no_colon p') e1 in
    let (subjects, lasts) = fields_split s s' _ _ hs hs' e2 in
    (types, format_int_inj p p' projects, subjects, lasts)

listed_no_colon : (t : String) → one_of merge_request_types t ≡ true → has_colon t ≡ false
listed_no_colon t h = elim (Bool-cases (t == "pr.created")) [
  | inl a ↦ rw ((eq_iff t "pr.created").0 a) refl
  | inr a ↦ elim (Bool-cases (t == "pr.merged")) [
    | inl b ↦ rw ((eq_iff t "pr.merged").0 b) refl
    | inr b ↦ elim (Bool-cases (t == "pr.closed")) [
      | inl c ↦ rw ((eq_iff t "pr.closed").0 c) refl
      | inr c ↦ elim (Bool-cases (t == "pr.updated")) [
        | inl d ↦ rw ((eq_iff t "pr.updated").0 d) refl
        | inr d ↦ absurd (cc (rw (a, b, c, d) at h))
      ]
    ]
  ]
]

module _ (rt : Runtime) (payload : WebhookPayload) (body : Bytes) where
  merge_request_key :
      (t s : String)
      → build_dedup_key rt payload body t s
        ≡ codeup_key t payload.project_id s (codeup_change rt payload body "pull_request")
  unfolding build_dedup_key
  merge_request_key t s = elim (Bool-cases (is_empty payload.object_attributes.updated_at)) [
    | inl e ↦ rw e refl
    | inr e ↦ rw e refl
  ]

  push_key :
      (t s kind : String)
      → (kind == "branch" || kind == "tag") ≡ true
      → build_push_dedup_key rt payload body t s
        ≡ codeup_key t payload.project_id s (codeup_change rt payload body kind)
  unfolding build_push_dedup_key
  push_key t s kind pushed =
      elim (Bool-cases (is_empty (first_non_empty (payload.checkout_sha ∷ payload.after ∷ [])))) [
        | inl e ↦ rw (pushed, e) refl
        | inr e ↦ rw (pushed, e) refl
      ]

  note_key :
      (s : String)
      → build_note_dedup_key rt payload body s
        ≡ codeup_key "repo.note_created" payload.project_id s (codeup_change rt payload body "note")
  unfolding build_note_dedup_key
  note_key s = elim (Bool-cases (is_empty payload.object_attributes.updated_at)) [
    | inl e ↦ rw e refl
    | inr e ↦ rw e refl
  ]

  -- The key of an event, and a type without a colon.
  abbrev IsKeyed : Result NormalizedEvent → Type 0
  IsKeyed (ok e) =
      (e.dedup_key
        ≡ codeup_key e.event_type payload.project_id e.subject.id
            (codeup_change rt payload body e.subject.kind))
      × (has_colon e.event_type ≡ false)
  IsKeyed (err e) = Unit

  Fits-IsKeyed :
      (raw : String) (kind : String) (e : NormalizedEvent)
      → Fits rt payload raw body kind e
      → IsKeyed (ok e)
  Fits-IsKeyed raw kind e (inl (_, (k, _, t, same))) =
      (same ∙ rw k (merge_request_key e.event_type e.subject.id), listed_no_colon e.event_type t)
  Fits-IsKeyed raw kind e (inr (inl (_, (k, _, t, same)))) =
      (same ∙ rw k (push_key e.event_type e.subject.id "branch" refl), rw t refl)
  Fits-IsKeyed raw kind e (inr (inr (inl (_, (k, _, t, same))))) =
      (same ∙ rw k (push_key e.event_type e.subject.id "tag" refl), rw t refl)
  Fits-IsKeyed raw kind e (inr (inr (inr (_, (k, _, t, same))))) =
      (same ∙ rw (k, t) (note_key e.subject.id), rw t refl)

  outcome-IsKeyed :
      (raw kind : String) (r : Result NormalizedEvent)
      → Outcome rt payload raw body kind r
      → IsKeyed r
  outcome-IsKeyed raw kind (ok e) (_, fits, _, _, _) = Fits-IsKeyed raw kind e fits
  outcome-IsKeyed raw kind (err e) h = tt

  normalize-IsKeyed :
      (raw trace : String) (env : Environment) (w : World)
      → IsKeyed (run (normalize rt payload raw body trace) env w).0
  normalize-IsKeyed raw trace env w =
      Always-run IsKeyed (normalize rt payload raw body trace) env w (
        Always-weaken _ IsKeyed (normalize rt payload raw body trace)
          (outcome-IsKeyed raw (kind_of_payload rt payload))
          (codeup_normalize-Outcome rt payload raw body trace))

-- Two events that Normalize of codeup returns, whatever UUIDs are drawn, with subject ids that have no
-- colon: if their dedup keys are equal then they have the same type and subject id, and come from
-- payloads of the same project and with the same change: the commit of a push, the time of the last
-- change of the rest, or else the hash of the body.
pub codeup_key_inj :
    (rt : Runtime) (p p' : WebhookPayload) (body body' : Bytes) (raw raw' trace trace' : String)
    (env env' : Environment) (w w' : World) (e e' : NormalizedEvent)
    → (run (normalize rt p raw body trace) env w).0 ≡ ok e
    → (run (normalize rt p' raw' body' trace') env' w').0 ≡ ok e'
    → has_colon e.subject.id ≡ false
    → has_colon e'.subject.id ≡ false
    → e.dedup_key ≡ e'.dedup_key
    → (e.event_type ≡ e'.event_type)
      × (p.project_id ≡ p'.project_id)
      × (e.subject.id ≡ e'.subject.id)
      × (codeup_change rt p body e.subject.kind ≡ codeup_change rt p' body' e'.subject.kind)
codeup_key_inj rt p p' body body' raw raw' trace trace' env env' w w' e e' is is' hs hs' same =
    let (key, ht) = rw is at (normalize-IsKeyed rt p body raw trace env w) in
    let (key', ht') = rw is' at (normalize-IsKeyed rt p' body' raw' trace' env' w') in
    keys_split e.event_type e'.event_type p.project_id p'.project_id e.subject.id e'.subject.id _ _
      ht ht' hs hs' (sym key ∙ same ∙ key')
