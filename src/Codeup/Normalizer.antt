-- ===== src/Codeup/Normalizer.antt =====
-- ingress-service/internal/yunxiao/codeup/normalizer.go: `Normalize`.
use yunxiao_workflow_agent.Base.{String, ◌++◌, true, false, ◌==◌, if◌then◌else◌}
use yunxiao_workflow_agent.Base.Text.{to_lower}
use yunxiao_workflow_agent.Base.Result.{Result, err}
use yunxiao_workflow_agent.Runtime.{Runtime, Bytes}
use yunxiao_workflow_agent.Model.{NormalizedEvent}
use yunxiao_workflow_agent.Effects.{Prog, ret, ◌>>=◌}
use yunxiao_workflow_agent.Ids.{trace_or_new}
use yunxiao_workflow_agent.Codeup.Payload.{WebhookPayload}
use yunxiao_workflow_agent.Codeup.Fields.{ignored_event}
use yunxiao_workflow_agent.Codeup.MergeRequest.{normalize_merge_request}
use yunxiao_workflow_agent.Codeup.Push.{normalize_push}
use yunxiao_workflow_agent.Codeup.Note.{normalize_note}

module _ (rt : Runtime) where
  -- Each of the four kinds is what it is in lower case, so the `switch` changes nothing.
  abbrev kind_of : String → String
  kind_of lower =
      if lower == "merge_request"
      then "merge_request"
      else if lower == "push"
      then "push"
      else if lower == "tag_push"
      then "tag_push"
      else if lower == "note"
      then "note"
      else lower

  unfoldable pub normalize_object_kind : String → String
  normalize_object_kind object_kind = kind_of (to_lower rt.lower_rune object_kind)

  -- The `switch` of `Normalize`.
  unfoldable pub dispatch :
      String → WebhookPayload → String → Bytes → String → Prog (Result NormalizedEvent)
  dispatch kind payload raw_payload_id raw_body trace_id =
      if kind == "merge_request"
      then normalize_merge_request rt payload raw_payload_id raw_body trace_id
      else if kind == "push"
      then normalize_push rt payload raw_payload_id raw_body trace_id false
      else if kind == "tag_push"
      then normalize_push rt payload raw_payload_id raw_body trace_id true
      else if kind == "note"
      then normalize_note rt payload raw_payload_id raw_body trace_id
      else ret (err (ignored_event (": unsupported object_kind " ++ rt.quote payload.object_kind)))

  unfoldable pub normalize :
      WebhookPayload → String → Bytes → String → Prog (Result NormalizedEvent)
  normalize payload raw_payload_id raw_body trace_id = do
    trace ← trace_or_new trace_id
    dispatch (normalize_object_kind payload.object_kind) payload raw_payload_id raw_body trace
