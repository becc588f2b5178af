-- ===== src/Codeup/Push.antt =====
-- ingress-service/internal/yunxiao/codeup/normalizer.go: pushes of branches and tags.
use yunxiao_workflow_agent.Base.{String, ◌++◌, Bool, [], ◌∷◌, if◌then◌else◌}
use yunxiao_workflow_agent.Base.Dict.{Dict}
use yunxiao_workflow_agent.Base.Text.{is_empty, first_non_empty, format_int}
use yunxiao_workflow_agent.Base.Result.{plain, Result, ok, err}
use yunxiao_workflow_agent.Runtime.{Runtime, Bytes}
use yunxiao_workflow_agent.Model.{NormalizedEvent, Ref}
use yunxiao_workflow_agent.Effects.{Call, Prog, ret, ◌>>=◌, ask}
use yunxiao_workflow_agent.Ids.{payload_hash}
use yunxiao_workflow_agent.Codeup.Payload.{WebhookPayload}
use yunxiao_workflow_agent.Codeup.Fields.{
  ref_name, last_commit, payload_user_name, repository_url, codeup_key, parse_optional_time,
}

module _ (rt : Runtime) where
  unfoldable pub build_push_dedup_key : WebhookPayload → Bytes → String → String → String
  build_push_dedup_key payload raw_body event_type ref =
      let sha = first_non_empty (payload.checkout_sha ∷ payload.after ∷ []) in
      if is_empty sha
      then codeup_key event_type payload.project_id ref (payload_hash rt raw_body)
      else codeup_key event_type payload.project_id ref sha

  unfoldable pub push_refs : WebhookPayload → String → Dict Ref
  push_refs payload name =
      let commit = last_commit payload in
      ("codeup_project_id", Ref.text (format_int payload.project_id))
      ∷ ("repo_name", Ref.text payload.repository.name)
      ∷ ("repository_url", Ref.text (repository_url payload.repository))
      ∷ ("ref", Ref.text payload.ref)
      ∷ ("ref_name", Ref.text name)
      ∷ ("before", Ref.text payload.before)
      ∷ ("after", Ref.text payload.after)
      ∷ ("checkout_sha", Ref.text payload.checkout_sha)
      ∷ (
        "commit_sha",
        Ref.text (first_non_empty (commit.id ∷ payload.checkout_sha ∷ payload.after ∷ [])),
      )
      ∷ ("commit_message", Ref.text commit.message)
      ∷ ("commit_url", Ref.text commit.url)
      ∷ ("total_commits", Ref.number payload.total_commits)
      ∷ ("user_name", Ref.text (payload_user_name payload))
      ∷ []

  unfoldable pub push_event :
      WebhookPayload → String → Bytes → String → Bool → String → String → NormalizedEvent
  push_event payload raw_payload_id raw_body trace_id tag_push name uuid =
      let event_type = if tag_push then "repo.tag_pushed" else "repo.pushed" in
      record {
        event_id = "evt_" ++ uuid;
        source = "yunxiao.codeup";
        event_type = event_type;
        occurred_at = parse_optional_time rt (last_commit payload).timestamp;
        trace_id = trace_id;
        dedup_key = build_push_dedup_key payload raw_body event_type name;
        project_id = "";
        work_item_id = "";
        subject = record { kind = if tag_push then "tag" else "branch"; id = name };
        external_refs = push_refs payload name;
        raw_payload_id = raw_payload_id;
      }

  unfoldable pub normalize_push :
      WebhookPayload → String → Bytes → String → Bool → Prog (Result NormalizedEvent)
  normalize_push payload raw_payload_id raw_body trace_id tag_push =
      let name = ref_name payload.ref in
      if is_empty name then ret (err (plain "codeup ref is required")) else do
        uuid ← ask Call.new_uuid
        ret (ok (push_event payload raw_payload_id raw_body trace_id tag_push name uuid))
