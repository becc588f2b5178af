-- ===== src/Codeup/MergeRequest.antt =====
-- ingress-service/internal/yunxiao/codeup/normalizer.go: merge request events.
use yunxiao_workflow_agent.Base.{String, ◌++◌, ◌||◌, ◌==◌, [], ◌∷◌, if◌then◌else◌}
use yunxiao_workflow_agent.Base.Dict.{Dict}
use yunxiao_workflow_agent.Base.Text.{is_empty, first_non_empty, to_lower, format_int}
use yunxiao_workflow_agent.Base.Result.{plain, Result, ok, err}
use yunxiao_workflow_agent.Runtime.{Runtime, Bytes}
use yunxiao_workflow_agent.Model.{NormalizedEvent, Ref}
use yunxiao_workflow_agent.Effects.{Call, Prog, ret, ◌>>=◌, ask}
use yunxiao_workflow_agent.Ids.{payload_hash}
use yunxiao_workflow_agent.Codeup.Payload.{WebhookPayload}
use yunxiao_workflow_agent.Codeup.Fields.{
  id_string, merge_request_id, payload_user_name, repository_url, codeup_key, add_commit,
  parse_optional_time,
}

module _ (rt : Runtime) where
  abbrev pub merge_request_type_of : String → String
  merge_request_type_of action =
      if action == "open" || action == "create" || action == "reopen"
      then "pr.created"
      else if action == "merge" || action == "merged"
      then "pr.merged"
      else if action == "close" || action == "closed"
      then "pr.closed"
      else "pr.updated"

  unfoldable pub map_merge_request_event_type : WebhookPayload → String
  map_merge_request_event_type payload =
      merge_request_type_of (to_lower rt.lower_rune payload.object_attributes.action)

  unfoldable pub build_dedup_key : WebhookPayload → Bytes → String → String → String
  build_dedup_key payload raw_body event_type subject_id =
      if is_empty payload.object_attributes.updated_at
      then codeup_key event_type payload.project_id subject_id (payload_hash rt raw_body)
      else codeup_key event_type payload.project_id subject_id payload.object_attributes.updated_at

  unfoldable pub merge_request_refs : WebhookPayload → Dict Ref
  merge_request_refs payload =
      let mr = payload.object_attributes in
      add_commit mr.last_commit (
        ("codeup_project_id", Ref.text (format_int payload.project_id))
        ∷ ("source_project_id", Ref.text (id_string mr.source_project_id))
        ∷ ("target_project_id", Ref.text (id_string mr.target_project_id))
        ∷ ("repo_name", Ref.text payload.repository.name)
        ∷ ("repository_url", Ref.text (repository_url payload.repository))
        ∷ ("source_branch", Ref.text mr.source_branch)
        ∷ ("target_branch", Ref.text mr.target_branch)
        ∷ ("merge_request_title", Ref.text mr.title)
        ∷ ("merge_request_state", Ref.text mr.state)
        ∷ ("merge_request_action", Ref.text mr.action)
        ∷ ("user_name", Ref.text (payload_user_name payload))
        ∷ [])

  unfoldable pub merge_request_event :
      WebhookPayload → String → Bytes → String → String → String → NormalizedEvent
  merge_request_event payload raw_payload_id raw_body trace_id subject_id uuid =
      let event_type = map_merge_request_event_type payload in
      let mr = payload.object_attributes in
      record {
        event_id = "evt_" ++ uuid;
        source = "yunxiao.codeup";
        event_type = event_type;
        occurred_at = parse_optional_time rt (first_non_empty (mr.updated_at ∷ mr.created_at ∷ []));
        trace_id = trace_id;
        dedup_key = build_dedup_key payload raw_body event_type subject_id;
        project_id = "";
        work_item_id = "";
        subject = record { kind = "pull_request"; id = subject_id };
        external_refs = merge_request_refs payload;
        raw_payload_id = raw_payload_id;
      }

  unfoldable pub normalize_merge_request :
      WebhookPayload → String → Bytes → String → Prog (Result NormalizedEvent)
  normalize_merge_request payload raw_payload_id raw_body trace_id =
      let subject_id = merge_request_id payload.object_attributes in
      if is_empty subject_id then ret (err (plain "codeup merge request id is required")) else do
        uuid ← ask Call.new_uuid
        ret (ok (merge_request_event payload raw_payload_id raw_body trace_id subject_id uuid))
