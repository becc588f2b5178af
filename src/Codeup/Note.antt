-- ===== src/Codeup/Note.antt =====
-- ingress-service/internal/yunxiao/codeup/normalizer.go: comments.
use yunxiao_workflow_agent.Base.{String, ◌++◌, [], ◌∷◌, if◌then◌else◌}
use yunxiao_workflow_agent.Base.Dict.{Dict}
use yunxiao_workflow_agent.Base.Text.{is_empty, first_non_empty, format_int}
use yunxiao_workflow_agent.Base.Result.{plain, Result, ok, err}
use yunxiao_workflow_agent.Runtime.{Runtime, Bytes}
use yunxiao_workflow_agent.Model.{NormalizedEvent, Ref}
use yunxiao_workflow_agent.Effects.{Call, Prog, ret, ◌>>=◌, ask}
use yunxiao_workflow_agent.Ids.{payload_hash}
use yunxiao_workflow_agent.Codeup.Payload.{WebhookPayload, MergeRequestAttributes}
use yunxiao_workflow_agent.Codeup.Fields.{
  id_string, payload_user_name, repository_url, codeup_key, add_commit, add_merge_request,
  parse_optional_time,
}

module _ (rt : Runtime) where
  unfoldable pub build_note_dedup_key : WebhookPayload → Bytes → String → String
  build_note_dedup_key payload raw_body note_id =
      if is_empty payload.object_attributes.updated_at
      then codeup_key "repo.note_created" payload.project_id note_id (payload_hash rt raw_body)
      else codeup_key "repo.note_created" payload.project_id note_id
          payload.object_attributes.updated_at

  unfoldable pub note_refs : WebhookPayload → Dict Ref
  note_refs payload =
      let note = payload.object_attributes in
      add_commit payload.commit (
        add_merge_request payload.merge_request (
          ("codeup_project_id", Ref.text (format_int payload.project_id))
          ∷ ("repo_name", Ref.text payload.repository.name)
          ∷ ("repository_url", Ref.text (repository_url payload.repository))
          ∷ ("note_title", Ref.text note.title)
          ∷ ("note_action", Ref.text note.action)
          ∷ ("user_name", Ref.text (payload_user_name payload))
          ∷ []))

  unfoldable pub note_event :
      WebhookPayload → String → Bytes → String → String → String → NormalizedEvent
  note_event payload raw_payload_id raw_body trace_id note_id uuid =
      let note = payload.object_attributes in
      record {
        event_id = "evt_" ++ uuid;
        source = "yunxiao.codeup";
        event_type = "repo.note_created";
        occurred_at =
            parse_optional_time rt (first_non_empty (note.updated_at ∷ note.created_at ∷ []));
        trace_id = trace_id;
        dedup_key = build_note_dedup_key payload raw_body note_id;
        project_id = "";
        work_item_id = "";
        subject = record { kind = "note"; id = note_id };
        external_refs = note_refs payload;
        raw_payload_id = raw_payload_id;
      }

  unfoldable pub note_id_of : MergeRequestAttributes → String
  note_id_of note = first_non_empty (note.biz_id ∷ id_string note.id ∷ [])

  unfoldable pub normalize_note :
      WebhookPayload → String → Bytes → String → Prog (Result NormalizedEvent)
  normalize_note payload raw_payload_id raw_body trace_id =
      let note_id = note_id_of payload.object_attributes in
      if is_empty note_id then ret (err (plain "codeup note id is required")) else do
        uuid ← ask Call.new_uuid
        ret (ok (note_event payload raw_payload_id raw_body trace_id note_id uuid))
