-- ===== src/Flow/Normalizer.antt =====
-- ingress-service/internal/yunxiao/flow/normalizer.go
use yunxiao_workflow_agent.Base.{
  String, ◌++◌, ◌&&◌, ◌||◌, not, none, List, [], ◌∷◌, ◌==◌, if◌then◌else◌,
}
use yunxiao_workflow_agent.Base.Dict.{Dict, insert}
use yunxiao_workflow_agent.Base.Text.{is_empty, first_non_empty, to_upper}
use yunxiao_workflow_agent.Base.Result.{Sentinel, Error, plain, wrapped, Result, ok, err}
use yunxiao_workflow_agent.Runtime.{Runtime, Bytes}
use yunxiao_workflow_agent.Model.{NormalizedEvent, Ref}
use yunxiao_workflow_agent.Effects.{Call, Prog, ret, ◌>>=◌, ask}
use yunxiao_workflow_agent.Ids.{trace_or_new, payload_hash}
use yunxiao_workflow_agent.Flow.Payload.{WebhookPayload, Source, no_source, GlobalParam}

unfoldable pub first_source : List Source → Source
first_source [] = no_source
first_source (s ∷ _) = s

-- The loop of `globalParamsMap`: an entry with an empty key is skipped, a later one wins.
unfoldable pub add_params : Dict String → List GlobalParam → Dict String
add_params values [] = values
add_params values (param ∷ params) =
    add_params (if is_empty param.key then values else insert param.key param.value values) params

unfoldable pub global_params_map : List GlobalParam → Dict String
global_params_map params = add_params [] params

abbrev pub ignored_event : String → Error
ignored_event detail = wrapped Sentinel.flow_ignored ("ignored flow event" ++ detail)

module _ (rt : Runtime) where
  -- The `switch` on the status code in capitals.
  unfoldable pub event_type_of : String → String → Result String
  event_type_of status_code code =
      if code == "FAIL"
      then ok "pipeline.failed"
      else if code == "SUCCESS"
      then ok "pipeline.succeeded"
      else if code == "FINISH"
      then ok "pipeline.finished"
      else if code == "CANCELED" || code == "CANCELLING"
      then ok "pipeline.canceled"
      else if code == "RUNNING" || code == "WAITING"
      then ok "pipeline.started"
      else if code == "SKIP"
      then ok "pipeline.skipped"
      else if code == "UNKOWN" || code == "UNKNOWN"
      then err (ignored_event (": statusCode " ++ rt.quote status_code))
      else err (ignored_event (": unsupported statusCode " ++ rt.quote status_code))

  unfoldable pub map_event_type : String → Result String
  map_event_type status_code = event_type_of status_code (to_upper rt.upper_rune status_code)

  unfoldable pub build_dedup_key : String → WebhookPayload → Bytes → String → String
  build_dedup_key event_type payload raw_body run_id =
      if not (is_empty payload.task.pipeline_id)
        && not (is_empty run_id)
        && not (is_empty payload.task.status_code)
      then "yunxiao.flow:" ++ event_type ++ ":" ++ payload.task.pipeline_id ++ ":" ++ run_id ++ ":"
        ++ payload.task.status_code
      else "yunxiao.flow:" ++ event_type ++ ":" ++ payload_hash rt raw_body

  unfoldable pub external_refs : WebhookPayload → Dict Ref
  external_refs payload =
      let source = first_source payload.sources in
      ("pipeline_id", Ref.text payload.task.pipeline_id)
      ∷ ("pipeline_name", Ref.text payload.task.pipeline_name)
      ∷ ("stage_name", Ref.text payload.task.stage_name)
      ∷ ("task_name", Ref.text payload.task.task_name)
      ∷ ("status_code", Ref.text payload.task.status_code)
      ∷ ("status_name", Ref.text payload.task.status_name)
      ∷ ("pipeline_url", Ref.text payload.task.pipeline_url)
      ∷ ("message", Ref.text payload.task.message)
      ∷ ("repo", Ref.text source.repo)
      ∷ ("branch", Ref.text source.branch)
      ∷ ("commit_sha", Ref.text source.commit_id)
      ∷ ("previous_commit", Ref.text source.previous_commit_id)
      ∷ ("global_params", Ref.params (global_params_map payload.global_params))
      ∷ []

  -- The event, once its type, its run and its UUID are known.
  unfoldable pub event_of :
      WebhookPayload → String → Bytes → String → String → String → String → NormalizedEvent
  event_of payload raw_payload_id raw_body trace_id event_type run_id uuid = record {
    event_id = "evt_" ++ uuid;
    source = "yunxiao.flow";
    event_type = event_type;
    occurred_at = none;
    trace_id = trace_id;
    dedup_key = build_dedup_key event_type payload raw_body run_id;
    project_id = "";
    work_item_id = "";
    subject = record { kind = "pipeline_run"; id = run_id };
    external_refs = external_refs payload;
    raw_payload_id = raw_payload_id;
  }

  unfoldable pub run_id_of : WebhookPayload → String
  run_id_of payload = first_non_empty (payload.task.build_number ∷ payload.task.pipeline_url ∷ [])

  -- `Normalize`, once the trace id and the event type are known.
  unfoldable pub normalize_typed :
      WebhookPayload → String → Bytes → String → Result String → Prog (Result NormalizedEvent)
  normalize_typed payload raw_payload_id raw_body trace (err e) = ret (err e)
  normalize_typed payload raw_payload_id raw_body trace (ok event_type) =
      let run_id = run_id_of payload in
      if is_empty run_id then ret (err (plain "flow pipeline run id is required")) else do
        uuid ← ask Call.new_uuid
        ret (ok (event_of payload raw_payload_id raw_body trace event_type run_id uuid))

  unfoldable pub normalize :
      WebhookPayload → String → Bytes → String → Prog (Result NormalizedEvent)
  normalize payload raw_payload_id raw_body trace_id = do
    trace ← trace_or_new trace_id
    normalize_typed payload raw_payload_id raw_body trace (map_event_type payload.task.status_code)
