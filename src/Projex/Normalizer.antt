-- ===== src/Projex/Normalizer.antt =====
-- ingress-service/internal/yunxiao/projex/normalizer.go
use yunxiao_workflow_agent.Base.{
  String, ◌++◌, ◌||◌, Option, none, List, [], ◌∷◌, ◌==◌, if◌then◌else◌,
}
use yunxiao_workflow_agent.Base.Dict.{Dict, insert}
use yunxiao_workflow_agent.Base.Text.{is_empty, first_non_empty, trim_space}
use yunxiao_workflow_agent.Base.Result.{Sentinel, Error, plain, wrapped, Result, ok, err}
use yunxiao_workflow_agent.Json.{is_null}
use yunxiao_workflow_agent.Runtime.{Runtime, Bytes, Time}
use yunxiao_workflow_agent.Model.{NormalizedEvent, Ref, FieldValue, map_list}
use yunxiao_workflow_agent.Effects.{Call, Prog, ret, ◌>>=◌, ask}
use yunxiao_workflow_agent.Ids.{trace_or_new, payload_hash, parse_layouts, rfc3339}
use yunxiao_workflow_agent.Projex.Payload.{
  WebhookPayload, NamedValue, CustomFieldValue, CustomFieldEntry,
}

unfoldable pub named_value : NamedValue → Dict String
named_value value =
    ("id", value.id)
    ∷ ("identifier", value.identifier)
    ∷ ("name", value.name)
    ∷ ("name_en", value.name_en)
    ∷ ("display_name", value.display_name)
    ∷ ("color", value.color)
    ∷ ("status_stage_id", value.status_stage_id)
    ∷ []

unfoldable pub named_values : List NamedValue → List (Dict String)
named_values values = map_list named_value values

abbrev pub entry_value : CustomFieldEntry → Dict String
entry_value item = ("display_value", item.display_value) ∷ ("identifier", item.identifier) ∷ []

unfoldable pub custom_field_value : CustomFieldValue → FieldValue
custom_field_value value =
    if is_null value.value
    then FieldValue.entries (map_list entry_value value.values)
    else FieldValue.raw value.value

unfoldable pub field_key : CustomFieldValue → String
field_key value = first_non_empty (value.field_identifier ∷ value.field_id ∷ value.field_name ∷ [])

-- The loop of `customFields`: a field with no key is skipped, a later one wins.
unfoldable pub add_fields : Dict FieldValue → List CustomFieldValue → Dict FieldValue
add_fields result [] = result
add_fields result (value ∷ values) =
    let key = field_key value in
    add_fields (if is_empty key then result else insert key (custom_field_value value) result)
      values

unfoldable pub custom_fields : List CustomFieldValue → Dict FieldValue
custom_fields values = add_fields [] values

abbrev pub ignored_event : String → Error
ignored_event detail = wrapped Sentinel.projex_ignored ("ignored projex event" ++ detail)

-- `firstNonEmpty(v.DisplayName, v.Name)`
abbrev pub shown_name : NamedValue → Ref
shown_name v = Ref.text (first_non_empty (v.display_name ∷ v.name ∷ []))

unfoldable pub external_refs : WebhookPayload → Dict Ref
external_refs payload =
    ("category_id", Ref.text payload.category_id)
    ∷ ("id_path", Ref.text payload.id_path)
    ∷ ("serial_number", Ref.text payload.serial_number)
    ∷ ("logical_status", Ref.text payload.logical_status)
    ∷ ("projex_space_id", Ref.text payload.space.id)
    ∷ ("projex_space_name", shown_name payload.space)
    ∷ ("work_item_title", Ref.text payload.subject)
    ∷ ("work_item_status", shown_name payload.status)
    ∷ ("status_stage_id", Ref.text payload.status.status_stage_id)
    ∷ ("work_item_type", shown_name payload.workitem_type)
    ∷ ("work_item_type_id", Ref.text payload.workitem_type.id)
    ∷ ("assignee", shown_name payload.assigned_to)
    ∷ ("assignee_id", Ref.text payload.assigned_to.id)
    ∷ ("creator", shown_name payload.creator)
    ∷ ("creator_id", Ref.text payload.creator.id)
    ∷ ("modifier", shown_name payload.modifier)
    ∷ ("modifier_id", Ref.text payload.modifier.id)
    ∷ ("verifier", shown_name payload.verifier)
    ∷ ("verifier_id", Ref.text payload.verifier.id)
    ∷ ("sprint", shown_name payload.sprint)
    ∷ ("sprint_id", Ref.text payload.sprint.id)
    ∷ (
      "parent_id",
      Ref.text (
          first_non_empty (payload.parent.identifier ∷ payload.parent.id ∷ payload.parent_id ∷ [])),
    )
    ∷ ("participants", Ref.named (named_values payload.participants))
    ∷ ("trackers", Ref.named (named_values payload.trackers))
    ∷ ("versions", Ref.named (named_values payload.versions))
    ∷ ("labels", Ref.named (named_values payload.labels))
    ∷ ("custom_fields", Ref.custom (custom_fields payload.custom_field_values))
    ∷ []

unfoldable pub work_item_id_of : WebhookPayload → String
work_item_id_of payload = first_non_empty (payload.identifier ∷ payload.id ∷ [])

module _ (rt : Runtime) where
  -- The `switch` on the event type without its surrounding space.
  unfoldable pub known_event_type : String → String → Result String
  known_event_type event_type trimmed =
      if is_empty trimmed
      then ok "work_item.updated"
      else if trimmed == "work_item.created"
          || trimmed == "work_item.updated"
          || trimmed == "work_item.status_changed"
          || trimmed == "work_item.assignee_changed"
          || trimmed == "work_item.deleted"
      then ok event_type
      else err (ignored_event (": unsupported event_type " ++ rt.quote event_type))

  unfoldable pub normalize_event_type : String → Result String
  normalize_event_type event_type = known_event_type event_type (trim_space event_type)

  unfoldable pub build_dedup_key : String → String → WebhookPayload → Bytes → String
  build_dedup_key event_type work_item_id payload raw_body =
      "yunxiao.projex:"
      ++ event_type
      ++ ":"
      ++ work_item_id
      ++ ":"
      ++ (if is_empty payload.gmt_modified then payload_hash rt raw_body else payload.gmt_modified)

  unfoldable pub parse_optional_time : String → Option Time
  parse_optional_time value =
      if is_empty value
      then none
      else parse_layouts rt (rfc3339 ∷ "2006-01-02 15:04:05" ∷ "2006-01-02T15:04:05.000Z" ∷ [])
          value

  -- The event, once its type, its work item and its UUID are known.
  unfoldable pub event_of :
      WebhookPayload → String → Bytes → String → String → String → String → NormalizedEvent
  event_of payload raw_payload_id raw_body trace_id event_type work_item_id uuid = record {
    event_id = "evt_" ++ uuid;
    source = "yunxiao.projex";
    event_type = event_type;
    occurred_at =
        parse_optional_time (first_non_empty (payload.gmt_modified ∷ payload.gmt_create ∷ []));
    trace_id = trace_id;
    dedup_key = build_dedup_key event_type work_item_id payload raw_body;
    project_id = first_non_empty (payload.space.identifier ∷ payload.space.id ∷ []);
    work_item_id = work_item_id;
    subject = record { kind = "work_item"; id = work_item_id };
    external_refs = external_refs payload;
    raw_payload_id = raw_payload_id;
  }

  -- `Normalize`, once the trace id and the event type are known.
  unfoldable pub normalize_typed :
      WebhookPayload → String → Bytes → String → Result String → Prog (Result NormalizedEvent)
  normalize_typed payload raw_payload_id raw_body trace (err e) = ret (err e)
  normalize_typed payload raw_payload_id raw_body trace (ok event_type) =
      let work_item_id = work_item_id_of payload in
      if is_empty work_item_id then ret (err (plain "projex work item id is required")) else do
        uuid ← ask Call.new_uuid
        ret (ok (event_of payload raw_payload_id raw_body trace event_type work_item_id uuid))

  unfoldable pub normalize :
      WebhookPayload → String → String → Bytes → String → Prog (Result NormalizedEvent)
  normalize payload event_type raw_payload_id raw_body trace_id = do
    trace ← trace_or_new trace_id
    normalize_typed payload raw_payload_id raw_body trace (normalize_event_type event_type)
