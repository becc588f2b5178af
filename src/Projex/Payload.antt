-- ===== src/Projex/Payload.antt =====
-- ingress-service/internal/yunxiao/projex/payload.go, and PayloadFromJSON of normalizer.go.
use yunxiao_workflow_agent.Base.{String, List, [], ◌∷◌}
use yunxiao_workflow_agent.Base.Result.{Result, ◌>>=◌}
use yunxiao_workflow_agent.Json.{
  Json, Decoding, Fields, field, into_string, into_any, into_struct, into_slice,
}
use yunxiao_workflow_agent.Runtime.{Runtime, Bytes}

-- `NamedValue`
pub record NamedValue : Type 0 where
  pub id : String
  pub identifier : String
  pub name : String
  pub name_en : String
  pub display_name : String
  pub color : String
  pub status_stage_id : String

-- The zero value of `NamedValue`.
abbrev pub no_named_value : NamedValue
no_named_value = record {
  id = "";
  identifier = "";
  name = "";
  name_en = "";
  display_name = "";
  color = "";
  status_stage_id = "";
}

-- `CustomFieldEntry`
pub record CustomFieldEntry : Type 0 where
  pub display_value : String
  pub identifier : String

-- The zero value of `CustomFieldEntry`.
abbrev pub no_custom_field_entry : CustomFieldEntry
no_custom_field_entry = record { display_value = ""; identifier = "" }

-- `CustomFieldValue`
pub record CustomFieldValue : Type 0 where
  pub field_id : String
  pub field_identifier : String
  pub field_name : String
  pub field_format : String
  pub value : Json
  pub values : List CustomFieldEntry

-- The zero value of `CustomFieldValue`.
abbrev pub no_custom_field_value : CustomFieldValue
no_custom_field_value = record {
  field_id = "";
  field_identifier = "";
  field_name = "";
  field_format = "";
  value = Json.null;
  values = [];
}

-- `WebhookPayload`
pub record WebhookPayload : Type 0 where
  pub category_id : String
  pub id : String
  pub id_path : String
  pub identifier : String
  pub serial_number : String
  pub subject : String
  pub description : String
  pub format_type : String
  pub logical_status : String
  pub status : NamedValue
  pub assigned_to : NamedValue
  pub creator : NamedValue
  pub modifier : NamedValue
  pub verifier : NamedValue
  pub space : NamedValue
  pub sprint : NamedValue
  pub workitem_type : NamedValue
  pub parent_id : String
  pub parent : NamedValue
  pub participants : List NamedValue
  pub trackers : List NamedValue
  pub versions : List NamedValue
  pub labels : List NamedValue
  pub custom_field_values : List CustomFieldValue
  pub gmt_create : String
  pub gmt_modified : String
  pub update_status_at : String

-- The zero value of `WebhookPayload`.
abbrev pub no_webhook_payload : WebhookPayload
no_webhook_payload = record {
  category_id = "";
  id = "";
  id_path = "";
  identifier = "";
  serial_number = "";
  subject = "";
  description = "";
  format_type = "";
  logical_status = "";
  status = no_named_value;
  assigned_to = no_named_value;
  creator = no_named_value;
  modifier = no_named_value;
  verifier = no_named_value;
  space = no_named_value;
  sprint = no_named_value;
  workitem_type = no_named_value;
  parent_id = "";
  parent = no_named_value;
  participants = [];
  trackers = [];
  versions = [];
  labels = [];
  custom_field_values = [];
  gmt_create = "";
  gmt_modified = "";
  update_status_at = "";
}

-- Decoding by the tags of the structs.
module _ (d : Decoding) where
  abbrev named_value_fields : Fields NamedValue
  named_value_fields =
      field "id" (λ r. r.id) (λ x r. record r { id = x }) (into_string d)
      ∷ field "identifier" (λ r. r.identifier) (λ x r. record r { identifier = x }) (into_string d)
      ∷ field "name" (λ r. r.name) (λ x r. record r { name = x }) (into_string d)
      ∷ field "nameEn" (λ r. r.name_en) (λ x r. record r { name_en = x }) (into_string d)
      ∷ field "displayName" (λ r. r.display_name) (λ x r. record r { display_name = x })
          (into_string d)
      ∷ field "color" (λ r. r.color) (λ x r. record r { color = x }) (into_string d)
      ∷ field "statusStageId" (λ r. r.status_stage_id) (λ x r. record r { status_stage_id = x })
          (into_string d)
      ∷ []

  abbrev custom_field_entry_fields : Fields CustomFieldEntry
  custom_field_entry_fields =
      field "displayValue" (λ r. r.display_value) (λ x r. record r { display_value = x })
        (into_string d)
      ∷ field "identifier" (λ r. r.identifier) (λ x r. record r { identifier = x }) (into_string d)
      ∷ []

  abbrev custom_field_value_fields : Fields CustomFieldValue
  custom_field_value_fields =
      field "fieldId" (λ r. r.field_id) (λ x r. record r { field_id = x }) (into_string d)
      ∷ field "fieldIdentifier" (λ r. r.field_identifier) (λ x r. record r { field_identifier = x })
          (into_string d)
      ∷ field "fieldName" (λ r. r.field_name) (λ x r. record r { field_name = x }) (into_string d)
      ∷ field "fieldFormat" (λ r. r.field_format) (λ x r. record r { field_format = x })
          (into_string d)
      ∷ field "value" (λ r. r.value) (λ x r. record r { value = x }) (into_any d)
      ∷ field "values" (λ r. r.values) (λ x r. record r { values = x })
          (into_slice d (into_struct d custom_field_entry_fields) no_custom_field_entry)
      ∷ []

  abbrev webhook_payload_fields : Fields WebhookPayload
  webhook_payload_fields =
      field "categoryId" (λ r. r.category_id) (λ x r. record r { category_id = x }) (into_string d)
      ∷ field "id" (λ r. r.id) (λ x r. record r { id = x }) (into_string d)
      ∷ field "idPath" (λ r. r.id_path) (λ x r. record r { id_path = x }) (into_string d)
      ∷ field "identifier" (λ r. r.identifier) (λ x r. record r { identifier = x }) (into_string d)
      ∷ field "serialNumber" (λ r. r.serial_number) (λ x r. record r { serial_number = x })
          (into_string d)
      ∷ field "subject" (λ r. r.subject) (λ x r. record r { subject = x }) (into_string d)
      ∷ field "description" (λ r. r.description) (λ x r. record r { description = x })
          (into_string d)
      ∷ field "formatType" (λ r. r.format_type) (λ x r. record r { format_type = x })
          (into_string d)
      ∷ field "logicalStatus" (λ r. r.logical_status) (λ x r. record r { logical_status = x })
          (into_string d)
      ∷ field "status" (λ r. r.status) (λ x r. record r { status = x })
          (into_struct d named_value_fields)
      ∷ field "assignedTo" (λ r. r.assigned_to) (λ x r. record r { assigned_to = x })
          (into_struct d named_value_fields)
      ∷ field "creator" (λ r. r.creator) (λ x r. record r { creator = x })
          (into_struct d named_value_fields)
      ∷ field "modifier" (λ r. r.modifier) (λ x r. record r { modifier = x })
          (into_struct d named_value_fields)
      ∷ field "verifier" (λ r. r.verifier) (λ x r. record r { verifier = x })
          (into_struct d named_value_fields)
      ∷ field "space" (λ r. r.space) (λ x r. record r { space = x })
          (into_struct d named_value_fields)
      ∷ field "sprint" (λ r. r.sprint) (λ x r. record r { sprint = x })
          (into_struct d named_value_fields)
      ∷ field "workitemType" (λ r. r.workitem_type) (λ x r. record r { workitem_type = x })
          (into_struct d named_value_fields)
      ∷ field "parentId" (λ r. r.parent_id) (λ x r. record r { parent_id = x }) (into_string d)
      ∷ field "parent" (λ r. r.parent) (λ x r. record r { parent = x })
          (into_struct d named_value_fields)
      ∷ field "participants" (λ r. r.participants) (λ x r. record r { participants = x })
          (into_slice d (into_struct d named_value_fields) no_named_value)
      ∷ field "trackers" (λ r. r.trackers) (λ x r. record r { trackers = x })
          (into_slice d (into_struct d named_value_fields) no_named_value)
      ∷ field "versions" (λ r. r.versions) (λ x r. record r { versions = x })
          (into_slice d (into_struct d named_value_fields) no_named_value)
      ∷ field "labels" (λ r. r.labels) (λ x r. record r { labels = x })
          (into_slice d (into_struct d named_value_fields) no_named_value)
      ∷ field "customFieldValues" (λ r. r.custom_field_values)
          (λ x r. record r { custom_field_values = x })
          (into_slice d (into_struct d custom_field_value_fields) no_custom_field_value)
      ∷ field "gmtCreate" (λ r. r.gmt_create) (λ x r. record r { gmt_create = x }) (into_string d)
      ∷ field "gmtModified" (λ r. r.gmt_modified) (λ x r. record r { gmt_modified = x })
          (into_string d)
      ∷ field "updateStatusAt" (λ r. r.update_status_at) (λ x r. record r { update_status_at = x })
          (into_string d)
      ∷ []

-- `PayloadFromJSON`
unfoldable pub payload_from_json : Runtime → Bytes → Result WebhookPayload
unfolding into_string into_any into_struct into_slice
payload_from_json rt body = rt.parse_json body >>= λ v.
    into_struct rt.decoding (webhook_payload_fields rt.decoding) v no_webhook_payload
