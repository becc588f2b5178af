-- ===== src/Model.antt =====
-- ingress-service/internal/model/event.go: the standard event that the ingress service produces.
use yunxiao_workflow_agent.Base.{
  String, Bool, true, false, Option, none, some, List, [], ◌∷◌, if◌then◌else◌,
}
use yunxiao_workflow_agent.Base.Int.{ℤ}
use yunxiao_workflow_agent.Base.Dict.{Dict}
use yunxiao_workflow_agent.Base.Text.{is_empty}
use yunxiao_workflow_agent.Json.{Json, members, items}
use yunxiao_workflow_agent.Runtime.{Time}

pub record Subject : Type 0 where
  pub kind : String
  pub id : String

-- The dynamic types that the adapters put into `map[string]any`.
pub data FieldValue : Type 0 where
  raw : Json → FieldValue
  entries : List (Dict String) → FieldValue

pub data Ref : Type 0 where
  text : String → Ref
  number : ℤ → Ref
  named : List (Dict String) → Ref
  params : Dict String → Ref
  custom : Dict FieldValue → Ref

pub record NormalizedEvent : Type 0 where
  pub event_id : String
  pub source : String
  pub event_type : String
  pub occurred_at : Option Time
  pub trace_id : String
  pub dedup_key : String
  pub project_id : String
  pub work_item_id : String
  pub subject : Subject
  pub external_refs : Dict Ref
  pub raw_payload_id : String

pub record RawEventMeta : Type 0 where
  pub source : String
  pub event_type : String
  pub external_event_id : String

-- Marshalling: each dynamic type to its JSON value.
unfoldable pub map_values {ℓ κ} : {A : Type ℓ} {B : Type κ} → (A → B) → Dict A → Dict B
map_values f [] = []
map_values f ((k, v) ∷ d) = (k, f v) ∷ map_values f d

unfoldable pub map_list {ℓ κ} : {A : Type ℓ} {B : Type κ} → (A → B) → List A → List B
map_list f [] = []
map_list f (x ∷ xs) = f x ∷ map_list f xs

abbrev pub strings_json : Dict String → Json
strings_json d = Json.object (members (map_values Json.text d))

abbrev pub field_value_json : FieldValue → Json
field_value_json (FieldValue.raw v) = v
field_value_json (FieldValue.entries es) = Json.array (items (map_list strings_json es))

abbrev pub ref_json : Ref → Json
ref_json (Ref.text s) = Json.text s
ref_json (Ref.number z) = Json.int z
ref_json (Ref.named vs) = Json.array (items (map_list strings_json vs))
ref_json (Ref.params d) = strings_json d
ref_json (Ref.custom d) = Json.object (members (map_values field_value_json d))

unfoldable pub external_refs_json : Dict Ref → Json
unfolding map_values map_list
external_refs_json d = Json.object (members (map_values ref_json d))

-- `omitempty`
abbrev pub omit_if : Bool → String → Json → Dict Json → Dict Json
omit_if empty name v rest = if empty then rest else (name, v) ∷ rest

abbrev pub time_member : (Time → String) → Option Time → Dict Json → Dict Json
time_member format none rest = rest
time_member format (some t) rest = ("occurred_at", Json.text (format t)) ∷ rest

abbrev pub no_refs : Dict Ref → Bool
no_refs [] = true
no_refs (_ ∷ _) = false

-- The JSON of an event, by the tags of the struct.
unfoldable pub event_json : (Time → String) → NormalizedEvent → Json
unfolding external_refs_json
event_json format e = Json.object (
    members (
      ("event_id", Json.text e.event_id)
      ∷ ("source", Json.text e.source)
      ∷ ("event_type", Json.text e.event_type)
      ∷ time_member format e.occurred_at (
          ("trace_id", Json.text e.trace_id)
          ∷ ("dedup_key", Json.text e.dedup_key)
          ∷ omit_if (is_empty e.project_id) "project_id" (Json.text e.project_id) (
              omit_if (is_empty e.work_item_id) "work_item_id" (Json.text e.work_item_id) (
                (
                  "subject",
                  Json.object (
                      members
                        (("type", Json.text e.subject.kind) ∷ ("id", Json.text e.subject.id) ∷ [])),
                )
                ∷ omit_if (no_refs e.external_refs) "external_refs"
                    (external_refs_json e.external_refs)
                    (("raw_payload_id", Json.text e.raw_payload_id) ∷ []))))))
