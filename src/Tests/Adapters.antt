-- ===== src/Tests/Adapters.antt =====
-- The theorems on the adapters at concrete payloads.
use yunxiao_workflow_agent.Base.{◌≡◌, refl, ◌↔◌, true, [], ◌∷◌}
use yunxiao_workflow_agent.Base.Dict.{lookup}
use yunxiao_workflow_agent.Base.Text.{trim_space, one_of}
use yunxiao_workflow_agent.Effects.Laws.{Always}
use yunxiao_workflow_agent.Codeup
use yunxiao_workflow_agent.Projex
use yunxiao_workflow_agent.Flow
use yunxiao_workflow_agent.Tests.Samples.{
  runtime, body, flow_payload, projex_payload, codeup_payload,
}

flow_normalize_example :
    Always
      (Flow.Outcome.Outcome runtime flow_payload "raw_1" body)
      (Flow.Normalizer.normalize runtime flow_payload "raw_1" body "")
flow_normalize_example = Flow.Outcome.flow_normalize-Outcome runtime flow_payload "raw_1" body ""

projex_normalize_example :
    Always
      (Projex.Outcome.Outcome runtime projex_payload "work_item.created" "raw_1" body)
      (Projex.Normalizer.normalize runtime projex_payload "work_item.created" "raw_1" body "")
projex_normalize_example =
    Projex.Outcome.projex_normalize-Outcome runtime projex_payload "work_item.created" "raw_1" body
      ""

codeup_normalize_example :
    Always
      (Codeup.Outcome.Outcome runtime codeup_payload "raw_1" body
        (Codeup.Outcome.kind_of_payload runtime codeup_payload))
      (Codeup.Normalizer.normalize runtime codeup_payload "raw_1" body "")
codeup_normalize_example =
    Codeup.Outcome.codeup_normalize-Outcome runtime codeup_payload "raw_1" body ""

-- An event type with a space before it is accepted, and is not one of the five.
padded_type_example :
    (one_of Projex.Outcome.work_item_types " work_item.created" ≡ true)
    ↔ (trim_space " work_item.created" ≡ " work_item.created")
unfolding Projex.Normalizer.normalize_event_type Projex.Normalizer.known_event_type trim_space
padded_type_example =
    Projex.Outcome.normalize_event_type-known_iff runtime " work_item.created" " work_item.created"
      refl refl

global_params_example :
    lookup "env" (
      Flow.Normalizer.global_params_map
        (record { key = "env"; value = "a" } ∷ record { key = "env"; value = "b" } ∷ []))
    ≡ Flow.Params.last_value "env"
        (record { key = "env"; value = "a" } ∷ record { key = "env"; value = "b" } ∷ [])
global_params_example =
    Flow.Params.global_params_map_lem "env"
      (record { key = "env"; value = "a" } ∷ record { key = "env"; value = "b" } ∷ []) refl

custom_fields_example :
    lookup "size" (
      Projex.Normalizer.custom_fields
        (record Projex.Payload.no_custom_field_value { field_id = "size" } ∷ []))
    ≡ Projex.Fields.last_field "size"
        (record Projex.Payload.no_custom_field_value { field_id = "size" } ∷ [])
custom_fields_example =
    Projex.Fields.custom_fields_lem "size"
      (record Projex.Payload.no_custom_field_value { field_id = "size" } ∷ []) refl
