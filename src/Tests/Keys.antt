-- ===== src/Tests/Keys.antt =====
-- The theorems on keys, names and settings at concrete inputs.
use yunxiao_workflow_agent.Base.{false, ◌≡◌, ◌++◌, ◌↔◌, ◌≤◌, ◌*◌, refl, none, true, arith, String}
use yunxiao_workflow_agent.Base.Int.{pos}
use yunxiao_workflow_agent.Base.Text.{cut_prefix, atoi, parse_nat, parse_digits}
use yunxiao_workflow_agent.Model.{NormalizedEvent}
use yunxiao_workflow_agent.Ids.{trace_or_new}
use yunxiao_workflow_agent.Effects.{run, exec, empty_world}
use yunxiao_workflow_agent.Codeup
use yunxiao_workflow_agent.Config
use yunxiao_workflow_agent.Keys
use yunxiao_workflow_agent.Mq.Retry.{second}
use yunxiao_workflow_agent.Tests.Samples.{flow_payload, runtime, body, projex_payload, calm}

abbrev codeup_push : Codeup.Payload.WebhookPayload
codeup_push = record Codeup.Payload.no_webhook_payload {
  object_kind = "push";
  ref = "refs/heads/main";
  after = "0a1b";
}

-- Normalised from one push, delivered twice.
abbrev pushed : String → NormalizedEvent
pushed raw = Codeup.Push.push_event runtime codeup_push raw body "trace_1" false "main" "0"

codeup_key_example :
    ((pushed "raw_1").event_type ≡ (pushed "raw_2").event_type)
    × (codeup_push.project_id ≡ codeup_push.project_id)
    × ((pushed "raw_1").subject.id ≡ (pushed "raw_2").subject.id)
    × (Keys.Subjects.codeup_change runtime codeup_push body (pushed "raw_1").subject.kind
        ≡ Keys.Subjects.codeup_change runtime codeup_push body (pushed "raw_2").subject.kind)
unfolding run exec Codeup.Normalizer.normalize Codeup.Normalizer.normalize_object_kind
    Codeup.Normalizer.dispatch Codeup.Push.normalize_push Codeup.Push.push_event
    Codeup.Push.build_push_dedup_key Codeup.Fields.ref_name trace_or_new cut_prefix
    yunxiao_workflow_agent.Base.Text.to_lower yunxiao_workflow_agent.Base.Text.format_nat
codeup_key_example =
    Keys.Subjects.codeup_key_inj runtime codeup_push codeup_push body body "raw_1" "raw_2" "trace_1"
      "trace_1" calm calm empty_world empty_world (pushed "raw_1") (pushed "raw_2") refl refl refl
      refl refl

abbrev created : String
created = "work_item.created"

abbrev item : String
item = "REQ-1"

projex_key_example :
    (created ≡ created)
    × (item ≡ item)
    × (Keys.Separation.change_of runtime projex_payload body
        ≡ Keys.Separation.change_of runtime projex_payload body)
projex_key_example =
    Keys.Separation.projex_key_inj runtime projex_payload projex_payload body body created created
      item item refl refl refl refl refl

ref_name_example :
    (Codeup.Fields.ref_name ("refs/heads/" ++ "feature/x") ≡ "feature/x")
    × (Codeup.Fields.ref_name ("refs/tags/" ++ "v1") ≡ "v1")
unfolding cut_prefix
ref_name_example = Codeup.Refs.ref_name_lem "feature/x" "v1" refl

-- A setting of 9223372037 seconds.
seconds_example :
    (Config.get_env_duration_seconds
        (λ key. "9223372037")
        "RABBITMQ_CONNECT_MAX_WAIT_SECONDS"
        (pos 1)
      ≡ pos (9223372037 * second))
    ↔ (9223372037 ≤ 9223372036)
unfolding atoi parse_nat parse_digits
seconds_example =
    Config.Durations.get_env_duration_seconds-exact_iff (λ key. "9223372037")
      "RABBITMQ_CONNECT_MAX_WAIT_SECONDS" (pos 1) 9223372037 refl (ground arith) (ground arith)

abbrev failed_type : String
failed_type = "pipeline.failed"

flow_key_example :
    (failed_type ≡ failed_type)
    × (flow_payload.task.pipeline_id ≡ flow_payload.task.pipeline_id)
    × (flow_payload.task.build_number ≡ flow_payload.task.build_number)
    × (flow_payload.task.status_code ≡ flow_payload.task.status_code)
flow_key_example =
    Keys.Runs.flow_key_inj runtime flow_payload flow_payload body body failed_type failed_type
      flow_payload.task.build_number flow_payload.task.build_number refl refl refl refl refl refl
      refl refl refl
