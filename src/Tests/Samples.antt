-- ===== src/Tests/Samples.antt =====
-- A runtime, a configuration and payloads for the examples.
use yunxiao_workflow_agent.Base.{none, [], ◌∷◌}
use yunxiao_workflow_agent.Base.Int.{pos}
use yunxiao_workflow_agent.Base.Text.{format_nat}
use yunxiao_workflow_agent.Base.Result.{ok, plain}
use yunxiao_workflow_agent.Json.{Json, members}
use yunxiao_workflow_agent.Runtime.{Runtime, Bytes}
use yunxiao_workflow_agent.Model.{NormalizedEvent}
use yunxiao_workflow_agent.Config.{Config}
use yunxiao_workflow_agent.Http.{Request}
use yunxiao_workflow_agent.Effects.{Environment, fine}
use yunxiao_workflow_agent.Codeup
use yunxiao_workflow_agent.Projex
use yunxiao_workflow_agent.Flow

-- The body of a flow webhook, for the runtime below.
abbrev pub flow_json : Json
flow_json = Json.object (
    members (
      ("event", Json.text "pipeline")
      ∷ ("action", Json.text "status")
      ∷ (
        "task",
        Json.object (
            members (
              ("pipelineId", Json.text "7")
              ∷ ("buildNumber", Json.text "42")
              ∷ ("statusCode", Json.text "fail")
              ∷ [])),
      )
      ∷ []))

-- Every body parses as `flow_json`, and JSON is marshalled as "{}".
abbrev pub runtime : Runtime
runtime = record {
  lower_rune = λ c. c;
  upper_rune = λ c. c;
  quote = λ s. s;
  sha256 = λ body. 171 ∷ 205 ∷ [];
  parse_time = λ layout value. none;
  format_time = λ t. t.zone;
  parse_json = λ body. ok flow_json;
  marshal = λ v. ok "{}";
  decoding = record {
    fold_rune = λ c. c;
    type_error = λ v name. plain name;
    interface_of = λ v. ok v;
  };
}

abbrev pub config : Config
config = record {
  app_env = "prod";
  http_addr = ":8080";
  postgres_dsn = "postgres://db";
  rabbitmq_url = "amqp://mq";
  rabbitmq_exchange = "yunxiao.events";
  rabbitmq_connect_initial_backoff = pos 1000000000;
  rabbitmq_connect_max_backoff = pos 10000000000;
  rabbitmq_connect_max_wait = pos 60000000000;
  codeup_token = "codeup-secret";
  projex_secret = "projex-secret";
  flow_token = "flow-secret";
}

abbrev pub body : Bytes
body = 123 ∷ 125 ∷ []

abbrev pub flow_request : Request
flow_request = record {
  header = ("Authorization", "Bearer flow-secret" ∷ []) ∷ [];
  event_type = "";
  body = ok body;
}

abbrev pub stranger : Request
stranger = record {
  header = ("Authorization", "Bearer guess" ∷ []) ∷ [];
  event_type = "";
  body = ok body;
}

-- No call fails, and the UUID of the n-th call is its number.
abbrev pub calm : Environment
calm n = record { uuid = format_nat n; time = record { instant = n; zone = "UTC" }; fault = fine }

abbrev pub flow_payload : Flow.Payload.WebhookPayload
flow_payload = record Flow.Payload.no_webhook_payload {
  event = "pipeline";
  action = "status";
  task = record Flow.Payload.no_task {
    pipeline_id = "7";
    build_number = "42";
    status_code = "fail";
  };
}

abbrev pub projex_payload : Projex.Payload.WebhookPayload
projex_payload = record Projex.Payload.no_webhook_payload { identifier = "REQ-1" }

abbrev pub codeup_payload : Codeup.Payload.WebhookPayload
codeup_payload = record Codeup.Payload.no_webhook_payload {
  object_kind = "Push";
  ref = "refs/heads/main";
}

abbrev pub stored_event : NormalizedEvent
stored_event =
    Flow.Normalizer.event_of runtime flow_payload "raw_1" body "trace_1" "pipeline.failed" "42" "u1"
