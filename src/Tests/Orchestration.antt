-- ===== src/Tests/Orchestration.antt =====
-- The theorems on the orchestrator at concrete inputs.
use yunxiao_workflow_agent.Base.{
  All, true, any, List, [], ◌∷◌, none, arith, String, refl, ◌≡◌, Bool, false, ap,
}
use yunxiao_workflow_agent.Base.Text.{cut_prefix}
use yunxiao_workflow_agent.Orchestrator.Registry.Topic.{IsTopic, one_more}
use yunxiao_workflow_agent.Orchestrator.Registry.Delivery.{
  adapters-Delivers, Delivers, ProjexDelivers, codeup_queue,
}
use yunxiao_workflow_agent.Effects.Laws.{Always}
use yunxiao_workflow_agent.Json.{Json}
use yunxiao_workflow_agent.Effects.{before, after}
use yunxiao_workflow_agent.Orchestrator.Session.{Session, value}
use yunxiao_workflow_agent.Orchestrator.Retry.{RetrySettings, run_retry_worker}
use yunxiao_workflow_agent.Orchestrator.Retry.Rows.{RetryRow, is_candidate}
use yunxiao_workflow_agent.Orchestrator.Retry.Messages.{Python}
use yunxiao_workflow_agent.Orchestrator.Retry.Progress.{worker-drains}
use yunxiao_workflow_agent.Orchestrator.Retry.Sound.{IsSent}
use yunxiao_workflow_agent.Orchestrator.Retry.Evidence.{worker-IsSent}
use yunxiao_workflow_agent.Base.Text.{format_nat}
use yunxiao_workflow_agent.Model.{event_json, external_refs_json}
use yunxiao_workflow_agent.Orchestrator.Retry.Messages.{build_normalized_event_message}
use yunxiao_workflow_agent.Orchestrator.Retry.Republish.{
  message-event_json, field, field_names, row_of,
}
use yunxiao_workflow_agent.Flow
use yunxiao_workflow_agent.Codeup
use yunxiao_workflow_agent.Projex
use yunxiao_workflow_agent.Tests.Stars.{drop_star, drop_star_lem}
use yunxiao_workflow_agent.Tests.Samples.{
  stored_event, calm, runtime, body, codeup_payload, projex_payload, flow_payload,
}

-- An exchange for the patterns that end in a star.
abbrev fits : String → String → Bool
fits pattern key = one_more (cut_prefix (drop_star pattern) key)

fits-IsTopic : IsTopic fits
fits-IsTopic word key h = ap (λ p. one_more (cut_prefix p key)) (drop_star_lem word)

delivery_example :
    Always
      (Delivers fits codeup_queue)
      (Codeup.Normalizer.normalize runtime codeup_payload "raw_1" body "t")
    × Always
        (ProjexDelivers fits " work_item.created")
        (Projex.Normalizer.normalize runtime projex_payload " work_item.created" "raw_1" body "t")
    × Always
        (Delivers fits (λ e. "orchestrator.pipeline"))
        (Flow.Normalizer.normalize runtime flow_payload "raw_1" body "t")
delivery_example =
    adapters-Delivers fits runtime codeup_payload projex_payload flow_payload " work_item.created"
      "raw_1" body "t" fits-IsTopic

abbrev python : Python
python = record {
  dumps = λ v. value "{}";
  load_jsonb = λ s. Json.null;
  isoformat = λ t. "1970-01-01T00:00:00";
  is_nonzero = λ digits. true;
}

abbrev settings : RetrySettings
settings = record { rabbitmq_exchange = "yunxiao.events"; batch_size = 10; max_attempts = 3 }

abbrev failed_row : RetryRow
failed_row = record {
  event = record {
    event_id = "evt_1";
    source = "yunxiao.flow";
    event_type = "pipeline.failed";
    occurred_at = none;
    trace_id = "t";
    dedup_key = "k";
    project_id = none;
    work_item_id = none;
    subject_type = "pipeline_run";
    subject_id = "42";
    external_refs_json = "{}";
    raw_event_id = 1;
    publish_status = "failed";
    published_at = none;
    created_at = record { instant = 5; zone = "UTC" };
  };
  publish_attempts = 0;
  last_publish_error = none;
  last_publish_attempt_at = none;
}

-- The broker refuses every message.
abbrev refused : Session (List RetryRow)
refused = record {
  committed = failed_row ∷ [];
  working = [];
  aborted = false;
  messages = [];
  settled = [];
  run_id = none;
  choices = calm;
  broker = λ n. record (calm n) { fault = before "channel closed" };
}

drains_example :
    any (is_candidate 3) (run_retry_worker python settings (λ _. false) 7 refused).committed ≡ false
drains_example = worker-drains python settings 7 refused (λ n. refl) (ground arith) (ground arith)

-- Every message is lost after it was sent, as far as the worker can tell.
abbrev uncertain : Session (List RetryRow)
uncertain = record refused { broker = λ n. record (calm n) { fault = after "timeout" } }

sent_example :
    let t = run_retry_worker python settings (λ _. false) 2 uncertain in
    IsSent t.messages t.committed
sent_example = worker-IsSent python settings (λ _. false) 2 uncertain (λ e. absurd (cc e), tt)

-- The column holds the references of the stored event.
abbrev python_refs : Python
python_refs = record python { load_jsonb = λ s. external_refs_json stored_event.external_refs }

republish_example :
    All
      (λ name.
        field name (
          build_normalized_event_message python_refs
            (row_of stored_event 1 "{}" (calm 0).time failed_row))
        ≡ field name (event_json (λ t. t.zone) stored_event))
      field_names
unfolding format_nat Flow.Normalizer.event_of
republish_example =
    message-event_json python_refs (λ t. t.zone) stored_event 1 "{}" (calm 0).time failed_row refl
      refl
