-- ===== src/Tests/Service.antt =====
-- The theorems on the whole service at a concrete request.
use yunxiao_workflow_agent.Base.{
  List, nat_beq, ◌⊎◌, false, refl, ◌≤◌, [], ◌∷◌, ◌==◌, ◌↔◌, none, some, inl, true, ◌≡◌, ℕ, String,
}
use yunxiao_workflow_agent.HttpServer.Settling.Duties.{Move, moves, marked, final_statuses}
use yunxiao_workflow_agent.Base.Text.{one_of}
use yunxiao_workflow_agent.Http.{Response, get_header}
use yunxiao_workflow_agent.Effects.{World, Prog, run, empty_world, ret}
use yunxiao_workflow_agent.Effects.Concurrent.{System, Reach, arrive, here, next, run-Reach}
use yunxiao_workflow_agent.Effects.Publication.{sent, stored}
use yunxiao_workflow_agent.Repository.{new_event_repository}
use yunxiao_workflow_agent.Mq.{rabbit_publisher}
use yunxiao_workflow_agent.Config
use yunxiao_workflow_agent.HttpServer
use yunxiao_workflow_agent.HttpServer.Service.{IsRequest, serves, start}
use yunxiao_workflow_agent.Tests.Samples.{runtime, config, flow_request, stranger, calm, body}
use yunxiao_workflow_agent.Effects.Evidence.{IsStored, Receipt, IsReceived}
use yunxiao_workflow_agent.Base.Text.{to_lower}
use yunxiao_workflow_agent.Effects.Schema.{EventRow, RawRow}
use yunxiao_workflow_agent.Effects.Laws.{Always}

abbrev a_request : Prog Response
a_request =
    HttpServer.serve runtime config (new_event_repository runtime)
      (rabbit_publisher runtime "yunxiao.events") "POST" "/webhooks/yunxiao/flow" flow_request

-- The service once it has served the request.
abbrev served : System Response
served = record {
  world = (run a_request calm empty_world).1;
  threads = ret (run a_request calm empty_world).0 ∷ [];
}

served_reached : Reach (IsRequest runtime config "yunxiao.events") start served
served_reached =
    run-Reach a_request calm empty_world
      (next here (arrive a_request (serves "POST" "/webhooks/yunxiao/flow" flow_request refl) refl))

publishes_once_example :
    (sent "evt_4" served.world ≤ stored "evt_4" served.world) × (stored "evt_4" served.world ≤ 1)
publishes_once_example =
    HttpServer.Service.service_publishes_once runtime config "yunxiao.events" served_reached "evt_4"

refuses_example : HttpServer.Security.IsRefused empty_world (
    run
      (HttpServer.serve runtime config
        (new_event_repository runtime)
        (rabbit_publisher runtime "yunxiao.events")
        "POST"
        "/webhooks/yunxiao/flow"
        stranger)
      calm
      empty_world)
unfolding Config.validate get_header
refuses_example =
    HttpServer.Security.prod_refuses runtime config (new_event_repository runtime)
      (rabbit_publisher runtime "yunxiao.events") stranger calm empty_world (λ c. c)
      HttpServer.Security.Route.flow refl refl refl

-- The service once it has served the request again.
abbrev served_again : System Response
served_again = record {
  world = (run a_request calm served.world).1;
  threads = ret (run a_request calm served.world).0 ∷ served.threads;
}

served_again_reached : Reach (IsRequest runtime config "yunxiao.events") served served_again
served_again_reached =
    run-Reach a_request calm served.world
      (next here (arrive a_request (serves "POST" "/webhooks/yunxiao/flow" flow_request refl) refl))

abbrev first_receipt : Receipt
first_receipt = record {
  id = 1;
  source = "yunxiao.flow";
  signature_valid = true;
  headers_json = "{}";
  payload_json = some body;
  payload_text = body;
  received_at = record { instant = 1; zone = "UTC" };
  trace_id = "trace_0";
  created_at = record { instant = 1; zone = "UTC" };
}

keeps_receipts_example : IsReceived first_receipt served_again.world.database
unfolding run HttpServer.serve yunxiao_workflow_agent.HttpServer.FlowWebhook.handle_flow_webhook
    yunxiao_workflow_agent.Flow.Auth.verify_token
    yunxiao_workflow_agent.HttpServer.FlowWebhook.flow_read
    yunxiao_workflow_agent.Repository.save_raw_event
    yunxiao_workflow_agent.HttpServer.FlowWebhook.flow_saved yunxiao_workflow_agent.Effects.exec
    yunxiao_workflow_agent.Effects.Tables.raw_fits yunxiao_workflow_agent.Base.Text.format_nat
    yunxiao_workflow_agent.HttpServer.FlowWebhook.flow_decoded
    yunxiao_workflow_agent.Flow.Payload.payload_from_json
    yunxiao_workflow_agent.Repository.update_raw_event_meta
    yunxiao_workflow_agent.Flow.Normalizer.normalize yunxiao_workflow_agent.Ids.trace_or_new
    yunxiao_workflow_agent.Flow.Normalizer.normalize_typed
    yunxiao_workflow_agent.Flow.Normalizer.map_event_type
    yunxiao_workflow_agent.Flow.Normalizer.event_type_of
    yunxiao_workflow_agent.Flow.Normalizer.run_id_of
    yunxiao_workflow_agent.Base.Text.first_non_empty
    yunxiao_workflow_agent.HttpServer.Answers.finish
    yunxiao_workflow_agent.HttpServer.Persist.persist_and_publish
    yunxiao_workflow_agent.Repository.save_normalized_event
    yunxiao_workflow_agent.Repository.insert_event
    yunxiao_workflow_agent.HttpServer.Persist.answer_saved
    yunxiao_workflow_agent.Effects.Tables.event_fits yunxiao_workflow_agent.Flow.Normalizer.event_of
    yunxiao_workflow_agent.Flow.Normalizer.build_dedup_key
    yunxiao_workflow_agent.HttpServer.Persist.publish_saved
    yunxiao_workflow_agent.Repository.mark_raw_event_normalized yunxiao_workflow_agent.Mq.publish
    yunxiao_workflow_agent.Mq.send yunxiao_workflow_agent.HttpServer.Persist.answer_sent
    yunxiao_workflow_agent.Repository.mark_published
    yunxiao_workflow_agent.HttpServer.Persist.answer_marked
    yunxiao_workflow_agent.HttpServer.Persist.log_webhook
keeps_receipts_example =
    HttpServer.Service.service-keeps_receipts runtime config "yunxiao.events" first_receipt
      served_again_reached (inl refl)

abbrev first_event : EventRow
first_event = record {
  event_id = "evt_4";
  source = "yunxiao.flow";
  event_type = "pipeline.failed";
  occurred_at = none;
  trace_id = "trace_0";
  dedup_key = "yunxiao.flow:pipeline.failed:7:42:fail";
  project_id = none;
  work_item_id = none;
  subject_type = "pipeline_run";
  subject_id = "42";
  external_refs_json = "{}";
  raw_event_id = 1;
  publish_status = "";
  published_at = none;
  created_at = record { instant = 5; zone = "UTC" };
}

keeps_events_example : IsStored first_event served_again.world.database
unfolding run HttpServer.serve yunxiao_workflow_agent.HttpServer.FlowWebhook.handle_flow_webhook
    yunxiao_workflow_agent.Flow.Auth.verify_token
    yunxiao_workflow_agent.HttpServer.FlowWebhook.flow_read
    yunxiao_workflow_agent.Repository.save_raw_event
    yunxiao_workflow_agent.HttpServer.FlowWebhook.flow_saved yunxiao_workflow_agent.Effects.exec
    yunxiao_workflow_agent.Effects.Tables.raw_fits yunxiao_workflow_agent.Base.Text.format_nat
    yunxiao_workflow_agent.HttpServer.FlowWebhook.flow_decoded
    yunxiao_workflow_agent.Flow.Payload.payload_from_json
    yunxiao_workflow_agent.Repository.update_raw_event_meta
    yunxiao_workflow_agent.Flow.Normalizer.normalize yunxiao_workflow_agent.Ids.trace_or_new
    yunxiao_workflow_agent.Flow.Normalizer.normalize_typed
    yunxiao_workflow_agent.Flow.Normalizer.map_event_type
    yunxiao_workflow_agent.Flow.Normalizer.event_type_of
    yunxiao_workflow_agent.Flow.Normalizer.run_id_of
    yunxiao_workflow_agent.Base.Text.first_non_empty
    yunxiao_workflow_agent.HttpServer.Answers.finish
    yunxiao_workflow_agent.HttpServer.Persist.persist_and_publish
    yunxiao_workflow_agent.Repository.save_normalized_event
    yunxiao_workflow_agent.Repository.insert_event
    yunxiao_workflow_agent.HttpServer.Persist.answer_saved
    yunxiao_workflow_agent.Effects.Tables.event_fits yunxiao_workflow_agent.Flow.Normalizer.event_of
    yunxiao_workflow_agent.Flow.Normalizer.build_dedup_key
    yunxiao_workflow_agent.HttpServer.Persist.publish_saved
    yunxiao_workflow_agent.Repository.mark_raw_event_normalized yunxiao_workflow_agent.Mq.publish
    yunxiao_workflow_agent.Mq.send yunxiao_workflow_agent.HttpServer.Persist.answer_sent
    yunxiao_workflow_agent.Repository.mark_published
    yunxiao_workflow_agent.HttpServer.Persist.answer_marked
    yunxiao_workflow_agent.HttpServer.Persist.log_webhook
keeps_events_example =
    HttpServer.Service.service-keeps_events runtime config "yunxiao.events" first_event
      served_again_reached (inl refl)

abbrev first_of : List EventRow → EventRow
first_of [] = first_event
first_of (e ∷ _) = e

-- The event that the request has stored and published.
abbrev published_event : EventRow
published_event = first_of served.world.database.normalized_events

marks_example : sent published_event.event_id served.world ≡ 1
unfolding run HttpServer.serve yunxiao_workflow_agent.HttpServer.FlowWebhook.handle_flow_webhook
    yunxiao_workflow_agent.Flow.Auth.verify_token
    yunxiao_workflow_agent.HttpServer.FlowWebhook.flow_read
    yunxiao_workflow_agent.Repository.save_raw_event
    yunxiao_workflow_agent.HttpServer.FlowWebhook.flow_saved yunxiao_workflow_agent.Effects.exec
    yunxiao_workflow_agent.Effects.Tables.raw_fits yunxiao_workflow_agent.Base.Text.format_nat
    yunxiao_workflow_agent.HttpServer.FlowWebhook.flow_decoded
    yunxiao_workflow_agent.Flow.Payload.payload_from_json
    yunxiao_workflow_agent.Repository.update_raw_event_meta
    yunxiao_workflow_agent.Flow.Normalizer.normalize yunxiao_workflow_agent.Ids.trace_or_new
    yunxiao_workflow_agent.Flow.Normalizer.normalize_typed
    yunxiao_workflow_agent.Flow.Normalizer.map_event_type
    yunxiao_workflow_agent.Flow.Normalizer.event_type_of
    yunxiao_workflow_agent.Flow.Normalizer.run_id_of
    yunxiao_workflow_agent.Base.Text.first_non_empty
    yunxiao_workflow_agent.HttpServer.Answers.finish
    yunxiao_workflow_agent.HttpServer.Persist.persist_and_publish
    yunxiao_workflow_agent.Repository.save_normalized_event
    yunxiao_workflow_agent.Repository.insert_event
    yunxiao_workflow_agent.HttpServer.Persist.answer_saved
    yunxiao_workflow_agent.Effects.Tables.event_fits yunxiao_workflow_agent.Flow.Normalizer.event_of
    yunxiao_workflow_agent.Flow.Normalizer.build_dedup_key
    yunxiao_workflow_agent.HttpServer.Persist.publish_saved
    yunxiao_workflow_agent.Repository.mark_raw_event_normalized yunxiao_workflow_agent.Mq.publish
    yunxiao_workflow_agent.Mq.send yunxiao_workflow_agent.HttpServer.Persist.answer_sent
    yunxiao_workflow_agent.Repository.mark_published
    yunxiao_workflow_agent.HttpServer.Persist.answer_marked
    yunxiao_workflow_agent.HttpServer.Persist.log_webhook
marks_example =
    HttpServer.Service.service-marks_sent runtime config "yunxiao.events" published_event
      served_reached (inl refl) refl

decides_example :
    Always
      (HttpServer.Statuses.Routes.Decides
        (HttpServer.Statuses.Routes.is_authorized config stranger HttpServer.Security.Route.flow))
      (HttpServer.serve runtime config
        (new_event_repository runtime)
        (rabbit_publisher runtime "yunxiao.events")
        "POST"
        "/webhooks/yunxiao/flow"
        stranger)
decides_example =
    HttpServer.Statuses.Routes.decides runtime config (new_event_repository runtime)
      (rabbit_publisher runtime "yunxiao.events") HttpServer.Security.Route.flow stranger

validate_example :
    (Config.validate (λ c. c) config ≡ none)
    ↔ (((to_lower (λ c. c) config.app_env == "prod") ≡ false) ⊎ Config.Validation.IsReady config)
validate_example = Config.Validation.validate-IsReady (λ c. c) config

moves_example :
    (moves a_request calm empty_world ≡ [])
    ⊎ ((id : ℕ) × (status : String) × (moves a_request calm empty_world
          ≡ Move.stored id ∷ marked id status ∷ [])
        × (one_of final_statuses status ≡ true))
moves_example =
    HttpServer.Settling.Handlers.moves-serve runtime config "yunxiao.events" "POST"
      "/webhooks/yunxiao/flow" flow_request calm empty_world

-- A raw event was stored before.
abbrev old_row : RawRow
old_row = record {
  id = 1;
  source = "yunxiao.flow";
  event_type = "pipeline";
  external_event_id = "";
  signature_valid = true;
  headers_json = "{}";
  payload_json = none;
  payload_text = body;
  process_status = "ignored";
  process_error = none;
  normalized_event_id = none;
  received_at = (calm 0).time;
  trace_id = "trace_1";
  created_at = (calm 0).time;
  processed_at = none;
}

abbrev old_world : World
old_world = record empty_world {
  database = record { raw_events = old_row ∷ []; next_raw_id = 2; normalized_events = [] };
}

recorded_example :
    let (a, w) = run a_request calm old_world in
    ((w.database.raw_events ≡ old_world.database.raw_events) × (nat_beq a.status 202 ≡ false))
    ⊎ ((row : RawRow) × (w.database.raw_events ≡ row ∷ old_world.database.raw_events)
        × ((row.process_status ≡ "received")
            ⊎ (HttpServer.Settling.Duties.agrees row.process_status a.status ≡ true)))
recorded_example =
    HttpServer.Settling.Recorded.raw_events-serve runtime config "yunxiao.events" "POST"
      "/webhooks/yunxiao/flow" flow_request calm old_world refl
