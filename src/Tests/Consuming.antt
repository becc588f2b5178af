-- ===== src/Tests/Consuming.antt =====
-- The consumer at concrete inputs.
use yunxiao_workflow_agent.Base.{String, List, [], ◌∷◌, none, refl, ◌≡◌, ◌⊎◌, false}
use yunxiao_workflow_agent.Json.{Json}
use yunxiao_workflow_agent.Effects.{before}
use yunxiao_workflow_agent.Orchestrator.Session.{postgres_connection, Session, value, ack, nack}
use yunxiao_workflow_agent.Base.Text.{format_nat}
use yunxiao_workflow_agent.Orchestrator.Consumer.{
  Parts, consume, handle_message, handle_event, with_task, run_workflow, after_agent,
  save_each_action, consume_failed,
}
use yunxiao_workflow_agent.Orchestrator.Consumer.Rows.{Incoming}
use yunxiao_workflow_agent.Orchestrator.Consumer.Statements.{
  insert_task, insert_snapshot, insert_run, insert_artifact, update_where, find_task, Tables, Task,
}
use yunxiao_workflow_agent.Orchestrator.Consumer.Once.{IsOnce}
use yunxiao_workflow_agent.Orchestrator.Consumer.Exactly.{consume-IsOnce}
use yunxiao_workflow_agent.Orchestrator.Consumer.Ends.{IsEnded}
use yunxiao_workflow_agent.Orchestrator.Consumer.Final.{consume-IsEnded}
use yunxiao_workflow_agent.Orchestrator.Consumer.Settled.{settled-handle_message}
use yunxiao_workflow_agent.Tests.Samples.{calm}

abbrev parts : Parts
parts = record {
  dumps = λ v. value "{}";
  build_context = λ event route.
      value (record {
        context_type = route.context_type;
        context = Json.null;
        source_refs = Json.null;
      });
  run_agent = λ agent_type c.
      value (record { artifact_type = "repo_event_summary"; artifact = Json.null; actions = [] });
}

abbrev pushed : Incoming
pushed = record {
  event_id = "evt_1";
  event_type = "repo.pushed";
  trace_id = "t";
  subject_type = "branch";
  subject_id = "main";
  project_id = "";
  work_item_id = "";
  whole = Json.null;
}

abbrev no_tables : Tables
no_tables = record { tasks = []; snapshots = []; runs = []; artifacts = []; actions = [] }

abbrev idle : Session Tables
idle = record {
  committed = no_tables;
  working = no_tables;
  aborted = false;
  messages = [];
  settled = [];
  run_id = none;
  choices = calm;
  broker = calm;
}

-- The message is delivered twice.
delivered_again_example : IsOnce (consume parts (value pushed ∷ value pushed ∷ []) idle).committed
delivered_again_example =
    consume-IsOnce parts (value pushed ∷ value pushed ∷ []) idle
      (record { task_ids_distinct = tt; one_task = tt; runs_of_tasks = tt; one_run = tt }) refl

abbrev statuses : List Task → List String
statuses [] = []
statuses (t ∷ tasks) = t.status ∷ statuses tasks

-- It is acknowledged twice, and its task has succeeded.
delivered_twice :
    let s = consume parts (value pushed ∷ value pushed ∷ []) idle in
    (statuses s.committed.tasks ≡ "succeeded" ∷ []) × (s.settled ≡ ack ∷ ack ∷ [])
unfolding consume handle_message handle_event postgres_connection insert_task format_nat with_task
    run_workflow insert_snapshot insert_run after_agent insert_artifact save_each_action
    update_where find_task
delivered_twice = (refl, refl)

-- The workflow is committed, and then the channel is lost before the acknowledgement.
lost_ack :
    let s =
      consume parts
        (value pushed ∷ [])
        (record idle { broker = λ n. record (calm n) { fault = before "channel closed" } }) in
    statuses s.committed.tasks ≡ ("failed" ∷ [])
unfolding consume handle_message handle_event postgres_connection insert_task format_nat with_task
    run_workflow insert_snapshot insert_run after_agent insert_artifact save_each_action
    consume_failed update_where find_task
lost_ack = refl

-- The channel is lost before each acknowledgement.
ends_example :
    IsEnded
      (consume parts (value pushed ∷ value pushed ∷ []) (record idle {
        broker = λ n. record (calm n) { fault = before "channel closed" };
      })).committed
ends_example =
    consume-IsEnded parts (value pushed ∷ value pushed ∷ [])
      (record idle { broker = λ n. record (calm n) { fault = before "channel closed" } })
      (record { tasks_ended = tt; runs_ended = tt })

-- No call of the database is carried out.
abbrev lost : Session Tables
lost = record idle { choices = λ n. record (calm n) { fault = before "connection lost" } }

settled_example :
    ((handle_message parts (value pushed) lost).0 ≡ value tt)
    × (((handle_message parts (value pushed) lost).1.settled ≡ ack ∷ [])
        ⊎ ((handle_message parts (value pushed) lost).1.settled ≡ nack ∷ [])
        ⊎ ((handle_message parts (value pushed) lost).1.settled ≡ nack ∷ ack ∷ []))
settled_example = settled-handle_message parts pushed lost (λ n. refl)
