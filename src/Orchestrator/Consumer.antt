-- ===== src/Orchestrator/Consumer.antt =====
-- `handle_message` of orchestrator-service/app/consumer.py, with what it calls of app/repositories.py.
-- The builders of contexts and the agents are arguments.
pub mod Statements
pub mod Rows
pub mod Once
pub mod Steps
pub mod Exactly
pub mod Ends
pub mod Transitions
pub mod Final
pub mod Quiet
pub mod Settled
use yunxiao_workflow_agent.Base.{
  String, ◌++◌, Bool, true, false, ◌==◌, Option, none, some, List, [], ◌∷◌, if◌then◌else◌,
}
use yunxiao_workflow_agent.Base.Text.{is_empty}
use yunxiao_workflow_agent.Runtime.{Time}
use yunxiao_workflow_agent.Json.{Json, members, items}
use yunxiao_workflow_agent.Model.{map_list}
use yunxiao_workflow_agent.Repository.{nullable_string}
use yunxiao_workflow_agent.Orchestrator.Registry.{EventRoute, resolve_event_route}
use yunxiao_workflow_agent.Orchestrator.Session.{
  Exc, unique_violation, exc_text, raised, Outcome, value, raise, Session, Py, return, ◌>>=◌,
  try_except, now, uuid4, execute, rollback, postgres_connection, settle, Settlement, ack, nack,
  set_run_id, get_run_id, forget_run_id, raising,
}
use yunxiao_workflow_agent.Orchestrator.Consumer.Statements.{
  Task, Snapshot, Run, Artifact, Action, Tables, insert_task, insert_snapshot, insert_run,
  insert_artifact, insert_action, update_where, find_task, has_task_id, has_run_id, task_succeeded,
  task_failed, run_succeeded, run_failed,
}
use yunxiao_workflow_agent.Orchestrator.Consumer.Rows.{
  Incoming, AgentAction, AgentResult, Context, new_task, new_snapshot, new_run, new_artifact,
  new_action,
}

-- What the handler is run with: `json.dumps`, the builders of contexts and the agents.
pub record Parts : Type 0 where
  pub dumps : Json → Outcome String
  pub build_context : Incoming → EventRoute → Outcome Context
  pub run_agent : String → Json → Outcome AgentResult

-- How the body of the `with` ends: by `return`, or at its end.
pub data Done : Type 0 where
  early finished : Done

-- The SELECT after a unique violation; without a row, `row["task_id"]` raises.
abbrev pub found_task : Option String → Outcome (String × Bool)
found_task none = raise (raised "'NoneType' object is not subscriptable")
found_task (some id) = value (id, false)

abbrev pub reread : String × String → Exc → Py Tables (String × Bool)
reread key (raised text) = λ s. (raise (raised text), s)
reread key unique_violation =
    rollback >>= λ _. execute (λ t. (found_task (find_task key t.tasks), t))

abbrev pub create_workflow_task : Incoming → String → Py Tables (String × Bool)
create_workflow_task event workflow_type = uuid4 >>= λ uuid. now >>= λ time.
    try_except
      (execute (insert_task (new_task event workflow_type uuid time)) >>= λ _.
        return ("task_" ++ uuid, true))
      (reread (event.event_id, workflow_type))

module _ (parts : Parts) where
  abbrev pub save_context_snapshot : Incoming → Context → Py Tables String
  save_context_snapshot event c = uuid4 >>= λ uuid. now >>= λ time.
      raising (parts.dumps c.context) >>= λ context_json.
      raising (parts.dumps c.source_refs) >>= λ source_refs_json.
      execute (insert_snapshot (new_snapshot event c uuid context_json source_refs_json time))
      >>= λ _. return ("snap_" ++ uuid)

  abbrev pub create_agent_run : String → Incoming → EventRoute → String → Py Tables String
  create_agent_run task_id event route snapshot_id = uuid4 >>= λ uuid. now >>= λ time.
      execute (insert_run (new_run task_id event route snapshot_id uuid time)) >>= λ _.
      return ("run_" ++ uuid)

  abbrev pub save_agent_artifact : String → Incoming → AgentResult → Py Tables String
  save_agent_artifact run_id event result = uuid4 >>= λ uuid. now >>= λ time.
      raising (parts.dumps result.artifact) >>= λ artifact_json.
      execute (insert_artifact (new_artifact run_id event result uuid artifact_json time)) >>= λ _.
      return ("artifact_" ++ uuid)

  -- The rows of the actions, at one time, and their ids.
  unfoldable pub save_each_action :
      String → Incoming → Time → List AgentAction → Py Tables (List String)
  save_each_action run_id event time [] = return []
  save_each_action run_id event time (action ∷ actions) = uuid4 >>= λ uuid.
      raising (parts.dumps action.payload) >>= λ payload_json.
      execute (insert_action (new_action run_id event action uuid payload_json time)) >>= λ _.
      save_each_action run_id event time actions >>= λ ids. return (("action_" ++ uuid) ∷ ids)

  abbrev pub save_agent_actions : String → Incoming → List AgentAction → Py Tables (List String)
  save_agent_actions run_id event actions =
      now >>= λ time. save_each_action run_id event time actions

  abbrev pub update_run : String → (Run → Run) → Py Tables Unit
  update_run run_id f =
      execute (λ t. (value tt, record t { runs = update_where (has_run_id run_id) f t.runs }))

  abbrev pub update_task : String → (Task → Task) → Py Tables Unit
  update_task task_id f =
      execute (λ t. (value tt, record t { tasks = update_where (has_task_id task_id) f t.tasks }))

  abbrev pub mark_agent_run_succeeded : String → Json → Py Tables Unit
  mark_agent_run_succeeded run_id raw_output = now >>= λ time.
      raising (parts.dumps raw_output) >>= λ text. update_run run_id (run_succeeded text time)

  abbrev pub mark_agent_run_failed : String → String → Py Tables Unit
  mark_agent_run_failed run_id error_message =
      now >>= λ time. update_run run_id (run_failed error_message time)

  abbrev pub mark_task_succeeded : String → String → Py Tables Unit
  mark_task_succeeded task_id snapshot_id =
      now >>= λ time. update_task task_id (task_succeeded snapshot_id time)

  abbrev pub mark_task_failed : String → String → Py Tables Unit
  mark_task_failed task_id error_message =
      now >>= λ time. update_task task_id (task_failed error_message time)

  -- What the agents are given.
  abbrev pub context_snapshot : String → Context → Json
  context_snapshot snapshot_id c = Json.object (
      members (
        ("snapshot_id", Json.text snapshot_id)
        ∷ ("context_type", Json.text c.context_type)
        ∷ ("context", c.context)
        ∷ ("source_refs", c.source_refs)
        ∷ []))

  abbrev pub raw_output : String → String → List String → Json
  raw_output artifact_id artifact_type action_ids = Json.object (
      members (
        ("artifact_id", Json.text artifact_id)
        ∷ ("artifact_type", Json.text artifact_type)
        ∷ ("action_ids", Json.array (items (map_list Json.text action_ids)))
        ∷ []))

  -- The rest, once the agent has returned or raised.
  unfoldable pub after_agent :
      Incoming → String → String → String → Outcome AgentResult → Py Tables Done
  after_agent event task_id snapshot_id run_id (raise e) =
      mark_agent_run_failed run_id (exc_text e) >>= λ _.
      mark_task_failed task_id (exc_text e) >>= λ _. settle ack >>= λ _. return early
  after_agent event task_id snapshot_id run_id (value result) =
      save_agent_artifact run_id event result >>= λ artifact_id.
      save_agent_actions run_id event result.actions >>= λ action_ids.
      mark_agent_run_succeeded run_id (raw_output artifact_id result.artifact_type action_ids)
      >>= λ _. mark_task_succeeded task_id snapshot_id >>= λ _. return finished

  -- The rest, once the task is created.
  unfoldable pub run_workflow : Incoming → EventRoute → String → Py Tables Done
  run_workflow event route task_id = raising (parts.build_context event route) >>= λ c.
      save_context_snapshot event c >>= λ snapshot_id.
      create_agent_run task_id event route snapshot_id >>= λ run_id. set_run_id run_id >>= λ _.
      after_agent event task_id snapshot_id run_id
        (parts.run_agent route.agent_type (context_snapshot snapshot_id c))

  -- The rest, once there is a task, a new one or an old one.
  unfoldable pub with_task : Incoming → EventRoute → String × Bool → Py Tables Done
  with_task event route (task_id, true) = run_workflow event route task_id
  with_task event route (task_id, false) = settle ack >>= λ _. return early

  abbrev pub acknowledge : Done → Py Tables Unit
  acknowledge early = return tt
  acknowledge finished = settle ack

  abbrev pub fail_run : String → Option String → Py Tables Unit
  fail_run error_message none = return tt
  fail_run error_message (some run_id) = mark_agent_run_failed run_id error_message

  -- `except Exception as exc`
  unfoldable pub consume_failed : Incoming → EventRoute → Exc → Py Tables Unit
  consume_failed event route exc =
      try_except
        (postgres_connection (
          create_workflow_task event route.workflow_type >>= λ (task_id, created).
          get_run_id >>= λ run_id.
          fail_run (exc_text exc) run_id >>= λ _. mark_task_failed task_id (exc_text exc)))
        (λ _. return tt)
      >>= λ _. settle nack

  unfoldable pub handle_event : Incoming → EventRoute → Py Tables Unit
  handle_event event route = forget_run_id >>= λ _.
      try_except
        (postgres_connection
            (create_workflow_task event route.workflow_type >>= with_task event route)
          >>= acknowledge)
        (consume_failed event route)

  -- A message that cannot be decoded raises before the `try`.
  unfoldable pub handle_message : Outcome Incoming → Py Tables Unit
  unfolding resolve_event_route
  handle_message (raise e) = λ s. (raise e, s)
  handle_message (value event) = handle_event event (resolve_event_route event.event_type)

  -- Any number of messages, one after the other.
  unfoldable pub consume : List (Outcome Incoming) → Session Tables → Session Tables
  consume [] s = s
  consume (message ∷ messages) s = consume messages (handle_message message s).1
