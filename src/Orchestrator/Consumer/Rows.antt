-- ===== src/Orchestrator/Consumer/Rows.antt =====
-- What `handle_message` of orchestrator-service/app/consumer.py works with, and the rows that
-- app/repositories.py makes of it.
use yunxiao_workflow_agent.Base.{String, ◌++◌, none, some, List}
use yunxiao_workflow_agent.Runtime.{Time}
use yunxiao_workflow_agent.Json.{Json}
use yunxiao_workflow_agent.Repository.{nullable_string}
use yunxiao_workflow_agent.Orchestrator.Registry.{EventRoute}
use yunxiao_workflow_agent.Orchestrator.Consumer.Statements.{Task, Snapshot, Run, Artifact, Action}

-- A message, decoded: the fields that both publishers always set, with "" for what is absent of the rest.
pub record Incoming : Type 0 where
  pub event_id : String
  pub event_type : String
  pub trace_id : String
  pub subject_type : String
  pub subject_id : String
  pub project_id : String
  pub work_item_id : String
  pub whole : Json

pub record AgentAction : Type 0 where
  pub action_type : String
  pub target_type : String
  pub target_id : String
  pub payload : Json

pub record AgentResult : Type 0 where
  pub artifact_type : String
  pub artifact : Json
  pub actions : List AgentAction

pub record Context : Type 0 where
  pub context_type : String
  pub context : Json
  pub source_refs : Json

abbrev pub new_task : Incoming → String → String → Time → Task
new_task event workflow_type uuid time = record {
  task_id = "task_" ++ uuid;
  event_id = event.event_id;
  event_type = event.event_type;
  workflow_type = workflow_type;
  status = "running";
  trace_id = event.trace_id;
  context_snapshot_id = none;
  error_message = none;
  created_at = time;
  updated_at = time;
}

abbrev pub new_snapshot : Incoming → Context → String → String → String → Time → Snapshot
new_snapshot event c uuid context_json source_refs_json time = record {
  snapshot_id = "snap_" ++ uuid;
  event_id = event.event_id;
  context_type = c.context_type;
  subject_type = event.subject_type;
  subject_id = event.subject_id;
  project_id = nullable_string event.project_id;
  work_item_id = nullable_string event.work_item_id;
  context_json = context_json;
  source_refs_json = source_refs_json;
  created_at = time;
}

abbrev pub new_run : String → Incoming → EventRoute → String → String → Time → Run
new_run task_id event route snapshot_id uuid time = record {
  run_id = "run_" ++ uuid;
  task_id = task_id;
  event_id = event.event_id;
  workflow_type = route.workflow_type;
  agent_type = route.agent_type;
  status = "running";
  model = some "rules-v1";
  input_snapshot_id = snapshot_id;
  started_at = time;
  finished_at = none;
  error_message = none;
  raw_output_json = none;
  updated_at = time;
}

abbrev pub new_artifact : String → Incoming → AgentResult → String → String → Time → Artifact
new_artifact run_id event result uuid artifact_json time = record {
  artifact_id = "artifact_" ++ uuid;
  run_id = run_id;
  event_id = event.event_id;
  artifact_type = result.artifact_type;
  artifact_json = artifact_json;
  created_at = time;
}

abbrev pub new_action : String → Incoming → AgentAction → String → String → Time → Action
new_action run_id event action uuid payload_json time = record {
  action_id = "action_" ++ uuid;
  run_id = run_id;
  event_id = event.event_id;
  action_type = action.action_type;
  target_type = action.target_type;
  target_id = action.target_id;
  payload_json = payload_json;
  status = "pending";
  attempts = 0;
  created_at = time;
}
