-- ===== src/Orchestrator/Consumer/Statements.antt =====
-- The tables of infra/db/migration/V1 and V4 that the consumer writes, and the statements of
-- orchestrator-service/app/repositories.py on them. Columns that always equal another one or a default are
-- left out.
use yunxiao_workflow_agent.Base.{
  ℕ, String, Bool, true, not, ◌&&◌, ◌==◌, Option, none, some, List, [], ◌∷◌, any, if◌then◌else◌,
}
use yunxiao_workflow_agent.Runtime.{Time}
use yunxiao_workflow_agent.Effects.Tables.{fits, fits_null}
use yunxiao_workflow_agent.Orchestrator.Text.{first_chars}
use yunxiao_workflow_agent.Orchestrator.Session.{unique_violation, raised, Outcome, value, raise}

pub record Task : Type 0 where
  pub task_id : String
  pub event_id : String
  pub event_type : String
  pub workflow_type : String
  pub status : String
  pub trace_id : String
  pub context_snapshot_id : Option String
  pub error_message : Option String
  pub created_at : Time
  pub updated_at : Time

pub record Snapshot : Type 0 where
  pub snapshot_id : String
  pub event_id : String
  pub context_type : String
  pub subject_type : String
  pub subject_id : String
  pub project_id : Option String
  pub work_item_id : Option String
  pub context_json : String
  pub source_refs_json : String
  pub created_at : Time

pub record Run : Type 0 where
  pub run_id : String
  pub task_id : String
  pub event_id : String
  pub workflow_type : String
  pub agent_type : String
  pub status : String
  pub model : Option String
  pub input_snapshot_id : String
  pub started_at : Time
  pub finished_at : Option Time
  pub error_message : Option String
  pub raw_output_json : Option String
  pub updated_at : Time

pub record Artifact : Type 0 where
  pub artifact_id : String
  pub run_id : String
  pub event_id : String
  pub artifact_type : String
  pub artifact_json : String
  pub created_at : Time

pub record Action : Type 0 where
  pub action_id : String
  pub run_id : String
  pub event_id : String
  pub action_type : String
  pub target_type : String
  pub target_id : String
  pub payload_json : String
  pub status : String
  pub attempts : ℕ
  pub created_at : Time

pub record Tables : Type 0 where
  pub tasks : List Task
  pub snapshots : List Snapshot
  pub runs : List Run
  pub artifacts : List Artifact
  pub actions : List Action

-- What the unique keys compare.
abbrev pub has_task_id : String → Task → Bool
has_task_id id t = t.task_id == id

abbrev pub is_for : String × String → Task → Bool
is_for (event_id, workflow_type) t = t.event_id == event_id && t.workflow_type == workflow_type

abbrev pub has_snapshot_id : String → Snapshot → Bool
has_snapshot_id id s = s.snapshot_id == id

abbrev pub has_run_id : String → Run → Bool
has_run_id id r = r.run_id == id

abbrev pub of_task : String → Run → Bool
of_task id r = r.task_id == id

abbrev pub has_artifact_id : String → Artifact → Bool
has_artifact_id id a = a.artifact_id == id

abbrev pub has_action_id : String → Action → Bool
has_action_id id a = a.action_id == id

-- An INSERT: the columns within their widths, no row with a unique key, the foreign keys' rows there.
unfoldable pub inserted : Bool → Bool → Bool → Tables → Tables → Outcome Unit × Tables
inserted wide_enough is_new has_parents t u =
    if not wide_enough
    then (raise (raised "value too long"), t)
    else if not is_new
    then (raise unique_violation, t)
    else if has_parents
    then (value tt, u)
    else (raise (raised "violates foreign key constraint"), t)

unfoldable pub insert_task : Task → Tables → Outcome Unit × Tables
unfolding inserted
insert_task r t =
    inserted
      (fits 128 r.task_id
        && fits 128 r.event_id
        && fits 128 r.event_type
        && fits 64 r.workflow_type
        && fits 128 r.trace_id)
      (not (any (has_task_id r.task_id) t.tasks)
        && not (any (is_for (r.event_id, r.workflow_type)) t.tasks))
      true t (record t { tasks = r ∷ t.tasks })

unfoldable pub insert_snapshot : Snapshot → Tables → Outcome Unit × Tables
unfolding inserted
insert_snapshot r t =
    inserted
      (fits 128 r.snapshot_id
        && fits 128 r.event_id
        && fits 64 r.context_type
        && fits 64 r.subject_type
        && fits 255 r.subject_id
        && fits_null 128 r.project_id
        && fits_null 128 r.work_item_id)
      (not (any (has_snapshot_id r.snapshot_id) t.snapshots)) true t
      (record t { snapshots = r ∷ t.snapshots })

unfoldable pub insert_run : Run → Tables → Outcome Unit × Tables
unfolding inserted
insert_run r t =
    inserted
      (fits 128 r.run_id
        && fits 128 r.task_id
        && fits 128 r.event_id
        && fits 64 r.workflow_type
        && fits 64 r.agent_type
        && fits_null 128 r.model
        && fits 128 r.input_snapshot_id)
      (not (any (has_run_id r.run_id) t.runs))
      (any (has_task_id r.task_id) t.tasks && any (has_snapshot_id r.input_snapshot_id) t.snapshots)
      t (record t { runs = r ∷ t.runs })

unfoldable pub insert_artifact : Artifact → Tables → Outcome Unit × Tables
unfolding inserted
insert_artifact r t =
    inserted
      (fits 128 r.artifact_id
        && fits 128 r.run_id
        && fits 128 r.event_id
        && fits 64 r.artifact_type)
      (not (any (has_artifact_id r.artifact_id) t.artifacts)) (any (has_run_id r.run_id) t.runs) t
      (record t { artifacts = r ∷ t.artifacts })

unfoldable pub insert_action : Action → Tables → Outcome Unit × Tables
unfolding inserted
insert_action r t =
    inserted
      (fits 128 r.action_id
        && fits 128 r.run_id
        && fits 128 r.event_id
        && fits 64 r.action_type
        && fits 64 r.target_type
        && fits 255 r.target_id)
      (not (any (has_action_id r.action_id) t.actions)) (any (has_run_id r.run_id) t.runs) t
      (record t { actions = r ∷ t.actions })

-- UPDATE ... WHERE ...
unfoldable pub update_where : {A : Type 0} → (A → Bool) → (A → A) → List A → List A
update_where p f [] = []
update_where p f (x ∷ xs) = (if p x then f x else x) ∷ update_where p f xs

-- SELECT task_id FROM workflow_task WHERE event_id = ... AND workflow_type = ...
unfoldable pub find_task : String × String → List Task → Option String
find_task key [] = none
find_task key (t ∷ tasks) = if is_for key t then some t.task_id else find_task key tasks

abbrev pub task_succeeded : String → Time → Task → Task
task_succeeded snapshot_id now t = record t {
  status = "succeeded";
  context_snapshot_id = some snapshot_id;
  updated_at = now;
}

abbrev pub task_failed : String → Time → Task → Task
task_failed error_message now t = record t {
  status = "failed";
  error_message = some (first_chars 4000 error_message);
  updated_at = now;
}

abbrev pub run_succeeded : String → Time → Run → Run
run_succeeded raw_output now r = record r {
  status = "succeeded";
  finished_at = some now;
  raw_output_json = some raw_output;
  updated_at = now;
}

abbrev pub run_failed : String → Time → Run → Run
run_failed error_message now r = record r {
  status = "failed";
  finished_at = some now;
  error_message = some (first_chars 4000 error_message);
  updated_at = now;
}
