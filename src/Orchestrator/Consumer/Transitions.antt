-- ===== src/Orchestrator/Consumer/Transitions.antt =====
-- What the functions of orchestrator-service/app/repositories.py do to the task and the run in hand.
use yunxiao_workflow_agent.Base.{String, true, refl, Option, none, some, List, [], ◌∷◌}
use yunxiao_workflow_agent.Json.{Json}
use yunxiao_workflow_agent.Runtime.{Time}
use yunxiao_workflow_agent.Effects.{later}
use yunxiao_workflow_agent.Orchestrator.Registry.{EventRoute}
use yunxiao_workflow_agent.Orchestrator.Session.{
  Exc, unique_violation, raised, Outcome, Session, Py, return, execute, rollback, raising,
}
use yunxiao_workflow_agent.Orchestrator.Session.Committed.{
  Leaves, Gives, next-Leaves, rescue-Leaves, execute-Leaves, rollback-Leaves, raising-Leaves,
}
use yunxiao_workflow_agent.Orchestrator.Consumer.Statements.{
  Task, Run, Tables, insert_task, insert_snapshot, insert_run, insert_artifact, insert_action,
  find_task,
}
use yunxiao_workflow_agent.Orchestrator.Consumer.Rows.{
  Incoming, AgentAction, AgentResult, Context, new_task, new_snapshot, new_run, new_artifact,
  new_action,
}
use yunxiao_workflow_agent.Orchestrator.Consumer.Ends.{
  IsEnd, IsEnded, IsOpen, IsRunning, Opened, end_run-IsOpen, end_task-IsEnded, insert_task-Gives,
  insert_run-Gives, insert_snapshot-Gives, insert_artifact-Gives, insert_action-Gives,
}
use yunxiao_workflow_agent.Orchestrator.Consumer.{
  Parts, found_task, reread, create_workflow_task, save_context_snapshot, create_agent_run,
  save_agent_artifact, save_each_action, update_run, update_task, mark_agent_run_failed,
  mark_task_failed, mark_task_succeeded, mark_agent_run_succeeded,
}

abbrev pub Ends : {A : Type 0} → (A → Tables → Type 0) → Outcome A × Session Tables → Type 0
Ends = Leaves IsEnded

-- A step that leaves the one property of the open transaction where it finds the other.
abbrev pub Leads : {A : Type 0} → (Tables → Type 0) → (Tables → Type 0) → Py Tables A → Type 0
Leads R Q m = (s : Session Tables) → IsEnded s.committed → R s.working → Ends (λ _. Q) (m s)

found_task-Gives :
    (o : Option String) (t : Tables) → IsEnded t → Gives IsEnded Opened (found_task o, t)
found_task-Gives none t h = tt
found_task-Gives (some id) t h = h

reread-Ends :
    (key : String × String) (e : Exc) (s : Session Tables)
    → IsEnded s.committed
    → Ends Opened (reread key e s)
reread-Ends key (raised text) s h = h
reread-Ends key unique_violation s h =
    next-Leaves IsEnded (λ _. IsEnded) Opened _ (rollback s) (rollback-Leaves IsEnded s h)
      (λ _ t k j.
        execute-Leaves IsEnded Opened (λ u. (found_task (find_task key u.tasks), u)) t k
          (found_task-Gives (find_task key t.working.tasks) t.working j))

pub create_workflow_task-Ends :
    (event : Incoming) (workflow_type : String) (s : Session Tables)
    → IsEnded s.committed
    → IsEnded s.working
    → Ends Opened (create_workflow_task event workflow_type s)
create_workflow_task-Ends event workflow_type s h j =
    let row = new_task event workflow_type (s.choices 0).uuid (s.choices 1).time in
    let s' = record s { choices = later (later s.choices) } in
    rescue-Leaves IsEnded Opened (reread (event.event_id, workflow_type)) _
      (next-Leaves IsEnded (λ _. IsOpen row.task_id) Opened (λ _. return (row.task_id, true))
        (execute (insert_task row) s')
        (execute-Leaves IsEnded (λ _. IsOpen row.task_id) (insert_task row) s' h
          (insert_task-Gives IsEnded row s.working j))
        (λ _ t k fresh. (k, fresh)))
      (reread-Ends (event.event_id, workflow_type))

module _ (parts : Parts) where
  pub save_context_snapshot-Ends :
      (event : Incoming) (c : Context) (id : String)
      → Leads (IsOpen id) (IsOpen id) (save_context_snapshot parts event c)
  save_context_snapshot-Ends event c id s h j =
      let s' = record s { choices = later (later s.choices) } in
      next-Leaves IsEnded (λ _. IsOpen id) (λ _. IsOpen id) _ (raising (parts.dumps c.context) s')
        (raising-Leaves IsEnded (IsOpen id) (parts.dumps c.context) s' h j)
        (λ context t k f.
          next-Leaves IsEnded (λ _. IsOpen id) (λ _. IsOpen id) _
            (raising (parts.dumps c.source_refs) t)
            (raising-Leaves IsEnded (IsOpen id) (parts.dumps c.source_refs) t k f)
            (λ refs u l g.
              let row = new_snapshot event c (s.choices 0).uuid context refs (s.choices 1).time in
              next-Leaves IsEnded (λ _. IsOpen id) (λ _. IsOpen id) (λ _. return row.snapshot_id)
                (execute (insert_snapshot row) u)
                (execute-Leaves IsEnded (λ _. IsOpen id) (insert_snapshot row) u l
                  (insert_snapshot-Gives IsEnded id row u.working g))
                (λ _ v m n. (m, n))))

  pub create_agent_run-Ends :
      (id : String) (event : Incoming) (route : EventRoute) (snapshot_id : String)
      (s : Session Tables)
      → IsEnded s.committed
      → IsOpen id s.working
      → Ends (IsRunning id) (create_agent_run parts id event route snapshot_id s)
  create_agent_run-Ends id event route snapshot_id s h j =
      let row = new_run id event route snapshot_id (s.choices 0).uuid (s.choices 1).time in
      let s' = record s { choices = later (later s.choices) } in
      next-Leaves IsEnded (λ _. IsRunning id row.run_id) (IsRunning id) (λ _. return row.run_id)
        (execute (insert_run row) s')
        (execute-Leaves IsEnded (λ _. IsRunning id row.run_id) (insert_run row) s' h
          (insert_run-Gives IsEnded id row s.working j))
        (λ _ t k running. (k, running))

  pub save_agent_artifact-Ends :
      (id run_id : String) (event : Incoming) (result : AgentResult)
      → Leads
          (IsRunning id run_id)
          (IsRunning id run_id)
          (save_agent_artifact parts run_id event result)
  save_agent_artifact-Ends id run_id event result s h j =
      let s' = record s { choices = later (later s.choices) } in
      let R = IsRunning id run_id in
      next-Leaves IsEnded (λ _. R) (λ _. R) _ (raising (parts.dumps result.artifact) s')
        (raising-Leaves IsEnded R (parts.dumps result.artifact) s' h j)
        (λ json t k f.
          let row = new_artifact run_id event result (s.choices 0).uuid json (s.choices 1).time in
          next-Leaves IsEnded (λ _. R) (λ _. R) (λ _. return row.artifact_id)
            (execute (insert_artifact row) t)
            (execute-Leaves IsEnded (λ _. R) (insert_artifact row) t k
              (insert_artifact-Gives IsEnded id run_id row t.working f))
            (λ _ u l g. (l, g)))

  pub save_each_action-Ends :
      (id run_id : String) (event : Incoming) (time : Time) (actions : List AgentAction)
      → Leads
          (IsRunning id run_id)
          (IsRunning id run_id)
          (save_each_action parts run_id event time actions)
  unfolding save_each_action
  save_each_action-Ends id run_id event time [] s h j = (h, j)
  save_each_action-Ends id run_id event time (action ∷ actions) s h j =
      let s' = record s { choices = later s.choices } in
      let R = IsRunning id run_id in
      next-Leaves IsEnded (λ _. R) (λ _. R) _ (raising (parts.dumps action.payload) s')
        (raising-Leaves IsEnded R (parts.dumps action.payload) s' h j)
        (λ json t k f.
          let row = new_action run_id event action (s.choices 0).uuid json time in
          next-Leaves IsEnded (λ _. R) (λ _. R) _ (execute (insert_action row) t)
            (execute-Leaves IsEnded (λ _. R) (insert_action row) t k
              (insert_action-Gives IsEnded id run_id row t.working f))
            (λ _ u l g.
              next-Leaves IsEnded (λ _. R) (λ _. R) _
                (save_each_action parts run_id event time actions u)
                (save_each_action-Ends id run_id event time actions u l g) (λ ids v m n. (m, n))))

  update_run-Ends :
      (id run_id : String) (f : Run → Run)
      → ((r : Run) → IsEnd (f r).status)
      → Leads (IsRunning id run_id) (IsOpen id) (update_run parts run_id f)
  update_run-Ends id run_id f ends s h j =
      execute-Leaves IsEnded (λ _. IsOpen id) _ s h (end_run-IsOpen id run_id f s.working ends j)

  update_task-Ends :
      (id : String) (f : Task → Task)
      → ((k : Task) → IsEnd (f k).status)
      → Leads (IsOpen id) IsEnded (update_task parts id f)
  update_task-Ends id f ends s h j =
      execute-Leaves IsEnded (λ _. IsEnded) _ s h (end_task-IsEnded id f s.working ends j)

  pub run_failed-Ends :
      (id run_id text : String)
      → Leads (IsRunning id run_id) (IsOpen id) (mark_agent_run_failed parts run_id text)
  run_failed-Ends id run_id text s h j =
      update_run-Ends id run_id _ (λ r. refl) (record s { choices = later s.choices }) h j

  pub run_succeeded-Ends :
      (id run_id : String) (output : Json)
      → Leads (IsRunning id run_id) (IsOpen id) (mark_agent_run_succeeded parts run_id output)
  run_succeeded-Ends id run_id output s h j =
      let s' = record s { choices = later s.choices } in
      next-Leaves IsEnded (λ _. IsRunning id run_id) (λ _. IsOpen id) _
        (raising (parts.dumps output) s')
        (raising-Leaves IsEnded (IsRunning id run_id) (parts.dumps output) s' h j)
        (λ text. update_run-Ends id run_id _ (λ r. refl))

  pub task_failed-Ends :
      (id text : String) → Leads (IsOpen id) IsEnded (mark_task_failed parts id text)
  task_failed-Ends id text s h j =
      update_task-Ends id _ (λ k. refl) (record s { choices = later s.choices }) h j

  pub task_succeeded-Ends :
      (id snapshot_id : String)
      → Leads (IsOpen id) IsEnded (mark_task_succeeded parts id snapshot_id)
  task_succeeded-Ends id snapshot_id s h j =
      update_task-Ends id _ (λ k. refl) (record s { choices = later s.choices }) h j
