-- ===== src/Orchestrator/Consumer/Steps.antt =====
-- The functions of orchestrator-service/app/repositories.py keep one run for each task, whatever fails.
use yunxiao_workflow_agent.Base.{String, Bool, true, ◌≡◌, refl, Option, none, some, List, [], ◌∷◌}
use yunxiao_workflow_agent.Json.{Json}
use yunxiao_workflow_agent.Runtime.{Time}
use yunxiao_workflow_agent.Effects.{later}
use yunxiao_workflow_agent.Orchestrator.Registry.{EventRoute}
use yunxiao_workflow_agent.Orchestrator.Session.{
  Exc, unique_violation, raised, Outcome, value, raise, Session, Py, return, next, execute,
  rollback, raising,
}
use yunxiao_workflow_agent.Orchestrator.Session.Invariant.{
  Holds, Ensures, Fine, Answers, next-Ensures, rescue-Ensures, execute-Ensures, rollback-Ensures,
}
use yunxiao_workflow_agent.Orchestrator.Consumer.Statements.{
  Task, Run, Tables, insert_task, insert_snapshot, insert_run, insert_artifact, insert_action,
  find_task, has_run_id, has_task_id,
}
use yunxiao_workflow_agent.Orchestrator.Consumer.Rows.{
  Incoming, AgentAction, AgentResult, Context, new_task, new_snapshot, new_run, new_artifact,
  new_action,
}
use yunxiao_workflow_agent.Orchestrator.Consumer.Once.{
  key_of, IsOnce, NoRun, insert_task-Answers, insert_snapshot-Answers, insert_run-Answers,
  insert_artifact-Answers, insert_action-Answers, update_tasks-IsOnce, update_runs-IsOnce,
}
use yunxiao_workflow_agent.Orchestrator.Consumer.{
  Parts, found_task, reread, create_workflow_task, save_context_snapshot, create_agent_run,
  save_agent_artifact, save_each_action, update_run, update_task, mark_agent_run_failed,
  mark_task_failed, mark_task_succeeded, mark_agent_run_succeeded,
}

abbrev pub Ok : {A : Type 0} → Outcome A × Session Tables → Type 0
Ok = Ensures IsOnce (Fine IsOnce)

-- A call that needs nothing but the invariant.
abbrev pub Keeps : {A : Type 0} → Py Tables A → Type 0
Keeps m = (s : Session Tables) → Holds IsOnce s → Ok (m s)

pub next-Ok :
    {A B : Type 0} (f : A → Py Tables B) (r : Outcome A × Session Tables)
    → Ok r
    → ((a : A) → Keeps (f a))
    → Ok (next f r)
next-Ok f r h go_on = next-Ensures IsOnce (Fine IsOnce) (Fine IsOnce) f r h (λ a s k _. go_on a s k)

-- A new task has no run.
abbrev pub Created : String × Bool → Tables → Type 0
Created (id, created) t = created ≡ true → NoRun id t

found_task-Answers :
    (o : Option String) (t : Tables) → IsOnce t → Answers IsOnce Created (found_task o, t)
found_task-Answers none t h = tt
found_task-Answers (some id) t h = (h, λ e. absurd (cc e))

reread-Ensures :
    (key : String × String) (e : Exc) (s : Session Tables)
    → Holds IsOnce s
    → Ensures IsOnce Created (reread key e s)
reread-Ensures key (raised text) s h = h
reread-Ensures key unique_violation s h =
    next-Ensures IsOnce (Fine IsOnce) Created _ (rollback s) (rollback-Ensures IsOnce s h)
      (λ _ t k _.
        execute-Ensures IsOnce Created (λ u. (found_task (find_task key u.tasks), u)) t k
          (found_task-Answers (find_task key t.working.tasks) t.working k.1))

pub create_workflow_task-Ensures :
    (event : Incoming) (workflow_type : String) (s : Session Tables)
    → Holds IsOnce s
    → Ensures IsOnce Created (create_workflow_task event workflow_type s)
create_workflow_task-Ensures event workflow_type s h =
    let row = new_task event workflow_type (s.choices 0).uuid (s.choices 1).time in
    let s' = record s { choices = later (later s.choices) } in
    rescue-Ensures IsOnce Created (reread (event.event_id, workflow_type)) _
      (next-Ensures IsOnce (λ _. NoRun row.task_id) Created (λ _. return (row.task_id, true))
        (execute (insert_task row) s')
        (execute-Ensures IsOnce (λ _. NoRun row.task_id) (insert_task row) s' h
          (insert_task-Answers row s.working h.1))
        (λ _ t k fresh. (k, λ _. fresh)))
      (reread-Ensures (event.event_id, workflow_type))

-- A pure step leaves the tables.
pub raising-Ensures :
    {A : Type 0} (R : Tables → Type 0) (r : Outcome A) (s : Session Tables)
    → Holds IsOnce s
    → R s.working
    → Ensures IsOnce (λ _. R) (raising r s)
raising-Ensures R (value a) s h k = (h, k)
raising-Ensures R (raise e) s h k = h

pub raising-Ok : {A : Type 0} (r : Outcome A) → Keeps (raising r)
raising-Ok (value a) s h = (h, tt)
raising-Ok (raise e) s h = h

module _ (parts : Parts) where
  pub save_context_snapshot-Ensures :
      (event : Incoming) (c : Context) (id : String) (s : Session Tables)
      → Holds IsOnce s
      → NoRun id s.working
      → Ensures IsOnce (λ _. NoRun id) (save_context_snapshot parts event c s)
  save_context_snapshot-Ensures event c id s h fresh =
      let s' = record s { choices = later (later s.choices) } in
      next-Ensures IsOnce (λ _. NoRun id) (λ _. NoRun id) _ (raising (parts.dumps c.context) s')
        (raising-Ensures (NoRun id) (parts.dumps c.context) s' h fresh)
        (λ context t k f.
          next-Ensures IsOnce (λ _. NoRun id) (λ _. NoRun id) _
            (raising (parts.dumps c.source_refs) t)
            (raising-Ensures (NoRun id) (parts.dumps c.source_refs) t k f)
            (λ refs u l g.
              let row = new_snapshot event c (s.choices 0).uuid context refs (s.choices 1).time in
              next-Ensures IsOnce (λ _. NoRun id) (λ _. NoRun id) (λ _. return row.snapshot_id)
                (execute (insert_snapshot row) u)
                (execute-Ensures IsOnce (λ _. NoRun id) (insert_snapshot row) u l
                  (insert_snapshot-Answers row id u.working l.1 g))
                (λ _ v m n. (m, n))))

  pub create_agent_run-Ok :
      (task_id : String) (event : Incoming) (route : EventRoute) (snapshot_id : String)
      (s : Session Tables)
      → Holds IsOnce s
      → NoRun task_id s.working
      → Ok (create_agent_run parts task_id event route snapshot_id s)
  create_agent_run-Ok task_id event route snapshot_id s h fresh =
      let row = new_run task_id event route snapshot_id (s.choices 0).uuid (s.choices 1).time in
      let s' = record s { choices = later (later s.choices) } in
      next-Ok (λ _. return row.run_id) (execute (insert_run row) s')
        (execute-Ensures IsOnce (Fine IsOnce) (insert_run row) s' h
          (insert_run-Answers row s.working h.1 fresh))
        (λ _ t k. (k, tt))

  pub save_agent_artifact-Ok :
      (run_id : String) (event : Incoming) (result : AgentResult)
      → Keeps (save_agent_artifact parts run_id event result)
  save_agent_artifact-Ok run_id event result s h =
      let s' = record s { choices = later (later s.choices) } in
      next-Ok _ (raising (parts.dumps result.artifact) s')
        (raising-Ok (parts.dumps result.artifact) s' h)
        (λ json t k.
          let row = new_artifact run_id event result (s.choices 0).uuid json (s.choices 1).time in
          next-Ok (λ _. return row.artifact_id) (execute (insert_artifact row) t)
            (execute-Ensures IsOnce (Fine IsOnce) (insert_artifact row) t k
              (insert_artifact-Answers row t.working k.1))
            (λ _ u l. (l, tt)))

  pub save_each_action-Ok :
      (run_id : String) (event : Incoming) (time : Time) (actions : List AgentAction)
      → Keeps (save_each_action parts run_id event time actions)
  unfolding save_each_action
  save_each_action-Ok run_id event time [] s h = (h, tt)
  save_each_action-Ok run_id event time (action ∷ actions) s h =
      let s' = record s { choices = later s.choices } in
      next-Ok _ (raising (parts.dumps action.payload) s')
        (raising-Ok (parts.dumps action.payload) s' h)
        (λ json t k.
          let row = new_action run_id event action (s.choices 0).uuid json time in
          next-Ok _ (execute (insert_action row) t)
            (execute-Ensures IsOnce (Fine IsOnce) (insert_action row) t k
              (insert_action-Answers row t.working k.1))
            (λ _ u l.
              next-Ok _ (save_each_action parts run_id event time actions u)
                (save_each_action-Ok run_id event time actions u l) (λ ids v m. (m, tt))))

  update_run-Ok :
      (run_id : String) (f : Run → Run)
      → ((x : Run) → (f x).task_id ≡ x.task_id)
      → Keeps (update_run parts run_id f)
  update_run-Ok run_id f same s h =
      execute-Ensures IsOnce (Fine IsOnce) _ s h
        (update_runs-IsOnce (has_run_id run_id) f s.working same h.1, tt)

  update_task-Ok :
      (task_id : String) (f : Task → Task)
      → ((x : Task) → (f x).task_id ≡ x.task_id)
      → ((x : Task) → key_of (f x) ≡ key_of x)
      → Keeps (update_task parts task_id f)
  update_task-Ok task_id f same same_key s h =
      execute-Ensures IsOnce (Fine IsOnce) _ s h
        (update_tasks-IsOnce (has_task_id task_id) f s.working same same_key h.1, tt)

  pub mark_agent_run_failed-Ok :
      (run_id text : String) → Keeps (mark_agent_run_failed parts run_id text)
  mark_agent_run_failed-Ok run_id text s h =
      update_run-Ok run_id _ (λ x. refl) (record s { choices = later s.choices }) h

  pub mark_task_failed-Ok : (task_id text : String) → Keeps (mark_task_failed parts task_id text)
  mark_task_failed-Ok task_id text s h =
      update_task-Ok task_id _ (λ x. refl) (λ x. refl) (record s { choices = later s.choices }) h

  pub mark_task_succeeded-Ok :
      (task_id snapshot_id : String) → Keeps (mark_task_succeeded parts task_id snapshot_id)
  mark_task_succeeded-Ok task_id snapshot_id s h =
      update_task-Ok task_id _ (λ x. refl) (λ x. refl) (record s { choices = later s.choices }) h

  pub mark_agent_run_succeeded-Ok :
      (run_id : String) (output : Json) → Keeps (mark_agent_run_succeeded parts run_id output)
  mark_agent_run_succeeded-Ok run_id output s h =
      let s' = record s { choices = later s.choices } in
      next-Ok _ (raising (parts.dumps output) s') (raising-Ok (parts.dumps output) s' h)
        (λ text. update_run-Ok run_id _ (λ x. refl))
