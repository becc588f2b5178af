-- ===== src/Orchestrator/Consumer/Quiet.antt =====
-- The functions of orchestrator-service/app/repositories.py settle no message.
use yunxiao_workflow_agent.Base.{◌++◌, String, true, Option, none, some, List, [], ◌∷◌}
use yunxiao_workflow_agent.Json.{Json}
use yunxiao_workflow_agent.Runtime.{Time}
use yunxiao_workflow_agent.Orchestrator.Registry.{EventRoute}
use yunxiao_workflow_agent.Orchestrator.Session.{
  Exc, unique_violation, raised, exc_text, value, return, ◌>>=◌, execute, rollback, raising,
  Settlement, get_run_id, now, uuid4,
}
use yunxiao_workflow_agent.Orchestrator.Session.Silent.{
  IsSilent, next-IsSilent, try-IsSilent, execute-IsSilent, rollback-IsSilent, raising-IsSilent,
  now-IsSilent, uuid4-IsSilent, return-IsSilent,
}
use yunxiao_workflow_agent.Orchestrator.Consumer.Statements.{
  Task, Run, insert_task, insert_snapshot, insert_run, insert_artifact, insert_action, update_where,
  find_task, has_task_id, has_run_id, task_succeeded, task_failed, run_succeeded, run_failed,
}
use yunxiao_workflow_agent.Orchestrator.Consumer.Rows.{
  Incoming, AgentAction, AgentResult, Context, new_task, new_snapshot, new_run, new_artifact,
  new_action,
}
use yunxiao_workflow_agent.Orchestrator.Consumer.{
  Parts, found_task, update_run, update_task, reread, create_workflow_task, save_context_snapshot,
  create_agent_run, save_agent_artifact, save_each_action, mark_agent_run_failed, mark_task_failed,
  mark_task_succeeded, mark_agent_run_succeeded, fail_run,
}

module _ (parts : Parts) (settled : List Settlement) where
  reread-IsSilent : (key : String × String) (e : Exc) → IsSilent settled (reread key e)
  reread-IsSilent key (raised text) = λ s h. h
  reread-IsSilent key unique_violation =
      next-IsSilent settled rollback _ (rollback-IsSilent settled)
        (λ _. execute-IsSilent settled (λ t. (found_task (find_task key t.tasks), t)))

  pub create_workflow_task-IsSilent :
      (event : Incoming) (workflow_type : String)
      → IsSilent settled (create_workflow_task event workflow_type)
  create_workflow_task-IsSilent event workflow_type =
      next-IsSilent settled uuid4 _ (uuid4-IsSilent settled) (λ uuid.
        next-IsSilent settled now _ (now-IsSilent settled) (λ time.
          try-IsSilent settled _ (reread (event.event_id, workflow_type))
            (next-IsSilent settled (execute (insert_task (new_task event workflow_type uuid time)))
              (λ _. return ("task_" ++ uuid, true))
              (execute-IsSilent settled (insert_task (new_task event workflow_type uuid time)))
              (λ _ s h. h))
            (reread-IsSilent (event.event_id, workflow_type))))

  pub save_context_snapshot-IsSilent :
      (event : Incoming) (c : Context) → IsSilent settled (save_context_snapshot parts event c)
  save_context_snapshot-IsSilent event c =
      next-IsSilent settled uuid4 _ (uuid4-IsSilent settled) (λ uuid.
        next-IsSilent settled now _ (now-IsSilent settled) (λ time.
          next-IsSilent settled (raising (parts.dumps c.context)) _ (raising-IsSilent settled _)
            (λ context.
              next-IsSilent settled (raising (parts.dumps c.source_refs)) _
                (raising-IsSilent settled _)
                (λ refs.
                  next-IsSilent settled
                    (execute (insert_snapshot (new_snapshot event c uuid context refs time)))
                    (λ _. return ("snap_" ++ uuid))
                    (execute-IsSilent settled
                      (insert_snapshot (new_snapshot event c uuid context refs time)))
                    (λ _ s h. h)))))

  pub create_agent_run-IsSilent :
      (task_id : String) (event : Incoming) (route : EventRoute) (snapshot_id : String)
      → IsSilent settled (create_agent_run parts task_id event route snapshot_id)
  create_agent_run-IsSilent task_id event route snapshot_id =
      next-IsSilent settled uuid4 _ (uuid4-IsSilent settled) (λ uuid.
        next-IsSilent settled now _ (now-IsSilent settled) (λ time.
          next-IsSilent settled
            (execute (insert_run (new_run task_id event route snapshot_id uuid time)))
            (λ _. return ("run_" ++ uuid))
            (execute-IsSilent settled
              (insert_run (new_run task_id event route snapshot_id uuid time)))
            (λ _ s h. h)))

  pub save_agent_artifact-IsSilent :
      (run_id : String) (event : Incoming) (result : AgentResult)
      → IsSilent settled (save_agent_artifact parts run_id event result)
  save_agent_artifact-IsSilent run_id event result =
      next-IsSilent settled uuid4 _ (uuid4-IsSilent settled) (λ uuid.
        next-IsSilent settled now _ (now-IsSilent settled) (λ time.
          next-IsSilent settled (raising (parts.dumps result.artifact)) _
            (raising-IsSilent settled _)
            (λ json.
              next-IsSilent settled
                (execute (insert_artifact (new_artifact run_id event result uuid json time)))
                (λ _. return ("artifact_" ++ uuid))
                (execute-IsSilent settled
                  (insert_artifact (new_artifact run_id event result uuid json time)))
                (λ _ s h. h))))

  pub save_each_action-IsSilent :
      (run_id : String) (event : Incoming) (time : Time) (actions : List AgentAction)
      → IsSilent settled (save_each_action parts run_id event time actions)
  unfolding save_each_action
  save_each_action-IsSilent run_id event time [] = λ s h. h
  save_each_action-IsSilent run_id event time (action ∷ actions) =
      next-IsSilent settled uuid4 _ (uuid4-IsSilent settled) (λ uuid.
        next-IsSilent settled (raising (parts.dumps action.payload)) _ (raising-IsSilent settled _)
          (λ json.
            next-IsSilent settled
              (execute (insert_action (new_action run_id event action uuid json time))) _
              (execute-IsSilent settled
                (insert_action (new_action run_id event action uuid json time)))
              (λ _.
                next-IsSilent settled (save_each_action parts run_id event time actions)
                  (λ ids. return (("action_" ++ uuid) ∷ ids))
                  (save_each_action-IsSilent run_id event time actions) (λ ids s h. h))))

  update_run-IsSilent :
      (run_id : String) (f : Run → Run) → IsSilent settled (update_run parts run_id f)
  update_run-IsSilent run_id f =
      execute-IsSilent settled
        (λ t. (value tt, record t { runs = update_where (has_run_id run_id) f t.runs }))

  update_task-IsSilent :
      (task_id : String) (f : Task → Task) → IsSilent settled (update_task parts task_id f)
  update_task-IsSilent task_id f =
      execute-IsSilent settled
        (λ t. (value tt, record t { tasks = update_where (has_task_id task_id) f t.tasks }))

  pub run_succeeded-IsSilent :
      (run_id : String) (output : Json)
      → IsSilent settled (mark_agent_run_succeeded parts run_id output)
  run_succeeded-IsSilent run_id output = next-IsSilent settled now _ (now-IsSilent settled) (λ time.
      next-IsSilent settled (raising (parts.dumps output)) _ (raising-IsSilent settled _)
        (λ text. update_run-IsSilent run_id (run_succeeded text time)))

  pub run_failed-IsSilent :
      (run_id text : String) → IsSilent settled (mark_agent_run_failed parts run_id text)
  run_failed-IsSilent run_id text =
      next-IsSilent settled now _ (now-IsSilent settled)
        (λ time. update_run-IsSilent run_id (run_failed text time))

  pub task_failed-IsSilent :
      (task_id text : String) → IsSilent settled (mark_task_failed parts task_id text)
  task_failed-IsSilent task_id text =
      next-IsSilent settled now _ (now-IsSilent settled)
        (λ time. update_task-IsSilent task_id (task_failed text time))

  pub task_succeeded-IsSilent :
      (task_id snapshot_id : String)
      → IsSilent settled (mark_task_succeeded parts task_id snapshot_id)
  task_succeeded-IsSilent task_id snapshot_id =
      next-IsSilent settled now _ (now-IsSilent settled)
        (λ time. update_task-IsSilent task_id (task_succeeded snapshot_id time))

  fail_run-IsSilent :
      (text : String) (run_id : Option String) → IsSilent settled (fail_run parts text run_id)
  fail_run-IsSilent text none = return-IsSilent settled tt
  fail_run-IsSilent text (some run_id) = run_failed-IsSilent run_id text

  pub recovered-IsSilent :
      (event : Incoming) (route : EventRoute) (e : Exc)
      → IsSilent settled (
          create_workflow_task event route.workflow_type >>= λ (task_id, created).
          get_run_id >>= λ run_id.
          fail_run parts (exc_text e) run_id >>= λ _. mark_task_failed parts task_id (exc_text e))
  recovered-IsSilent event route e =
      next-IsSilent settled (create_workflow_task event route.workflow_type) _
        (create_workflow_task-IsSilent event route.workflow_type)
        (λ r.
          next-IsSilent settled get_run_id _ (λ s h. h)
            (λ run_id.
              next-IsSilent settled (fail_run parts (exc_text e) run_id) _
                (fail_run-IsSilent (exc_text e) run_id)
                (λ _. task_failed-IsSilent r.0 (exc_text e))))
