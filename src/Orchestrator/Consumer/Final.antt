-- ===== src/Orchestrator/Consumer/Final.antt =====
-- `handle_message` of orchestrator-service/app/consumer.py commits no task and no run that has not ended.
use yunxiao_workflow_agent.Base.{String, Bool, true, false, Option, none, some, List, [], ◌∷◌}
use yunxiao_workflow_agent.Effects.{later}
use yunxiao_workflow_agent.Orchestrator.Registry.{EventRoute, resolve_event_route}
use yunxiao_workflow_agent.Orchestrator.Session.{
  Exc, exc_text, Outcome, value, raise, Session, Py, return, ◌>>=◌, raising, settle, ack, nack,
  get_run_id,
}
use yunxiao_workflow_agent.Orchestrator.Session.Committed.{
  Anything, next-Leaves, rescue-Leaves, settle-Leaves, raising-Leaves, postgres_connection-Leaves,
}
use yunxiao_workflow_agent.Orchestrator.Consumer.Statements.{Tables}
use yunxiao_workflow_agent.Orchestrator.Consumer.Rows.{Incoming, AgentResult}
use yunxiao_workflow_agent.Orchestrator.Consumer.Ends.{
  IsEnded, IsOpen, IsRunning, Opened, Opened-IsOpen, IsOpen-IsRunning,
}
use yunxiao_workflow_agent.Orchestrator.Consumer.{
  Parts, Done, early, finished, create_workflow_task, save_context_snapshot, create_agent_run,
  save_agent_artifact, save_each_action, mark_agent_run_failed, mark_task_failed,
  mark_task_succeeded, mark_agent_run_succeeded, after_agent, run_workflow, with_task, acknowledge,
  fail_run, consume_failed, handle_event, handle_message, consume, raw_output, context_snapshot,
}
use yunxiao_workflow_agent.Orchestrator.Consumer.Transitions.{
  Ends, Leads, create_workflow_task-Ends, save_context_snapshot-Ends, create_agent_run-Ends,
  save_agent_artifact-Ends, save_each_action-Ends, run_failed-Ends, run_succeeded-Ends,
  task_failed-Ends, task_succeeded-Ends,
}

abbrev Settles : {A : Type 0} → Py Tables A → Type 0
Settles m = (s : Session Tables) → IsEnded s.committed → Ends Anything (m s)

Ends-IsEnded :
    {A : Type 0} (r : Outcome A × Session Tables) → Ends Anything r → IsEnded r.1.committed
Ends-IsEnded (value a, s) (h, _) = h
Ends-IsEnded (raise e, s) h = h

module _ (parts : Parts) where
  after_agent-Ends :
      (event : Incoming) (id snapshot_id run_id : String) (r : Outcome AgentResult)
      → Leads (IsRunning id run_id) IsEnded (after_agent parts event id snapshot_id run_id r)
  unfolding after_agent
  after_agent-Ends event id snapshot_id run_id (raise e) s h j =
      next-Leaves IsEnded (λ _. IsOpen id) (λ _. IsEnded) _
        (mark_agent_run_failed parts run_id (exc_text e) s)
        (run_failed-Ends parts id run_id (exc_text e) s h j)
        (λ _ t k f.
          next-Leaves IsEnded (λ _. IsEnded) (λ _. IsEnded) _
            (mark_task_failed parts id (exc_text e) t)
            (task_failed-Ends parts id (exc_text e) t k f)
            (λ _ u l g.
              next-Leaves IsEnded (λ _. IsEnded) (λ _. IsEnded) (λ _. return early) (settle ack u)
                (settle-Leaves IsEnded IsEnded ack u l g) (λ _ v m n. (m, n))))
  after_agent-Ends event id snapshot_id run_id (value result) s h j =
      let R = IsRunning id run_id in
      next-Leaves IsEnded (λ _. R) (λ _. IsEnded) _
        (save_agent_artifact parts run_id event result s)
        (save_agent_artifact-Ends parts id run_id event result s h j)
        (λ artifact_id t k f.
          let t' = record t { choices = later t.choices } in
          next-Leaves IsEnded (λ _. R) (λ _. IsEnded) _
            (save_each_action parts run_id event (t.choices 0).time result.actions t')
            (save_each_action-Ends parts id run_id event (t.choices 0).time result.actions t' k f)
            (λ ids u l g.
              let output = raw_output parts artifact_id result.artifact_type ids in
              next-Leaves IsEnded (λ _. IsOpen id) (λ _. IsEnded) _
                (mark_agent_run_succeeded parts run_id output u)
                (run_succeeded-Ends parts id run_id output u l g)
                (λ _ v m n.
                  next-Leaves IsEnded (λ _. IsEnded) (λ _. IsEnded) (λ _. return finished)
                    (mark_task_succeeded parts id snapshot_id v)
                    (task_succeeded-Ends parts id snapshot_id v m n) (λ _ x o p. (o, p)))))

  run_workflow-Ends :
      (event : Incoming) (route : EventRoute) (id : String)
      → Leads (IsOpen id) IsEnded (run_workflow parts event route id)
  unfolding run_workflow
  run_workflow-Ends event route id s h j =
      next-Leaves IsEnded (λ _. IsOpen id) (λ _. IsEnded) _
        (raising (parts.build_context event route) s)
        (raising-Leaves IsEnded (IsOpen id) (parts.build_context event route) s h j)
        (λ c t k f.
          next-Leaves IsEnded (λ _. IsOpen id) (λ _. IsEnded) _
            (save_context_snapshot parts event c t)
            (save_context_snapshot-Ends parts event c id t k f)
            (λ snapshot_id u l g.
              next-Leaves IsEnded (IsRunning id) (λ _. IsEnded) _
                (create_agent_run parts id event route snapshot_id u)
                (create_agent_run-Ends parts id event route snapshot_id u l g)
                (λ run_id v m n.
                  after_agent-Ends event id snapshot_id run_id
                    (parts.run_agent route.agent_type (context_snapshot parts snapshot_id c))
                    (record v { run_id = some run_id }) m n)))

  with_task-Ends :
      (event : Incoming) (route : EventRoute) (r : String × Bool)
      → Leads (Opened r) IsEnded (with_task parts event route r)
  unfolding with_task
  with_task-Ends event route (id, true) s h j = run_workflow-Ends event route id s h j
  with_task-Ends event route (id, false) s h j =
      next-Leaves IsEnded (λ _. IsEnded) (λ _. IsEnded) (λ _. return early) (settle ack s)
        (settle-Leaves IsEnded IsEnded ack s h j) (λ _ t k f. (k, f))

  acknowledge-Ends : (d : Done) → Settles (acknowledge parts d)
  acknowledge-Ends early s h = (h, tt)
  acknowledge-Ends finished s h = settle-Leaves IsEnded (λ _. Unit) ack s h tt

  fail_run-Ends :
      (text id : String) (run_id : Option String)
      → Leads (IsOpen id) (IsOpen id) (fail_run parts text run_id)
  fail_run-Ends text id none s h j = (h, j)
  fail_run-Ends text id (some run_id) s h j =
      run_failed-Ends parts id run_id text s h (IsOpen-IsRunning id run_id s.working j)

  recovered-Ends :
      (event : Incoming) (route : EventRoute) (e : Exc)
      → Leads IsEnded IsEnded (
          create_workflow_task event route.workflow_type >>= λ (task_id, created).
          get_run_id >>= λ run_id.
          fail_run parts (exc_text e) run_id >>= λ _. mark_task_failed parts task_id (exc_text e))
  recovered-Ends event route e s h j =
      next-Leaves IsEnded Opened (λ _. IsEnded) _ (create_workflow_task event route.workflow_type s)
        (create_workflow_task-Ends event route.workflow_type s h j)
        (λ r t k f.
          next-Leaves IsEnded (λ _. IsOpen r.0) (λ _. IsEnded) _
            (fail_run parts (exc_text e) t.run_id t)
            (fail_run-Ends (exc_text e) r.0 t.run_id t k (Opened-IsOpen r t.working f))
            (λ _. task_failed-Ends parts r.0 (exc_text e)))

  consume_failed-Ends :
      (event : Incoming) (route : EventRoute) (e : Exc)
      → Settles (consume_failed parts event route e)
  unfolding consume_failed
  consume_failed-Ends event route e s h =
      next-Leaves IsEnded Anything Anything (λ _. settle nack) _
        (rescue-Leaves IsEnded Anything (λ _. return tt) _
          (postgres_connection-Leaves IsEnded _ s h (recovered-Ends event route e))
          (λ _ t k. (k, tt)))
        (λ _ t k _. settle-Leaves IsEnded (λ _. Unit) nack t k tt)

  handle_event-Ends :
      (event : Incoming) (route : EventRoute) → Settles (handle_event parts event route)
  unfolding handle_event
  handle_event-Ends event route s h =
      let s' = record s { run_id = none } in
      rescue-Leaves IsEnded Anything (consume_failed parts event route) _
        (next-Leaves IsEnded Anything Anything (acknowledge parts) _
          (postgres_connection-Leaves IsEnded _ s' h (λ t k j.
            next-Leaves IsEnded Opened (λ _. IsEnded) (with_task parts event route)
              (create_workflow_task event route.workflow_type t)
              (create_workflow_task-Ends event route.workflow_type t k j)
              (with_task-Ends event route)))
          (λ d t k _. acknowledge-Ends d t k))
        (consume_failed-Ends event route)

  handle_message-Ends : (message : Outcome Incoming) → Settles (handle_message parts message)
  unfolding handle_message
  handle_message-Ends (raise e) s h = h
  handle_message-Ends (value event) s h =
      handle_event-Ends event (resolve_event_route event.event_type) s h

-- Whatever messages come, in whatever order, whatever the builders of contexts and the agents return
-- or raise, and whatever the database and the broker do: if every committed task and run has the
-- status succeeded or failed, then this holds of the committed tables afterwards.
pub consume-IsEnded :
    (parts : Parts) (messages : List (Outcome Incoming)) (s : Session Tables)
    → IsEnded s.committed
    → IsEnded (consume parts messages s).committed
unfolding consume
consume-IsEnded parts [] s h = h
consume-IsEnded parts (message ∷ messages) s h =
    consume-IsEnded parts messages (handle_message parts message s).1
      (Ends-IsEnded (handle_message parts message s) (handle_message-Ends parts message s h))
