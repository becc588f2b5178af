-- ===== src/Orchestrator/Consumer/Exactly.antt =====
-- `handle_message` of orchestrator-service/app/consumer.py runs a workflow at most once for each event.
use yunxiao_workflow_agent.Base.{
  String, Bool, true, false, ◌≡◌, refl, Option, none, some, List, [], ◌∷◌,
}
use yunxiao_workflow_agent.Effects.{later}
use yunxiao_workflow_agent.Orchestrator.Registry.{EventRoute, resolve_event_route}
use yunxiao_workflow_agent.Orchestrator.Session.{
  get_run_id, Exc, exc_text, Outcome, value, raise, Session, return, ◌>>=◌, settle, ack, nack,
  raising,
}
use yunxiao_workflow_agent.Orchestrator.Session.Invariant.{
  Holds, Fine, next-Ensures, rescue-Ensures, settle-Ensures, postgres_connection-Ensures,
}
use yunxiao_workflow_agent.Orchestrator.Consumer.Statements.{Tables}
use yunxiao_workflow_agent.Orchestrator.Consumer.Rows.{Incoming, AgentResult}
use yunxiao_workflow_agent.Orchestrator.Consumer.Once.{IsOnce, NoRun}
use yunxiao_workflow_agent.Orchestrator.Consumer.{
  Parts, Done, early, finished, create_workflow_task, save_context_snapshot, create_agent_run,
  save_agent_artifact, save_each_action, mark_agent_run_failed, mark_task_failed,
  mark_task_succeeded, mark_agent_run_succeeded, after_agent, run_workflow, with_task, acknowledge,
  fail_run, consume_failed, handle_event, handle_message, consume, raw_output, context_snapshot,
}
use yunxiao_workflow_agent.Orchestrator.Consumer.Steps.{
  Ok, Keeps, Created, next-Ok, create_workflow_task-Ensures, save_context_snapshot-Ensures,
  create_agent_run-Ok, save_agent_artifact-Ok, save_each_action-Ok, mark_agent_run_failed-Ok,
  mark_task_failed-Ok, mark_task_succeeded-Ok, mark_agent_run_succeeded-Ok, raising-Ensures,
}

Ok-Holds : {A : Type 0} (r : Outcome A × Session Tables) → Ok r → Holds IsOnce r.1
Ok-Holds (value a, s) (h, _) = h
Ok-Holds (raise e, s) h = h

module _ (parts : Parts) where
  after_agent-Ok :
      (event : Incoming) (task_id snapshot_id run_id : String) (r : Outcome AgentResult)
      → Keeps (after_agent parts event task_id snapshot_id run_id r)
  unfolding after_agent
  after_agent-Ok event task_id snapshot_id run_id (raise e) s h =
      next-Ok _ (mark_agent_run_failed parts run_id (exc_text e) s)
        (mark_agent_run_failed-Ok parts run_id (exc_text e) s h)
        (λ _ t k.
          next-Ok _ (mark_task_failed parts task_id (exc_text e) t)
            (mark_task_failed-Ok parts task_id (exc_text e) t k)
            (λ _ u l.
              next-Ok (λ _. return early) (settle ack u) (settle-Ensures IsOnce ack u l)
                (λ _ v m. (m, tt))))
  after_agent-Ok event task_id snapshot_id run_id (value result) s h =
      next-Ok _ (save_agent_artifact parts run_id event result s)
        (save_agent_artifact-Ok parts run_id event result s h)
        (λ artifact_id t k.
          let t' = record t { choices = later t.choices } in
          next-Ok _ (save_each_action parts run_id event (t.choices 0).time result.actions t')
            (save_each_action-Ok parts run_id event (t.choices 0).time result.actions t' k)
            (λ ids u l.
              let output = raw_output parts artifact_id result.artifact_type ids in
              next-Ok _ (mark_agent_run_succeeded parts run_id output u)
                (mark_agent_run_succeeded-Ok parts run_id output u l)
                (λ _ v m.
                  next-Ok (λ _. return finished) (mark_task_succeeded parts task_id snapshot_id v)
                    (mark_task_succeeded-Ok parts task_id snapshot_id v m) (λ _ x n. (n, tt)))))

  run_workflow-Ok :
      (event : Incoming) (route : EventRoute) (task_id : String) (s : Session Tables)
      → Holds IsOnce s
      → NoRun task_id s.working
      → Ok (run_workflow parts event route task_id s)
  unfolding run_workflow
  run_workflow-Ok event route task_id s h fresh =
      next-Ensures IsOnce (λ _. NoRun task_id) (Fine IsOnce) _
        (raising (parts.build_context event route) s)
        (raising-Ensures (NoRun task_id) (parts.build_context event route) s h fresh)
        (λ c t k f.
          next-Ensures IsOnce (λ _. NoRun task_id) (Fine IsOnce) _
            (save_context_snapshot parts event c t)
            (save_context_snapshot-Ensures parts event c task_id t k f)
            (λ snapshot_id u l g.
              next-Ok _ (create_agent_run parts task_id event route snapshot_id u)
                (create_agent_run-Ok parts task_id event route snapshot_id u l g)
                (λ run_id v m.
                  after_agent-Ok event task_id snapshot_id run_id
                    (parts.run_agent route.agent_type (context_snapshot parts snapshot_id c))
                    (record v { run_id = some run_id }) m)))

  with_task-Ok :
      (event : Incoming) (route : EventRoute) (r : String × Bool) (s : Session Tables)
      → Holds IsOnce s
      → Created r s.working
      → Ok (with_task parts event route r s)
  unfolding with_task
  with_task-Ok event route (task_id, true) s h fresh =
      run_workflow-Ok event route task_id s h (fresh refl)
  with_task-Ok event route (task_id, false) s h fresh =
      next-Ok (λ _. return early) (settle ack s) (settle-Ensures IsOnce ack s h) (λ _ t k. (k, tt))

  acknowledge-Ok : (d : Done) → Keeps (acknowledge parts d)
  acknowledge-Ok early s h = (h, tt)
  acknowledge-Ok finished s h = settle-Ensures IsOnce ack s h

  fail_run-Ok : (text : String) (run_id : Option String) → Keeps (fail_run parts text run_id)
  fail_run-Ok text none s h = (h, tt)
  fail_run-Ok text (some run_id) s h = mark_agent_run_failed-Ok parts run_id text s h

  recovered-Ok :
      (event : Incoming) (route : EventRoute) (e : Exc)
      → Keeps (
          create_workflow_task event route.workflow_type >>= λ (task_id, created).
          get_run_id >>= λ run_id.
          fail_run parts (exc_text e) run_id >>= λ _. mark_task_failed parts task_id (exc_text e))
  recovered-Ok event route e s h =
      next-Ensures IsOnce Created (Fine IsOnce) _ (create_workflow_task event route.workflow_type s)
        (create_workflow_task-Ensures event route.workflow_type s h)
        (λ r t k _.
          next-Ok _ (fail_run parts (exc_text e) t.run_id t) (fail_run-Ok (exc_text e) t.run_id t k)
            (λ _. mark_task_failed-Ok parts r.0 (exc_text e)))

  consume_failed-Ok :
      (event : Incoming) (route : EventRoute) (e : Exc) → Keeps (consume_failed parts event route e)
  unfolding consume_failed
  consume_failed-Ok event route e s h =
      next-Ok (λ _. settle nack) _
        (rescue-Ensures IsOnce (Fine IsOnce) (λ _. return tt) _
          (postgres_connection-Ensures IsOnce _ s h (recovered-Ok event route e))
          (λ _ t k. (k, tt)))
        (λ _. settle-Ensures IsOnce nack)

  handle_event-Ok : (event : Incoming) (route : EventRoute) → Keeps (handle_event parts event route)
  unfolding handle_event
  handle_event-Ok event route s h =
      let s' = record s { run_id = none } in
      rescue-Ensures IsOnce (Fine IsOnce) (consume_failed parts event route) _
        (next-Ok (acknowledge parts) _
          (postgres_connection-Ensures IsOnce _ s' h (λ t k.
            next-Ensures IsOnce Created (Fine IsOnce) (with_task parts event route)
              (create_workflow_task event route.workflow_type t)
              (create_workflow_task-Ensures event route.workflow_type t k)
              (with_task-Ok event route)))
          acknowledge-Ok)
        (consume_failed-Ok event route)

  handle_message-Ok : (message : Outcome Incoming) → Keeps (handle_message parts message)
  unfolding handle_message
  handle_message-Ok (raise e) s h = h
  handle_message-Ok (value event) s h =
      handle_event-Ok event (resolve_event_route event.event_type) s h

  consume-Holds :
      (messages : List (Outcome Incoming)) (s : Session Tables)
      → Holds IsOnce s
      → Holds IsOnce (consume parts messages s)
  unfolding consume
  consume-Holds [] s h = h
  consume-Holds (message ∷ messages) s h =
      consume-Holds messages (handle_message parts message s).1
        (Ok-Holds (handle_message parts message s) (handle_message-Ok message s h))

-- Whatever messages come, however often and in whatever order, whatever the builders of contexts and
-- the agents return or raise, and whatever the database and the broker do: if there was at most one
-- task for each event and workflow, and at most one run for each task, of a task that is there, then
-- this holds of the committed tables afterwards. So no workflow is run twice for an event.
pub consume-IsOnce :
    (parts : Parts) (messages : List (Outcome Incoming)) (s : Session Tables)
    → IsOnce s.committed
    → s.working ≡ s.committed
    → IsOnce (consume parts messages s).committed
consume-IsOnce parts messages s h idle = (consume-Holds parts messages s (h, rw idle h)).0
