-- ===== src/Orchestrator/Consumer/Settled.antt =====
-- `handle_message` of orchestrator-service/app/consumer.py settles the message.
use yunxiao_workflow_agent.Base.{
  String, Bool, true, false, ◌≡◌, refl, ◌⊎◌, inl, inr, none, some, List, ◌∷◌,
}
use yunxiao_workflow_agent.Orchestrator.Registry.{EventRoute, resolve_event_route}
use yunxiao_workflow_agent.Orchestrator.Session.{
  Exc, exc_text, Outcome, value, raise, Session, Py, return, ◌>>=◌, raising, settle, Settlement,
  ack, nack, now,
}
use yunxiao_workflow_agent.Orchestrator.Session.Silent.{
  IsFine, At, Post, next-Post, rescue-Post, weaken-Post, settle-Post, IsSilent, next-IsSilent,
  raising-IsSilent, now-IsSilent, Escapes, postgres_connection-Post,
}
use yunxiao_workflow_agent.Orchestrator.Consumer.Statements.{Tables}
use yunxiao_workflow_agent.Orchestrator.Consumer.Rows.{Incoming, AgentResult}
use yunxiao_workflow_agent.Orchestrator.Consumer.{
  Parts, Done, early, finished, create_workflow_task, save_context_snapshot, create_agent_run,
  save_agent_artifact, save_agent_actions, mark_agent_run_failed, mark_task_failed,
  mark_task_succeeded, mark_agent_run_succeeded, after_agent, run_workflow, with_task, acknowledge,
  consume_failed, handle_event, handle_message, raw_output, context_snapshot,
}
use yunxiao_workflow_agent.Orchestrator.Consumer.Quiet.{
  create_workflow_task-IsSilent, save_context_snapshot-IsSilent, create_agent_run-IsSilent,
  save_agent_artifact-IsSilent, save_each_action-IsSilent, run_succeeded-IsSilent,
  run_failed-IsSilent, task_failed-IsSilent, task_succeeded-IsSilent, recovered-IsSilent,
}

-- What is settled when the body of the transaction ends.
abbrev acked : List Settlement → Done → List Settlement
acked settled early = ack ∷ settled
acked settled finished = settled

-- What is settled in the end.
abbrev Settled : List Settlement → Session Tables → Type 0
Settled settled t = At (ack ∷ settled) t ⊎ At (nack ∷ settled) t ⊎ At (nack ∷ ack ∷ settled) t

module _ (parts : Parts) (settled : List Settlement) where
  consume_failed-Post :
      (event : Incoming) (route : EventRoute) (e : Exc) (s : Session Tables)
      → At settled s
      → Post (λ _. At (nack ∷ settled)) (λ _. ⊥) (consume_failed parts event route e s)
  unfolding consume_failed
  consume_failed-Post event route e s h =
      next-Post (λ _. At settled) (λ _. At (nack ∷ settled)) (λ _. ⊥) (λ _. settle nack) _
        (rescue-Post (λ _. At settled) (Escapes settled (λ _. settled)) (λ _. ⊥) (λ _. return tt) _
          (postgres_connection-Post settled (λ _. settled) _ s h
            (recovered-IsSilent parts settled event route e))
          (λ _ t k. elim k [ inl at ↦ at | inr (_, at) ↦ at ]))
        (λ _ t k. settle-Post nack settled t k)

module _ (parts : Parts) (settled : List Settlement) where
  -- A part of the body of the transaction.
  abbrev Works : Py Tables Done → Type 0
  Works m =
      (s : Session Tables) → At settled s → Post (λ d. At (acked settled d)) (At settled) (m s)

  next-Works :
      {A : Type 0} (m : Py Tables A) (f : A → Py Tables Done)
      → IsSilent settled m
      → ((a : A) → Works (f a))
      → Works (m >>= f)
  next-Works m f h k s at =
      next-Post (λ _. At settled) (λ d. At (acked settled d)) (At settled) f (m s) (h s at)
        (λ a t l. k a t l)

  settle-Works : Works (settle ack >>= λ _. return early)
  settle-Works s h =
      next-Post (λ _. At (ack ∷ settled)) (λ d. At (acked settled d)) (At settled)
        (λ _. return early) (settle ack s)
        (weaken-Post (λ _. At (ack ∷ settled)) (λ _. At (ack ∷ settled)) (λ _. ⊥) (At settled)
          (settle ack s) (settle-Post ack settled s h) (λ _ t k. k) (λ t k. absurd k))
        (λ _ t k. k)

  after_agent-Works :
      (event : Incoming) (task_id snapshot_id run_id : String) (r : Outcome AgentResult)
      → Works (after_agent parts event task_id snapshot_id run_id r)
  unfolding after_agent
  after_agent-Works event task_id snapshot_id run_id (raise e) =
      next-Works (mark_agent_run_failed parts run_id (exc_text e)) _
        (run_failed-IsSilent parts settled run_id (exc_text e))
        (λ _.
          next-Works (mark_task_failed parts task_id (exc_text e)) _
            (task_failed-IsSilent parts settled task_id (exc_text e)) (λ _. settle-Works))
  after_agent-Works event task_id snapshot_id run_id (value result) =
      next-Works (save_agent_artifact parts run_id event result) _
        (save_agent_artifact-IsSilent parts settled run_id event result)
        (λ artifact_id.
          next-Works (save_agent_actions parts run_id event result.actions) _
            (next-IsSilent settled now _ (now-IsSilent settled)
              (λ time. save_each_action-IsSilent parts settled run_id event time result.actions))
            (λ ids.
              next-Works
                (mark_agent_run_succeeded parts run_id
                  (raw_output parts artifact_id result.artifact_type ids))
                _ (run_succeeded-IsSilent parts settled run_id _)
                (λ _.
                  next-Works (mark_task_succeeded parts task_id snapshot_id) (λ _. return finished)
                    (task_succeeded-IsSilent parts settled task_id snapshot_id) (λ _ s h. h))))

  run_workflow-Works :
      (event : Incoming) (route : EventRoute) (task_id : String)
      → Works (run_workflow parts event route task_id)
  unfolding run_workflow
  run_workflow-Works event route task_id =
      next-Works (raising (parts.build_context event route)) _ (raising-IsSilent settled _) (λ c.
        next-Works (save_context_snapshot parts event c) _
          (save_context_snapshot-IsSilent parts settled event c)
          (λ snapshot_id.
            next-Works (create_agent_run parts task_id event route snapshot_id) _
              (create_agent_run-IsSilent parts settled task_id event route snapshot_id)
              (λ run_id s h.
                after_agent-Works event task_id snapshot_id run_id
                  (parts.run_agent route.agent_type (context_snapshot parts snapshot_id c))
                  (record s { run_id = some run_id }) h)))

  with_task-Works :
      (event : Incoming) (route : EventRoute) (r : String × Bool)
      → Works (with_task parts event route r)
  unfolding with_task
  with_task-Works event route (task_id, true) = run_workflow-Works event route task_id
  with_task-Works event route (task_id, false) = settle-Works

  acknowledge-Post :
      (d : Done) (s : Session Tables)
      → At (acked settled d) s
      → Post (λ _. At (ack ∷ settled)) (λ _. ⊥) (acknowledge parts d s)
  acknowledge-Post early s h = h
  acknowledge-Post finished s h = settle-Post ack settled s h

  failed_once :
      (event : Incoming) (route : EventRoute) (e : Exc) (s : Session Tables)
      → At settled s
      → Post (λ _. Settled settled) (λ _. ⊥) (consume_failed parts event route e s)
  failed_once event route e s h =
      weaken-Post (λ _. At (nack ∷ settled)) (λ _. Settled settled) (λ _. ⊥) (λ _. ⊥)
        (consume_failed parts event route e s) (consume_failed-Post parts settled event route e s h)
        (λ _ t k. inr (inl k)) (λ t k. k)

  handle_event-Post :
      (event : Incoming) (route : EventRoute) (s : Session Tables)
      → At settled s
      → Post (λ _. Settled settled) (λ _. ⊥) (handle_event parts event route s)
  unfolding handle_event
  handle_event-Post event route s h =
      let s' = record s { run_id = none } in
      rescue-Post (λ _. Settled settled) (Escapes settled (acked settled)) (λ _. ⊥)
        (consume_failed parts event route) _
        (next-Post (λ d. At (acked settled d)) (λ _. Settled settled)
          (Escapes settled (acked settled)) (acknowledge parts) _
          (postgres_connection-Post settled (acked settled) _ s' h (λ t k.
            next-Works (create_workflow_task event route.workflow_type)
              (with_task parts event route)
              (create_workflow_task-IsSilent parts settled event route.workflow_type)
              (with_task-Works event route) t k))
          (λ d t k.
            weaken-Post (λ _. At (ack ∷ settled)) (λ _. Settled settled) (λ _. ⊥)
              (Escapes settled (acked settled)) (acknowledge parts d t) (acknowledge-Post d t k)
              (λ _ u l. inl l) (λ u l. absurd l)))
        (λ e t k. elim k [
          | inl m ↦ failed_once event route e t m
          | inr (early, m) ↦
              weaken-Post (λ _. At (nack ∷ ack ∷ settled)) (λ _. Settled settled) (λ _. ⊥) (λ _. ⊥)
                (consume_failed parts event route e t)
                (consume_failed-Post parts (ack ∷ settled) event route e t m) (λ _ u l. inr (inr l))
                (λ u l. l)
          | inr (finished, m) ↦ failed_once event route e t m
        ])

Post-Settled :
    (settled : List Settlement) (r : Outcome Unit × Session Tables)
    → Post (λ _. Settled settled) (λ _. ⊥) r
    → (r.0 ≡ value tt)
      × ((r.1.settled ≡ ack ∷ settled)
          ⊎ (r.1.settled ≡ nack ∷ settled)
          ⊎ (r.1.settled ≡ nack ∷ ack ∷ settled))
Post-Settled settled (value tt, s) (inl h) = (refl, inl h.0)
Post-Settled settled (value tt, s) (inr (inl h)) = (refl, inr (inl h.0))
Post-Settled settled (value tt, s) (inr (inr h)) = (refl, inr (inr h.0))
Post-Settled settled (raise e, s) h = absurd h

-- Where the broker takes every settlement, and whatever the database, the builders of contexts and
-- the agents do: `handle_message` of a message that is decoded returns, and the message is settled by
-- an ack, by a nack without requeueing, or by an ack and then a nack.
pub settled-handle_message :
    (parts : Parts) (event : Incoming) (s : Session Tables)
    → IsFine s.broker
    → ((handle_message parts (value event) s).0 ≡ value tt)
      × (((handle_message parts (value event) s).1.settled ≡ ack ∷ s.settled)
          ⊎ ((handle_message parts (value event) s).1.settled ≡ nack ∷ s.settled)
          ⊎ ((handle_message parts (value event) s).1.settled ≡ nack ∷ ack ∷ s.settled))
unfolding handle_message
settled-handle_message parts event s broker =
    Post-Settled s.settled (handle_event parts event (resolve_event_route event.event_type) s) (
      handle_event-Post parts s.settled event (resolve_event_route event.event_type) s
        (refl, broker))
