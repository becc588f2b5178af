-- ===== src/HttpServer/Answered/Persist.antt =====
-- The other branches of `persistAndPublish` of ingress-service/internal/httpserver/server.go.
use yunxiao_workflow_agent.Effects.{
  ◌>>=◌, fine, before, after, Fault, World, exec, on_database, faulty, Prog, ◌>>◌, Choice, Call,
  lost,
}
use yunxiao_workflow_agent.Effects.Laws.{Ends}
use yunxiao_workflow_agent.Repository.{
  new_event_repository, EventRepository, find_normalized_event_id_by_dedup_key,
  mark_raw_event_normalized, mark_raw_event_failed, update_raw_event_process_status,
  nullable_string, failed_status, normalized, found_event,
}
use yunxiao_workflow_agent.HttpServer.Answered.{Answered, is_stored, not_saved, is_taken, duplicate}
use yunxiao_workflow_agent.HttpServer.Persist.{
  log_webhook, json, answer_duplicate, answer_save_failed, publish_saved, found_or,
}
use yunxiao_workflow_agent.Base.{
  ℕ, String, ◌≡◌, refl, true, some, none, ◌∷◌, ◌⊎◌, Option, inr, inl, [], ap, ◌∙◌,
}
use yunxiao_workflow_agent.Base.Dict.{lookup}
use yunxiao_workflow_agent.Http.{Response}
use yunxiao_workflow_agent.Model.{NormalizedEvent}
use yunxiao_workflow_agent.Effects.Tables.{
  select_event_id, update_raw_status, found_id, find_by_key,
}
use yunxiao_workflow_agent.Effects.Schema.{StatusUpdate, Reply, Database, done, failed}
use yunxiao_workflow_agent.Runtime.{Runtime, utc}
use yunxiao_workflow_agent.Mq.{Publisher, rabbit_publisher}
use yunxiao_workflow_agent.Base.Result.{Error}
use yunxiao_workflow_agent.Effects.Rows.{raw_status-same}
use yunxiao_workflow_agent.HttpServer.Answered.Publish.{logged-Answers}

module _ (rt : Runtime) (exchange : String) (event : NormalizedEvent) (raw_id : ℕ) (w : World) where
  abbrev repo : EventRepository
  repo = new_event_repository rt

  abbrev publisher : Publisher
  publisher = rabbit_publisher rt exchange

  abbrev pub Answers : Prog Response → World → Type 0
  Answers = Ends (Answered event w)

  -- A change of the process status moves neither the events nor the messages.
  status-same :
      (u : StatusUpdate) (ch : Choice) (v : World)
      → let v' = (exec (Call.raw_status u) ch v).1 in
        (v'.database.normalized_events ≡ v.database.normalized_events) × (v'.messages ≡ v.messages)
  unfolding exec
  status-same u ch v = (faulted ch.fault, refl)
    where
      kept :
          (p : Reply Unit × Database)
          → p.1.normalized_events ≡ v.database.normalized_events
          → (m : String) → (lost m p).1.normalized_events ≡ v.database.normalized_events
      kept (done _, d) h m = h
      kept (failed e, d) h m = h

      faulted :
          (f : Fault)
          → (faulty f (update_raw_status u) v.database).1.normalized_events
            ≡ v.database.normalized_events
      faulted fine = raw_status-same u v.database
      faulted (before m) = refl
      faulted (after m) = kept (update_raw_status u v.database) (raw_status-same u v.database) m

  -- So the rest of a program goes on with them as they were.
  updated-Answers :
      (status process_error id : String) (f : Option Error → Prog Response) (v : World)
      → ((r : Option Error) (v' : World)
          → v'.database.normalized_events ≡ v.database.normalized_events
          → v'.messages ≡ v.messages
          → Answers (f r) v')
      → Answers (update_raw_event_process_status rt raw_id status process_error id >>= f) v
  unfolding update_raw_event_process_status exec
  updated-Answers status process_error id f v go_on now marked =
      let u : StatusUpdate = record {
        id = raw_id;
        status = status;
        error = nullable_string process_error;
        normalized_event_id = id;
        processed_at = utc now.time;
      } in
      go_on _ _ (status-same u marked v).0 (status-same u marked v).1

  pub publish-Answers :
      (v : World)
      → is_stored event.event_id v ≡ true
      → v.messages ≡ w.messages
      → Answers (publish_saved repo publisher event raw_id) v
  unfolding publish_saved mark_raw_event_normalized
  publish-Answers v stored same =
      updated-Answers normalized "" event.event_id _ v (λ r v' events messages.
        logged-Answers rt exchange event raw_id w r v' (rw events stored) (messages ∙ same))

  -- A search for an event changes nothing.
  find-same : (k : String) (ch : Choice) (v : World) → (exec (Call.find_event_id k) ch v).1 ≡ v
  unfolding exec select_event_id
  find-same k ch v = faulted ch.fault
    where
      kept : (m : String) (o : Option String) → (lost m (found_id o, v.database)).1 ≡ v.database
      kept m none = refl
      kept m (some e) = refl

      faulted : (f : Fault) → (on_database v (faulty f (select_event_id k) v.database)).1 ≡ v
      faulted fine = refl
      faulted (before m) = refl
      faulted (after m) =
          ap (λ d. record v { database = d }) (kept m (find_by_key k v.database.normalized_events))

  -- The id that a search finds, if no fault hides it.
  found_or-cases :
      (f : Fault)
      → let reply = (on_database w (faulty f (select_event_id event.dedup_key) w.database)).0 in
        let id = found_or event.event_id (found_event reply) in
        (id ≡ event.event_id) ⊎ (find_by_key event.dedup_key w.database.normalized_events ≡ some id)
  unfolding select_event_id
  found_or-cases fine = cases _ refl
    where
      cases :
          (o : Option String)
          → find_by_key event.dedup_key w.database.normalized_events ≡ o
          → (found_or event.event_id (found_event (found_id o)) ≡ event.event_id)
            ⊎ (find_by_key event.dedup_key w.database.normalized_events
                ≡ some (found_or event.event_id (found_event (found_id o))))
      cases none same = inl refl
      cases (some k) same = inr same
  found_or-cases (before m) = inl refl
  found_or-cases (after m) = cases (find_by_key event.dedup_key w.database.normalized_events)
    where
      cases :
          (o : Option String)
          → let reply = (lost m (found_id o, w.database)).0 in
            (found_or event.event_id (found_event reply) ≡ event.event_id)
            ⊎ (find_by_key event.dedup_key w.database.normalized_events
                ≡ some (found_or event.event_id (found_event reply)))
      cases none = inl refl
      cases (some k) = inl refl

  pub duplicate-Answers :
      is_taken event w ≡ true → Answers (answer_duplicate repo publisher event raw_id) w
  unfolding answer_duplicate find_normalized_event_id_by_dedup_key mark_raw_event_normalized
      log_webhook exec lookup
  duplicate-Answers taken = λ found.
      let here = find-same event.dedup_key found w in
      let reply = (exec (Call.find_event_id event.dedup_key) found w).0 in
      updated-Answers normalized "" _
        (λ marked.
          log_webhook "normalized" event.trace_id raw_id event.source event.event_type "" 200 none
          >> json 200 (
              ("event_id", found_or event.event_id (found_event reply))
              ∷ ("status", "duplicate")
              ∷ []))
        _
        (λ r v' events messages l.
          duplicate refl taken (_, refl, found_or-cases found.fault)
            (events ∙ ap (λ x. x.database.normalized_events) here)
            (messages ∙ ap (λ x. x.messages) here))

  pub failed-Answers :
      (v : World) (e : Error)
      → v.messages ≡ w.messages
      → Answers (answer_save_failed repo publisher event raw_id e) v
  unfolding answer_save_failed mark_raw_event_failed log_webhook exec
  failed-Answers v e same =
      updated-Answers failed_status _ ""
        (λ marked.
          log_webhook "failed" event.trace_id raw_id event.source event.event_type "" 500 (some e)
          >> json 500 (("error", "save normalized event") ∷ []))
        v (λ r v' events messages l. not_saved refl (messages ∙ same))
