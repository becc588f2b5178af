-- ===== src/Orchestrator/Retry/Evidence.antt =====
-- What orchestrator-service/app/retry_worker.py records is true of the exchange, whatever fails.
use yunxiao_workflow_agent.Base.{
  ℕ, zero, suc, ◌+◌, String, Bool, true, false, ◌≡◌, refl, List, [], ◌∷◌, if◌then◌else◌, any, arith,
  eq_iff,
}
use yunxiao_workflow_agent.Effects.{Fault, fine, before, after, later, Message}
use yunxiao_workflow_agent.Orchestrator.Session.{
  commit, rollback, kept, connected, undone, commit_at, rolled_back, roll_back_and_raise,
  commit_and_return, execute, Outcome, value, raise, Session, exc_text, ◌>>=◌, return, next, rescue,
  postgres_connection, try_except, published,
}
use yunxiao_workflow_agent.Orchestrator.Retry.Rows.{RetryRow, candidates, limit_rows}
use yunxiao_workflow_agent.Orchestrator.Retry.Messages.{
  event_message, Python, build_normalized_event_message,
}
use yunxiao_workflow_agent.Orchestrator.Retry.{
  RetrySettings, mark_publish_retry_succeeded, mark_publish_retry_failed, publish_body,
  publish_normalized_event, handle_event, handle_events, process_retry_batch, run_retry_worker,
  fetch_retry_candidates,
}
use yunxiao_workflow_agent.Orchestrator.Retry.Sound.{
  has_message, IsSent, Sound, Keeps, more-IsSent, next-Sound, rescue-Sound, either, executed-Sound,
  marked_failed-Sound, marked_succeeded-Sound,
}

-- What a call that publishes leaves: where it returns, the message is in the exchange.
abbrev Posted : String → Outcome Unit × Session (List RetryRow) → Type 0
Posted id (value x, s) = Sound s × (any (has_message id) s.messages ≡ true)
Posted id (raise e, s) = Sound s

published-Posted :
    (fault : Fault) (m : Message) (s : Session (List RetryRow))
    → Sound s
    → Posted m.message_id (published fault m s)
published-Posted fine m s (p, q) = (
  (more-IsSent m s.messages s.committed p, more-IsSent m s.messages s.working q),
  ground (arith, (eq_iff m.message_id m.message_id).1 refl),
)
published-Posted (before e) m s h = h
published-Posted (after e) m s (p, q) =
    (more-IsSent m s.messages s.committed p, more-IsSent m s.messages s.working q)

publish_body-Posted :
    (py : Python) (exchange : String) (row : RetryRow) (body : Outcome String)
    (s : Session (List RetryRow))
    → Sound s
    → Posted row.event.event_id (publish_body py exchange row body s)
unfolding publish_body
publish_body-Posted py exchange row (raise e) s h = h
publish_body-Posted py exchange row (value body) s h =
    published-Posted (s.broker 0).fault (event_message exchange row body (s.choices 0).time)
      (record s { choices = later s.choices; broker = later s.broker }) h

module _ (py : Python) (settings : RetrySettings) where
  handled-Sound :
      (id : String) (r : Outcome Unit × Session (List RetryRow))
      → Posted id r
      → Sound
          (rescue
            (λ exc. mark_publish_retry_failed id (exc_text exc) >>= λ _. return false)
            (next (λ _. mark_publish_retry_succeeded id >>= λ _. return true) r)).1
  handled-Sound id (value x, s) (h, sent) =
      rescue-Sound _ _
        (next-Sound (λ _. return true) (mark_publish_retry_succeeded id s)
          (marked_succeeded-Sound id s h sent) (λ _ t k. k))
        (λ e t k.
          next-Sound (λ _. return false) (mark_publish_retry_failed id (exc_text e) t)
            (marked_failed-Sound id (exc_text e) t k) (λ _ u l. l))
  handled-Sound id (raise e, s) h =
      next-Sound (λ _. return false) (mark_publish_retry_failed id (exc_text e) s)
        (marked_failed-Sound id (exc_text e) s h) (λ _ u l. l)

  handle_events-Sound : (es : List RetryRow) (n : ℕ) → Keeps (handle_events py settings es n)
  unfolding handle_events handle_event publish_normalized_event
  handle_events-Sound [] n s h = h
  handle_events-Sound (e ∷ es) n s h =
      next-Sound (λ done. handle_events py settings es (if done then n + 1 else n))
        (handle_event py settings e s)
        (handled-Sound e.event.event_id _ (
          publish_body-Posted py settings.rabbitmq_exchange e
            (py.dumps (build_normalized_event_message py e)) s h))
        (λ done. handle_events-Sound es (if done then n + 1 else n))

  kept-Sound : (s : Session (List RetryRow)) → Sound s → Sound (kept s)
  kept-Sound s (p, q) =
      either Sound s.aborted (undone s) (record s { committed = s.working }) (p, p) (q, q)

  committed-Sound :
      (fault : Fault) (s : Session (List RetryRow)) → Sound s → Sound (commit_at fault s).1
  committed-Sound fine s h = kept-Sound s h
  committed-Sound (before m) s h = h
  committed-Sound (after m) s h = kept-Sound s h

  rolled_back-Sound :
      (fault : Fault) (s : Session (List RetryRow)) → Sound s → Sound (rolled_back fault s).1
  rolled_back-Sound fine s (p, q) = (p, p)
  rolled_back-Sound (before m) s (p, q) = (p, p)
  rolled_back-Sound (after m) s (p, q) = (p, p)

  ended-Sound :
      {A : Type 0} (r : Outcome A × Session (List RetryRow))
      → Sound r.1
      → Sound (rescue roll_back_and_raise (next commit_and_return r)).1
  ended-Sound r h =
      rescue-Sound roll_back_and_raise (next commit_and_return r)
        (next-Sound commit_and_return r h (λ a s k.
          next-Sound (λ _. return a) (commit s)
            (committed-Sound (s.choices 0).fault (record s { choices = later s.choices }) k)
            (λ _ t l. l)))
        (λ e s k.
          next-Sound (λ _ t. (raise e, t)) (rollback s)
            (rolled_back-Sound (s.choices 0).fault (record s { choices = later s.choices }) k)
            (λ _ t l. l))

  abbrev chosen : (RetryRow → Bool) → List RetryRow → Outcome (List RetryRow) × List RetryRow
  chosen is_locked rows = (
    value (limit_rows settings.batch_size (candidates settings.max_attempts is_locked rows)),
    rows,
  )

  batch-IsSent :
      (is_locked : RetryRow → Bool) (fault : Fault) (s : Session (List RetryRow))
      → IsSent s.messages s.committed
      → let r =
          next
            (λ _.
              try_except
                ((fetch_retry_candidates settings.batch_size settings.max_attempts is_locked
                    >>= λ events. handle_events py settings events 0)
                  >>= commit_and_return)
                roll_back_and_raise)
            (connected fault s) in
        IsSent r.1.messages r.1.committed
  batch-IsSent is_locked (before m) s h = h
  batch-IsSent is_locked (after m) s h = h
  batch-IsSent is_locked fine s h =
      (ended-Sound
        (next (λ events. handle_events py settings events 0)
          (execute (chosen is_locked) (undone s)))
        (next-Sound (λ events. handle_events py settings events 0)
          (execute (chosen is_locked) (undone s))
          (executed-Sound (s.choices 0).fault (chosen is_locked)
            (record (undone s) { choices = later s.choices }) (h, h) h)
          (λ events. handle_events-Sound events 0))).0

-- Whatever the database and the broker do, before or after taking effect, whichever rows are locked,
-- and however many batches are run: where the message of every published row is in the exchange, this
-- still holds of the committed rows after the batches.
pub worker-IsSent :
    (py : Python) (settings : RetrySettings) (is_locked : RetryRow → Bool) (n : ℕ)
    (s : Session (List RetryRow))
    → IsSent s.messages s.committed
    → let t = run_retry_worker py settings is_locked n s in IsSent t.messages t.committed
unfolding run_retry_worker process_retry_batch postgres_connection
worker-IsSent py settings is_locked zero s h = h
worker-IsSent py settings is_locked (suc n) s h =
    worker-IsSent py settings is_locked n (process_retry_batch py settings is_locked s).1 (
      batch-IsSent py settings is_locked (s.choices 0).fault
        (record s { choices = later s.choices }) h)
