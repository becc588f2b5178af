-- ===== src/Orchestrator/Retry/Marks.antt =====
-- A batch of orchestrator-service/app/retry_worker.py where no call of the database fails: every event
-- of it is marked, in one way or the other, whatever the broker answers.
use yunxiao_workflow_agent.Base.{
  ℕ, suc, ◌+◌, String, Bool, true, false, ◌≡◌, refl, List, [], ◌∷◌, if◌then◌else◌,
}
use yunxiao_workflow_agent.Effects.{Fault, fine, before, after, later, Message}
use yunxiao_workflow_agent.Effects.Calm.{IsCalm}
use yunxiao_workflow_agent.Orchestrator.Session.{
  undone, roll_back_and_raise, commit_and_return, execute, Exc, Outcome, value, raise, Session, Py,
  exc_text, ◌>>=◌, return, next, rescue, postgres_connection, published,
}
use yunxiao_workflow_agent.Orchestrator.Retry.Rows.{
  set_succeeded, set_failed, RetryRow, candidates, limit_rows, update_rows,
}
use yunxiao_workflow_agent.Orchestrator.Retry.Messages.{Python, build_normalized_event_message}
use yunxiao_workflow_agent.Orchestrator.Retry.{
  RetrySettings, mark_publish_retry_succeeded, mark_publish_retry_failed, publish_body,
  publish_normalized_event, handle_event, handle_events, process_retry_batch,
  fetch_retry_candidates,
}
use yunxiao_workflow_agent.Orchestrator.Retry.Weight.{Mark, succeeded, failed, touch}

abbrev pub Rows : Type 0
Rows = List RetryRow

-- A transaction that has not failed, over these committed rows, with these rows, where no call of the
-- database will fail.
abbrev Open : Rows → Rows → Session Rows → Type 0
Open c w s = (s.committed ≡ c) × (s.working ≡ w) × (s.aborted ≡ false) × IsCalm s.choices

abbrev pub Returns : {A : Type 0} → (A → Session Rows → Type 0) → Outcome A × Session Rows → Type 0
Returns P (value a, s) = P a s
Returns P (raise e, s) = ⊥

Returns-next :
    {A B : Type 0} (P : A → Session Rows → Type 0) (Q : B → Session Rows → Type 0)
    (f : A → Py Rows B) (r : Outcome A × Session Rows)
    → Returns P r
    → ((a : A) (s : Session Rows) → P a s → Returns Q (f a s))
    → Returns Q (next f r)
Returns-next P Q f (value a, s) h go_on = go_on a s h
Returns-next P Q f (raise e, s) h go_on = h

Returns-rescue :
    {A : Type 0} (P : A → Session Rows → Type 0) (handler : Exc → Py Rows A)
    (r : Outcome A × Session Rows)
    → Returns P r
    → Returns P (rescue handler r)
Returns-rescue P handler (value a, s) h = h
Returns-rescue P handler (raise e, s) h = absurd h

Returns-weaken :
    {A : Type 0} (P Q : A → Session Rows → Type 0) (r : Outcome A × Session Rows)
    → Returns P r
    → ((a : A) (s : Session Rows) → P a s → Q a s)
    → Returns Q r
Returns-weaken P Q (value a, s) h weaken = weaken a s h
Returns-weaken P Q (raise e, s) h weaken = h

-- A statement that does not raise.
execute-Open :
    {A : Type 0} (statement : Rows → Outcome A × Rows) (a : A) (w' c w : Rows) (s : Session Rows)
    → statement w ≡ (value a, w')
    → Open c w s
    → Returns (λ x t. (x ≡ a) × Open c w' t) (execute statement s)
execute-Open statement a w' c w s plain (p, q, d, calm) =
    rw (calm 0, d, q, plain) (refl, (p, refl, refl, λ n. calm (suc n)))

-- What the broker does leaves the transaction as it is.
published-Open :
    (c w : Rows) (fault : Fault) (m : Message) (s : Session Rows)
    → Open c w s
    → Open c w (published fault m s).1
published-Open c w fine m s h = h
published-Open c w (before e) m s h = h
published-Open c w (after e) m s h = h

publish_body-Open :
    (py : Python) (exchange : String) (row : RetryRow) (body : Outcome String) (c w : Rows)
    (s : Session Rows)
    → Open c w s
    → Open c w (publish_body py exchange row body s).1
unfolding publish_body
publish_body-Open py exchange row (raise e) c w s h = h
publish_body-Open py exchange row (value body) c w s (a, b, d, calm) =
    published-Open c w (s.broker 0).fault _ _ (a, b, d, λ n. calm (suc n))

-- One event is marked, in one way or the other.
abbrev Marked : Rows → Rows → String → Session Rows → Type 0
Marked c w id s = (m : Mark) × Open c (update_rows (touch m) id w) s

Returns-Marked :
    (m : Mark) (id : String) (c w : Rows) (r : Outcome Unit × Session Rows)
    → Returns (λ x t. (x ≡ tt) × Open c (update_rows (touch m) id w) t) r
    → Returns (λ _. Marked c w id) r
Returns-Marked m id c w (value x, t) (_, h) = (m, h)
Returns-Marked m id c w (raise e, t) h = h

succeeded-Marked :
    (id : String) (c w : Rows) (s : Session Rows)
    → Open c w s
    → Returns (λ _. Marked c w id) (mark_publish_retry_succeeded id s)
unfolding mark_publish_retry_succeeded
succeeded-Marked id c w s (a, b, d, calm) = Returns-Marked (succeeded (s.choices 0).time) id c w _ (
    execute-Open (λ rows. (value tt, update_rows (set_succeeded (s.choices 0).time) id rows)) tt _ c
      w (record s { choices = later s.choices }) refl (a, b, d, λ n. calm (suc n)))

failed-Marked :
    (id text : String) (c w : Rows) (s : Session Rows)
    → Open c w s
    → Returns (λ _. Marked c w id) (mark_publish_retry_failed id text s)
unfolding mark_publish_retry_failed
failed-Marked id text c w s (a, b, d, calm) =
    Returns-Marked (failed (s.choices 0).time text) id c w _ (
      execute-Open (λ rows. (value tt, update_rows (set_failed (s.choices 0).time text) id rows)) tt
        _ c w (record s { choices = later s.choices }) refl (a, b, d, λ n. calm (suc n)))

handled-Marked :
    (id : String) (c w : Rows) (r : Outcome Unit × Session Rows)
    → Open c w r.1
    → Returns
        (λ _. Marked c w id)
        (rescue
          (λ exc. mark_publish_retry_failed id (exc_text exc) >>= λ _. return false)
          (next (λ _. mark_publish_retry_succeeded id >>= λ _. return true) r))
handled-Marked id c w (value x, s) h =
    Returns-rescue (λ _. Marked c w id) _ _
      (Returns-next (λ _. Marked c w id) (λ _. Marked c w id) (λ _. return true)
        (mark_publish_retry_succeeded id s) (succeeded-Marked id c w s h) (λ a t m. m))
handled-Marked id c w (raise e, s) h =
    Returns-next (λ _. Marked c w id) (λ _. Marked c w id) (λ _. return false)
      (mark_publish_retry_failed id (exc_text e) s) (failed-Marked id (exc_text e) c w s h)
      (λ a t m. m)

-- The rows after a batch of events was marked one by one.
abbrev pub Handled : List RetryRow → Rows → Rows → Type 0
Handled [] w w' = w' ≡ w
Handled (e ∷ es) w w' = (m : Mark) × Handled es (update_rows (touch m) e.event.event_id w) w'

module _ (py : Python) (settings : RetrySettings) where
  handle_event-Marked :
      (row : RetryRow) (c w : Rows) (s : Session Rows)
      → Open c w s
      → Returns (λ _. Marked c w row.event.event_id) (handle_event py settings row s)
  unfolding handle_event publish_normalized_event
  handle_event-Marked row c w s h = handled-Marked row.event.event_id c w _ (
      publish_body-Open py settings.rabbitmq_exchange row
        (py.dumps (build_normalized_event_message py row)) c w s h)

  handle_events-Handled :
      (es : List RetryRow) (n : ℕ) (c w : Rows) (s : Session Rows)
      → Open c w s
      → Returns
          (λ _ t. (w' : Rows) × Handled es w w' × Open c w' t)
          (handle_events py settings es n s)
  unfolding handle_events
  handle_events-Handled [] n c w s h = (w, refl, h)
  handle_events-Handled (e ∷ es) n c w s h =
      Returns-next (λ _. Marked c w e.event.event_id)
        (λ _ t. (w' : Rows) × Handled (e ∷ es) w w' × Open c w' t)
        (λ done. handle_events py settings es (if done then n + 1 else n))
        (handle_event py settings e s) (handle_event-Marked e c w s h)
        (λ done t (m, open_now).
          Returns-weaken
            (λ _ u.
              (w' : Rows) × Handled es (update_rows (touch m) e.event.event_id w) w' × Open c w' u)
            (λ _ u. (w' : Rows) × Handled (e ∷ es) w w' × Open c w' u)
            (handle_events py settings es (if done then n + 1 else n) t)
            (handle_events-Handled es _ c _ t open_now)
            (λ _ u (w', handled, open_then). (w', (m, handled), open_then)))

  -- A batch that returns has committed what it did.
  commit-Handled :
      (es : List RetryRow) (w : Rows) (c : Rows) (r : Outcome ℕ × Session Rows)
      → Returns (λ _ t. (w' : Rows) × Handled es w w' × Open c w' t) r
      → Returns
          (λ _ t. Handled es w t.committed × IsCalm t.choices)
          (rescue roll_back_and_raise (next commit_and_return r))
  commit-Handled es w c (raise e, t) h = absurd h
  commit-Handled es w c (value n, t) (w', handled, (_, same, plain, calm)) =
      rw (calm 0, plain, same) (handled, λ n. calm (suc n))

  pub batch-Handled :
      (is_locked : RetryRow → Bool) (s : Session Rows)
      → IsCalm s.choices
      → Returns
          (λ _ t.
            Handled
              (limit_rows settings.batch_size
                (candidates settings.max_attempts is_locked s.committed))
              s.committed
              t.committed
            × IsCalm t.choices)
          (process_retry_batch py settings is_locked s)
  unfolding process_retry_batch postgres_connection
  batch-Handled is_locked s calm =
      let es =
        limit_rows settings.batch_size (candidates settings.max_attempts is_locked s.committed) in
      let s' = undone (record s { choices = later s.choices }) in
      rw (calm 0) (
        commit-Handled es s.committed s.committed _ (
          Returns-next (λ events t. (events ≡ es) × Open s.committed s.committed t)
            (λ _ t. (w' : Rows) × Handled es s.committed w' × Open s.committed w' t)
            (λ events. handle_events py settings events 0)
            (fetch_retry_candidates settings.batch_size settings.max_attempts is_locked s')
            (execute-Open
              (λ rows. (
                value (
                    limit_rows settings.batch_size
                      (candidates settings.max_attempts is_locked rows)),
                rows,
              ))
              es s.committed s.committed s.committed s' refl (refl, refl, refl, λ n. calm (suc n)))
            (λ events t (same, h).
              rw same (handle_events-Handled es 0 s.committed s.committed t h))))
