-- ===== src/Orchestrator/Retry/Sound.antt =====
-- Sessions of orchestrator-service/app/retry_worker.py in which the message of every published row is in
-- the exchange.
use yunxiao_workflow_agent.Base.{
  String, Bool, true, false, ◌≡◌, ◌==◌, List, [], ◌∷◌, if◌then◌else◌, any, All, arith, Bool-cases,
  inl, inr, eq_iff,
}
use yunxiao_workflow_agent.Effects.{Fault, fine, before, after, later, Message}
use yunxiao_workflow_agent.Runtime.{Time}
use yunxiao_workflow_agent.Orchestrator.Session.{
  executed, answered, Exc, Outcome, value, raise, Session, Py, next, rescue,
}
use yunxiao_workflow_agent.Orchestrator.Retry.Rows.{
  set_succeeded, set_failed, RetryRow, update_rows,
}
use yunxiao_workflow_agent.Orchestrator.Retry.{
  mark_publish_retry_succeeded, mark_publish_retry_failed,
}

abbrev pub has_message : String → Message → Bool
has_message id m = m.message_id == id

-- The message of every published row has been sent.
abbrev pub IsSent : List Message → List RetryRow → Type 0
IsSent ms =
    All (λ r. r.event.publish_status ≡ "published" → any (has_message r.event.event_id) ms ≡ true)

abbrev pub Sound : Session (List RetryRow) → Type 0
Sound s = IsSent s.messages s.committed × IsSent s.messages s.working

pub more-IsSent :
    (m : Message) (ms : List Message) (rows : List RetryRow) → IsSent ms rows → IsSent (m ∷ ms) rows
more-IsSent m ms [] h = tt
more-IsSent m ms (r ∷ rows) (p, h) = (λ e. ground (arith, p e), more-IsSent m ms rows h)

failed-IsSent :
    (time : Time) (text id : String) (ms : List Message) (rows : List RetryRow)
    → IsSent ms rows
    → IsSent ms (update_rows (set_failed time text) id rows)
unfolding update_rows set_failed
failed-IsSent time text id ms [] h = tt
failed-IsSent time text id ms (r ∷ rows) (p, h) = elim (Bool-cases (r.event.event_id == id)) [
  | inl hit ↦ rw hit (λ e. absurd (cc e), failed-IsSent time text id ms rows h)
  | inr other ↦ rw other (p, failed-IsSent time text id ms rows h)
]

succeeded-IsSent :
    (time : Time) (id : String) (ms : List Message) (rows : List RetryRow)
    → any (has_message id) ms ≡ true
    → IsSent ms rows
    → IsSent ms (update_rows (set_succeeded time) id rows)
unfolding update_rows
succeeded-IsSent time id ms [] sent h = tt
succeeded-IsSent time id ms (r ∷ rows) sent (p, h) = elim (Bool-cases (r.event.event_id == id)) [
  | inl hit ↦
      rw hit
        (λ e. rw ((eq_iff r.event.event_id id).0 hit) sent, succeeded-IsSent time id ms rows sent h)
  | inr other ↦ rw other (p, succeeded-IsSent time id ms rows sent h)
]

abbrev pub Keeps : {A : Type 0} → Py (List RetryRow) A → Type 0
Keeps m = (s : Session (List RetryRow)) → Sound s → Sound (m s).1

pub next-Sound :
    {A B : Type 0} (f : A → Py (List RetryRow) B) (r : Outcome A × Session (List RetryRow))
    → Sound r.1
    → ((a : A) → Keeps (f a))
    → Sound (next f r).1
next-Sound f (value a, s) h keeps = keeps a s h
next-Sound f (raise e, s) h keeps = h

pub rescue-Sound :
    {A : Type 0} (handler : Exc → Py (List RetryRow) A) (r : Outcome A × Session (List RetryRow))
    → Sound r.1
    → ((e : Exc) → Keeps (handler e))
    → Sound (rescue handler r).1
rescue-Sound handler (value a, s) h keeps = h
rescue-Sound handler (raise e, s) h keeps = keeps e s h

answered-Sound :
    {A : Type 0} (s : Session (List RetryRow)) (r : Outcome A × List RetryRow)
    → Sound s
    → IsSent s.messages r.1
    → Sound (answered s r).1
answered-Sound s (value a, t) h sent = (h.0, sent)
answered-Sound s (raise e, t) h sent = h

pub either : {X : Type 0} (P : X → Type 0) (b : Bool) (x y : X) → P x → P y → P (if b then x else y)
either P true x y p q = p
either P false x y p q = q

pub executed-Sound :
    {A : Type 0} (fault : Fault) (statement : List RetryRow → Outcome A × List RetryRow)
    (s : Session (List RetryRow))
    → Sound s
    → IsSent s.messages (statement s.working).1
    → Sound (executed fault statement s).1
executed-Sound {A = A} fine statement s h sent =
    either {X = Outcome A × Session (List RetryRow)} (λ r. Sound r.1) s.aborted _ _ h
      (answered-Sound s (statement s.working) h sent)
executed-Sound (before m) statement s h sent = h
executed-Sound (after m) statement s h sent = h

pub marked_failed-Sound : (id text : String) → Keeps (mark_publish_retry_failed id text)
unfolding mark_publish_retry_failed
marked_failed-Sound id text s h =
    executed-Sound (s.choices 1).fault
      (λ rows. (value tt, update_rows (set_failed (s.choices 0).time text) id rows))
      (record s { choices = later (later s.choices) }) h
      (failed-IsSent (s.choices 0).time text id s.messages s.working h.1)

pub marked_succeeded-Sound :
    (id : String) (s : Session (List RetryRow))
    → Sound s
    → any (has_message id) s.messages ≡ true
    → Sound (mark_publish_retry_succeeded id s).1
unfolding mark_publish_retry_succeeded
marked_succeeded-Sound id s h sent =
    executed-Sound (s.choices 1).fault
      (λ rows. (value tt, update_rows (set_succeeded (s.choices 0).time) id rows))
      (record s { choices = later (later s.choices) }) h
      (succeeded-IsSent (s.choices 0).time id s.messages s.working sent h.1)
