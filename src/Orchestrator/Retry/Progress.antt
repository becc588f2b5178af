-- ===== src/Orchestrator/Retry/Progress.antt =====
-- orchestrator-service/app/retry_worker.py gets on, whatever the broker answers.
use yunxiao_workflow_agent.Base.{
  ℕ, zero, suc, ◌≤◌, ◌<◌, true, false, ◌≡◌, refl, List, [], ◌∷◌, any, arith, Bool-cases, inl, inr,
  ◌⊎◌,
}
use yunxiao_workflow_agent.Effects.Calm.{IsCalm}
use yunxiao_workflow_agent.Orchestrator.Session.{Outcome, value, raise, Session}
use yunxiao_workflow_agent.Orchestrator.Retry.Rows.{RetryRow, is_candidate, candidates, limit_rows}
use yunxiao_workflow_agent.Orchestrator.Retry.Messages.{Python}
use yunxiao_workflow_agent.Orchestrator.Retry.{RetrySettings, process_retry_batch, run_retry_worker}
use yunxiao_workflow_agent.Orchestrator.Retry.Weight.{
  total, is_waiting, update_total, update_waiting, AllWaiting, limit-AllWaiting,
  candidates-AllWaiting, candidates-nonempty,
}
use yunxiao_workflow_agent.Orchestrator.Retry.Marks.{Rows, Returns, Handled, batch-Handled}

≤-trans : {a b c : ℕ} → a ≤ b → b ≤ c → a ≤ c
≤-trans p q = omega arith

≤-<-trans : {a b c : ℕ} → a ≤ b → b < c → a < c
≤-<-trans p q = omega arith

Handled-total :
    (most : ℕ) (es : List RetryRow) (w w' : Rows) → Handled es w w' → total most w' ≤ total most w
Handled-total most [] w w' h = rw h (omega arith)
Handled-total most (e ∷ es) w w' (m, h) =
    ≤-trans (Handled-total most es _ w' h) (update_total most m e.event.event_id w)

-- A batch that is not empty brings the rows nearer to the end.
Handled-waiting :
    (most : ℕ) (e : RetryRow) (es : List RetryRow) (w w' : Rows)
    → any (is_waiting most e.event.event_id) w ≡ true
    → Handled (e ∷ es) w w'
    → total most w' < total most w
Handled-waiting most e es w w' waiting (m, h) =
    ≤-<-trans (Handled-total most es _ w' h) (update_waiting most m e.event.event_id w waiting)

-- An empty one found no candidates, and changes nothing.
Handled-progress :
    (most : ℕ) (es : List RetryRow) (w w' : Rows)
    → AllWaiting most w es
    → (es ≡ [] → any (is_candidate most) w ≡ false)
    → Handled es w w'
    → (total most w' < total most w) ⊎ ((any (is_candidate most) w ≡ false) × (w' ≡ w))
Handled-progress most [] w w' waiting over h = inr (over refl, h)
Handled-progress most (e ∷ es) w w' (waiting, _) over h =
    inl (Handled-waiting most e es w w' waiting h)

limit-empty : (n : ℕ) (rows : Rows) → 1 ≤ n → limit_rows n rows ≡ [] → rows ≡ []
unfolding limit_rows
limit-empty zero rows some_room h = absurd (omega arith)
limit-empty (suc n) [] some_room h = refl
limit-empty (suc n) (r ∷ rows) some_room h = absurd (cc h)

candidate_weight :
    (most : ℕ) (rows : Rows) → total most rows ≤ 0 → any (is_candidate most) rows ≡ false
candidate_weight most [] h = refl
candidate_weight most (r ∷ rows) h = ground (arith, candidate_weight most rows (omega arith), h)

candidates-none :
    (most : ℕ) (rows : Rows)
    → any (is_candidate most) rows ≡ false
    → candidates most (λ _. false) rows ≡ []
unfolding candidates
candidates-none most [] h = refl
candidates-none most (r ∷ rows) h = elim (Bool-cases (is_candidate most r)) [
  | inl ready ↦ absurd (cc (rw ready at h))
  | inr over ↦ rw over (candidates-none most rows (rw over at h))
]

limit-none : (n : ℕ) → limit_rows n [] ≡ []
unfolding limit_rows
limit-none zero = refl
limit-none (suc n) = refl

Handled-none :
    (most n : ℕ) (w w' : Rows)
    → any (is_candidate most) w ≡ false
    → Handled (limit_rows n (candidates most (λ _. false) w)) w w'
    → w' ≡ w
Handled-none most n w w' over h = rw (candidates-none most w over, limit-none n) at h

Returns-state :
    {A : Type 0} (Q : Session Rows → Type 0) (r : Outcome A × Session Rows)
    → Returns (λ _ t. Q t) r
    → Q r.1
Returns-state Q (value a, t) h = h
Returns-state Q (raise e, t) h = absurd h

module _ (py : Python) (settings : RetrySettings) where
  batch_lem :
      (s : Session Rows)
      → IsCalm s.choices
      → let t = (process_retry_batch py settings (λ _. false) s).1 in
        Handled
          (limit_rows settings.batch_size
            (candidates settings.max_attempts (λ _. false) s.committed))
          s.committed
          t.committed
        × IsCalm t.choices
  batch_lem s calm =
      Returns-state
        (λ t.
          Handled
            (limit_rows settings.batch_size
              (candidates settings.max_attempts (λ _. false) s.committed))
            s.committed t.committed
          × IsCalm t.choices)
        (process_retry_batch py settings (λ _. false) s)
        (batch-Handled py settings (λ _. false) s calm)

  -- Once there are no candidates, batches change nothing.
  worker-rests :
      (n : ℕ) (s : Session Rows)
      → IsCalm s.choices
      → any (is_candidate settings.max_attempts) s.committed ≡ false
      → any
          (is_candidate settings.max_attempts)
          (run_retry_worker py settings (λ _. false) n s).committed
        ≡ false
  unfolding run_retry_worker
  worker-rests zero s calm over = over
  worker-rests (suc n) s calm over =
      let (handled, calm') = batch_lem s calm in
      worker-rests n (process_retry_batch py settings (λ _. false) s).1 calm' (
        rw (Handled-none settings.max_attempts settings.batch_size s.committed _ over handled) over)

-- Where no call of the database fails and no row is locked, and a batch may hold a row, and whatever the
-- broker answers: after as many batches as two for each attempt that the events have left and one
-- more for each candidate, and after any more, no event is pending or failed with attempts left.
pub worker-drains :
    (py : Python) (settings : RetrySettings) (n : ℕ) (s : Session Rows)
    → IsCalm s.choices
    → 1 ≤ settings.batch_size
    → total settings.max_attempts s.committed ≤ n
    → any
        (is_candidate settings.max_attempts)
        (run_retry_worker py settings (λ _. false) n s).committed
      ≡ false
unfolding run_retry_worker
worker-drains py settings zero s calm room enough =
    candidate_weight settings.max_attempts s.committed enough
worker-drains py settings (suc n) s calm room enough =
    let (handled, calm') = batch_lem py settings s calm in
    elim (Handled-progress settings.max_attempts _ s.committed _
      (limit-AllWaiting settings.batch_size settings.max_attempts s.committed _
        (candidates-AllWaiting settings.max_attempts (λ _. false) s.committed))
      (λ none_left.
        candidates-nonempty settings.max_attempts s.committed
          (limit-empty settings.batch_size _ room none_left))
      handled) [
        | inl nearer ↦
            worker-drains py settings n (process_retry_batch py settings (λ _. false) s).1 calm'
              room (omega arith)
        | inr (over, same) ↦
            worker-rests py settings n (process_retry_batch py settings (λ _. false) s).1 calm'
              (rw same over)
      ]
