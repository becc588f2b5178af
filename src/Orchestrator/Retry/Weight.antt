-- ===== src/Orchestrator/Retry/Weight.antt =====
-- How far the rows are from having no candidates for orchestrator-service/app/retry_worker.py.
use yunxiao_workflow_agent.Base.{
  ◌≢◌, leb, eq_iff, ℕ, ◌+◌, ◌-◌, ◌*◌, ◌≤◌, ◌<◌, String, Bool, true, false, not, ◌&&◌, ◌≡◌, refl,
  List, [], ◌∷◌, ◌==◌, if◌then◌else◌, any, All, arith, Bool-cases, inl, inr, zero, suc,
}
use yunxiao_workflow_agent.Runtime.{Time}
use yunxiao_workflow_agent.Orchestrator.Retry.Rows.{
  RetryRow, is_candidate, candidates, limit_rows, update_rows, set_succeeded, set_failed,
  insert_by_time,
}

-- What a batch does to the rows of an event.
pub data Mark : Type 0 where
  succeeded : Time → Mark
  failed : Time → String → Mark

abbrev pub touch : Mark → RetryRow → RetryRow
touch (succeeded time) = set_succeeded time
touch (failed time text) = set_failed time text

-- Two for each attempt that is left, and one more for a candidate.
abbrev pub weight : ℕ → RetryRow → ℕ
weight most r = 2 * (most - r.publish_attempts) + (if is_candidate most r then 1 else 0)

abbrev pub total : ℕ → List RetryRow → ℕ
total most [] = 0
total most (r ∷ rows) = weight most r + total most rows

-- A candidate with this event id.
abbrev pub is_waiting : ℕ → String → RetryRow → Bool
is_waiting most id r = is_candidate most r && r.event.event_id == id

weight-touch : (most : ℕ) (m : Mark) (r : RetryRow) → weight most (touch m r) ≤ weight most r
unfolding set_failed
weight-touch most (succeeded time) r = ground arith
weight-touch most (failed time text) r = ground arith

weight-touch_candidate :
    (most : ℕ) (m : Mark) (r : RetryRow)
    → is_candidate most r ≡ true
    → weight most (touch m r) < weight most r
unfolding set_failed
weight-touch_candidate most (succeeded time) r h = ground arith
weight-touch_candidate most (failed time text) r h = ground arith

≤-refl : (a : ℕ) → a ≤ a
≤-refl a = omega arith

sum_le : {a b c d : ℕ} → a ≤ b → c ≤ d → a + c ≤ b + d
sum_le p q = omega arith

lt_sum : {a b c d : ℕ} → a < b → c ≤ d → a + c < b + d
lt_sum p q = omega arith

sum_lt : {a b c d : ℕ} → a ≤ b → c < d → a + c < b + d
sum_lt p q = omega arith

insert_nonempty : (e : RetryRow) (es : List RetryRow) → insert_by_time e es ≢ []
unfolding insert_by_time
insert_nonempty e [] h = cc h
insert_nonempty e (x ∷ es) h = ground (arith, h)

pub update_total :
    (most : ℕ) (m : Mark) (id : String) (rows : List RetryRow)
    → total most (update_rows (touch m) id rows) ≤ total most rows
unfolding update_rows
update_total most m id [] = ground arith
update_total most m id (r ∷ rows) = elim (Bool-cases (r.event.event_id == id)) [
  | inl hit ↦ rw hit (sum_le (weight-touch most m r) (update_total most m id rows))
  | inr other ↦ rw other (sum_le (≤-refl (weight most r)) (update_total most m id rows))
]

pub update_waiting :
    (most : ℕ) (m : Mark) (id : String) (rows : List RetryRow)
    → any (is_waiting most id) rows ≡ true
    → total most (update_rows (touch m) id rows) < total most rows
unfolding update_rows
update_waiting most m id [] h = absurd (cc h)
update_waiting most m id (r ∷ rows) h = elim (Bool-cases (r.event.event_id == id)) [
  | inl hit ↦ rw hit (elim (Bool-cases (is_candidate most r)) [
    | inl ready ↦ lt_sum (weight-touch_candidate most m r ready) (update_total most m id rows)
    | inr over ↦ sum_lt (weight-touch most m r) (update_waiting most m id rows (rw over at h))
  ])
  | inr other ↦
      rw other
        (sum_lt (≤-refl (weight most r)) (update_waiting most m id rows (ground (arith, h, other))))
]

-- The rows of a batch are waiting in the table.
abbrev pub AllWaiting : ℕ → List RetryRow → List RetryRow → Type 0
AllWaiting most rows = All (λ e. any (is_waiting most e.event.event_id) rows ≡ true)

waiting-weaken :
    (most : ℕ) (r : RetryRow) (rows es : List RetryRow)
    → AllWaiting most rows es
    → AllWaiting most (r ∷ rows) es
waiting-weaken most r rows [] h = tt
waiting-weaken most r rows (e ∷ es) (p, h) = (ground (arith, p), waiting-weaken most r rows es h)

waiting-insert :
    (most : ℕ) (rows : List RetryRow) (e : RetryRow) (es : List RetryRow)
    → any (is_waiting most e.event.event_id) rows ≡ true
    → AllWaiting most rows es
    → AllWaiting most rows (insert_by_time e es)
unfolding insert_by_time
waiting-insert most rows e [] p h = (p, tt)
waiting-insert most rows e (x ∷ es) p (q, h) =
    elim (Bool-cases (leb e.event.created_at.instant x.event.created_at.instant)) [
      | inl first ↦ rw first (p, (q, h))
      | inr late ↦ rw late (q, waiting-insert most rows e es p h)
    ]

pub candidates-AllWaiting :
    (most : ℕ) (is_locked : RetryRow → Bool) (rows : List RetryRow)
    → AllWaiting most rows (candidates most is_locked rows)
unfolding candidates
candidates-AllWaiting most is_locked [] = tt
candidates-AllWaiting most is_locked (r ∷ rows) =
    elim (Bool-cases (is_candidate most r && not (is_locked r))) [
      | inl taken ↦ rw taken (
          waiting-insert most (r ∷ rows) r (candidates most is_locked rows)
            (ground (arith, taken, (eq_iff r.event.event_id r.event.event_id).1 refl))
            (waiting-weaken most r rows _ (candidates-AllWaiting most is_locked rows)))
      | inr left ↦
          rw left (waiting-weaken most r rows _ (candidates-AllWaiting most is_locked rows))
    ]

pub limit-AllWaiting :
    (n most : ℕ) (rows es : List RetryRow)
    → AllWaiting most rows es
    → AllWaiting most rows (limit_rows n es)
unfolding limit_rows
limit-AllWaiting zero most rows es h = tt
limit-AllWaiting (suc n) most rows [] h = tt
limit-AllWaiting (suc n) most rows (e ∷ es) (p, h) = (p, limit-AllWaiting n most rows es h)

-- Where nothing is locked, a table with a candidate gives one.
pub candidates-nonempty :
    (most : ℕ) (rows : List RetryRow)
    → candidates most (λ _. false) rows ≡ []
    → any (is_candidate most) rows ≡ false
unfolding candidates
candidates-nonempty most [] h = refl
candidates-nonempty most (r ∷ rows) h = elim (Bool-cases (is_candidate most r)) [
  | inl ready ↦ absurd (insert_nonempty r (candidates most (λ _. false) rows) (rw ready at h))
  | inr over ↦ rw over (candidates-nonempty most rows (rw over at h))
]
