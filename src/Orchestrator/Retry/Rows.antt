-- ===== src/Orchestrator/Retry/Rows.antt =====
-- The table `normalized_event` for the retry worker: the statements of
-- orchestrator-service/app/repositories.py on its rows.
use yunxiao_workflow_agent.Base.{
  ℕ, zero, suc, String, Option, List, Bool, some, ◌+◌, ◌==◌, [], none, ◌∷◌, ◌||◌, if◌then◌else◌,
  ◌&&◌, leb, not, ltb,
}
use yunxiao_workflow_agent.Runtime.{Time}
use yunxiao_workflow_agent.Effects.Schema.{EventRow}
use yunxiao_workflow_agent.Orchestrator.Text.{first_chars}

-- A row of `normalized_event`, with the columns of infra/db/migration/V3.
pub record RetryRow : Type 0 where
  pub event : EventRow
  pub publish_attempts : ℕ
  pub last_publish_error : Option String
  pub last_publish_attempt_at : Option Time

-- SELECT ... WHERE publish_status IN ('pending', 'failed') AND publish_attempts < max_attempts
abbrev pub is_candidate : ℕ → RetryRow → Bool
is_candidate max_attempts r =
    (r.event.publish_status == "pending" || r.event.publish_status == "failed")
    && ltb r.publish_attempts max_attempts

-- ORDER BY created_at ASC; rows of the same time in the order of the table.
unfoldable pub insert_by_time : RetryRow → List RetryRow → List RetryRow
insert_by_time r [] = r ∷ []
insert_by_time r (x ∷ rows) =
    let later = insert_by_time r rows in
    if leb r.event.created_at.instant x.event.created_at.instant then r ∷ x ∷ rows else x ∷ later

-- The rows that the condition selects, in order; those that another transaction has locked are
-- skipped.
unfoldable pub candidates : ℕ → (RetryRow → Bool) → List RetryRow → List RetryRow
unfolding insert_by_time
candidates max_attempts is_locked [] = []
candidates max_attempts is_locked (r ∷ rows) =
    let rest = candidates max_attempts is_locked rows in
    if is_candidate max_attempts r && not (is_locked r) then insert_by_time r rest else rest

-- LIMIT
unfoldable pub limit_rows : ℕ → List RetryRow → List RetryRow
limit_rows zero rows = []
limit_rows (suc n) [] = []
limit_rows (suc n) (r ∷ rows) = r ∷ limit_rows n rows

-- UPDATE normalized_event ... WHERE event_id = ...
unfoldable pub update_rows : (RetryRow → RetryRow) → String → List RetryRow → List RetryRow
update_rows f event_id [] = []
update_rows f event_id (r ∷ rows) =
    (if r.event.event_id == event_id then f r else r) ∷ update_rows f event_id rows

abbrev pub set_succeeded : Time → RetryRow → RetryRow
set_succeeded time r = record r {
  event = record r.event { publish_status = "published"; published_at = some time };
  last_publish_error = none;
  last_publish_attempt_at = some time;
}

unfoldable pub set_failed : Time → String → RetryRow → RetryRow
set_failed time error_message r = record r {
  event = record r.event { publish_status = "failed" };
  publish_attempts = r.publish_attempts + 1;
  last_publish_error = some (first_chars 4000 error_message);
  last_publish_attempt_at = some time;
}
