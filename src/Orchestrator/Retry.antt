-- ===== src/Orchestrator/Retry.antt =====
-- orchestrator-service/app/retry_worker.py, with what it calls of app/repositories.py and
-- app/publisher.py.
pub mod Rows
pub mod Messages
pub mod Weight
pub mod Marks
pub mod Progress
pub mod Sound
pub mod Evidence
pub mod Republish
use yunxiao_workflow_agent.Base.{
  true, ℕ, zero, suc, String, Option, List, Bool, some, ◌+◌, ◌/◌, ◌==◌, [], none, ◌*◌, false, ◌∷◌,
  ◌||◌, if◌then◌else◌, ◌++◌, ◌&&◌, leb, not, ltb,
}
use yunxiao_workflow_agent.Base.Int.{pos}
use yunxiao_workflow_agent.Json.{Json, members, Items, Members}
use yunxiao_workflow_agent.Runtime.{Time}
use yunxiao_workflow_agent.Effects.Schema.{EventRow}
use yunxiao_workflow_agent.Orchestrator.Session.{
  now, exc_text, basic_publish, ◌>>=◌, Outcome, Py, return, Session, try_except,
  postgres_connection, execute, raise, value,
}
use yunxiao_workflow_agent.Effects.{Message}
use yunxiao_workflow_agent.Base.Dict.{Dict}
use yunxiao_workflow_agent.Orchestrator.Text.{first_chars}
use yunxiao_workflow_agent.Base.Text.{format_nat, is_empty}
use yunxiao_workflow_agent.Model.{omit_if}
use yunxiao_workflow_agent.Orchestrator.Retry.Rows.{
  RetryRow, is_candidate, candidates, limit_rows, update_rows, set_succeeded, set_failed,
}
use yunxiao_workflow_agent.Orchestrator.Retry.Messages.{
  Python, build_normalized_event_message, event_message,
}

abbrev pub fetch_retry_candidates : ℕ → ℕ → (RetryRow → Bool) → Py (List RetryRow) (List RetryRow)
fetch_retry_candidates limit max_attempts is_locked =
    execute (λ rows. (value (limit_rows limit (candidates max_attempts is_locked rows)), rows))

unfoldable pub mark_publish_retry_succeeded : String → Py (List RetryRow) Unit
mark_publish_retry_succeeded event_id =
    now >>= λ time. execute (λ rows. (value tt, update_rows (set_succeeded time) event_id rows))

unfoldable pub mark_publish_retry_failed : String → String → Py (List RetryRow) Unit
mark_publish_retry_failed event_id error_message = now >>= λ time.
    execute (λ rows. (value tt, update_rows (set_failed time error_message) event_id rows))

-- `settings`, as far as the worker reads them.
pub record RetrySettings : Type 0 where
  pub rabbitmq_exchange : String
  pub batch_size : ℕ
  pub max_attempts : ℕ

module _ (py : Python) where
  -- The rest, once the body is dumped.
  unfoldable pub publish_body : String → RetryRow → Outcome String → Py (List RetryRow) Unit
  publish_body exchange row (raise e) = λ s. (raise e, s)
  publish_body exchange row (value body) =
      now >>= λ time. basic_publish (event_message exchange row body time)

  unfoldable pub publish_normalized_event : String → RetryRow → Py (List RetryRow) Unit
  publish_normalized_event exchange row =
      publish_body exchange row (py.dumps (build_normalized_event_message py row))

  -- One event of a batch; whether it was handled.
  unfoldable pub handle_event : RetrySettings → RetryRow → Py (List RetryRow) Bool
  handle_event settings row =
      try_except
        (publish_normalized_event settings.rabbitmq_exchange row >>= λ _.
          mark_publish_retry_succeeded row.event.event_id >>= λ _. return true)
        (λ exc. mark_publish_retry_failed row.event.event_id (exc_text exc) >>= λ _. return false)

  unfoldable pub handle_events : RetrySettings → List RetryRow → ℕ → Py (List RetryRow) ℕ
  handle_events settings [] handled = return handled
  handle_events settings (row ∷ rows) handled = handle_event settings row >>= λ done.
      handle_events settings rows (if done then handled + 1 else handled)

  unfoldable pub process_retry_batch : RetrySettings → (RetryRow → Bool) → Py (List RetryRow) ℕ
  process_retry_batch settings is_locked = postgres_connection (
      fetch_retry_candidates settings.batch_size settings.max_attempts is_locked >>= λ events.
      handle_events settings events 0)

  -- `run_retry_worker`, for so many batches: after one that raises the worker connects again.
  unfoldable pub run_retry_worker :
      RetrySettings → (RetryRow → Bool) → ℕ → Session (List RetryRow) → Session (List RetryRow)
  run_retry_worker settings is_locked zero s = s
  run_retry_worker settings is_locked (suc batches) s =
      run_retry_worker settings is_locked batches (process_retry_batch settings is_locked s).1
