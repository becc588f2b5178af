-- ===== src/Mq/Retry.antt =====
-- `NewRabbitPublisherWithRetry` of ingress-service/internal/mq/publisher.go: the connection at
-- start-up, with exponential backoff. Durations are `int64` nanoseconds.
use yunxiao_workflow_agent.Base.{
  ℕ, zero, suc, String, ◌++◌, Option, none, some, List, [], ◌∷◌, if◌then◌else◌,
}
use yunxiao_workflow_agent.Base.Int.{ℤ, pos, is_positive, add_int64, mul_int64, ltb_ℤ, leb_ℤ}
use yunxiao_workflow_agent.Base.Result.{plain, error_text, Result, ok, err}

abbrev pub second : ℕ
second = 1000000000

pub record ConnectRetryOptions : Type 0 where
  pub initial_backoff : ℤ
  pub max_backoff : ℤ
  pub max_wait : ℤ

unfoldable pub positive_duration : ℤ → ℤ → ℤ
positive_duration value fallback = if is_positive value then value else fallback

unfoldable pub next_backoff : ℤ → ℤ → ℤ
unfolding mul_int64
next_backoff current max_backoff =
    let next = mul_int64 current (pos 2) in if ltb_ℤ max_backoff next then max_backoff else next

-- What the loop ends with: the publisher or the last error, and the backoffs slept, in order.
pub record Connected (A : Type 0) : Type 0 where
  pub outcome : Result A
  pub sleeps : List ℤ

abbrev pub slept : {A : Type 0} → ℤ → Option (Connected A) → Option (Connected A)
slept b none = none
slept b (some c) = some (record c { sleeps = b ∷ c.sleeps })

-- `connect n` is the result of the attempt after `n` failed ones. `none`: the fuel ran out.
module _ {A : Type 0} (connect : ℕ → Result A) (max_backoff max_wait : ℤ) where
  unfoldable pub retry_from : ℕ → ℕ → ℤ → ℤ → Option (Connected A)
  unfolding next_backoff add_int64
  retry_from zero attempt backoff waited = none
  retry_from (suc fuel) attempt backoff waited =
      let rest =
        retry_from fuel (suc attempt) (next_backoff backoff max_backoff)
          (add_int64 waited backoff) in
      elim (connect attempt) [
        | ok publisher ↦ some (record { outcome = ok publisher; sleeps = [] })
        | err e ↦
            if leb_ℤ max_wait (add_int64 waited backoff)
            then some (record { outcome = err e; sleeps = [] })
            else slept backoff rest
      ]

abbrev pub wrap_error : {A : Type 0} → (ℤ → String) → ℤ → Result A → Result A
wrap_error show max_wait (ok a) = ok a
wrap_error show max_wait (err e) =
    err (plain ("connect rabbitmq after " ++ show max_wait ++ ": " ++ error_text e))

abbrev pub wrap_connected :
    {A : Type 0} → (ℤ → String) → ℤ → Option (Connected A) → Option (Connected A)
wrap_connected show max_wait none = none
wrap_connected show max_wait (some c) =
    some (record c { outcome = wrap_error show max_wait c.outcome })

-- `show` is `Duration.String`.
unfoldable pub new_rabbit_publisher_with_retry :
    {A : Type 0} → (ℤ → String) → (ℕ → Result A) → ConnectRetryOptions → ℕ → Option (Connected A)
unfolding positive_duration retry_from
new_rabbit_publisher_with_retry show connect options fuel =
    let initial = positive_duration options.initial_backoff (pos second) in
    let max_backoff = positive_duration options.max_backoff (pos 10000000000) in
    let max_wait = positive_duration options.max_wait (pos 60000000000) in
    wrap_connected show max_wait (retry_from connect max_backoff max_wait fuel 0 initial (pos 0))
