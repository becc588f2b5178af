-- ===== src/Mq/Connection.antt =====
-- How `NewRabbitPublisherWithRetry` of ingress-service/internal/mq/publisher.go ends.
use yunxiao_workflow_agent.Base.{
  zero, suc, length, ℕ, ◌<◌, ◌≡◌, arith, refl, true, ltb, ◌≤◌, some, if◌then◌else◌, ap, ◌∙◌, String,
}
use yunxiao_workflow_agent.Base.Int.{pos, ℤ, negsuc, ltb_ℤ}
use yunxiao_workflow_agent.Mq.Retry.{
  Connected, retry_from, new_rabbit_publisher_with_retry, positive_duration, ConnectRetryOptions,
  second, wrap_error,
}
use yunxiao_workflow_agent.Base.Result.{Result}
use yunxiao_workflow_agent.Mq.Backoff.{two_62, AllWithin, slept_time, retry_from-Settles}

-- The longer one of two times.
abbrev pub longer : ℕ → ℕ → ℕ
longer a b = if ltb a b then b else a

-- An option that is not so long that its double is out of the range of a duration.
abbrev pub InRange : ℤ → Type 0
InRange d = ltb_ℤ d (pos two_62) ≡ true

positive_duration_lem :
    (d : ℤ) (f : ℕ)
    → InRange d
    → 1 ≤ f
    → f < two_62
    → (n : ℕ) × (positive_duration d (pos f) ≡ pos n) × (1 ≤ n) × (n < two_62)
unfolding positive_duration
positive_duration_lem (pos zero) f h p q = (f, refl, p, q)
positive_duration_lem (pos (suc n)) f h p q = (suc n, refl, omega arith, ground (arith, h))
positive_duration_lem (negsuc n) f h p q = (f, refl, p, q)

-- The loop from its start.
start-Settles :
    {A : Type 0} (connect : ℕ → Result A) (initial most wait fuel : ℕ)
    → 1 ≤ initial
    → initial < two_62
    → 1 ≤ most
    → most < two_62
    → 1 ≤ wait
    → wait < two_62
    → wait < fuel
    → (c : Connected A) × (retry_from connect (pos most) (pos wait) fuel 0 (pos initial) (pos 0)
        ≡ some c)
      × (c.outcome ≡ connect (length c.sleeps))
      × (slept_time c.sleeps < wait)
      × AllWithin (longer initial most) c.sleeps
start-Settles connect initial most wait fuel i1 i2 m1 m2 w1 w2 enough =
    let (c, settled, outcome, time, all) =
      retry_from-Settles connect most wait m1 m2 w2 (longer initial most) (ground arith)
        (ground (arith, i2, m2)) fuel 0 initial 0 i1 (ground arith) w1 (omega (arith, enough)) in
    (c, settled, outcome ∙ ap connect (omega arith), omega (arith, time), all)

abbrev nanoseconds : ℤ → ℕ
nanoseconds (pos n) = n
nanoseconds (negsuc n) = 0

-- What the retry options stand for, in nanoseconds.
abbrev pub initial_of : ConnectRetryOptions → ℕ
initial_of options = nanoseconds (positive_duration options.initial_backoff (pos second))

abbrev pub most_of : ConnectRetryOptions → ℕ
most_of options = nanoseconds (positive_duration options.max_backoff (pos 10000000000))

abbrev pub limit_of : ConnectRetryOptions → ℕ
limit_of options = nanoseconds (positive_duration options.max_wait (pos 60000000000))

-- Where no option is so long that its double is out of the range of a duration, the connection loop
-- of `NewRabbitPublisherWithRetry` ends, on any fuel above the limit in nanoseconds: its result is
-- that of the attempt after all the sleeps, with the error wrapped if it is one. It has slept less
-- than the limit in total, each time more than zero and no longer than the longer one of the initial
-- and the maximal backoff.
pub connection_ends :
    {A : Type 0} (show : ℤ → String) (connect : ℕ → Result A) (options : ConnectRetryOptions)
    (fuel : ℕ)
    → InRange options.initial_backoff
    → InRange options.max_backoff
    → InRange options.max_wait
    → limit_of options < fuel
    → (c : Connected A) × (new_rabbit_publisher_with_retry show connect options fuel ≡ some c)
      × (c.outcome ≡ wrap_error show (pos (limit_of options)) (connect (length c.sleeps)))
      × (slept_time c.sleeps < limit_of options)
      × AllWithin (longer (initial_of options) (most_of options)) c.sleeps
unfolding new_rabbit_publisher_with_retry
connection_ends show connect options fuel initial_ok most_ok limit_ok enough =
    let (initial, initial_given, i1, i2) =
      positive_duration_lem options.initial_backoff second initial_ok (ground arith)
        (ground arith) in
    let (most, most_given, m1, m2) =
      positive_duration_lem options.max_backoff 10000000000 most_ok (ground arith) (ground arith) in
    let (limit, limit_given, l1, l2) =
      positive_duration_lem options.max_wait 60000000000 limit_ok (ground arith) (ground arith) in
    let (c, settled, outcome, time, all) =
      start-Settles connect initial most limit fuel i1 i2 m1 m2 l1 l2 (rw limit_given at enough) in
    rw (initial_given, most_given, limit_given, settled)
      (_, refl, ap (wrap_error show (pos limit)) outcome, time, all)
