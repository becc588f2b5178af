-- ===== src/Main.antt =====
-- ingress-service/cmd/server/main.go: how the service starts. What database/sql, pq and the AMQP library
-- do is given by the functions `open_database`, `ping` and `connect`.
pub mod Startup
use yunxiao_workflow_agent.Base.{Char, String, ℕ, ◌++◌, Option, none, some}
use yunxiao_workflow_agent.Base.Int.{ℤ}
use yunxiao_workflow_agent.Base.Result.{Error, error_text, Result, ok, err}
use yunxiao_workflow_agent.Config.{Config, Getenv, load, validate}
use yunxiao_workflow_agent.Mq.Retry.{
  Connected, ConnectRetryOptions, new_rabbit_publisher_with_retry,
}

-- The server runs over a database and a publisher, or `log.Fatalf` ends it. `unsettled`: the fuel of the
-- connection loop ran out.
pub data Start (Db P : Type 0) : Type 0 where
  running : Config → Db → P → Start Db P
  fatal : String → Start Db P
  unsettled : Start Db P

abbrev pub retry_options : Config → ConnectRetryOptions
retry_options cfg = record {
  initial_backoff = cfg.rabbitmq_connect_initial_backoff;
  max_backoff = cfg.rabbitmq_connect_max_backoff;
  max_wait = cfg.rabbitmq_connect_max_wait;
}

module _ {Db P : Type 0} where
  abbrev pub with_outcome : Config → Db → Result P → Start Db P
  with_outcome cfg db (ok publisher) = running cfg db publisher
  with_outcome cfg db (err e) = fatal ("connect rabbitmq: " ++ error_text e)

  abbrev pub with_publisher : Config → Db → Option (Connected P) → Start Db P
  with_publisher cfg db none = unsettled
  with_publisher cfg db (some c) = with_outcome cfg db c.outcome

  module _ (rune : Char → Char) (show : ℤ → String) (open_database : String → Result Db)
      (ping : Db → Option Error) (connect : String → String → ℕ → Result P) (fuel : ℕ) where
    unfoldable pub with_ping : Config → Db → Option Error → Start Db P
    with_ping cfg db (some e) = fatal ("ping postgres: " ++ error_text e)
    with_ping cfg db none = with_publisher cfg db (
        new_rabbit_publisher_with_retry show (connect cfg.rabbitmq_url cfg.rabbitmq_exchange)
          (retry_options cfg) fuel)

    unfoldable pub with_database : Config → Result Db → Start Db P
    with_database cfg (err e) = fatal ("open postgres: " ++ error_text e)
    with_database cfg (ok db) = with_ping cfg db (ping db)

    unfoldable pub with_config : Config → Option Error → Start Db P
    with_config cfg (some e) = fatal ("invalid config: " ++ error_text e)
    with_config cfg none = with_database cfg (open_database cfg.postgres_dsn)

    unfoldable pub main : Getenv → Start Db P
    main getenv = with_config (load getenv) (validate rune (load getenv))
