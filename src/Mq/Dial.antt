-- ===== src/Mq/Dial.antt =====
-- `NewRabbitPublisher` and `Close` of ingress-service/internal/mq/publisher.go: the connection, its channel
-- and the exchange. The AMQP library is a parameter: what its calls return.
pub mod Balance
use yunxiao_workflow_agent.Base.{
  ℕ, ◌+◌, String, Bool, true, false, Option, none, some, List, [], ◌∷◌,
}
use yunxiao_workflow_agent.Base.Result.{Error, Result, ok, err}

-- The parameters of `ExchangeDeclare`.
pub record Exchange : Type 0 where
  pub name : String
  pub kind : String
  pub durable : Bool
  pub auto_deleted : Bool
  pub internal : Bool
  pub no_wait : Bool

-- The library's calls, with what they return; a connection or a channel that is closed twice, or not
-- at all, is the program's doing.
pub record Amqp (Conn Chan : Type 0) : Type 0 where
  pub dial : String → Result Conn
  pub channel : Conn → Result Chan
  pub exchange_declare : Chan → Exchange → Option Error
  pub close_channel : Chan → Option Error
  pub close_connection : Conn → Option Error

-- What the program has done, in order: the calls that opened something, declared the exchange, and the
-- attempts to close.
pub data Act (Conn Chan : Type 0) : Type 0 where
  opened_connection closed_connection : Conn → Act Conn Chan
  opened_channel closed_channel : Chan → Act Conn Chan
  declared : Exchange → Act Conn Chan

-- `RabbitPublisher`; a pointer that may be nil is an option.
pub record RabbitPublisher (Conn Chan : Type 0) : Type 0 where
  pub conn : Option Conn
  pub channel : Option Chan
  pub exchange : String

module _ {Conn Chan : Type 0} (amqp : Amqp Conn Chan) where
  abbrev pub Dialled : Type 0
  Dialled = Result (RabbitPublisher Conn Chan) × List (Act Conn Chan)

  abbrev pub after : Act Conn Chan → Dialled → Dialled
  after act (r, acts) = (r, act ∷ acts)

  abbrev pub topic : String → Exchange
  topic exchange = record {
    name = exchange;
    kind = "topic";
    durable = true;
    auto_deleted = false;
    internal = false;
    no_wait = false;
  }

  -- The rest, once the exchange is declared, or could not be.
  unfoldable pub with_exchange : Conn → Chan → String → Option Error → Dialled
  with_exchange conn chan exchange (some e) =
      (err e, closed_channel chan ∷ closed_connection conn ∷ [])
  with_exchange conn chan exchange none = (
    ok (record { conn = some conn; channel = some chan; exchange = exchange }),
    declared (topic exchange) ∷ [],
  )

  -- The rest, once the channel is open, or could not be opened.
  unfoldable pub with_channel : Conn → String → Result Chan → Dialled
  with_channel conn exchange (err e) = (err e, closed_connection conn ∷ [])
  with_channel conn exchange (ok chan) =
      after (opened_channel chan)
        (with_exchange conn chan exchange (amqp.exchange_declare chan (topic exchange)))

  unfoldable pub with_connection : String → Result Conn → Dialled
  with_connection exchange (err e) = (err e, [])
  with_connection exchange (ok conn) =
      after (opened_connection conn) (with_channel conn exchange (amqp.channel conn))

  unfoldable pub new_rabbit_publisher : String → String → Dialled
  new_rabbit_publisher url exchange = with_connection exchange (amqp.dial url)

  -- `Close`: the channel's error is dropped, the connection's is returned.
  abbrev close_conn : Option Conn → Option Error × List (Act Conn Chan)
  close_conn none = (none, [])
  close_conn (some conn) = (amqp.close_connection conn, closed_connection conn ∷ [])

  abbrev before_it :
      Option Chan → Option Error × List (Act Conn Chan) → Option Error × List (Act Conn Chan)
  before_it none r = r
  before_it (some chan) (e, acts) = (e, closed_channel chan ∷ acts)

  unfoldable pub close : RabbitPublisher Conn Chan → Option Error × List (Act Conn Chan)
  close p = before_it p.channel (close_conn p.conn)
