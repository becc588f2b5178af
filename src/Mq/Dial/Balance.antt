-- ===== src/Mq/Dial/Balance.antt =====
-- What `NewRabbitPublisher` and `Close` of ingress-service/internal/mq/publisher.go leave open.
use mathlib.Core.List.{◌++◌}
use yunxiao_workflow_agent.Base.{none, some, ℕ, ◌+◌, ◌≡◌, List, [], ◌∷◌, String, Option, refl}
use yunxiao_workflow_agent.Mq.Dial.{
  Act, opened_connection, closed_connection, opened_channel, closed_channel, declared,
  with_connection, with_exchange, Amqp, new_rabbit_publisher, with_channel, close, Dialled, Result,
  ok, err, Error, after, topic,
}

-- How many connections were opened, and how many closed; and so for channels.
pub record Tally : Type 0 where
  pub connections_opened : ℕ
  pub connections_closed : ℕ
  pub channels_opened : ℕ
  pub channels_closed : ℕ

module _ {Conn Chan : Type 0} where
  abbrev pub count : Act Conn Chan → Tally → Tally
  count (opened_connection c) t = record t { connections_opened = t.connections_opened + 1 }
  count (closed_connection c) t = record t { connections_closed = t.connections_closed + 1 }
  count (opened_channel h) t = record t { channels_opened = t.channels_opened + 1 }
  count (closed_channel h) t = record t { channels_closed = t.channels_closed + 1 }
  count (declared e) t = t

  abbrev pub tally : List (Act Conn Chan) → Tally
  tally [] = record {
    connections_opened = 0;
    connections_closed = 0;
    channels_opened = 0;
    channels_closed = 0;
  }
  tally (act ∷ acts) = count act (tally acts)

  -- As many connections and channels are open as this.
  abbrev pub Leaves : ℕ → List (Act Conn Chan) → Type 0
  Leaves n acts =
      ((tally acts).connections_opened ≡ (tally acts).connections_closed + n)
      × ((tally acts).channels_opened ≡ (tally acts).channels_closed + n)

  -- A failure leaves nothing open; a publisher has its connection and its channel, until it is closed.
  abbrev pub Balanced : (amqp : Amqp Conn Chan) → String → Dialled amqp → Type 0
  Balanced amqp exchange (err e, acts) = Leaves 0 acts
  Balanced amqp exchange (ok p, acts) =
      (p.exchange ≡ exchange) × Leaves 1 acts × Leaves 0 (acts ++ (close amqp p).1)

  channel-Balanced :
      (amqp : Amqp Conn Chan) (conn : Conn) (chan : Chan) (exchange : String) (e : Option Error)
      → Balanced amqp exchange (
          after amqp
            (opened_connection conn)
            (after amqp (opened_channel chan) (with_exchange amqp conn chan exchange e)))
  unfolding with_exchange close
  channel-Balanced amqp conn chan exchange none = (refl, (refl, refl), (refl, refl))
  channel-Balanced amqp conn chan exchange (some e) = (refl, refl)

  connection-Balanced :
      (amqp : Amqp Conn Chan) (conn : Conn) (exchange : String) (r : Result Chan)
      → Balanced amqp exchange
          (after amqp (opened_connection conn) (with_channel amqp conn exchange r))
  unfolding with_channel
  connection-Balanced amqp conn exchange (ok chan) =
      channel-Balanced amqp conn chan exchange (amqp.exchange_declare chan (topic amqp exchange))
  connection-Balanced amqp conn exchange (err e) = (refl, refl)

  dial-Balanced :
      (amqp : Amqp Conn Chan) (exchange : String) (r : Result Conn)
      → Balanced amqp exchange (with_connection amqp exchange r)
  unfolding with_connection
  dial-Balanced amqp exchange (ok conn) = connection-Balanced amqp conn exchange (amqp.channel conn)
  dial-Balanced amqp exchange (err e) = (refl, refl)

  -- Whatever the AMQP library answers: where `NewRabbitPublisher` fails, every connection and every
  -- channel that it opened has been closed; where it returns a publisher, one of each is open, and the
  -- publisher's exchange is the one asked for; and `Close` of this publisher leaves none open.
  pub new_rabbit_publisher-Balanced :
      (amqp : Amqp Conn Chan) (url exchange : String)
      → Balanced amqp exchange (new_rabbit_publisher amqp url exchange)
  unfolding new_rabbit_publisher
  new_rabbit_publisher-Balanced amqp url exchange = dial-Balanced amqp exchange (amqp.dial url)
