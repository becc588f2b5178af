-- ===== src/Lib.antt =====
-- The workflow agent: a verification library for ingress-service/ (Go) and for the part of
-- orchestrator-service/ (Python) that takes its events.
--
-- The service takes webhooks of Codeup (repositories), Projex (work items) and Flow (pipelines),
-- stores each as it came, turns it into a normalised event, stores this one once per dedup key and
-- publishes it to RabbitMQ, from where the orchestrator takes it. The parts and their files here:
--
--   ingress-service/internal/model/event.go                       Model
--   ingress-service/internal/yunxiao/{codeup,projex,flow}/*.go    Codeup, Projex, Flow: the payloads
--     and their decoding (Payload), the credentials (Auth), the adapters (Normalizer; for Codeup also
--     Fields, MergeRequest, Push and Note), and what they return (Outcome, Params, Fields)
--   ingress-service/internal/repository/event_repository.go       Repository, over Effects/Tables;
--     Repository/Spec is what it stands for, Repository/Client the calls and the view of the tables
--   ingress-service/internal/mq/publisher.go                      Mq (publish), Mq/Retry (connect),
--     Mq/Dial (open and close)
--   ingress-service/internal/config/config.go                     Config, Config/Validation,
--     Config/Durations
--   ingress-service/cmd/server/main.go                            Main, Main/Startup
--   ingress-service/internal/httpserver/server.go                 HttpServer: the routes, one file for
--     each handler, Answers for what the handlers share, Persist for `persistAndPublish`;
--     Order, Settling (Duties, Rows and Recorded for the raw events), Answered, Statuses, Security
--     and Service say how they behave
--   orchestrator-service/app/event_registry.py                    Orchestrator/Registry (with the
--     bindings of consumer.py)
--   orchestrator-service/app/{retry_worker,publisher}.py          Orchestrator/Retry, with its
--     statements in Rows and its messages in Messages
--   orchestrator-service/app/consumer.py                          Orchestrator/Consumer, with its rows
--     in Rows and its statements in Statements; Once, Steps and Exactly, and Ends, Transitions and
--     Final, each lead to an invariant of its tables, Quiet and Settled to what is settled
--   orchestrator-service/app/{repositories,db}.py                 the statements of these two, and
--     Orchestrator/Session (exceptions, transactions, the channel)
--
-- How the parts interact: a handler (HttpServer.serve) takes the configuration and the two
-- interfaces of server.go and publisher.go as arguments, EventRepository and Publisher, which are
-- records of programs. Repository.new_event_repository and Mq.rabbit_publisher fill them.
-- Config.load reads the environment and Config.validate is what cmd/server/main.go (Main) checks
-- first. Keys holds what the dedup keys of the adapters determine.
--
-- State. Go code with effects is a program (Effects.Prog): a tree of calls, each a SQL statement, a
-- message to the exchange, a new UUID, the time or a line of the log. Effects.exec says what a call
-- does to the world: the tables raw_event and normalized_event (Effects/Schema and Effects/Tables,
-- after infra/db/migration/V1 and V2), the messages of the exchange and the log. An Environment
-- decides the UUIDs, the times and the faults: a connection may fail at any call, before the other
-- side has done its work or after it. A Go error is a Result or an Option Error; errors.Is is
-- errors_is, by the sentinel that the error wraps. Names are Go's in snake case. Requests that are
-- served at the same time are threads of a System, whose steps (Effects/Concurrent) interleave their
-- calls in every order.
--
-- The orchestrator's functions are steps of a Session, which return or raise: what is committed, what
-- the open transaction has made of it, the messages sent and how deliveries were settled, with one
-- environment for the database and one for the broker. Its two programs meet the ingress service in the
-- table normalized_event and in the exchange; each has a session of its own here.
--
-- Machine integers: Go's int64 is ℤ with the wrap-around written out in add_int64 and mul_int64
-- (durations are int64 nanoseconds); ids and counters that only grow by one are ℕ.
--
-- Loops are structural recursion, but for the connection loop of Mq/Retry, which runs on fuel: each
-- of its rounds sleeps at least a nanosecond, so that the limit in nanoseconds, plus one, is enough
-- (Mq/Backoff, Mq/Connection). Base.Text.format_from runs on the number that it prints, plus one,
-- since a number has no more digits than that.
-- The retry worker of the orchestrator never ends: Retry.run_retry_worker runs so many of its batches.
--
-- Parameters, not modelled: the record Runtime holds what the code takes from Go's libraries
-- (unicode tables beyond ASCII, %q, SHA-256, time.Parse, the syntax and printing of JSON, which the
-- decoding by struct tags in Json stands on). HTTP, gin and the reading of bodies are the fields of
-- Http.Request. The columns' widths, the unique keys and the foreign key of the two tables are
-- modelled; text that PostgreSQL refuses for its encoding is a fault of the connection here, and the
-- id that a refused insert takes from the sequence is not skipped, which nothing depends on. A text
-- that exceeds a column only by spaces at its end, which PostgreSQL cuts off, is refused here as well.
-- Both services publish without confirms: a publish that returns no error is taken to have put the
-- message in the exchange, so that a message lost by the broker after that is not modelled.
--
-- The AMQP library is the record Mq.Dial.Amqp; RabbitMQ's matching of routing keys is the test
-- that IsTopic (Orchestrator/Registry/Topic) describes; Retry.Messages.Python and Consumer.Parts hold
-- json.dumps, psycopg's reading of JSONB, isoformat, the builders of contexts and the agents. Of the
-- engine of gin the routes are modelled, and the redirect of a path with a slash too many.
--
-- Not modelled: the error of Run and the deferred closes of cmd/server/main.go, the builders of
-- contexts, the agents, the settings and the start of the orchestrator, several consumers at the same
-- time, its sleeping and reconnecting, the text of the log, and messages without an event id or a trace
-- id, which neither publisher sends. Rows created at the same instant are taken in the order of the
-- table.
mod Base
pub mod Json
pub mod Runtime
pub mod Model
pub mod Effects
pub mod Repository
pub mod Config
pub mod Ids
pub mod Http
pub mod Mq
pub mod Orchestrator
pub mod Flow
pub mod Codeup
pub mod Projex
pub mod HttpServer
pub mod Tests
pub mod Keys
pub mod Main
