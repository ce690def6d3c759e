-- ===== src/Lib.antt =====
-- A model of the notification pipeline: an HTTP writer that validates, stamps and publishes
-- notifications to Pulsar, and a deliverer that consumes them and pushes them to a provider. A
-- request passes the writer's middleware stack and handler, which calls the ingester, which calls
-- the publisher of the Pulsar library; a consumed message passes the consumer's loop to the
-- dispatcher, which calls a push provider under a retry policy and records one outcome. Callers use
-- the client package, which wraps a generated client of the writer's API. The two commands build
-- these parts and release them; the deliverer runs a pool of consumers.
--
-- Files, and the code that each is about:
--   Base            Go's strings, bytes, maps and integers as the program uses them
--   GoError         errors, errors.Is and errors.As; the sentinels and error types of
--                   internal/deliverer/provider/provider.go, internal/pulsarlib/pulsarlib.go,
--                   internal/writer/auth/auth.go and internal/writer/ingest/ingest.go
--   Message         the message of pkg/notificationpb/v1/notification.pb.go
--   Metrics         internal/metrics/metrics.go: each instrument is the list of its measurements;
--                   Metrics/Registration is initInstruments, which the recording helpers call
--                   first and which changes no measurement
--   Outcomes        internal/deliverer/outcomes/outcomes.go
--   Provider        internal/deliverer/provider/provider.go
--   Retry           internal/deliverer/retry/retry.go
--   Dispatcher      internal/deliverer/dispatcher/dispatcher.go: `dispatch` is Dispatch, cut into
--                   `deliver`, `attempts_loop`, `round`, `try_push` and `settle`
--   Sandbox         internal/deliverer/provider/sandbox/sandbox.go
--   Pushover        internal/deliverer/provider/pushover/pushover.go
--   Consumer        internal/deliverer/consumer/consumer.go: `run` is Run over the receipts that come
--   Workers         the worker pool of cmd/deliverer/main.go, as a step relation over the state that
--                   its workers share; `listen`, `begin_handle`, `begin_dispatch` and `try_again`
--                   are Run, handle and Dispatch, cut at the retry loop
--   Problems        internal/writer/problems/problems.go
--   Validation      the Validate family of internal/writer/ingest/ingest.go
--   Ingest          the Ingester of internal/writer/ingest/ingest.go
--   Pulsarlib       internal/pulsarlib (pulsarlib.go, apachepulsar.go, keys.go)
--   Http            requests and response writers; internal/writer/envelope/envelope.go and the
--                   Write function of internal/writer/problems/problems.go
--   Auth            internal/writer/auth (auth.go, bearer.go)
--   Handlers        internal/writer/httpserver/handlers.go
--   Router          internal/writer/httpserver/router.go
--   GeneratedServer internal/writer/httpserver/server.gen.go, of which the writer uses the wrapper
--   GeneratedClient pkg/notificationclient/generated/client.gen.go
--   NotificationClient  pkg/notificationclient (client.go, errors.go, response.go)
--   EndToEnd        the parts put together: a client, the writer, the substrate and the deliverer
--   Logging         internal/logging/logging.go
--   Commands        the run functions of cmd/writer/main.go and cmd/deliverer/main.go, and
--                   internal/telemetry/telemetry.go and internal/config/shared.go
--   Linter          tools/funcoptslint/funcoptslint.go
--   DelivererConfig internal/deliverer/config/config.go, and buildProvider of cmd/deliverer/main.go
--   WriterConfig    internal/writer/config/config.go
--   Examples        concrete runs
--
-- State is passed explicitly: `World` holds what a dispatch changes, `State` what the consumer's loop
-- changes, `WriterWorld` what a submission changes and `ServerWorld` what a request changes. Methods
-- under a mutex are single steps. The workers of the pool share one consumer, one dispatcher and one
-- state, so what one does to a provider or a clock the others see; a step of a worker is what one
-- receipt leads to up to the retry loop, or one round of that loop with its sleep, its call of Push
-- and its records, and the steps of different workers come in any order. A command's run is the
-- trace of what it acquires and releases. Errors are values of `Error`, with nil among them.
--
-- Conventions: a text is the list of its bytes. A time is the count of nanoseconds since Go's zero
-- time, which is 0, and a duration is a signed integer: the difference of two times saturates at the
-- bounds of int64, and the doubling of a backoff wraps around there. The jitter of a backoff is
-- computed on finite float64s, as dyadic rationals that are rounded to 53 bits (Base/Float). Clocks,
-- sleeps, identifiers and measured durations are functions of the count of their calls, and random
-- numbers of the count of attempts of an iterator. Lower case treats ASCII letters only, where Go's
-- function knows all of Unicode. The priority of a message is an int32 that is only compared and
-- printed. Metrics keep durations in nanoseconds, which the code converts to seconds. The status in
-- an access log line is the first one sent.
--
-- The substrate between the writer and the deliverer is any state with an operation for Publish; where
-- both are put together, it is seen as the list of the messages that it acknowledged, and the
-- deliverer's receipts are those messages. Several requests are served one after the other.
--
-- Packages outside the repository are parameters: the codecs for JSON and protobuf, url.Parse, the
-- HTTP and Pulsar clients, the router package's answer where no route matches, uuid and the file
-- system. The laws they are given are named as hypotheses.
--
-- Fuel: `unit_in_last` of Base/Float looks for a power of 2 among more than a float64 times an int64
-- can need. `attempts_loop` runs on the number of attempts that the policy allows, which is enough
-- because every round that goes on counts one attempt; the theorem on termination says so. Every
-- other loop is structural.
--
-- Not modelled: interleavings of two workers within one step; the parsing of the environment, log
-- lines but for outcomes and access, the descriptions of the instruments, the output of protoc, and
-- the contents of the embedded API document. A mutation of the caller's notification by Accept or
-- Submit is seen only in the message that is published or sent. Server timeouts and the race of a
-- cancelled context with a running call do not occur.
pub mod Base
pub mod GoError
pub mod Message
pub mod Retry
pub mod Provider
pub mod Outcomes
pub mod Metrics
pub mod Dispatcher
pub mod Sandbox
pub mod Pushover
pub mod Consumer
pub mod Workers
pub mod Problems
pub mod Validation
pub mod Pulsarlib
pub mod Ingest
pub mod Http
pub mod Auth
pub mod Handlers
pub mod Router
pub mod DelivererConfig
pub mod WriterConfig
pub mod GeneratedClient
pub mod GeneratedServer
pub mod NotificationClient
pub mod EndToEnd
pub mod Logging
pub mod Commands
pub mod Linter
pub mod Examples
