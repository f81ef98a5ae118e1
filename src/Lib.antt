-- ===== src/Lib.antt =====
-- Harbor Hook delivers webhooks. A tenant registers endpoints and subscriptions and publishes events
-- with the webhook service; the service writes one delivery for each subscriber and enqueues one task
-- for each on an NSQ topic; the worker receives the tasks, signs and sends the HTTP requests, writes
-- what became of them, and requeues a failed task with a delay or moves it to the dead letters. Around
-- these stand a receiver that checks signatures, the authentication of the service, the server that
-- issues its tokens, and a command-line client that calls the service over gRPC or through a gateway.
--
-- Which file models which part:
--   Common: Boolean tests, lists, results, and actions on a state that may fail (`Exec`).
--   Encoding, Http: base64url, decimal and hexadecimal texts, package strings, http.Header.
--   Store: the tables of deploy/docker/postgres/init as lists of rows, and the SQL statements of the Go
--     code (Inserts, Updates, Queries) with the keys, the unique indexes and the triggers; Effects and
--     Rows have what the statements do.
--   Delivery, Metrics: internal/delivery and internal/metrics.
--   World: the state that the services share: tables, topics and metrics, and the outcomes of the calls
--     to come. A call of the database or of NSQ takes the next outcome: it succeeds, it is refused
--     without effect, or its effect is kept and its answer lost. `run`, `query`, `publish_task` and
--     `publish_dead` are pool.Exec, pool.QueryRow and Publish; `attempted` is a call whose error is
--     dropped or handled. Invariants and Totality have rules for invariants and for actions that return.
--   Ingest: internal/ingest/service.go. Endpoints has Ping, CreateEndpoint and CreateSubscription,
--     Publish has PublishEvent, Replay has ReplayDelivery, Attempts has GetDeliveryStatus and ListDLQ,
--     and Calls has the calls that change its state.
--   Worker: cmd/worker/main.go. Handler has the message handler, in one function for each stretch
--     between its branches; Statements has its UPDATEs, Backoff has computeDelay, Reason has
--     classifyReason, and Lives the receipts of one message.
--   System: the service and the workers on one world, in any order of their steps; Journey has a
--     publish with the handling of its tasks, Onboarding a quick setup with both.
--   Receiver: cmd/fake-receiver/main.go.
--   Auth: internal/auth/jwt.go; Keys has its constructor and FetchJWKS. Jwks: cmd/jwks-server/main.go. Config: internal/config/config.go.
--   Monitor: cmd/nsq-monitor/main.go and the backlog monitor of cmd/worker/main.go.
--   Logging: internal/logging/logger.go, with the maps of fields as places of a heap.
--   Health, Database, Tracing: internal/health, internal/db and internal/tracing. Serving: the TLS
--     configuration of cmd/ingest/main.go, and its mux with the health check and the gateway.
--   Harborctl: cmd/harborctl/cmd. Settings, Json, Output and the module itself have root.go; Commands
--     and Lines have ping.go, health.go, endpoint.go, subscription.go, event.go and delivery.go; Quick
--     has quick.go, ConfigFile has config.go, and Traffic has traffic.go. A command acts on a service
--     through `Remote`, a record of the calls of gRPC and of one for HTTP.
--   Harborctl.Gateway: protogen/go/api/webhook/v1/service.pb.gw.go. `service` is the webhook service of
--     Ingest as a `Remote`, with the gateway as its way for HTTP, so that the commands run on its tables;
--     `Links` has what the network gives a run: the dial, and the errors of plaintext and of TLS calls that
--     do not arrive.
--   Examples: the theorems at concrete arguments.
--
-- Numbers are natural numbers. An int64 of the receiver and of the token server is an integer
-- with its wrap-around written out; counters, statuses and durations of the other parts are taken to be in the range of their Go types.
-- Loops are structural recursion. The digits of a number and the bytes of intToBytes are made by
-- recursion on fuel above the number, which is enough since each step divides it. Times are one number
-- for each handling. The loop of a phase of traffic ends by the clock: it is recursion on fuel, its
-- clock is a function of the round, and fuel for the duration and one more sleep is enough where each
-- round takes the sleep that it ends with.
--
-- Parameters stand for what the repository does not hold: identifiers and clocks, HMAC-SHA256,
-- jwt.Parse, the decoders of keys and certificates and the signing of tokens, the HTTP client,
-- the URLs of which http.NewRequestWithContext makes a request, the content types that net/http
-- detects, the network between harborctl and its server, url.ParseRequestURI, json.Marshal of a payload, time.ParseDuration and time.Parse, float64 arithmetic,
-- viper and the home directory, the mux and the decoders of the gateway, pgxpool, the propagator of
-- traces, and the limit of receipts of go-nsq. A message is the value that its JSON encodes, and a
-- payload is its JSON text. Standard input is a list of reads, each with the lines that it brings.
--
-- Not modelled: the start-up of the servers and their shutdown, the calls of the logger and of tracing
-- within the services, and in the command-line client the registration of flags, the commands version
-- and completion, and the art and the progress that it prints; the messages of service.pb.go, and the
-- gateway's handlers for a server in the same process, which nothing calls.
pub mod Auth
pub mod Common
pub mod Config
pub mod Database
pub mod Delivery
pub mod Encoding
pub mod Examples
pub mod Harborctl
pub mod Health
pub mod Http
pub mod Ingest
pub mod Jwks
pub mod Logging
pub mod Metrics
pub mod Monitor
pub mod Receiver
pub mod Serving
pub mod Store
pub mod System
pub mod Tracing
pub mod Worker
pub mod World
