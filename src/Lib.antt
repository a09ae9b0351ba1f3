-- ===== src/Lib.antt =====
-- A verification library for ModelMux, an HTTP gateway to language models.
--
-- The gateway admits a request through a bounded limiter, and hands it to a router, which calls a primary
-- provider and, for transient failures, a fallback, each behind a circuit breaker. Asynchronous jobs
-- are rows of a table: the gateway inserts them, a dispatcher publishes them to a broker, and workers
-- claim, process and settle them.
--
-- Prelude.antt: shared names, Boolean tests, lists, and signed integers over the native numbers.
-- Errors.antt (src/errors.ts, src/providers/failure-policy.ts, src/cancellation.ts): the errors as data,
--   `status_code`, `code`, `message`, `headers`, and `is_retryable_provider_error`.
-- Circuit.antt (src/providers/circuit-breaker.ts): the class is a record. `execute` is `admit` (before the
--   await) and `settle` (after it); Circuit/Reach.antt interleaves any number of calls as a step
--   relation. Circuit/Laws, Runs and Trips hold the properties.
-- Admission.antt (src/concurrency/in-memory-concurrency-limiter.ts): `acquire`, `release`, `on_timeout`,
--   `on_abort` and `snapshot`; a history is a list of timed events. Permits and waiters are
--   numbered, which stands for the identity of the objects.
-- Jobs.antt (src/queue/job-queue.ts, job-error.ts, postgres-job-store.ts): the row type; Jobs/Table.antt, a
--   SELECT, UPDATE, DELETE or COUNT as a function on a list of rows; Jobs/Submission.antt, `enqueue`
--   and `getJob`; Jobs/Attempts.antt, `dispatchOne`, `claim`, `complete`, `fail`, `maintain` and
--   `queueDepth`. Jobs/Life.antt is the step relation of the statements, in any order.
-- Routing.antt (src/providers/router.ts): `route`, `call` and `snapshot` as functions on a pass, whose world
--   (both circuits, clock, abort signal) other requests may change while a provider is awaited.
--   Routing/Stream.antt: `chat` and `stream`; a provider's stream is a script.
-- Worker.antt (src/queue/rabbitmq.ts, src/jobs/inference-processor.ts): `execute` on one delivered message,
--   over a pool of connections that may fail a statement before or after its effect.
-- Streaming.antt (src/providers/stream-parser.ts): `readLines` and `readSseData` over decoded chunks.
-- Http.antt (src/app.ts, src/queue/rabbitmq.ts): the error handler, and the store's errors as the queue
--   reports them to the routes.
--
-- RateLimit.antt (src/rate-limit/redis-token-bucket.ts): `script`, the Lua script at a time of Redis, in exact
--   fractions of a token, and `consume`. The script counts in doubles, so it may differ
--   from the model by their rounding: a decision or a delay at the very edge. RateLimit/Window and Refill hold the
--   properties, which are of the exact count.
-- Auth.antt (src/auth): `parse_bearer_token`, `find_enabled_by_hash`, `authenticate`, and `guard`, the hook that
--   every request with an API key passes before its handler; it calls `consume` on the key's bucket.
-- Handling.antt: handlers as state passing, for try, catch and finally. Handling/Triples.antt says what holds before
--   and after a handler by its parts, Relations.antt when two handlers end alike, and Steps.antt what
--   follows a first part that is known.
-- Chat.antt (src/routes/chat.ts, src/routes/sse.ts): the session of a request and its trace of effects;
--   Chat/Handlers.antt, `chat_handler` and `stream_handler`. Chat/Orders and Streams hold the automata of the
--   orders that are allowed, Answers, Trails, Faults and StreamTrails what the handlers do in them, and
--   OpenCache the chat handler with a cache that fails. The limiter, the cache and the provider are operations
--   of a world, which stand for Admission, Cache and Routing.
-- Cache.antt (src/cache): `get` and `put` over Redis as an association list of values that expire.
-- Json.antt: JSON values. Adapters.antt (src/providers/openai.ts, src/providers/ollama.ts): the loops of both
--   `stream` methods, from the events or lines of Streaming to a script for Routing/Stream.
-- Broker.antt (src/queue/rabbitmq-broker.ts): the consumer as `step` on the events of the client and the ends of
--   handlers; Broker/Books, Answers, Cancels and Draining hold the properties.
-- Config.antt (src/config.ts): the parsers; Config/Load.antt, `load_config`; Config/Startup.antt
--   (src/server.ts), the limiter, store options and cache that a configuration gives; Config/Providers.antt
--   (src/providers/create-provider.ts), the providers with their constructors, the circuits and the router.
--
-- The State children of Admission and Routing hold the records; a file called Examples holds the witnesses,
-- which run the theorems on concrete inputs.
--
-- There is no fuel: every loop is structural recursion on a list, a text, or a finite script. Times are
-- whole milliseconds. Parameters of the definitions stand for code outside the repository: SHA-256,
-- random ids, JSON, URLs and numbers as JavaScript reads them, the broker's confirmation, the database's order of texts, and providers. Log lines
-- are left out, and metrics are lists.
--
-- Not modelled: the rest of src/app.ts and src/routes (fastify and its schemas), src/observability (prom-client),
-- the HTTP calls of the provider adapters, src/jobs/inference-jobs.ts beyond its name, and
-- the processes and scripts beyond what they build; of the modelled files, JSON parsing, the listeners of
-- request-cancellation.ts, `connect` and `publish` of the broker, and the dispatch loop and shutdown of the worker.
pub mod Prelude
pub mod Circuit
pub mod Admission
pub mod Errors
pub mod Jobs
pub mod Routing
pub mod Worker
pub mod Streaming
pub mod Http
pub mod RateLimit
pub mod Auth
pub mod Handling
pub mod Chat
pub mod Config
pub mod Cache
pub mod Broker
pub mod Json
pub mod Adapters
