-- ===== src/Lib.antt =====
-- The verification library of the backend of multi-plantform-poster, a service that turns one
-- article into publications on several platforms. It models the parts of the Go backend that decide
-- what may happen: who may do what, what is published when and how often, and how often a failing
-- service is called. Paths below are from the repository's root.
--
-- Files and the code that they model:
--   Base, Base/...: names that all files share, with lists, Boolean tests and texts.
--   Fault: errors of backend/internal/pkg/resilience/resilience.go, with RetryableError.
--   Resilience/Breaker: CircuitBreaker (Allow, Record, State) as a state machine whose methods are
--     single steps, because each holds the mutex throughout. Breaker/Invariant and Breaker/Probing
--     hold its theorems.
--   Resilience/Policy: HTTPPolicy and OperationPolicy, how they are normalised, nextBackoff and the
--     registry of breakers.
--   Resilience/Operation, Resilience/RoundTrip: Run and ResilientRoundTripper.RoundTrip. The
--     operation or the base round tripper, the sleeps and the clock are scripts by attempt number.
--   RedisDegrade: Guard of backend/internal/pkg/redisdegrade/redisdegrade.go, on the breaker.
--   RateLimit: the check of the buckets of a request of
--     backend/internal/middleware/rate_limit.go, with its script, on Redis counters with laws and on
--     the guard of RedisDegrade, and RateLimit/Buckets: rateLimitBucketsFor. RateLimit/Counting,
--     RateLimit/Window and RateLimit/Users hold its theorems.
--   StickyWriter: the cookie of backend/internal/middleware/sticky_writer.go, and
--     StickyWriter/Accepting, which reads it back. HMAC and base64 are a record with laws.
--   Store: the database as the services use it: statements that may fail by a script of faults, and
--     transactions. Store/Rules, Store/Undo, Store/Turns: how invariants go through sequences of
--     statements, what failing ones leave and what succeeding ones reach.
--   Access: backend/internal/services/accesspolicy/accesspolicy.go, over lookups that may fail.
--     Access/Listing: ScopeAccessibleProjectsWithDB over tables.
--   StreamGate: the limiter of backend/internal/pkg/streamgate/streamgate.go with its memory store.
--   Publish: rows of backend/internal/models/models.go. Publish/Lifecycle: PublicationLifecycle of
--     backend/internal/services/publish/lifecycle.go. Publish/Outbox: claims and marks of
--     backend/internal/services/publish/outbox.go. Publish/Service:
--     PublishProjectInWorkspaceWithContext of backend/internal/services/publish/service.go, which
--     uses Lifecycle for the tables and takes what lies outside (the access check, publishers,
--     accounts, media) as a record of functions.
--   Publish/Lock: the lock of a publication of backend/internal/services/publish/queue.go, over a
--     Redis with laws; Lock/Ownership has the table of leases that it implements. RedisKey:
--     backend/internal/pkg/rediskey/rediskey.go, which names the keys.
--   Publish/Queue, Publish/Worker: what the jobs of queue.go share, and processPublishJob, which
--     takes the lock, calls Publish/Service and writes down how it ended. Publish/Handover: the
--     events of the outbox on their way to asynq. Publish/Enqueue: EnqueuePublishProject, which
--     takes the lock and writes schedule, events and outbox event in one transaction, and
--     Publish/Replay, which answers a repeated request from the events (service.go).
--   Publish/Schedules, Publish/Dispatcher: schedules of
--     backend/internal/services/publish/schedule.go, and the dispatcher, which hands those that are
--     due to Publish/Worker.
--   Workspaces, Workspaces/Invites, Workspaces/Creating: members, invites and new workspaces of
--     backend/internal/services/workspace/management.go, on the access check of Access.
--   Tests/...: the theorems at concrete inputs.
--
-- How the code is read. A uuid is a number and uuid.Nil is 0; a time or duration is a number of
-- nanoseconds (of milliseconds in RateLimit), never negative, and what the clock reads is an
-- argument. Texts are lists of bytes, and of these the ASCII letters alone have a case, also where the
-- source compares with strings.EqualFold.
-- The loops of Run and RoundTrip go by the number of rounds left, which starts at MaxAttempts, the
-- bound of the loop in the source, so no round is lost; and the digits of
-- an int64 in StickyWriter go by 19, the most that it has; no other model has fuel. Statements are
-- steps of their own; a transaction takes effect as a whole or not at all, and reads of one table
-- by another caller in between are not modelled, but for the sequences of calls that the theorems
-- speak of. The texts of errors are kept only where the code tests them.
--
-- Redis is a record of commands with their documented behaviour as laws, and a command, like a
-- statement, fails without effect or succeeds; a reply that is lost behind an effect is modelled
-- in RateLimit alone.
-- asynq answers for a task by a function of the job. The refresher of the worker's lock runs at given
-- ticks before the publish call: it writes nothing that the call reads, and the script of faults may
-- fail either. What others do to the state while a request waits for another is a list of changes.
--
-- Not modelled: the HTTP handlers and the middleware but for the rate limiter and the sticky
-- writer's cookie, the Redis half of the stream gate, caches and read models, the services of
-- projects, statistics, media, AI and e-mail, the adapters of the platforms, and the programs in
-- other languages.
pub mod Base
pub mod Fault
pub mod Resilience
pub mod Store
pub mod Access
pub mod StreamGate
pub mod Publish
pub mod Workspaces
mod Tests
pub mod RedisDegrade
pub mod RedisKey
pub mod RateLimit
pub mod StickyWriter
