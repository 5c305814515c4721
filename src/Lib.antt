-- ===== src/Lib.antt =====
-- A model of the core of ts-commons, a set of TypeScript packages for services built on domain
-- events, and proofs of what its parts promise. Modelled are the primitives that every package
-- uses, the resilience policies that guard a call, sagas and their compensation, the transactional
-- outbox with its relay, the routing of messages inside a process, the in-memory job scheduler,
-- stored events with the aggregates rebuilt from them, idempotent use cases and the mediator, hot
-- streams with their windows and joins, the rooms of a WebSocket server and the client that
-- reconnects to it, the registries of schemas and of services, and the blue-green and canary ways
-- to bring out a release.
--
-- How the program's parts stand to one another: a use case runs its calls through the resilience
-- policies; it saves events in the outbox store, from which the relay publishes them; subscribers
-- get them through the routers and keep an inbox against duplicates; a saga runs steps over
-- several services and undoes them when one fails.
--
-- Which file models what:
-- * Base and its children: the helpers. Base/JsMap is the insertion-ordered `Map<string, V>`,
--   Base/Int the integers, Base/Lists the lists measured by native numbers, Base/Tests the tests.
-- * Kernel/Result, Kernel/Option, Kernel/Either: packages/kernel/src/primitives, one function per
--   method; a method that throws returns `thrown`. Kernel/Result/Collect and Monad have the
--   proofs.
-- * Resilience/Bulkhead, CircuitBreaker, RateLimiter, Retry, Hedge, Health, Fallback: the classes
--   of packages/resilience/src, each with its proofs in the files below it.
-- * Saga/Transaction, Choreography, Store, Monitor: the classes of packages/saga/src.
-- * Outbox/Store, Inbox, Relay: packages/outbox/src. Outbox/Store/Keyed has the invariant of the
--   store; Outbox/Relay/Batch and Starvation have the proofs on poll cycles one after another,
--   Overlap the cycles that overlap and the files below it, last Published, their proof.
-- * PubSub/TopicRouter, RequestReply, FanOut, MessageFilter: packages/messaging/src/pubsub.
-- * Scheduler/Limiter, Registry, InMemory, Intervals: packages/scheduler/src. InMemory/Limits has
--   the proof on concurrency, Statistics on the counters, Retries the retry loop and its proof.
-- * EventSourcing/Store, Aggregate: packages/eventsourcing/src, without its replay folder.
--   EventSourcing/Reload has the proof on an aggregate that is saved and rebuilt.
-- * Process/StateMachine, Timeouts, Store, Lifecycle, Monitor: packages/process-manager/src, with
--   ProcessManager.ts in Lifecycle and its proof in Lifecycle/Reachable.
-- * Application/Idempotency, below Application: packages/application/src/idempotency. OneAtATime
--   has the proof that calls of one key do not run at once, Cached the one on kept results.
-- * Application/Mediator, below Application: packages/application/src/mediator, with Behaviors for
--   the three behaviours; Sorting and Stack have the proofs.
-- * Streams/EventStream, Operators, Queue, Windows, Merger: packages/streams/src, each with its
--   proofs in the files below it.
-- * Realtime/Rooms, below Realtime: packages/websocket/src/RoomManager.ts; Membership and
--   Refinement have the proofs.
-- * Realtime/Reconnection, below Realtime: packages/websocket/src/ReconnectionHandler.ts, with its
--   proof in Doubling.
-- * Schemas/Registry, below Schemas: packages/schema-registry/src. Versions, Compatible and Growth
--   have the proofs.
-- * Discovery/Registry and Balancer, below Discovery: packages/discovery/src. Watched, RoundRobin
--   and LeastConnections have the proofs.
-- * Deployment/BlueGreen and Canary, below Deployment: the folders bluegreen and canary of
--   extras/k8s/src. Traffic, Progress and Promotions have the proofs.
-- * A file Tests in each part has runs at concrete inputs.
--
-- How the code is translated. A class is a record of its fields and a method a function from the
-- record to the record, beside its result. `Date.now()` and `new Date()` are arguments, in
-- milliseconds. A promise is what it settles to; where calls overlap, in the bulkhead, the circuit
-- breaker, the hedge, the request/reply broker, the scheduler, the relay's timer and the idempotent
-- use case, the model is a list of events in any order in which the event loop can bring them, and
-- the code
-- between two awaits is one step.
-- Functions that callers pass in are parameters: what they do to the world and whether they fulfil
-- or reject. Strings are compared by `===` only, and split at dots in the topic router. Loops are
-- structural recursion on the list that is walked, or on the attempts left, so that nothing runs
-- on fuel. Numbers are natural numbers; where the source's can be negative they are integers, and
-- the rate limiter's floating-point balance is counted in exact thousandths of a token and a canary
-- release's error rates in millionths, without rounding; the delays of a retry are of any type of
-- numbers with the operations that the loop uses.
--
-- Not modelled: adapters of databases, brokers, frameworks and clouds, whose work is I/O; the
-- command-line tools and the other integrations under extras; and, of the cores, the cron parser,
-- the replayer of events, the buses of commands and queries, and the routing of messages by their
-- fields. The random balancer, the health checker of services and `Timeout` are left out, and of
-- `Result` the methods that call a function for its effect alone. Handlers and callbacks that call
-- back into the broker, store or scheduler that runs them are not covered.
pub mod Base
pub mod Kernel
pub mod Resilience
pub mod Saga
pub mod Outbox
pub mod PubSub
pub mod Scheduler
pub mod Streams
pub mod Realtime
pub mod Schemas
pub mod Discovery
pub mod Deployment
pub mod EventSourcing
pub mod Process
pub mod Application
