-- ===== src/Lib.antt =====
-- Game Ad Service: a model of the service that takes advertisements for games over HTTP, queues
-- them by priority, and has workers analyse them.
--
-- How the parts interact. A handler (internal/api/handlers) decodes a submission and gives it to the
-- service (internal/service), which saves the ad in the repository and enqueues it. The queue
-- (internal/processor/queue.go) has no items of its own: an ad is queued by its status in the
-- repository, and the cache repository gives the order. A worker (internal/processor/worker.go) takes an
-- ad with `Dequeue`, has it analysed, and hands it back with `Complete`. Versions of the ads and locks with
-- an expiry keep workers of several processes apart. The default set-up (cmd/server.go) uses the in-memory
-- repository (internal/storage/memory) both as the repository and as the cache; the theorems on the
-- queue and the service are about that set-up, the definitions about any two repositories.
--
-- The files, and the code that each models:
--   Common     shared names; lists, integers, maps and sorting
--   Float64    the operations on float64, a parameter
--   Ad         internal/domain/models/ad.go and enum.go; Ad/Priority: the effective priority
--   Errors     pkg/errors/error.go and common.go; Errors/Codes: codes as numbers, Errors/Messages:
--              the values that the constructors make
--   Storage    internal/storage/repository.go: the interfaces, and the actions on a world;
--              Storage/Safe: rules for calls that keep an invariant
--   Memory     internal/storage/memory/memory_store.go: State its data, comparisons and loops, Loops
--              their laws, Invariant the maps, Versions the versions, Statuses and Claims what
--              interleaved clients take out of a status, Find the searches,
--              Listing the list of the ads with a status, Locks the locks, Upkeep the calls through the whole map
--   Queue      internal/processor/queue.go: State its options, Store calls of the repository under
--              known conditions, Safe and SafeRun invariants that every call of the queue keeps, for
--              any repositories, Idle and History the runs of many queues on one repository, and
--              Enqueue, Dequeue, Blocked, Complete and Priority the calls over the in-memory repository,
--              SafeDequeue, Shared, Interleaved, Gives, GivesDequeue, Held, Claiming, Exclusive and
--              Completion `Dequeue` and `Complete` beside other clients of the repository,
--              Rounds and Ageing the rounds that age and boost
--   Pool       internal/processor/worker.go: Bounds, Start and History the number of workers, Jobs
--              the rounds of a worker, Process the loops over the events that they meet, Drain many
--              rounds until nothing waits
--   Mapper     internal/interfaces/mapper/mapper.go and internal/interfaces/dtos/ads.go
--   Service    internal/service/ad_service.go: Submit and Listing over the in-memory repository;
--              Waiting an abstract priority queue, Ready what the calls do to it, Rounds and Adjust
--              what ageing and boosting do, Refinement whole runs, and
--              Fairness what boosting is for
--   Http       pkg/utils/response/response.go and internal/api/handlers/ad_handler.go; Http/Replies:
--              what a client sees; Http/Middleware: internal/api/router.go and
--              internal/api/middleware, and Http/Exchange: what becomes of a request there
--   Retry      pkg/utils/retry.go
--   Utils      pkg/utils/id_generator.go and validate.go; Utils/Ids: the identifiers
--   Analyzer   internal/processor/analyzer.go
--   Events     internal/domain/events/event.go
--   Config     internal/config/config.go; Config/Load: loading it
--   Metrics    pkg/metrics/prometheus.go; Metrics/Middleware: the middlewares and interceptors, Vectors
--              and Requests: what is counted, and what becomes of a request, Register: the servers
--   Redis      internal/storage/cache/redis.go; Redis/Cache: the ads in it, Redis/Order: its queue
--   Commands   cmd/root.go, cmd/server.go and cmd/worker.go; Pools: what they start, Workers: a worker
--              process beside the servers, Shutdown: what they do at the end
--   Logger     pkg/logger; Logger/Context: the request id in a context, Zap and Gorm: the adapters
--   Messaging  pkg/messaging; Channels: the channels of RabbitMQ, Events: the events of Kafka
--   Tests      the theorems at concrete inputs
--
-- How the code is rendered. A method keeps its name, in snake case, takes its state and returns the new
-- one. A call that can fail returns a `Result`: a value, an error, or a panic. A value that is changed
-- through a pointer is returned beside the result. A map is a list of pairs in the order in which `range`
-- visits them. The clock, random identifiers and the goroutines' order are arguments, the last as lists of
-- calls: a method that holds a mutex from its first read to its last write is one step. The calls of the
-- queue are not: Queue/Shared puts any calls of other clients between those that one call makes. `int`,
-- `int64` and `time.Duration` are 64-bit where the code increments or adds them; sums of instants and
-- durations are not cut at 64 bits. An ad's `time.Time` is a number of nanoseconds, and `AddDate` takes each day as 24 hours.
--
-- Fuel. `Dequeue` calls itself; `dequeue` has fuel and gives nothing when it runs out; each of its calls
-- reads the clock anew. One call is enough on a valid repository when the first queued ad can be locked
-- (Queue.Dequeue); while another owner holds its lock, each call only leads to the next
-- (Queue.Blocked). Everything else is structural recursion.
--
-- What is not code of the repository is a parameter: the Redis server and the JSON codec (Redis), the
-- Prometheus client (Metrics), viper (Config/Load), mux (Http/Middleware), the gRPC packages, the AMQP
-- and Kafka clients (Messaging), zap (Logger/Zap), `fmt.Sprintf` (Errors/Messages), and float64
-- arithmetic. What the theorems need of it is a record of documented laws or a hypothesis, and
-- Tests/Toys and Tests/Brokers have small versions of which the laws hold.
--
-- Not modelled: the waiting for signals and the command line, what zap and the metrics library write, the
-- waits and timeouts of the goroutines, and types that nothing uses.
pub mod Common
pub mod Float64
pub mod Errors
pub mod Ad
pub mod Storage
pub mod Memory
pub mod Queue
pub mod Mapper
pub mod Pool
pub mod Service
pub mod Http
pub mod Retry
pub mod Config
pub mod Analyzer
pub mod Events
pub mod Metrics
pub mod Redis
pub mod Commands
pub mod Logger
pub mod Messaging
pub mod Utils
pub mod Tests
