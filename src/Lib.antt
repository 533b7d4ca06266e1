-- ===== src/Lib.antt =====
-- A verification library for the distributed caching system.
--
-- The program is a set of services. The cache service (cache-manager) keeps an L1 cache in memory,
-- with least-recently-used eviction and a time to live, in front of an L2 cache and an origin; it
-- publishes invalidation events and handles those of other instances. The invalidation service
-- (invalidation) matches patterns against keys, publishes the same events and writes an audit
-- table. The warming service (warming) plans tasks by a strategy, at once or by scheduled jobs, and
-- its workers fetch them from the origin and write them to the cache. The monitoring service
-- (monitoring) takes the metric events of the others, keeps counters and series, adds them up over
-- windows, looks for anomalies and raises alerts. Requests pass a token bucket (pkg/middleware), and
-- keys are matched by patterns and placed on nodes by a consistent hash ring (pkg/utils).
--
-- Prelude, with Prelude/Tests, Prelude/Lists, Prelude/SortBy and Prelude/Int, holds the tests,
-- lists, sorting and integers that the modules share; GoMap the built-in map, as an association
-- list with distinct keys whose order is the order of a visit; GoString the strings, as lists of
-- bytes.
--
-- CacheManager/L1Cache: cache-manager/cache.go. L1Cache is its struct; new, get, set, remove (Delete),
--   delete_unsafe, delete_pattern, cleanup_expired, evict_lru_unsafe, size and clear its methods, and
--   get_finish the part of Get behind its first lock. The recency list holds handles of list elements.
--   Its children: Maps and Links (how map and list point at one another), Steps (the operations and
--   the links), Rows and View (the rows of the list, and the abstract operations on them), Refine and
--   Runs (single calls and runs of calls), Bulk (DeletePattern and CleanupExpired), Races (Get
--   between its locks).
-- CacheManager/Service and CacheManager/Service/Events: cache-manager/service.go and
--   cache-manager/subscriptions.go. get, set, invalidate and the handlers are the methods of Service;
--   L2, origin, JSON and the topic are an Environment with a state of its own; a goroutine that
--   writes to L2 is a pending task. Replies holds lemmas on L1; Reads, Stores,
--   Outcomes and Effects hold the results.
-- CacheManager/Coalescer: cache-manager/singleflight.go as a step relation, with its results in
--   SingleFlight.
-- Middleware/RateLimit: pkg/middleware/ratelimit.go. Budget is about calls that do not overlap;
--   Interleaving takes tryConsume apart into its atomic steps, for any number of goroutines, and
--   Progress follows one of them through all the steps that it can take alone.
-- HashRing: pkg/utils/hash.go, with FNV-1a, the names of virtual nodes and the binary search. Its
--   children: Search, Sorting, Ring (the invariant), Lookup (GetNode), Walk (GetNNodes), Removal.
-- KeyPatterns: pkg/utils/pattern.go, with the cache of compiled expressions passed along; Scans holds
--   the results.
-- Invalidation/Patterns: invalidation/patterns.go, over a compile and match of package regexp; Affix
--   holds lemmas on texts, Agreement the results. Invalidation/Service: invalidation/service.go, with
--   its results in Publishing.
-- Warming/Tasks: warming/strategies.go, with its results in Plans. Warming/Service:
--   warming/service.go; its children Execution (executeWarmTask, and the worker and retryTask of
--   warming/worker_pool.go) and Settings (the configuration) hold operations, Queue, Stopped with
--   Halts, Stops and Retries results. Warming/Scheduler: warming/cron.go, with its results in Jobs.
--   A call that divides by no workers ends in panic.
-- Monitoring/Floats: the operations on float64 that the code calls, as a record. Monitoring/Collector
--   and Monitoring/RingBuffer: monitoring/metrics.go, with results in Counts and Contents.
--   Monitoring/Windows, Monitoring/Detector and Monitoring/Aggregator: monitoring/aggregator.go, with
--   results in Recent, History, Totals and Snapshots. Monitoring/Alerts and Monitoring/Rules:
--   monitoring/alerts.go, the registry for any rules and then the rules that are registered, with
--   results in Registry and Defaults. Monitoring/Service: monitoring/service.go, the queries and the
--   handlers of events, with results in Intake and Points.
-- Models/Entry: pkg/models/cache.go, with its results in Expiry.
-- Examples holds instances of the results and tests at concrete inputs.
--
-- Bounds and fuel. int64 counters are kept as bit patterns and wrap, as do durations that a request
-- gives in seconds (int64); instants, other durations and token counts are integers without a
-- bound. The binary search has as many rounds as there are positions, of which it needs the
-- logarithm; the digits of a number have one round more than its value; the walk of GetNNodes
-- visits each position once; the loops of GetAll and of a window have as many rounds as they have
-- places. The loop of GetAggregated has one round for each nanosecond between start and end, which
-- is enough, since each round moves on by one at least. The loop of retryTask has as many rounds as
-- retries are configured. The other loops run over lists.
--
-- Not modelled: start-up, shutdown, tickers and pauses, and so the panic of a retry whose pause is
-- zero; the overlap of workers' turns, but in Warming/Service/Halts, where a turn is taken apart,
-- and the sharing of one warming by two tasks of a key; the saturation of a difference of instants;
-- the eviction policies, which nothing calls; the scores of the priority strategy, which are a
-- parameter, and the predictor; the rule with a dynamic threshold, which nothing registers; the
-- metrics and the validators of pkg/models and pkg/pubsub; the audit queries; the dashboard, the
-- encoders, the log and the front end. The float64 are not computed: their operations are
-- parameters, and the tokens that a rate gives are a function of the elapsed time.
pub mod Prelude
pub mod GoMap
pub mod GoString
pub mod CacheManager
pub mod Middleware
pub mod HashRing
pub mod Invalidation
pub mod Monitoring
pub mod Models
pub mod Warming
pub mod KeyPatterns
mod Examples
