-- ===== src/Lib.antt =====
-- Rediq: a distributed task queue on Redis. Clients enqueue tasks, workers dequeue and process them,
-- and a scheduler moves the ones that are due. All of them share nothing but the data of one Redis
-- server, which they change by single commands and by three scripts.
--
-- The parts and their files:
-- * Errors (rediq/src/error.rs): the error values and their texts. A message that is formatted
--   from values is kept as its template. Errors/Retrying has the retry strategies; the float product
--   of an exponential one is an argument.
-- * Config (rediq/src/config.rs): the limits of the process. The global is an argument.
-- * Task, Task/Builder (rediq/src/task/mod.rs, task/builder.rs): tasks, `validate`, `retry_delay`,
--   and the builder. Durations are nanoseconds, times are seconds since 1970 and not negative.
-- * Keys (rediq/src/storage/keys.rs): a key is its family, one for each function there, and the
--   name it is made for.
-- * Redis (rediq/src/storage/redis/mod.rs): an async function is a program, which ends or sends
--   a command and goes on with the reply; `?` is `>>=`, and a result that the code looks at is
--   `attempt`. Redis/Client has the methods of `RedisClient` and the scripts. The server is not
--   the program's: Redis/Server has it as a parameter, of which it is assumed that each command
--   has its documented effect (Redis/Keyspace) on what clients observe. The order of SMEMBERS is
--   arbitrary. An error table of a script arrives as a Redis error. Runs in which the connection
--   fails are not modelled. Redis/Connecting has the constructors, with fred as a parameter, and
--   Redis/Scan has `scan_match`, for which the first page of each scan is an argument.
-- * Codec, a parameter: `rmp_serde` and the conversions of values with their laws, and the metadata
--   of workers.
-- * Dependencies (rediq/src/storage/dependencies.rs): tasks that wait for tasks.
-- * Client, Client/Queues, Client/Batch (rediq/src/client/builder.rs): enqueueing, pausing, flushing,
--   cancelling, retrying, and batches, which Redis/Pipeline sends. The cron crate is a parameter.
-- * Inspector (rediq/src/client/mod.rs): what a client can look up, and stopping a worker.
-- * Progress (rediq/src/progress/mod.rs): progress reports. The shared cells of a context are a
--   state that each report returns.
-- * Worker, Worker/Membership (rediq/src/server/worker.rs): dequeueing, loading, processing,
--   acknowledging and retrying; joining and leaving. What the handler and the hooks do is an
--   argument of `process_task`, which is for hooks and handlers that return. Worker/Looping has the
--   loop and `run`, with hooks and handlers that panic, which ends the worker.
-- * Processor (rediq/src/processor/mod.rs): the multiplexer, with handlers as a parameter.
--   Processor/Context (processor/context.rs) has the context of a handler, and Task/Ongoing
--   (task/progress_ext.rs) the cell of the thread that runs it.
-- * Middleware (rediq/src/middleware/mod.rs): chains of hooks, which change a state of their own.
-- * Aggregator (rediq/src/aggregator/mod.rs): what makes one task of a group, and where it is found.
-- * Scheduler (rediq/src/server/scheduler.rs): moving due tasks in batches of 100, and cron tasks;
--   Scheduler/Aggregation has the groups, and Scheduler/Running the loop.
-- * Janitor (rediq/src/server/janitor.rs): deleting keys that expire soon.
-- * Server (rediq/src/server/config.rs): settings and building; Server/Starting
--   (rediq/src/server/mod.rs): what a server starts, and its shutdown.
-- * Observability (rediq/src/observability/metrics.rs): what is recorded, with the vectors of the
--   prometheus crate as a parameter.
-- * Cli (rediq-cli/src): Cli/Commands (commands), the lines that the commands print; Cli/Utils and
--   Cli/Shortening (utils.rs), addresses, arguments and short texts; Cli/Dashboard (dashboard.rs),
--   the state that the dashboard shows, its keys and its refreshes. A panic is `none` there.
--   Cli/Dashboard/Drawing has what panics while it draws, and Cli/Dashboard/Running the loop. The
--   terminal, the layout and the local time are what the outside gives to a round.
-- * System, the whole: operations that run at the same time, as a step relation: an operation
--   starts, one that runs sends its next command, or one stops, finished or dead. There the
--   commands of a script are steps of their own, which allows more interleavings than the server
--   does. Worker rounds, heartbeats, stopping, the aggregation and the janitor are among the
--   operations. The cron check and batches are not: they write strings where hashes are kept.
--   System/Fifo has the calls of one queue in sequence, beside the queue that they stand for.
-- * Tests, on samples: a codec and data of a small system, and the theorems at them.
--
-- Most functions are total by structural recursion on lists of queues, tasks and dependents. The
-- loops of workers and the janitor recurse on the list of rounds before the shutdown flag is seen.
-- The loops of the scheduler and the dashboard have no bound: a list has the first of their rounds,
-- and their results say whether the loop has ended by then. The two loops over pages of keys need
-- not end: they have a number of rounds as fuel, and `none` says that they have not ended with it.
-- A second reading of the clock in one function gives the same time. Expiries are below 2 ^ 63
-- seconds and scores within 2 ^ 53, where their conversions to a signed integer and to a float are
-- exact.
--
-- Not modelled: what the dashboard shows, the parsing of command-line arguments by clap, macros, the
-- HTTP endpoint of the metrics and their registration, the timers and the spawning of tasks, and the
-- Lua files in scripts, which nothing loads.
pub mod Prelude
pub mod Errors
pub mod Config
pub mod Task
pub mod Keys
pub mod Redis
pub mod Codec
pub mod Dependencies
pub mod Client
pub mod Inspector
pub mod Progress
pub mod Processor
pub mod Middleware
pub mod Worker
pub mod Aggregator
pub mod Scheduler
pub mod Janitor
pub mod Server
pub mod Observability
pub mod Cli
pub mod System
pub mod Tests
