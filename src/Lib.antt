-- ===== src/Lib.antt =====
-- A model of the service in apps/reddit-kafka: instances of one program read the comments of
-- subreddits from Reddit and publish them to Kafka. Redis holds what the instances share: the
-- lease of each subreddit, the registry of streams, their checkpoints and their latest errors.
-- Postgres holds copies. A worker owns one stream while it holds the lease of its subreddit.
--
-- Parts, and the files that model them:
-- - Redis, Redis/Keys, Commands: the Redis commands that the program sends, as interfaces with
--   the documented behaviour as laws, and the keys that it builds. Redis/Memory and World/Memory
--   are implementations that fulfil the laws.
-- - World: the state of all services together. Postgres is a parameter; each statement gives a
--   new database or raises; what it stores is modelled for the upsert of checkpoints alone.
-- - Lock (apps/reddit-kafka/src/stream/lock.py): acquire_lock, refresh_lock, owns_lock,
--   release_lock, is_locked, get_lock_holder and the two scripts. Lock/Leases lets any number of
--   instances call them in any order while time passes, and Lock/Refinement has the table of
--   leases that they implement.
-- - Registry (apps/reddit-kafka/src/repositories/stream_registry.py): Scripts has the four Lua
--   scripts, the other files the methods of StreamRegistry: Reading, Status, Creation, Removal
--   and Checkpoints. Each method is a function from the world to the world and its answer.
-- - Errors and ErrorLog (apps/reddit-kafka/src/stream/exceptions.py and error_handler.py): the
--   exceptions, their classification, and the log of a stream's errors.
-- - Breaker (apps/reddit-kafka/src/stream/circuit_breaker.py): the circuit breaker.
-- - Worker (apps/reddit-kafka/src/stream/worker.py): Deliveries has the futures of Kafka's
--   reports and the wait for them, Comments the handling of a comment, Session the loop over the
--   comments of one fetch, Control the lease, the errors and the end of a run, Loop
--   `_stream_loop`, Refreshing `_lock_refresh_loop`, Run `run`.
-- - Flusher (apps/reddit-kafka/src/tasks/checkpoint_flusher.py): the flush of one instance's
--   checkpoints to Postgres; Loop is the periodic loop.
-- - Cleanup (apps/reddit-kafka/src/tasks/dead_stream_cleanup.py): the sweep that removes the
--   registry entries of streams that have ended; Loop is the periodic loop.
-- - Background: the start and the stop of the periodic tasks of the flusher, of the sweep and of
--   the manager's reconciliation.
-- - Migrations (apps/reddit-kafka/src/migrations.py): Failures has the exceptions and the
--   retryable ones, Applying one attempt with its transaction, Retrying the retries and
--   `run_migrations`.
-- - Manager (apps/reddit-kafka/src/stream/manager.py): StreamManager. State has the map of its
--   local tasks, Activation `_start_local_worker`, Starting `start_stream`, Adopting
--   `resume_stream` and `reconcile_once`, Ending `_run`, `stop_stream` and `stop_all`; Calls
--   lets all of them follow one another in any order; Looping has `_reconcile_loop` and
--   `_wait_for_stop_request`.
-- - App (apps/reddit-kafka/src/app.py): Streams has the handlers `create_stream`, `list_streams`
--   and `stop_stream`, Runner what `_create_runner` returns, Lifespan the drain and the flush at
--   the end of `lifespan`, Readiness the probe, and Clients the clients that the process holds,
--   with apps/reddit-kafka/src/redis_client.py and db.py.
-- - Messages (apps/reddit-kafka/src/models/reddit_comment.py): the validation of the messages
--   that are published.
-- - Telemetry (apps/reddit-kafka/src/observability/telemetry.py): Requests has the middleware of
--   requests, Setup the handlers of logs and the traces.
--
-- The worker calls the registry, the error log and the leases through the same world, and the
-- sweep calls the registry; the flush reads what the registry has written; the manager calls the
-- leases and the registry, and what other instances do between its calls is a function on the
-- world. The handlers of the application call the manager and the registry, its runner constructs
-- and runs a worker, and its end drains the manager and then flushes. What the environment does
-- (Kafka's reports, the clock, whether a call raises, where a cancellation meets it) is an argument
-- of the operation that meets it. UUIDs, times and JSON texts are arguments, in the
-- order in which the source makes them.
--
-- The wait for delivery reports runs on the list of rounds that the environment provides, one
-- for each pass of the source's loop; a list with a round at which the deadline is past is long
-- enough. The retries of the migrations run on fuel: 600 seconds hold 60 pauses of 10 seconds,
-- so that 61 calls are enough. No other loop needs fuel. Times of the breaker and of the
-- migrations are whole microseconds, and waits whole seconds.
--
-- A periodic loop runs on the list of turns that it meets, each with what others do in its pause.
--
-- Not modelled: metrics other than those of requests, spans and log lines; the pause between
-- passes; the creation of tables from ORM models; FastAPI, and the texts of its answers; the
-- settings; the Avro encoding; the cancellation of a local task before its first step, and of a
-- deletion between its commands. In a run, the refreshes of the lease while the loop over fetches
-- runs stand with what others do. A Redis connection that fails is modelled where the source
-- handles it, in the refresh of the lease and the writes of checkpoints.
pub mod Base
pub mod Errors
pub mod Redis
pub mod World
pub mod Commands
pub mod Lock
pub mod Registry
pub mod ErrorLog
pub mod Worker
pub mod Breaker
pub mod App
pub mod Background
pub mod Cleanup
pub mod Flusher
pub mod Manager
pub mod Messages
pub mod Migrations
pub mod Telemetry
