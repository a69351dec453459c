-- ===== src/Lib.antt =====
-- apalis-surrealdb: a storage backend for the job runner apalis on SurrealDB.
--
-- Clients of one database push jobs into the table `job`; workers claim batches of due jobs, lock
-- each job before its handler runs and acknowledge the outcome; heartbeats in the table `worker` tell
-- live workers from dead ones, whose jobs are returned to their queue. The queries are the files of
-- queries/; the Rust code of src/ sends them, retries conflicts, buffers, and routes what came back.
--
-- Which file models what (paths of the source from the repository's root):
--   Database/Rows   src/schema.surql, src/errors.rs, the row type of src/from_row.rs
--   Tx              `classify_tx_errors` of src/queries/mod.rs
--   Session         the loop around a transaction in src/queries/push_tasks.rs, fetch_next.rs,
--                   fetch_next_shared.rs and kill_task.rs, over a server
--   Tasks           `TryFrom<SurrealTaskRow>` of src/from_row.rs, `decode_row` of fetch_next.rs
--   Jobs            the statements of queries/ on `job`: Claim (fetch_next.surql and
--                   fetch_next_shared.surql), Work (lock_task, ack_task, kill_task), Orphans
--                   (reenqueue_orphaned), Finished (vacuum, fetch_completed_tasks), Push (push_tasks)
--   Jobs/Commands   all of them as commands, and histories of the commands of all clients
--   Jobs/Reordered  the histories on tables that list the same jobs in another order
--   Jobs/Rewrites   what an UPDATE does to the rows of a table, said of the rows before and after
--   Jobs/Abandoned  the jobs that a sweep is to find, described without its test
--   Jobs/Lifecycle  an abstract machine of one job, and how it relates the tables before and after a history
--   Fetch           src/queries/fetch_next.rs, fetch_next_shared.rs, kill_task.rs
--   Ack             src/queries/ack_task.rs, lock_task.rs, src/ack.rs
--   Ack/Middleware  the layers of src/ack.rs, and `middleware` of src/lib.rs and src/shared.rs
--   Push            src/queries/push_tasks.rs
--   Heartbeat       src/queries/register_worker.rs, keep_alive.rs, reenqueue_orphaned.rs
--   Sink            src/sink.rs
--   Fetcher/Poll    `SurrealPollFetcher` of src/fetcher.rs
--   Fetcher/Live    `SurrealLiveFetcher` of src/fetcher.rs
--   Setup           `setup` of src/lib.rs
--   Shared          src/shared.rs: Shared/Mpsc says what the crate futures documents of bounded channels,
--                   Shared/Driver has the driver, the fetchers and the registration as steps over them,
--                   Shared/Handles the shared storage and what makes one of it for a queue; the file
--                   Shared itself is a specification, what a wake-up of the driver comes to where no
--                   channel is ever full
--   Listing         src/queries/list_tasks.rs, fetch_by_id.rs, the activity arrays of list_queues.rs
--   Metrics         src/queries/metrics.rs
--   Queues          the rest of src/queries/list_queues.rs
--   Workers         src/queries/list_workers.rs
--   Backend         `SurrealStorage` of src/lib.rs and the streams of the three storages, one of them
--                   in src/shared.rs, over the combinators in Backend/Futures;
--                   Backend/Implementations has what a worker is given of each
--   Journey         a task behind the layers and then waited for
--   Storage         `decode_or_kill` of src/lib.rs, src/queries/vacuum.rs, src/queries/wait_for.rs
--   Samples         data for the tests, which stand in the files Tests
--
-- How the code is modelled. A function keeps its name. A statement of a query is a function on the
-- lists of rows, a transaction one from the time and the database to a commit or an abort. An
-- asynchronous operation is a `Session`: it maps the world, which is the database and the number of
-- queries sent so far, to a result and a world. The server is a parameter: how it answers each query,
-- what the other clients commit before it, and the time in it. Histories in Jobs/Commands interleave
-- whole transactions and single statements, which the database runs one at a time.
--
-- Texts (queue names, ids, worker instances) are natural numbers; a record key is a text or a number,
-- and texts are ordered as their numbers are. A datetime is in milliseconds, a `Duration` of the
-- configuration in nanoseconds, the backoff in seconds. An i64 is an integer, and each cast between
-- machine words is written out with its wrap-around. Metadata and results in JSON are opaque. What
-- apalis, tower, futures, the codecs, Ulid, the timers and the delay streams do is a parameter. So are
-- the operations on floating-point numbers, and what the server's functions on datetimes and groups
-- give.
--
-- Bounds and fuel. The retry loop makes five attempts, as in the source. `poll_flush` has fuel for
-- three rounds: one for a batch in flight, one that hands the buffer over, one that polls that batch.
-- `poll_next` of the poll fetcher takes its fuel as an argument, three rounds for each tick of the
-- delay stream and four more. `poll_next` of the live fetcher and `wait_for` go on for as long as the
-- server answers, so that they take any number of rounds.
--
-- Not modelled: logging; opening the connection; how `select` and the other combinators of futures
-- interleave two streams; what wakes the driver of src/shared.rs, and when (a wake-up is a signal of
-- Shared/Driver, which comes at any time); the boxing of a stream; the conversions that a `Debug` makes;
-- the programs in examples/, which only call the library.
pub mod Prelude
pub mod Database
pub mod Tx
pub mod Session
pub mod Jobs
pub mod Tasks
pub mod Fetch
pub mod Ack
pub mod Sink
pub mod Fetcher
pub mod Heartbeat
pub mod Push
pub mod Setup
pub mod Shared
pub mod Storage
pub mod Backend
pub mod Journey
pub mod Listing
pub mod Metrics
pub mod Queues
pub mod Workers
pub mod Samples
