-- ===== src/Backend.antt =====
-- src/lib.rs: `SurrealStorage`, its constructors, and the streams of the polling, the listening and,
-- from src/shared.rs, the shared storage.
pub mod Futures
pub mod Implementations
pub mod Registered
mod Tests
use apalis_surrealdb.Prelude.{ℕ, Option, none, some, List, [], ◌∷◌, map}
use apalis_surrealdb.Session.{Result, ok, err, Server, World, Session, ◌>>=◌, pure}
use apalis_surrealdb.Tasks.{Task, Apalis}
use apalis_surrealdb.Fetch.{Config, fetch_next}
use apalis_surrealdb.Sink.{SurrealSink, new as new_sink}
use apalis_surrealdb.Fetcher.Poll.{new as new_poll_fetcher}
use apalis_surrealdb.Fetcher.Live.{LiveFetcher, new as new_live_fetcher}
use apalis_surrealdb.Heartbeat.{Sweep, keep_alive, reenqueue_orphaned, initial_heartbeat}
use apalis_surrealdb.Storage.{Decoded, decode_or_kill}
use apalis_surrealdb.Backend.Futures.{Streams}

-- The handle; the connection is the session's world, and the type and codec are markers.
pub record SurrealStorage (Fetcher : Type 0) : Type 0 where
  pub instance : ℕ
  pub config : Config
  pub sink : SurrealSink
  pub fetcher : Fetcher

-- `impl Clone`: the clone of the sink is a new one. `fetcher` is the fetcher's clone.
unfoldable pub clone : {F : Type 0} → (F → F) → SurrealStorage F → SurrealStorage F
clone fetcher s = record s { sink = new_sink; fetcher = fetcher s.fetcher }

-- `ulid` is what `new_instance` gives. `SurrealFetcher` has no state.
unfoldable pub new_with_config : (ulid : ℕ) → Config → SurrealStorage (Unit {0})
new_with_config ulid config = record {
  instance = ulid;
  config = config;
  sink = new_sink;
  fetcher = tt;
}

-- `Config::new` is a parameter.
unfoldable pub new_in_queue :
    (config_new : ℕ → Config) → (ulid : ℕ) → (queue : ℕ) → SurrealStorage (Unit {0})
unfolding new_with_config
new_in_queue config_new ulid queue = new_with_config ulid (config_new queue)

unfoldable pub new :
    (config_new : ℕ → Config) → (ulid : ℕ) → (type_name : ℕ) → SurrealStorage (Unit {0})
unfolding new_with_config
new config_new ulid type_name = new_with_config ulid (config_new type_name)

unfoldable pub new_with_events : (ulid : ℕ) → Config → SurrealStorage LiveFetcher
new_with_events ulid config = record {
  instance = ulid;
  config = config;
  sink = new_sink;
  fetcher = new_live_fetcher;
}

unfoldable pub with_codec : {F : Type 0} → SurrealStorage F → SurrealStorage F
with_codec s = record s { sink = new_sink }

-- `make_shared_with_config`, behind the registration: the fetcher is the receiver of the queue's channel.
unfoldable pub shared_storage : (ulid : ℕ) → Config → (receiver : ℕ) → SurrealStorage ℕ
shared_storage ulid config receiver = record {
  instance = ulid;
  config = config;
  sink = new_sink;
  fetcher = receiver;
}

-- The worker: its name and the text of its layers.
pub record WorkerContext : Type 0 where
  pub name : ℕ
  pub layers : ℕ

-- The texts `SurrealStorage`, `SurrealStorageWithEvents` and `SharedSurrealStorage`.
abbrev pub polling_name : ℕ
polling_name = 0

abbrev pub events_name : ℕ
events_name = 1

abbrev pub shared_name : ℕ
shared_name = 2

module _ (server : Server) (sweep : Sweep) (apalis : Apalis) (streams : Streams) where
  -- The registering future, `.map(|()| None)` included.
  abbrev pub registering :
      {F : Type 0} → SurrealStorage F → WorkerContext → ℕ → Session (Option Task)
  registering s worker storage =
      initial_heartbeat server sweep s.config worker.name storage worker.layers s.instance >>= λ _.
      pure none

  abbrev pub eager_fetcher : {F : Type 0} → SurrealStorage F → streams.Stream (Option Task)
  eager_fetcher s = streams.poll_fetcher s.config s.instance new_poll_fetcher

  unfoldable pub poll_default :
      SurrealStorage (Unit {0}) → WorkerContext → streams.Stream (Option Task)
  poll_default s worker =
      streams.chain (streams.once (registering s worker polling_name)) (eager_fetcher s)

  -- `stream::iter` of the batch, or of the one error.
  abbrev pub batch_items : Result (List Task) → List (Result Task)
  batch_items (ok tasks) = map ok tasks
  batch_items (err e) = err e ∷ []

  -- A fetch for each chunk of notifications.
  abbrev pub lazy_fetcher : SurrealStorage LiveFetcher → streams.Stream (Option Task)
  lazy_fetcher s =
      streams.map_ok (λ t. some t)
        (streams.flat_map batch_items (
          streams.then (λ _. fetch_next server apalis s.config s.instance)
            (streams.ready_chunks s.config.buffer_size (streams.live_fetcher s.fetcher))))

  unfoldable pub poll_with_listener :
      SurrealStorage LiveFetcher → WorkerContext → streams.Stream (Option Task)
  poll_with_listener s worker =
      streams.chain (streams.once (registering s worker events_name))
        (streams.select (lazy_fetcher s) (eager_fetcher s))

  unfoldable pub poll_shared : SurrealStorage ℕ → WorkerContext → streams.Stream (Option Task)
  poll_shared s worker =
      streams.chain (streams.once (registering s worker shared_name)) (
        streams.select (streams.map_ok (λ t. some t) (streams.receiver s.fetcher))
          (eager_fetcher s))

  -- `Backend::poll` of each, from the stream of undecoded tasks.
  unfoldable pub poll :
      (List ℕ → Decoded) → streams.Stream (Option Task) → streams.Stream (Option (ℕ × Task))
  poll codec compact = streams.then (decode_or_kill server codec) compact

  unfoldable pub heartbeat_stream : {F : Type 0} → SurrealStorage F → streams.Stream (Unit {0})
  heartbeat_stream s =
      streams.select (streams.every s.config.keep_alive (keep_alive server s.instance)) (
        streams.map_ok (λ _. tt)
          (streams.every s.config.keep_alive (reenqueue_orphaned server sweep s.config)))
