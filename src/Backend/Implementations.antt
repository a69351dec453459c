-- ===== src/Backend/Implementations.antt =====
-- The traits `Backend` and `BackendExt` of apalis as src/lib.rs and src/shared.rs implement them, for the
-- polling, the listening and the shared storage.
use apalis_surrealdb.Prelude.{ℕ, Option, List}
use apalis_surrealdb.Database.{Json}
use apalis_surrealdb.Session.{Server}
use apalis_surrealdb.Tasks.{Task, Apalis}
use apalis_surrealdb.Heartbeat.{Sweep}
use apalis_surrealdb.Storage.{Decoded}
use apalis_surrealdb.Fetcher.Live.{LiveFetcher}
use apalis_surrealdb.Ack.Middleware.{Layer, Tower, middleware_stack, shared_middleware}
use apalis_surrealdb.Backend.Futures.{Streams}
use apalis_surrealdb.Backend.{
  SurrealStorage, WorkerContext, poll_default, poll_with_listener, poll_shared,
  poll as decode_stream, heartbeat_stream,
}

-- What a worker is given of a storage.
pub record Implementation (streams : Streams) (Fetcher : Type 0) : Type 0 where
  pub heartbeat : SurrealStorage Fetcher → WorkerContext → streams.Stream (Unit {0})
  pub middleware : SurrealStorage Fetcher → Layer
  pub poll : SurrealStorage Fetcher → WorkerContext → streams.Stream (Option (ℕ × Task))
  pub get_queue : SurrealStorage Fetcher → ℕ
  pub poll_compact : SurrealStorage Fetcher → WorkerContext → streams.Stream (Option Task)

module _ (server : Server) (sweep : Sweep) (apalis : Apalis) (streams : Streams) (tower : Tower)
    (to_value : ℕ → Option Json) (codec : List ℕ → Decoded) where
  unfoldable pub polling : Implementation streams (Unit {0})
  unfolding poll_default decode_stream heartbeat_stream middleware_stack
  polling = record {
    heartbeat = λ s worker. heartbeat_stream server sweep apalis streams s;
    middleware = λ s. middleware_stack server tower to_value s.instance;
    poll = λ s worker.
        decode_stream server sweep apalis streams codec
          (poll_default server sweep apalis streams s worker);
    get_queue = λ s. s.config.queue;
    poll_compact = λ s worker. poll_default server sweep apalis streams s worker;
  }

  unfoldable pub listening : Implementation streams LiveFetcher
  unfolding poll_with_listener decode_stream heartbeat_stream middleware_stack
  listening = record {
    heartbeat = λ s worker. heartbeat_stream server sweep apalis streams s;
    middleware = λ s. middleware_stack server tower to_value s.instance;
    poll = λ s worker.
        decode_stream server sweep apalis streams codec
          (poll_with_listener server sweep apalis streams s worker);
    get_queue = λ s. s.config.queue;
    poll_compact = λ s worker. poll_with_listener server sweep apalis streams s worker;
  }

  unfoldable pub shared : Implementation streams ℕ
  unfolding poll_shared decode_stream heartbeat_stream shared_middleware
  shared = record {
    heartbeat = λ s worker. heartbeat_stream server sweep apalis streams s;
    middleware = λ s. shared_middleware server tower to_value s.instance;
    poll = λ s worker.
        decode_stream server sweep apalis streams codec
          (poll_shared server sweep apalis streams s worker);
    get_queue = λ s. s.config.queue;
    poll_compact = λ s worker. poll_shared server sweep apalis streams s worker;
  }
