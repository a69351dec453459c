-- ===== src/Backend/Futures.antt =====
-- The combinators of the crate `futures` that the storages put their streams together with. A stream is
-- opaque; `items n` awaits its first `n` items one after another.
use apalis_surrealdb.Prelude.{ℕ, Option, List}
use apalis_surrealdb.Session.{Result, World, Session}
use apalis_surrealdb.Tasks.{Task}
use apalis_surrealdb.Fetch.{Config}
use apalis_surrealdb.Fetcher.Poll.{PollFetcher}
use apalis_surrealdb.Fetcher.Live.{LiveFetcher}

-- The items of a stream of `A` are results. The last four fields are the streams of the program's own
-- fetchers, of a channel's receiver, and of a repeated session with a delay before each.
pub record Streams : Type 1 where
  pub Stream : Type 0 → Type 0
  pub items : {A : Type 0} → ℕ → Stream A → World → List (Result A) × World
  pub once : {A : Type 0} → Session A → Stream A
  pub chain : {A : Type 0} → Stream A → Stream A → Stream A
  pub select : {A : Type 0} → Stream A → Stream A → Stream A
  pub then : {A B : Type 0} → (Result A → Session B) → Stream A → Stream B
  pub map_ok : {A B : Type 0} → (A → B) → Stream A → Stream B
  pub ready_chunks : {A : Type 0} → ℕ → Stream A → Stream A
  pub flat_map : {A B : Type 0} → (Result A → List (Result B)) → Stream A → Stream B
  pub poll_fetcher : Config → ℕ → PollFetcher → Stream (Option Task)
  pub live_fetcher : LiveFetcher → Stream (Unit {0})
  pub receiver : ℕ → Stream Task
  pub every : {A : Type 0} → (interval : ℕ) → Session A → Stream A
