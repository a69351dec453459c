-- ===== src/Sink.antt =====
-- src/sink.rs: the buffered sink.
--
-- The flush future runs `push_tasks` on one batch. How its n-th poll answers is a parameter; what the
-- operations do to the outside is the list of the batches handed to `push_tasks`, oldest first.
pub mod Flush
pub mod History
mod Tests
use apalis_surrealdb.Prelude.{
  ℕ, zero, suc, ◌+◌, Option, none, some, List, [], ◌∷◌, ◌++◌, if◌then◌else◌, is_empty,
}
use apalis_surrealdb.Database.{SurrealError}
use apalis_surrealdb.Tasks.{Task}

pub data FlushPoll : Type 0 where
  pending : FlushPoll
  ready_ok : FlushPoll
  ready_err : SurrealError → FlushPoll

pub record SurrealSink : Type 0 where
  pub buffer : List Task
  pub flush_future : Option (List Task)
  pub polls : ℕ
  pub handed : List (List Task)

-- `SurrealSink::new`, and what `clone` gives: nothing buffered, nothing in flight.
unfoldable pub new : SurrealSink
new = record { buffer = []; flush_future = none; polls = 0; handed = [] }

unfoldable pub start_send : SurrealSink → Task → SurrealSink
start_send sink item = record sink { buffer = sink.buffer ++ item ∷ [] }

module _ (answers : ℕ → FlushPoll) where
  -- The loop behind the poll of the future: `none` if the fuel ran out.
  abbrev buffered :
      (SurrealSink → Option (FlushPoll × SurrealSink))
      → SurrealSink
      → Option (FlushPoll × SurrealSink)
  buffered loop sink =
      let again = loop (record sink {
        buffer = [];
        flush_future = some sink.buffer;
        handed = sink.handed ++ sink.buffer ∷ [];
      }) in
      if is_empty sink.buffer then some (ready_ok, sink) else again

  -- What the poll of the future leads to.
  abbrev polled :
      (SurrealSink → Option (FlushPoll × SurrealSink))
      → SurrealSink
      → FlushPoll
      → Option (FlushPoll × SurrealSink)
  polled loop sink ready_ok = buffered loop (record sink { flush_future = none })
  polled loop sink (ready_err e) = some (ready_err e, record sink { flush_future = none })
  polled loop sink pending = some (pending, sink)

  -- One round: poll the future if there is one, then look at the buffer.
  abbrev round :
      (SurrealSink → Option (FlushPoll × SurrealSink))
      → SurrealSink
      → Option (List Task)
      → Option (FlushPoll × SurrealSink)
  round loop sink none = buffered loop sink
  round loop sink (some batch) =
      polled loop (record sink { polls = suc sink.polls }) (answers sink.polls)

  unfoldable pub poll_loop : ℕ → SurrealSink → Option (FlushPoll × SurrealSink)
  poll_loop zero sink = none
  poll_loop (suc fuel) sink = round (λ s. poll_loop fuel s) sink sink.flush_future

  -- `poll_flush` and `poll_close`, with three rounds: one for a batch in flight, one that hands the
  -- buffer over, and one that polls it.
  unfoldable pub poll_flush : SurrealSink → Option (FlushPoll × SurrealSink)
  unfolding poll_loop
  poll_flush sink = poll_loop 3 sink
