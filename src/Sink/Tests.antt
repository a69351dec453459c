-- ===== src/Sink/Tests.antt =====
-- Runs of the sink, and the theorems at them.
use apalis_surrealdb.Prelude.{ℕ, ◌≡◌, refl, none, List, [], ◌∷◌, some, if◌then◌else◌, ◌==◌}
use mathlib.Core.List.{flatten}
use apalis_surrealdb.Samples.{task, refusal}
use apalis_surrealdb.Database.{database}
use apalis_surrealdb.Sink.{
  FlushPoll, pending, ready_ok, ready_err, SurrealSink, new, start_send, poll_flush, poll_loop,
}
use apalis_surrealdb.Sink.Flush.{Ends, poll_flush-Ends}
use apalis_surrealdb.Sink.History.{SinkOp, send, flush, run, run_op, items, flushed_items}

-- The first poll is pending, the second fails, the others succeed.
abbrev moody : ℕ → FlushPoll
moody n = if n == 0 then pending else if n == 1 then ready_err (database refusal) else ready_ok

abbrev ops : List SinkOp
ops = send (task 1) ∷ flush ∷ send (task 2) ∷ send (task 3) ∷ flush ∷ []

abbrev left : SurrealSink
left = record {
  buffer = task 2 ∷ task 3 ∷ [];
  flush_future = none;
  polls = 2;
  handed = (task 1 ∷ []) ∷ [];
}

-- The failed batch is dropped, the later items stay buffered.
after_failure : run moody ops new ≡ left
unfolding run_op poll_flush poll_loop start_send new
after_failure = refl

poll_flush-Ends_example : Ends left (poll_flush moody left)
poll_flush-Ends_example = poll_flush-Ends moody left

abbrev flushed : SurrealSink
flushed = record {
  buffer = [];
  flush_future = none;
  polls = 3;
  handed = (task 1 ∷ []) ∷ (task 2 ∷ task 3 ∷ []) ∷ [];
}

last_flush : poll_flush moody (run moody ops new) ≡ some (ready_ok, flushed)
unfolding run_op poll_flush poll_loop start_send new
last_flush = refl

flushed_items_example :
    (flatten flushed.handed ≡ items ops) × (flushed.buffer ≡ []) × (flushed.flush_future ≡ none)
flushed_items_example = flushed_items moody ops flushed last_flush
