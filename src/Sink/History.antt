-- ===== src/Sink/History.antt =====
-- Any sequence of `start_send` and `poll_flush` on one sink.
use apalis_surrealdb.Prelude.{
  ℕ, ◌≡◌, refl, sym, ap, ◌∙◌, Option, none, some, List, [], ◌∷◌, ◌++◌, append-nil, append_assoc,
}
use mathlib.Core.List.{flatten}
use apalis_surrealdb.Tasks.{Task}
use apalis_surrealdb.Sink.{FlushPoll, ready_ok, SurrealSink, new, start_send, poll_flush}
use apalis_surrealdb.Sink.Flush.{sent, poll_flush-Ends}

pub data SinkOp : Type 0 where
  send : Task → SinkOp
  flush : SinkOp

abbrev after_flush : SurrealSink → Option (FlushPoll × SurrealSink) → SurrealSink
after_flush sink none = sink
after_flush sink (some (r, s)) = s

module _ (answers : ℕ → FlushPoll) where
  unfoldable pub run_op : SinkOp → SurrealSink → SurrealSink
  run_op (send item) sink = start_send sink item
  run_op flush sink = after_flush sink (poll_flush answers sink)

  abbrev pub run : List SinkOp → SurrealSink → SurrealSink
  run [] sink = sink
  run (o ∷ os) sink = run os (run_op o sink)

abbrev pub items : List SinkOp → List Task
items [] = []
items (send t ∷ os) = t ∷ items os
items (flush ∷ os) = items os

module _ (answers : ℕ → FlushPoll) where
  sent-flush : (sink : SurrealSink) → sent (run_op answers flush sink) ≡ sent sink
  unfolding run_op
  sent-flush sink = let e = poll_flush-Ends answers sink in rw e.returned e.flushed.kept

  sent-send :
      (sink : SurrealSink) (t : Task) → sent (run_op answers (send t) sink) ≡ sent sink ++ t ∷ []
  unfolding run_op start_send
  sent-send sink t = sym (append_assoc (flatten sink.handed) sink.buffer (t ∷ []))

  sent-run :
      (ops : List SinkOp) (sink : SurrealSink)
      → sent (run answers ops sink) ≡ sent sink ++ items ops
  sent-run [] sink = sym (append-nil _)
  sent-run (send t ∷ os) sink =
      rw (sent-run os, sent-send) (append_assoc (sent sink) (t ∷ []) (items os))
  sent-run (flush ∷ os) sink = rw (sent-run os, sent-flush) refl

  -- A sink that starts empty and whose last flush reports success has handed over exactly the items
  -- that were sent, each once and in order, and has nothing in flight.
  pub flushed_items :
      (ops : List SinkOp) (s : SurrealSink)
      → poll_flush answers (run answers ops new) ≡ some (ready_ok, s)
      → (flatten s.handed ≡ items ops) × (s.buffer ≡ []) × (s.flush_future ≡ none)
  unfolding new flatten
  flushed_items ops s h =
      let e = poll_flush-Ends answers (run answers ops new) in
      let r : e.result ≡ ready_ok = cc (h, e.returned) in
      let a : e.after ≡ s = cc (h, e.returned) in
      let (b, f) = e.flushed.finished r in
      let kept : sent e.after ≡ items ops = rw (e.flushed.kept) (sent-run ops new) in
      rw (← a) (
        sym (append-nil (flatten e.after.handed))
            ∙ ap (λ l. flatten e.after.handed ++ l) (sym b)
            ∙ kept,
        b,
        f,
      )
