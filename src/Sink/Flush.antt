-- ===== src/Sink/Flush.antt =====
-- The loop of `poll_flush` in src/sink.rs, round by round.
use apalis_surrealdb.Prelude.{
  ℕ, suc, ◌≡◌, refl, ◌∙◌, Option, none, some, List, [], ◌∷◌, ◌++◌, append-nil, append_assoc, subst,
}
use mathlib.Core.List.{flatten}
use apalis_surrealdb.Database.{SurrealError}
use apalis_surrealdb.Tasks.{Task}
use apalis_surrealdb.Sink.{
  FlushPoll, pending, ready_ok, ready_err, SurrealSink, poll_loop, poll_flush,
}

-- Everything that was sent, in order: what was handed over, then what is buffered.
abbrev pub sent : SurrealSink → List Task
sent sink = flatten sink.handed ++ sink.buffer

flatten-snoc :
    {A : Type 0} (xss : List (List A)) (ys : List A) → flatten (xss ++ ys ∷ []) ≡ flatten xss ++ ys
unfolding flatten
flatten-snoc [] ys = append-nil ys
flatten-snoc (xs ∷ xss) ys = rw (flatten-snoc xss ys, append_assoc) refl

-- What one call of `poll_flush` may return.
pub record Flushed (before : SurrealSink) (r : FlushPoll) (after : SurrealSink) : Type 0 where
  pub kept : sent after ≡ sent before
  pub finished : r ≡ ready_ok → (after.buffer ≡ []) × (after.flush_future ≡ none)
  pub stopped : (e : SurrealError) → r ≡ ready_err e → after.flush_future ≡ none
  pub waiting : r ≡ pending → (batch : List Task) × (after.flush_future ≡ some batch)

pub record Ends (before : SurrealSink) (o : Option (FlushPoll × SurrealSink)) : Type 0 where
  pub result : FlushPoll
  pub after : SurrealSink
  pub returned : o ≡ some (result, after)
  pub flushed : Flushed before result after

module _ (answers : ℕ → FlushPoll) where
  -- Nothing buffered, nothing in flight.
  idle :
      (n : ℕ) (before sink : SurrealSink)
      → sink.buffer ≡ []
      → sink.flush_future ≡ none
      → sent sink ≡ sent before
      → Ends before (poll_loop answers (suc n) sink)
  unfolding poll_loop
  idle n before sink b f k = record {
    result = ready_ok;
    after = sink;
    returned = rw (f, b) refl;
    flushed = record {
      kept = k;
      finished = λ _. (b, f);
      stopped = λ e h. f;
      waiting = λ h. absurd (cc);
    };
  }

  -- Something in flight, by the answer of its poll.
  in_flight :
      (n : ℕ) (before sink : SurrealSink) (batch : List Task) (p : FlushPoll)
      → answers sink.polls ≡ p
      → sink.flush_future ≡ some batch
      → sent sink ≡ sent before
      → (p ≡ ready_ok
          → Ends before (
              poll_loop answers
                (suc n)
                (record sink { polls = suc sink.polls; flush_future = none })))
      → Ends before (poll_loop answers (suc n) sink)
  unfolding poll_loop
  in_flight n before sink batch ready_ok h f k next = rw (f, h) (next refl)
  in_flight n before sink batch (ready_err e) h f k next = record {
    result = ready_err e;
    after = record sink { polls = suc sink.polls; flush_future = none };
    returned = rw (f, h) refl;
    flushed = record {
      kept = k;
      finished = λ c. absurd (cc);
      stopped = λ _ _. refl;
      waiting = λ c. absurd (cc);
    };
  }
  in_flight n before sink batch pending h f k next = record {
    result = pending;
    after = record sink { polls = suc sink.polls };
    returned = rw (f, h) refl;
    flushed = record {
      kept = k;
      finished = λ c. absurd (cc);
      stopped = λ e c. absurd (cc);
      waiting = λ _. (batch, f);
    };
  }

  -- Something in flight and nothing behind it.
  last_flight :
      (n : ℕ) (before sink : SurrealSink) (batch : List Task)
      → sink.flush_future ≡ some batch
      → sink.buffer ≡ []
      → sent sink ≡ sent before
      → Ends before (poll_loop answers (suc n) sink)
  last_flight n before sink batch f b k =
      in_flight n before sink batch (answers sink.polls) refl f k λ _. idle n before _ b refl k

  -- Nothing in flight: the buffer is handed over, if there is one.
  grounded :
      (n : ℕ) (before sink : SurrealSink) (items : List Task)
      → sink.buffer ≡ items
      → sink.flush_future ≡ none
      → sent sink ≡ sent before
      → Ends before (poll_loop answers (suc (suc n)) sink)
  unfolding poll_loop
  grounded n before sink [] b f k = idle (suc n) before sink b f k
  grounded n before sink (x ∷ xs) b f k =
      let next = record sink {
        buffer = [];
        flush_future = some sink.buffer;
        handed = sink.handed ++ sink.buffer ∷ [];
      } in
      let ends =
        last_flight n before next sink.buffer refl refl
          (append-nil _ ∙ flatten-snoc sink.handed sink.buffer ∙ k) in
      rw (f, b)
        (subst
          (λ l. Ends before (
            poll_loop answers (suc n)
              (record sink { buffer = []; flush_future = some l; handed = sink.handed ++ l ∷ [] })))
          b ends)

  -- At any state of the sink, and for any answers of the flush future, `poll_flush` returns within
  -- its three rounds. What was sent is kept in order; success leaves nothing buffered or in flight,
  -- an error leaves nothing in flight, and a pending flush has a batch in flight.
  pub poll_flush-Ends : (sink : SurrealSink) → Ends sink (poll_flush answers sink)
  unfolding poll_flush
  poll_flush-Ends sink = go sink.flush_future refl
    where
      go : (o : Option (List Task)) → sink.flush_future ≡ o → Ends sink (poll_loop answers 3 sink)
      go none f = grounded 1 sink sink sink.buffer refl f refl
      go (some batch) f =
          in_flight 2 sink sink batch (answers sink.polls) refl f refl
            λ _. grounded 1 sink _ sink.buffer refl refl refl
