-- ===== src/Fetcher/Tests.antt =====
-- Runs of both fetchers, and the theorems at them.
use apalis_surrealdb.Prelude.{
  ℕ, ◌≡◌, refl, Bool, true, some, [], ◌∷◌, ◌++◌, if◌then◌else◌, ◌==◌, ltb, arith, is_some,
}
use apalis_surrealdb.Session.{ok, err}
use apalis_surrealdb.Database.{database}
use apalis_surrealdb.Samples.{task, refusal}
use apalis_surrealdb.Fetcher.Poll.{
  fetch, buffered, empty, PollFetcher, DelayPoll, waiting, tick, FetchPoll, fetched, item, closed,
  new, poll_loop, poll_next, take_pending, pending_tasks,
}
use apalis_surrealdb.Fetcher.Poll.Kept.{poll, drain, run, run_op, claimed, run-kept}
use apalis_surrealdb.Fetcher.Poll.Returns.{poll_next_returns}
use apalis_surrealdb.Fetcher.Poll.Stopped.{poll_next_stopped}
use apalis_surrealdb.Fetcher.Live
use apalis_surrealdb.Fetcher.Live.{
  SubscribePoll, subscribed, refused, StreamPoll, silent, notified, create, LiveFetcher, back_off,
  poll_all,
}
use apalis_surrealdb.Fetcher.Live.Backoff.{schedule, delays_doubled}

-- Nothing, then three tasks, then a task, then a failure; the strategy ticks twice.
abbrev fetches : ℕ → FetchPoll
fetches n =
    if n == 0
    then fetched (ok [])
    else if n == 1
    then fetched (ok (task 1 ∷ task 2 ∷ task 3 ∷ []))
    else if n == 2
    then fetched (ok (task 4 ∷ []))
    else fetched (err (database refusal))

abbrev ticks : ℕ → DelayPoll
ticks n = if ltb n 2 then tick else waiting

-- The first poll finds nothing, waits for a tick and gives the first task.
first_poll :
    poll_next ticks fetches 10 new
    ≡ some (
      item (ok (some (task 1))),
      record {
        state = buffered (task 2 ∷ task 3 ∷ []);
        delay_stream = true;
        prev_count = 3;
        delay_polls = 1;
        fetch_polls = 2;
      },
    )
unfolding poll_next poll_loop new
first_poll = refl

run-kept_example :
    let (out, s) = run ticks fetches (poll 10 ∷ drain ∷ poll 10 ∷ []) new in
    claimed fetches s.fetch_polls ≡ out ++ pending_tasks s.state
run-kept_example = run-kept ticks fetches (poll 10 ∷ drain ∷ poll 10 ∷ [])

all_out :
    (run ticks fetches (poll 10 ∷ drain ∷ poll 10 ∷ []) new).0
    ≡ task 1 ∷ task 2 ∷ task 3 ∷ task 4 ∷ []
unfolding run_op poll_next poll_loop take_pending new
all_out = refl

poll_next_returns_example : is_some (poll_next ticks fetches 10 new) ≡ true
unfolding new
poll_next_returns_example = poll_next_returns ticks fetches 2 new 10 (ground arith) (omega arith)

abbrev failing : PollFetcher
failing = record {
  state = fetch;
  delay_stream = true;
  prev_count = 0;
  delay_polls = 0;
  fetch_polls = 3;
}

abbrev failed : PollFetcher
failed = record failing { state = empty; fetch_polls = 4 }

failure : poll_next ticks fetches 1 failing ≡ some (item (err (database refusal)), failed)
unfolding poll_next poll_loop
failure = refl

poll_next_stopped_example : poll_next ticks fetches 1 failed ≡ some (closed, failed)
poll_next_stopped_example =
    poll_next_stopped ticks fetches 1 0 failing (item (err (database refusal))) failed refl failure

abbrev refusing : ℕ → SubscribePoll
refusing n = refused

abbrev quiet : ℕ → StreamPoll
quiet n = silent

abbrev at_once : ℕ → Bool
at_once n = true

delays_doubled_example :
    (k : ℕ) × ((poll_all refusing quiet at_once (20 ∷ []) Live.new).delays ≡ schedule k)
delays_doubled_example = delays_doubled refusing quiet at_once (20 ∷ []) λ n a h. absurd (cc)

-- Seven failures in twenty rounds.
seven_delays :
    (poll_all refusing quiet at_once (20 ∷ []) Live.new).delays ≡ 30 ∷ 30 ∷ 16 ∷ 8 ∷ 4 ∷ 2 ∷ 1 ∷ []
unfolding poll_all Live.poll_next Live.new back_off
seven_delays = refl
