-- ===== src/Fetcher/Live.antt =====
-- src/fetcher.rs, `SurrealLiveFetcher`: the live query that wakes the worker.
--
-- What the polls of the subscription, of the notification stream and of the backoff timer answer are
-- parameters. Durations are in seconds. The loop of `poll_next` has fuel.
pub mod Backoff
use apalis_surrealdb.Prelude.{ℕ, zero, suc, ◌*◌, min, ◌≡◌, Bool, true, false, List, [], ◌∷◌}

abbrev backoff_base : ℕ
backoff_base = 1

abbrev backoff_cap : ℕ
backoff_cap = 30

pub data Action : Type 0 where
  create : Action
  update : Action
  delete : Action
  killed : Action

pub data SubscribePoll : Type 0 where
  subscribing_still : SubscribePoll
  subscribed : SubscribePoll
  refused : SubscribePoll

pub data StreamPoll : Type 0 where
  silent : StreamPoll
  notified : Action → StreamPoll
  broken : StreamPoll
  ended : StreamPoll

pub data LiveState : Type 0 where
  init : LiveState
  subscribing : LiveState
  active : LiveState
  backing_off : ℕ → LiveState

-- `delays` lists the timers that were started, the latest first.
pub record LiveFetcher : Type 0 where
  pub state : LiveState
  pub backoff : ℕ
  pub delays : List ℕ
  pub subscribe_polls : ℕ
  pub stream_polls : ℕ
  pub timer_polls : ℕ

-- `Poll<Option<()>>`, which is never `Ready(None)`; `out_of_fuel` is the model's.
pub data LivePolled : Type 0 where
  pending : LivePolled
  woken : LivePolled
  out_of_fuel : LivePolled

pub data LiveRound : Type 0 where
  give : LivePolled → LiveFetcher → LiveRound
  again : LiveFetcher → LiveRound

-- `SurrealLiveFetcher::new`, and what `clone` gives.
unfoldable pub new : LiveFetcher
new = record {
  state = init;
  backoff = backoff_base;
  delays = [];
  subscribe_polls = 0;
  stream_polls = 0;
  timer_polls = 0;
}

unfoldable pub back_off : LiveFetcher → LiveFetcher
back_off s = record s {
  state = backing_off s.backoff;
  backoff = min (s.backoff * 2) backoff_cap;
  delays = s.backoff ∷ s.delays;
}

abbrev pub on_subscribe : SubscribePoll → LiveFetcher → LiveRound
on_subscribe subscribing_still s = give pending s
on_subscribe subscribed s = again (record s { state = active })
on_subscribe refused s = again (back_off s)

-- A notification that is not of a new job resets the backoff and is passed over.
abbrev pub on_stream : StreamPoll → LiveFetcher → LiveRound
on_stream silent s = give pending s
on_stream (notified create) s = give woken (record s { backoff = backoff_base })
on_stream (notified update) s = again (record s { backoff = backoff_base })
on_stream (notified delete) s = again (record s { backoff = backoff_base })
on_stream (notified killed) s = again (record s { backoff = backoff_base })
on_stream broken s = again s
on_stream ended s = again (back_off s)

abbrev pub on_timer : Bool → LiveFetcher → LiveRound
on_timer true s = again (record s { state = init })
on_timer false s = give pending s

module _ (subscriptions : ℕ → SubscribePoll) (stream : ℕ → StreamPoll) (timer : ℕ → Bool) where
  abbrev pub live_round : LiveState → LiveFetcher → LiveRound
  live_round init s = again (record s { state = subscribing })
  live_round subscribing s =
      on_subscribe (subscriptions s.subscribe_polls)
        (record s { subscribe_polls = suc s.subscribe_polls })
  live_round active s =
      on_stream (stream s.stream_polls) (record s { stream_polls = suc s.stream_polls })
  live_round (backing_off d) s =
      on_timer (timer s.timer_polls) (record s { timer_polls = suc s.timer_polls })

  abbrev pub goes_on :
      (LiveFetcher → LivePolled × LiveFetcher) → LiveRound → LivePolled × LiveFetcher
  goes_on loop (give r s) = (r, s)
  goes_on loop (again s) = loop s

  unfoldable pub poll_next : ℕ → LiveFetcher → LivePolled × LiveFetcher
  poll_next zero s = (out_of_fuel, s)
  poll_next (suc fuel) s = goes_on (λ s'. poll_next fuel s') (live_round s.state s)

  -- So many polls, each with its fuel.
  unfoldable pub poll_all : List ℕ → LiveFetcher → LiveFetcher
  poll_all [] s = s
  poll_all (fuel ∷ fuels) s = poll_all fuels (poll_next fuel s).1
