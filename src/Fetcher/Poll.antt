-- ===== src/Fetcher/Poll.antt =====
-- src/fetcher.rs, `SurrealPollFetcher`: the stream of claimed tasks.
--
-- What a poll of the fetch future, or of the strategy's delay stream, answers is a parameter: by
-- how many polls there were before. The loop of `poll_next` has fuel.
pub mod Kept
pub mod Returns
pub mod Stopped
use apalis_surrealdb.Prelude.{
  ℕ, zero, suc, ◌≡◌, Bool, true, false, Option, none, some, List, [], ◌∷◌, if◌then◌else◌, length,
  is_empty,
}
use apalis_surrealdb.Database.{SurrealError}
use apalis_surrealdb.Session.{Result, ok, err}
use apalis_surrealdb.Tasks.{Task}

pub data StreamState : Type 0 where
  ready : StreamState
  delay : StreamState
  fetch : StreamState
  buffered : List Task → StreamState
  empty : StreamState

-- `delay_stream` says whether the stream has been built.
pub record PollFetcher : Type 0 where
  pub state : StreamState
  pub delay_stream : Bool
  pub prev_count : ℕ
  pub delay_polls : ℕ
  pub fetch_polls : ℕ

pub data DelayPoll : Type 0 where
  waiting : DelayPoll
  tick : DelayPoll
  ended : DelayPoll

pub data FetchPoll : Type 0 where
  unfinished : FetchPoll
  fetched : Result (List Task) → FetchPoll

-- `Poll<Option<Result<Option<Task>, SurrealError>>>`
pub data Polled : Type 0 where
  pending : Polled
  item : Result (Option Task) → Polled
  closed : Polled

-- One round of the loop: it returns, or goes round again.
pub data Round : Type 0 where
  give : Polled → PollFetcher → Round
  again : PollFetcher → Round

-- `SurrealPollFetcher::new`, and what `clone` gives.
unfoldable pub new : PollFetcher
new = record {
  state = ready;
  delay_stream = false;
  prev_count = 0;
  delay_polls = 0;
  fetch_polls = 0;
}

abbrev pub on_delay : DelayPoll → PollFetcher → Round
on_delay waiting s = give pending s
on_delay tick s = again (record s { state = ready })
on_delay ended s = give closed (record s { state = empty })

abbrev pub on_fetch : FetchPoll → PollFetcher → Round
on_fetch unfinished s = give pending s
on_fetch (fetched (err e)) s = give (item (err e)) (record s { state = empty })
on_fetch (fetched (ok [])) s = again (record s { state = delay; prev_count = 0 })
on_fetch (fetched (ok (t ∷ ts))) s =
    again (record s { state = buffered (t ∷ ts); prev_count = length (t ∷ ts) })

-- A popped buffer that is empty leads back to `Ready`.
abbrev pub rest : List Task → StreamState
rest [] = ready
rest (t ∷ ts) = buffered (t ∷ ts)

module _ (ticks : ℕ → DelayPoll) (fetches : ℕ → FetchPoll) where
  abbrev pub round_in : StreamState → PollFetcher → Round
  round_in ready s = again (record s { state = fetch })
  round_in delay s =
      if s.delay_stream
      then on_delay (ticks s.delay_polls) (record s { delay_polls = suc s.delay_polls })
      else give closed (record s { state = empty })
  round_in fetch s = on_fetch (fetches s.fetch_polls) (record s { fetch_polls = suc s.fetch_polls })
  round_in (buffered []) s = again (record s { state = ready })
  round_in (buffered (t ∷ ts)) s = give (item (ok (some t))) (record s { state = rest ts })
  round_in empty s = give closed s

  abbrev pub goes_on :
      (PollFetcher → Option (Polled × PollFetcher)) → Round → Option (Polled × PollFetcher)
  goes_on loop (give r s) = some (r, s)
  goes_on loop (again s) = loop s

  unfoldable pub poll_loop : ℕ → PollFetcher → Option (Polled × PollFetcher)
  poll_loop zero s = none
  poll_loop (suc fuel) s = goes_on (λ s'. poll_loop fuel s') (round_in s.state s)

  -- `poll_next`, which builds the delay stream first.
  unfoldable pub poll_next : ℕ → PollFetcher → Option (Polled × PollFetcher)
  unfolding poll_loop
  poll_next fuel s = poll_loop fuel (record s { delay_stream = true })

abbrev pub pending_tasks : StreamState → List Task
pending_tasks (buffered ts) = ts
pending_tasks ready = []
pending_tasks delay = []
pending_tasks fetch = []
pending_tasks empty = []

abbrev drained : StreamState → StreamState
drained (buffered ts) = buffered []
drained ready = ready
drained delay = delay
drained fetch = fetch
drained empty = empty

-- `take_pending`
unfoldable pub take_pending : PollFetcher → List Task × PollFetcher
take_pending s = (pending_tasks s.state, record s { state = drained s.state })
