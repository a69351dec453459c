-- ===== src/Fetcher/Poll/Stopped.antt =====
-- `SurrealPollFetcher` in its state `Empty`.
use apalis_surrealdb.Prelude.{
  ℕ, zero, suc, ◌≡◌, refl, Bool, true, false, Option, some, [], ◌∷◌, if◌then◌else◌,
}
use apalis_surrealdb.Session.{ok, err}
use apalis_surrealdb.Fetcher.Poll.{
  StreamState, ready, delay, fetch, buffered, empty, PollFetcher, DelayPoll, waiting, tick, ended,
  FetchPoll, unfinished, fetched, Polled, pending, item, closed, Round, give, again, round_in,
  on_fetch, on_delay, goes_on, poll_loop, poll_next,
}

-- `Poll::Ready(None)` or `Poll::Ready(Some(Err(_)))`.
abbrev pub is_last : Polled → Bool
is_last pending = false
is_last (item (ok t)) = false
is_last (item (err e)) = true
is_last closed = true

abbrev Stopped : Round → Type 0
Stopped (give r s) = is_last r ≡ true → s.state ≡ empty
Stopped (again s) = Unit {0}

module _ (ticks : ℕ → DelayPoll) (fetches : ℕ → FetchPoll) where
  on_delay-Stopped : (d : DelayPoll) (s : PollFetcher) → Stopped (on_delay d s)
  on_delay-Stopped waiting s = λ h. absurd (cc)
  on_delay-Stopped tick s = tt
  on_delay-Stopped ended s = λ h. refl

  on_fetch-Stopped : (f : FetchPoll) (s : PollFetcher) → Stopped (on_fetch f s)
  on_fetch-Stopped unfinished s = λ h. absurd (cc)
  on_fetch-Stopped (fetched (err e)) s = λ h. refl
  on_fetch-Stopped (fetched (ok [])) s = tt
  on_fetch-Stopped (fetched (ok (t ∷ ts))) s = tt

  round-Stopped :
      (st : StreamState) (s : PollFetcher) → s.state ≡ st → Stopped (round_in ticks fetches st s)
  round-Stopped ready s e = tt
  round-Stopped delay s e = built s.delay_stream
    where
      polled : PollFetcher
      polled = record s { delay_polls = suc s.delay_polls }

      built :
          (b : Bool)
          → Stopped (
              if b
              then on_delay (ticks s.delay_polls) polled
              else give closed (record s { state = empty }))
      built true = on_delay-Stopped (ticks s.delay_polls) polled
      built false = λ h. refl
  round-Stopped fetch s e =
      on_fetch-Stopped (fetches s.fetch_polls) (record s { fetch_polls = suc s.fetch_polls })
  round-Stopped (buffered []) s e = tt
  round-Stopped (buffered (t ∷ ts)) s e = λ h. absurd (cc)
  round-Stopped empty s e = λ h. e

  loop-Stopped :
      (r : Polled) (s' : PollFetcher) (loop : PollFetcher → Option (Polled × PollFetcher))
      → is_last r ≡ true
      → ((x : PollFetcher) → loop x ≡ some (r, s') → s'.state ≡ empty)
      → (o : Round) → Stopped o
      → goes_on ticks fetches loop o ≡ some (r, s')
      → s'.state ≡ empty
  loop-Stopped r s' loop l ih (give r₂ s₂) g e =
      let a : r₂ ≡ r = cc in let b : s₂ ≡ s' = cc in rw (← b) (g (rw a l))
  loop-Stopped r s' loop l ih (again s₂) g e = ih s₂ e

  poll_loop-Stopped :
      (fuel : ℕ) (s : PollFetcher) (r : Polled) (s' : PollFetcher)
      → is_last r ≡ true
      → poll_loop ticks fetches fuel s ≡ some (r, s')
      → s'.state ≡ empty
  unfolding poll_loop
  poll_loop-Stopped zero s r s' l h = absurd (cc)
  poll_loop-Stopped (suc fuel) s r s' l h =
      loop-Stopped r s' (λ x. poll_loop ticks fetches fuel x) l
        (λ x. poll_loop-Stopped fuel x r s' l) (round_in ticks fetches s.state s)
        (round-Stopped s.state s refl) h

  -- Once a poll has given an error or the end, every later poll gives the end and polls nothing.
  pub poll_next_stopped :
      (fuel later : ℕ) (s : PollFetcher) (r : Polled) (s' : PollFetcher)
      → is_last r ≡ true
      → poll_next ticks fetches fuel s ≡ some (r, s')
      → poll_next ticks fetches (suc later) s' ≡ some (closed, record s' { delay_stream = true })
  unfolding poll_next poll_loop
  poll_next_stopped fuel later s r s' l h =
      let e : s'.state ≡ empty =
        poll_loop-Stopped fuel (record s { delay_stream = true }) r s' l h in
      rw e refl
