-- ===== src/Fetcher/Poll/Returns.antt =====
-- The rounds that a call of `SurrealPollFetcher::poll_next` takes.
use apalis_surrealdb.Prelude.{
  ℕ, zero, suc, ◌+◌, ◌*◌, ◌≤◌, ◌≡◌, ◌≢◌, refl, Bool, true, false, some, List, [], ◌∷◌, arith,
  is_some, length,
}
use native.Mathlib.Nat.{add-zero, add-suc, suc-add}
use apalis_surrealdb.Session.{ok, err}
use apalis_surrealdb.Fetcher.Poll.{
  StreamState, ready, delay, fetch, buffered, empty, PollFetcher, DelayPoll, waiting, tick, ended,
  FetchPoll, unfinished, fetched, Polled, pending, item, closed, give, again, round_in, rest, Task,
  poll_loop, poll_next,
}

module _ (ticks : ℕ → DelayPoll) (fetches : ℕ → FetchPoll) where
  abbrev Returns : ℕ → PollFetcher → Type 0
  Returns bound s = (n : ℕ) → bound ≤ n → is_some (poll_loop ticks fetches n s) ≡ true

  -- With `k` more ticks at most.
  abbrev Stops : ℕ → PollFetcher → Type 0
  Stops k s = ticks (s.delay_polls + k) ≢ tick

  from_again :
      (b : ℕ) (s s' : PollFetcher)
      → round_in ticks fetches s.state s ≡ again s'
      → Returns b s'
      → Returns (suc b) s
  unfolding poll_loop
  from_again b s s' e h zero l = absurd (omega arith)
  from_again b s s' e h (suc n) l = rw e (h n (omega arith))

  from_give :
      (b : ℕ) (s s' : PollFetcher) (r : Polled)
      → round_in ticks fetches s.state s ≡ give r s'
      → Returns (suc b) s
  unfolding poll_loop
  from_give b s s' r e zero l = absurd (omega arith)
  from_give b s s' r e (suc n) l = rw e refl

  from_buffered :
      (b k : ℕ) (s : PollFetcher) (ts : List Task)
      → s.state ≡ buffered ts
      → ((s' : PollFetcher) → s'.state ≡ ready → Stops k s' → Returns b s')
      → Stops k s
      → Returns (suc b) s
  from_buffered b k s [] e next h =
      from_again b s (record s { state = ready }) (rw e refl)
        (next (record s { state = ready }) refl h)
  from_buffered b k s (t ∷ ts) e next h =
      from_give b s (record s { state = rest ts }) (item (ok (some t))) (rw e refl)

  from_fetch :
      (b k : ℕ) (s : PollFetcher) (f : FetchPoll)
      → s.state ≡ fetch
      → fetches s.fetch_polls ≡ f
      → ((s' : PollFetcher) → s'.state ≡ delay → Stops k s' → Returns (suc b) s')
      → Stops k s
      → Returns (suc (suc b)) s
  from_fetch b k s f e h next hs = after f h
    where
      polled : PollFetcher
      polled = record s { fetch_polls = suc s.fetch_polls }

      after : (f : FetchPoll) → fetches s.fetch_polls ≡ f → Returns (suc (suc b)) s
      after unfinished f = from_give (suc b) s polled pending (rw (e, f) refl)
      after (fetched (err x)) f =
          from_give (suc b) s (record polled { state = empty }) (item (err x)) (rw (e, f) refl)
      after (fetched (ok [])) f =
          let s' = record polled { state = delay; prev_count = 0 } in
          from_again (suc b) s s' (rw (e, f) refl) (next s' refl hs)
      after (fetched (ok (t ∷ ts))) f =
          let s' = record polled { state = buffered (t ∷ ts); prev_count = length (t ∷ ts) } in
          from_again (suc b) s s' (rw (e, f) refl)
            (from_give b s' (record s' { state = rest ts }) (item (ok (some t))) refl)

  from_ready :
      (b k : ℕ) (s : PollFetcher)
      → s.state ≡ ready
      → ((s' : PollFetcher) → s'.state ≡ delay → Stops k s' → Returns (suc b) s')
      → Stops k s
      → Returns (suc (suc (suc b))) s
  from_ready b k s e next h =
      from_again _ s (record s { state = fetch }) (rw e refl)
        (from_fetch b k (record s { state = fetch }) (fetches s.fetch_polls) refl refl next h)

  weaken : (b c : ℕ) (s : PollFetcher) → b ≤ c → Returns b s → Returns c s
  weaken b c s l r n h = r n (omega arith)

  stuck : (k : ℕ) (s : PollFetcher) → Stops k s → k ≡ 0 → ticks s.delay_polls ≢ tick
  stuck k s h z = λ t. h (rw (z, add-zero) t)

  -- By the answer of the delay stream, if it has been built.
  from_tick :
      (k : ℕ) (s : PollFetcher) (d : DelayPoll) (b : Bool)
      → ticks s.delay_polls ≡ d
      → s.delay_stream ≡ b
      → s.state ≡ delay
      → (d ≡ tick
          → b ≡ true
          → Returns (3 * k) (record s { state = ready; delay_polls = suc s.delay_polls }))
      → Returns (suc (3 * k)) s
  from_tick k s d false t b e next =
      from_give (3 * k) s (record s { state = empty }) closed (rw (e, b) refl)
  from_tick k s waiting true t b e next =
      from_give (3 * k) s (record s { delay_polls = suc s.delay_polls }) pending (rw (e, b, t) refl)
  from_tick k s ended true t b e next =
      from_give (3 * k) s (record s { state = empty; delay_polls = suc s.delay_polls }) closed
        (rw (e, b, t) refl)
  from_tick k s tick true t b e next =
      from_again (3 * k) s (record s { state = ready; delay_polls = suc s.delay_polls })
        (rw (e, b, t) refl) (next refl refl)

  from_delay : (k : ℕ) (s : PollFetcher) → s.state ≡ delay → Stops k s → Returns (suc (3 * k)) s
  from_delay zero s e h =
      from_tick 0 s (ticks s.delay_polls) s.delay_stream refl refl e
        λ t _. absurd (stuck 0 s h refl t)
  from_delay (suc k) s e h =
      from_tick (suc k) s (ticks s.delay_polls) s.delay_stream refl refl e λ t _.
        let s' = record s { state = ready; delay_polls = suc s.delay_polls } in
        weaken _ _ s' (omega arith)
          (from_ready (3 * k) k s' refl (from_delay k) λ t'. h (rw (add-suc, ← suc-add) t'))

  from_any :
      (k : ℕ) (s : PollFetcher) (st : StreamState)
      → s.state ≡ st
      → Stops k s
      → Returns (3 * k + 4) s
  from_any k s ready e h = weaken _ _ s (omega arith) (from_ready (3 * k) k s e (from_delay k) h)
  from_any k s delay e h = weaken _ _ s (omega arith) (from_delay k s e h)
  from_any k s fetch e h =
      weaken _ _ s (omega arith)
        (from_fetch (3 * k) k s (fetches s.fetch_polls) e refl (from_delay k) h)
  from_any k s (buffered ts) e h = weaken _ _ s (omega arith) (
      from_buffered (3 * k + 3) k s ts e
        (λ s' e' h'. weaken _ _ s' (omega arith) (from_ready (3 * k) k s' e' (from_delay k) h')) h)
  from_any k s empty e h = weaken 1 _ s (omega arith) (from_give 0 s s closed (rw e refl))

  -- If the delay stream ticks at most `k` times before it makes the fetcher wait or ends, `poll_next`
  -- returns within `3 * k + 4` rounds, at any state and whatever the fetches answer.
  pub poll_next_returns :
      (k : ℕ) (s : PollFetcher) (fuel : ℕ)
      → ticks (s.delay_polls + k) ≢ tick
      → 3 * k + 4 ≤ fuel
      → is_some (poll_next ticks fetches fuel s) ≡ true
  unfolding poll_next
  poll_next_returns k s fuel h l =
      from_any k (record s { delay_stream = true }) s.state refl h fuel l
