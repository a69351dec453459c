-- ===== src/Fetcher/Live/Backoff.antt =====
-- The backoff of `SurrealLiveFetcher` in src/fetcher.rs.
use apalis_surrealdb.Prelude.{
  ℕ, zero, suc, ◌*◌, ◌^◌, ◌≤◌, min, ◌≡◌, ◌≢◌, refl, Bool, true, false, List, [], ◌∷◌, All, arith,
}
use native.Mathlib.Nat.{pow-suc}
use apalis_surrealdb.Fetcher.Live.{
  Action, create, update, delete, killed, SubscribePoll, subscribing_still, subscribed, refused,
  StreamPoll, silent, notified, broken, ended, LiveState, init, subscribing, active, backing_off,
  LiveFetcher, LivePolled, LiveRound, give, again, new, back_off, on_subscribe, on_stream, on_timer,
  live_round, goes_on, poll_next, poll_all,
}

-- The first `k` delays while nothing is heard, the latest first: 1, 2, 4, 8, 16, 30, 30, …
abbrev pub schedule : ℕ → List ℕ
schedule zero = []
schedule (suc k) = min (2 ^ k) 30 ∷ schedule k

module _ (subscriptions : ℕ → SubscribePoll) (stream : ℕ → StreamPoll) (timer : ℕ → Bool)
    (I : ℕ → List ℕ → Type 0) (fails : (b : ℕ) (ds : List ℕ) → I b ds → I (min (b * 2) 30) (b ∷ ds))
    (hears : (n : ℕ) (a : Action)
      → stream n ≡ notified a
      → (b : ℕ) (ds : List ℕ) → I b ds
      → I 1 ds) where
  abbrev Inv : LiveFetcher → Type 0
  Inv s = I s.backoff s.delays

  abbrev After : LiveRound → Type 0
  After (give r s) = Inv s
  After (again s) = Inv s

  on_subscribe-After : (p : SubscribePoll) (s : LiveFetcher) → Inv s → After (on_subscribe p s)
  unfolding back_off
  on_subscribe-After subscribing_still s i = i
  on_subscribe-After subscribed s i = i
  on_subscribe-After refused s i = fails s.backoff s.delays i

  on_stream-After :
      (p : StreamPoll) (s : LiveFetcher) (n : ℕ) → stream n ≡ p → Inv s → After (on_stream p s)
  unfolding back_off
  on_stream-After silent s n e i = i
  on_stream-After (notified create) s n e i = hears n create e s.backoff s.delays i
  on_stream-After (notified update) s n e i = hears n update e s.backoff s.delays i
  on_stream-After (notified delete) s n e i = hears n delete e s.backoff s.delays i
  on_stream-After (notified killed) s n e i = hears n killed e s.backoff s.delays i
  on_stream-After broken s n e i = i
  on_stream-After ended s n e i = fails s.backoff s.delays i

  on_timer-After : (b : Bool) (s : LiveFetcher) → Inv s → After (on_timer b s)
  on_timer-After true s i = i
  on_timer-After false s i = i

  live_round-After :
      (st : LiveState) (s : LiveFetcher)
      → Inv s
      → After (live_round subscriptions stream timer st s)
  live_round-After init s i = i
  live_round-After subscribing s i = on_subscribe-After (subscriptions s.subscribe_polls) _ i
  live_round-After active s i = on_stream-After (stream s.stream_polls) _ s.stream_polls refl i
  live_round-After (backing_off d) s i = on_timer-After (timer s.timer_polls) _ i

  goes_on-Inv :
      (loop : LiveFetcher → LivePolled × LiveFetcher)
      → ((s : LiveFetcher) → Inv s → Inv (loop s).1)
      → (o : LiveRound) → After o
      → Inv (goes_on subscriptions stream timer loop o).1
  goes_on-Inv loop ih (give r s) i = i
  goes_on-Inv loop ih (again s) i = ih s i

  poll_next-Inv :
      (fuel : ℕ) (s : LiveFetcher) → Inv s → Inv (poll_next subscriptions stream timer fuel s).1
  unfolding poll_next
  poll_next-Inv zero s i = i
  poll_next-Inv (suc fuel) s i =
      goes_on-Inv (λ x. poll_next subscriptions stream timer fuel x) (poll_next-Inv fuel)
        (live_round subscriptions stream timer s.state s) (live_round-After s.state s i)

  poll_all-Inv :
      (fuels : List ℕ) (s : LiveFetcher) → Inv s → Inv (poll_all subscriptions stream timer fuels s)
  unfolding poll_all
  poll_all-Inv [] s i = i
  poll_all-Inv (fuel ∷ fuels) s i = poll_all-Inv fuels _ (poll_next-Inv fuel s i)

-- The next delay, and the ones before it.
record Doubled (b : ℕ) (ds : List ℕ) : Type 0 where
  failures : ℕ
  next : b ≡ min (2 ^ failures) 30
  past : ds ≡ schedule failures

doubled : (b : ℕ) (ds : List ℕ) → Doubled b ds → Doubled (min (b * 2) 30) (b ∷ ds)
doubled b ds d = record {
  failures = suc d.failures;
  next = rw (d.next, pow-suc) (omega arith);
  past = rw (d.next, d.past) refl;
}

abbrev pub Bounded : ℕ → Type 0
Bounded d = (1 ≤ d) × (d ≤ 30)

module _ (subscriptions : ℕ → SubscribePoll) (stream : ℕ → StreamPoll) (timer : ℕ → Bool) where
  -- Whatever happens, every timer that is started waits for one to thirty seconds.
  delays-Bounded :
      (fuels : List ℕ) → All Bounded (poll_all subscriptions stream timer fuels new).delays
  unfolding new
  delays-Bounded fuels =
      (poll_all-Inv subscriptions stream timer (λ b ds. Bounded b × All Bounded ds)
        (λ b ds i. (omega (arith, i.0.0, i.0.1), i)) (λ n a e b ds i. (omega arith, i.1)) fuels new
        (omega arith, tt)).1

  -- As long as no notification arrives, the timers that were started waited 1, 2, 4, 8, 16 and then
  -- 30 seconds each time.
  pub delays_doubled :
      (fuels : List ℕ)
      → ((n : ℕ) (a : Action) → stream n ≢ notified a)
      → (k : ℕ) × ((poll_all subscriptions stream timer fuels new).delays ≡ schedule k)
  unfolding new
  delays_doubled fuels h =
      let d =
        poll_all-Inv subscriptions stream timer Doubled doubled (λ n a e b ds i. absurd (h n a e))
          fuels new (record { failures = 0; next = refl; past = refl }) in
      (d.failures, d.past)
