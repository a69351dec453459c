-- ===== src/Fetcher/Poll/Kept.antt =====
-- The tasks that `SurrealPollFetcher` was given by its fetches and has given out.
use apalis_surrealdb.Prelude.{
  ℕ, zero, suc, ◌≡◌, refl, sym, ap, ◌∙◌, Bool, true, false, Option, if◌then◌else◌, none, some, List,
  [], ◌∷◌, ◌++◌, append-nil, append_assoc, subst,
}
use apalis_surrealdb.Session.{ok, err}
use apalis_surrealdb.Tasks.{Task}
use apalis_surrealdb.Fetcher.Poll.{
  StreamState, ready, delay, fetch, buffered, empty, PollFetcher, DelayPoll, waiting, tick, ended,
  FetchPoll, unfinished, fetched, Polled, pending, item, closed, Round, give, again, new, round_in,
  on_fetch, on_delay, on_fetch, on_delay, goes_on, poll_loop, poll_next, pending_tasks,
  take_pending, drained,
}

abbrev batch : FetchPoll → List Task
batch unfinished = []
batch (fetched (ok ts)) = ts
batch (fetched (err e)) = []

-- What the first `n` polls of fetch futures returned.
abbrev pub claimed : (ℕ → FetchPoll) → ℕ → List Task
claimed fetches zero = []
claimed fetches (suc n) = claimed fetches n ++ batch (fetches n)

abbrev pub given : Polled → List Task
given pending = []
given (item (ok none)) = []
given (item (ok (some t))) = t ∷ []
given (item (err e)) = []
given closed = []

abbrev next_state : Round → PollFetcher
next_state (give r s) = s
next_state (again s) = s

abbrev given_by : Round → List Task
given_by (give r s) = given r
given_by (again s) = []

module _ (ticks : ℕ → DelayPoll) (fetches : ℕ → FetchPoll) where
  -- After `ys` was given out, the rest is in the buffer.
  abbrev pub Kept : List Task → PollFetcher → Type 0
  Kept ys s = claimed fetches s.fetch_polls ≡ ys ++ pending_tasks s.state

  -- `nothing` is `[]` up to computation: appended twice, it leaves the list.
  same_list : (ys : List Task) → (ys ++ []) ++ [] ≡ ys ++ []
  same_list ys = ap (λ l. l ++ []) (append-nil ys)

  delay-Kept :
      (ys : List Task) (d : DelayPoll) (s : PollFetcher)
      → s.state ≡ delay
      → claimed fetches s.fetch_polls ≡ ys ++ []
      → Kept (ys ++ given_by (on_delay d s)) (next_state (on_delay d s))
  delay-Kept ys waiting s e k = rw e (k ∙ sym (same_list ys))
  delay-Kept ys tick s e k = k ∙ sym (same_list ys)
  delay-Kept ys ended s e k = k ∙ sym (same_list ys)

  fetch-Kept :
      (ys : List Task) (f : FetchPoll) (s : PollFetcher)
      → s.state ≡ fetch
      → claimed fetches s.fetch_polls ≡ ys ++ batch f
      → Kept (ys ++ given_by (on_fetch f s)) (next_state (on_fetch f s))
  fetch-Kept ys unfinished s e k = rw e (k ∙ sym (same_list ys))
  fetch-Kept ys (fetched (err x)) s e k = k ∙ sym (same_list ys)
  fetch-Kept ys (fetched (ok [])) s e k = k ∙ sym (same_list ys)
  fetch-Kept ys (fetched (ok (t ∷ ts))) s e k = k ∙ ap (λ l. l ++ t ∷ ts) (sym (append-nil ys))

  round-Kept :
      (ys : List Task) (st : StreamState) (s : PollFetcher)
      → s.state ≡ st
      → claimed fetches s.fetch_polls ≡ ys ++ pending_tasks st
      → Kept
          (ys ++ given_by (round_in ticks fetches st s))
          (next_state (round_in ticks fetches st s))
  round-Kept ys ready s e k = k ∙ sym (same_list ys)
  round-Kept ys delay s e k = built s.delay_stream
    where
      built :
          (b : Bool)
          → let o =
              if b
              then on_delay (ticks s.delay_polls) (record s { delay_polls = suc s.delay_polls })
              else give closed (record s { state = empty }) in
            Kept (ys ++ given_by o) (next_state o)
      built true =
          delay-Kept ys (ticks s.delay_polls) (record s { delay_polls = suc s.delay_polls }) e k
      built false = k ∙ sym (same_list ys)
  round-Kept ys fetch s e k =
      fetch-Kept ys (fetches s.fetch_polls) (record s { fetch_polls = suc s.fetch_polls }) e
        (ap (λ l. l ++ batch (fetches s.fetch_polls)) (k ∙ append-nil ys))
  round-Kept ys (buffered []) s e k = k ∙ sym (same_list ys)
  round-Kept ys (buffered (t ∷ [])) s e k = k ∙ sym (append-nil (ys ++ t ∷ []))
  round-Kept ys (buffered (t ∷ u ∷ ts)) s e k = k ∙ sym (append_assoc ys (t ∷ []) (u ∷ ts))
  round-Kept ys empty s e k = rw e (k ∙ sym (same_list ys))

  -- The rest of the loop keeps it, and so does the loop.
  loop-Kept :
      (ys : List Task) (r : Polled) (s' : PollFetcher)
      (loop : PollFetcher → Option (Polled × PollFetcher))
      → ((zs : List Task) (x : PollFetcher)
          → Kept zs x
          → loop x ≡ some (r, s')
          → Kept (zs ++ given r) s')
      → (o : Round) → Kept (ys ++ given_by o) (next_state o)
      → goes_on ticks fetches loop o ≡ some (r, s')
      → Kept (ys ++ given r) s'
  loop-Kept ys r s' loop ih (give r₂ s₂) g e =
      let a : r₂ ≡ r = cc in
      let b : s₂ ≡ s' = cc in
      subst (λ x. Kept (ys ++ given x) s') a (subst (λ x. Kept (ys ++ given r₂) x) b g)
  loop-Kept ys r s' loop ih (again s₂) g e = ih ys s₂ (subst (λ l. Kept l s₂) (append-nil ys) g) e

  poll_loop-Kept :
      (fuel : ℕ) (ys : List Task) (s : PollFetcher) (r : Polled) (s' : PollFetcher)
      → Kept ys s
      → poll_loop ticks fetches fuel s ≡ some (r, s')
      → Kept (ys ++ given r) s'
  unfolding poll_loop
  poll_loop-Kept zero ys s r s' k h = absurd (cc)
  poll_loop-Kept (suc fuel) ys s r s' k h =
      loop-Kept ys r s' (λ x. poll_loop ticks fetches fuel x)
        (λ zs x. poll_loop-Kept fuel zs x r s') (round_in ticks fetches s.state s)
        (round-Kept ys s.state s refl k) h

pending_drained :
    (st : StreamState) → pending_tasks st ++ pending_tasks (drained st) ≡ pending_tasks st
pending_drained (buffered ts) = append-nil ts
pending_drained ready = refl
pending_drained delay = refl
pending_drained fetch = refl
pending_drained empty = refl

-- Polls, and drains by `take_pending`, in any order.
pub data FetcherOp : Type 0 where
  poll : ℕ → FetcherOp
  drain : FetcherOp

module _ (ticks : ℕ → DelayPoll) (fetches : ℕ → FetchPoll) where
  abbrev after_poll : PollFetcher → Option (Polled × PollFetcher) → List Task × PollFetcher
  after_poll s none = ([], s)
  after_poll s (some (r, s')) = (given r, s')

  unfoldable pub run_op : FetcherOp → PollFetcher → List Task × PollFetcher
  run_op (poll fuel) s = after_poll s (poll_next ticks fetches fuel s)
  run_op drain s = take_pending s

  -- The tasks that came out, in order, and the fetcher after.
  abbrev pub run : List FetcherOp → PollFetcher → List Task × PollFetcher
  run [] s = ([], s)
  run (o ∷ os) s = let (ts, s₁) = run_op o s in let (us, s₂) = run os s₁ in (ts ++ us, s₂)

  run_op-Kept :
      (o : FetcherOp) (ys : List Task) (s : PollFetcher)
      → Kept ticks fetches ys s
      → Kept ticks fetches (ys ++ (run_op o s).0) (run_op o s).1
  unfolding run_op take_pending poll_next
  run_op-Kept (poll fuel) ys s k =
      poll-Kept (poll_loop ticks fetches fuel (record s { delay_stream = true })) refl
    where
      poll-Kept :
          (o : Option (Polled × PollFetcher))
          → poll_loop ticks fetches fuel (record s { delay_stream = true }) ≡ o
          → Kept ticks fetches (ys ++ (after_poll s o).0) (after_poll s o).1
      poll-Kept none e = k ∙ ap (λ l. l ++ pending_tasks s.state) (sym (append-nil ys))
      poll-Kept (some (r, s')) e =
          poll_loop-Kept ticks fetches fuel ys (record s { delay_stream = true }) r s' k e
  run_op-Kept drain ys s k =
      k
      ∙ ap (λ l. ys ++ l) (sym (pending_drained s.state))
      ∙ sym (append_assoc ys (pending_tasks s.state) (pending_tasks (drained s.state)))

  run-Kept :
      (ops : List FetcherOp) (ys : List Task) (s : PollFetcher)
      → Kept ticks fetches ys s
      → Kept ticks fetches (ys ++ (run ops s).0) (run ops s).1
  run-Kept [] ys s k = k ∙ ap (λ l. l ++ pending_tasks s.state) (sym (append-nil ys))
  run-Kept (o ∷ os) ys s k =
      let (ts, s₁) = run_op o s in
      let (us, s₂) = run os s₁ in
      subst (λ l. Kept ticks fetches l s₂) (append_assoc ys ts us)
        (run-Kept os (ys ++ ts) s₁ (run_op-Kept o ys s k))

  -- From a new fetcher, whatever is polled and drained: what came out, and then what is buffered, is
  -- exactly what the fetches returned, each task once and in order.
  pub run-kept :
      (ops : List FetcherOp)
      → claimed fetches (run ops new).1.fetch_polls
        ≡ (run ops new).0 ++ pending_tasks (run ops new).1.state
  unfolding new
  run-kept ops = run-Kept ops [] new refl
