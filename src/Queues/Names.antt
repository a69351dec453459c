-- ===== src/Queues/Names.antt =====
-- The names in the listing of queues.
use apalis_surrealdb.Prelude.{
  ℕ, suc, ◌≤◌, ◌≡◌, refl, ap, ◌∙◌, Bool, false, not, ◌||◌, Option, List, [], ◌∷◌, map, filter, any,
  All, arith, ◌==◌,
}
use apalis_surrealdb.Database.{JobRow, WorkerRow, Db}
use apalis_surrealdb.Tx.Slots.{Ascends}
use apalis_surrealdb.Listing.{ActivityRow, daily_activity}
use apalis_surrealdb.Metrics.{Grouping, OverviewRow, overview, Floats}
use apalis_surrealdb.Queues.{
  QueueInfo, group_names, of_queue, QueuesReply, queues_reply, queue_info, from_counts, add_worker,
  add_workers, values, merge_queues,
}
use apalis_surrealdb.Queues.Keyed.{
  keyed, from_counts-keyed, from_counts-Ascends, add_worker-Ascends, add_workers-keyed,
  add_workers-Ascends, from_counts-All, add_worker-All,
}

other_names :
    (n k : ℕ) (names : List ℕ)
    → (k == n || any (λ q. q == n) (filter (λ q. not (q == k)) names))
      ≡ (k == n || any (λ q. q == n) names)
other_names n k [] = refl
other_names n k (q ∷ names) = ground (arith, other_names n k names)

pub group_names-any :
    (n : ℕ) (jobs : List JobRow)
    → any (λ q. q == n) (group_names jobs) ≡ any (λ r. r.queue == n) jobs
unfolding group_names
group_names-any n [] = refl
group_names-any n (r ∷ rs) =
    other_names n r.queue (group_names rs) ∙ ap (λ b. r.queue == n || b) (group_names-any n rs)

module _ (f : Floats) (g : Grouping) where
  abbrev Named : ℕ × QueueInfo f.F → Type 0
  Named e = e.1.name ≡ e.0

  add_workers-Named :
      (rows : List (ℕ × ℕ)) (m : List (ℕ × QueueInfo f.F))
      → Ascends 0 m
      → All Named m
      → All Named (add_workers f g rows m)
  unfolding add_workers
  add_workers-Named [] m a h = h
  add_workers-Named ((w, q) ∷ rows) m a h =
      add_workers-Named rows (add_worker f g q w m) (add_worker-Ascends f g 0 q w m (omega arith) a)
        (add_worker-All f g Named Named q w (λ i e. e) (λ k i n e. e) 0 m (λ n. refl) a h)

  -- The map before its values are taken.
  abbrev pub queues_map : ℕ → QueuesReply → List (ℕ × QueueInfo f.F)
  queues_map today reply =
      add_workers f g reply.workers
        (from_counts f g reply.oldest (daily_activity today reply.activity []) reply.counts [])

  queues_map-Ascends : (today : ℕ) (reply : QueuesReply) → Ascends 0 (queues_map today reply)
  queues_map-Ascends today reply =
      add_workers-Ascends f g reply.workers _
        (from_counts-Ascends f g reply.oldest _ reply.counts [] tt)

  made :
      (oldest : List (ℕ × Option ℕ)) (counts : List (ℕ × OverviewRow))
      → All
          (λ c. (days : List (ℕ × List ℕ)) → Named (c.0, queue_info f g oldest days (c.0, c.1)))
          counts
  made oldest [] = tt
  made oldest ((q, c) ∷ counts) = (λ days. refl, made oldest counts)

  queues_map-Named : (today : ℕ) (reply : QueuesReply) → All Named (queues_map today reply)
  queues_map-Named today reply =
      add_workers-Named reply.workers _ (from_counts-Ascends f g reply.oldest _ reply.counts [] tt)
        (from_counts-All f g Named reply.oldest _ reply.counts [] (made reply.oldest reply.counts)
          tt)

-- Names that increase, from `lo` on.
abbrev pub Increasing : ℕ → List ℕ → Type 0
Increasing lo [] = Unit
Increasing lo (n ∷ ns) = (lo ≤ n) × Increasing (suc n) ns

or_swap : (a b : Bool) → (a || (b || false)) ≡ (b || a)
or_swap a b = ground arith

pub keyed-map :
    (h : ℕ → OverviewRow) (n : ℕ) (names : List ℕ)
    → keyed n (map (λ q. (q, h q)) names) ≡ any (λ q. q == n) names
keyed-map h n [] = refl
keyed-map h n (q ∷ names) = rw (keyed-map h n names) refl

workers-any :
    (n : ℕ) (ws : List WorkerRow)
    → any {A = ℕ × ℕ} (λ p. p.1 == n) (map (λ w. (w.id, w.queue)) ws) ≡ any (λ w. w.queue == n) ws
workers-any n [] = refl
workers-any n (w ∷ ws) = rw (workers-any n ws) refl

module _ (f : Floats) (g : Grouping) where
  values-Increasing :
      (lo : ℕ) (m : List (ℕ × QueueInfo f.F))
      → Ascends lo m
      → All (λ e. e.1.name ≡ e.0) m
      → Increasing lo (map (λ i. i.name) (values f g m))
  values-Increasing lo [] a h = tt
  values-Increasing lo ((k, i) ∷ m) a h = rw h.0 (a.0, values-Increasing (suc k) m a.1 h.1)

  any-values :
      (n : ℕ) (m : List (ℕ × QueueInfo f.F))
      → All (λ e. e.1.name ≡ e.0) m
      → any (λ i. i.name == n) (values f g m) ≡ keyed n m
  any-values n [] h = refl
  any-values n ((k, i) ∷ m) h = rw (h.0, any-values n m h.1) refl

  -- The listing has each queue once, in the order of their names, and it has exactly those queues that
  -- a job or a worker of the database belongs to.
  pub list_queues_names :
      (days : ℕ → List JobRow → List ActivityRow) (today now n : ℕ) (db : Db)
      → let infos = merge_queues f g today (queues_reply g days now db) in
        Increasing 0 (map (λ i. i.name) infos)
        × (any (λ i. i.name == n) infos
            ≡ (any (λ r. r.queue == n) db.jobs || any (λ w. w.queue == n) db.workers))
  unfolding merge_queues queues_reply
  list_queues_names days today now n db =
      let reply = queues_reply g days now db in
      let m = queues_map f g today reply in
      let named = queues_map-Named f g today reply in
      (
        values-Increasing 0 m (queues_map-Ascends f g today reply) named,
        any-values n m named
            ∙ add_workers-keyed f g n reply.workers _
            ∙ rw
                (
                  workers-any n db.workers,
                  from_counts-keyed f g n reply.oldest (daily_activity today reply.activity [])
                      reply.counts [],
                  keyed-map (λ q. overview g now (of_queue q db.jobs)) n (group_names db.jobs),
                  group_names-any n db.jobs,
                )
                (or_swap (any (λ w. w.queue == n) db.workers) (any (λ r. r.queue == n) db.jobs)),
      )
