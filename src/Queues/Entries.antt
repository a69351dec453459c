-- ===== src/Queues/Entries.antt =====
-- What the listing says of each queue.
use apalis_surrealdb.Prelude.{
  ℕ, ◌≡◌, refl, sym, ap, subst, ◌∙◌, Bool, false, ◌||◌, Option, List, [], ◌∷◌, ◌++◌, map, filter,
  All, All-imp, arith, ◌==◌, append-nil, append_assoc, none, if◌then◌else◌,
}
use apalis_surrealdb.Database.{JobRow, WorkerRow, Db}
use apalis_surrealdb.Tx.Slots.{Ascends}
use apalis_surrealdb.Listing.{ActivityRow, daily_activity}
use apalis_surrealdb.Metrics.{
  Grouping, OverviewRow, default_row, overview, overview_query, oldest_unix, Floats, Statistic,
  build_statistics, statistics, in_backlog,
}
use apalis_surrealdb.Queues.{
  QueueInfo, group_names, of_queue, queue_info, queues_reply, from_counts, add_worker, add_workers,
  values, merge_queues,
}
use apalis_surrealdb.Queues.Keyed.{
  keyed, from_counts-keyed, add_worker-keyed, add_worker-Ascends, add_worker-All, from_counts-All,
  from_counts-Ascends,
}
use apalis_surrealdb.Queues.Names.{queues_map, group_names-any, keyed-map}
use apalis_surrealdb.Queues.Statistics.{
  no_jobs, lookup_oldest-oldest_unix, overview-nil, statistics-cases,
}

-- The workers among the rows whose queue it is, in the order of the rows.
abbrev pub workers_of : ℕ → List (ℕ × ℕ) → List ℕ
workers_of q rows = map (λ p. p.0) (filter (λ p. p.1 == q) rows)

workers_of-snoc :
    (q w k : ℕ) (rows : List (ℕ × ℕ))
    → workers_of q (rows ++ (w, k) ∷ [])
      ≡ (if k == q then workers_of q rows ++ w ∷ [] else workers_of q rows)
workers_of-snoc q w k [] = ground arith
workers_of-snoc q w k ((v, j) ∷ rows) = ground (arith, workers_of-snoc q w k rows)

or_nil : {a : Bool} → (a || false) ≡ false → a ≡ false
or_nil e = ground arith

module _ (f : Floats) (g : Grouping) (now : ℕ) (jobs : List JobRow)
    (nothing : g.nothing_to_int ≡ none) where
  -- What `fetch_by_queue` gives for a queue.
  abbrev queue_statistics : ℕ → List (Statistic f.F)
  queue_statistics q = statistics f g (overview_query g now (of_queue q jobs) ∷ [])

  -- After some of the workers' rows: each queue has its statistics and its workers so far.
  abbrev Listed : List (ℕ × ℕ) → ℕ × QueueInfo f.F → Type 0
  Listed rows e =
      (e.1.name ≡ e.0) × (e.1.stats ≡ queue_statistics e.0) × (e.1.workers ≡ workers_of e.0 rows)

  -- A queue that is not in the map has no job and, so far, no worker.
  record Right (rows : List (ℕ × ℕ)) (m : List (ℕ × QueueInfo f.F)) : Type 0 where
    ascends : Ascends 0 m
    listed : All (Listed rows) m
    no_job : (q : ℕ) → keyed q m ≡ false → of_queue q jobs ≡ []
    no_worker : (q : ℕ) → keyed q m ≡ false → workers_of q rows ≡ []

  new_queue-stats :
      (q : ℕ) → of_queue q jobs ≡ [] → build_statistics f default_row none ≡ queue_statistics q
  unfolding oldest_unix
  new_queue-stats q none_of = sym (
      statistics-cases g now nothing f (of_queue q jobs)
      ∙ rw (none_of, overview-nil g now nothing)
          (ap (λ o. build_statistics f default_row o) nothing))

  add_worker-Right :
      (rows : List (ℕ × ℕ)) (m : List (ℕ × QueueInfo f.F)) (w q : ℕ)
      → Right rows m
      → Right (rows ++ (w, q) ∷ []) (add_worker f g q w m)
  add_worker-Right rows m w q r =
      let gone : (k : ℕ) → keyed k (add_worker f g q w m) ≡ false → (q == k || keyed k m) ≡ false =
        λ k e. sym (add_worker-keyed f g k q w m) ∙ e in
      record {
        ascends = add_worker-Ascends f g 0 q w m (omega arith) r.ascends;
        listed =
            add_worker-All f g (Listed rows) (Listed (rows ++ (w, q) ∷ [])) q w
              (λ i h. (
                h.0,
                h.1,
                ap (λ l. l ++ w ∷ []) h.2 ∙ sym (workers_of-snoc q w q rows ∙ ground arith),
              ))
              (λ k i n h. (h.0, h.1, h.2 ∙ sym (workers_of-snoc k w q rows ∙ ground arith))) 0 m
              (λ new. (
                refl,
                new_queue-stats q (r.no_job q new),
                ap (λ l. l ++ w ∷ []) (sym (r.no_worker q new))
                    ∙ sym (workers_of-snoc q w q rows ∙ ground arith),
              ))
              r.ascends r.listed;
        no_job = λ k e. let both = gone k e in r.no_job k (ground arith);
        no_worker = λ k e.
            let both = gone k e in workers_of-snoc k w q rows ∙ ground (arith, r.no_worker k);
      }

  add_workers-Right :
      (before rows : List (ℕ × ℕ)) (m : List (ℕ × QueueInfo f.F))
      → Right before m
      → Right (before ++ rows) (add_workers f g rows m)
  unfolding add_workers
  add_workers-Right before [] m r = rw (append-nil before) r
  add_workers-Right before ((w, q) ∷ rows) m r =
      subst (λ l. Right l (add_workers f g rows (add_worker f g q w m)))
        (append_assoc before ((w, q) ∷ []) rows)
        (add_workers-Right (before ++ (w, q) ∷ []) rows (add_worker f g q w m)
          (add_worker-Right before m w q r))

  -- The first three replies.
  abbrev oldest : List (ℕ × Option ℕ)
  oldest =
      map (λ q. (q, oldest_unix now (of_queue q jobs))) (group_names (filter (in_backlog now) jobs))

  abbrev counts : List (ℕ × OverviewRow)
  counts = map (λ q. (q, overview g now (of_queue q jobs))) (group_names jobs)

  made-Listed :
      (names : List ℕ)
      → All
          (λ c. (days : List (ℕ × List ℕ)) → Listed [] (c.0, queue_info f g oldest days (c.0, c.1)))
          (map {B = ℕ × OverviewRow} (λ q. (q, overview g now (of_queue q jobs))) names)
  made-Listed [] = tt
  made-Listed (q ∷ names) = (
    λ days. (
      refl,
      rw (lookup_oldest-oldest_unix g now nothing q jobs)
          (sym (statistics-cases g now nothing f (of_queue q jobs))),
      refl,
    ),
    made-Listed names,
  )

  from_counts-Right :
      (daily : List (ℕ × List ℕ)) → Right [] (from_counts f g oldest daily counts [])
  from_counts-Right daily = record {
    ascends = from_counts-Ascends f g oldest daily counts [] tt;
    listed =
        from_counts-All f g (Listed []) oldest daily counts [] (made-Listed (group_names jobs)) tt;
    no_job = λ q gone.
        let in_counts : keyed q counts ≡ false =
          or_nil (sym (from_counts-keyed f g q oldest daily counts []) ∙ gone) in
        no_jobs q jobs (
          sym (group_names-any q jobs)
          ∙ sym (keyed-map (λ k. overview g now (of_queue k jobs)) q (group_names jobs))
          ∙ in_counts);
    no_worker = λ q gone. refl;
  }

All-values :
    (f : Floats) (g : Grouping) (P : QueueInfo f.F → Type 0) (m : List (ℕ × QueueInfo f.F))
    → All (λ e. P e.1) m
    → All P (values f g m)
All-values f g P [] h = tt
All-values f g P ((k, i) ∷ m) h = (h.0, All-values f g P m h.1)

worker_ids :
    (n : ℕ) (ws : List WorkerRow)
    → workers_of n (map (λ w. (w.id, w.queue)) ws) ≡ map (λ w. w.id) (filter (λ w. w.queue == n) ws)
worker_ids n [] = refl
worker_ids n (w ∷ ws) = ground (arith, worker_ids n ws)

-- What the listing says of a queue: its statistics, as `fetch_by_queue` makes them, and its workers.
abbrev pub Shown : (f : Floats) → Grouping → ℕ → Db → QueueInfo f.F → Type 0
Shown f g now db i =
    (i.stats ≡ statistics f g (overview_query g now (filter (λ r. r.queue == i.name) db.jobs) ∷ []))
    × (i.workers ≡ map (λ w. w.id) (filter (λ w. w.queue == i.name) db.workers))

Listed-Shown :
    (f : Floats) (g : Grouping) (now : ℕ) (db : Db) (nothing : g.nothing_to_int ≡ none)
    (e : ℕ × QueueInfo f.F)
    → Listed f g now db.jobs nothing (map (λ w. (w.id, w.queue)) db.workers) e
    → Shown f g now db e.1
Listed-Shown f g now db nothing e h = (
  h.1 ∙ ap (λ n. queue_statistics f g now db.jobs nothing n) (sym h.0),
  h.2
      ∙ ap (λ n. workers_of n (map (λ w. (w.id, w.queue)) db.workers)) (sym h.0)
      ∙ worker_ids e.1.name db.workers,
)

-- The whole listing, of one reply.
pub list_queues_entries :
    (f : Floats) (g : Grouping) (days : ℕ → List JobRow → List ActivityRow) (today now : ℕ)
    (db : Db)
    → g.nothing_to_int ≡ none
    → All (λ i. Shown f g now db i) (merge_queues f g today (queues_reply g days now db))
unfolding merge_queues queues_reply
list_queues_entries f g days today now db nothing =
    let reply = queues_reply g days now db in
    let right =
      add_workers-Right f g now db.jobs nothing [] reply.workers
        (from_counts f g reply.oldest (daily_activity today reply.activity []) reply.counts [])
        (from_counts-Right f g now db.jobs nothing (daily_activity today reply.activity [])) in
    All-values f g (λ i. Shown f g now db i) (queues_map f g today reply)
      (All-imp (Listed f g now db.jobs nothing reply.workers) (λ e. Shown f g now db e.1)
        (queues_map f g today reply) (Listed-Shown f g now db nothing) right.listed)
