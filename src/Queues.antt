-- ===== src/Queues.antt =====
-- src/queries/list_queues.rs: every queue with its statistics, workers and activity.
--
-- A `BTreeMap` by queue name is a list of pairs in the order of their names.
pub mod Keyed
pub mod Names
pub mod Statistics
pub mod Entries
pub mod Replies
mod Tests
use apalis_surrealdb.Prelude.{
  ℕ, zero, suc, Bool, not, Option, none, some, List, [], ◌∷◌, ◌++◌, map, filter, any, if◌then◌else◌,
  ltb, ◌==◌,
}
use apalis_surrealdb.Prelude.Int.{ℤ}
use apalis_surrealdb.Database.{JobRow, WorkerRow, Db, database}
use apalis_surrealdb.Session.{
  Result, ok, err, Server, World, commit, Response, Session, ◌>>=◌, lift, transact, error_at,
}
use apalis_surrealdb.Tx.{insert}
use apalis_surrealdb.Listing.{ActivityRow, daily_activity, zeros}
use apalis_surrealdb.Metrics.{
  Grouping, OverviewRow, in_backlog, default_row, overview, oldest_unix, Floats, Statistic,
  build_statistics,
}

pub record QueueInfo (F : Type 0) : Type 0 where
  pub name : ℕ
  pub stats : List (Statistic F)
  pub workers : List ℕ
  pub activity : List ℕ

-- The groups of `GROUP BY queue`, in the order in which the server meets them.
unfoldable pub group_names : List JobRow → List ℕ
group_names [] = []
group_names (r ∷ rs) = r.queue ∷ filter (λ q. not (q == r.queue)) (group_names rs)

-- The rows of the four statements.
pub record QueuesReply : Type 0 where
  pub counts : List (ℕ × OverviewRow)
  pub oldest : List (ℕ × Option ℕ)
  pub activity : List ActivityRow
  pub workers : List (ℕ × ℕ)

abbrev pub of_queue : ℕ → List JobRow → List JobRow
of_queue queue jobs = filter (λ r. r.queue == queue) jobs

-- The activity rows are a parameter of the reply: `time::floor(done_at, 1d)` and the groups by day.
unfoldable pub queues_reply : Grouping → (ℕ → List JobRow → List ActivityRow) → ℕ → Db → QueuesReply
unfolding group_names overview oldest_unix
queues_reply g days now db = record {
  counts = map (λ q. (q, overview g now (of_queue q db.jobs))) (group_names db.jobs);
  oldest =
      map (λ q. (q, oldest_unix now (of_queue q db.jobs)))
        (group_names (filter (in_backlog now) db.jobs));
  activity = days now db.jobs;
  workers = map (λ w. (w.id, w.queue)) db.workers;
}

-- `get(&name).copied().flatten()`, where a later row of the name replaces an earlier one.
abbrev pub lookup_oldest : Grouping → ℕ → Option ℤ → List (ℕ × Option ℕ) → Option ℤ
lookup_oldest g q found [] = found
lookup_oldest g q found ((k, o) ∷ rows) =
    let to_int : Option ℤ = elim o [ none ↦ g.nothing_to_int | some n ↦ g.min_to_int n ] in
    lookup_oldest g q (if k == q then to_int else found) rows

-- `remove(&name).unwrap_or_else(…)`, and what the map keeps.
abbrev pub activity_of : ℕ → List (ℕ × List ℕ) → List ℕ
activity_of q [] = zeros
activity_of q ((k, days) ∷ daily) = let rest = activity_of q daily in if k == q then days else rest

abbrev pub without : ℕ → List (ℕ × List ℕ) → List (ℕ × List ℕ)
without q daily = filter (λ e. not (e.0 == q)) daily

module _ (f : Floats) (g : Grouping) where
  abbrev pub queue_info : List (ℕ × Option ℕ) → List (ℕ × List ℕ) → ℕ × OverviewRow → QueueInfo f.F
  queue_info oldest daily (q, counts) = record {
    name = q;
    stats = build_statistics f counts (lookup_oldest g q none oldest);
    workers = [];
    activity = activity_of q daily;
  }

  -- `counts.into_iter().map(…).collect()`
  unfoldable pub from_counts :
      List (ℕ × Option ℕ)
      → List (ℕ × List ℕ)
      → List (ℕ × OverviewRow)
      → List (ℕ × QueueInfo f.F)
      → List (ℕ × QueueInfo f.F)
  from_counts oldest daily [] queues = queues
  from_counts oldest daily ((q, c) ∷ counts) queues =
      from_counts oldest (without q daily) counts (insert q (queue_info oldest daily (q, c)) queues)

  abbrev pub new_queue : ℕ → QueueInfo f.F
  new_queue q = record {
    name = q;
    stats = build_statistics f default_row none;
    workers = [];
    activity = zeros;
  }

  abbrev pub push_worker : ℕ → QueueInfo f.F → QueueInfo f.F
  push_worker worker info = record info { workers = info.workers ++ worker ∷ [] }

  -- `queues.entry(row.queue).or_insert_with(…).workers.push(row.name)`
  unfoldable pub add_worker : ℕ → ℕ → List (ℕ × QueueInfo f.F) → List (ℕ × QueueInfo f.F)
  add_worker q worker [] = (q, push_worker worker (new_queue q)) ∷ []
  add_worker q worker ((k, info) ∷ queues) =
      let rest = add_worker q worker queues in
      if ltb q k
      then (q, push_worker worker (new_queue q)) ∷ (k, info) ∷ queues
      else if q == k
      then (k, push_worker worker info) ∷ queues
      else (k, info) ∷ rest

  unfoldable pub add_workers : List (ℕ × ℕ) → List (ℕ × QueueInfo f.F) → List (ℕ × QueueInfo f.F)
  unfolding add_worker
  add_workers [] queues = queues
  add_workers ((w, q) ∷ rows) queues = add_workers rows (add_worker q w queues)

  abbrev pub values : List (ℕ × QueueInfo f.F) → List (QueueInfo f.F)
  values queues = map (λ e. e.1) queues

  -- What the program makes of the four replies. `today` is its own day since the epoch.
  unfoldable pub merge_queues : ℕ → QueuesReply → List (QueueInfo f.F)
  unfolding from_counts add_workers daily_activity
  merge_queues today reply =
      let daily = daily_activity today reply.activity [] in
      values (add_workers reply.workers (from_counts reply.oldest daily reply.counts []))

  abbrev pub merged : ℕ → List QueuesReply → List (QueueInfo f.F)
  merged today [] = []
  merged today (reply ∷ _) = merge_queues today reply

  -- The four `take`s in their order.
  abbrev pub take_all : ℕ → Response QueuesReply → Result (List (QueueInfo f.F))
  take_all today response = elim (error_at 0 response.errors) [
    | some e ↦ err (database e)
    | none ↦ elim (error_at 1 response.errors) [
      | some e ↦ err (database e)
      | none ↦ elim (error_at 2 response.errors) [
        | some e ↦ err (database e)
        | none ↦ elim (error_at 3 response.errors) [
          | some e ↦ err (database e)
          | none ↦ ok (merged today response.rows)
        ]
      ]
    ]
  ]

  unfoldable pub list_queues :
      Server → (ℕ → List JobRow → List ActivityRow) → ℕ → Session (List (QueueInfo f.F))
  unfolding merge_queues queues_reply
  list_queues server days today =
      transact server (λ now db. commit db (queues_reply g days now db ∷ [])) >>= λ response.
      lift (take_all today response)
