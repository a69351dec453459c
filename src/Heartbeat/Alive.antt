-- ===== src/Heartbeat/Alive.antt =====
-- `keep_alive` of keep_alive.rs against the sweep of reenqueue_orphaned.surql.
use apalis_surrealdb.Prelude.{
  ℕ, suc, ◌+◌, ◌*◌, ◌/◌, ◌^◌, ◌≤◌, ◌<◌, max, ◌≡◌, refl, ◌∙◌, Bool, true, false, not, some, none,
  List, [], ◌∷◌, map, filter, any, arith, ◌==◌, ◌&&◌, if◌then◌else◌, All, is_empty, Bool-cases, inl,
  inr,
}
use apalis_surrealdb.Prelude.Int.{pos, add_one}
use apalis_surrealdb.Database.{pending, WorkerRow, JobRow, Db, worker_not_found, err as err_value}
use apalis_surrealdb.Jobs.Rewrites.{Rewrites, update_where-Rewrites}
use apalis_surrealdb.Jobs.Abandoned.{Abandoned, is_orphan-Abandoned, Abandoned-is_orphan}
use apalis_surrealdb.Session.{ok, err, answered, Server, World, transact}
use apalis_surrealdb.Session.Bind.{>>=-ok}
use apalis_surrealdb.Session.Retry.{transact-answered}
use apalis_surrealdb.Fetch.{Config}
use apalis_surrealdb.Jobs.Orphans.{
  live_instances, is_orphan, reenqueue_update, reenqueue_row, at_most_ago,
}
use apalis_surrealdb.Heartbeat.{
  effective_reenqueue_millis, keep_alive, keep_alive_query, seen, seen_rows,
}
use apalis_surrealdb.Heartbeat.Window.{effective_reenqueue_millis_lem}

-- The table after the worker's rows were refreshed.
abbrev pub refresh : ℕ → ℕ → Db → Db
refresh instance now db = record db {
  workers = map (λ w. if w.id == instance then seen now w else w) db.workers;
}

abbrev pub registered : ℕ → Db → Bool
registered instance db = any (λ w. w.id == instance) db.workers

is_empty-seen :
    (instance now : ℕ) (ws : List WorkerRow)
    → is_empty (map (seen now) (filter (λ w. w.id == instance) ws))
      ≡ not (any (λ w. w.id == instance) ws)
is_empty-seen instance now [] = refl
is_empty-seen instance now (w ∷ ws) = ground (arith, is_empty-seen instance now ws)

module _ (server : Server) (w : World) (answers : server.reply w.queries ≡ answered []) where
  abbrev before : Db
  before = server.elsewhere w.queries w.db

  abbrev now : ℕ
  now = server.clock w.queries

  -- With an error-free reply, `keep_alive` succeeds exactly if the worker has a row, whose
  -- `last_seen` is then the current time, and is `WorkerNotFound` otherwise; no row of another id
  -- changes.
  keep_alive-refresh :
      (instance : ℕ)
      → keep_alive server instance w ≡ (
        if registered instance before then ok tt else err (worker_not_found instance),
        record { db = refresh instance now before; queries = suc w.queries },
      )
  unfolding keep_alive
  keep_alive-refresh instance =
      >>=-ok (transact server (keep_alive_query instance)) (seen_rows server instance) w (
        transact-answered server (keep_alive_query instance) w (refresh instance now before)
          (map (seen now) (filter (λ v. v.id == instance) before.workers)) answers
          (unfold keep_alive_query in refl))
      ∙ rw (is_empty-seen instance now before.workers)
          (elim (Bool-cases (registered instance before)) [ inl e ↦ rw e | inr e ↦ rw e ])

-- Rows of the worker's id are its own.
abbrev pub IsOwn : ℕ → ℕ → WorkerRow → Type 0
IsOwn queue instance w = w.id == instance ≡ true → (w.instance ≡ instance) × (w.queue ≡ queue)

live_after :
    (queue instance dur seen_at now : ℕ) (ws : List WorkerRow)
    → now ≤ seen_at + dur
    → All (IsOwn queue instance) ws
    → any (λ w. w.id == instance) ws ≡ true
    → any
        (λ v. v == instance)
        (map
          (λ w. w.instance)
          (filter
            (λ w. w.queue == queue && at_most_ago now dur w.last_seen)
            (map (λ w. if w.id == instance then seen seen_at w else w) ws)))
      ≡ true
live_after queue instance dur seen_at now [] l a h = absurd (cc)
live_after queue instance dur seen_at now (w ∷ ws) l (own, a) h =
    elim (Bool-cases (w.id == instance)) [
      | inl e ↦ let (i, q) = own e in rw e (ground (arith, i, q, l))
      | inr e ↦
          let rest = live_after queue instance dur seen_at now ws l a (ground arith) in
          rw e (ground (arith, rest))
    ]

inside_spares :
    (queue instance dur now later : ℕ) (db : Db) (r : JobRow)
    → any (λ v. v == instance) (live_instances queue dur now db) ≡ true
    → r.lock_by ≡ some instance
    → is_orphan queue dur later (live_instances queue dur now db) r ≡ false
unfolding is_orphan
inside_spares queue instance dur now later db r h k = rw (k, h) (ground arith)

module _ (server : Server) (w : World) (answers : server.reply w.queries ≡ answered []) where
  -- A worker whose `keep_alive` succeeded, with an error-free reply, loses no job: a sweep with the
  -- configured window that reads the workers within twice the keep-alive interval of that
  -- heartbeat, from the table that the heartbeat left, takes none of the jobs that the worker holds
  -- for an orphan, whenever its UPDATE then runs. The intervals fit an i64 of milliseconds, and the
  -- rows with the worker's id are its own.
  pub keep_alive_spares :
      (config : Config) (instance now later : ℕ) (r : JobRow)
      → config.keep_alive * 2 / 1000000 < 2 ^ 63
      → config.reenqueue_orphaned_after / 1000000 < 2 ^ 63
      → All (IsOwn config.queue instance) (server.elsewhere w.queries w.db).workers
      → (keep_alive server instance w).0 ≡ ok tt
      → now ≤ server.clock w.queries + config.keep_alive * 2 / 1000000
      → r.lock_by ≡ some instance
      → (dur : ℕ) × (effective_reenqueue_millis config ≡ pos dur)
        × (is_orphan config.queue dur later
              (live_instances config.queue dur now (keep_alive server instance w).1.db)
              r
            ≡ false)
  keep_alive_spares config instance now later r k a own done l held =
      let dur = max (config.reenqueue_orphaned_after / 1000000) (config.keep_alive * 2 / 1000000) in
      let db = server.elsewhere w.queries w.db in
      let refreshed = keep_alive-refresh server w answers instance in
      let here = found instance (registered instance db) (rw refreshed at done) in
      (
        dur,
        effective_reenqueue_millis_lem config k a,
        rw refreshed (
            inside_spares config.queue instance dur now later
              (refresh instance (server.clock w.queries) db) r
              (unfold live_instances in
                live_after config.queue instance dur (server.clock w.queries) now db.workers
                  (omega arith) own here)
              held),
      )
    where
      found :
          (i : ℕ) (b : Bool) → (if b then ok tt else err (worker_not_found i)) ≡ ok tt → b ≡ true
      found i true h = refl
      found i false h = absurd (cc)

reenqueued_free :
    (queue dur now : ℕ) (live : List ℕ) (r : JobRow)
    → is_orphan queue dur now live (reenqueue_row r) ≡ false
unfolding is_orphan reenqueue_row
reenqueued_free queue dur now live r = ground arith

-- The UPDATE of a sweep returns exactly the abandoned jobs: those of the queue that have been locked for
-- longer than the window and are queued or running under a worker that is not live, or queued under none.
-- Each is then pending without holder, lock time and end, with one attempt more and the sweep's error as
-- its result; no other field or row changes. Run again at once, with the same live workers, it finds none.
pub reenqueue_update_complete :
    (queue dur now : ℕ) (live : List ℕ) (db : Db)
    → Rewrites
        (Abandoned queue dur now live)
        (λ r. record r {
          status = pending;
          attempts = add_one r.attempts;
          last_result = some (err_value 0);
          lock_at = none;
          lock_by = none;
          done_at = none;
        })
        db.jobs
        (reenqueue_update queue dur now live db).jobs
      × (any (is_orphan queue dur now live) (reenqueue_update queue dur now live db).jobs ≡ false)
unfolding reenqueue_update
reenqueue_update_complete queue dur now live db = (
  update_where-Rewrites (Abandoned queue dur now live)
      (λ r. record r {
        status = pending;
        attempts = add_one r.attempts;
        last_result = some (err_value 0);
        lock_at = none;
        lock_by = none;
        done_at = none;
      })
      (is_orphan queue dur now live) reenqueue_row (is_orphan-Abandoned queue dur now live)
      (Abandoned-is_orphan queue dur now live) (unfold reenqueue_row in λ r. refl) db.jobs,
  no_orphan db.jobs,
)
  where
    no_orphan :
        (rows : List JobRow)
        → any
            (is_orphan queue dur now live)
            (map (λ r. if is_orphan queue dur now live r then reenqueue_row r else r) rows)
          ≡ false
    no_orphan [] = refl
    no_orphan (r ∷ rows) = elim (Bool-cases (is_orphan queue dur now live r)) [
      | inl e ↦ rw (e, reenqueued_free queue dur now live r) (no_orphan rows)
      | inr e ↦ rw (e, e) (no_orphan rows)
    ]
