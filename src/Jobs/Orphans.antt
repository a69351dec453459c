-- ===== src/Jobs/Orphans.antt =====
-- queries/backend/reenqueue_orphaned.surql: three statements, each on its own.
use apalis_surrealdb.Prelude.{
  ℕ, ◌+◌, Bool, false, ◌&&◌, ◌||◌, not, Option, none, some, List, map, filter, any, leb, ltb, ◌==◌,
  is_none, is_some,
}
use apalis_surrealdb.Prelude.Int.{add_one}
use apalis_surrealdb.Database.{pending, err, JobRow, Db}
use apalis_surrealdb.Jobs.{is_queued, is_running, update_where, updated}

-- `t <= time::now() - d` and `t >= time::now() - d`, over datetimes that are never negative.
abbrev pub at_most_ago : ℕ → ℕ → ℕ → Bool
at_most_ago now d t = leb now (t + d)

abbrev pub at_least_ago : ℕ → ℕ → ℕ → Bool
at_least_ago now d t = leb (t + d) now

-- `LET $live = SELECT VALUE instance FROM worker WHERE …`
unfoldable pub live_instances : ℕ → ℕ → ℕ → Db → List ℕ
live_instances queue dur now db =
    map (λ w. w.instance)
      (filter (λ w. w.queue == queue && at_most_ago now dur w.last_seen) db.workers)

abbrev pub inside : Option ℕ → List ℕ → Bool
inside none live = false
inside (some w) live = any (λ v. v == w) live

abbrev pub locked_before : ℕ → ℕ → Option ℕ → Bool
locked_before now dur none = false
locked_before now dur (some t) = at_least_ago now dur t

unfoldable pub is_orphan : ℕ → ℕ → ℕ → List ℕ → JobRow → Bool
is_orphan queue dur now live r =
    r.queue == queue
    && locked_before now dur r.lock_at
    && ((is_queued r.status || is_running r.status)
          && is_some r.lock_by
          && not (inside r.lock_by live)
        || is_queued r.status && is_none r.lock_by)

-- The text `Re-enqueued: locking worker instance is no longer live.`
abbrev reenqueued_text : ℕ
reenqueued_text = 0

unfoldable pub reenqueue_row : JobRow → JobRow
reenqueue_row r = record r {
  status = pending;
  attempts = add_one r.attempts;
  last_result = some (err reenqueued_text);
  lock_at = none;
  lock_by = none;
  done_at = none;
}

-- The UPDATE, and the rows that it changed.
unfoldable pub reenqueue_update : ℕ → ℕ → ℕ → List ℕ → Db → Db
unfolding is_orphan reenqueue_row
reenqueue_update queue dur now live db = record db {
  jobs = update_where (is_orphan queue dur now live) reenqueue_row db.jobs;
}

unfoldable pub reenqueued_rows : ℕ → ℕ → ℕ → List ℕ → Db → List JobRow
unfolding is_orphan reenqueue_row
reenqueued_rows queue dur now live db = updated (is_orphan queue dur now live) reenqueue_row db.jobs

-- `DELETE worker WHERE queue = $queue AND last_seen < time::now() - duration::from_millis($dur * 4)`
unfoldable pub delete_stale : ℕ → ℕ → ℕ → Db → Db
delete_stale queue quadruple now db = record db {
  workers = filter (λ w. not (w.queue == queue && ltb (w.last_seen + quadruple) now)) db.workers;
}
