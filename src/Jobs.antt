-- ===== src/Jobs.antt =====
-- The statements of queries/ on the table `job`, as functions of the rows: the tests that their
-- WHERE clauses share, and what an UPDATE selects and changes.
pub mod Claim
pub mod Work
pub mod Orphans
pub mod Abandoned
pub mod Finished
pub mod Push
pub mod Commands
mod Update
pub mod Sound
pub mod Unique
mod Tests
pub mod Held
pub mod Exclusive
pub mod Taken
pub mod Once
pub mod Reordered
pub mod Rewrites
pub mod Stranded
pub mod Lifecycle
use apalis_surrealdb.Prelude.{
  ℕ, ◌≡◌, Bool, true, false, ◌&&◌, ◌||◌, List, [], ◌∷◌, map, filter, any, if◌then◌else◌, ltb, leb,
  is_none, ==_iff,
}
use apalis_surrealdb.Prelude.Int.{ltb_ℤ}
use apalis_surrealdb.Database.{
  Status, pending, queued, running, done, failed, killed, RecordIdKey, same_id, id_leb, JobRow, Db,
}

-- `status = '…'`
abbrev pub is_pending : Status → Bool
is_pending pending = true
is_pending _ = false

abbrev pub is_queued : Status → Bool
is_queued queued = true
is_queued _ = false

abbrev pub is_running : Status → Bool
is_running running = true
is_running _ = false

abbrev pub is_failed : Status → Bool
is_failed failed = true
is_failed _ = false

abbrev pub is_done : Status → Bool
is_done done = true
is_done _ = false

abbrev pub is_killed : Status → Bool
is_killed killed = true
is_killed _ = false

-- `attempts < max_attempts`
abbrev pub has_attempts : JobRow → Bool
has_attempts r = ltb_ℤ r.attempts r.max_attempts

-- The condition that both claims share, but for the queue.
unfoldable pub is_claimable : ℕ → JobRow → Bool
is_claimable now r =
    (is_pending r.status && is_none r.lock_by || is_failed r.status && has_attempts r)
    && leb r.run_at now

-- `UPDATE … SET … WHERE …`: the rows that the statement leaves, and those that it returns AFTER.
abbrev pub update_where : (JobRow → Bool) → (JobRow → JobRow) → List JobRow → List JobRow
update_where p f = map (λ r. if p r then f r else r)

abbrev pub updated : (JobRow → Bool) → (JobRow → JobRow) → List JobRow → List JobRow
updated p f rows = map f (filter p rows)

-- The row that a record id names, as the target of `UPDATE $id`.
abbrev pub at_id : RecordIdKey → (JobRow → Bool) → JobRow → Bool
at_id id p r = same_id r.id id && p r
