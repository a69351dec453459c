-- ===== src/Jobs/Finished.antt =====
-- queries/backend/vacuum.surql and fetch_completed_tasks.surql.
use apalis_surrealdb.Prelude.{ℕ, Bool, ◌&&◌, ◌||◌, not, List, [], ◌∷◌, ◌++◌, filter}
use apalis_surrealdb.Prelude.Int.{leb_ℤ}
use apalis_surrealdb.Database.{JobRow, Db, RecordIdKey, same_id}
use apalis_surrealdb.Session.{Outcome, commit}
use apalis_surrealdb.Jobs.{is_done, is_killed, is_failed}

-- `status IN ['Done', 'Killed'] OR (status = 'Failed' AND attempts >= max_attempts)`
unfoldable pub is_purged : JobRow → Bool
is_purged r =
    is_done r.status || is_killed r.status || is_failed r.status && leb_ℤ r.max_attempts r.attempts

unfoldable pub vacuum_query : ℕ → Db → Outcome JobRow
unfolding is_purged
vacuum_query now db =
    commit (record db { jobs = filter (λ r. not (is_purged r)) db.jobs }) (filter is_purged db.jobs)

-- `status = 'Done' OR (status = 'Failed' AND attempts >= max_attempts) OR status = 'Killed'`
unfoldable pub is_completed : JobRow → Bool
is_completed r =
    is_done r.status || is_failed r.status && leb_ℤ r.max_attempts r.attempts || is_killed r.status

-- `SELECT … FROM $ids WHERE …` goes through the ids in the order given.
unfoldable pub completed_rows : List RecordIdKey → List JobRow → List JobRow
unfolding is_completed
completed_rows [] jobs = []
completed_rows (i ∷ is) jobs =
    filter (λ r. same_id r.id i && is_completed r) jobs ++ completed_rows is jobs

unfoldable pub completed_query : List RecordIdKey → ℕ → Db → Outcome JobRow
unfolding completed_rows
completed_query ids now db = commit db (completed_rows ids db.jobs)
