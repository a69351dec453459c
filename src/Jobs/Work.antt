-- ===== src/Jobs/Work.antt =====
-- queries/task/lock_task.surql, ack_task.surql and kill_task.surql.
use apalis_surrealdb.Prelude.{ℕ, Bool, true, ◌&&◌, ◌||◌, none, some, holds, is_none}
use apalis_surrealdb.Prelude.Int.{ℤ}
use apalis_surrealdb.Database.{Status, running, killed, RecordIdKey, Json, JobRow, Db, err}
use apalis_surrealdb.Session.{Outcome, commit}
use apalis_surrealdb.Jobs.{is_queued, is_pending, is_failed, update_where, updated, at_id}

-- An `UPDATE $id SET … WHERE … RETURN AFTER`, as a query of its own.
unfoldable pub update_one : RecordIdKey → (JobRow → Bool) → (JobRow → JobRow) → Db → Outcome JobRow
update_one id p f db =
    commit (record db { jobs = update_where (at_id id p) f db.jobs })
      (updated (at_id id p) f db.jobs)

unfoldable pub can_lock : ℕ → JobRow → Bool
can_lock worker r =
    (holds r.lock_by worker || is_none r.lock_by)
    && (is_queued r.status || is_pending r.status || is_failed r.status)

unfoldable pub lock_row : ℕ → ℕ → JobRow → JobRow
lock_row worker now r = record r { status = running; lock_at = some now; lock_by = some worker }

unfoldable pub lock_task_query : RecordIdKey → ℕ → ℕ → Db → Outcome JobRow
unfolding update_one can_lock lock_row
lock_task_query id worker now = update_one id (can_lock worker) (lock_row worker now)

unfoldable pub can_ack : ℕ → JobRow → Bool
can_ack worker r = holds r.lock_by worker

unfoldable pub ack_row : Status → ℤ → Json → ℕ → JobRow → JobRow
ack_row status attempts result now r = record r {
  status = status;
  attempts = attempts;
  last_result = some result;
  done_at = some now;
}

unfoldable pub ack_task_query : RecordIdKey → ℕ → Status → ℤ → Json → ℕ → Db → Outcome JobRow
unfolding update_one can_ack ack_row
ack_task_query id worker status attempts result now =
    update_one id (can_ack worker) (ack_row status attempts result now)

unfoldable pub kill_row : ℕ → ℕ → JobRow → JobRow
kill_row reason now r = record r {
  status = killed;
  last_result = some (err reason);
  lock_at = none;
  lock_by = none;
  done_at = some now;
}

unfoldable pub kill_task_query : RecordIdKey → ℕ → ℕ → Db → Outcome JobRow
unfolding update_one kill_row
kill_task_query id reason now = update_one id (λ _. true) (kill_row reason now)
